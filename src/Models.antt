-- ===== src/Models.antt =====
-- fsasm-first/src/fsasm/models.py: the domain records, in four parts.
mod Status
mod Task
mod Run
mod Ids
mod Invariants
unfoldable pub use Status.*
unfoldable pub use Task.*
unfoldable pub use Run.*
unfoldable pub use Ids.*
unfoldable pub use Invariants.*
