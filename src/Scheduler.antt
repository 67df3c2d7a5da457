-- ===== src/Scheduler.antt =====
-- fsasm-first/src/fsasm/scheduler.py: the query for the next task of a run.
pub mod Order
pub mod Query
pub mod Sound
pub mod Activates
unfoldable pub use Order.*
