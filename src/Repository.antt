-- ===== src/Repository.antt =====
-- fsasm-first/src/fsasm/state_repository.py and runtime_lifecycle.py: the revision-aware commit
-- boundary over the snapshot, and the two ways into a run.
pub mod Commit
pub mod Lifecycle
pub mod Laws
pub mod Storable
pub mod Written
pub mod Revisions
pub mod Recovery
