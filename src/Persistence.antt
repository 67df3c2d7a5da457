-- ===== src/Persistence.antt =====
-- fsasm-first/src/fsasm/persistence.py: identifiers, the run directory, the authoritative snapshot.
pub mod Identifier
pub mod Accepted
pub mod Disk
pub mod Goal
pub mod Restored
pub mod Snapshot
