-- ===== src/Domain.antt =====
-- fsasm-first/src/fsasm/domain.py, the Domain Core: the transition matrices, the domain events and
-- `apply_event`.
pub mod Matrix
pub mod Events
pub mod Register
pub mod Tasks
pub mod Apply
pub mod Effect
pub mod Refinement
pub mod Frame
pub mod Authority
pub mod Status
pub mod Budget
pub mod Gate
pub mod Coherent
