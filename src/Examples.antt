-- ===== src/Examples.antt =====
-- A small run, step by step, and the theorems of the other modules at its states.
mod Runs
mod Domain
mod Scheduler
mod Disk
mod Agents
mod Routing
mod Driver
mod Plans
mod Attempts
