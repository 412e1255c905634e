-- ===== src/Jobs.antt =====
-- The durable work jobs of services/activity_repository.py.
pub mod Tables
pub mod Leases
pub mod Commands
pub mod History
pub mod Refinement
pub mod Leasing
pub mod Fencing
pub mod Dispatch
pub mod Redrive
pub mod Invariant
