-- ===== src/Scheduler.antt =====
-- rust/minicpm-scheduler/src/lib.rs: the single worker that owns the GPU and its sessions, and the
-- admission of jobs into its queue.
pub mod Types
pub mod Host
pub mod Log
pub mod Gen
pub mod Retire
pub mod Intake
pub mod Quantum
pub mod Worker
pub mod Pool
pub mod Admission
mod Tests
