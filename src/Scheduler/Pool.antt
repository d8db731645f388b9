-- ===== src/Scheduler/Pool.antt =====
-- The sessions of the pool and of the active streams, through every part of a quantum.
pub mod Frame
pub mod Retire
pub mod Owns
pub mod Quantum
pub mod Batch
pub mod Intake
pub mod Loop
pub mod Resets
