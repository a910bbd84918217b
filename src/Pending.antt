-- ===== src/Pending.antt =====
-- src/classification.rs: the pending slice, in which candidates wait for the scripts they spend.
pub mod State
pub mod Facts
pub mod Candidates
pub mod Bounds
pub mod Retained
pub mod Window
pub mod Reach
pub mod Ready
pub mod Evaluate
pub mod Evaluated
pub mod Waves
pub mod WaveEnds
