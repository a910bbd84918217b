-- ===== src/Runtime.antt =====
-- src/runtime.rs and src/runtime/publisher.rs: the sources, their published state and the rounds.
pub mod State
pub mod Publish
pub mod Lookup
pub mod History
pub mod Commits
pub mod Order
pub mod Coherence
pub mod Interleaved
pub mod Calls
pub mod Sources
pub mod Registry
pub mod Turns
pub mod Fair
pub mod Outcome
