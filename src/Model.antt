-- ===== src/Model.antt =====
-- src/model.rs: the public data model.
pub mod Catalog
pub mod Error
pub mod Rules
pub mod Entry
pub mod EntryBounds
pub mod Snapshot
pub mod Source
pub mod Window
pub mod Counts
pub mod Validation
pub mod NoPanic
pub mod Observation
pub mod Matching
pub mod Reflexive
pub mod Materialize
pub mod Progress
