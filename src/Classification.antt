-- ===== src/Classification.antt =====
-- src/classification.rs: the publication of evidence, and the bounds of the pipeline.
pub mod Evidence
pub mod Valid
pub mod Batches
pub mod BatchBounds
pub mod BatchCover
pub mod Report
pub mod Cache
pub mod CacheEntries
pub mod CacheBounds
pub mod CacheInsert
