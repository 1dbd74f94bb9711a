-- ===== src/Aggregate.antt =====
-- internal/aggregate: the nightly build of the published tree.
pub mod Gate
pub mod Publish
pub mod Cells
