-- ===== src/Routing.antt =====
-- The routing indexes: apps/engine/src/engine/executors.rs, `StandaloneIndex`, and
-- apps/engine/src/subq_index.rs, `SubqueryShapeIndex`, which file each shape under its necessary
-- conjunct.
pub mod Postings
pub mod Scan
pub mod Probe
pub mod Columns
pub mod Probed
pub mod Delisted
pub mod Live
pub mod Exact
pub mod Registered
pub mod Standalone
pub mod Listed
pub mod Filed
pub mod Complete
pub mod Tidy
pub mod Bound
pub mod Subquery
pub mod Bitmaps
pub mod Buckets
pub mod Interning
pub mod Named
pub mod Held
pub mod Reached
mod Examples
