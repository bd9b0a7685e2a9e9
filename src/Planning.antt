-- ===== src/Planning.antt =====
-- apps/engine/src/engine/planning.rs: which COUNT aggregates the counts pipeline can serve.
pub mod Counts
pub mod Holds
pub mod Children
pub mod Exact
mod Examples
