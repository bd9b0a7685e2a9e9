-- ===== src/Aggregate.antt =====
-- apps/engine/src/engine/executors.rs: the aggregates that are kept incrementally over the rows that
-- match a predicate.
pub mod Fold
pub mod Weights
pub mod Counts
pub mod Sum
pub mod Extremes
pub mod FirstKey
pub mod Seed
pub mod Exact
mod Examples
