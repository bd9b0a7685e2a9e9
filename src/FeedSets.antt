-- ===== src/FeedSets.antt =====
-- apps/engine/src/subq_feed.rs: the keys that each subquery shape has delivered, and the emission of
-- apps/engine/src/subquery.rs that they gate.
pub mod FeedSet
pub mod Emission
pub mod Synced
pub mod Replay
pub mod Latest
pub mod Flips
pub mod Sample
mod Examples
