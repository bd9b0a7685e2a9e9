-- ===== src/Params.antt =====
-- apps/engine/src/params.rs: the parameters of a shape request and their substitution into the
-- where clause.
pub mod Substitute
pub mod Skeleton
pub mod Ends
pub mod Keys
pub mod Numbered
pub mod Provided
mod Examples
