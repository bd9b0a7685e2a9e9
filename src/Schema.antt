-- ===== src/Schema.antt =====
-- apps/engine/src/schema.rs: the compiled view of a table, its keys and rows, and schema drift.
pub mod Keys
pub mod Compile
pub mod Rows
pub mod Sample
pub mod Drift
pub mod Serves
pub mod Unchanged
pub mod Columns
pub mod Projected
mod Examples
