-- ===== src/PkDict.antt =====
-- apps/engine/src/pk_dict.rs: the append-only dictionary of primary keys, and threads that share it.
pub mod Intern
pub mod Inverse
pub mod Threads
mod Examples
