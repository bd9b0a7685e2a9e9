-- ===== src/TxnBuffer.antt =====
-- apps/engine/src/txn_buffer.rs: the buffer of one transaction, which spills to a file of lines,
-- and its drain into append-sized chunks.
pub mod Wire
pub mod Buffer
pub mod Drain
pub mod Lines
pub mod Packing
pub mod Delivery
pub mod Drained
pub mod Pushing
mod Sample
mod Examples
