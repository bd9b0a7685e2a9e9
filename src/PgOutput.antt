-- ===== src/PgOutput.antt =====
-- apps/engine/src/pgoutput.rs: the decoder of the logical replication messages, and the encoding
-- that PostgreSQL documents for them.
pub mod Message
pub mod Decode
pub mod Encode
pub mod Fields
pub mod RoundTrip
mod Examples
