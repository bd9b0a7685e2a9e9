-- ===== src/Output.antt =====
-- apps/engine/src/engine/output.rs: from the envelopes of the change log to Z-set deltas, and from
-- the deltas of a shape to the envelopes of its stream; and a reader of the stream.
pub mod Codec
pub mod Translate
mod Grouping
pub mod Client
pub mod Deleted
pub mod Standalone
mod Examples
