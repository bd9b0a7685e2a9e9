-- ===== src/Lib.antt =====
-- Formal model of the electric-circuits engine (apps/engine/src), which ingests the logical
-- replication of PostgreSQL into a segmented change log and keeps live queries in sync.
--
-- The parts. The replication ingestor decodes messages (PgOutput), buffers a transaction until its
-- commit (TxnBuffer), and appends its chunks to the current segment of the change log (ChangeLog).
-- The sequencer reads the log and routes each row by the compiled predicates of the shapes
-- (Predicate, over the cells of Value); row keys are interned (PkDict), and a shape with a subquery
-- emits its deletes through the keys that it has delivered (FeedSets). Indexes name the shapes that a
-- change can affect (Routing), aggregates fold the rows that match (Aggregate) or add up groups
-- of a counts pipeline (Planning), and the codec turns envelopes into deltas of rows and the deltas of a
-- shape into envelopes (Output, over the compiled tables of Schema). The where clause of a request is
-- closed by its parameters (Params). A sweep retires shapes (Retention) and deletes the
-- segments that nothing needs (ChangeLog.Deletion).
--
-- Predicate: apps/engine/src/predicate.rs and fault.rs. Ast has the data; Eval has `eval_ctx` with
-- the loops of its AND and OR arms, `cmp`, `ordering` and `matches_ctx`; Like has `like_match`, whose
-- loop has the fuel `like_fuel` (each backtrack moves the start of the last `%`, and between two the
-- pattern only advances); Access has `access_leaf`, and Template has `equality_template`. A float is
-- an element of a parameter with a total order (the `ordered-float` crate). Meaning states what SQL
-- says of a predicate apart from the code, with the set of each subquery as a list of values.
-- Retention: apps/engine/src/retention.rs. `plan_sweep` tier by tier: `goes_dormant`,
-- `replay_verdict`, `ttl_verdict`, `unparkable_verdict`, and the loops of the caps, which recurse on
-- the queue they draw from.
-- TxnBuffer: apps/engine/src/txn_buffer.rs. Buffer has `push` and `begin_spill`; Drain has
-- `next_chunk`, `next_stamped` and `next_raw`. A file is its bytes, and a call that touches it takes
-- whether the file operations succeed. The serializer is the parameter `Serde` (Wire). The fuel of
-- `fill` is what is left to read and two more, and that of `drain_all` is a parameter.
-- ChangeLog: apps/engine/src/changelog.rs. Position has the positions, the control envelopes and the
-- policy; Writer has the shared state and the writer, whose durable-streams client is the parameter
-- `DsClient`; Server states what the server does; Deletion has `plan_segment_deletion`. Segments are
-- `u32`, with the wrap-around in `next_segment`. The walk keeps the bound of a million of the source,
-- and `append_commit` its eight attempts.
-- PgOutput: apps/engine/src/pgoutput.rs. Decode has `decode` and its reader; Encode has the bytes that
-- PostgreSQL documents. The lossy decoding of UTF-8 is a parameter.
-- PkDict: apps/engine/src/pk_dict.rs. Intern has the tables; Threads interleaves the sections that
-- `get_or_insert` runs under a lock. Beyond 2^32 keys a `u32` id wraps around, which the code does
-- not guard against.
-- Params: apps/engine/src/params.rs. Keys has `parse_params` and `validate_param_keys`, over the
-- parameter `ParamJson` (serde_json). Substitute has `substitute`, with a round of fuel for each
-- character and one for the end.
-- FeedSets: apps/engine/src/subq_feed.rs and the emission of apps/engine/src/subquery.rs. FeedSet has
-- the bitmaps, which are the parameter `Bitmap` (the roaring crate); Emission evaluates the
-- candidates of one shape, without a query-back in flight; Replay has a reader of the stream;
-- Latest has `latest_rows_by_pk`, and Flips `fold_refcount_flips`, of
-- apps/engine/src/engine/membership.rs.
-- Value: Encoding has the JSON and key encodings of apps/engine/src/value.rs over the parameter
-- `JsonLib` (serde_json and the standard library's floats); Decimal has the text of integers, whose
-- digits need no more rounds than the number and one more.
-- Shutdown: apps/engine/src/shutdown.rs. Token has the state behind the locks; Process takes the
-- sections of `begin`, which hold no common lock, registrations and drops in any order; Wait has the polls of `wait_for_parties`, one round for each
-- 10 milliseconds of the timeout and two more; Grace has the periods from the environment.
-- Schema: apps/engine/src/schema.rs. Compile has `TableSchema::from_def`; Keys has the composite keys;
-- Rows has `key_string`, `row_from_json` and `row_to_json_cols`, over the parameter `ObjectLib` (the
-- objects of serde_json); Drift has `still_serves` and `describe_drift`, without the order of the
-- messages on columns; Columns has `resolve_columns` of apps/engine/src/engine/executors.rs.
-- Output: apps/engine/src/engine/output.rs. Codec has `apply_envelope` and the absolute envelopes;
-- Translate has `translate_output`; Deleted has `agg_envelope`; Client replays a stream;
-- Standalone composes the two with `eval_standalone` of apps/engine/src/engine/executors.rs, from a
-- change of the table to the stream.
-- Routing: the indexes that name the shapes a change can affect. Standalone is `StandaloneIndex` of
-- apps/engine/src/engine/executors.rs; Subquery is `SubqueryShapeIndex` of
-- apps/engine/src/subq_index.rs, with its bitmaps in Bound. Postings and Tidy have their maps of
-- posting lists, and Scan and Probe the loops of `candidates`, which both share. Complete takes a
-- history of the index as a list of creations and drops. The last element of the source's `free`
-- is the head of the list.
-- Aggregate: the aggregates of apps/engine/src/engine/executors.rs. Fold has `fold_agg_row`, `AggSeed`
-- and `AggShape`, over the parameter `FloatLib` (the arithmetic of `f64`), with the wrap-around of
-- `i64` and `i128` (Value.Arith); Exact compares the answers with the weights of the matching rows.
-- Planning: apps/engine/src/engine/planning.rs, `plan_circuit_agg`, with the predicates as JSON and
-- their compilation in Predicate.Compile, on the paths that reject subqueries.
-- Value and Envelope: apps/engine/src/value.rs and the envelope of apps/engine/src/ds.rs. Prelude
-- passes on the library names, and has orders, lists, maps and sets. The modules named Examples and
-- Sample hold concrete runs.
--
-- Not modelled: input and output over HTTP and PostgreSQL, the dataflow circuits (the dbsp crate), the
-- asynchronous orchestration of the sequencer, the catalog and the life cycle, the rest of the
-- subquery registry, the SQL parser, the configuration, and the metrics.
mod Prelude
pub mod Value
pub mod Envelope
pub mod Schema
pub mod Predicate
pub mod Retention
pub mod TxnBuffer
pub mod ChangeLog
pub mod PkDict
pub mod FeedSets
pub mod Output
pub mod Routing
pub mod Aggregate
pub mod Planning
pub mod Shutdown
pub mod Params
pub mod PgOutput
