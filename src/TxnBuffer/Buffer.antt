-- ===== src/TxnBuffer/Buffer.antt =====
-- apps/engine/src/txn_buffer.rs, `TxnBuffer`: one transaction, held in memory until it spills to a
-- file of lines. A file is its list of bytes. Each call that touches the
-- file takes whether the file operations that it makes succeed.
use electric_circuits.Prelude.{
  ℕ, ◌+◌, Bool, false, Option, none, some, List, [], ◌∷◌, ◌++◌, length, leb, ltb, if◌then◌else◌,
}
use electric_circuits.Value.{ℤ, Text}
use electric_circuits.Envelope.{Envelope}
use electric_circuits.TxnBuffer.Wire.{Serde, Bytes, newline}

pub record TxnBufferConfig : Type 0 where
  pub memory_bytes : ℕ
  pub append_bytes : ℕ
  pub spill_dir : Text

-- The values that every envelope of a commit is stamped with.
pub record Stamp : Type 0 where
  pub lsn : Text
  pub txid : Text

pub record Spill : Type 0 where
  pub file : Bytes
  pub bytes : ℕ

pub record TxnBuffer (J : Type 0) : Type 0 where
  pub xid : ℕ
  pub cfg : TxnBufferConfig
  pub mem : List (Envelope J)
  pub mem_bytes : ℕ
  pub spill : Option Spill
  pub count : ℕ
  pub buffered_bytes : ℕ
  pub raw_bytes : ℕ
  pub sync : Option ℤ

unfoldable pub new : {J : Type 0} → ℕ → TxnBufferConfig → TxnBuffer J
new xid cfg = record {
  xid = xid;
  cfg = cfg;
  mem = [];
  mem_bytes = 0;
  spill = none;
  count = 0;
  buffered_bytes = 0;
  raw_bytes = 0;
  sync = none;
}

abbrev pub set_sync : {J : Type 0} → ℤ → TxnBuffer J → TxnBuffer J
set_sync n buf = record buf { sync = some n }

-- `write_spilled`: the line, then a newline.
abbrev pub write_spilled : Bytes → Spill → Spill
write_spilled line s = record {
  file = s.file ++ (line ++ newline ∷ []);
  bytes = s.bytes + (length line + 1);
}

module _ {J : Type 0} (serde : Serde J) where
  unfoldable pub write_all : List (Envelope J) → Spill → Spill
  write_all [] s = s
  write_all (env ∷ envs) s = write_all envs (write_spilled (serde.to_vec env) s)

  -- The file is created empty, everything buffered is written to it, and the memory is released.
  unfoldable pub begin_spill : Bool → TxnBuffer J → Option (TxnBuffer J)
  unfolding write_all
  begin_spill io buf =
      if io
      then some (record buf {
        spill = some (write_all buf.mem (record { file = []; bytes = 0 }));
        mem = [];
        mem_bytes = 0;
      })
      else none

  abbrev pub over_cap : TxnBuffer J → Bool
  over_cap buf =
      if ltb 0 buf.cfg.memory_bytes then leb buf.cfg.memory_bytes buf.mem_bytes else false

  -- The counters of `push`, which are raised whatever follows.
  abbrev pub count_env : Envelope J → ℕ → TxnBuffer J → TxnBuffer J
  count_env env raw_len buf = record buf {
    count = buf.count + 1;
    buffered_bytes = buf.buffered_bytes + serde.memory_bytes env;
    raw_bytes = buf.raw_bytes + raw_len;
  }

  abbrev pub hold : Envelope J → TxnBuffer J → TxnBuffer J
  hold env buf = record buf {
    mem_bytes = buf.mem_bytes + serde.memory_bytes env;
    mem = buf.mem ++ env ∷ [];
  }

  -- The memory is spilled once it reaches the cap.
  unfoldable pub settle : Bool → TxnBuffer J → Option (TxnBuffer J)
  unfolding begin_spill
  settle io buf = if over_cap buf then begin_spill io buf else some buf

  unfoldable pub push_to : Bool → Envelope J → TxnBuffer J → Option Spill → Option (TxnBuffer J)
  unfolding settle
  push_to io env buf (some s) =
      if io then some (record buf { spill = some (write_spilled (serde.to_vec env) s) }) else none
  push_to io env buf none = settle io (hold env buf)

  -- `none`: a file operation failed, and the error propagates.
  unfoldable pub push : Bool → Envelope J → ℕ → TxnBuffer J → Option (TxnBuffer J)
  unfolding push_to
  push io env raw_len buf = push_to io env (count_env env raw_len buf) buf.spill

  -- `?` on the result of a push.
  abbrev pub push_next :
      (TxnBuffer J → Option (TxnBuffer J)) → Option (TxnBuffer J) → Option (TxnBuffer J)
  push_next next none = none
  push_next next (some buf) = next buf

  -- A run of pushes: each with whether its file operations succeed, its envelope and its raw length.
  unfoldable pub push_all : List (Bool × Envelope J × ℕ) → TxnBuffer J → Option (TxnBuffer J)
  unfolding push
  push_all [] buf = some buf
  push_all ((io, env, raw_len) ∷ calls) buf = push_next (push_all calls) (push io env raw_len buf)
