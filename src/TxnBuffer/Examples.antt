-- ===== src/TxnBuffer/Examples.antt =====
-- A transaction of apps/engine/src/txn_buffer.rs, of three envelopes, that spills after the second.
use electric_circuits.Prelude.{
  ℕ, ◌≡◌, refl, Bool, true, false, none, some, List, [], ◌∷◌, length, All, nat_ord, arith,
}
use electric_circuits.Envelope.{Envelope}
use electric_circuits.TxnBuffer.Lines.{file_of}
use electric_circuits.TxnBuffer.Buffer.{TxnBuffer, TxnBufferConfig, Stamp, new, push_all}
use electric_circuits.TxnBuffer.Drain.{drain, drain_all, mark_last}
use electric_circuits.TxnBuffer.Packing.{Item, stamped}
use electric_circuits.TxnBuffer.Delivery.{Fits, marked, concat, envelopes}
use electric_circuits.TxnBuffer.Pushing.{Buffered, envs_of, push_all-Buffered}
use electric_circuits.TxnBuffer.Drained.{drain_all-chunks, drain_all-in_order}
use electric_circuits.TxnBuffer.Sample.{a_serde}

abbrev change : ℕ → Envelope ℕ
change n = record {
  type_ = [];
  key = n ∷ [];
  value = some n;
  old = none;
  headers = record {
    operation = [];
    txid = none;
    offset = none;
    lsn = none;
    seq = none;
    last = none;
  };
}

-- The memory holds less than two, and a chunk about two.
abbrev tiny : TxnBufferConfig
tiny = record { memory_bytes = 2; append_bytes = 240; spill_dir = [] }

abbrev calls : List (Bool × Envelope ℕ × ℕ)
calls = (false, change 1, 5) ∷ (true, change 2, 5) ∷ (true, change 3, 5) ∷ []

abbrev changes : List (Envelope ℕ)
changes = change 1 ∷ change 2 ∷ change 3 ∷ []

abbrev spilled : TxnBuffer ℕ
spilled = record {
  xid = 8;
  cfg = tiny;
  mem = [];
  mem_bytes = 0;
  spill =
      some (record { file = file_of a_serde changes; bytes = length (file_of a_serde changes) });
  count = 3;
  buffered_bytes = 3;
  raw_bytes = 15;
  sync = none;
}

pushed : push_all a_serde calls (new 8 tiny) ≡ some spilled
unfolding push_all new
pushed = refl

abbrev commit : Stamp
commit = record { lsn = b'L' ∷ []; txid = b'8' ∷ [] }

spilled-Buffered : Buffered a_serde spilled changes
spilled-Buffered = push_all-Buffered a_serde calls 8 tiny spilled pushed

drain_all-in_order_example :
    (chunks : List (List (Envelope ℕ))) × (drain_all a_serde 4 (drain spilled commit) ≡ some chunks)
    × (concat a_serde chunks
        ≡ mark_last (envelopes a_serde (stamped a_serde commit 0 (envs_of a_serde calls))))
drain_all-in_order_example =
    drain_all-in_order a_serde calls 8 tiny spilled commit 4 pushed (omega arith)

drain_all-chunks_example :
    (groups : List (List (Item ℕ))) × (drain_all a_serde 4 (drain spilled commit)
      ≡ some (marked a_serde groups))
    × (concat a_serde groups ≡ stamped a_serde commit 0 changes)
    × All (Fits a_serde 240) groups
drain_all-chunks_example =
    drain_all-chunks a_serde 4 spilled commit changes spilled-Buffered (omega arith)
