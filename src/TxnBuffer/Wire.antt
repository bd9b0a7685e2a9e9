-- ===== src/TxnBuffer/Wire.antt =====
-- What apps/engine/src/txn_buffer.rs relies on of `serde_json`: an envelope is written on one line,
-- and read back as it was; and the measure of memory of apps/engine/src/ds.rs.
use electric_circuits.Prelude.{ℕ, ◌≡◌, false, Option, some, List, All, ◌==◌, nat_ord}
use electric_circuits.Envelope.{Envelope}

abbrev pub Bytes : Type 0
Bytes = List ℕ

abbrev pub newline : ℕ
newline = 10

pub record Serde (J : Type 0) : Type 0 where
  pub to_vec : Envelope J → Bytes
  pub from_slice : Bytes → Option (Envelope J)
  pub from_to : (env : Envelope J) → from_slice (to_vec env) ≡ some env
  pub one_line : (env : Envelope J) → All (λ c. (c == newline) ≡ false) (to_vec env)
  pub memory_bytes : Envelope J → ℕ
