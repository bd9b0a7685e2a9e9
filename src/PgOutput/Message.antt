-- ===== src/PgOutput/Message.antt =====
-- apps/engine/src/pgoutput.rs: the messages.
use electric_circuits.Prelude.{ℕ, Bool, Option, List}
use electric_circuits.Value.{ℤ, Text}

pub data Cell : Type 0 where
  null : Cell
  unchanged_toast : Cell
  text : Text → Cell

abbrev pub Tuple : Type 0
Tuple = List Cell

pub data OldTuple : Type 0 where
  full : Tuple → OldTuple
  key : Tuple → OldTuple

pub record RelColumn : Type 0 where
  pub name : Text
  pub type_oid : ℕ
  pub typmod : ℤ
  pub is_key : Bool

pub data Message : Type 0 where
  relation : (rel_id : ℕ) → Text → Text → ℕ → List RelColumn → Message
  insert : (rel_id : ℕ) → Tuple → Message
  update : (rel_id : ℕ) → Option OldTuple → Tuple → Message
  delete : (rel_id : ℕ) → OldTuple → Message
  truncate : List ℕ → Message
  ignored : Message
