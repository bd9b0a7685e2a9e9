-- ===== src/Output/Translate.antt =====
-- apps/engine/src/engine/output.rs, `translate_output`: the envelopes of a delta, one for each key.
use electric_circuits.Prelude.{
  ℕ, suc, Bool, true, false, not, ◌&&◌, ◌||◌, Option, none, some, List, [], ◌∷◌, ◌++◌, nat_ord,
  list_ord, if◌then◌else◌, Map, lookup, insert, member, add,
}
use electric_circuits.Value.{ℤ, pos, negsuc, Text, Row}
use electric_circuits.Value.Encoding.{JsonLib}
use electric_circuits.Envelope.{Envelope}
use electric_circuits.Schema.Compile.{TableSchema}
use electric_circuits.Schema.Rows.{ObjectLib, key_string}
use electric_circuits.Predicate.Ast.{Fault}
use electric_circuits.Output.Codec.{Delta, suppressed, upsert_envelope, delete_envelope}

-- The last row with a positive weight, the keys with a negative one, and the keys in the order of
-- their first appearance.
pub record Groups (F : Type 0) : Type 0 where
  pub plus : Map Text (Row F)
  pub minus : List Text
  pub order : List Text

abbrev pub is_some {ℓ} : {A : Type ℓ} → Option A → Bool
is_some none = false
is_some (some a) = true

abbrev pub seen : {F : Type 0} → Text → Groups F → Bool
seen pk g = is_some (lookup pk g.plus) || member pk g.minus

abbrev pub noted : {F : Type 0} → Text → Groups F → List Text
noted pk g = if seen pk g then g.order else g.order ++ pk ∷ []

abbrev pub put : {F : Type 0} → Text → Row F → ℤ → Groups F → Groups F
put pk row (pos (suc n)) g = record g { plus = insert pk row g.plus; order = noted pk g }
put pk row (negsuc n) g = record g { minus = add pk g.minus; order = noted pk g }
put pk row (pos _) g = record g { order = noted pk g }

module _ {J F : Type 0} (lib : JsonLib J F) (objects : ObjectLib J) (ts : TableSchema) where
  abbrev pub put_keyed : Option Text → Row F → ℤ → Groups F → Groups F
  put_keyed none row w g = g
  put_keyed (some pk) row w g = put pk row w g

  unfoldable pub group : Delta F → Groups F → Groups F
  group [] g = g
  group ((row, w) ∷ out) g = group out (put_keyed (key_string lib ts row) row w g)

  module _ (fault : Fault) (txid lsn : Option Text) (cols : Option (List ℕ)) where
    abbrev pub upsert_found : Text → Option (Row F) → List (Envelope J) → List (Envelope J)
    upsert_found pk none envs = envs
    upsert_found pk (some row) envs = upsert_envelope lib objects ts pk row txid lsn cols ∷ envs

    unfoldable pub upserts : List Text → Map Text (Row F) → List (Envelope J)
    upserts [] plus = []
    upserts (pk ∷ order) plus = upsert_found pk (lookup pk plus) (upserts order plus)

    abbrev pub leaves : Groups F → Text → Bool
    leaves g pk = member pk g.minus && not (is_some (lookup pk g.plus) || suppressed fault)

    unfoldable pub deletes : List Text → Groups F → List (Envelope J)
    deletes [] g = []
    deletes (pk ∷ order) g =
        let rest = deletes order g in
        if leaves g pk then delete_envelope lib objects ts pk txid lsn ∷ rest else rest

    abbrev pub emit_groups : Groups F → List (Envelope J)
    emit_groups g = upserts g.order g.plus ++ deletes g.order g

    unfoldable pub translate_output : Delta F → List (Envelope J)
    translate_output out = emit_groups (group out (record { plus = []; minus = []; order = [] }))
