-- ===== src/Output/Codec.antt =====
-- apps/engine/src/engine/output.rs: `apply_envelope`, `needs_absolute_emission` and the single
-- envelopes. `none` is an error.
use electric_circuits.Prelude.{
  ℕ, Bool, true, false, ◌&&◌, ◌||◌, Option, none, some, List, [], ◌∷◌, map, Ord, ◌==◌, ◌>>=◌,
  nat_ord, list_ord, if◌then◌else◌,
}
use electric_circuits.Value.{ℤ, pos, negsuc, Text, Row, value_ord}
use electric_circuits.Value.Encoding.{JsonLib}
use electric_circuits.Envelope.{Envelope, EnvelopeHeaders}
use electric_circuits.Schema.Compile.{TableSchema}
use electric_circuits.Schema.Rows.{ObjectLib, row_from_json, row_to_json_cols}
use electric_circuits.Predicate.Ast.{Fault, drop_deletes}

-- Rows with their weights.
abbrev pub Delta : Type 0 → Type 0
Delta F = List (Row F × ℤ)

abbrev pub insert_op : Text
insert_op = b'i' ∷ b'n' ∷ b's' ∷ b'e' ∷ b'r' ∷ b't' ∷ []

abbrev pub update_op : Text
update_op = b'u' ∷ b'p' ∷ b'd' ∷ b'a' ∷ b't' ∷ b'e' ∷ []

abbrev pub upsert_op : Text
upsert_op = b'u' ∷ b'p' ∷ b's' ∷ b'e' ∷ b'r' ∷ b't' ∷ []

abbrev pub delete_op : Text
delete_op = b'd' ∷ b'e' ∷ b'l' ∷ b'e' ∷ b't' ∷ b'e' ∷ []

abbrev pub replaces : Text → Bool
replaces op = (op == insert_op) || (op == update_op) || (op == upsert_op)

abbrev pub headers : Text → Option Text → Option Text → EnvelopeHeaders
headers op txid lsn = record {
  operation = op;
  txid = txid;
  offset = none;
  lsn = lsn;
  seq = none;
  last = none;
}

abbrev pub suppressed : Fault → Bool
suppressed drop_deletes = true
suppressed _ = false

abbrev is_none : {J : Type 0} → Option J → Bool
is_none none = true
is_none (some _) = false

pub needs_absolute_emission : {J : Type 0} → Envelope J → Bool
needs_absolute_emission env =
    is_none env.old
    && ((env.headers.operation == delete_op)
        || (env.headers.operation == update_op)
        || (env.headers.operation == upsert_op))

module _ {J F : Type 0} (lib : JsonLib J F) (objects : ObjectLib J) (ts : TableSchema) where
  abbrev pub upsert_envelope :
      Text → Row F → Option Text → Option Text → Option (List ℕ) → Envelope J
  upsert_envelope key row txid lsn cols = record {
    type_ = ts.table;
    key = key;
    value = some (row_to_json_cols lib objects ts row cols);
    old = none;
    headers = headers upsert_op txid lsn;
  }

  abbrev pub delete_envelope : Text → Option Text → Option Text → Envelope J
  delete_envelope key txid lsn = record {
    type_ = ts.table;
    key = key;
    value = none;
    old = none;
    headers = headers delete_op txid lsn;
  }

  unfoldable pub absolute_envelope :
      Fault
      → Text
      → Option (Row F)
      → Option Text
      → Option Text
      → Option (List ℕ)
      → Option (Envelope J)
  absolute_envelope fault key (some row) txid lsn cols =
      some (upsert_envelope key row txid lsn cols)
  absolute_envelope fault key none txid lsn cols =
      if suppressed fault then none else some (delete_envelope key txid lsn)

  unfoldable pub delete_envelopes : Fault → List Text → Option Text → List (Envelope J)
  delete_envelopes fault pks txid =
      if suppressed fault then [] else map (λ pk. delete_envelope pk txid none) pks

module _ {J F : Type 0} ⦃o : Ord F⦄ (lib : JsonLib J F) (objects : ObjectLib J)
    (ts : TableSchema) where
  -- The closure `to_row`.
  abbrev pub to_row : J → Option (Row F)
  to_row v = objects.as_object v >>= row_from_json lib ts

  abbrev pub to_row_or : Option J → Option (Option (Row F))
  to_row_or none = some none
  to_row_or (some v) = to_row v >>= λ row. some (some row)

  abbrev pub replaced : Option (Row F) → Row F → Delta F
  replaced none new = (new, pos 1) ∷ []
  replaced (some old) new = if old == new then [] else (old, negsuc 0) ∷ (new, pos 1) ∷ []

  abbrev pub retracted : Option (Row F) → Delta F
  retracted none = []
  retracted (some old) = (old, negsuc 0) ∷ []

  abbrev pub delta_of : Envelope J → Option (Delta F)
  delta_of env =
      if replaces env.headers.operation
      then (do
        value ← env.value
        new ← to_row value
        old ← to_row_or env.old
        some (replaced old new))
      else if env.headers.operation == delete_op
      then (do old ← to_row_or env.old; some (retracted old))
      else none

  unfoldable pub apply_envelope : Envelope J → Option (Delta F × Option Text × Option Text)
  apply_envelope env = do delta ← delta_of env; some (delta, env.headers.txid, env.headers.lsn)
