-- ===== src/Output/Deleted.antt =====
-- apps/engine/src/engine/output.rs: `agg_envelope`, the one row of an aggregate, and what a reader
-- makes of `delete_envelopes`.
use electric_circuits.Prelude.{
  ◌≡◌, refl, ◌∙◌, ap, Bool, true, false, Option, none, some, List, [], ◌∷◌, map, ◌==◌, nat_ord,
  list_ord, if◌then◌else◌, member,
}
use electric_circuits.Value.{ℤ, Text}
use electric_circuits.Value.Encoding.{JsonLib}
use electric_circuits.Envelope.{Envelope}
use electric_circuits.Schema.Compile.{TableSchema}
use electric_circuits.Schema.Rows.{ObjectLib}
use electric_circuits.Predicate.Ast.{Fault}
use electric_circuits.Output.Codec.{
  suppressed, upsert_op, headers, delete_envelope, delete_envelopes,
}
use electric_circuits.Output.Client.{Client, receive, replay}

-- `agg`, `value` and `n`
abbrev pub agg_key : Text
agg_key = b'a' ∷ b'g' ∷ b'g' ∷ []

abbrev value_name : Text
value_name = b'v' ∷ b'a' ∷ b'l' ∷ b'u' ∷ b'e' ∷ []

abbrev n_name : Text
n_name = b'n' ∷ []

module _ {J F : Type 0} (lib : JsonLib J F) (objects : ObjectLib J) where
  -- `json!({ "value": value, "n": n })`
  abbrev pub agg_row : J → ℤ → J
  agg_row value n = objects.of_object ((n_name, lib.of_int n) ∷ (value_name, value) ∷ [])

  abbrev pub agg_envelope : Text → J → ℤ → Option Text → Option Text → Envelope J
  agg_envelope table value n txid lsn = record {
    type_ = table;
    key = agg_key;
    value = some (agg_row value n);
    old = none;
    headers = headers upsert_op txid lsn;
  }

  module _ (ts : TableSchema) (txid : Option Text) where
    replay-deleted :
        (pks : List Text) (c : Client J) (k : Text)
        → replay (map (λ pk. delete_envelope lib objects ts pk txid none) pks) c k
          ≡ (if member k pks then none else c k)
    unfolding replay member
    replay-deleted [] c k = refl
    replay-deleted (pk ∷ pks) c k =
        replay-deleted pks (receive (delete_envelope lib objects ts pk txid none) c) k
        ∙ either_gone (pk == k) (member k pks) (c k)
      where
        either_gone :
            (same rest : Bool) (j : Option J)
            → (if rest then none else if same then none else j)
              ≡ (if (if same then true else rest) then none else j)
        either_gone true true j = refl
        either_gone true false j = refl
        either_gone false true j = refl
        either_gone false false j = refl

    -- Where the fault is not injected, a reader that replays the deletes holds nothing of their
    -- keys, and what it held of any other key.
    pub replay-delete_envelopes :
        (fault : Fault) (pks : List Text) (c : Client J) (k : Text)
        → suppressed fault ≡ false
        → replay (delete_envelopes lib objects ts fault pks txid) c k
          ≡ (if member k pks then none else c k)
    unfolding delete_envelopes
    replay-delete_envelopes fault pks c k on =
        ap
          (λ b.
            replay (if b then [] else map (λ pk. delete_envelope lib objects ts pk txid none) pks) c
              k)
          on
        ∙ replay-deleted pks c k
