-- ===== src/Output/Examples.antt =====
-- A user is renamed, and a shape of the users named z gains it.
use electric_circuits.Prelude.{
  ◌≡◌, refl, inl, inr, none, some, [], ◌∷◌, arith, nat_ord, list_ord, if◌then◌else◌, ◌==◌,
  Bool-cases,
}
use electric_circuits.Value.{Text, pos, negsuc, text}
use electric_circuits.Value.Sample.{Json, Float, float_ord, scalars, scalars-Laws}
use electric_circuits.Value.Decimal.{digits}
use electric_circuits.Envelope.{Envelope}
use electric_circuits.Schema.Rows.{key_string, cells, row_to_json_cols}
use electric_circuits.Schema.Sample.{
  objects, objects-Laws, users, users-DistinctNames, ann, renamed,
}
use electric_circuits.Predicate.Ast.{Fault, CompiledPredicate, eq}
use electric_circuits.Predicate.Eval.{matches_ctx, eval_ctx, cmp}
use electric_circuits.Output.Codec.{Delta, update_op, headers, apply_envelope}
use electric_circuits.Output.Translate.{translate_output}
use electric_circuits.Output.Grouping.{last_plus, any_minus}
use electric_circuits.Output.Client.{Client, replay, settled, translate_output-replay}
use electric_circuits.Output.Standalone.{
  updated, Table, eval_standalone, Applies, Shows, stream-follows_table,
}

abbrev named_z : CompiledPredicate Float
named_z = CompiledPredicate.cmp 1 eq (text (b'z' ∷ []))

abbrev key : Text
key = b'1' ∷ []

abbrev before : Table Float
before q = if key == q then some ann else none

abbrev after : Table Float
after q = if key == q then some renamed else if key == q then none else before q

abbrev renaming : Envelope Json
renaming = record {
  type_ = users.table;
  key = key;
  value = some (row_to_json_cols scalars objects users renamed none);
  old = some (row_to_json_cols scalars objects users ann none);
  headers = headers update_op none none;
}

abbrev nobody : Client Json
nobody q = none

applied : Applies scalars objects users (updated ann renamed) before after
unfolding key_string cells digits
applied = (key, key, refl, refl, refl, inr refl, λ q. refl)

shown : Shows scalars objects users Fault.none named_z none before nobody
unfolding matches_ctx eval_ctx cmp
shown k = elim (Bool-cases (key == k)) [ inl e ↦ rw e refl | inr e ↦ rw e refl ]

stream-follows_table_example :
    (delta : Delta Float) × (apply_envelope scalars objects users renaming
      ≡ some (delta, none, none))
    × Shows scalars objects users Fault.none named_z none after (
        replay
          (translate_output scalars objects users Fault.none none none none
            (eval_standalone Fault.none named_z delta))
          nobody)
stream-follows_table_example =
    stream-follows_table scalars objects users Fault.none named_z none (updated ann renamed)
      renaming before after nobody none none scalars-Laws objects-Laws users-DistinctNames refl
      (refl, refl, refl, (omega arith, tt, (tt, tt, tt)), (omega arith, tt, (tt, tt, tt))) applied
      shown

abbrev one_row : Delta Float
one_row = (ann, negsuc 0) ∷ (renamed, pos 1) ∷ []

translate_output-replay_example :
    replay (translate_output scalars objects users Fault.none none none none one_row) nobody key
    ≡ settled scalars objects users none
        (last_plus scalars objects users key one_row)
        (any_minus scalars objects users key one_row)
        none
translate_output-replay_example =
    translate_output-replay scalars objects users Fault.none none none none one_row nobody key refl
