-- ===== src/Planning/Examples.antt =====
-- A COUNT of the users named a or z, of those with id 1, and of those whose name equals NULL.
use electric_circuits.Prelude.{◌≡◌, refl, some, [], ◌∷◌, nat_ord, list_ord, lookup, member, add}
use electric_circuits.Value.{Row, null, int, text, pos}
use electric_circuits.Value.Sample.{Json, json_text, json_int, Float, float_ord, scalars}
use electric_circuits.Schema.Sample.{users, id_name, name_name, ann}
use electric_circuits.Predicate.Ast.{eq, CompiledPredicate, and, or, nil, cons, Fault}
use electric_circuits.Predicate.Eval.{matches}
use electric_circuits.Predicate.Compile.{
  PredicateJson, leaf, and_json, or_json, no_more, also, compile, compile_opt,
}
use electric_circuits.Planning.Counts.{
  Constraints, key_of, or_keys, plan_children, plan_circuit_agg, group_matches,
}
use electric_circuits.Planning.Exact.{NoNullKeys, plan_circuit_agg-exact}

abbrev named_a_or_z : PredicateJson Json
named_a_or_z = and_json (
    also (leaf id_name eq (json_int (pos 1))) (
      also
        (or_json (
          also (leaf name_name eq (json_text (b'a' ∷ [])))
            (also (leaf name_name eq (json_text (b'z' ∷ []))) no_more)))
        no_more))

abbrev served : Constraints Float
served = some (text (b'z' ∷ []) ∷ text (b'a' ∷ []) ∷ []) ∷ some (int (pos 1) ∷ []) ∷ []

abbrev compiled : CompiledPredicate Float
compiled = and (
    cons (CompiledPredicate.cmp 0 eq (int (pos 1))) (
      cons
        (or (
          cons (CompiledPredicate.cmp 1 eq (text (b'a' ∷ [])))
            (cons (CompiledPredicate.cmp 1 eq (text (b'z' ∷ []))) nil)))
        nil))

named_a_or_z-served : plan_circuit_agg scalars users (some named_a_or_z) (1 ∷ 0 ∷ []) ≡ some served
unfolding plan_circuit_agg plan_children or_keys lookup add member
named_a_or_z-served = refl

named_a_or_z-compiles : compile_opt scalars users (some named_a_or_z) ≡ some compiled
unfolding compile lookup
named_a_or_z-compiles = refl

named_a_or_z-NoNullKeys : NoNullKeys {F = Float} scalars users (some named_a_or_z)
unfolding or_keys lookup add member
named_a_or_z-NoNullKeys = (refl, (refl, tt))

plan_circuit_agg-exact_example :
    group_matches served (key_of ann (1 ∷ 0 ∷ [])) ≡ matches Fault.none compiled ann
plan_circuit_agg-exact_example =
    plan_circuit_agg-exact scalars users Fault.none ann (some named_a_or_z) (1 ∷ 0 ∷ []) served
      compiled named_a_or_z-served named_a_or_z-compiles named_a_or_z-NoNullKeys

abbrev nameless : Row Float
nameless = int (pos 2) ∷ null ∷ []
