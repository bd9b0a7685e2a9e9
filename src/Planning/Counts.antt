-- ===== src/Planning/Counts.antt =====
-- apps/engine/src/engine/planning.rs, `plan_circuit_agg`, and apps/engine/src/engine/executors.rs,
-- `CircuitAgg::group_matches` and `key_of`. A `HashSet` is a list without repetition.
use electric_circuits.Prelude.{
  ℕ, suc, Bool, true, false, ◌&&◌, Option, none, some, List, [], ◌∷◌, map, Ord, ◌==◌, ◌>>=◌,
  nat_ord, if◌then◌else◌, get_elem?, list_ord, member, add,
}
use electric_circuits.Value.{Value, Row, value_ord, cell_at}
use electric_circuits.Value.Encoding.{JsonLib}
use electric_circuits.Schema.Compile.{TableSchema, column_index}
use electric_circuits.Predicate.Ast.{eq}
use electric_circuits.Predicate.Compile.{
  PredicateJson, leaf, and_json, or_json, JsonPredicates, no_more, also, literal_at,
}
use electric_circuits.Routing.Subquery.{set_at}

-- One set of keys for each group column, or none where the column is unconstrained.
abbrev pub Constraints : Type 0 → Type 0
Constraints F = List (Option (List (Value F)))

-- `vec![None; n]`, of the length of the group columns.
abbrev pub unconstrained : {F : Type 0} → List ℕ → Constraints F
unconstrained [] = []
unconstrained (g ∷ gs) = none ∷ unconstrained gs

-- `group_cols.iter().position(|&g| g == idx)`
abbrev pub position : ℕ → List ℕ → Option ℕ
position idx [] = none
position idx (g ∷ gs) = if g == idx then some 0 else position idx gs >>= λ i. some (suc i)

-- `*idx.get_or_insert(i) != i`
abbrev pub same_column : Option ℕ → ℕ → Bool
same_column none i = true
same_column (some j) i = j == i

abbrev pub key_of : {F : Type 0} → Row F → List ℕ → Row F
key_of row cols = map (cell_at row) cols

abbrev pub conjuncts : {J : Type 0} → PredicateJson J → JsonPredicates J
conjuncts (and_json ps) = ps
conjuncts p = also p no_more

module _ {F : Type 0} where
  -- A group column is constrained once.
  abbrev pub constrain :
      Option (Option (List (Value F))) → ℕ → List (Value F) → Constraints F → Option (Constraints F)
  constrain (some none) pos keys cs = some (set_at pos (some keys) cs)
  constrain _ pos keys cs = none

  abbrev pub place : List ℕ → Constraints F → ℕ × List (Value F) → Option (Constraints F)
  place group_cols cs (idx, keys) = do
    pos ← position idx group_cols
    constrain (get_elem? cs pos) pos keys cs

module _ {J F : Type 0} ⦃o : Ord F⦄ (lib : JsonLib J F) (ts : TableSchema) where
  unfoldable pub or_keys :
      JsonPredicates J → Option ℕ → List (Value F) → Option (ℕ × List (Value F))
  or_keys no_more idx keys = idx >>= λ i. some (i, keys)
  or_keys (also (leaf col eq value) cs) idx keys = do
    i ← column_index ts col
    v ← if same_column idx i then literal_at lib ts i value else none
    or_keys cs (some i) (add v keys)
  or_keys (also _ cs) idx keys = none

  -- One conjunct: an equality, or a disjunction of equalities on one column.
  abbrev pub child_keys : PredicateJson J → Option (ℕ × List (Value F))
  child_keys (leaf col eq value) = do
    i ← column_index ts col
    v ← literal_at lib ts i value
    some (i, v ∷ [])
  child_keys (or_json (also c cs)) = or_keys (also c cs) none []
  child_keys _ = none

  unfoldable pub plan_children : List ℕ → JsonPredicates J → Constraints F → Option (Constraints F)
  plan_children group_cols no_more cs = some cs
  plan_children group_cols (also child children) cs = do
    k ← child_keys child
    next ← place group_cols cs k
    plan_children group_cols children next

  unfoldable pub plan_circuit_agg : Option (PredicateJson J) → List ℕ → Option (Constraints F)
  plan_circuit_agg none group_cols = some (unconstrained group_cols)
  plan_circuit_agg (some p) group_cols =
      plan_children group_cols (conjuncts p) (unconstrained group_cols)

module _ {F : Type 0} ⦃o : Ord F⦄ where
  abbrev pub admits : Option (List (Value F)) → Option (Value F) → Bool
  admits none cell = true
  admits (some keys) none = false
  admits (some keys) (some v) = member v keys

  -- `constraints.iter().enumerate().all(…)`, from the position `i` on.
  unfoldable pub group_matches_from : ℕ → Constraints F → Row F → Bool
  group_matches_from i [] group = true
  group_matches_from i (c ∷ cs) group =
      admits c (get_elem? group i) && group_matches_from (suc i) cs group

  abbrev pub group_matches : Constraints F → Row F → Bool
  group_matches constraints group = group_matches_from 0 constraints group
