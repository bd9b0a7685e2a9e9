-- ===== src/Predicate/Access.antt =====
-- apps/engine/src/predicate.rs, `access_leaf` and `equality_template`: the structures by which
-- shapes are indexed and shared.
pub mod Sound
use electric_circuits.Prelude.{
  ℕ, Bool, true, false, Option, none, some, List, [], ◌∷◌, ◌++◌, Ord, ◌==◌, ltb, leb, nat_ord,
  is_gt, is_lt, if◌then◌else◌,
}
use electric_circuits.Value.{Value, Row, is_null, cell_at, value_cmp, value_ord}
use electric_circuits.Predicate.Ast.{
  LeafOp, gt, gte, lt, lte, CompiledPredicate, and, Predicates, nil, cons, AccessLeaf, lower, upper,
}

module _ {F : Type 0} where
  abbrev leaf_of_op : ℕ → LeafOp → Value F → Option (AccessLeaf F)
  leaf_of_op col LeafOp.eq value = some (AccessLeaf.eq col value)
  leaf_of_op col gt value = some (lower col value true)
  leaf_of_op col gte value = some (lower col value false)
  leaf_of_op col lt value = some (upper col value true)
  leaf_of_op col lte value = some (upper col value false)
  leaf_of_op col _ value = none

  unfoldable pub leaf_of : CompiledPredicate F → Option (AccessLeaf F)
  leaf_of (CompiledPredicate.cmp col op value) =
      if is_null value then none else leaf_of_op col op value
  leaf_of p = none

  abbrev is_eq_leaf : AccessLeaf F → Bool
  is_eq_leaf (AccessLeaf.eq _ _) = true
  is_eq_leaf _ = false

  -- The first leaf found, or the first equality found.
  abbrev pub better : Option (AccessLeaf F) → AccessLeaf F → Bool
  better none l = true
  better (some b) l = if is_eq_leaf b then false else is_eq_leaf l

  abbrev offer : Option (AccessLeaf F) → Option (AccessLeaf F) → Option (AccessLeaf F)
  offer none best = best
  offer (some l) best = if better best l then some l else best

  -- The `best` of the source's `collect` is passed along.
  unfoldable mutual
    pub collect : CompiledPredicate F → Option (AccessLeaf F) → Option (AccessLeaf F)
    collect (and ps) best = collect_all ps best
    collect p best = offer (leaf_of p) best

    pub collect_all : Predicates F → Option (AccessLeaf F) → Option (AccessLeaf F)
    collect_all nil best = best
    collect_all (cons p ps) best = collect_all ps (collect p best)

  unfoldable pub access_leaf : CompiledPredicate F → Option (AccessLeaf F)
  unfolding collect
  access_leaf p = collect p none

abbrev pub past : Bool → Bool → Bool → Bool
past beyond at strict = if beyond then true else if strict then false else at

module _ {F : Type 0} ⦃o : Ord F⦄ where
  -- What a leaf says of a row: no NULL, and the cell equals the literal or lies past the bound.
  abbrev pub holds : AccessLeaf F → Row F → Bool
  holds (AccessLeaf.eq col v) row = if is_null v then false else cell_at row col == v
  holds (lower col v strict) row =
      let cell = cell_at row col in
      if is_null cell then false else past (is_gt (value_cmp cell v)) (cell == v) strict
  holds (upper col v strict) row =
      let cell = cell_at row col in
      if is_null cell then false else past (is_lt (value_cmp cell v)) (cell == v) strict
