-- ===== src/Predicate/Template.antt =====
-- apps/engine/src/predicate.rs, `equality_template`: the key by which shapes share a circuit.
pub mod Sorted
pub mod Exact
use electric_circuits.Prelude.{
  ℕ, Bool, true, false, Option, none, some, List, [], ◌∷◌, ◌++◌, ◌==◌, leb, nat_ord, if◌then◌else◌,
}
use electric_circuits.Value.{Value, is_null}
use electric_circuits.Predicate.Ast.{LeafOp, CompiledPredicate, and, Predicates, nil, cons}

abbrev pub Pairs : Type 0 → Type 0
Pairs F = List (ℕ × Value F)

module _ {F : Type 0} where
  -- `collect` pushes onto `acc` and says whether it met only equality leaves; `all` stops at the
  -- first conjunct that is none.
  unfoldable mutual
    pub collect : CompiledPredicate F → Pairs F → Bool × Pairs F
    collect (CompiledPredicate.cmp col LeafOp.eq value) acc =
        if is_null value then (false, acc) else (true, acc ++ (col, value) ∷ [])
    collect (and ps) acc = collect_all ps acc
    collect p acc = (false, acc)

    pub collect_all : Predicates F → Pairs F → Bool × Pairs F
    collect_all nil acc = (true, acc)
    collect_all (cons p ps) acc =
        let rest = collect_all ps (collect p acc).1 in
        if (collect p acc).0 then rest else collect p acc

  -- `sort_by` on the column, which is stable.
  unfoldable pub insert_pair : ℕ × Value F → Pairs F → Pairs F
  insert_pair (c, v) [] = (c, v) ∷ []
  insert_pair (c, v) ((d, w) ∷ ps) =
      let rest = insert_pair (c, v) ps in if leb c d then (c, v) ∷ (d, w) ∷ ps else (d, w) ∷ rest

  unfoldable pub sort_pairs : Pairs F → Pairs F
  unfolding insert_pair
  sort_pairs [] = []
  sort_pairs (p ∷ ps) = insert_pair p (sort_pairs ps)

  -- `windows(2).any(|w| w[0].0 == w[1].0)`
  unfoldable pub has_twin : Pairs F → Bool
  has_twin [] = false
  has_twin (p ∷ []) = false
  has_twin ((c, v) ∷ (d, w) ∷ ps) = if c == d then true else has_twin ((d, w) ∷ ps)

  -- What is left of the pairs collected: none if a leaf was no equality, if there is no pair, or if
  -- a column occurs twice.
  unfoldable pub template_of : Bool → Pairs F → Option (Pairs F)
  template_of false acc = none
  template_of true [] = none
  template_of true (kv ∷ acc) =
      let sorted = sort_pairs (kv ∷ acc) in if has_twin sorted then none else some sorted

  unfoldable pub equality_template : CompiledPredicate F → Option (Pairs F)
  unfolding collect template_of sort_pairs has_twin
  equality_template p = let (found, acc) = collect p [] in template_of found acc
