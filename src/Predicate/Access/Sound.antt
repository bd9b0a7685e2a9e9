-- ===== src/Predicate/Access/Sound.antt =====
-- The necessary conjunct of apps/engine/src/predicate.rs is implied by its predicate.
use electric_circuits.Prelude.{
  subst, ℕ, Ordering, ◌≡◌, true, false, Option, none, some, arith, Ord, inl, inr, Bool-cases,
}
use electric_circuits.Value.{Value, Row, int, text, bool, float, is_null, cell_at, value_cmp}
use electric_circuits.Predicate.Ast.{
  LeafOp, eq, neq, lt, lte, gt, gte, like, CompiledPredicate, and, Predicates, nil, cons, Tri,
  AccessLeaf, SubqueryEval, Fault,
}
use electric_circuits.Predicate.Eval.{ordering, cmp, eval_ctx, and_loop, matches_ctx}
use electric_circuits.Predicate.Kleene.{and_loop-true}
use electric_circuits.Predicate.Access.{
  leaf_of, leaf_of_op, collect, collect_all, access_leaf, holds,
}

module _ {F : Type 0} ⦃o : Ord F⦄ where
  -- Two cells that the predicate can order are not NULL, and the derived order agrees.
  pub ordering-value_cmp :
      (a b : Value F) {r : Ordering}
      → ordering a b ≡ some r
      → (is_null a ≡ false) × (value_cmp a b ≡ r)
  ordering-value_cmp (int a) (int b) h = ground arith
  ordering-value_cmp (text a) (text b) h = ground arith
  ordering-value_cmp (bool a) (bool b) h = ground arith
  ordering-value_cmp (float a) (float b) h = ground arith
  ordering-value_cmp _ _ h = cc

module _ {F : Type 0} ⦃o : Ord F⦄ (f : Fault) (row : Row F) where
  abbrev Good : Option (AccessLeaf F) → Type 0
  Good none = Unit
  Good (some l) = holds l row ≡ true

  leaf_of_op-Good :
      (col : ℕ) (op : LeafOp) (value : Value F)
      → cmp f (cell_at row col) op value ≡ Tri.true
      → is_null value ≡ false
      → Good (leaf_of_op col op value)
  unfolding cmp
  leaf_of_op-Good col eq value h n = ground arith
  leaf_of_op-Good col neq value h n = tt
  leaf_of_op-Good col lt value h n = ground (arith, ordering-value_cmp (cell_at row col) value)
  leaf_of_op-Good col lte value h n = ground (arith, ordering-value_cmp (cell_at row col) value)
  leaf_of_op-Good col gt value h n = ground (arith, ordering-value_cmp (cell_at row col) value)
  leaf_of_op-Good col gte value h n = ground (arith, ordering-value_cmp (cell_at row col) value)
  leaf_of_op-Good col like value h n = tt

  module _ (ev : SubqueryEval F) where
    leaf_of-Good : (p : CompiledPredicate F) → eval_ctx f ev row p ≡ Tri.true → Good (leaf_of p)
    unfolding eval_ctx leaf_of
    leaf_of-Good (CompiledPredicate.cmp col op value) h = elim (Bool-cases (is_null value)) [
      | inl n ↦ rw n tt
      | inr n ↦ rw n (leaf_of_op-Good col op value h n)
    ]
    leaf_of-Good p h = tt

    conjuncts-true :
        (ps : Predicates F)
        → eval_ctx f ev row (and ps) ≡ Tri.true
        → and_loop f ev row ps Tri.true ≡ Tri.true
    unfolding eval_ctx
    conjuncts-true ps h = h

    mutual
      unfolding collect

      collect-Good :
          (p : CompiledPredicate F) (best : Option (AccessLeaf F))
          → eval_ctx f ev row p ≡ Tri.true
          → Good best
          → Good (collect p best)
      collect-Good (and ps) best h g = collect_all-Good ps best (conjuncts-true ps h) g
      collect-Good p best h g = ground (arith, leaf_of-Good p h)

      collect_all-Good :
          (ps : Predicates F) (best : Option (AccessLeaf F))
          → and_loop f ev row ps Tri.true ≡ Tri.true
          → Good best
          → Good (collect_all ps best)
      collect_all-Good nil best h g = g
      collect_all-Good (cons p ps) best h g =
          let (hp, hps) = (and_loop-true f ev row p ps).0 h in
          collect_all-Good ps (collect p best) hps (collect-Good p best hp g)

-- The necessary conjunct of a predicate holds of every row that the predicate accepts, whatever
-- the subquery nodes hold and with either setting of the fault.
pub access_leaf-holds :
    {F : Type 0} ⦃o : Ord F⦄ (f : Fault) (ev : SubqueryEval F) (row : Row F)
    (p : CompiledPredicate F) {l : AccessLeaf F}
    → matches_ctx f ev p row ≡ true
    → access_leaf p ≡ some l
    → holds l row ≡ true
unfolding access_leaf matches_ctx
access_leaf-holds f ev row p h e =
    subst (Good f row) e (collect-Good f row ev p none (ground arith) tt)
