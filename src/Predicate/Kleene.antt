-- ===== src/Predicate/Kleene.antt =====
-- The loops of apps/engine/src/predicate.rs that leave early against Kleene's tables, over the
-- leaves as the code evaluates them; what SQL says of the leaves is in Meaning.
use electric_circuits.Prelude.{◌≡◌, ◌↔◌, refl, arith, Ord, ◌==◌, bool_ord}
use electric_circuits.Value.{Row, is_null, cell_at}
use electric_circuits.Predicate.Ast.{
  CompiledPredicate, match_all, and, or, in_subquery, Predicates, nil, cons, Tri, unknown,
  SubqueryEval, Fault,
}
use electric_circuits.Predicate.Eval.{from_bool, tri_not, cmp, in_set, eval_ctx, and_loop, or_loop}

abbrev pub tri_and : Tri → Tri → Tri
tri_and Tri.false b = Tri.false
tri_and Tri.true b = b
tri_and unknown Tri.false = Tri.false
tri_and unknown b = unknown

abbrev pub tri_or : Tri → Tri → Tri
tri_or Tri.true b = Tri.true
tri_or Tri.false b = b
tri_or unknown Tri.true = Tri.true
tri_or unknown b = unknown

module _ {F : Type 0} ⦃o : Ord F⦄ where
  -- The value of a predicate by the tables.
  unfoldable mutual
    pub meaning : Fault → SubqueryEval F → Row F → CompiledPredicate F → Tri
    meaning f ev row match_all = Tri.true
    meaning f ev row (CompiledPredicate.cmp col op value) = cmp f (cell_at row col) op value
    meaning f ev row (CompiledPredicate.is_null col want) =
        from_bool (is_null (cell_at row col) == want)
    meaning f ev row (and ps) = meaning_and f ev row ps
    meaning f ev row (or ps) = meaning_or f ev row ps
    meaning f ev row (CompiledPredicate.not p) = tri_not (meaning f ev row p)
    meaning f ev row (in_subquery col sig negated) = in_set ev (cell_at row col) sig negated

    pub meaning_and : Fault → SubqueryEval F → Row F → Predicates F → Tri
    meaning_and f ev row nil = Tri.true
    meaning_and f ev row (cons p ps) = tri_and (meaning f ev row p) (meaning_and f ev row ps)

    pub meaning_or : Fault → SubqueryEval F → Row F → Predicates F → Tri
    meaning_or f ev row nil = Tri.false
    meaning_or f ev row (cons p ps) = tri_or (meaning f ev row p) (meaning_or f ev row ps)

  mutual
    unfolding eval_ctx meaning

    pub eval_meaning :
        (f : Fault) (ev : SubqueryEval F) (row : Row F) (p : CompiledPredicate F)
        → eval_ctx f ev row p ≡ meaning f ev row p
    eval_meaning f ev row match_all = refl
    eval_meaning f ev row (CompiledPredicate.cmp col op value) = refl
    eval_meaning f ev row (CompiledPredicate.is_null col want) = refl
    eval_meaning f ev row (and ps) = (and_meaning f ev row ps).0
    eval_meaning f ev row (or ps) = (or_meaning f ev row ps).0
    eval_meaning f ev row (CompiledPredicate.not p) = rw (eval_meaning f ev row p)
    eval_meaning f ev row (in_subquery col sig negated) = refl

    and_meaning :
        (f : Fault) (ev : SubqueryEval F) (row : Row F) (ps : Predicates F)
        → (and_loop f ev row ps Tri.true ≡ meaning_and f ev row ps)
          × (and_loop f ev row ps unknown ≡ tri_and unknown (meaning_and f ev row ps))
    and_meaning f ev row nil = (refl, refl)
    and_meaning f ev row (cons p ps) =
        ground (arith, eval_meaning f ev row p, and_meaning f ev row ps)

    or_meaning :
        (f : Fault) (ev : SubqueryEval F) (row : Row F) (ps : Predicates F)
        → (or_loop f ev row ps Tri.false ≡ meaning_or f ev row ps)
          × (or_loop f ev row ps unknown ≡ tri_or unknown (meaning_or f ev row ps))
    or_meaning f ev row nil = (refl, refl)
    or_meaning f ev row (cons p ps) =
        ground (arith, eval_meaning f ev row p, or_meaning f ev row ps)

  abbrev pub negate_all : Predicates F → Predicates F
  negate_all nil = nil
  negate_all (cons p ps) = cons (CompiledPredicate.not p) (negate_all ps)

  de_morgan_meaning :
      (f : Fault) (ev : SubqueryEval F) (row : Row F) (ps : Predicates F)
      → tri_not (meaning_and f ev row ps) ≡ meaning_or f ev row (negate_all ps)
  unfolding meaning
  de_morgan_meaning f ev row nil = refl
  de_morgan_meaning f ev row (cons p ps) = ground (arith, de_morgan_meaning f ev row ps)

  -- NOT over a conjunction is the disjunction of the negated conjuncts, also where a NULL makes
  -- some of them UNKNOWN.
  pub not-and_de_morgan :
      (f : Fault) (ev : SubqueryEval F) (row : Row F) (ps : Predicates F)
      → eval_ctx f ev row (CompiledPredicate.not (and ps)) ≡ eval_ctx f ev row (or (negate_all ps))
  not-and_de_morgan f ev row ps =
      rw
        (
          eval_meaning f ev row (CompiledPredicate.not (and ps)),
          eval_meaning f ev row (or (negate_all ps)),
        )
        (unfold meaning in de_morgan_meaning f ev row ps)

  -- A conjunction is TRUE only if its first conjunct and the rest are.
  pub and_loop-true :
      (f : Fault) (ev : SubqueryEval F) (row : Row F) (p : CompiledPredicate F) (ps : Predicates F)
      → (and_loop f ev row (cons p ps) Tri.true ≡ Tri.true)
        ↔ ((eval_ctx f ev row p ≡ Tri.true) × (and_loop f ev row ps Tri.true ≡ Tri.true))
  and_loop-true f ev row p ps = (
    unfold eval_ctx in λ h. ground (arith, and_meaning f ev row ps),
    unfold eval_ctx in λ h. ground (arith, and_meaning f ev row ps),
  )
