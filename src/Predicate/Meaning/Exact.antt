-- ===== src/Predicate/Meaning/Exact.antt =====
-- The evaluator of apps/engine/src/predicate.rs against what SQL says of a predicate.
use electric_circuits.Prelude.{◌≡◌, ◌↔◌, ◌⊎◌, inl, inr, refl, subst, sym, true, false, List, Ord}
use electric_circuits.Value.{Value, Row, cell_at}
use electric_circuits.Predicate.Ast.{
  CompiledPredicate, match_all, and, or, in_subquery, Predicates, nil, cons, SubquerySig, Tri,
  unknown, SubqueryEval, Fault,
}
use electric_circuits.Predicate.Eval.{eval_ctx}
use electric_circuits.Predicate.Kleene.{
  tri_and, tri_or, meaning, meaning_and, meaning_or, eval_meaning,
}
use electric_circuits.Predicate.Meaning.{
  IsTrue, IsFalse, EveryTrue, SomeTrue, EveryFalse, SomeFalse, Describes, IsPlain, ArePlain,
}
use electric_circuits.Predicate.Meaning.Order.{
  Agrees, agrees_true, agrees_false, agrees_unknown, agrees_not, no_either,
}
use electric_circuits.Predicate.Meaning.Leaves.{cmp-Agrees, NullTest-Agrees}
use electric_circuits.Predicate.Meaning.Sets.{in_set-Agrees, not-in_set-Agrees}

-- Kleene's tables on truth values that agree with what SQL says.
agrees_and :
    {A B C D : Type 0} (a b : Tri)
    → Agrees a A C
    → Agrees b B D
    → Agrees (tri_and a b) (A × B) (C ⊎ D)
agrees_and Tri.false b (h, k) (f, g) = agrees_false (λ (x, y). cc (h.1 x)) (inl (k.0 refl))
agrees_and Tri.true b (h, k) (f, g) = (
  (λ e. (h.0 refl, f.0 e), λ (x, y). f.1 y),
  (λ e. inr (g.0 e), λ u. elim u [ inl c ↦ cc (k.1 c) | inr d ↦ g.1 d ]),
)
agrees_and unknown Tri.false (h, k) (f, g) = agrees_false (λ (x, y). cc (f.1 y)) (inr (g.0 refl))
agrees_and unknown Tri.true (h, k) (f, g) =
    agrees_unknown (λ (x, y). cc (h.1 x)) (no_either (λ c. cc (k.1 c)) (λ d. cc (g.1 d)))
agrees_and unknown unknown (h, k) (f, g) =
    agrees_unknown (λ (x, y). cc (h.1 x)) (no_either (λ c. cc (k.1 c)) (λ d. cc (g.1 d)))

agrees_or :
    {A B C D : Type 0} (a b : Tri)
    → Agrees a A C
    → Agrees b B D
    → Agrees (tri_or a b) (A ⊎ B) (C × D)
agrees_or Tri.true b (h, k) (f, g) = agrees_true (inl (h.0 refl)) (λ (x, y). cc (k.1 x))
agrees_or Tri.false b (h, k) (f, g) = (
  (λ e. inr (f.0 e), λ u. elim u [ inl c ↦ cc (h.1 c) | inr d ↦ f.1 d ]),
  (λ e. (k.0 refl, g.0 e), λ (x, y). g.1 y),
)
agrees_or unknown Tri.true (h, k) (f, g) = agrees_true (inr (f.0 refl)) (λ (x, y). cc (g.1 y))
agrees_or unknown Tri.false (h, k) (f, g) =
    agrees_unknown (no_either (λ c. cc (h.1 c)) (λ d. cc (f.1 d))) (λ (x, y). cc (k.1 x))
agrees_or unknown unknown (h, k) (f, g) =
    agrees_unknown (no_either (λ c. cc (h.1 c)) (λ d. cc (f.1 d))) (λ (x, y). cc (k.1 x))

module _ {F : Type 0} ⦃o : Ord F⦄ (ev : SubqueryEval F) (sets : SubquerySig → List (Value F))
    (row : Row F) (describes : Describes ev sets) where
  mutual
    unfolding meaning IsTrue IsPlain

    meaning_agrees :
        (p : CompiledPredicate F)
        → IsPlain sets row p
        → Agrees (meaning Fault.none ev row p) (IsTrue sets row p) (IsFalse sets row p)
    meaning_agrees match_all h = agrees_true tt (λ h. h)
    meaning_agrees (CompiledPredicate.cmp col op value) h = cmp-Agrees (cell_at row col) value op h
    meaning_agrees (CompiledPredicate.is_null col want) h = NullTest-Agrees (cell_at row col) want
    meaning_agrees (and ps) h = and_agrees ps h
    meaning_agrees (or ps) h = or_agrees ps h
    meaning_agrees (CompiledPredicate.not p) h =
        agrees_not (meaning Fault.none ev row p) (meaning_agrees p h)
    meaning_agrees (in_subquery col sig false) h =
        in_set-Agrees ev sets describes (cell_at row col) sig h
    meaning_agrees (in_subquery col sig true) h =
        not-in_set-Agrees ev sets describes (cell_at row col) sig h

    and_agrees :
        (ps : Predicates F)
        → ArePlain sets row ps
        → Agrees (meaning_and Fault.none ev row ps) (EveryTrue sets row ps) (SomeFalse sets row ps)
    and_agrees nil h = agrees_true tt (λ h. h)
    and_agrees (cons p ps) (h, k) =
        agrees_and (meaning Fault.none ev row p) (meaning_and Fault.none ev row ps)
          (meaning_agrees p h) (and_agrees ps k)

    or_agrees :
        (ps : Predicates F)
        → ArePlain sets row ps
        → Agrees (meaning_or Fault.none ev row ps) (SomeTrue sets row ps) (EveryFalse sets row ps)
    or_agrees nil h = agrees_false (λ h. h) tt
    or_agrees (cons p ps) (h, k) =
        agrees_or (meaning Fault.none ev row p) (meaning_or Fault.none ev row ps)
          (meaning_agrees p h) (or_agrees ps k)

-- Without an injected fault and where the nodes answer for the sets of the subqueries, the engine
-- evaluates a predicate on a row to TRUE exactly if SQL says that it is TRUE, and to FALSE exactly if
-- SQL says that it is FALSE, provided that each text under a LIKE is without `%`, and that the set of
-- each subquery has an element where its cell is NULL, and otherwise has no NULL, or has the cell for
-- IN, or has not the cell for NOT IN.
pub eval_ctx-IsTrue :
    {F : Type 0} ⦃o : Ord F⦄ (ev : SubqueryEval F) (sets : SubquerySig → List (Value F))
    (row : Row F) (p : CompiledPredicate F)
    → Describes ev sets
    → IsPlain sets row p
    → ((eval_ctx Fault.none ev row p ≡ Tri.true) ↔ IsTrue sets row p)
      × ((eval_ctx Fault.none ev row p ≡ Tri.false) ↔ IsFalse sets row p)
eval_ctx-IsTrue ev sets row p describes plain =
    subst (λ t. Agrees t (IsTrue sets row p) (IsFalse sets row p))
      (sym (eval_meaning Fault.none ev row p)) (meaning_agrees ev sets row describes p plain)
