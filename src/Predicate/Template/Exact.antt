-- ===== src/Predicate/Template/Exact.antt =====
-- A predicate with an equality template accepts exactly the rows that carry the template's values.
use electric_circuits.Prelude.{
  ℕ, ◌≡◌, ◌↔◌, refl, Bool, true, false, some, [], ◌∷◌, ◌++◌, arith, All, All-imp, All-both, Ord,
  ==_iff, Bool-cases, inl, inr,
}
use electric_circuits.Value.{Value, Row, is_null, cell_at, value_ord}
use electric_circuits.Predicate.Ast.{
  LeafOp, CompiledPredicate, and, Predicates, nil, cons, Tri, SubqueryEval, Fault,
}
use electric_circuits.Predicate.Eval.{cmp, eval_ctx, and_loop, matches_ctx}
use electric_circuits.Predicate.Kleene.{and_loop-true}
use electric_circuits.Predicate.Template.{
  Pairs, collect, collect_all, sort_pairs, has_twin, template_of, equality_template,
}
use electric_circuits.Predicate.Template.Sorted.{Ascending, All-sort_pairs, sort_pairs-Ascending}

module _ {F : Type 0} where
  abbrev pub NonNull : ℕ × Value F → Type 0
  NonNull (c, v) = is_null v ≡ false

  All-snoc :
      (Q : ℕ × Value F → Type 0) (acc : Pairs F) (kv : ℕ × Value F)
      → All Q (acc ++ kv ∷ []) ↔ (All Q acc × Q kv)
  All-snoc Q [] kv = (λ h. (tt, h.0), λ h. (h.1, tt))
  All-snoc Q (a ∷ acc) kv =
      let ih = All-snoc Q acc kv in
      (λ h. ((h.0, (ih.0 h.1).0), (ih.0 h.1).1), λ h. (h.0.0, ih.1 (h.0.1, h.1)))

module _ {F : Type 0} ⦃o : Ord F⦄ (f : Fault) (ev : SubqueryEval F) (row : Row F) where
  abbrev Carries : ℕ × Value F → Type 0
  Carries (c, v) = (cell_at row c ≡ v) × (is_null v ≡ false)

  cmp-eq_iff :
      (cell v : Value F) → (cmp f cell LeafOp.eq v ≡ Tri.true) ↔ ((cell ≡ v) × (is_null v ≡ false))
  unfolding cmp
  cmp-eq_iff cell v = (λ h. ground (arith, ==_iff cell v), λ h. ground (arith, ==_iff cell v, h.0))

  leaf-exact :
      (col : ℕ) (v : Value F) (acc : Pairs F)
      → (collect (CompiledPredicate.cmp col LeafOp.eq v) acc).0 ≡ true
      → All Carries (collect (CompiledPredicate.cmp col LeafOp.eq v) acc).1
        ↔ (All Carries acc × (eval_ctx f ev row (CompiledPredicate.cmp col LeafOp.eq v) ≡ Tri.true))
  unfolding collect eval_ctx
  leaf-exact col v acc h = elim (Bool-cases (is_null v)) [
    | inl n ↦ absurd (ground arith)
    | inr n ↦ rw n (
      λ a.
          let s = (All-snoc Carries acc (col, v)).0 a in
          (s.0, (cmp-eq_iff (cell_at row col) v).1 s.1),
      λ a. (All-snoc Carries acc (col, v)).1 (a.0, (cmp-eq_iff (cell_at row col) v).0 a.1),
    )
  ]

  conjuncts-true :
      (ps : Predicates F)
      → (eval_ctx f ev row (and ps) ≡ Tri.true) ↔ (and_loop f ev row ps Tri.true ≡ Tri.true)
  unfolding eval_ctx
  conjuncts-true ps = (λ h. h, λ h. h)

  nil-true : and_loop f ev row nil Tri.true ≡ Tri.true
  unfolding eval_ctx
  nil-true = refl

  mutual
    unfolding collect

    collect-exact :
        (p : CompiledPredicate F) (acc : Pairs F)
        → (collect p acc).0 ≡ true
        → All Carries (collect p acc).1 ↔ (All Carries acc × (eval_ctx f ev row p ≡ Tri.true))
    collect-exact (CompiledPredicate.cmp col LeafOp.eq v) acc h = leaf-exact col v acc h
    collect-exact (and ps) acc h =
        let ih = collect_all-exact ps acc h in
        (
          λ a. ((ih.0 a).0, (conjuncts-true ps).1 (ih.0 a).1),
          λ a. ih.1 (a.0, (conjuncts-true ps).0 a.1),
        )
    collect-exact p acc h = cc

    collect_all-exact :
        (ps : Predicates F) (acc : Pairs F)
        → (collect_all ps acc).0 ≡ true
        → All Carries (collect_all ps acc).1
          ↔ (All Carries acc × (and_loop f ev row ps Tri.true ≡ Tri.true))
    collect_all-exact nil acc h = (λ a. (a, nil-true), λ a. a.0)
    collect_all-exact (cons p ps) acc h = elim (Bool-cases (collect p acc).0) [
      | inl e ↦
          let head = collect-exact p acc e in
          let rest = collect_all-exact ps (collect p acc).1 (rw e at h) in
          let split = and_loop-true f ev row p ps in
          rw e (
            λ a. let r = rest.0 a in let a' = head.0 r.0 in (a'.0, split.1 (a'.1, r.1)),
            λ a. rest.1 (head.1 (a.0, (split.0 a.1).0), (split.0 a.1).1),
          )
      | inr e ↦ absurd (ground arith)
    ]

module _ {F : Type 0} where
  mutual
    unfolding collect

    collect-NonNull :
        (p : CompiledPredicate F) (acc : Pairs F) → All NonNull acc → All NonNull (collect p acc).1
    collect-NonNull (CompiledPredicate.cmp col LeafOp.eq v) acc a = elim (Bool-cases (is_null v)) [
      | inl n ↦ rw n a
      | inr n ↦ rw n ((All-snoc NonNull acc (col, v)).1 (a, n))
    ]
    collect-NonNull (and ps) acc a = collect_all-NonNull ps acc a
    collect-NonNull p acc a = a

    collect_all-NonNull :
        (ps : Predicates F) (acc : Pairs F) → All NonNull acc → All NonNull (collect_all ps acc).1
    collect_all-NonNull nil acc a = a
    collect_all-NonNull (cons p ps) acc a =
        let head = collect-NonNull p acc a in
        let rest = collect_all-NonNull ps (collect p acc).1 head in
        elim (Bool-cases (collect p acc).0) [ inl e ↦ rw e rest | inr e ↦ rw e head ]

  template_of-parts :
      (found : Bool) (acc : Pairs F) {kvs : Pairs F}
      → template_of found acc ≡ some kvs
      → (found ≡ true) × (has_twin (sort_pairs acc) ≡ false) × (sort_pairs acc ≡ kvs)
  unfolding template_of
  template_of-parts true (kv ∷ acc) h = ground arith
  template_of-parts _ _ h = cc

  unfold_template :
      (p : CompiledPredicate F) {kvs : Pairs F}
      → equality_template p ≡ some kvs
      → template_of (collect p []).0 (collect p []).1 ≡ some kvs
  unfolding equality_template
  unfold_template p h = h

  template-parts :
      (p : CompiledPredicate F) {kvs : Pairs F}
      → equality_template p ≡ some kvs
      → ((collect p []).0 ≡ true)
        × (has_twin (sort_pairs (collect p []).1) ≡ false)
        × (sort_pairs (collect p []).1 ≡ kvs)
  template-parts p h = template_of-parts (collect p []).0 (collect p []).1 (unfold_template p h)

module _ {F : Type 0} ⦃o : Ord F⦄ (f : Fault) (ev : SubqueryEval F) (row : Row F) where
  matches_ctx_iff :
      (p : CompiledPredicate F) → (matches_ctx f ev p row ≡ true) ↔ (eval_ctx f ev row p ≡ Tri.true)
  unfolding matches_ctx
  matches_ctx_iff p = (λ h. ground arith, λ h. ground arith)

-- An equality template names its columns in strictly ascending order, holds no NULL, and decides
-- its predicate: a row is accepted exactly when it carries each template value in its column.
pub equality_template-exact :
    {F : Type 0} ⦃o : Ord F⦄ (f : Fault) (ev : SubqueryEval F) (row : Row F)
    (p : CompiledPredicate F) {kvs : Pairs F}
    → equality_template p ≡ some kvs
    → Ascending kvs
      × All NonNull kvs
      × ((matches_ctx f ev p row ≡ true) ↔ All (λ kv. cell_at row kv.0 ≡ kv.1) kvs)
equality_template-exact {F} f ev row p {kvs} h =
    let (found, twin, e) = template-parts p h in
    let acc = (collect p []).1 in
    let exact = collect-exact f ev row p [] found in
    let sorted = All-sort_pairs (Carries f ev row) acc in
    let nonnull : All NonNull kvs =
      rw (← e) ((All-sort_pairs NonNull acc).1 (collect-NonNull p [] tt)) in
    (
      rw (← e) (sort_pairs-Ascending acc twin),
      nonnull,
      (
        λ m.
            All-imp (Carries f ev row) (λ kv. cell_at row kv.0 ≡ kv.1) kvs (λ kv c. c.0)
              (rw (← e) (sorted.1 (exact.1 (tt, (matches_ctx_iff f ev row p).0 m)))),
        λ a.
            (matches_ctx_iff f ev row p).1
              (exact.0 (
                sorted.0
                  (rw e (All-both (λ kv. cell_at row kv.0 ≡ kv.1) NonNull kvs a nonnull)))).1,
      ),
    )
