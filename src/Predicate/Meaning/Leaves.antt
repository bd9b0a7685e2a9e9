-- ===== src/Predicate/Meaning/Leaves.antt =====
-- The comparison and the NULL test of apps/engine/src/predicate.rs against what SQL says of
-- them.
use electric_circuits.Prelude.{
  ◌≡◌, ◌⊎◌, inl, inr, refl, sym, subst, Bool, true, false, not as bool_not, Ord, ◌==◌, ==_iff,
  Bool-cases, bool_ord, nat_ord, true_false,
}
use electric_circuits.Value.{Value, null, int, text, bool, float, is_null, value_ord}
use electric_circuits.Predicate.Ast.{LeafOp, eq, neq, lt, lte, gt, gte, like, unknown, Fault}
use electric_circuits.Predicate.Eval.{from_bool, like_truth, like_cells, ordering, cmp_present, cmp}
use electric_circuits.Predicate.Like.Reference.{like_ref}
use electric_circuits.Predicate.Like.Exact.{like_match-exact}
use electric_circuits.Predicate.Meaning.{
  LikeTrue, LikeFalse, Present, Same, Differ, Less, CmpTrue, CmpFalse, NullTest, PlainCmp,
}
use electric_circuits.Predicate.Meaning.Order.{
  Agrees, agrees_true, agrees_false, agrees_unknown, agrees_bool, agrees_not, of_either_case,
  not-from_bool, placed, lt_agrees, lte_agrees, gt_agrees, gte_agrees,
}

pub Present-or_null : {F : Type 0} (v : Value F) → (v ≡ null) ⊎ (Present v × (is_null v ≡ false))
Present-or_null null = inl refl
Present-or_null (int _) = inr (tt, refl)
Present-or_null (text _) = inr (tt, refl)
Present-or_null (bool _) = inr (tt, refl)
Present-or_null (float _) = inr (tt, refl)

-- A comparison that has a truth value is one of two cells that are not NULL.
abbrev BothPresent : {F : Type 0} → Value F → Value F → Type 0
BothPresent a b = Present a × Present b

module _ {F : Type 0} ⦃o : Ord F⦄ where
  Less-BothPresent : (a b : Value F) → Less a b → BothPresent a b
  Less-BothPresent (int a) (int b) h = (tt, tt)
  Less-BothPresent (text a) (text b) h = (tt, tt)
  Less-BothPresent (bool a) (bool b) h = (tt, tt)
  Less-BothPresent (float a) (float b) h = (tt, tt)
  Less-BothPresent _ _ h = absurd h

  more_present : (a b : Value F) → Less b a → BothPresent a b
  more_present a b h = let (pb, pa) = Less-BothPresent b a h in (pa, pb)

  same_present : (a b : Value F) → Same a b → BothPresent a b
  same_present a b (p, e) = (p, subst Present e p)

  Differ-BothPresent : (a b : Value F) → Differ a b → BothPresent a b
  Differ-BothPresent a b (p, q, n) = (p, q)

  LikeTrue-BothPresent : (a b : Value F) → LikeTrue a b → BothPresent a b
  LikeTrue-BothPresent (text a) (text b) h = (tt, tt)
  LikeTrue-BothPresent _ _ h = absurd h

  LikeFalse-BothPresent : (a b : Value F) → LikeFalse a b → BothPresent a b
  LikeFalse-BothPresent (text a) (text b) h = (tt, tt)
  LikeFalse-BothPresent _ _ h = absurd h

  true_present : (a b : Value F) (op : LeafOp) → CmpTrue a op b → BothPresent a b
  true_present a b eq h = same_present a b h
  true_present a b neq h = Differ-BothPresent a b h
  true_present a b lt h = Less-BothPresent a b h
  true_present a b lte h = of_either_case (Less-BothPresent a b) (same_present a b) h
  true_present a b gt h = more_present a b h
  true_present a b gte h = of_either_case (more_present a b) (same_present a b) h
  true_present a b like h = LikeTrue-BothPresent a b h

  false_present : (a b : Value F) (op : LeafOp) → CmpFalse a op b → BothPresent a b
  false_present a b eq h = Differ-BothPresent a b h
  false_present a b neq h = same_present a b h
  false_present a b lt h = of_either_case (more_present a b) (same_present a b) h
  false_present a b lte h = more_present a b h
  false_present a b gt h = of_either_case (Less-BothPresent a b) (same_present a b) h
  false_present a b gte h = Less-BothPresent a b h
  false_present a b like h = LikeFalse-BothPresent a b h

  eq_agrees :
      (a b : Value F) → Present a → Present b → Agrees (from_bool (a == b)) (Same a b) (Differ a b)
  eq_agrees a b pa pb =
      agrees_bool (a == b) (λ e. (pa, (==_iff a b).0 e))
        (λ e. (pa, pb, λ q. true_false ((==_iff a b).1 q) e)) (λ (p, e) (q, r, n). n e)

  like_agrees :
      (a b : Value F) → PlainCmp a like b → Agrees (like_cells a b) (LikeTrue a b) (LikeFalse a b)
  like_agrees (text t) (text p) np =
      subst (λ m. Agrees (like_truth m) (like_ref p t ≡ true) (like_ref p t ≡ false))
        (sym (like_match-exact t p np))
        (agrees_bool (like_ref p t) (λ e. e) (λ e. e) (λ e f. true_false e f))
  like_agrees _ _ h = agrees_unknown (λ h. absurd h) (λ h. absurd h)

  cmp_present-Agrees :
      (a b : Value F) (op : LeafOp)
      → Present a
      → Present b
      → PlainCmp a op b
      → Agrees (cmp_present Fault.none a op b) (CmpTrue a op b) (CmpFalse a op b)
  cmp_present-Agrees a b eq pa pb h = eq_agrees a b pa pb
  cmp_present-Agrees a b neq pa pb h =
      subst (λ t. Agrees t (Differ a b) (Same a b)) (not-from_bool (a == b))
        (agrees_not (from_bool (a == b)) (eq_agrees a b pa pb))
  cmp_present-Agrees a b lt pa pb h = lt_agrees a b (ordering a b) (placed a b (ordering a b) refl)
  cmp_present-Agrees a b lte pa pb h =
      lte_agrees a b (ordering a b) (placed a b (ordering a b) refl)
  cmp_present-Agrees a b gt pa pb h = gt_agrees a b (ordering a b) (placed a b (ordering a b) refl)
  cmp_present-Agrees a b gte pa pb h =
      gte_agrees a b (ordering a b) (placed a b (ordering a b) refl)
  cmp_present-Agrees a b like pa pb h = like_agrees a b h

  cmp-null :
      (a b : Value F) (op : LeafOp) → (a ≡ null) ⊎ (b ≡ null) → cmp Fault.none a op b ≡ unknown
  unfolding cmp
  cmp-null a b op (inl e) = rw e refl
  cmp-null a b op (inr e) =
      rw e (elim (Bool-cases (is_null a)) [ inl e ↦ rw e refl | inr e ↦ rw e refl ])

  cmp-present :
      (a b : Value F) (op : LeafOp)
      → is_null a ≡ false
      → is_null b ≡ false
      → cmp Fault.none a op b ≡ cmp_present Fault.none a op b
  unfolding cmp
  cmp-present a b op ha hb = rw (ha, hb) refl

  unknown_agrees :
      (a b : Value F) (op : LeafOp)
      → (a ≡ null) ⊎ (b ≡ null)
      → (BothPresent a b → ⊥)
      → Agrees (cmp Fault.none a op b) (CmpTrue a op b) (CmpFalse a op b)
  unknown_agrees a b op h n =
      subst (λ t. Agrees t (CmpTrue a op b) (CmpFalse a op b)) (sym (cmp-null a b op h))
        (agrees_unknown (λ h. n (true_present a b op h)) (λ h. n (false_present a b op h)))

  pub cmp-Agrees :
      (a b : Value F) (op : LeafOp)
      → PlainCmp a op b
      → Agrees (cmp Fault.none a op b) (CmpTrue a op b) (CmpFalse a op b)
  cmp-Agrees a b op h = elim (Present-or_null a) [
    | inl e ↦ unknown_agrees a b op (inl e) (λ (p, q). subst Present e p)
    | inr (pa, na) ↦ elim (Present-or_null b) [
      | inl e ↦ unknown_agrees a b op (inr e) (λ (p, q). subst Present e q)
      | inr (pb, nb) ↦
          subst (λ t. Agrees t (CmpTrue a op b) (CmpFalse a op b)) (sym (cmp-present a b op na nb))
            (cmp_present-Agrees a b op pa pb h)
    ]
  ]

pub NullTest-Agrees :
    {F : Type 0} (v : Value F) (want : Bool)
    → Agrees (from_bool (is_null v == want)) (NullTest v want) (NullTest v (bool_not want))
NullTest-Agrees null true = agrees_true refl (λ h. h)
NullTest-Agrees null false = agrees_false (λ h. h) refl
NullTest-Agrees v true = agrees_false (λ e. subst Present e tt) tt
NullTest-Agrees v false = agrees_true tt (λ e. subst Present e tt)
