-- ===== src/Predicate/Meaning/Sets.antt =====
-- The membership test of apps/engine/src/predicate.rs against what SQL says of IN and NOT IN.
use electric_circuits.Prelude.{
  ◌≡◌, ◌≢◌, ◌⊎◌, ◌↔◌, inl, inr, refl, subst, sym, Bool, true, false, not as bool_not, List, [], ◌∷◌,
  Memᴰ, All-mem, All-of, Ord, Bool-cases, true_false, if◌then◌else◌,
}
use electric_circuits.Value.{Value, null}
use electric_circuits.Predicate.Ast.{SubquerySig, unknown, SubqueryEval}
use electric_circuits.Predicate.Eval.{from_bool, in_set}
use electric_circuits.Predicate.Meaning.{Present, Differ, InTrue, InFalse, Describes, PlainSet}
use electric_circuits.Predicate.Meaning.Order.{
  Agrees, agrees_unknown, agrees_bool, agrees_not, not-from_bool,
}
use electric_circuits.Predicate.Meaning.Leaves.{Present-or_null}

-- A set without a NULL, or that has the cell, decides a cell that is not NULL.
in_agrees :
    {F : Type 0} (b : Bool) (x : Value F) (s : List (Value F))
    → Present x
    → (b ≡ true) ↔ Memᴰ x s
    → (¬ Memᴰ null s) ⊎ Memᴰ x s
    → Agrees (from_bool b) (InTrue x s) (InFalse x s)
in_agrees b x s p (f, g) plain =
    agrees_bool b (λ e. (x, (f e, (p, refl))))
      (λ e. All-of (Differ x) s (λ v m. (
        p,
        elim (Present-or_null v) [
          | inl n ↦ elim plain [
            | inl without ↦ absurd (without (subst (λ w. Memᴰ w s) n m))
            | inr mx ↦ absurd (true_false (g mx) e)
          ]
          | inr (pv, nv) ↦ pv
        ],
        λ q. true_false (g (subst (λ w. Memᴰ w s) (sym q) m)) e,
      )))
      (λ (v, (m, (px, q))) h. (All-mem (Differ x) s h m).2 q)

null_undecided : {F : Type 0} (s : List (Value F)) → s ≢ [] → InFalse null s → ⊥
null_undecided [] n h = absurd (n refl)
null_undecided (v ∷ s) n h = h.0.0

null_agrees :
    {F : Type 0} (s : List (Value F)) → s ≢ [] → Agrees unknown (InTrue null s) (InFalse null s)
null_agrees s n = agrees_unknown (λ (v, (m, (p, q))). p) (null_undecided s n)

module _ {F : Type 0} ⦃o : Ord F⦄ (ev : SubqueryEval F) (sets : SubquerySig → List (Value F))
    (describes : Describes ev sets) where
  pub in_set-Agrees :
      (x : Value F) (sig : SubquerySig)
      → PlainSet x (sets sig) false
      → Agrees (in_set ev x sig false) (InTrue x (sets sig)) (InFalse x (sets sig))
  unfolding in_set
  in_set-Agrees null sig h = null_agrees (sets sig) h
  in_set-Agrees x sig h = in_agrees (ev.contains sig x) x (sets sig) tt (describes.0 sig x) h

  absent_agrees :
      (x : Value F) (sig : SubquerySig)
      → Present x
      → (¬ Memᴰ null (sets sig)) ⊎ (¬ Memᴰ x (sets sig))
      → Agrees
          (if ev.has_null sig then unknown else from_bool (bool_not (ev.contains sig x)))
          (InFalse x (sets sig))
          (InTrue x (sets sig))
  absent_agrees x sig p h = elim (Bool-cases (ev.has_null sig)) [
    | inl e ↦
        let m = (describes.1 sig).0 e in
        rw e (
          agrees_unknown (λ all. (All-mem (Differ x) (sets sig) all m).1)
            (λ (v, (mv, (px, q))). elim h [
              | inl without ↦ without m
              | inr without ↦ without (subst (λ w. Memᴰ w (sets sig)) (sym q) mv)
            ]))
    | inr e ↦ rw e (
        subst (λ t. Agrees t (InFalse x (sets sig)) (InTrue x (sets sig)))
          (not-from_bool (ev.contains sig x))
          (agrees_not (from_bool (ev.contains sig x)) (
            in_agrees (ev.contains sig x) x (sets sig) p (describes.0 sig x)
              (inl (λ m. true_false ((describes.1 sig).1 m) e)))))
  ]

  pub not-in_set-Agrees :
      (x : Value F) (sig : SubquerySig)
      → PlainSet x (sets sig) true
      → Agrees (in_set ev x sig true) (InFalse x (sets sig)) (InTrue x (sets sig))
  unfolding in_set
  not-in_set-Agrees null sig h = agrees_not unknown (null_agrees (sets sig) h)
  not-in_set-Agrees x sig h = absent_agrees x sig tt h
