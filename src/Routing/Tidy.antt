-- ===== src/Routing/Tidy.antt =====
-- apps/engine/src/subq_index.rs, the retraction of `remove` and `remove_bound`, which tests the
-- column's map for emptiness in either case.
use electric_circuits.Prelude.{
  ℕ, ◌≡◌, refl, ◌∙◌, sym, ap, inl, inr, Bool, true, ◌&&◌, Option, none, some, Ord, ◌==◌, ==_eq,
  ◌>>=◌, nat_ord, if◌then◌else◌, Map, lookup, insert, remove, lookup-insert, lookup-remove,
  Bool-cases, Option-cases,
}
use electric_circuits.Value.{Value, value_ord}
use electric_circuits.Routing.Postings.{
  Postings, posting, kept, put_or_drop, posting-put_or_drop, posting-retract_none, both_places,
  same_column,
}

module _ {F P : Type 0} ⦃o : Ord F⦄ where
  abbrev pub retract_value :
      (P → Bool) → (P → P) → Value F → Map (Value F) P → Option P → Map (Value F) P
  retract_value empty_test g v by_val none = by_val
  retract_value empty_test g v by_val (some p) =
      if empty_test (g p) then remove v by_val else insert v (g p) by_val

  abbrev pub tidy_column :
      (P → Bool) → (P → P) → ℕ → Value F → Postings F P → Option (Map (Value F) P) → Postings F P
  tidy_column empty_test g col v m none = m
  tidy_column empty_test g col v m (some by_val) =
      put_or_drop col (retract_value empty_test g v by_val (lookup v by_val)) m

  unfoldable pub retract_tidy : (P → Bool) → (P → P) → ℕ → Value F → Postings F P → Postings F P
  retract_tidy empty_test g col v m = tidy_column empty_test g col v m (lookup col m)

  lookup-retract_value :
      (empty_test : P → Bool) (g : P → P) (v w : Value F) (by_val : Map (Value F) P)
      (held : Option P)
      → lookup v by_val ≡ held
      → lookup w (retract_value empty_test g v by_val held)
        ≡ (if v == w then held >>= kept empty_test g else lookup w by_val)
  lookup-retract_value empty_test g v w by_val none e = elim (Bool-cases (v == w)) [
    | inl d ↦ rw d (ap (λ x. lookup x by_val) (sym (==_eq v w d)) ∙ e)
    | inr d ↦ rw d refl
  ]
  lookup-retract_value empty_test g v w by_val (some p) e = elim (Bool-cases (empty_test (g p))) [
    | inl d ↦ rw d (lookup-remove v w by_val)
    | inr d ↦ rw d (lookup-insert v w (g p) by_val)
  ]

  posting-tidy_column :
      (empty_test : P → Bool) (g : P → P) (col : ℕ) (v : Value F) (m : Postings F P)
      (by_val : Map (Value F) P) (c : ℕ) (w : Value F)
      → lookup col m ≡ some by_val
      → posting c w (tidy_column empty_test g col v m (some by_val))
        ≡ (if (col == c) && (v == w) then lookup v by_val >>= kept empty_test g else posting c w m)
  posting-tidy_column empty_test g col v m by_val c w in_m =
      posting-put_or_drop col (retract_value empty_test g v by_val (lookup v by_val)) m c w
      ∙ elim (Bool-cases (col == c)) [
        | inl d ↦ rw d (
            lookup-retract_value empty_test g v w by_val (lookup v by_val) refl
            ∙ ap (λ x. if v == w then lookup v by_val >>= kept empty_test g else x)
                (ap (λ x. x >>= lookup w) (sym in_m) ∙ same_column c col w m d))
        | inr d ↦ rw d refl
      ]

  posting-retract_tidy :
      (empty_test : P → Bool) (g : P → P) (col : ℕ) (v : Value F) (m : Postings F P) (c : ℕ)
      (w : Value F)
      → posting c w (retract_tidy empty_test g col v m)
        ≡ (if (col == c) && (v == w) then posting col v m >>= kept empty_test g else posting c w m)
  unfolding retract_tidy
  posting-retract_tidy empty_test g col v m c w = elim (Option-cases (lookup col m)) [
    | inl e ↦
        ap (λ x. posting c w (tidy_column empty_test g col v m x)) e
        ∙ posting-retract_none empty_test g col v m c w (ap (λ x. x >>= lookup v) e)
    | inr (by_val, e) ↦
        ap (λ x. posting c w (tidy_column empty_test g col v m x)) e
        ∙ posting-tidy_column empty_test g col v m by_val c w e
        ∙ ap
            (λ x.
              if (col == c) && (v == w)
              then (x >>= lookup v) >>= kept empty_test g
              else posting c w m)
            (sym e)
  ]

  pub posting-retract_tidy_keeps :
      (seen : Option P → Bool) (c : ℕ) (w : Value F) (m : Postings F P) (empty_test : P → Bool)
      (g : P → P) (col : ℕ) (v : Value F)
      → ((p : Option P) → seen p ≡ true → seen (p >>= kept empty_test g) ≡ true)
      → seen (posting c w m) ≡ true
      → seen (posting c w (retract_tidy empty_test g col v m)) ≡ true
  posting-retract_tidy_keeps seen c w m empty_test g col v step h =
      ap seen (posting-retract_tidy empty_test g col v m c w)
      ∙ elim (Bool-cases ((col == c) && (v == w))) [
        | inl e ↦ rw e (step (posting col v m) (ap seen (sym (both_places c col v w m e)) ∙ h))
        | inr e ↦ rw e h
      ]
