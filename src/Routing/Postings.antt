-- ===== src/Routing/Postings.antt =====
-- Posting lists by column and literal, as the indexes of apps/engine/src/engine/executors.rs and
-- apps/engine/src/subq_index.rs keep them: a map of maps without empty entries.
use electric_circuits.Prelude.{
  ℕ, ◌≡◌, refl, ◌∙◌, sym, ap, inl, inr, Bool, true, false, ◌&&◌, Option, none, some, List, [], ◌∷◌,
  Ord, ◌==◌, ◌>>=◌, ==_eq, ==_refl, nat_ord, if◌then◌else◌, Map, lookup, insert, remove,
  lookup-insert, lookup-remove, Bool-cases, Option-cases, and_split,
}
use electric_circuits.Value.{Value, value_ord}

abbrev pub is_empty {ℓ} : {A : Type ℓ} → List A → Bool
is_empty [] = true
is_empty (x ∷ xs) = false

abbrev pub or_default {ℓ} : {A : Type ℓ} → A → Option A → A
or_default d none = d
or_default d (some a) = a

abbrev pub Postings : Type 0 → Type 0 → Type 0
Postings F P = Map ℕ (Map (Value F) P)

is_empty-nil {ℓ} : {A : Type ℓ} (xs : List A) → is_empty xs ≡ true → xs ≡ []
is_empty-nil [] h = refl
is_empty-nil (x ∷ xs) h = cc

abbrev pub kept {ℓ} : {P : Type ℓ} → (P → Bool) → (P → P) → P → Option P
kept empty_test g p = if empty_test (g p) then none else some (g p)

module _ {F P : Type 0} ⦃o : Ord F⦄ where
  abbrev pub posting : ℕ → Value F → Postings F P → Option P
  posting col v m = lookup col m >>= lookup v

  -- `entry(col).or_default().entry(value).or_default()`, changed by `f`.
  unfoldable pub file : P → (P → P) → ℕ → Value F → Postings F P → Postings F P
  file empty f col v m =
      let by_val = or_default [] (lookup col m) in
      insert col (insert v (f (or_default empty (lookup v by_val))) by_val) m

  abbrev pub put_or_drop : ℕ → Map (Value F) P → Postings F P → Postings F P
  put_or_drop col by_val m = if is_empty by_val then remove col m else insert col by_val m

  abbrev pub retract_found :
      (P → Bool) → (P → P) → ℕ → Value F → Map (Value F) P → Postings F P → Option P → Postings F P
  retract_found empty_test g col v by_val m none = m
  retract_found empty_test g col v by_val m (some p) =
      if empty_test (g p)
      then put_or_drop col (remove v by_val) m
      else insert col (insert v (g p) by_val) m

  abbrev pub retract_in :
      (P → Bool) → (P → P) → ℕ → Value F → Postings F P → Option (Map (Value F) P) → Postings F P
  retract_in empty_test g col v m none = m
  retract_in empty_test g col v m (some by_val) =
      retract_found empty_test g col v by_val m (lookup v by_val)

  -- A posting changed by `g`; an entry that becomes empty is dropped.
  unfoldable pub retract : (P → Bool) → (P → P) → ℕ → Value F → Postings F P → Postings F P
  retract empty_test g col v m = retract_in empty_test g col v m (lookup col m)

  lookup-or_default :
      (w : Value F) (by_val : Option (Map (Value F) P))
      → lookup w (or_default [] by_val) ≡ by_val >>= lookup w
  unfolding lookup
  lookup-or_default w none = refl
  lookup-or_default w (some by_val) = refl

  pub same_column :
      (c col : ℕ) (w : Value F) (m : Postings F P)
      → (col == c) ≡ true
      → (lookup col m >>= lookup w) ≡ (lookup c m >>= lookup w)
  same_column c col w m e = ap (λ x. lookup x m >>= lookup w) (==_eq col c e)

  filed :
      (v w : Value F) (p : P) (by_val : Map (Value F) P) {o : Option P}
      → lookup w by_val ≡ o
      → lookup w (insert v p by_val) ≡ (if v == w then some p else o)
  filed v w p by_val e = lookup-insert v w p by_val ∙ ap (λ x. if v == w then some p else x) e

  -- What is filed is found where it was filed, and nothing else changes.
  pub posting-file :
      (empty : P) (f : P → P) (col : ℕ) (v : Value F) (m : Postings F P) (c : ℕ) (w : Value F)
      → posting c w (file empty f col v m) ≡ (
          if (col == c) && (v == w)
          then some (f (or_default empty (posting col v m)))
          else posting c w m)
  unfolding file
  posting-file empty f col v m c w =
      ap (λ o. o >>= lookup w)
        (lookup-insert col c
          (insert v (f (or_default empty (lookup v (or_default [] (lookup col m)))))
            (or_default [] (lookup col m)))
          m)
      ∙ elim (Bool-cases (col == c)) [
        | inl e ↦ rw e (
            filed v w (f (or_default empty (lookup v (or_default [] (lookup col m)))))
              (or_default [] (lookup col m))
              (lookup-or_default w (lookup col m) ∙ same_column c col w m e)
            ∙ ap (λ o. if v == w then some (f (or_default empty o)) else posting c w m)
                (lookup-or_default v (lookup col m)))
        | inr e ↦ rw e refl
      ]

  nothing_left :
      (w : Value F) (by_val : Map (Value F) P) → is_empty by_val ≡ true → lookup w by_val ≡ none
  unfolding lookup
  nothing_left w by_val h = rw (is_empty-nil by_val h) refl

  pub posting-put_or_drop :
      (col : ℕ) (by_val : Map (Value F) P) (m : Postings F P) (c : ℕ) (w : Value F)
      → posting c w (put_or_drop col by_val m)
        ≡ (if col == c then lookup w by_val else posting c w m)
  posting-put_or_drop col by_val m c w = elim (Bool-cases (is_empty by_val)) [
    | inl e ↦ rw e (
        rw (lookup-remove col c m) (elim (Bool-cases (col == c)) [
          | inl d ↦ rw d (sym (nothing_left w by_val e))
          | inr d ↦ rw d refl
        ]))
    | inr e ↦ rw e (
        rw (lookup-insert col c by_val m)
          (elim (Bool-cases (col == c)) [ inl d ↦ rw d refl | inr d ↦ rw d refl ]))
  ]

  same_place :
      (c col : ℕ) (v w : Value F) (m : Postings F P)
      → (col == c) ≡ true
      → (v == w) ≡ true
      → posting c w m ≡ posting col v m
  same_place c col v w m e d =
      sym (same_column c col w m e) ∙ ap (λ x. posting col x m) (sym (==_eq v w d))

  pub posting-retract_none :
      (empty_test : P → Bool) (g : P → P) (col : ℕ) (v : Value F) (m : Postings F P) (c : ℕ)
      (w : Value F)
      → posting col v m ≡ none
      → posting c w m
        ≡ (if (col == c) && (v == w) then posting col v m >>= kept empty_test g else posting c w m)
  posting-retract_none empty_test g col v m c w h = elim (Bool-cases (col == c)) [
    | inl e ↦ (elim (Bool-cases (v == w)) [
      | inl d ↦
          rw e (rw d (same_place c col v w m e d ∙ h ∙ ap (λ o. o >>= kept empty_test g) (sym h)))
      | inr d ↦ rw e (rw d refl)
    ])
    | inr e ↦ rw e refl
  ]

  posting-retract_found :
      (empty_test : P → Bool) (g : P → P) (col : ℕ) (v : Value F) (by_val : Map (Value F) P)
      (m : Postings F P) (o : Option P) (c : ℕ) (w : Value F)
      → lookup col m ≡ some by_val
      → lookup v by_val ≡ o
      → posting c w (retract_found empty_test g col v by_val m o)
        ≡ (if (col == c) && (v == w) then o >>= kept empty_test g else posting c w m)
  posting-retract_found empty_test g col v by_val m none c w in_m in_by_val =
      posting-retract_none empty_test g col v m c w (ap (λ o. o >>= lookup v) in_m ∙ in_by_val)
      ∙ ap (λ o. if (col == c) && (v == w) then o >>= kept empty_test g else posting c w m)
          (ap (λ o. o >>= lookup v) in_m ∙ in_by_val)
  posting-retract_found empty_test g col v by_val m (some p) c w in_m in_by_val =
      elim (Bool-cases (empty_test (g p))) [
        | inl e ↦ rw e (
            posting-put_or_drop col (remove v by_val) m c w ∙ elim (Bool-cases (col == c)) [
              | inl d ↦ rw d (
                  lookup-remove v w by_val
                  ∙ ap (λ o. if v == w then none else o)
                      (ap (λ o. o >>= lookup w) (sym in_m) ∙ same_column c col w m d))
              | inr d ↦ rw d refl
            ])
        | inr e ↦ rw e (
            ap (λ o. o >>= lookup w) (lookup-insert col c (insert v (g p) by_val) m)
            ∙ elim (Bool-cases (col == c)) [
              | inl d ↦ rw d (
                  filed v w (g p) by_val
                    (ap (λ o. o >>= lookup w) (sym in_m) ∙ same_column c col w m d))
              | inr d ↦ rw d refl
            ])
      ]

  -- A retraction changes one posting, which it drops where it becomes empty.
  pub posting-retract :
      (empty_test : P → Bool) (g : P → P) (col : ℕ) (v : Value F) (m : Postings F P) (c : ℕ)
      (w : Value F)
      → posting c w (retract empty_test g col v m)
        ≡ (if (col == c) && (v == w) then posting col v m >>= kept empty_test g else posting c w m)
  unfolding retract
  posting-retract empty_test g col v m c w = elim (Option-cases (lookup col m)) [
    | inl e ↦
        ap (λ o. posting c w (retract_in empty_test g col v m o)) e
        ∙ posting-retract_none empty_test g col v m c w (ap (λ o. o >>= lookup v) e)
    | inr (by_val, e) ↦
        ap (λ o. posting c w (retract_in empty_test g col v m o)) e
        ∙ posting-retract_found empty_test g col v by_val m (lookup v by_val) c w e refl
        ∙ ap
            (λ o.
              if (col == c) && (v == w)
              then (o >>= lookup v) >>= kept empty_test g
              else posting c w m)
            (sym e)
  ]

  pub both_places :
      (c col : ℕ) (v w : Value F) (m : Postings F P)
      → ((col == c) && (v == w)) ≡ true
      → posting c w m ≡ posting col v m
  both_places c col v w m h =
      let (e, d) = and_split (col == c) (v == w) h in same_place c col v w m e d

  pub posting-file_there :
      (empty : P) (f : P → P) (col : ℕ) (v : Value F) (m : Postings F P)
      → posting col v (file empty f col v m) ≡ some (f (or_default empty (posting col v m)))
  posting-file_there empty f col v m =
      posting-file empty f col v m col v
      ∙ ap
          (λ b.
            if b && (v == v)
            then some (f (or_default empty (posting col v m)))
            else posting col v m)
          (==_refl col)
      ∙ ap (λ b. if b then some (f (or_default empty (posting col v m))) else posting col v m)
          (==_refl v)

  -- What every change of a posting keeps, filing and retracting keep of all postings.
  module _ (seen : Option P → Bool) (c : ℕ) (w : Value F) (m : Postings F P) where
    pub posting-file_keeps :
        (empty : P) (f : P → P) (col : ℕ) (v : Value F)
        → ((p : Option P) → seen p ≡ true → seen (some (f (or_default empty p))) ≡ true)
        → seen (posting c w m) ≡ true
        → seen (posting c w (file empty f col v m)) ≡ true
    posting-file_keeps empty f col v step h =
        ap seen (posting-file empty f col v m c w) ∙ elim (Bool-cases ((col == c) && (v == w))) [
          | inl e ↦ rw e (step (posting col v m) (ap seen (sym (both_places c col v w m e)) ∙ h))
          | inr e ↦ rw e h
        ]

    pub posting-retract_keeps :
        (empty_test : P → Bool) (g : P → P) (col : ℕ) (v : Value F)
        → ((p : Option P) → seen p ≡ true → seen (p >>= kept empty_test g) ≡ true)
        → seen (posting c w m) ≡ true
        → seen (posting c w (retract empty_test g col v m)) ≡ true
    posting-retract_keeps empty_test g col v step h =
        ap seen (posting-retract empty_test g col v m c w)
        ∙ elim (Bool-cases ((col == c) && (v == w))) [
          | inl e ↦ rw e (step (posting col v m) (ap seen (sym (both_places c col v w m e)) ∙ h))
          | inr e ↦ rw e h
        ]
