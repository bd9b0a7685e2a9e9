-- ===== src/Aggregate/Extremes.antt =====
-- The multiset of apps/engine/src/engine/executors.rs, `AggShape`, and its least and greatest keys.
use electric_circuits.Prelude.{
  ℕ, zero, suc, ◌+◌, ◌<◌, ◌^◌, ◌≡◌, refl, ◌∙◌, sym, ap, inl, inr, Bool, true, false, Option, none,
  some, [], ◌∷◌, arith, Ord, ◌==◌, ==_eq, ==_refl, if◌then◌else◌, Map, lookup, insert, remove,
  lookup-insert, lookup-remove, Bool-cases,
}
use electric_circuits.Value.{ℤ, pos, negsuc, Value, Row, is_null, cell_at, value_ord}
use electric_circuits.Value.Encoding.{unsigned_abs}
use electric_circuits.Value.Arith.{
  ◌+ℤ◌, +ℤ_assoc, +ℤ_zero, zero_+ℤ, unsigned_abs-+ℤ, wrap_i64, wrap_i64_small, is_positive, or_zero,
}
use electric_circuits.Output.Codec.{Delta}
use electric_circuits.Aggregate.Fold.{
  FloatLib, AggFn, AggTerms, keeps_values, count_value, with_count, fold_present,
}
use electric_circuits.Aggregate.Weights.{
  total, mass, non_null, with_value, net, fold_all, fold_all_row, non_null_row,
}

abbrev pub is_negative : ℤ → Bool
is_negative (pos n) = false
is_negative (negsuc n) = true

-- The entry of a net weight.
abbrev pub entry : ℤ → Option ℤ
entry z = if is_positive z then some z else none

or_zero-entry : (z : ℤ) → is_negative z ≡ false → or_zero (entry z) ≡ z
or_zero-entry (pos zero) h = refl
or_zero-entry (pos (suc n)) h = refl
or_zero-entry (negsuc n) h = cc

module _ {F : Type 0} ⦃o : Ord F⦄ where
  abbrev pub bump : Value F → ℤ → (Value F → ℤ) → Value F → ℤ
  bump v w n u = if v == u then n u +ℤ w else n u

  -- The net weight of no value falls below zero while the changes are applied to the weights `n`.
  abbrev pub Solvent : ℕ → (Value F → ℤ) → Delta F → Type 0
  Solvent c n [] = Unit
  Solvent c n ((row, w) ∷ delta) =
      (is_negative (n (cell_at row c) +ℤ w) ≡ false) × Solvent c (bump (cell_at row c) w n) delta

  abbrev Counted : Map (Value F) ℤ → (Value F → ℤ) → Type 0
  Counted m n = (u : Value F) → lookup u m ≡ entry (n u)

  count_value-lookup :
      (v : Value F) (w z : ℤ) (m : Map (Value F) ℤ) (u : Value F)
      → wrap_i64 (or_zero (lookup v m) +ℤ w) ≡ z
      → lookup u (count_value v w m) ≡ (if v == u then entry z else lookup u m)
  unfolding count_value
  count_value-lookup v w z m u e =
      ap (λ y. lookup u (if is_positive y then insert v y m else remove v m)) e
      ∙ (elim (Bool-cases (is_positive z)) [
        | inl p ↦ rw p (lookup-insert v u z m)
        | inr p ↦ rw p (lookup-remove v u m)
      ])

  -- The values of a delta, counted one after the other.
  unfoldable count_all : ℕ → Delta F → Map (Value F) ℤ → Map (Value F) ℤ
  count_all c [] m = m
  count_all c ((row, w) ∷ delta) m = count_all c delta (count_value (cell_at row c) w m)

  fold_all-multiset :
      (floats : FloatLib F) (func : AggFn) (c : ℕ) (delta : Delta F) (t : AggTerms F)
      → keeps_values func ≡ true
      → (fold_all floats func (some c) delta t).multiset ≡ count_all c (non_null c delta) t.multiset
  unfolding fold_all count_all
  fold_all-multiset floats func c [] t kept = refl
  fold_all-multiset floats func c ((row, w) ∷ delta) t kept =
      let u = with_count (wrap_i64 (t.count +ℤ w)) t in
      elim (Bool-cases (is_null (cell_at row c))) [
        | inl e ↦
            fold_all_row c row w delta e (λ s. s.multiset) floats func t
            ∙ fold_all-multiset floats func c delta u kept
            ∙ sym (non_null_row c row w delta e (λ d. count_all c d t.multiset))
        | inr e ↦
            fold_all_row c row w delta e (λ s. s.multiset) floats func t
            ∙ fold_all-multiset floats func c delta (fold_present floats func (cell_at row c) w u)
                kept
            ∙ ap
                (λ b.
                  count_all c (non_null c delta)
                    (if b then count_value (cell_at row c) w t.multiset else t.multiset))
                kept
            ∙ sym (non_null_row c row w delta e (λ d. count_all c d t.multiset))
      ]

  abbrev Small : (Value F → ℤ) → Delta F → Type 0
  Small n delta = (u : Value F) → unsigned_abs (n u) + mass delta < 2 ^ 63

  bump-at :
      (v : Value F) (w : ℤ) (n : Value F → ℤ) (u : Value F)
      → (v == u) ≡ true
      → bump v w n u ≡ n v +ℤ w
  bump-at v w n u e =
      ap (λ b. if b then n u +ℤ w else n u) e ∙ ap (λ x. n x +ℤ w) (sym (==_eq v u e))

  bump-Small :
      (v : Value F) (w : ℤ) (n : Value F → ℤ) (row : Row F) (delta : Delta F)
      → Small n ((row, w) ∷ delta)
      → Small (bump v w n) delta
  unfolding mass
  bump-Small v w n row delta small u = elim (Bool-cases (v == u)) [
    | inl e ↦ omega (arith, ap unsigned_abs (bump-at v w n u e), unsigned_abs-+ℤ (n v) w, small v)
    | inr e ↦ omega (arith, ap (λ b. unsigned_abs (if b then n u +ℤ w else n u)) e, small u)
  ]

  count_value-Counted :
      (v : Value F) (w : ℤ) (n : Value F → ℤ) (m : Map (Value F) ℤ)
      → Counted m n
      → is_negative (n v) ≡ false
      → unsigned_abs (n v +ℤ w) < 2 ^ 63
      → Counted (count_value v w m) (bump v w n)
  count_value-Counted v w n m counted nonneg small u =
      count_value-lookup v w (n v +ℤ w) m u (
        ap (λ o. wrap_i64 (or_zero o +ℤ w)) (counted v)
        ∙ ap (λ z. wrap_i64 (z +ℤ w)) (or_zero-entry (n v) nonneg)
        ∙ wrap_i64_small (n v +ℤ w) small)
      ∙ (elim (Bool-cases (v == u)) [
        | inl e ↦
            ap (λ b. if b then entry (n v +ℤ w) else lookup u m) e
            ∙ ap entry (sym (bump-at v w n u e))
        | inr e ↦
            ap (λ b. if b then entry (n v +ℤ w) else lookup u m) e
            ∙ counted u
            ∙ ap entry (ap (λ b. if b then n u +ℤ w else n u) (sym e))
      ])

  bump-total :
      (c : ℕ) (row : Row F) (w : ℤ) (n : Value F → ℤ) (delta : Delta F) (u : Value F)
      → bump (cell_at row c) w n u +ℤ total (with_value c u delta)
        ≡ n u +ℤ total (with_value c u ((row, w) ∷ delta))
  unfolding total
  bump-total c row w n delta u = elim (Bool-cases (cell_at row c == u)) [
    | inl e ↦
        ap (λ b. (if b then n u +ℤ w else n u) +ℤ total (with_value c u delta)) e
        ∙ +ℤ_assoc (n u) w (total (with_value c u delta))
        ∙ ap
            (λ b.
              n u +ℤ total (if b then (row, w) ∷ with_value c u delta else with_value c u delta))
            (sym e)
    | inr e ↦
        ap (λ b. (if b then n u +ℤ w else n u) +ℤ total (with_value c u delta)) e
        ∙ ap
            (λ b.
              n u +ℤ total (if b then (row, w) ∷ with_value c u delta else with_value c u delta))
            (sym e)
  ]

  count_all-Counted :
      (c : ℕ) (delta : Delta F) (n : Value F → ℤ) (m : Map (Value F) ℤ)
      → Counted m n
      → ((u : Value F) → is_negative (n u) ≡ false)
      → Small n delta
      → Solvent c n delta
      → Counted (count_all c delta m) (λ u. n u +ℤ total (with_value c u delta))
  unfolding count_all total
  count_all-Counted c [] n m counted nonneg small solvent u =
      counted u ∙ ap entry (sym (+ℤ_zero (n u)))
  count_all-Counted c ((row, w) ∷ delta) n m counted nonneg small solvent u =
      let v = cell_at row c in
      let small' = bump-Small v w n row delta small in
      count_all-Counted c delta (bump v w n) (count_value v w m)
        (count_value-Counted v w n m counted (nonneg v)
          (omega (arith, ap unsigned_abs (bump-at v w n v (==_refl v)), small' v)))
        (λ x. elim (Bool-cases (v == x)) [
          | inl e ↦ ap is_negative (bump-at v w n x e) ∙ solvent.0
          | inr e ↦ ap (λ b. is_negative (if b then n x +ℤ w else n x)) e ∙ nonneg x
        ])
        small' solvent.1 u
      ∙ ap entry (bump-total c row w n delta u)

  -- From an empty multiset, the entries are the positive net weights.
  pub fold_all-entries :
      (floats : FloatLib F) (func : AggFn) (c : ℕ) (delta : Delta F) (t : AggTerms F)
      → keeps_values func ≡ true
      → t.multiset ≡ []
      → mass (non_null c delta) < 2 ^ 63
      → Solvent c (λ u. pos 0) (non_null c delta)
      → (u : Value F)
      → lookup u (fold_all floats func (some c) delta t).multiset ≡ entry (net c u delta)
  unfolding lookup
  fold_all-entries floats func c delta t kept nothing small solvent u =
      ap (lookup u)
        (fold_all-multiset floats func c delta t kept ∙ ap (count_all c (non_null c delta)) nothing)
      ∙ count_all-Counted c (non_null c delta) (λ x. pos 0) [] (λ x. refl) (λ x. refl)
          (λ x. omega arith) solvent u
      ∙ ap entry (zero_+ℤ (net c u delta))
