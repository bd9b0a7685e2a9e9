-- ===== src/Aggregate/Sum.antt =====
-- The sum of apps/engine/src/engine/executors.rs, `AggShape`, over a column of integers or Booleans.
use electric_circuits.Prelude.{
  ℕ, ◌+◌, ◌<◌, ◌^◌, ◌≡◌, refl, ◌∙◌, sym, ap, inl, inr, Bool, true, false, some, [], ◌∷◌, arith, All,
  Ord, Bool-cases,
}
use electric_circuits.Value.{ℤ, pos, Value, null, int, text, bool, float, is_null, cell_at}
use electric_circuits.Value.Encoding.{unsigned_abs}
use electric_circuits.Value.Arith.{
  ◌+ℤ◌, ◌*ℤ◌, +ℤ_assoc, +ℤ_zero, zero_+ℤ, unsigned_abs-+ℤ, wrap_i64, wrap_i128, wrap_i128_small,
}
use electric_circuits.Output.Codec.{Delta}
use electric_circuits.Aggregate.Fold.{
  FloatLib, AggFn, int_sum, AggTerms, bool_int, sum_add, with_count, fold_present,
}
use electric_circuits.Aggregate.Weights.{fold_all, fold_all_row}

-- What a cell of weight `w` contributes; NULL contributes nothing.
abbrev pub contribution : {F : Type 0} → Value F → ℤ → ℤ
contribution (int i) w = i *ℤ w
contribution (bool b) w = bool_int b *ℤ w
contribution _ w = pos 0

abbrev pub is_exact : {F : Type 0} → Value F → Bool
is_exact (text s) = false
is_exact (float f) = false
is_exact _ = true

unfoldable pub sum_of : {F : Type 0} → ℕ → Delta F → ℤ
sum_of c [] = pos 0
sum_of c ((row, w) ∷ delta) = contribution (cell_at row c) w +ℤ sum_of c delta

unfoldable pub sum_mass : {F : Type 0} → ℕ → Delta F → ℕ
sum_mass c [] = 0
sum_mass c ((row, w) ∷ delta) = unsigned_abs (contribution (cell_at row c) w) + sum_mass c delta

abbrev pub ExactColumn : {F : Type 0} → ℕ → Delta F → Type 0
ExactColumn c delta = All (λ t. is_exact (cell_at t.0 c) ≡ true) delta

add_i128 :
    (a x : ℤ) (rest : ℕ)
    → unsigned_abs a + (unsigned_abs x + rest) < 2 ^ 127
    → wrap_i128 (a +ℤ wrap_i128 x) ≡ a +ℤ x
add_i128 a x rest h =
    ap (λ y. wrap_i128 (a +ℤ y)) (wrap_i128_small x (omega arith))
    ∙ wrap_i128_small (a +ℤ x) (omega (arith, unsigned_abs-+ℤ a x))

null_contribution : {F : Type 0} (v : Value F) (w : ℤ) → is_null v ≡ true → contribution v w ≡ pos 0
null_contribution null w h = refl
null_contribution (int i) w h = cc
null_contribution (text s) w h = cc
null_contribution (bool b) w h = cc
null_contribution (float f) w h = cc

module _ {F : Type 0} (floats : FloatLib F) where
  sum_add-exact :
      (a : ℤ) (v : Value F) (w : ℤ) (rest : ℕ)
      → is_null v ≡ false
      → is_exact v ≡ true
      → unsigned_abs a + (unsigned_abs (contribution v w) + rest) < 2 ^ 127
      → sum_add floats (int_sum a) v w ≡ int_sum (a +ℤ contribution v w)
  unfolding sum_add
  sum_add-exact a (int i) w rest n e h = ap int_sum (add_i128 a (i *ℤ w) rest h)
  sum_add-exact a (bool b) w rest n e h = ap int_sum (add_i128 a (bool_int b *ℤ w) rest h)
  sum_add-exact a null w rest n e h = cc
  sum_add-exact a (text s) w rest n e h = cc
  sum_add-exact a (float f) w rest n e h = cc

module _ {F : Type 0} ⦃o : Ord F⦄ (floats : FloatLib F) (func : AggFn) where
  pub fold_all-sum :
      (c : ℕ) (delta : Delta F) (t : AggTerms F) (a : ℤ)
      → t.sum ≡ int_sum a
      → ExactColumn c delta
      → unsigned_abs a + sum_mass c delta < 2 ^ 127
      → (fold_all floats func (some c) delta t).sum ≡ int_sum (a +ℤ sum_of c delta)
  unfolding fold_all sum_of sum_mass
  fold_all-sum c [] t a e exact h = e ∙ ap int_sum (sym (+ℤ_zero a))
  fold_all-sum c ((row, w) ∷ delta) t a e exact h =
      let u = with_count (wrap_i64 (t.count +ℤ w)) t in
      let v = cell_at row c in
      elim (Bool-cases (is_null v)) [
        | inl n ↦
            fold_all_row c row w delta n (λ s. s.sum) floats func t
            ∙ fold_all-sum c delta u a e exact.1 (omega arith)
            ∙ ap (λ x. int_sum (a +ℤ x))
                (sym (
                  ap (λ x. x +ℤ sum_of c delta) (null_contribution v w n)
                  ∙ zero_+ℤ (sum_of c delta)))
        | inr n ↦
            fold_all_row c row w delta n (λ s. s.sum) floats func t
            ∙ fold_all-sum c delta (fold_present floats func v w u) (a +ℤ contribution v w)
                (ap (λ s. sum_add floats s v w) e
                  ∙ sum_add-exact floats a v w (sum_mass c delta) n exact.0 h)
                exact.1 (omega (arith, unsigned_abs-+ℤ a (contribution v w)))
            ∙ ap int_sum (+ℤ_assoc a (contribution v w) (sum_of c delta))
      ]
