-- ===== src/Aggregate/Counts.antt =====
-- The counts and the sum of apps/engine/src/engine/executors.rs, `AggShape`.
use electric_circuits.Prelude.{
  subst, ℕ, ◌+◌, ◌<◌, ◌^◌, ◌≡◌, refl, ◌∙◌, sym, ap, inl, inr, Option, none, some, [], ◌∷◌, arith,
  Ord, Bool-cases,
}
use electric_circuits.Value.{ℤ, Row, is_null, cell_at}
use electric_circuits.Value.Encoding.{unsigned_abs}
use electric_circuits.Value.Arith.{
  ◌+ℤ◌, +ℤ_assoc, +ℤ_zero, unsigned_abs-+ℤ, wrap_i64, wrap_i64_small,
}
use electric_circuits.Output.Codec.{Delta}
use electric_circuits.Aggregate.Fold.{
  FloatLib, AggFn, AggTerms, fold_present, with_count, fold_agg_row,
}
use electric_circuits.Aggregate.Weights.{
  total, mass, non_null, fold_all, fold_all_row, non_null_row,
}

pub add_i64 :
    (a w : ℤ) (rest : ℕ)
    → unsigned_abs a + (unsigned_abs w + rest) < 2 ^ 63
    → (wrap_i64 (a +ℤ w) ≡ a +ℤ w) × (unsigned_abs (a +ℤ w) + rest < 2 ^ 63)
add_i64 a w rest h = (
  wrap_i64_small (a +ℤ w) (omega (arith, unsigned_abs-+ℤ a w)),
  omega (arith, unsigned_abs-+ℤ a w),
)

module _ {F : Type 0} ⦃o : Ord F⦄ (floats : FloatLib F) (func : AggFn) where
  fold_agg_row-count :
      (col : Option ℕ) (row : Row F) (w : ℤ) (t : AggTerms F)
      → (fold_agg_row floats func col row w t).count ≡ wrap_i64 (t.count +ℤ w)
  fold_agg_row-count none row w t = refl
  fold_agg_row-count (some c) row w t = elim (Bool-cases (is_null (cell_at row c))) [
    | inl e ↦ rw e refl
    | inr e ↦ rw e refl
  ]

  pub fold_all-count :
      (col : Option ℕ) (delta : Delta F) (t : AggTerms F)
      → unsigned_abs t.count + mass delta < 2 ^ 63
      → (fold_all floats func col delta t).count ≡ t.count +ℤ total delta
  unfolding fold_all total mass
  fold_all-count col [] t h = sym (+ℤ_zero t.count)
  fold_all-count col ((row, w) ∷ delta) t h =
      let (exact, room) = add_i64 t.count w (mass delta) h in
      let now = fold_agg_row-count col row w t ∙ exact in
      fold_all-count col delta (fold_agg_row floats func col row w t)
        (subst (λ n. unsigned_abs n + mass delta < 2 ^ 63) (sym now) room)
      ∙ ap (λ n. n +ℤ total delta) now
      ∙ +ℤ_assoc t.count w (total delta)

  pub fold_all-nn_count :
      (c : ℕ) (delta : Delta F) (t : AggTerms F)
      → unsigned_abs t.nn_count + mass delta < 2 ^ 63
      → (fold_all floats func (some c) delta t).nn_count ≡ t.nn_count +ℤ total (non_null c delta)
  unfolding fold_all total mass
  fold_all-nn_count c [] t h = sym (+ℤ_zero t.nn_count)
  fold_all-nn_count c ((row, w) ∷ delta) t h =
      let u = with_count (wrap_i64 (t.count +ℤ w)) t in
      let (exact, room) = add_i64 t.nn_count w (mass delta) h in
      elim (Bool-cases (is_null (cell_at row c))) [
        | inl e ↦
            fold_all_row c row w delta e (λ s. s.nn_count) floats func t
            ∙ fold_all-nn_count c delta u (omega arith)
            ∙ sym (non_null_row c row w delta e (λ d. t.nn_count +ℤ total d))
        | inr e ↦
            fold_all_row c row w delta e (λ s. s.nn_count) floats func t
            ∙ fold_all-nn_count c delta (fold_present floats func (cell_at row c) w u)
                (subst (λ n. unsigned_abs n + mass delta < 2 ^ 63) (sym exact) room)
            ∙ ap (λ n. n +ℤ total (non_null c delta)) exact
            ∙ +ℤ_assoc t.nn_count w (total (non_null c delta))
            ∙ sym (non_null_row c row w delta e (λ d. t.nn_count +ℤ total d))
      ]
