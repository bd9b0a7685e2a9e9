-- ===== src/Aggregate/Weights.antt =====
-- The weights of a delta, which the folds of apps/engine/src/engine/executors.rs add up.
use electric_circuits.Prelude.{
  ℕ, ◌+◌, ◌≡◌, refl, ◌∙◌, sym, ap, inl, inr, Bool, true, not, Option, some, [], ◌∷◌, filter, Ord,
  ◌==◌, if◌then◌else◌, Bool-cases,
}
use electric_circuits.Value.{ℤ, pos, Value, Row, is_null, cell_at, value_ord}
use electric_circuits.Value.Encoding.{unsigned_abs}
use electric_circuits.Value.Arith.{◌+ℤ◌, wrap_i64}
use electric_circuits.Predicate.Ast.{Fault}
use electric_circuits.Output.Codec.{Delta}
use electric_circuits.Output.Standalone.{eval_standalone}
use electric_circuits.Predicate.Eval.{matches}
use electric_circuits.Aggregate.Fold.{
  FloatLib, AggFn, AggTerms, AggShape, with_count, fold_present, fold_agg_row, apply_rows,
}

-- The sum of the weights, and that of their absolute values.
unfoldable pub total : {F : Type 0} → Delta F → ℤ
total [] = pos 0
total ((row, w) ∷ delta) = w +ℤ total delta

unfoldable pub mass : {F : Type 0} → Delta F → ℕ
mass [] = 0
mass ((row, w) ∷ delta) = unsigned_abs w + mass delta

abbrev pub non_null : {F : Type 0} → ℕ → Delta F → Delta F
non_null c delta = filter (λ t. not (is_null (cell_at t.0 c))) delta

module _ {F : Type 0} ⦃o : Ord F⦄ where
  abbrev pub with_value : ℕ → Value F → Delta F → Delta F
  with_value c v delta = filter (λ t. cell_at t.0 c == v) delta

  -- The net weight of a value in a column; NULL is not counted.
  abbrev pub net : ℕ → Value F → Delta F → ℤ
  net c v delta = total (with_value c v (non_null c delta))

  unfoldable pub fold_all : FloatLib F → AggFn → Option ℕ → Delta F → AggTerms F → AggTerms F
  fold_all floats func col [] t = t
  fold_all floats func col ((row, w) ∷ delta) t =
      fold_all floats func col delta (fold_agg_row floats func col row w t)

  -- The live path folds the matching part of a delta.
  pub apply_rows-matched :
      (f : Fault) (floats : FloatLib F) (shape : AggShape F) (delta : Delta F)
      (r : Bool × AggTerms F)
      → (apply_rows f floats shape delta r).1
        ≡ fold_all floats shape.func shape.col (eval_standalone f shape.pred delta) r.1
  unfolding apply_rows fold_all eval_standalone
  apply_rows-matched f floats shape [] r = refl
  apply_rows-matched f floats shape ((row, w) ∷ delta) r =
      let folded = fold_agg_row floats shape.func shape.col row w r.1 in
      let rest = eval_standalone f shape.pred delta in
      elim (Bool-cases (matches f shape.pred row)) [
        | inl e ↦
            ap (λ b. (apply_rows f floats shape delta (if b then (true, folded) else (r.0, r.1))).1)
              e
            ∙ apply_rows-matched f floats shape delta (true, folded)
            ∙ ap
                (λ b.
                  fold_all floats shape.func shape.col (if b then (row, w) ∷ rest else rest) r.1)
                (sym e)
        | inr e ↦
            ap (λ b. (apply_rows f floats shape delta (if b then (true, folded) else (r.0, r.1))).1)
              e
            ∙ apply_rows-matched f floats shape delta r
            ∙ ap
                (λ b.
                  fold_all floats shape.func shape.col (if b then (row, w) ∷ rest else rest) r.1)
                (sym e)
      ]

  -- One row of a column that may be NULL, for what is observed of the terms and of the rest.
  module _ {C : Type 0} (c : ℕ) (row : Row F) (w : ℤ) (delta : Delta F) {b : Bool}
      (e : is_null (cell_at row c) ≡ b) where
    pub fold_all_row :
        (seen : AggTerms F → C) (floats : FloatLib F) (func : AggFn) (t : AggTerms F)
        → let u = with_count (wrap_i64 (t.count +ℤ w)) t in
          seen (fold_all floats func (some c) ((row, w) ∷ delta) t)
          ≡ seen (
              fold_all floats func
                (some c)
                delta
                (if b then u else fold_present floats func (cell_at row c) w u))
    unfolding fold_all
    fold_all_row seen floats func t =
        let u = with_count (wrap_i64 (t.count +ℤ w)) t in
        ap
          (λ n. seen (
            fold_all floats func (some c) delta
              (if n then u else fold_present floats func (cell_at row c) w u)))
          e

    pub non_null_row :
        (seen : Delta F → C)
        → seen (non_null c ((row, w) ∷ delta))
          ≡ seen (if not b then (row, w) ∷ non_null c delta else non_null c delta)
    non_null_row seen =
        ap (λ n. seen (if not n then (row, w) ∷ non_null c delta else non_null c delta)) e
