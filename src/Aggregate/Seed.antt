-- ===== src/Aggregate/Seed.antt =====
-- apps/engine/src/engine/executors.rs, `AggSeed::fold_rows`, against the live path of `AggShape::apply`.
use electric_circuits.Prelude.{
  ◌≡◌, refl, ◌∙◌, sym, ap, inl, inr, Bool, true, List, [], ◌∷◌, map, Ord, if◌then◌else◌, Bool-cases,
}
use electric_circuits.Value.{pos, Row}
use electric_circuits.Predicate.Ast.{Fault}
use electric_circuits.Predicate.Eval.{matches}
use electric_circuits.Output.Codec.{Delta}
use electric_circuits.Aggregate.Fold.{
  FloatLib, AggTerms, AggShape, fold_agg_row, fold_rows, apply_rows,
}

-- The rows of a backfill as a delta.
abbrev pub backfilled : {F : Type 0} → List (Row F) → Delta F
backfilled rows = map (λ r. (r, pos 1)) rows

module _ {F : Type 0} ⦃o : Ord F⦄ (f : Fault) (floats : FloatLib F) (shape : AggShape F) where
  -- Folding the rows of a backfill gives the terms that the live path gives for the same rows, each
  -- with weight one, from whatever terms it starts.
  pub fold_rows-apply_rows :
      (rows : List (Row F)) (t : AggTerms F) (touched : Bool)
      → fold_rows f floats shape.pred shape.func shape.col rows t
        ≡ (apply_rows f floats shape (backfilled rows) (touched, t)).1
  unfolding fold_rows apply_rows
  fold_rows-apply_rows [] t touched = refl
  fold_rows-apply_rows (row ∷ rows) t touched =
      let folded = fold_agg_row floats shape.func shape.col row (pos 1) t in
      elim (Bool-cases (matches f shape.pred row)) [
        | inl e ↦
            ap
              (λ b.
                fold_rows f floats shape.pred shape.func shape.col rows (if b then folded else t))
              e
            ∙ fold_rows-apply_rows rows folded true
            ∙ ap
                (λ b.
                  (apply_rows f floats shape (backfilled rows)
                    (if b then (true, folded) else (touched, t))).1)
                (sym e)
        | inr e ↦
            ap
              (λ b.
                fold_rows f floats shape.pred shape.func shape.col rows (if b then folded else t))
              e
            ∙ fold_rows-apply_rows rows t touched
            ∙ ap
                (λ b.
                  (apply_rows f floats shape (backfilled rows)
                    (if b then (true, folded) else (touched, t))).1)
                (sym e)
      ]
