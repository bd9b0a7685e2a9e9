-- ===== src/Aggregate/Fold.antt =====
-- apps/engine/src/engine/executors.rs: `AggSum`, `fold_agg_row`, `AggSeed` and `AggShape`. The
-- arithmetic of `f64` is an interface. Of a shape the fields that these functions read are kept; a
-- `BTreeMap` gives its least or greatest key first.
use electric_circuits.Prelude.{
  ℕ, Bool, true, false, Option, none, some, List, [], ◌∷◌, Ord, leb, nat_ord, is_le, is_ge,
  if◌then◌else◌, Map, lookup, insert, remove,
}
use electric_circuits.Value.Arith.{is_positive, or_zero, ◌+ℤ◌, ◌*ℤ◌, wrap_i64, wrap_i128}
use electric_circuits.Value.{
  Text, ℤ, pos, Value, Row, int, bool, float, is_null, cell_at, value_ord, value_cmp,
}
use electric_circuits.Value.Encoding.{JsonLib, json_exact_int_max, unsigned_abs, to_json}
use electric_circuits.Value.Decimal.{int_text}
use electric_circuits.Predicate.Ast.{Fault, CompiledPredicate}
use electric_circuits.Predicate.Eval.{matches}
use electric_circuits.Envelope.{Envelope}
use electric_circuits.Schema.Compile.{TableSchema}
use electric_circuits.Schema.Rows.{ObjectLib}
use electric_circuits.Output.Deleted.{agg_envelope}
use electric_circuits.Output.Codec.{Delta}

pub data AggFn : Type 0 where
  count sum avg min max : AggFn

-- What the folds call of `f64`: the conversion of an integer, and its operations.
pub record FloatLib (F : Type 0) : Type 0 where
  pub of_int : ℤ → F
  pub add : F → F → F
  pub mul : F → F → F
  pub div : F → F → F

pub data AggSum (F : Type 0) : Type 0 where
  int_sum : ℤ → AggSum F
  float_sum : F → AggSum F

abbrev pub bool_int : Bool → ℤ
bool_int b = if b then pos 1 else pos 0

module _ {F : Type 0} (floats : FloatLib F) where
  abbrev pub value_f64 : Value F → F
  value_f64 (int i) = floats.of_int i
  value_f64 (float f) = f
  value_f64 (bool b) = floats.of_int (bool_int b)
  value_f64 _ = floats.of_int (pos 0)

  unfoldable pub sum_add : AggSum F → Value F → ℤ → AggSum F
  sum_add (AggSum.float_sum acc) v w =
      AggSum.float_sum (floats.add acc (floats.mul (value_f64 v) (floats.of_int w)))
  sum_add (AggSum.int_sum acc) (int i) w = AggSum.int_sum (wrap_i128 (acc +ℤ wrap_i128 (i *ℤ w)))
  sum_add (AggSum.int_sum acc) (bool b) w =
      AggSum.int_sum (wrap_i128 (acc +ℤ wrap_i128 (bool_int b *ℤ w)))
  sum_add (AggSum.int_sum acc) v w =
      AggSum.float_sum (floats.add (floats.of_int acc) (floats.mul (value_f64 v) (floats.of_int w)))

  abbrev pub sum_f64 : AggSum F → F
  sum_f64 (AggSum.int_sum v) = floats.of_int v
  sum_f64 (AggSum.float_sum f) = f

abbrev pub sum_json : {J F : Type 0} → JsonLib J F → AggSum F → J
sum_json lib (AggSum.int_sum v) =
    if leb (unsigned_abs v) json_exact_int_max then lib.of_int v else lib.of_text (int_text v)
sum_json lib (AggSum.float_sum f) = lib.of_float f

-- The four terms that `AggSeed` and `AggShape` have in common.
pub record AggTerms (F : Type 0) : Type 0 where
  pub count : ℤ
  pub nn_count : ℤ
  pub sum : AggSum F
  pub multiset : Map (Value F) ℤ

abbrev pub default : {F : Type 0} → AggTerms F
default = record { count = pos 0; nn_count = pos 0; sum = AggSum.int_sum (pos 0); multiset = [] }

pub record AggShape (F : Type 0) : Type 0 where
  pub pred : CompiledPredicate F
  pub func : AggFn
  pub col : Option ℕ
  pub terms : AggTerms F

abbrev pub keeps_values : AggFn → Bool
keeps_values AggFn.min = true
keeps_values AggFn.max = true
keeps_values _ = false

abbrev pub with_count : {F : Type 0} → ℤ → AggTerms F → AggTerms F
with_count n t = record { count = n; nn_count = t.nn_count; sum = t.sum; multiset = t.multiset }

module _ {F : Type 0} ⦃o : Ord F⦄ where
  -- `*e += w`, and an entry that is not positive is removed.
  unfoldable pub count_value : Value F → ℤ → Map (Value F) ℤ → Map (Value F) ℤ
  count_value v w m =
      let e = wrap_i64 (or_zero (lookup v m) +ℤ w) in
      if is_positive e then insert v e m else remove v m

  abbrev pub fold_present : FloatLib F → AggFn → Value F → ℤ → AggTerms F → AggTerms F
  fold_present floats func v w t = record {
    count = t.count;
    nn_count = wrap_i64 (t.nn_count +ℤ w);
    sum = sum_add floats t.sum v w;
    multiset = if keeps_values func then count_value v w t.multiset else t.multiset;
  }

  -- NULL is left out.
  abbrev pub fold_value : FloatLib F → AggFn → Value F → ℤ → AggTerms F → AggTerms F
  fold_value floats func v w t = if is_null v then t else fold_present floats func v w t

  abbrev pub fold_agg_row : FloatLib F → AggFn → Option ℕ → Row F → ℤ → AggTerms F → AggTerms F
  fold_agg_row floats func none row w t = with_count (wrap_i64 (t.count +ℤ w)) t
  fold_agg_row floats func (some ci) row w t =
      fold_value floats func (cell_at row ci) w (with_count (wrap_i64 (t.count +ℤ w)) t)

  -- The backfill: each row weighs one.
  unfoldable pub fold_rows :
      Fault
      → FloatLib F
      → CompiledPredicate F
      → AggFn
      → Option ℕ
      → List (Row F)
      → AggTerms F
      → AggTerms F
  fold_rows f floats pred func col [] t = t
  fold_rows f floats pred func col (row ∷ rows) t =
      fold_rows f floats pred func col rows
        (if matches f pred row then fold_agg_row floats func col row (pos 1) t else t)

  abbrev pub apply_row :
      Fault → FloatLib F → AggShape F → Row F → ℤ → Bool × AggTerms F → Bool × AggTerms F
  apply_row f floats shape row w (touched, t) =
      if matches f shape.pred row
      then (true, fold_agg_row floats shape.func shape.col row w t)
      else (touched, t)

  unfoldable pub apply_rows :
      Fault → FloatLib F → AggShape F → Delta F → Bool × AggTerms F → Bool × AggTerms F
  apply_rows f floats shape [] r = r
  apply_rows f floats shape ((row, w) ∷ delta) r =
      apply_rows f floats shape delta (apply_row f floats shape row w r)

  unfoldable pub apply : Fault → FloatLib F → AggShape F → Delta F → Bool × AggShape F
  unfolding apply_rows
  apply f floats shape delta =
      let r = apply_rows f floats shape delta (false, shape.terms) in
      (r.0, record { pred = shape.pred; func = shape.func; col = shape.col; terms = r.1 })

  -- The first key, in the order given.
  abbrev pub first_by : (Value F → Value F → Bool) → Value F → Option (Value F) → Value F
  first_by before v none = v
  first_by before v (some u) = if before v u then v else u

  unfoldable pub first_key : (Value F → Value F → Bool) → Map (Value F) ℤ → Option (Value F)
  first_key before [] = none
  first_key before ((v, w) ∷ m) = some (first_by before v (first_key before m))

  abbrev pub below : Value F → Value F → Bool
  below v u = is_le (value_cmp v u)

  abbrev pub above : Value F → Value F → Bool
  above v u = is_ge (value_cmp v u)

  abbrev pub json_or_null : {J : Type 0} → JsonLib J F → Option (Value F) → J
  json_or_null lib none = lib.of_null
  json_or_null lib (some v) = to_json lib v

  abbrev pub value_of : {J : Type 0} → JsonLib J F → FloatLib F → AggFn → Option ℕ → AggTerms F → J
  value_of lib floats AggFn.count none t = lib.of_int t.count
  value_of lib floats AggFn.count (some ci) t = lib.of_int t.nn_count
  value_of lib floats AggFn.sum col t =
      if is_positive t.nn_count then sum_json lib t.sum else lib.of_null
  value_of lib floats AggFn.avg col t =
      if is_positive t.nn_count
      then lib.of_float (floats.div (sum_f64 floats t.sum) (floats.of_int t.nn_count))
      else lib.of_null
  value_of lib floats AggFn.min col t = json_or_null lib (first_key below t.multiset)
  value_of lib floats AggFn.max col t = json_or_null lib (first_key above t.multiset)

  unfoldable pub value : {J : Type 0} → JsonLib J F → FloatLib F → AggShape F → J
  value lib floats shape = value_of lib floats shape.func shape.col shape.terms

  -- The envelope with the current value.
  abbrev pub envelope :
      {J : Type 0}
      → JsonLib J F
      → ObjectLib J
      → FloatLib F
      → AggShape F
      → TableSchema
      → Option Text
      → Option Text
      → Envelope J
  envelope lib objects floats shape ts txid lsn =
      agg_envelope lib objects ts.table (value lib floats shape) shape.terms.count txid lsn
