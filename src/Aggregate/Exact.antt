-- ===== src/Aggregate/Exact.antt =====
-- What apps/engine/src/engine/executors.rs, `AggShape`, answers, against the weights of the rows that
-- match.
use electric_circuits.Prelude.{
  subst, ℕ, ◌+◌, ◌<◌, ◌^◌, ◌≡◌, refl, ◌∙◌, sym, ap, inl, inr, ◌⊎◌, Bool, true, false, Option, none,
  some, List, arith, Ord, lookup, if◌then◌else◌, Bool-cases, some_none,
}
use electric_circuits.Value.{ℤ, pos, Value, value_ord}
use electric_circuits.Value.Encoding.{JsonLib, to_json}
use electric_circuits.Value.Arith.{zero_+ℤ, is_positive}
use electric_circuits.Value.Order.{Transitive}
use electric_circuits.Predicate.Ast.{Fault, CompiledPredicate}
use electric_circuits.Output.Codec.{Delta}
use electric_circuits.Output.Standalone.{eval_standalone}
use electric_circuits.Aggregate.Fold.{
  FloatLib, AggFn, int_sum, AggTerms, AggShape, default, keeps_values, apply, value, value_of,
  sum_json, json_or_null, first_key, below, above,
}
use electric_circuits.Aggregate.Weights.{total, mass, non_null, net, fold_all, apply_rows-matched}
use electric_circuits.Aggregate.Counts.{fold_all-count, fold_all-nn_count}
use electric_circuits.Aggregate.Sum.{sum_of, sum_mass, ExactColumn, fold_all-sum}
use electric_circuits.Aggregate.Extremes.{entry, Solvent, fold_all-entries}
use electric_circuits.Aggregate.FirstKey.{
  IsOrder, below-IsOrder, above-IsOrder, First, first_key-First,
}

from_zero : {n m : ℕ} → n < m → 0 + n < m
from_zero h = omega arith

entry_positive : (z w : ℤ) → entry z ≡ some w → is_positive z ≡ true
entry_positive z w e = elim (Bool-cases (is_positive z)) [
  | inl p ↦ p
  | inr p ↦ absurd (some_none (sym e ∙ ap (λ b. if b then some z else none) p))
]

entry_none : (z : ℤ) → entry z ≡ none → is_positive z ≡ false
entry_none z e = elim (Bool-cases (is_positive z)) [
  | inl p ↦ absurd (some_none (ap (λ b. if b then some z else none) (sym p) ∙ e))
  | inr p ↦ p
]

positive_entry : (z : ℤ) → is_positive z ≡ true → entry z ≡ some z
positive_entry z p = ap (λ b. if b then some z else none) p

-- The order in which an extreme is the first.
abbrev pub extreme : {F : Type 0} ⦃o : Ord F⦄ → AggFn → Value F → Value F → Bool
extreme AggFn.max = above
extreme _ = below

module _ {J F : Type 0} ⦃o : Ord F⦄ (f : Fault) (lib : JsonLib J F) (floats : FloatLib F)
    (pred : CompiledPredicate F) where
  abbrev pub fresh : AggFn → Option ℕ → AggShape F
  fresh func col = record { pred = pred; func = func; col = col; terms = default }

  apply-terms :
      (func : AggFn) (col : Option ℕ) (delta : Delta F)
      → (apply f floats (fresh func col) delta).1.terms
        ≡ fold_all floats func col (eval_standalone f pred delta) default
  unfolding apply
  apply-terms func col delta = apply_rows-matched f floats (fresh func col) delta (false, default)

  value-terms :
      (func : AggFn) (col : Option ℕ) (delta : Delta F)
      → value lib floats (apply f floats (fresh func col) delta).1
        ≡ value_of lib floats func col
            (fold_all floats func col (eval_standalone f pred delta) default)
  unfolding apply value
  value-terms func col delta =
      ap (value_of lib floats func col)
        (apply_rows-matched f floats (fresh func col) delta (false, default))

  abbrev pub matched : Delta F → Delta F
  matched delta = eval_standalone f pred delta

  -- Where the changes that match weigh less than 2^63 in all: COUNT answers their total weight, and
  -- COUNT of a column the weight of those that have a cell other than NULL there.
  pub count-total :
      (c : ℕ) (delta : Delta F)
      → mass (matched delta) < 2 ^ 63
      → (value lib floats (apply f floats (fresh AggFn.count none) delta).1
          ≡ lib.of_int (total (matched delta)))
        × (value lib floats (apply f floats (fresh AggFn.count (some c)) delta).1
            ≡ lib.of_int (total (non_null c (matched delta))))
  count-total c delta few = (
    value-terms AggFn.count none delta
        ∙ ap lib.of_int (
            fold_all-count floats AggFn.count none (matched delta) default (from_zero few)
            ∙ zero_+ℤ (total (matched delta))),
    value-terms AggFn.count (some c) delta
        ∙ ap lib.of_int (
            fold_all-nn_count floats AggFn.count c (matched delta) default (from_zero few)
            ∙ zero_+ℤ (total (non_null c (matched delta)))),
  )

  -- Where the changes that match weigh less than 2^63 in all and have integers, Booleans or NULL in
  -- the column, and what their cells contribute is less than 2^127 in all: SUM answers the exact sum
  -- of the cells times their weights, as a number up to 2^53 - 1 and as a text beyond, or NULL where
  -- the cells other than NULL have no positive total weight.
  pub sum-exact :
      (c : ℕ) (delta : Delta F)
      → mass (matched delta) < 2 ^ 63
      → sum_mass c (matched delta) < 2 ^ 127
      → ExactColumn c (matched delta)
      → value lib floats (apply f floats (fresh AggFn.sum (some c)) delta).1 ≡ (
          if is_positive (total (non_null c (matched delta)))
          then sum_json lib (int_sum (sum_of c (matched delta)))
          else lib.of_null)
  sum-exact c delta few small exact =
      let t = fold_all floats AggFn.sum (some c) (matched delta) default in
      value-terms AggFn.sum (some c) delta
      ∙ ap (λ n. if is_positive n then sum_json lib t.sum else lib.of_null)
          (fold_all-nn_count floats AggFn.sum c (matched delta) default (from_zero few)
            ∙ zero_+ℤ (total (non_null c (matched delta))))
      ∙ ap
          (λ s.
            if is_positive (total (non_null c (matched delta)))
            then sum_json lib s
            else lib.of_null)
          (fold_all-sum floats AggFn.sum c (matched delta) default (pos 0) refl exact
              (from_zero small)
            ∙ ap int_sum (zero_+ℤ (sum_of c (matched delta))))

  abbrev pub IsAnswer : AggFn → ℕ → Delta F → J → Type 0
  IsAnswer func c rows answer =
      ((answer ≡ lib.of_null) × ((u : Value F) → is_positive (net c u rows) ≡ false))
      ⊎ ((v : Value F) × (answer ≡ to_json lib v)
          × (is_positive (net c v rows) ≡ true)
          × ((u : Value F) → is_positive (net c u rows) ≡ true → extreme func v u ≡ true))

  First-IsAnswer :
      (func : AggFn) (c : ℕ) (rows : Delta F) (first : Option (Value F)) (m : List (Value F × ℤ))
      → IsOrder (extreme {F = F} func)
      → ((u : Value F) → lookup u m ≡ entry (net c u rows))
      → First (extreme func) m first
      → IsAnswer func c rows (json_or_null lib first)
  First-IsAnswer func c rows none m order entries h =
      inl (refl, λ u. entry_none (net c u rows) (sym (entries u) ∙ h u))
  First-IsAnswer func c rows (some v) m order entries ((w, at), least) = inr (
    v,
    refl,
    entry_positive (net c v rows) w (sym (entries v) ∙ at),
    λ u p. least u (net c u rows) (entries u ∙ positive_entry (net c u rows) p),
  )

  extreme-IsOrder : (func : AggFn) → Transitive F → IsOrder (extreme {F = F} func)
  extreme-IsOrder AggFn.max t = above-IsOrder t
  extreme-IsOrder AggFn.count t = below-IsOrder t
  extreme-IsOrder AggFn.sum t = below-IsOrder t
  extreme-IsOrder AggFn.avg t = below-IsOrder t
  extreme-IsOrder AggFn.min t = below-IsOrder t

  value_of-extreme :
      (func : AggFn) (c : ℕ) (t : AggTerms F)
      → keeps_values func ≡ true
      → value_of lib floats func (some c) t ≡ json_or_null lib (first_key (extreme func) t.multiset)
  value_of-extreme AggFn.min c t kept = refl
  value_of-extreme AggFn.max c t kept = refl
  value_of-extreme AggFn.count c t kept = cc
  value_of-extreme AggFn.sum c t kept = cc
  value_of-extreme AggFn.avg c t kept = cc

  -- Where the floats are totally ordered, the changes that match and have a cell other than NULL in
  -- the column weigh less than 2^63 in all, and no value's weight falls below zero as they are applied:
  -- MIN and MAX answer the least and the greatest value whose net weight is positive, or NULL where
  -- there is none.
  pub extreme-exact :
      (func : AggFn) (c : ℕ) (delta : Delta F)
      → Transitive F
      → keeps_values func ≡ true
      → mass (non_null c (matched delta)) < 2 ^ 63
      → Solvent c (λ u. pos 0) (non_null c (matched delta))
      → IsAnswer func c
          (matched delta)
          (value lib floats (apply f floats (fresh func (some c)) delta).1)
  extreme-exact func c delta t kept few solvent =
      let folded = fold_all floats func (some c) (matched delta) default in
      subst (IsAnswer func c (matched delta))
        (sym (value-terms func (some c) delta ∙ value_of-extreme func c folded kept))
        (First-IsAnswer func c (matched delta) (first_key (extreme func) folded.multiset)
          folded.multiset (extreme-IsOrder func t)
          (fold_all-entries floats func c (matched delta) default kept refl few solvent)
          (first_key-First (extreme func) (extreme-IsOrder func t) folded.multiset))
