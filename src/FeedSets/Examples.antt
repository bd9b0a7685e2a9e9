-- ===== src/FeedSets/Examples.antt =====
-- A feed over bitmaps that are lists of ids. Three candidates: a new member, a member that leaves,
-- and a row that was never delivered.
use electric_circuits.Prelude.{
  keep_or, ℕ, ◌≡◌, refl, sym, Bool, true, false, Option, some, List, [], ◌∷◌, arith, ◌==◌, nat_ord,
  list_ord, lookup, insert, member, add, delete, some_inj, length, ◌+◌, ◌<◌, remove,
}
use electric_circuits.Value.{ℤ, pos, negsuc, int_ord, Text, Value, int}
use electric_circuits.PkDict.Intern.{new, mint, get_or_insert}
use electric_circuits.PkDict.Inverse.{Inverse, new-Inverse, get_or_insert-Minted}
use electric_circuits.FeedSets.FeedSet.{FeedSet, insert_pk, remove_pk}
use electric_circuits.FeedSets.Emission.{Registry, decide, evaluate, events}
use electric_circuits.FeedSets.Synced.{in_feed}
use electric_circuits.FeedSets.Latest.{
  latest_rows_by_pk, last_positive, first_row, latest_rows_by_pk-latest,
}
use electric_circuits.FeedSets.Replay.{View, replay, mentions, OncePerKey, evaluate-in_step}
use electric_circuits.FeedSets.Flips.{
  FlipDir, fold_refcount_flips, count_of, held, live, replay_flips, Alternate,
  fold_refcount_flips-held,
}
use electric_circuits.Value.Arith.{wrap_i64, ◌+ℤ◌}
use electric_circuits.Value.Sample.{Float, float_ord}
use electric_circuits.FeedSets.Sample.{ids, ids-Laws}

abbrev one_feed : FeedSet (List ℕ)
one_feed = (pos 9, 0 ∷ []) ∷ []

-- A row is its key.
abbrev key : Text → Option Text
key row = some row

abbrev ann : Text
ann = b'a' ∷ []

abbrev bob : Text
bob = b'b' ∷ []

abbrev cal : Text
cal = b'c' ∷ []

abbrev matches : Text → Bool
matches row = row == ann

abbrev candidates : List (Text × Bool)
candidates = (ann, true) ∷ (bob, true) ∷ (cal, false) ∷ []

-- `bob` has been delivered.
abbrev registry : Registry (List ℕ)
registry = record { dict = (get_or_insert bob new).1; feeds = one_feed }

abbrev view : View
view q = in_feed ids key matches (pos 9) registry q

new_room : length new.reverse < 4294967296
unfolding new
new_room = omega arith

room : length registry.dict.reverse + length candidates < 4294967296
unfolding new mint get_or_insert lookup insert
room = omega arith

tables : Inverse registry.dict
tables = (get_or_insert-Minted bob new new_room new-Inverse).0

once : OncePerKey key candidates
unfolding mentions
once =
    (λ pk e. rw (sym (some_inj e)) refl, (λ pk e. rw (sym (some_inj e)) refl, (λ pk e. refl, tt)))

staged :
    ((evaluate ids key matches (pos 9) candidates registry).members ≡ ann ∷ [])
    × ((evaluate ids key matches (pos 9) candidates registry).deletes ≡ bob ∷ [])
unfolding evaluate decide insert_pk remove_pk new mint get_or_insert lookup insert member delete add
staged = (refl, refl)

evaluate-in_step_example :
    ((q : Text)
      → replay key (events (evaluate ids key matches (pos 9) candidates registry)) view q
        ≡ in_feed ids key matches
            (pos 9)
            (evaluate ids key matches (pos 9) candidates registry).registry
            q)
    × ((q : Text)
        → member q (evaluate ids key matches (pos 9) candidates registry).deletes ≡ true
        → view q ≡ true)
evaluate-in_step_example =
    evaluate-in_step key ids ids-Laws matches (pos 9) candidates registry view tables room once
      (λ q. refl)

-- An update of `ann` from the row 1 to the row 2, and a deletion of `bob`.
abbrev delta : List ((Text × ℕ) × ℤ)
delta = ((ann, 1), negsuc 0) ∷ ((ann, 2), pos 1) ∷ ((bob, 3), negsuc 0) ∷ []

abbrev row_key : Text × ℕ → Text
row_key row = row.0

latest_rows_by_pk-latest_example :
    lookup bob (latest_rows_by_pk row_key delta [])
    ≡ keep_or (last_positive row_key bob delta) (first_row row_key bob delta)
latest_rows_by_pk-latest_example = latest_rows_by_pk-latest row_key delta bob

-- The value 7 arrives twice and leaves, then 8 arrives and 7 leaves.
abbrev contributions : List (Value Float × ℤ)
contributions =
    (int (pos 7), pos 1)
    ∷ (int (pos 7), pos 1)
    ∷ (int (pos 7), negsuc 0)
    ∷ (int (pos 8), pos 1)
    ∷ (int (pos 7), negsuc 0)
    ∷ []

flips_of_run :
    (fold_refcount_flips [] contributions).1
    ≡ record { value = int (pos 7); dir = FlipDir.enter }
      ∷ record { value = int (pos 8); dir = FlipDir.enter }
      ∷ record { value = int (pos 7); dir = FlipDir.leave }
      ∷ []
unfolding fold_refcount_flips lookup insert remove wrap_i64 ◌+ℤ◌
flips_of_run = refl

fold_refcount_flips-held_example :
    ((q : Value Float)
      → count_of q (fold_refcount_flips [] contributions).0 ≡ held q contributions (count_of q []))
    × (replay_flips (fold_refcount_flips [] contributions).1 (live [])
        ≡ live (fold_refcount_flips [] contributions).0)
    × Alternate (fold_refcount_flips [] contributions).1 (live [])
fold_refcount_flips-held_example = fold_refcount_flips-held [] contributions
