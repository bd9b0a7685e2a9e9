-- ===== src/Prelude/Sets.antt =====
-- `HashSet` as a list without repetition, and what follows a prefix of a list.
use mathlib.Core.Path.{◌≡◌}
use mathlib.Core.Bool.{Bool, true, false}
use mathlib.Core.Option.{Option, none, some}
use mathlib.Core.List.{List, [], ◌∷◌, ◌++◌}
use native.Mathlib.Omega.{arith}
use electric_circuits.Prelude.Tests.{Ord, ◌==◌, ==_iff, if◌then◌else◌}

module _ {ℓ} {A : Type ℓ} ⦃o : Ord A⦄ where
  -- What follows a prefix.
  unfoldable pub strip_prefix : List A → List A → Option (List A)
  strip_prefix [] text = some text
  strip_prefix (p ∷ ps) [] = none
  strip_prefix (p ∷ ps) (c ∷ cs) = let rest = strip_prefix ps cs in if p == c then rest else none

  unfoldable pub member : A → List A → Bool
  member a [] = false
  member a (x ∷ xs) = if x == a then true else member a xs

  unfoldable pub add : A → List A → List A
  unfolding member
  add a xs = if member a xs then xs else a ∷ xs

  unfoldable pub delete : A → List A → List A
  delete a [] = []
  delete a (x ∷ xs) = let rest = delete a xs in if x == a then rest else x ∷ rest

  pub member-add :
      (a b : A) (xs : List A) → member b (add a xs) ≡ (if a == b then true else member b xs)
  unfolding add member
  member-add a b xs = ground (arith, ==_iff a b)

  pub member-delete :
      (a b : A) (xs : List A) → member b (delete a xs) ≡ (if a == b then false else member b xs)
  unfolding delete member
  member-delete a b [] = ground arith
  member-delete a b (x ∷ xs) =
      ground (arith, ==_iff a b, ==_iff x a, ==_iff x b, member-delete a b xs)

  pub add_present : (a : A) (xs : List A) → member a xs ≡ true → add a xs ≡ xs
  unfolding add
  add_present a xs h = rw h

  pub add_absent : (a : A) (xs : List A) → member a xs ≡ false → add a xs ≡ a ∷ xs
  unfolding add
  add_absent a xs h = rw h

  pub member-snoc :
      (b a : A) (xs : List A) → member b (xs ++ a ∷ []) ≡ (if a == b then true else member b xs)
  unfolding member
  member-snoc b a [] = ground arith
  member-snoc b a (x ∷ xs) = ground (arith, member-snoc b a xs)
