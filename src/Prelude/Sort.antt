-- ===== src/Prelude/Sort.antt =====
-- Sorting by insertion, which stands for the sorts of the standard library.
use mathlib.Core.Path.{◌≡◌}
use mathlib.Core.Logic.{◌⊎◌, inl, inr}
use mathlib.Core.Bool.{Bool, true, false}
use mathlib.Core.List.{List, [], ◌∷◌, Memᴰ}
use native.Mathlib.Omega.{arith}
use electric_circuits.Prelude.Tests.{Bool-cases, Ord, is_le, if◌then◌else◌}

pub of_either {ℓ} :
    {A : Type ℓ} (test : Bool) (b : A) (xs ys : List A)
    → Memᴰ b (if test then xs else ys)
    → Memᴰ b xs ⊎ Memᴰ b ys
of_either true b xs ys m = inl m
of_either false b xs ys m = inr m

pub in_either {ℓ} :
    {A : Type ℓ} (test : Bool) (b : A) (xs ys : List A)
    → Memᴰ b xs
    → Memᴰ b ys
    → Memᴰ b (if test then xs else ys)
in_either true b xs ys m n = m
in_either false b xs ys m n = n

module _ {ℓ} {A : Type ℓ} ⦃o : Ord A⦄ where
  unfoldable pub insert_in : A → List A → List A
  insert_in a [] = a ∷ []
  insert_in a (x ∷ xs) =
      let rest = insert_in a xs in if is_le (o.cmp a x) then a ∷ x ∷ xs else x ∷ rest

  unfoldable pub sort : List A → List A
  unfolding insert_in
  sort [] = []
  sort (x ∷ xs) = insert_in x (sort xs)

  of_insert_in : (a b : A) (xs : List A) → Memᴰ b (insert_in a xs) → (b ≡ a) ⊎ Memᴰ b xs
  unfolding insert_in
  of_insert_in a b [] (Memᴰ.head e) = inl e
  of_insert_in a b [] (Memᴰ.tail m) = inr m
  of_insert_in a b (x ∷ xs) m =
      elim (of_either (is_le (o.cmp a x)) b (a ∷ x ∷ xs) (x ∷ insert_in a xs) m) [
        | inl (Memᴰ.head e) ↦ inl e
        | inl (Memᴰ.tail t) ↦ inr t
        | inr (Memᴰ.head e) ↦ inr (Memᴰ.head e)
        | inr (Memᴰ.tail t) ↦ (elim (of_insert_in a b xs t) [
          | inl e ↦ inl e
          | inr u ↦ inr (Memᴰ.tail u)
        ])
      ]

  to_insert_in : (a b : A) (xs : List A) → (b ≡ a) ⊎ Memᴰ b xs → Memᴰ b (insert_in a xs)
  unfolding insert_in
  to_insert_in a b [] (inl e) = Memᴰ.head e
  to_insert_in a b [] (inr m) = Memᴰ.tail m
  to_insert_in a b (x ∷ xs) (inl e) =
      in_either (is_le (o.cmp a x)) b (a ∷ x ∷ xs) (x ∷ insert_in a xs) (Memᴰ.head e)
        (Memᴰ.tail (to_insert_in a b xs (inl e)))
  to_insert_in a b (x ∷ xs) (inr (Memᴰ.head e)) =
      in_either (is_le (o.cmp a x)) b (a ∷ x ∷ xs) (x ∷ insert_in a xs) (Memᴰ.tail (Memᴰ.head e))
        (Memᴰ.head e)
  to_insert_in a b (x ∷ xs) (inr (Memᴰ.tail t)) =
      in_either (is_le (o.cmp a x)) b (a ∷ x ∷ xs) (x ∷ insert_in a xs) (Memᴰ.tail (Memᴰ.tail t))
        (Memᴰ.tail (to_insert_in a b xs (inr t)))

  pub Memᴰ-of_sort : (b : A) (xs : List A) → Memᴰ b (sort xs) → Memᴰ b xs
  unfolding sort
  Memᴰ-of_sort b [] m = m
  Memᴰ-of_sort b (x ∷ xs) m = elim (of_insert_in x b (sort xs) m) [
    | inl e ↦ Memᴰ.head e
    | inr t ↦ Memᴰ.tail (Memᴰ-of_sort b xs t)
  ]

  pub Memᴰ-sort : (b : A) (xs : List A) → Memᴰ b xs → Memᴰ b (sort xs)
  unfolding sort
  Memᴰ-sort b (x ∷ xs) (Memᴰ.head e) = to_insert_in x b (sort xs) (inl e)
  Memᴰ-sort b (x ∷ xs) (Memᴰ.tail m) = to_insert_in x b (sort xs) (inr (Memᴰ-sort b xs m))
  Memᴰ-sort b [] m = elim m [ ]

  -- Each element is at most the next.
  abbrev pub Climbs : A → List A → Type 0
  Climbs x [] = Unit
  Climbs x (y ∷ ys) = (is_le (o.cmp x y) ≡ true) × Climbs y ys

  abbrev pub Sorted : List A → Type 0
  Sorted [] = Unit
  Sorted (x ∷ xs) = Climbs x xs

  not_above : (a x : A) → is_le (o.cmp a x) ≡ false → is_le (o.cmp x a) ≡ true
  not_above a x h = grind (arith, o.cmp_reverse a x)

  Climbs-insert_in :
      (d a : A) (xs : List A) → is_le (o.cmp d a) ≡ true → Climbs d xs → Climbs d (insert_in a xs)
  unfolding insert_in
  Climbs-insert_in d a [] h c = (h, tt)
  Climbs-insert_in d a (x ∷ xs) h (dx, c) = elim (Bool-cases (is_le (o.cmp a x))) [
    | inl e ↦ rw e (h, (e, c))
    | inr n ↦ rw n (dx, Climbs-insert_in x a xs (not_above a x n) c)
  ]

  Sorted-insert_in : (a : A) (xs : List A) → Sorted xs → Sorted (insert_in a xs)
  unfolding insert_in
  Sorted-insert_in a [] c = tt
  Sorted-insert_in a (x ∷ xs) c = elim (Bool-cases (is_le (o.cmp a x))) [
    | inl e ↦ rw e (e, c)
    | inr n ↦ rw n (Climbs-insert_in x a xs (not_above a x n) c)
  ]

  pub sort-Sorted : (xs : List A) → Sorted (sort xs)
  unfolding sort
  sort-Sorted [] = tt
  sort-Sorted (x ∷ xs) = Sorted-insert_in x (sort xs) (sort-Sorted xs)
