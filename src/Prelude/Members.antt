-- ===== src/Prelude/Members.antt =====
-- Membership in lists that are filtered and mapped.
use mathlib.Core.Path.{◌≡◌, refl, sym}
use mathlib.Core.Logic.{inl, inr}
use mathlib.Core.Bool.{Bool, true, false, not, ◌&&◌}
use mathlib.Core.List.{List, [], ◌∷◌, map, Memᴰ}
use native.Mathlib.Omega.{arith}
use electric_circuits.Prelude.Tests.{Bool-cases}
use electric_circuits.Prelude.Lists.{
  filter, All, All-mem, All-both, All-filter, All-Memᴰ, All-filter_test,
}

module _ {ℓ} {A : Type ℓ} (p : A → Bool) where
  pub Memᴰ-of_filter : (a : A) (xs : List A) → Memᴰ a (filter p xs) → Memᴰ a xs × (p a ≡ true)
  Memᴰ-of_filter a xs m =
      All-mem (λ b. Memᴰ b xs × (p b ≡ true)) (filter p xs)
        (All-both (λ b. Memᴰ b xs) (λ b. p b ≡ true) (filter p xs)
          (All-filter (λ b. Memᴰ b xs) p xs (All-Memᴰ xs)) (All-filter_test p xs))
        m

  pub Memᴰ-filter : (a : A) (xs : List A) → p a ≡ true → Memᴰ a xs → Memᴰ a (filter p xs)
  Memᴰ-filter a [] h m = m
  Memᴰ-filter a (x ∷ xs) h (Memᴰ.head e) = rw⁻¹ e (rw h (Memᴰ.head refl))
  Memᴰ-filter a (x ∷ xs) h (Memᴰ.tail m) = elim (Bool-cases (p x)) [
    | inl e ↦ rw e (Memᴰ.tail (Memᴰ-filter a xs h m))
    | inr e ↦ rw e (Memᴰ-filter a xs h m)
  ]

pub All-of {ℓ κ} :
    {A : Type ℓ} (P : A → Type κ) (xs : List A) → ((a : A) → Memᴰ a xs → P a) → All P xs
All-of P [] f = tt
All-of P (x ∷ xs) f = (f x (Memᴰ.head refl), All-of P xs (λ a m. f a (Memᴰ.tail m)))

pub Memᴰ-map {ℓ κ} :
    {A : Type ℓ} {B : Type κ} (f : A → B) (b : B) (xs : List A)
    → Memᴰ b (map f xs)
    → (a : A) × Memᴰ a xs × (f a ≡ b)
Memᴰ-map f b (x ∷ xs) (Memᴰ.head e) = (x, Memᴰ.head refl, sym e)
Memᴰ-map f b (x ∷ xs) (Memᴰ.tail m) = let (a, ma, e) = Memᴰ-map f b xs m in (a, Memᴰ.tail ma, e)
Memᴰ-map f b [] m = elim m [ ]

pub and_split : (a b : Bool) → (a && b) ≡ true → (a ≡ true) × (b ≡ true)
and_split true b h = (refl, h)
and_split false b h = absurd (ground arith)

pub not_true : (b : Bool) → not b ≡ true → b ≡ false
not_true true h = absurd (ground arith)
not_true false h = refl
