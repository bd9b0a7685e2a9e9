-- ===== src/Prelude/Lists.antt =====
-- Lists measured and indexed by native numbers, and predicates over their elements.
use Prim.Native.Nat.{ℕ, zero, suc, ◌+◌}
use mathlib.Core.Path.{◌≡◌, refl, ap, sym}
use mathlib.Core.Logic.{◌⊎◌, inl, inr}
use native.Mathlib.Nat.{zero-add, suc-add}
use mathlib.Core.Bool.{Bool, true, false}
use mathlib.Core.List.{List, [], ◌∷◌, ◌++◌, Memᴰ}
use mathlib.Core.Option.{Option, none, some}
use native.Mathlib.Omega.{arith}
use electric_circuits.Prelude.Tests.{if◌then◌else◌, Bool-cases, some_none}

module _ {ℓ} {A : Type ℓ} where
  abbrev pub length : List A → ℕ
  length [] = 0
  length (x ∷ xs) = suc (length xs)

  abbrev pub get_elem? : List A → ℕ → Option A
  get_elem? [] i = none
  get_elem? (x ∷ xs) zero = some x
  get_elem? (x ∷ xs) (suc i) = get_elem? xs i

  pub length-append : (xs ys : List A) → length (xs ++ ys) ≡ length xs + length ys
  length-append [] ys = omega arith
  length-append (x ∷ xs) ys = omega (arith, length-append xs ys)

  -- `Iterator::filter`, by a Boolean test.
  abbrev pub filter : (A → Bool) → List A → List A
  filter p [] = []
  filter p (x ∷ xs) = let rest = filter p xs in if p x then x ∷ rest else rest

  abbrev pub any : (A → Bool) → List A → Bool
  any p [] = false
  any p (x ∷ xs) = if p x then true else any p xs

abbrev pub All {ℓ κ} : {A : Type ℓ} → (A → Type κ) → List A → Type κ
All P [] = Unit
All P (x ∷ xs) = P x × All P xs

module _ {ℓ κ} {A : Type ℓ} (P : A → Type κ) where
  pub All-mem : {a : A} (xs : List A) → All P xs → Memᴰ a xs → P a
  All-mem [] h m = elim m [ ]
  All-mem (x ∷ xs) h (Memᴰ.head e) = rw e h.0
  All-mem (x ∷ xs) h (Memᴰ.tail m) = All-mem xs h.1 m

  pub All-append : (xs ys : List A) → All P xs → All P ys → All P (xs ++ ys)
  All-append [] ys hx hy = hy
  All-append (x ∷ xs) ys hx hy = (hx.0, All-append xs ys hx.1 hy)

module _ {ℓ κ μ} {A : Type ℓ} (P : A → Type κ) (Q : A → Type μ) where
  pub All-imp : (xs : List A) → ((a : A) → P a → Q a) → All P xs → All Q xs
  All-imp [] f h = tt
  All-imp (x ∷ xs) f h = (f x h.0, All-imp xs f h.1)

  pub All-both : (xs : List A) → All P xs → All Q xs → All (λ a. P a × Q a) xs
  All-both [] h k = tt
  All-both (x ∷ xs) h k = ((h.0, k.0), All-both xs h.1 k.1)

module _ {ℓ} {A : Type ℓ} where
  abbrev pub drop : ℕ → List A → List A
  drop zero xs = xs
  drop (suc n) [] = []
  drop (suc n) (x ∷ xs) = drop n xs

  -- What a read at a position says of the rest of the list.
  pub get_elem?-drop :
      (xs : List A) (i : ℕ)
      → ((get_elem? xs i ≡ none) × (drop i xs ≡ []))
        ⊎ ((x : A) × (get_elem? xs i ≡ some x) × (drop i xs ≡ x ∷ drop (suc i) xs))
  get_elem?-drop [] zero = inl (refl, refl)
  get_elem?-drop [] (suc i) = inl (refl, refl)
  get_elem?-drop (x ∷ xs) zero = inr (x, refl, refl)
  get_elem?-drop (x ∷ xs) (suc i) = get_elem?-drop xs i

regroup : (a i k : ℕ) → i + a + k ≡ a + (i + k)
regroup a i k = omega arith

pub drop-nil {ℓ} : {A : Type ℓ} (n : ℕ) → drop {A = A} n [] ≡ []
drop-nil zero = refl
drop-nil (suc n) = refl

module _ {ℓ} {A : Type ℓ} where
  pub drop-drop : (i j : ℕ) (xs : List A) → drop i (drop j xs) ≡ drop (j + i) xs
  drop-drop i zero xs = rw zero-add
  drop-drop i (suc j) [] = rw (drop-nil i, suc-add)
  drop-drop i (suc j) (x ∷ xs) = rw suc-add (drop-drop i j xs)

  pub drop-append : (vs xs : List A) (k : ℕ) → drop (length vs + k) (vs ++ xs) ≡ drop k xs
  drop-append [] xs k = rw zero-add
  drop-append (v ∷ vs) xs k = rw suc-add (drop-append vs xs k)

  pub drop-past-append :
      (vs xs : List A) (i k : ℕ) → drop k (drop (length vs) (drop i (vs ++ xs))) ≡ drop (i + k) xs
  drop-past-append vs xs i k =
      rw (drop-drop (length vs) i (vs ++ xs), drop-drop k (i + length vs) (vs ++ xs))
        (rw (regroup (length vs) i k) (drop-append vs xs (i + k)))

pub append_assoc {ℓ} : {A : Type ℓ} (xs ys zs : List A) → (xs ++ ys) ++ zs ≡ xs ++ (ys ++ zs)
append_assoc [] ys zs = refl
append_assoc (x ∷ xs) ys zs = ap (x ∷◌) (append_assoc xs ys zs)

pub append_nil {ℓ} : {A : Type ℓ} (xs : List A) → xs ++ [] ≡ xs
append_nil [] = refl
append_nil (x ∷ xs) = ap (x ∷◌) (append_nil xs)

module _ {ℓ} {A : Type ℓ} where
  Memᴰ-All : (ys xs : List A) → ((a : A) → Memᴰ a xs → Memᴰ a ys) → All (λ a. Memᴰ a ys) xs
  Memᴰ-All ys [] f = tt
  Memᴰ-All ys (x ∷ xs) f = (f x (Memᴰ.head refl), Memᴰ-All ys xs (λ a m. f a (Memᴰ.tail m)))

  -- Each element of a list is one of it.
  pub All-Memᴰ : (xs : List A) → All (λ a. Memᴰ a xs) xs
  All-Memᴰ xs = Memᴰ-All xs xs (λ a m. m)

module _ {ℓ κ} {A : Type ℓ} (P : A → Type κ) (p : A → Bool) where
  pub All-filter : (xs : List A) → All P xs → All P (filter p xs)
  All-filter [] h = tt
  All-filter (x ∷ xs) h = elim (Bool-cases (p x)) [
    | inl e ↦ rw e (h.0, All-filter xs h.1)
    | inr e ↦ rw e (All-filter xs h.1)
  ]

module _ {ℓ} {A : Type ℓ} (p : A → Bool) where
  pub All-filter_test : (xs : List A) → All (λ a. p a ≡ true) (filter p xs)
  All-filter_test [] = tt
  All-filter_test (x ∷ xs) = elim (Bool-cases (p x)) [
    | inl e ↦ rw e (e, All-filter_test xs)
    | inr e ↦ rw e (All-filter_test xs)
  ]

module _ {ℓ} {A : Type ℓ} where
  pub get_elem?-keeps :
      (xs : List A) (y x : A) (i : ℕ)
      → get_elem? xs i ≡ some x
      → get_elem? (xs ++ y ∷ []) i ≡ some x
  get_elem?-keeps [] y x i h = absurd (some_none (sym h))
  get_elem?-keeps (z ∷ xs) y x zero h = h
  get_elem?-keeps (z ∷ xs) y x (suc i) h = get_elem?-keeps xs y x i h

  pub get_elem?-end : (xs : List A) (y : A) → get_elem? (xs ++ y ∷ []) (length xs) ≡ some y
  get_elem?-end [] y = refl
  get_elem?-end (x ∷ xs) y = get_elem?-end xs y
