-- ===== src/Prelude/Tests.antt =====
-- Boolean tests, the conditional, case splits that keep the equation, and total orders (Rust's
-- `Ord` with its `Eq`) as instances.
use Prim.Native.Nat.{ℕ, ◌≤◌, ◌<◌, compare, Ordering}
use mathlib.Core.Path.{◌≡◌, refl, ap}
use mathlib.Core.Logic.{◌↔◌, ◌⊎◌, inl, inr}
use mathlib.Core.Bool.{Bool, true, false}
use mathlib.Core.Option.{Option, none, some}
use mathlib.Core.List.{List, [], ◌∷◌}
use native.Mathlib.Omega.{arith}

abbrev pub ltb : ℕ → ℕ → Bool
ltb a b = elim (compare a b) [ Ordering.lt ↦ true | _ ↦ false ]

abbrev pub leb : ℕ → ℕ → Bool
leb a b = elim (compare a b) [ Ordering.gt ↦ false | _ ↦ true ]

infix 1 if◌then◌else◌
abbrev pub if◌then◌else◌ {ℓ} : {A : Type ℓ} → Bool → A → A → A
if true then x else y = x
if false then x else y = y

pub ltb→lt : (a b : ℕ) → ltb a b ≡ true → a < b
ltb→lt a b h = ground arith

pub lt→ltb : (a b : ℕ) → a < b → ltb a b ≡ true
lt→ltb a b h = ground arith

pub leb→le : (a b : ℕ) → leb a b ≡ true → a ≤ b
leb→le a b h = ground arith

pub le→leb : (a b : ℕ) → a ≤ b → leb a b ≡ true
le→leb a b h = ground arith

pub ruleset tests = (arith, ltb→lt, lt→ltb, leb→le, le→leb)

pub Bool-cases : (b : Bool) → (b ≡ true) ⊎ (b ≡ false)
Bool-cases true = inl refl
Bool-cases false = inr refl

pub true_false : {b : Bool} → b ≡ true → b ≡ false → ⊥
true_false h e = cc

pub false_true : false ≡ true → ⊥
false_true h = cc

pub either_true : (a b : Bool) → (if a then true else b) ≡ true → (a ≡ true) ⊎ (b ≡ true)
either_true true b h = inl refl
either_true false b h = inr h

pub Option-cases {ℓ} : {A : Type ℓ} (o : Option A) → (o ≡ none) ⊎ ((a : A) × (o ≡ some a))
Option-cases none = inl refl
Option-cases (some a) = inr (a, refl)

pub some_inj {ℓ} : {A : Type ℓ} {a b : A} → some a ≡ some b → a ≡ b
some_inj {b = b} e = ap (λ o. elim o [ none ↦ b | some x ↦ x ]) e

pub some_none {ℓ} : {A : Type ℓ} {a : A} → some a ≡ none → ⊥
some_none e = cc

-- `?` on an option, and `and_then`.
infixl 5 ◌>>=◌
abbrev pub ◌>>=◌ {ℓ κ} : {A : Type ℓ} {B : Type κ} → Option A → (A → Option B) → Option B
none >>= f = none
some a >>= f = f a

pub bind-some {ℓ κ} :
    {A : Type ℓ} {B : Type κ} (o : Option A) (f : A → Option B) {b : B}
    → (o >>= f) ≡ some b
    → (a : A) × (o ≡ some a) × (f a ≡ some b)
bind-some none f e = cc
bind-some (some a) f e = (a, refl, e)

-- `or`, of two options.
abbrev pub keep_or {ℓ} : {A : Type ℓ} → Option A → Option A → Option A
keep_or (some a) o = some a
keep_or none o = o

pub nat_cases : (a b : ℕ) → a ≤ b → (a ≡ b) ⊎ (a < b)
nat_cases a b h = omega arith

pub nat_split : (a b : ℕ) → (a < b) ⊎ (b ≤ a)
nat_split a b = omega arith

-- `Ordering::reverse`, and the tests `is_lt`, `is_le`, `is_gt`, `is_ge`, `is_eq` of an ordering.
abbrev pub reverse_ord : Ordering → Ordering
reverse_ord Ordering.lt = Ordering.gt
reverse_ord Ordering.eq = Ordering.eq
reverse_ord Ordering.gt = Ordering.lt

abbrev pub is_lt : Ordering → Bool
is_lt o = elim o [ Ordering.lt ↦ true | _ ↦ false ]

abbrev pub is_le : Ordering → Bool
is_le o = elim o [ Ordering.gt ↦ false | _ ↦ true ]

abbrev pub is_gt : Ordering → Bool
is_gt o = elim o [ Ordering.gt ↦ true | _ ↦ false ]

abbrev pub is_ge : Ordering → Bool
is_ge o = elim o [ Ordering.lt ↦ false | _ ↦ true ]

abbrev pub is_eq : Ordering → Bool
is_eq o = elim o [ Ordering.eq ↦ true | _ ↦ false ]

pub record Ord {ℓ} (A : Type ℓ) : Type ℓ where
  pub cmp : A → A → Ordering
  pub cmp_eq : (a b : A) → cmp a b ≡ Ordering.eq → a ≡ b
  pub cmp_refl : (a : A) → cmp a a ≡ Ordering.eq
  pub cmp_reverse : (a b : A) → cmp b a ≡ reverse_ord (cmp a b)

infix 50 ◌==◌
abbrev pub ◌==◌ {ℓ} : {A : Type ℓ} ⦃o : Ord A⦄ → A → A → Bool
◌==◌ ⦃o⦄ a b = is_eq (o.cmp a b)

module _ {ℓ} {A : Type ℓ} ⦃o : Ord A⦄ where
  pub ==_refl : (a : A) → (a == a) ≡ true
  ==_refl a = rw (o.cmp_refl a)

  pub ==_eq : (a b : A) → (a == b) ≡ true → a ≡ b
  ==_eq a b h = o.cmp_eq a b (ground arith)

  pub ==_iff : (a b : A) → ((a == b) ≡ true) ↔ (a ≡ b)
  ==_iff a b = (==_eq a b, λ e. rw e (==_refl b))

pub nat_cmp_eq : (a b : ℕ) → compare a b ≡ Ordering.eq → a ≡ b
nat_cmp_eq a b h = ground arith

pub nat_cmp_refl : (a : ℕ) → compare a a ≡ Ordering.eq
nat_cmp_refl a = ground arith

pub nat_cmp_reverse : (a b : ℕ) → compare b a ≡ reverse_ord (compare a b)
nat_cmp_reverse a b = ground arith

instance abbrev pub nat_ord : Ord ℕ
nat_ord = record {
  cmp = compare;
  cmp_eq = nat_cmp_eq;
  cmp_refl = nat_cmp_refl;
  cmp_reverse = nat_cmp_reverse;
}

abbrev pub bool_cmp : Bool → Bool → Ordering
bool_cmp false false = Ordering.eq
bool_cmp false true = Ordering.lt
bool_cmp true false = Ordering.gt
bool_cmp true true = Ordering.eq

pub bool_cmp_eq : (a b : Bool) → bool_cmp a b ≡ Ordering.eq → a ≡ b
bool_cmp_eq a b h = ground arith

pub bool_cmp_refl : (a : Bool) → bool_cmp a a ≡ Ordering.eq
bool_cmp_refl a = ground arith

pub bool_cmp_reverse : (a b : Bool) → bool_cmp b a ≡ reverse_ord (bool_cmp a b)
bool_cmp_reverse a b = ground arith

instance abbrev pub bool_ord : Ord Bool
bool_ord = record {
  cmp = bool_cmp;
  cmp_eq = bool_cmp_eq;
  cmp_refl = bool_cmp_refl;
  cmp_reverse = bool_cmp_reverse;
}

-- The lexicographic order of sequences.
module _ {ℓ} {A : Type ℓ} ⦃o : Ord A⦄ where
  abbrev pub list_cmp : List A → List A → Ordering
  list_cmp [] [] = Ordering.eq
  list_cmp [] (y ∷ ys) = Ordering.lt
  list_cmp (x ∷ xs) [] = Ordering.gt
  list_cmp (x ∷ xs) (y ∷ ys) =
      let rest = list_cmp xs ys in
      elim (o.cmp x y) [
        | Ordering.lt ↦ Ordering.lt
        | Ordering.eq ↦ rest
        | Ordering.gt ↦ Ordering.gt
      ]

  pub list_cmp_eq : (xs ys : List A) → list_cmp xs ys ≡ Ordering.eq → xs ≡ ys
  list_cmp_eq [] [] h = refl
  list_cmp_eq [] (y ∷ ys) h = cc
  list_cmp_eq (x ∷ xs) [] h = cc
  list_cmp_eq (x ∷ xs) (y ∷ ys) h = ground (arith, list_cmp_eq xs ys, o.cmp_eq x y)

  pub list_cmp_refl : (xs : List A) → list_cmp xs xs ≡ Ordering.eq
  list_cmp_refl [] = refl
  list_cmp_refl (x ∷ xs) = ground (arith, list_cmp_refl xs, o.cmp_refl x)

  pub list_cmp_reverse : (xs ys : List A) → list_cmp ys xs ≡ reverse_ord (list_cmp xs ys)
  list_cmp_reverse [] [] = refl
  list_cmp_reverse [] (y ∷ ys) = refl
  list_cmp_reverse (x ∷ xs) [] = refl
  list_cmp_reverse (x ∷ xs) (y ∷ ys) = ground (arith, list_cmp_reverse xs ys, o.cmp_reverse x y)

  instance abbrev pub list_ord : Ord (List A)
  list_ord = record {
    cmp = list_cmp;
    cmp_eq = list_cmp_eq;
    cmp_refl = list_cmp_refl;
    cmp_reverse = list_cmp_reverse;
  }
