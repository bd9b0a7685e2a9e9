-- ===== src/Routing/Interning.antt =====
-- apps/engine/src/subq_index.rs: `forward`, `reverse` and `free`. An id names one shape at a time.
use electric_circuits.Prelude.{
  true_false, ℕ, zero, suc, ◌≡◌, refl, ◌∙◌, sym, ap, inl, inr, false, Option, none, some, List, [],
  ◌∷◌, ◌++◌, arith, ◌==◌, ==_eq, ==_refl, nat_ord, list_ord, if◌then◌else◌, Map, lookup, insert,
  remove, lookup-insert, lookup-remove, length, get_elem?, get_elem?-keeps, get_elem?-end, All,
  Bool-cases, some_inj, some_none,
}
use electric_circuits.Value.{Text}
use electric_circuits.Routing.Subquery.{set_at}

get_elem?-set_at {ℓ} :
    {A : Type ℓ} (xs : List A) (i j : ℕ) (a y : A)
    → get_elem? xs i ≡ some y
    → get_elem? (set_at i a xs) j ≡ (if i == j then some a else get_elem? xs j)
get_elem?-set_at [] i j a y h = absurd (some_none (sym h))
get_elem?-set_at (x ∷ xs) zero zero a y h = refl
get_elem?-set_at (x ∷ xs) zero (suc j) a y h = ground arith
get_elem?-set_at (x ∷ xs) (suc i) zero a y h = ground arith
get_elem?-set_at (x ∷ xs) (suc i) (suc j) a y h = ground (arith, get_elem?-set_at xs i j a y h)

pub length-set_at {ℓ} :
    {A : Type ℓ} (i : ℕ) (a : A) (xs : List A) → length (set_at i a xs) ≡ length xs
length-set_at i a [] = refl
length-set_at zero a (x ∷ xs) = refl
length-set_at (suc i) a (x ∷ xs) = omega (arith, length-set_at i a xs)

-- Ids that occur once.
abbrev pub Once : List ℕ → Type 0
Once [] = Unit
Once (id ∷ ids) = All (λ j. (id == j) ≡ false) ids × Once ids

-- The reverse table names the shape of each id that the forward table has, and the free ids, each of
-- which is free once, name none.
abbrev pub Named : Map Text ℕ → List (Option Text) → List ℕ → Type 0
Named forward reverse free =
    ((s : Text) (id : ℕ) → lookup s forward ≡ some id → get_elem? reverse id ≡ some (some s))
    × All (λ id. get_elem? reverse id ≡ some none) free
    × Once free

-- Ids that name different things are different.
pub apart :
    (reverse : List (Option Text)) (i j : ℕ) (x y : Option Text)
    → get_elem? reverse i ≡ some x
    → get_elem? reverse j ≡ some y
    → (x ≡ y → ⊥)
    → (i == j) ≡ false
apart reverse i j x y hi hj differ = elim (Bool-cases (i == j)) [
  | inl e ↦ absurd (differ (some_inj (sym hi ∙ ap (get_elem? reverse) (==_eq i j e) ∙ hj)))
  | inr e ↦ e
]

other_name : (s q : Text) → (s == q) ≡ false → some s ≡ some q → ⊥
other_name s q n e = true_false (ap (λ x. x == q) (some_inj e) ∙ ==_refl q) n

-- The ids of two shapes are different.
pub Named-apart :
    (forward : Map Text ℕ) (reverse : List (Option Text)) (free : List ℕ) (s q : Text) (i j : ℕ)
    → Named forward reverse free
    → lookup s forward ≡ some i
    → lookup q forward ≡ some j
    → (s == q) ≡ false
    → (i == j) ≡ false
Named-apart forward reverse free s q i j (names, vacant, once) hi hj n =
    apart reverse i j (some s) (some q) (names s i hi) (names q j hj) (other_name s q n)

none_some : {A : Type 0} {a : A} → none ≡ some a → ⊥
none_some e = some_none (sym e)

still_vacant :
    (reverse : List (Option Text)) (id : ℕ) (a y : Option Text) (free : List ℕ)
    → get_elem? reverse id ≡ some y
    → All (λ j. (id == j) ≡ false) free
    → All (λ j. get_elem? reverse j ≡ some none) free
    → All (λ j. get_elem? (set_at id a reverse) j ≡ some none) free
still_vacant reverse id a y [] h apart vacant = tt
still_vacant reverse id a y (j ∷ free) h (n, apart) (v, vacant) = (
  get_elem?-set_at reverse id j a y h ∙ ap (λ b. if b then some a else get_elem? reverse j) n ∙ v,
  still_vacant reverse id a y free h apart vacant,
)

-- Interning with a freed id, interning with a fresh one, and freeing an id.
pub reuse-Named :
    (forward : Map Text ℕ) (reverse : List (Option Text)) (free : List ℕ) (name : Text) (id : ℕ)
    → Named forward reverse (id ∷ free)
    → Named (insert name id forward) (set_at id (some name) reverse) free
reuse-Named forward reverse free name id (names, (v, vacant), (first, once)) = (
  λ s j h. elim (Bool-cases (name == s)) [
    | inl e ↦
        let same = some_inj (
          ap (λ b. if b then some id else lookup s forward) (sym e)
          ∙ sym (lookup-insert name s id forward)
          ∙ h) in
        get_elem?-set_at reverse id j (some name) none v
        ∙ ap (λ b. if b then some (some name) else get_elem? reverse j)
            (ap (λ i. i == j) same ∙ ==_refl j)
        ∙ ap (λ n. some (some n)) (==_eq name s e)
    | inr e ↦
        let held =
          ap (λ b. if b then some id else lookup s forward) (sym e)
          ∙ sym (lookup-insert name s id forward)
          ∙ h in
        get_elem?-set_at reverse id j (some name) none v
        ∙ ap (λ b. if b then some (some name) else get_elem? reverse j)
            (apart reverse id j none (some s) v (names s j held) none_some)
        ∙ names s j held
  ],
  still_vacant reverse id (some name) none free v first vacant,
  once,
)

pub fresh-Named :
    (forward : Map Text ℕ) (reverse : List (Option Text)) (name : Text)
    → Named forward reverse []
    → Named (insert name (length reverse) forward) (reverse ++ some name ∷ []) []
fresh-Named forward reverse name (names, vacant, once) = (
  λ s j h. elim (Bool-cases (name == s)) [
    | inl e ↦
        let same = some_inj (
          ap (λ b. if b then some (length reverse) else lookup s forward) (sym e)
          ∙ sym (lookup-insert name s (length reverse) forward)
          ∙ h) in
        ap (get_elem? (reverse ++ some name ∷ [])) (sym same)
        ∙ get_elem?-end reverse (some name)
        ∙ ap (λ n. some (some n)) (==_eq name s e)
    | inr e ↦ get_elem?-keeps reverse (some name) (some s) j (
        names s j (
          ap (λ b. if b then some (length reverse) else lookup s forward) (sym e)
          ∙ sym (lookup-insert name s (length reverse) forward)
          ∙ h))
  ],
  tt,
  tt,
)

each_apart :
    (reverse : List (Option Text)) (id : ℕ) (name : Text) (free : List ℕ)
    → get_elem? reverse id ≡ some (some name)
    → All (λ j. get_elem? reverse j ≡ some none) free
    → All (λ j. (id == j) ≡ false) free
each_apart reverse id name [] h vacant = tt
each_apart reverse id name (j ∷ free) h (v, vacant) =
    (apart reverse id j (some name) none h v some_none, each_apart reverse id name free h vacant)

pub free-Named :
    (forward : Map Text ℕ) (reverse : List (Option Text)) (free : List ℕ) (name : Text) (id : ℕ)
    → lookup name forward ≡ some id
    → Named forward reverse free
    → Named (remove name forward) (set_at id none reverse) (id ∷ free)
free-Named forward reverse free name id at (names, vacant, once) =
    let here = names name id at in
    let first = each_apart reverse id name free here vacant in
    (
      λ s j h. elim (Bool-cases (name == s)) [
        | inl e ↦ absurd (
            some_none (
              sym h
              ∙ lookup-remove name s forward
              ∙ ap (λ b. if b then none else lookup s forward) e))
        | inr e ↦
            let held =
              ap (λ b. if b then none else lookup s forward) (sym e)
              ∙ sym (lookup-remove name s forward)
              ∙ h in
            get_elem?-set_at reverse id j none (some name) here
            ∙ ap (λ b. if b then some none else get_elem? reverse j)
                (apart reverse id j (some name) (some s) here (names s j held)
                  (other_name name s e))
            ∙ names s j held
      ],
      (
        get_elem?-set_at reverse id id none (some name) here
            ∙ ap (λ b. if b then some none else get_elem? reverse id) (==_refl id),
        still_vacant reverse id none (some name) free here first vacant,
      ),
      (first, once),
    )
