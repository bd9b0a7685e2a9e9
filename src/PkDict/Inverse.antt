-- ===== src/PkDict/Inverse.antt =====
-- apps/engine/src/pk_dict.rs: the two tables are inverse to each other, and keep what they hold.
use electric_circuits.Prelude.{
  ℕ, zero, suc, ◌<◌, ◌≤◌, ◌≡◌, ◌⊎◌, inl, inr, refl, ap, sym, ◌∙◌, Bool, true, false, Option, none,
  some, List, [], ◌∷◌, ◌++◌, length, length-append, get_elem?, get_elem?-keeps, get_elem?-end, ◌==◌,
  nat_ord, list_ord, lookup, lookup-insert, arith, Bool-cases, ==_eq, ==_refl, some_inj, some_none,
  if◌then◌else◌,
}
use electric_circuits.Value.{Text}
use electric_circuits.PkDict.Intern.{
  PkDict, new, fresh, push_new, mint_unless, mint, slow_unless, get_or_insert,
}

-- Each key that the forward table has resolves to itself, and each id resolves to a key that has it.
abbrev pub Inverse : PkDict → Type 0
Inverse d =
    ((pk : Text) (id : ℕ) → lookup pk d.forward ≡ some id → get_elem? d.reverse id ≡ some pk)
    × ((pk : Text) (id : ℕ) → get_elem? d.reverse id ≡ some pk → lookup pk d.forward ≡ some id)

-- What one dictionary knows, the other knows as well.
abbrev pub Extends : PkDict → PkDict → Type 0
Extends d e =
    ((pk : Text) (id : ℕ) → lookup pk d.forward ≡ some id → lookup pk e.forward ≡ some id)
    × ((pk : Text) (id : ℕ) → get_elem? d.reverse id ≡ some pk → get_elem? e.reverse id ≡ some pk)

pub new-Inverse : Inverse new
unfolding new lookup
new-Inverse = (λ pk id h. absurd (some_none (sym h)), λ pk id h. absurd (some_none (sym h)))

get_elem?-snoc :
    (xs : List Text) (y x : Text) (i : ℕ)
    → get_elem? (xs ++ y ∷ []) i ≡ some x
    → (get_elem? xs i ≡ some x) ⊎ ((i ≡ length xs) × (x ≡ y))
get_elem?-snoc [] y x zero h = inr (refl, sym (some_inj h))
get_elem?-snoc [] y x (suc i) h = absurd (some_none (sym h))
get_elem?-snoc (z ∷ xs) y x zero h = inl h
get_elem?-snoc (z ∷ xs) y x (suc i) h = elim (get_elem?-snoc xs y x i h) [
  | inl k ↦ inl k
  | inr k ↦ inr (ap suc k.0, k.1)
]

fresh_lem : (d : PkDict) → length d.reverse < 4294967296 → fresh d ≡ length d.reverse
fresh_lem d h = omega arith

if_true {ℓ} : {A : Type ℓ} (b : Bool) (x y z : A) → b ≡ true → (if b then x else y) ≡ z → x ≡ z
if_true true x y z e h = h
if_true false x y z e h = absurd (ground arith)

if_false {ℓ} : {A : Type ℓ} (b : Bool) (x y z : A) → b ≡ false → (if b then x else y) ≡ z → y ≡ z
if_false false x y z e h = h
if_false true x y z e h = absurd (ground arith)

module _ (pk : Text) (d : PkDict) (room : length d.reverse < 4294967296) where
  forward_new :
      (k : Text) (id : ℕ)
      → lookup k (push_new pk d).forward ≡ some id
      → ((k ≡ pk) × (id ≡ length d.reverse)) ⊎ (lookup k d.forward ≡ some id)
  forward_new k id h =
      let h2 = sym (lookup-insert pk k (fresh d) d.forward) ∙ h in
      elim (Bool-cases (pk == k)) [
        | inl e ↦ inl (
          sym (==_eq pk k e),
          sym (some_inj (if_true (pk == k) (some (fresh d)) (lookup k d.forward) (some id) e h2))
              ∙ fresh_lem d room,
        )
        | inr e ↦ inr (if_false (pk == k) (some (fresh d)) (lookup k d.forward) (some id) e h2)
      ]

  forward_fresh : lookup pk (push_new pk d).forward ≡ some (length d.reverse)
  forward_fresh =
      lookup-insert pk pk (fresh d) d.forward ∙ rw (==_refl pk) (ap some (fresh_lem d room))

  module _ (absent : lookup pk d.forward ≡ none) where
    forward_old :
        (k : Text) (id : ℕ)
        → lookup k d.forward ≡ some id
        → lookup k (push_new pk d).forward ≡ some id
    forward_old k id h = lookup-insert pk k (fresh d) d.forward ∙ (elim (Bool-cases (pk == k)) [
      | inl e ↦
          absurd (some_none (sym h ∙ ap (λ j. lookup j d.forward) (sym (==_eq pk k e)) ∙ absent))
      | inr e ↦ rw e h
    ])

    push_new-Extends : Extends d (push_new pk d)
    push_new-Extends = (forward_old, λ k id. get_elem?-keeps d.reverse pk k id)

    push_new-Inverse : Inverse d → Inverse (push_new pk d)
    push_new-Inverse (to, from) = (
      λ k id h. elim (forward_new k id h) [
        | inl e ↦
            ap (get_elem? (d.reverse ++ pk ∷ [])) e.1
            ∙ get_elem?-end d.reverse pk
            ∙ ap some (sym e.0)
        | inr old ↦ get_elem?-keeps d.reverse pk k id (to k id old)
      ],
      λ k id h. elim (get_elem?-snoc d.reverse pk k id h) [
        | inl old ↦ forward_old k id (from k id old)
        | inr e ↦ ap (λ j. lookup j (push_new pk d).forward) e.1 ∙ forward_fresh ∙ ap some (sym e.0)
      ],
    )

abbrev pub Minted : Text → PkDict → ℕ × PkDict → Type 0
Minted pk d (id, d') =
    Inverse d'
    × Extends d d'
    × (lookup pk d'.forward ≡ some id)
    × (get_elem? d'.reverse id ≡ some pk)

mint_unless-Minted :
    (pk : Text) (d : PkDict) (o : Option ℕ)
    → lookup pk d.forward ≡ o
    → length d.reverse < 4294967296
    → Inverse d
    → Minted pk d (mint_unless pk d o)
mint_unless-Minted pk d none absent room inv = (
  push_new-Inverse pk d room absent inv,
  push_new-Extends pk d room absent,
  forward_fresh pk d room ∙ ap some (sym (fresh_lem d room)),
  ap (get_elem? (d.reverse ++ pk ∷ [])) (fresh_lem d room) ∙ get_elem?-end d.reverse pk,
)
mint_unless-Minted pk d (some id) h room inv = (inv, (λ k i e. e, λ k i e. e), h, inv.0 pk id h)

pub mint-Minted :
    (pk : Text) (d : PkDict) → length d.reverse < 4294967296 → Inverse d → Minted pk d (mint pk d)
unfolding mint
mint-Minted pk d room inv = mint_unless-Minted pk d (lookup pk d.forward) refl room inv

-- With the new key the dictionary has at most 2^32 of them, so there was room for it.
mint_unless-Fits :
    (pk : Text) (d : PkDict) (o : Option ℕ)
    → lookup pk d.forward ≡ o
    → length (mint_unless pk d o).1.reverse ≤ 4294967296
    → Inverse d
    → Minted pk d (mint_unless pk d o)
mint_unless-Fits pk d none absent fits inv =
    mint_unless-Minted pk d none absent (omega (arith, length-append d.reverse (pk ∷ []), fits)) inv
mint_unless-Fits pk d (some id) h fits inv = (inv, (λ k i e. e, λ k i e. e), h, inv.0 pk id h)

pub mint-Fits :
    (pk : Text) (d : PkDict)
    → length (mint pk d).1.reverse ≤ 4294967296
    → Inverse d
    → Minted pk d (mint pk d)
unfolding mint
mint-Fits pk d fits inv = mint_unless-Fits pk d (lookup pk d.forward) refl fits inv

mint_unless-grows :
    (pk : Text) (d : PkDict) (o : Option ℕ)
    → length d.reverse ≤ length (mint_unless pk d o).1.reverse
mint_unless-grows pk d none = omega (arith, length-append d.reverse (pk ∷ []))
mint_unless-grows pk d (some id) = omega arith

pub mint-grows : (pk : Text) (d : PkDict) → length d.reverse ≤ length (mint pk d).1.reverse
unfolding mint
mint-grows pk d = mint_unless-grows pk d (lookup pk d.forward)

slow_unless-Minted :
    (pk : Text) (d : PkDict) (o : Option ℕ)
    → lookup pk d.forward ≡ o
    → length d.reverse < 4294967296
    → Inverse d
    → Minted pk d (slow_unless pk d o)
slow_unless-Minted pk d none absent room inv = mint-Minted pk d room inv
slow_unless-Minted pk d (some id) h room inv = (inv, (λ k i e. e, λ k i e. e), h, inv.0 pk id h)

-- With room for one more id, interning a key in a dictionary whose tables are inverse keeps them
-- so and keeps every entry of both; the id that it gives is that of the key in both tables.
pub get_or_insert-Minted :
    (pk : Text) (d : PkDict)
    → length d.reverse < 4294967296
    → Inverse d
    → Minted pk d (get_or_insert pk d)
unfolding get_or_insert
get_or_insert-Minted pk d room inv = slow_unless-Minted pk d (lookup pk d.forward) refl room inv
