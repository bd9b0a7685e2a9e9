-- ===== src/Planning/Holds.antt =====
-- apps/engine/src/engine/planning.rs: what the constraints say of a row.
use electric_circuits.Prelude.{
  subst, ℕ, zero, suc, ◌+◌, ◌≡◌, refl, ◌∙◌, sym, ap, inl, inr, Bool, true, false, ◌&&◌, Option,
  none, some, List, [], ◌∷◌, arith, Ord, ◌==◌, ==_eq, ◌>>=◌, nat_ord, if◌then◌else◌, get_elem?,
  member, Bool-cases, Option-cases, some_inj, some_none,
}
use electric_circuits.Value.{Value, Row, value_ord, cell_at}
use electric_circuits.Routing.Subquery.{set_at}
use electric_circuits.Planning.Counts.{
  Constraints, unconstrained, position, key_of, constrain, place, admits, group_matches_from,
  group_matches,
}

zero_suc : {n : ℕ} → 0 ≡ suc n → ⊥
zero_suc h = omega arith

suc_same : {n m : ℕ} → suc n ≡ suc m → n ≡ m
suc_same h = omega arith

-- One constraint for each group column.
abbrev pub Aligned : {F : Type 0} → Constraints F → List ℕ → Type 0
Aligned [] [] = Unit
Aligned (c ∷ cs) (g ∷ gs) = Aligned cs gs
Aligned _ _ = ⊥

pub unconstrained-Aligned : (F : Type 0) (gs : List ℕ) → Aligned (unconstrained {F = F} gs) gs
unconstrained-Aligned F [] = tt
unconstrained-Aligned F (g ∷ gs) = unconstrained-Aligned F gs

set_at-Aligned :
    {F : Type 0} (p : ℕ) (c : Option (List (Value F))) (cs : Constraints F) (gs : List ℕ)
    → Aligned cs gs
    → Aligned (set_at p c cs) gs
set_at-Aligned p c [] gs h = h
set_at-Aligned p c (d ∷ cs) [] h = elim h [ ]
set_at-Aligned zero c (d ∷ cs) (g ∷ gs) h = h
set_at-Aligned (suc p) c (d ∷ cs) (g ∷ gs) h = set_at-Aligned p c cs gs h

module _ {F : Type 0} ⦃o : Ord F⦄ (row : Row F) where
  -- The cells of the group columns are among the keys of their constraints.
  abbrev pub satisfies : Constraints F → List ℕ → Bool
  satisfies [] gs = true
  satisfies (c ∷ cs) [] = true
  satisfies (c ∷ cs) (g ∷ gs) = admits c (some (cell_at row g)) && satisfies cs gs

  pub unconstrained-satisfies : (gs : List ℕ) → satisfies (unconstrained gs) gs ≡ true
  unconstrained-satisfies [] = refl
  unconstrained-satisfies (g ∷ gs) = unconstrained-satisfies gs

  group_matches_from-satisfies :
      (i : ℕ) (cs : Constraints F) (gs : List ℕ) (group : Row F)
      → Aligned cs gs
      → ((j : ℕ) → get_elem? group (i + j) ≡ get_elem? (key_of row gs) j)
      → group_matches_from i cs group ≡ satisfies cs gs
  unfolding group_matches_from
  group_matches_from-satisfies i [] gs group a h = refl
  group_matches_from-satisfies i (c ∷ cs) [] group a h = elim a [ ]
  group_matches_from-satisfies i (c ∷ cs) (g ∷ gs) group a h =
      ap (λ x. admits c x && group_matches_from (suc i) cs group)
        (ap (get_elem? group) (omega arith) ∙ h 0)
      ∙ ap (λ b. admits c (some (cell_at row g)) && b)
          (group_matches_from-satisfies (suc i) cs gs group a
            (λ j. ap (get_elem? group) (omega arith) ∙ h (suc j)))

  pub group_matches-satisfies :
      (cs : Constraints F) (gs : List ℕ)
      → Aligned cs gs
      → group_matches cs (key_of row gs) ≡ satisfies cs gs
  group_matches-satisfies cs gs a =
      group_matches_from-satisfies 0 cs gs (key_of row gs) a
        (λ j. ap (get_elem? (key_of row gs)) (omega arith))

  and_swap : (a b c : Bool) → (a && (b && c)) ≡ (b && (a && c))
  and_swap true b c = refl
  and_swap false true c = refl
  and_swap false false c = refl

  set_at-satisfies :
      (idx p : ℕ) (keys : List (Value F)) (cs : Constraints F) (gs : List ℕ)
      → position idx gs ≡ some p
      → get_elem? cs p ≡ some none
      → satisfies (set_at p (some keys) cs) gs ≡ (member (cell_at row idx) keys && satisfies cs gs)
  set_at-satisfies idx p keys [] gs at free = absurd (some_none (sym free))
  set_at-satisfies idx p keys (c ∷ cs) [] at free = absurd (some_none (sym at))
  set_at-satisfies idx p keys (c ∷ cs) (g ∷ gs) at free = elim (Bool-cases (g == idx)) [
    | inl e ↦
        here p
          (some_inj
            (ap (λ b. if b then some 0 else position idx gs >>= λ i. some (suc i)) (sym e) ∙ at))
          (==_eq g idx e) free
    | inr e ↦ (elim (Option-cases (position idx gs)) [
      | inl n ↦ absurd (
          some_none (
            sym at
            ∙ ap (λ b. if b then some 0 else position idx gs >>= λ i. some (suc i)) e
            ∙ ap (λ x. x >>= λ i. some (suc i)) n))
      | inr (q, n) ↦
          there p q
            (some_inj (
              ap (λ x. x >>= λ i. some (suc i)) (sym n)
              ∙ ap (λ b. if b then some 0 else position idx gs >>= λ i. some (suc i)) (sym e)
              ∙ at))
            free (set_at-satisfies idx q keys cs gs n)
    ])
  ]
    where
      here :
          (p : ℕ)
          → 0 ≡ p
          → g ≡ idx
          → get_elem? (c ∷ cs) p ≡ some none
          → satisfies (set_at p (some keys) (c ∷ cs)) (g ∷ gs)
            ≡ (member (cell_at row idx) keys && satisfies (c ∷ cs) (g ∷ gs))
      here zero zero_p same free =
          ap (λ i. member (cell_at row i) keys && satisfies cs gs) same
          ∙ ap
              (λ d.
                member (cell_at row idx) keys
                && (admits d (some (cell_at row g)) && satisfies cs gs))
              (sym (some_inj free))
      here (suc p) zero_p same free = absurd (zero_suc zero_p)

      there :
          (p q : ℕ)
          → suc q ≡ p
          → get_elem? (c ∷ cs) p ≡ some none
          → (get_elem? cs q ≡ some none
              → satisfies (set_at q (some keys) cs) gs
                ≡ (member (cell_at row idx) keys && satisfies cs gs))
          → satisfies (set_at p (some keys) (c ∷ cs)) (g ∷ gs)
            ≡ (member (cell_at row idx) keys && satisfies (c ∷ cs) (g ∷ gs))
      there zero q suc_p free ih = absurd (zero_suc (sym suc_p))
      there (suc p) q suc_p free ih =
          let same = suc_same suc_p in
          ap (λ x. admits c (some (cell_at row g)) && satisfies (set_at x (some keys) cs) gs)
            (sym same)
          ∙ ap (λ b. admits c (some (cell_at row g)) && b) (ih (ap (get_elem? cs) same ∙ free))
          ∙ and_swap (admits c (some (cell_at row g))) (member (cell_at row idx) keys)
              (satisfies cs gs)

  -- A placed set of keys is a constraint on its column, besides those that were there.
  pub place-satisfies :
      (gs : List ℕ) (cs next : Constraints F) (idx : ℕ) (keys : List (Value F))
      → Aligned cs gs
      → place gs cs (idx, keys) ≡ some next
      → Aligned next gs × (satisfies next gs ≡ (member (cell_at row idx) keys && satisfies cs gs))
  place-satisfies gs cs next idx keys a e = elim (Option-cases (position idx gs)) [
    | inl n ↦
        absurd (some_none (sym e ∙ ap (λ x. x >>= λ p. constrain (get_elem? cs p) p keys cs) n))
    | inr (p, n) ↦
        placed p n (get_elem? cs p) refl
          (sym (ap (λ x. x >>= λ p. constrain (get_elem? cs p) p keys cs) n) ∙ e)
  ]
    where
      placed :
          (p : ℕ)
          → position idx gs ≡ some p
          → (c : Option (Option (List (Value F)))) → get_elem? cs p ≡ c
          → constrain c p keys cs ≡ some next
          → Aligned next gs
            × (satisfies next gs ≡ (member (cell_at row idx) keys && satisfies cs gs))
      placed p n none free h = absurd (some_none (sym h))
      placed p n (some (some ks)) free h = absurd (some_none (sym h))
      placed p n (some none) free h =
          let now = some_inj h in
          (
            subst (λ x. Aligned x gs) now (set_at-Aligned p (some keys) cs gs a),
            ap (λ x. satisfies x gs) (sym now) ∙ set_at-satisfies idx p keys cs gs n free,
          )
