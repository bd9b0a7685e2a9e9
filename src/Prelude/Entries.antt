-- ===== src/Prelude/Entries.antt =====
-- Maps in which each key stands once, and what `insert` and `remove` keep of all entries.
use mathlib.Core.Path.{◌≡◌, sym, ap, ◌∙◌, subst}
use mathlib.Core.Logic.{inl, inr}
use mathlib.Core.Bool.{false}
use mathlib.Core.Option.{some}
use mathlib.Core.List.{[], ◌∷◌}
use native.Mathlib.Omega.{arith}
use electric_circuits.Prelude.Tests.{
  Bool-cases, Ord, ◌==◌, ==_eq, ==_iff, ==_refl, if◌then◌else◌, some_inj, some_none,
}
use electric_circuits.Prelude.Lists.{All}
use electric_circuits.Prelude.Maps.{Map, lookup, insert, remove}

other_way : {K : Type 0} ⦃o : Ord K⦄ (j k : K) → (j == k) ≡ false → (k == j) ≡ false
other_way j k h = ground (arith, ==_iff j k, ==_iff k j)

module _ {K V : Type 0} ⦃o : Ord K⦄ where
  pub All-insert :
      (P : K × V → Type 0) (k : K) (v : V) (m : Map K V) → P (k, v) → All P m → All P (insert k v m)
  unfolding insert
  All-insert P k v [] p h = (p, tt)
  All-insert P k v ((j, w) ∷ m) p (q, h) = elim (Bool-cases (j == k)) [
    | inl e ↦ rw e (p, h)
    | inr n ↦ rw n (q, All-insert P k v m p h)
  ]

  pub All-remove : (P : K × V → Type 0) (k : K) (m : Map K V) → All P m → All P (remove k m)
  unfolding remove
  All-remove P k [] h = tt
  All-remove P k ((j, w) ∷ m) (q, h) = elim (Bool-cases (j == k)) [
    | inl e ↦ rw e (All-remove P k m h)
    | inr n ↦ rw n (q, All-remove P k m h)
  ]

  pub All-lookup :
      (P : K × V → Type 0) (k : K) (v : V) (m : Map K V) → All P m → lookup k m ≡ some v → P (k, v)
  unfolding lookup
  All-lookup P k v [] h e = absurd (some_none (sym e))
  All-lookup P k v ((j, w) ∷ m) (q, h) e = elim (Bool-cases (j == k)) [
    | inl s ↦
        let value = some_inj (ap (λ b. if b then some w else lookup k m) (sym s) ∙ e) in
        subst (λ x. P (k, x)) value (subst (λ x. P (x, w)) (==_eq j k s) q)
    | inr n ↦ All-lookup P k v m h (ap (λ b. if b then some w else lookup k m) (sym n) ∙ e)
  ]

  abbrev pub NoKey : K → Map K V → Type 0
  NoKey k m = All (λ (e : K × V). (e.0 == k) ≡ false) m

  -- Each key stands once.
  abbrev pub Keyed : Map K V → Type 0
  Keyed [] = Unit
  Keyed (e ∷ m) = NoKey e.0 m × Keyed m

  pub Keyed-insert : (k : K) (v : V) (m : Map K V) → Keyed m → Keyed (insert k v m)
  unfolding insert
  Keyed-insert k v [] h = (tt, tt)
  Keyed-insert k v ((j, w) ∷ m) (fresh, h) = elim (Bool-cases (j == k)) [
    | inl e ↦ rw e (subst (λ x. NoKey x m) (==_eq j k e) fresh, h)
    | inr n ↦ rw n (
      All-insert (λ (e : K × V). (e.0 == j) ≡ false) k v m (other_way j k n) fresh,
      Keyed-insert k v m h,
    )
  ]

  pub Keyed-remove : (k : K) (m : Map K V) → Keyed m → Keyed (remove k m)
  unfolding remove
  Keyed-remove k [] h = tt
  Keyed-remove k ((j, w) ∷ m) (fresh, h) = elim (Bool-cases (j == k)) [
    | inl e ↦ rw e (Keyed-remove k m h)
    | inr n ↦ rw n (All-remove (λ (e : K × V). (e.0 == j) ≡ false) k m fresh, Keyed-remove k m h)
  ]

  -- Each entry is found under its key.
  abbrev pub Found : Map K V → Map K V → Type 0
  Found full m = All (λ (e : K × V). lookup e.0 full ≡ some e.1) m

  Found-cons :
      (k : K) (v : V) (full m : Map K V) → NoKey k m → Found full m → Found ((k, v) ∷ full) m
  unfolding lookup
  Found-cons k v full [] fresh h = tt
  Found-cons k v full ((j, w) ∷ m) (n, fresh) (e, h) = (
    ap (λ b. if b then some v else lookup j full) (other_way j k n) ∙ e,
    Found-cons k v full m fresh h,
  )

  pub Keyed-Found : (m : Map K V) → Keyed m → Found m m
  unfolding lookup
  Keyed-Found [] h = tt
  Keyed-Found ((k, v) ∷ m) (fresh, h) = (
    ap (λ b. if b then some v else lookup k m) (==_refl k),
    Found-cons k v m m fresh (Keyed-Found m h),
  )
