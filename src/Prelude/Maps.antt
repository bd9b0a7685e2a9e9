-- ===== src/Prelude/Maps.antt =====
-- The standard maps (`HashMap`, `BTreeMap`) as association lists with one entry per key. The order
-- of the entries is that of first insertion; no theorem depends on it.
use mathlib.Core.Path.{◌≡◌, refl}
use mathlib.Core.List.{List, [], ◌∷◌}
use mathlib.Core.Option.{Option, none, some}
use native.Mathlib.Omega.{arith}
use electric_circuits.Prelude.Tests.{Ord, ◌==◌, ==_iff, if◌then◌else◌}

abbrev pub Map {ℓ κ} : Type ℓ → Type κ → Type (ℓ ⊔ κ)
Map K V = List (K × V)

module _ {ℓ κ} {K : Type ℓ} {V : Type κ} ⦃o : Ord K⦄ where
  unfoldable pub lookup : K → Map K V → Option V
  lookup k [] = none
  lookup k ((j, v) ∷ m) = if j == k then some v else lookup k m

  unfoldable pub insert : K → V → Map K V → Map K V
  insert k v [] = (k, v) ∷ []
  insert k v ((j, w) ∷ m) = let rest = insert k v m in if j == k then (k, v) ∷ m else (j, w) ∷ rest

  unfoldable pub remove : K → Map K V → Map K V
  remove k [] = []
  remove k ((j, w) ∷ m) = let rest = remove k m in if j == k then rest else (j, w) ∷ rest

  pub lookup-insert :
      (new asked : K) (value : V) (entries : Map K V)
      → lookup asked (insert new value entries)
        ≡ (if new == asked then some value else lookup asked entries)
  unfolding lookup insert
  lookup-insert new asked value [] = refl
  lookup-insert new asked value ((key, held) ∷ rest) = ground (
    arith,
    lookup-insert new asked value rest,
    ==_iff key asked,
    ==_iff key new,
    ==_iff new asked,
  )

  pub lookup-remove :
      (k j : K) (m : Map K V) → lookup j (remove k m) ≡ (if k == j then none else lookup j m)
  unfolding lookup remove
  lookup-remove k j [] = ground arith
  lookup-remove k j ((i, w) ∷ m) =
      ground (arith, ==_iff k j, ==_iff i k, ==_iff i j, lookup-remove k j m)

pub ruleset map_laws = (lookup-insert, lookup-remove)
