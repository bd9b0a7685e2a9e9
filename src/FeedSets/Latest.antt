-- ===== src/FeedSets/Latest.antt =====
-- apps/engine/src/engine/membership.rs, `latest_rows_by_pk`: a delta of weighted rows is folded to the
-- latest row of each key. The order in which the map gives its entries is left open.
use electric_circuits.Prelude.{
  keep_or, ◌≡◌, refl, ◌∙◌, inl, inr, Bool, true, false, Option, none, some, List, [], ◌∷◌,
  if◌then◌else◌, ◌==◌, ==_eq, list_ord, nat_ord, Map, lookup, insert, lookup-insert, Bool-cases, ap,
  sym,
}
use electric_circuits.Value.Arith.{is_positive}
use electric_circuits.Value.{ℤ, Text}

keep_none {ℓ} : {A : Type ℓ} (o : Option A) → o ≡ keep_or o none
keep_none none = refl
keep_none (some a) = refl

-- `key` is `key_string` with the empty text for an error.
module _ {R : Type 0} (key : R → Text) where
  -- `entry(pk).or_insert_with(..)`
  abbrev pub insert_unless :
      Text → R × Bool → Map Text (R × Bool) → Option (R × Bool) → Map Text (R × Bool)
  insert_unless pk entry m none = insert pk entry m
  insert_unless pk entry m (some e) = m

  abbrev pub or_insert : Text → R × Bool → Map Text (R × Bool) → Map Text (R × Bool)
  or_insert pk entry m = insert_unless pk entry m (lookup pk m)

  unfoldable pub fold_row : R × ℤ → Map Text (R × Bool) → Map Text (R × Bool)
  fold_row (row, w) m =
      if is_positive w then insert (key row) (row, true) m else or_insert (key row) (row, false) m

  unfoldable pub latest_rows_by_pk : List (R × ℤ) → Map Text (R × Bool) → Map Text (R × Bool)
  latest_rows_by_pk [] m = m
  latest_rows_by_pk (c ∷ delta) m = latest_rows_by_pk delta (fold_row c m)

  -- The last row of the key with a positive weight, and the first row of the key.
  unfoldable pub last_positive : Text → List (R × ℤ) → Option (R × Bool)
  last_positive pk [] = none
  last_positive pk ((row, w) ∷ delta) =
      let here = if key row == pk then if is_positive w then some (row, true) else none else none in
      keep_or (last_positive pk delta) here

  unfoldable pub first_row : Text → List (R × ℤ) → Option (R × Bool)
  first_row pk [] = none
  first_row pk ((row, w) ∷ delta) =
      let rest = first_row pk delta in if key row == pk then some (row, false) else rest

  lookup-insert_unless :
      (k pk : Text) (e : R × Bool) (m : Map Text (R × Bool)) (o : Option (R × Bool))
      → lookup k m ≡ o
      → lookup pk (insert_unless k e m o)
        ≡ (if k == pk then keep_or (lookup pk m) (some e) else lookup pk m)
  lookup-insert_unless k pk e m none h = lookup-insert k pk e m ∙ (elim (Bool-cases (k == pk)) [
    | inl eq ↦
        rw eq (sym (ap (λ o. keep_or o (some e)) (sym (ap (λ j. lookup j m) (==_eq k pk eq)) ∙ h)))
    | inr ne ↦ rw ne refl
  ])
  lookup-insert_unless k pk e m (some x) h = elim (Bool-cases (k == pk)) [
    | inl eq ↦
        let found = sym (ap (λ j. lookup j m) (==_eq k pk eq)) ∙ h in
        rw eq (found ∙ sym (ap (λ o. keep_or o (some e)) found))
    | inr ne ↦ rw ne refl
  ]

  lookup-fold_row :
      (row : R) (w : ℤ) (pk : Text) (m : Map Text (R × Bool))
      → lookup pk (fold_row (row, w) m) ≡ (
          if key row == pk
          then if is_positive w then some (row, true) else keep_or (lookup pk m) (some (row, false))
          else lookup pk m)
  unfolding fold_row
  lookup-fold_row row w pk m = by_weight (is_positive w)
    where
      by_weight :
          (b : Bool)
          → lookup pk
              (if b then insert (key row) (row, true) m else or_insert (key row) (row, false) m)
            ≡ (if key row == pk
                then if b then some (row, true) else keep_or (lookup pk m) (some (row, false))
                else lookup pk m)
      by_weight true = lookup-insert (key row) pk (row, true) m
      by_weight false = lookup-insert_unless (key row) pk (row, false) m (lookup (key row) m) refl

  fold_cases :
      (same plus : Bool) (later o first : Option (R × Bool)) (row : R)
      → keep_or later (
          keep_or
            (if same then if plus then some (row, true) else keep_or o (some (row, false)) else o)
            first)
        ≡ keep_or
            (keep_or later (if same then if plus then some (row, true) else none else none))
            (keep_or o (if same then some (row, false) else first))
  fold_cases same plus (some l) o first row = refl
  fold_cases false plus none o first row = refl
  fold_cases true true none o first row = refl
  fold_cases true false none none first row = refl
  fold_cases true false none (some x) first row = refl

  latest_rows-fold :
      (delta : List (R × ℤ)) (m : Map Text (R × Bool)) (pk : Text)
      → lookup pk (latest_rows_by_pk delta m)
        ≡ keep_or (last_positive pk delta) (keep_or (lookup pk m) (first_row pk delta))
  unfolding latest_rows_by_pk last_positive first_row
  latest_rows-fold [] m pk = keep_none (lookup pk m)
  latest_rows-fold ((row, w) ∷ delta) m pk =
      latest_rows-fold delta (fold_row (row, w) m) pk
      ∙ ap (λ o. keep_or (last_positive pk delta) (keep_or o (first_row pk delta)))
          (lookup-fold_row row w pk m)
      ∙ fold_cases (key row == pk) (is_positive w) (last_positive pk delta) (lookup pk m)
          (first_row pk delta) row

  -- For each key, the delta comes to the last row with a positive weight, which still exists, or
  -- where there is none to the first row of the key, which does not.
  pub latest_rows_by_pk-latest :
      (delta : List (R × ℤ)) (pk : Text)
      → lookup pk (latest_rows_by_pk delta [])
        ≡ keep_or (last_positive pk delta) (first_row pk delta)
  unfolding lookup
  latest_rows_by_pk-latest delta pk = latest_rows-fold delta [] pk
