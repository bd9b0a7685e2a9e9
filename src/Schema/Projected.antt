-- ===== src/Schema/Projected.antt =====
-- apps/engine/src/engine/executors.rs, `resolve_columns`: which positions a projection has.
use electric_circuits.Prelude.{
  false_true, ℕ, ◌≡◌, ◌<◌, ◌⊎◌, refl, ◌∙◌, sym, ap, subst, inl, inr, true, false, ◌↔◌, of_either,
  in_either, bind-some, none, some, List, [], ◌∷◌, ◌++◌, arith, ◌==◌, ◌>>=◌, ==_eq, nat_ord,
  list_ord, if◌then◌else◌, Bool-cases, some_inj, some_none, Memᴰ, Option-cases, member, sort,
  Memᴰ-of_sort, Memᴰ-sort, Climbs, Sorted, sort-Sorted, is_le,
}
use electric_circuits.Value.{Text}
use electric_circuits.Schema.Compile.{TableSchema, column_index}
use electric_circuits.Schema.Columns.{
  named_columns, add_key, add_keys, dedup_after, dedup, projected, resolve_columns,
}

-- Each position is below the next.
abbrev pub Ascends : ℕ → List ℕ → Type 0
Ascends x [] = Unit
Ascends x (y ∷ ys) = (x < y) × Ascends y ys

abbrev pub Ascending : List ℕ → Type 0
Ascending [] = Unit
Ascending (x ∷ xs) = Ascends x xs

below : (x y : ℕ) → is_le (nat_ord.cmp x y) ≡ true → (x == y) ≡ false → x < y
below x y h n = ground arith

dedup_after-Ascends : (x : ℕ) (ys : List ℕ) → Climbs x ys → Ascends x (dedup_after x ys)
unfolding dedup_after
dedup_after-Ascends x [] c = tt
dedup_after-Ascends x (y ∷ ys) (h, c) = elim (Bool-cases (x == y)) [
  | inl e ↦ rw e (dedup_after-Ascends x ys (subst (λ z. Climbs z ys) (sym (==_eq x y e)) c))
  | inr n ↦ rw n (below x y h n, dedup_after-Ascends y ys c)
]

dedup-Ascending : (xs : List ℕ) → Sorted xs → Ascending (dedup xs)
unfolding dedup
dedup-Ascending [] c = tt
dedup-Ascending (x ∷ xs) c = dedup_after-Ascends x xs c

of_dedup_after : (b x : ℕ) (ys : List ℕ) → Memᴰ b (dedup_after x ys) → Memᴰ b ys
unfolding dedup_after
of_dedup_after b x [] m = m
of_dedup_after b x (y ∷ ys) m =
    elim (of_either (x == y) b (dedup_after x ys) (y ∷ dedup_after y ys) m) [
      | inl t ↦ Memᴰ.tail (of_dedup_after b x ys t)
      | inr (Memᴰ.head e) ↦ Memᴰ.head e
      | inr (Memᴰ.tail t) ↦ Memᴰ.tail (of_dedup_after b y ys t)
    ]

to_dedup_after : (b x : ℕ) (ys : List ℕ) → Memᴰ b ys → (b ≡ x) ⊎ Memᴰ b (dedup_after x ys)
unfolding dedup_after
to_dedup_after b x [] m = inr m
to_dedup_after b x (y ∷ ys) (Memᴰ.head h) = elim (Bool-cases (x == y)) [
  | inl e ↦ inl (h ∙ sym (==_eq x y e))
  | inr n ↦ rw n (inr (Memᴰ.head h))
]
to_dedup_after b x (y ∷ ys) (Memᴰ.tail t) = elim (Bool-cases (x == y)) [
  | inl e ↦ rw e (to_dedup_after b x ys t)
  | inr n ↦
      rw n
        (elim (to_dedup_after b y ys t) [ inl h ↦ inr (Memᴰ.head h) | inr u ↦ inr (Memᴰ.tail u) ])
]

of_dedup : (b : ℕ) (xs : List ℕ) → Memᴰ b (dedup xs) → Memᴰ b xs
unfolding dedup
of_dedup b [] m = m
of_dedup b (x ∷ xs) (Memᴰ.head e) = Memᴰ.head e
of_dedup b (x ∷ xs) (Memᴰ.tail t) = Memᴰ.tail (of_dedup_after b x xs t)

to_dedup : (b : ℕ) (xs : List ℕ) → Memᴰ b xs → Memᴰ b (dedup xs)
unfolding dedup
to_dedup b [] m = m
to_dedup b (x ∷ xs) (Memᴰ.head e) = Memᴰ.head e
to_dedup b (x ∷ xs) (Memᴰ.tail t) = elim (to_dedup_after b x xs t) [
  | inl e ↦ Memᴰ.head e
  | inr u ↦ Memᴰ.tail u
]

member-Memᴰ : (b : ℕ) (xs : List ℕ) → member b xs ≡ true → Memᴰ b xs
unfolding member
member-Memᴰ b [] h = absurd (false_true h)
member-Memᴰ b (x ∷ xs) h = elim (Bool-cases (x == b)) [
  | inl e ↦ Memᴰ.head (sym (==_eq x b e))
  | inr n ↦ Memᴰ.tail (member-Memᴰ b xs (ap (λ t. if t then true else member b xs) (sym n) ∙ h))
]

of_snoc : (b y : ℕ) (xs : List ℕ) → Memᴰ b (xs ++ y ∷ []) → Memᴰ b xs ⊎ (b ≡ y)
of_snoc b y [] (Memᴰ.head e) = inr e
of_snoc b y [] (Memᴰ.tail m) = inl m
of_snoc b y (x ∷ xs) (Memᴰ.head e) = inl (Memᴰ.head e)
of_snoc b y (x ∷ xs) (Memᴰ.tail t) = elim (of_snoc b y xs t) [
  | inl u ↦ inl (Memᴰ.tail u)
  | inr e ↦ inr e
]

to_snoc : (b y : ℕ) (xs : List ℕ) → Memᴰ b xs ⊎ (b ≡ y) → Memᴰ b (xs ++ y ∷ [])
to_snoc b y [] (inl m) = absurd (elim m [ ])
to_snoc b y [] (inr e) = Memᴰ.head e
to_snoc b y (x ∷ xs) (inl (Memᴰ.head e)) = Memᴰ.head e
to_snoc b y (x ∷ xs) (inl (Memᴰ.tail t)) = Memᴰ.tail (to_snoc b y xs (inl t))
to_snoc b y (x ∷ xs) (inr e) = Memᴰ.tail (to_snoc b y xs (inr e))

of_add_key : (b pk : ℕ) (idxs : List ℕ) → Memᴰ b (add_key pk idxs) → Memᴰ b idxs ⊎ (b ≡ pk)
of_add_key b pk idxs m = elim (of_either (member pk idxs) b idxs (idxs ++ pk ∷ []) m) [
  | inl t ↦ inl t
  | inr t ↦ of_snoc b pk idxs t
]

to_add_key : (b pk : ℕ) (idxs : List ℕ) → Memᴰ b idxs ⊎ (b ≡ pk) → Memᴰ b (add_key pk idxs)
to_add_key b pk idxs (inl m) =
    in_either (member pk idxs) b idxs (idxs ++ pk ∷ []) m (to_snoc b pk idxs (inl m))
to_add_key b pk idxs (inr e) = elim (Bool-cases (member pk idxs)) [
  | inl h ↦ rw h (subst (λ x. Memᴰ x idxs) (sym e) (member-Memᴰ pk idxs h))
  | inr n ↦ rw n (to_snoc b pk idxs (inr e))
]

of_add_keys : (b : ℕ) (pks idxs : List ℕ) → Memᴰ b (add_keys pks idxs) → Memᴰ b idxs ⊎ Memᴰ b pks
unfolding add_keys
of_add_keys b [] idxs m = inl m
of_add_keys b (pk ∷ pks) idxs m = elim (of_add_keys b pks (add_key pk idxs) m) [
  | inr t ↦ inr (Memᴰ.tail t)
  | inl t ↦ (elim (of_add_key b pk idxs t) [ inl u ↦ inl u | inr e ↦ inr (Memᴰ.head e) ])
]

to_add_keys : (b : ℕ) (pks idxs : List ℕ) → Memᴰ b idxs ⊎ Memᴰ b pks → Memᴰ b (add_keys pks idxs)
unfolding add_keys
to_add_keys b [] idxs (inl m) = m
to_add_keys b [] idxs (inr m) = absurd (elim m [ ])
to_add_keys b (pk ∷ pks) idxs (inl m) =
    to_add_keys b pks (add_key pk idxs) (inl (to_add_key b pk idxs (inl m)))
to_add_keys b (pk ∷ pks) idxs (inr (Memᴰ.head e)) =
    to_add_keys b pks (add_key pk idxs) (inl (to_add_key b pk idxs (inr e)))
to_add_keys b (pk ∷ pks) idxs (inr (Memᴰ.tail t)) = to_add_keys b pks (add_key pk idxs) (inr t)

-- The position of one of the names.
abbrev pub IsNamed : TableSchema → List Text → ℕ → Type 0
IsNamed ts names i = (name : Text) × Memᴰ name names × (column_index ts name ≡ some i)

of_IsNamed :
    (ts : TableSchema) (names : List Text) (is : List ℕ) (i : ℕ)
    → named_columns ts names ≡ some is
    → Memᴰ i is
    → IsNamed ts names i
of_IsNamed ts [] is i h m = absurd (elim (subst (Memᴰ i) (sym (some_inj h)) m) [ ])
of_IsNamed ts (name ∷ names) is i h m =
    let (j, here, g) =
      bind-some (column_index ts name) (λ j. named_columns ts names >>= λ js. some (j ∷ js)) h in
    let (js, rest, e) = bind-some (named_columns ts names) (λ js. some (j ∷ js)) g in
    first_or_rest j js here (of_IsNamed ts names js i rest) (subst (Memᴰ i) (sym (some_inj e)) m)
  where
    first_or_rest :
        (j : ℕ) (js : List ℕ)
        → column_index ts name ≡ some j
        → (Memᴰ i js → IsNamed ts names i)
        → Memᴰ i (j ∷ js)
        → IsNamed ts (name ∷ names) i
    first_or_rest j js here again (Memᴰ.head e) = (name, Memᴰ.head refl, here ∙ ap some (sym e))
    first_or_rest j js here again (Memᴰ.tail t) = let (n, mn, en) = again t in (n, Memᴰ.tail mn, en)

to_IsNamed :
    (ts : TableSchema) (names : List Text) (is : List ℕ) (i : ℕ) (name : Text)
    → named_columns ts names ≡ some is
    → Memᴰ name names
    → column_index ts name ≡ some i
    → Memᴰ i is
to_IsNamed ts [] is i name h m e = absurd (elim m [ ])
to_IsNamed ts (n ∷ names) is i name h m e =
    let (j, here, g) =
      bind-some (column_index ts n) (λ j. named_columns ts names >>= λ js. some (j ∷ js)) h in
    let (js, rest, eq) = bind-some (named_columns ts names) (λ js. some (j ∷ js)) g in
    subst (Memᴰ i) (some_inj eq)
      (first_or_rest j js here (λ t. to_IsNamed ts names js i name rest t e) m)
  where
    first_or_rest :
        (j : ℕ) (js : List ℕ)
        → column_index ts n ≡ some j
        → (Memᴰ name names → Memᴰ i js)
        → Memᴰ name (n ∷ names)
        → Memᴰ i (j ∷ js)
    first_or_rest j js here again (Memᴰ.head s) =
        Memᴰ.head (some_inj (sym e ∙ ap (column_index ts) s ∙ here))
    first_or_rest j js here again (Memᴰ.tail t) = Memᴰ.tail (again t)

unknown :
    (ts : TableSchema) (names : List Text)
    → named_columns ts names ≡ none
    → (name : Text) × Memᴰ name names × (column_index ts name ≡ none)
unknown ts [] h = absurd (some_none h)
unknown ts (name ∷ names) h = elim (Option-cases (column_index ts name)) [
  | inl missing ↦ (name, Memᴰ.head refl, missing)
  | inr (i, here) ↦ (elim (Option-cases (named_columns ts names)) [
    | inl missing ↦ let (n, m, e) = unknown ts names missing in (n, Memᴰ.tail m, e)
    | inr (is, rest) ↦ absurd (
        some_none (
          sym (
            ap (λ o. o >>= λ j. named_columns ts names >>= λ js. some (j ∷ js)) here
            ∙ ap (λ o. o >>= λ js. some (i ∷ js)) rest)
          ∙ h))
  ])
]

-- A projection by names becomes the ascending positions of exactly the columns that it names and the
-- key columns, or one of its names is unknown and it is refused.
pub resolve_columns-exact :
    (ts : TableSchema) (names : List Text)
    → ((idxs : List ℕ) × (resolve_columns ts (some names) ≡ some (some idxs))
        × Ascending idxs
        × ((i : ℕ) → Memᴰ i idxs ↔ (IsNamed ts names i ⊎ Memᴰ i ts.pk_cols)))
      ⊎ ((resolve_columns ts (some names) ≡ none)
          × ((name : Text) × Memᴰ name names × (column_index ts name ≡ none)))
unfolding resolve_columns
resolve_columns-exact ts names = elim (Option-cases (named_columns ts names)) [
  | inl missing ↦ inr (ap (projected ts) missing, unknown ts names missing)
  | inr (is, found) ↦
      let all = add_keys ts.pk_cols is in
      inl (
        dedup (sort all),
        ap (projected ts) found,
        dedup-Ascending (sort all) (sort-Sorted all),
        λ i. (
          λ m.
              named_or_key i is found
                (of_add_keys i ts.pk_cols is (Memᴰ-of_sort i all (of_dedup i (sort all) m))),
          λ h.
              to_dedup i (sort all)
                (Memᴰ-sort i all (to_add_keys i ts.pk_cols is (position_or_key i is found h))),
        ),
      )
]
  where
    named_or_key :
        (i : ℕ) (is : List ℕ)
        → named_columns ts names ≡ some is
        → Memᴰ i is ⊎ Memᴰ i ts.pk_cols
        → IsNamed ts names i ⊎ Memᴰ i ts.pk_cols
    named_or_key i is found (inl m) = inl (of_IsNamed ts names is i found m)
    named_or_key i is found (inr m) = inr m

    position_or_key :
        (i : ℕ) (is : List ℕ)
        → named_columns ts names ≡ some is
        → IsNamed ts names i ⊎ Memᴰ i ts.pk_cols
        → Memᴰ i is ⊎ Memᴰ i ts.pk_cols
    position_or_key i is found (inl (name, m, e)) = inl (to_IsNamed ts names is i name found m e)
    position_or_key i is found (inr m) = inr m
