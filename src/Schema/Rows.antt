-- ===== src/Schema/Rows.antt =====
-- apps/engine/src/schema.rs, `TableSchema`: the key string of a row, and rows as JSON objects. An
-- object of serde_json is a map; `none` is an error.
use electric_circuits.Prelude.{
  true_false, ℕ, zero, suc, ◌+◌, ◌<◌, ◌≡◌, refl, ◌∙◌, sym, ap, Option, none, some, List, [], ◌∷◌,
  ◌++◌, map, arith, length, get_elem?, ◌==◌, ◌>>=◌, ==_eq, ==_refl, nat_ord, list_ord, Map, lookup,
  insert, lookup-insert, Memᴰ, Bool-cases, ◌⊎◌, inl, inr, some_inj, some_none,
}
use electric_circuits.Value.{Text, Value, Row, cell_at, or_null}
use electric_circuits.Value.Encoding.{
  ColumnType, JsonLib, JsonLaws, from_json, to_json, to_key_string, Typed, HasJson,
}
use electric_circuits.Value.RoundTrip.{from_json-to_json}
use electric_circuits.Schema.Keys.{join_key_components}
use electric_circuits.Schema.Compile.{TableSchema, DistinctNames, index_from, index_from-finds}

-- A JSON object, by its members.
pub record ObjectLib (J : Type 0) : Type 0 where
  pub of_object : Map Text J → J
  pub as_object : J → Option (Map Text J)

-- The documented behaviour: an object has the members it was made of.
pub record ObjectLaws {J : Type 0} (objects : ObjectLib J) : Type 0 where
  pub object_object : (m : Map Text J) → objects.as_object (objects.of_object m) ≡ some m

-- `Row::get` of each key column.
unfoldable pub cells : {F : Type 0} → Row F → List ℕ → Option (List (Value F))
cells row [] = some []
cells row (i ∷ is) = do v ← get_elem? row i; vs ← cells row is; some (v ∷ vs)

-- `0..n`
unfoldable pub upto : ℕ → List ℕ
upto zero = []
upto (suc n) = upto n ++ n ∷ []

get_elem?-lt {ℓ} :
    {A : Type ℓ} (xs : List A) (i : ℕ) (a : A) → get_elem? xs i ≡ some a → i < length xs
get_elem?-lt [] i a e = absurd (some_none (sym e))
get_elem?-lt (x ∷ xs) zero a e = omega arith
get_elem?-lt (x ∷ xs) (suc i) a e = omega (arith, get_elem?-lt xs i a e)

Memᴰ-append_left {ℓ} : {A : Type ℓ} (a : A) (xs ys : List A) → Memᴰ a xs → Memᴰ a (xs ++ ys)
Memᴰ-append_left a [] ys m = elim m [ ]
Memᴰ-append_left a (x ∷ xs) ys (Memᴰ.head e) = Memᴰ.head e
Memᴰ-append_left a (x ∷ xs) ys (Memᴰ.tail m) = Memᴰ.tail (Memᴰ-append_left a xs ys m)

Memᴰ-append_right {ℓ} : {A : Type ℓ} (a : A) (xs ys : List A) → Memᴰ a ys → Memᴰ a (xs ++ ys)
Memᴰ-append_right a [] ys m = m
Memᴰ-append_right a (x ∷ xs) ys m = Memᴰ.tail (Memᴰ-append_right a xs ys m)

Memᴰ-upto : (n i : ℕ) → i < n → Memᴰ i (upto n)
unfolding upto
Memᴰ-upto zero i h = elim h [ ]
Memᴰ-upto (suc n) i h = elim (below n i h) [
  | inl e ↦ Memᴰ-append_right i (upto n) (n ∷ []) (Memᴰ.head e)
  | inr l ↦ Memᴰ-append_left i (upto n) (n ∷ []) (Memᴰ-upto n i l)
]
  where
    below : (n i : ℕ) → i < suc n → (i ≡ n) ⊎ (i < n)
    below n i h = omega arith

names_unique :
    (cols : List (Text × ColumnType)) (i j : ℕ) (c d : Text × ColumnType)
    → DistinctNames cols
    → get_elem? cols i ≡ some c
    → get_elem? cols j ≡ some d
    → c.0 ≡ d.0
    → i ≡ j
names_unique cols i j c d distinct ei ej same =
    let at_i = index_from-finds 0 cols [] i c.0 c.1 distinct ei in
    let at_j = index_from-finds 0 cols [] j d.0 d.1 distinct ej in
    let both : some (0 + i) ≡ some (0 + j) =
      sym at_i ∙ ap (λ n. lookup n (index_from 0 cols [])) same ∙ at_j in
    omega (arith, some_inj both)

abbrev pub name_at : List (Text × ColumnType) → ℕ → Option Text
name_at cols i = get_elem? cols i >>= λ c. some c.0

module _ {J F : Type 0} (lib : JsonLib J F) where
  abbrev pub spell_key : List (Value F) → Text
  spell_key (v ∷ []) = to_key_string lib v
  spell_key vs = join_key_components (map (λ v. to_key_string lib v) vs)

  unfoldable pub key_string : TableSchema → Row F → Option Text
  unfolding cells
  key_string ts row = do vs ← cells row ts.pk_cols; some (spell_key vs)

  -- `obj.get(cname).unwrap_or(&null)`
  abbrev pub member_or_null : Option J → J
  member_or_null none = lib.of_null
  member_or_null (some j) = j

  unfoldable pub row_values : List (Text × ColumnType) → Map Text J → Option (Row F)
  row_values [] obj = some []
  row_values ((cname, cty) ∷ cols) obj = do
    v ← from_json lib (member_or_null (lookup cname obj)) cty
    vs ← row_values cols obj
    some (v ∷ vs)

  unfoldable pub row_from_json : TableSchema → Map Text J → Option (Row F)
  unfolding row_values
  row_from_json ts obj = row_values ts.columns obj

  -- One call of the source's closure `emit`.
  abbrev pub emit_named : Option Text → Value F → Map Text J → Map Text J
  emit_named none v m = m
  emit_named (some cname) v m = insert cname (to_json lib v) m

  unfoldable pub emit_all : List (Text × ColumnType) → Row F → List ℕ → Map Text J → Map Text J
  emit_all cols row [] m = m
  emit_all cols row (i ∷ is) m =
      emit_all cols row is (emit_named (name_at cols i) (cell_at row i) m)

  abbrev pub emitted : TableSchema → Option (List ℕ) → List ℕ
  emitted ts none = upto (length ts.columns)
  emitted ts (some cols) = cols

  unfoldable pub row_members : TableSchema → Row F → Option (List ℕ) → Map Text J
  unfolding emit_all upto
  row_members ts row cols = emit_all ts.columns row (emitted ts cols) []

  unfoldable pub row_to_json_cols : ObjectLib J → TableSchema → Row F → Option (List ℕ) → J
  unfolding row_members
  row_to_json_cols objects ts row cols = objects.of_object (row_members ts row cols)

  -- A row of the table: a cell for each column, of its type.
  abbrev pub RowTyped : Row F → List (Text × ColumnType) → Type 0
  RowTyped [] [] = Unit
  RowTyped (v ∷ vs) ((c, ty) ∷ cols) = Typed lib v ty × HasJson lib v × RowTyped vs cols
  RowTyped _ _ = ⊥

  -- Each column's member is its cell.
  abbrev Members : List (Text × ColumnType) → Row F → Map Text J → Type 0
  Members cols row m =
      (i : ℕ) (c : Text × ColumnType) (v : Value F)
      → get_elem? cols i ≡ some c
      → get_elem? row i ≡ some v
      → lookup c.0 m ≡ some (to_json lib v)

  module _ (laws : JsonLaws lib) where
    row_values-Members :
        (cols : List (Text × ColumnType)) (row : Row F) (m : Map Text J)
        → RowTyped row cols
        → Members cols row m
        → row_values cols m ≡ some row
    unfolding row_values
    row_values-Members [] [] m t h = refl
    row_values-Members [] (v ∷ vs) m t h = elim t [ ]
    row_values-Members ((c, ty) ∷ cols) [] m t h = elim t [ ]
    row_values-Members ((c, ty) ∷ cols) (v ∷ vs) m (tv, jv, ts) h = rw (h 0 (c, ty) v refl refl) (
        rw (from_json-to_json lib laws v ty tv jv)
          (rw (row_values-Members cols vs m ts (λ i. h (suc i))) refl))

  -- A member that is there, or whose column is still to come, is there at the end.
  emit_all-member :
      (cols : List (Text × ColumnType)) (row : Row F) (is : List ℕ) (m : Map Text J) (j : ℕ)
      (c : Text × ColumnType) (v : Value F)
      → DistinctNames cols
      → get_elem? cols j ≡ some c
      → get_elem? row j ≡ some v
      → (lookup c.0 m ≡ some (to_json lib v)) ⊎ Memᴰ j is
      → lookup c.0 (emit_all cols row is m) ≡ some (to_json lib v)
  unfolding emit_all
  emit_all-member cols row [] m j c v distinct ec ev (inl h) = h
  emit_all-member cols row [] m j c v distinct ec ev (inr h) = elim h [ ]
  emit_all-member cols row (i ∷ is) m j c v distinct ec ev h =
      emit_all-member cols row is (emit_named (name_at cols i) (cell_at row i) m) j c v distinct ec
        ev (step (get_elem? cols i) refl h)
    where
      step :
          (o : Option (Text × ColumnType))
          → get_elem? cols i ≡ o
          → (lookup c.0 m ≡ some (to_json lib v)) ⊎ Memᴰ j (i ∷ is)
          → (lookup c.0 (emit_named (o >>= λ d. some d.0) (cell_at row i) m) ≡ some (to_json lib v))
            ⊎ Memᴰ j is
      step none e (inl h) = inl h
      step none e (inr (Memᴰ.head s)) = absurd (some_none (sym ec ∙ ap (get_elem? cols) s ∙ e))
      step none e (inr (Memᴰ.tail t)) = inr t
      step (some d) e h = elim (Bool-cases (d.0 == c.0)) [
        | inl same ↦
            let here = names_unique cols i j d c distinct e ec (==_eq d.0 c.0 same) in
            inl (
              lookup-insert d.0 c.0 (to_json lib (cell_at row i)) m
              ∙ rw same (ap (λ x. some (to_json lib (or_null x))) (ap (get_elem? row) here ∙ ev)))
        | inr other ↦ (elim h [
          | inl was ↦ inl (lookup-insert d.0 c.0 (to_json lib (cell_at row i)) m ∙ rw other was)
          | inr (Memᴰ.head s) ↦ absurd (
              true_false
                (ap (λ x. x == c.0)
                    (ap (λ (x : Text × ColumnType). x.0)
                      (some_inj (sym e ∙ ap (get_elem? cols) (sym s) ∙ ec)))
                  ∙ ==_refl c.0)
                other)
          | inr (Memᴰ.tail t) ↦ inr t
        ])
      ]

  row_members-Members :
      (ts : TableSchema) (row : Row F)
      → DistinctNames ts.columns
      → Members ts.columns row (row_members ts row none)
  unfolding row_members
  row_members-Members ts row distinct i c v ec ev =
      emit_all-member ts.columns row (upto (length ts.columns)) [] i c v distinct ec ev
        (inr (Memᴰ-upto (length ts.columns) i (get_elem?-lt ts.columns i c ec)))

  -- Where the JSON library behaves as documented, a row of the table, whose column names differ, is
  -- read back from the object that it is written to.
  pub row_from_json-row_to_json :
      (objects : ObjectLib J) (ts : TableSchema) (row : Row F)
      → JsonLaws lib
      → ObjectLaws objects
      → DistinctNames ts.columns
      → RowTyped row ts.columns
      → (objects.as_object (row_to_json_cols objects ts row none) >>= row_from_json ts) ≡ some row
  unfolding row_to_json_cols row_from_json
  row_from_json-row_to_json objects ts row laws object_laws distinct typed =
      rw (object_laws.object_object (row_members ts row none)) (
        row_values-Members laws ts.columns row (row_members ts row none) typed
          (row_members-Members ts row distinct))
