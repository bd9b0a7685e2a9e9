-- ===== src/Schema/Compile.antt =====
-- apps/engine/src/schema.rs, `TableSchema::from_def`: the compiled, positional view of one table.
-- A `BTreeMap` is its entries in ascending order of their keys; `none` is an error.
use electric_circuits.Prelude.{
  ℕ, zero, suc, ◌+◌, ◌≡◌, refl, ◌∙◌, sym, ap, Bool, false, Option, none, some, List, [], ◌∷◌, map,
  arith, get_elem?, ◌==◌, ◌>>=◌, ==_eq, ==_refl, ◌⊎◌, nat_ord, list_ord, Map, lookup, insert,
  lookup-insert, All, Bool-cases, inl, inr, some_inj, some_none, Memᴰ, Option-cases,
}
use electric_circuits.Value.{ℤ, Text}
use electric_circuits.Value.Encoding.{ColumnType}

pub record FingerprintColumn : Type 0 where
  pub name : Text
  pub type_oid : ℕ
  pub typmod : ℤ

pub record SchemaFingerprint : Type 0 where
  pub columns : List FingerprintColumn
  pub replident : ℕ
  pub pk : Option (List Text)

pub record ColumnDef : Type 0 where
  pub ty : ColumnType
  pub pg_type : Option Text
  pub has_default : Bool

pub record TableDef : Type 0 where
  pub columns : Map Text ColumnDef
  pub primary_key : List Text
  pub fingerprint : Option SchemaFingerprint

pub record TableSchema : Type 0 where
  pub table : Text
  pub columns : List (Text × ColumnType)
  pub index : Map Text ℕ
  pub pk_index : ℕ
  pub pk_name : Text
  pub pk_type : ColumnType
  pub pk_cols : List ℕ
  pub pg_types : List (Option Text)
  pub has_defaults : List Bool
  pub fingerprint : Option SchemaFingerprint

-- `columns.iter().enumerate()` collected into a map, from the position `i` on.
unfoldable pub index_from : ℕ → List (Text × ColumnType) → Map Text ℕ → Map Text ℕ
index_from i [] m = m
index_from i ((c, ty) ∷ cols) m = index_from (suc i) cols (insert c i m)

unfoldable pub positions : Map Text ℕ → List Text → Option (List ℕ)
positions index [] = some []
positions index (c ∷ cs) = do i ← lookup c index; is ← positions index cs; some (i ∷ is)

abbrev pub compiled_columns : TableDef → List (Text × ColumnType)
compiled_columns def = map (λ (c : Text × ColumnDef). (c.0, c.1.ty)) def.columns

abbrev pub compiled : Text → TableDef → Text → List ℕ → ℕ → ColumnType → TableSchema
compiled table def name pk_cols i ty = record {
  table = table;
  columns = compiled_columns def;
  index = index_from 0 (compiled_columns def) [];
  pk_index = i;
  pk_name = name;
  pk_type = ty;
  pk_cols = pk_cols;
  pg_types = map (λ (c : Text × ColumnDef). c.1.pg_type) def.columns;
  has_defaults = map (λ (c : Text × ColumnDef). c.1.has_default) def.columns;
  fingerprint = def.fingerprint;
}

-- With the first key column.
abbrev pub build : Text → TableDef → Text → List ℕ → Option TableSchema
build table def name [] = none
build table def name (i ∷ is) = do
  c ← get_elem? (compiled_columns def) i
  some (compiled table def name (i ∷ is) i c.1)

abbrev pub from_keys : Text → TableDef → List Text → Option TableSchema
from_keys table def [] = none
from_keys table def (name ∷ names) = do
  is ← positions (index_from 0 (compiled_columns def) []) (name ∷ names)
  build table def name is

unfoldable pub from_def : Text → TableDef → Option TableSchema
from_def table def = from_keys table def def.primary_key

abbrev pub column_index : TableSchema → Text → Option ℕ
column_index ts col = lookup col ts.index

add_zero : (k : ℕ) → k + 0 ≡ k
add_zero k = omega arith

zero_add : (k : ℕ) → 0 + k ≡ k
zero_add k = omega arith

-- Each name stands once, as the keys of a map do.
abbrev pub Fresh : Text → List (Text × ColumnType) → Type 0
Fresh c cols = All (λ d. (d.0 == c) ≡ false) cols

abbrev pub DistinctNames : List (Text × ColumnType) → Type 0
DistinctNames [] = Unit
DistinctNames (d ∷ cols) = Fresh d.0 cols × DistinctNames cols

index_from-Fresh :
    (k : ℕ) (cols : List (Text × ColumnType)) (m : Map Text ℕ) (c : Text)
    → Fresh c cols
    → lookup c (index_from k cols m) ≡ lookup c m
unfolding index_from
index_from-Fresh k [] m c h = refl
index_from-Fresh k ((d, ty) ∷ cols) m c h =
    index_from-Fresh (suc k) cols (insert d k m) c h.1 ∙ lookup-insert d c k m ∙ rw h.0 refl

pub index_from-finds :
    (k : ℕ) (cols : List (Text × ColumnType)) (m : Map Text ℕ) (j : ℕ) (c : Text) (ty : ColumnType)
    → DistinctNames cols
    → get_elem? cols j ≡ some (c, ty)
    → lookup c (index_from k cols m) ≡ some (k + j)
unfolding index_from
index_from-finds k [] m j c ty h e = absurd (some_none (sym e))
index_from-finds k ((d, dt) ∷ cols) m zero c ty h e =
    let same = ap (λ (p : Text × ColumnType). p.0) (some_inj e) in
    rw⁻¹ same (
      index_from-Fresh (suc k) cols (insert d k m) d h.0
      ∙ lookup-insert d d k m
      ∙ rw (==_refl d) (ap some (omega arith)))
index_from-finds k ((d, dt) ∷ cols) m (suc j) c ty h e =
    index_from-finds (suc k) cols (insert d k m) j c ty h.1 e ∙ ap some (omega arith)

pub index_from-names :
    (k : ℕ) (cols : List (Text × ColumnType)) (m : Map Text ℕ) (c : Text) (i : ℕ)
    → lookup c (index_from k cols m) ≡ some i
    → ((j : ℕ) × (ty : ColumnType) × (i ≡ k + j) × (get_elem? cols j ≡ some (c, ty)))
      ⊎ (lookup c m ≡ some i)
unfolding index_from
index_from-names k [] m c i e = inr e
index_from-names k ((d, dt) ∷ cols) m c i e =
    elim (index_from-names (suc k) cols (insert d k m) c i e) [
      | inl (j, ty, h, g) ↦ inl (suc j, ty, omega arith, g)
      | inr h ↦ (elim (Bool-cases (d == c)) [
        | inl same ↦ inl (
          0,
          dt,
          sym (some_inj (sym (lookup-insert d c k m ∙ rw same refl) ∙ h)) ∙ sym (add_zero k),
          ap (λ x. some (x, dt)) (==_eq d c same),
        )
        | inr other ↦ inr (sym (lookup-insert d c k m ∙ rw other refl) ∙ h)
      ])
    ]

-- The index of a compiled table gives each column's position, and the key columns are its columns.
pub record IsCompiled (ts : TableSchema) : Type 0 where
  pub distinct : DistinctNames ts.columns
  pub indexed :
      (c : Text) (i : ℕ)
      → lookup c ts.index ≡ some i
      → (ty : ColumnType) × (get_elem? ts.columns i ≡ some (c, ty))
  pub found :
      (c : Text) (i : ℕ) (ty : ColumnType)
      → get_elem? ts.columns i ≡ some (c, ty)
      → lookup c ts.index ≡ some i
  pub keyed : All (λ i. (c : Text × ColumnType) × (get_elem? ts.columns i ≡ some c)) ts.pk_cols

abbrev pub PkNames : List (Text × ColumnType) → List Text → List ℕ → Type 0
PkNames cols [] [] = Unit
PkNames cols (n ∷ ns) (i ∷ is) =
    ((ty : ColumnType) × (get_elem? cols i ≡ some (n, ty))) × PkNames cols ns is
PkNames cols _ _ = ⊥

-- No table: it has no key columns, or one that is not a column.
abbrev pub BadKey : TableDef → List Text → Type 0
BadKey def names =
    (names ≡ [])
    ⊎ ((c : Text) × Memᴰ c names × (lookup c (index_from 0 (compiled_columns def) []) ≡ none))

index_sound :
    (cols : List (Text × ColumnType)) (c : Text) (i : ℕ)
    → lookup c (index_from 0 cols []) ≡ some i
    → (ty : ColumnType) × (get_elem? cols i ≡ some (c, ty))
unfolding lookup
index_sound cols c i e = elim (index_from-names 0 cols [] c i e) [
  | inl (j, ty, h, g) ↦ (ty, ap (get_elem? cols) (h ∙ zero_add j) ∙ g)
  | inr h ↦ absurd (some_none (sym h))
]

positions-PkNames :
    (cols : List (Text × ColumnType)) (names : List Text)
    → ((is : List ℕ) × (positions (index_from 0 cols []) names ≡ some is) × PkNames cols names is)
      ⊎ ((positions (index_from 0 cols []) names ≡ none)
          × ((c : Text) × Memᴰ c names × (lookup c (index_from 0 cols []) ≡ none)))
unfolding positions
positions-PkNames cols [] = inl ([], refl, tt)
positions-PkNames cols (n ∷ ns) = elim (Option-cases (lookup n (index_from 0 cols []))) [
  | inl e ↦ inr (rw e refl, (n, Memᴰ.head refl, e))
  | inr (i, e) ↦ (elim (positions-PkNames cols ns) [
    | inl (is, h, p) ↦ inl (i ∷ is, rw e (rw h refl), (index_sound cols n i e, p))
    | inr (h, (c, m, g)) ↦ inr (rw e (rw h refl), (c, Memᴰ.tail m, g))
  ])
]

PkNames-keyed :
    (cols : List (Text × ColumnType)) (names : List Text) (is : List ℕ)
    → PkNames cols names is
    → All (λ i. (c : Text × ColumnType) × (get_elem? cols i ≡ some c)) is
PkNames-keyed cols [] [] h = tt
PkNames-keyed cols [] (i ∷ is) h = elim h [ ]
PkNames-keyed cols (n ∷ ns) [] h = elim h [ ]
PkNames-keyed cols (n ∷ ns) (i ∷ is) ((ty, e), rest) = (((n, ty), e), PkNames-keyed cols ns is rest)

abbrev Compiles : Text → TableDef → List Text → Type 0
Compiles table def names =
    (ts : TableSchema) × (from_keys table def names ≡ some ts)
    × IsCompiled ts
    × PkNames ts.columns names ts.pk_cols

build_lem :
    (table : Text) (def : TableDef) (name : Text) (names : List Text) (is : List ℕ)
    → DistinctNames (compiled_columns def)
    → positions (index_from 0 (compiled_columns def) []) (name ∷ names) ≡ some is
    → PkNames (compiled_columns def) (name ∷ names) is
    → Compiles table def (name ∷ names)
build_lem table def name names [] d h p = elim p [ ]
build_lem table def name names (i ∷ is) d h ((ty, e), p) = (
  compiled table def name (i ∷ is) i ty,
  rw h (rw e refl),
  record {
    distinct = d;
    indexed = index_sound (compiled_columns def);
    found =
        λ c j t g. index_from-finds 0 (compiled_columns def) [] j c t d g ∙ ap some (zero_add j);
    keyed = PkNames-keyed (compiled_columns def) (name ∷ names) (i ∷ is) ((ty, e), p);
  },
  ((ty, e), p),
)

from_keys_lem :
    (table : Text) (def : TableDef) (names : List Text)
    → DistinctNames (compiled_columns def)
    → Compiles table def names ⊎ ((from_keys table def names ≡ none) × BadKey def names)
from_keys_lem table def [] d = inr (refl, inl refl)
from_keys_lem table def (name ∷ names) d =
    elim (positions-PkNames (compiled_columns def) (name ∷ names)) [
      | inl (is, h, p) ↦ inl (build_lem table def name names is d h p)
      | inr (h, c) ↦ inr (rw h refl, inr c)
    ]

-- A definition whose columns have different names compiles, to a table whose index gives the
-- position of every column and of no other name, with the key columns in their order; or it has no
-- key column or one that is not a column, and there is no table.
pub from_def-IsCompiled :
    (table : Text) (def : TableDef)
    → DistinctNames (compiled_columns def)
    → ((ts : TableSchema) × (from_def table def ≡ some ts)
        × IsCompiled ts
        × PkNames ts.columns def.primary_key ts.pk_cols)
      ⊎ ((from_def table def ≡ none) × BadKey def def.primary_key)
unfolding from_def
from_def-IsCompiled table def d = from_keys_lem table def def.primary_key d
