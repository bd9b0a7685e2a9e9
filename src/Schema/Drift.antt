-- ===== src/Schema/Drift.antt =====
-- apps/engine/src/schema.rs: `SchemaFingerprint::still_serves` and `describe_drift`. A message is its
-- kind and what its text names. A `BTreeMap` is walked in the order of its keys; the maps here are
-- walked in the order of insertion, so the order of the messages on columns is not modelled.
use electric_circuits.Prelude.{
  ℕ, Bool, true, false, not, ◌&&◌, Option, none, some, List, [], ◌∷◌, ◌++◌, map, ◌==◌, nat_ord,
  list_ord, if◌then◌else◌, Map, lookup, insert,
}
use electric_circuits.Value.{Text, int_ord}
use electric_circuits.Schema.Compile.{FingerprintColumn, SchemaFingerprint}

-- `REPLICA_IDENTITY_FULL`, the byte f.
abbrev pub replica_identity_full : ℕ
replica_identity_full = 102

pub data Drift : Type 0 where
  added : Text → Drift
  dropped : Text → Drift
  retyped : Text → FingerprintColumn → FingerprintColumn → Drift
  reordered : List Text → List Text → Drift
  key_changed : List Text → List Text → Drift
  not_full : ℕ → Drift

abbrev pub same_type : FingerprintColumn → FingerprintColumn → Bool
same_type o c = (o.type_oid == c.type_oid) && (o.typmod == c.typmod)

abbrev pub column_eq : FingerprintColumn → FingerprintColumn → Bool
column_eq o c = (o.name == c.name) && same_type o c

abbrev pub columns_eq : List FingerprintColumn → List FingerprintColumn → Bool
columns_eq [] [] = true
columns_eq (o ∷ os) (c ∷ cs) = column_eq o c && columns_eq os cs
columns_eq _ _ = false

abbrev pub pk_matches : Option (List Text) → Option (List Text) → Bool
pk_matches (some a) (some b) = a == b
pk_matches _ _ = true

unfoldable pub still_serves : SchemaFingerprint → SchemaFingerprint → Bool
still_serves compiled observed =
    columns_eq compiled.columns observed.columns
    && ((observed.replident == replica_identity_full) && pk_matches compiled.pk observed.pk)

abbrev pub column_names : List FingerprintColumn → List Text
column_names columns = map (λ (c : FingerprintColumn). c.name) columns

abbrev pub no_drift : List Drift → Bool
no_drift [] = true
no_drift (d ∷ ds) = false

-- `columns.iter().map(|c| (c.name, c)).collect()`, into the map `m`.
unfoldable pub by_name :
    List FingerprintColumn → Map Text FingerprintColumn → Map Text FingerprintColumn
by_name [] m = m
by_name (c ∷ cs) m = by_name cs (insert c.name c m)

abbrev pub missing_one : (Text → Drift) → Text → Option FingerprintColumn → List Drift → List Drift
missing_one kind name none rest = kind name ∷ rest
missing_one kind name (some c) rest = rest

-- The names of one map that the other has not.
unfoldable pub missing :
    (Text → Drift) → Map Text FingerprintColumn → Map Text FingerprintColumn → List Drift
missing kind other [] = []
missing kind other ((name, c) ∷ m) =
    missing_one kind name (lookup name other) (missing kind other m)

abbrev pub retype_one :
    Text → FingerprintColumn → Option FingerprintColumn → List Drift → List Drift
retype_one name c none rest = rest
retype_one name c (some o) rest = if same_type o c then rest else retyped name o c ∷ rest

unfoldable pub retypes : Map Text FingerprintColumn → Map Text FingerprintColumn → List Drift
retypes old [] = []
retypes old ((name, c) ∷ m) = retype_one name c (lookup name old) (retypes old m)

abbrev pub columns_drift : List FingerprintColumn → List FingerprintColumn → List Drift
columns_drift compiled observed =
    let old = by_name compiled [] in
    let new = by_name observed [] in
    missing added old new ++ (missing dropped new old ++ retypes old new)

abbrev pub with_order : List FingerprintColumn → List FingerprintColumn → List Drift → List Drift
with_order compiled observed out =
    if no_drift out && not (column_names compiled == column_names observed)
    then out ++ reordered (column_names compiled) (column_names observed) ∷ []
    else out

abbrev pub key_drift : Option (List Text) → Option (List Text) → List Drift
key_drift (some before) (some after) = if before == after then [] else key_changed before after ∷ []
key_drift _ _ = []

abbrev pub identity_drift : ℕ → List Drift
identity_drift replident =
    if replident == replica_identity_full then [] else not_full replident ∷ []

unfoldable pub describe_drift : SchemaFingerprint → SchemaFingerprint → List Drift
describe_drift compiled observed =
    with_order compiled.columns observed.columns (columns_drift compiled.columns observed.columns)
    ++ (key_drift compiled.pk observed.pk ++ identity_drift observed.replident)
