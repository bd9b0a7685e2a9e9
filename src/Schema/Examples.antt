-- ===== src/Schema/Examples.antt =====
-- Runs of apps/engine/src/schema.rs: keys with the separator in a component, a definition that
-- compiles, and a row that is written and read.
use electric_circuits.Prelude.{
  ◌≡◌, ◌⊎◌, refl, none, some, List, [], ◌∷◌, arith, ◌>>=◌, nat_ord, list_ord, false, ℕ, Memᴰ, ◌↔◌,
}
use electric_circuits.Value.{Text, pos}
use electric_circuits.Value.Encoding.{int_column, text_column}
use electric_circuits.Value.Sample.{scalars, scalars-Laws}
use electric_circuits.Schema.Keys.{
  escape_chars, join_more, escape_key_component, join_key_components, join_key_components-injective,
}
use electric_circuits.Schema.Compile.{
  TableDef, TableSchema, from_def, compiled_columns, DistinctNames, IsCompiled, PkNames, BadKey,
  from_def-IsCompiled, column_index, FingerprintColumn, SchemaFingerprint,
}
use electric_circuits.Schema.Rows.{row_from_json, row_to_json_cols, row_from_json-row_to_json}
use electric_circuits.Schema.Columns.{resolve_columns}
use electric_circuits.Schema.Projected.{Ascending, IsNamed, resolve_columns-exact}
use electric_circuits.Schema.Drift.{describe_drift, still_serves, no_drift}
use electric_circuits.Schema.Serves.{describe_drift-still_serves}
use electric_circuits.Schema.Sample.{
  objects, objects-Laws, id_name, name_name, users, users-DistinctNames, ann,
}

-- `a` and `b` with the separator between, as one component, and as two.
abbrev glued : List Text
glued = (97 ∷ 31 ∷ 98 ∷ []) ∷ [] ∷ []

glued_key : join_key_components glued ≡ 97 ∷ 92 ∷ 120 ∷ 49 ∷ 102 ∷ 98 ∷ 31 ∷ []
unfolding join_key_components escape_key_component escape_chars join_more
glued_key = refl

join_key_components-injective_example : glued ≡ glued
join_key_components-injective_example = join_key_components-injective glued glued refl refl

abbrev users_def : TableDef
users_def = record {
  columns =
      (id_name, record { ty = int_column; pg_type = none; has_default = false })
      ∷ (name_name, record { ty = text_column; pg_type = none; has_default = false })
      ∷ [];
  primary_key = id_name ∷ [];
  fingerprint = none;
}

users_distinct : DistinctNames (compiled_columns users_def)
users_distinct = ((refl, tt), (tt, tt))

from_def-IsCompiled_example :
    ((ts : TableSchema) × (from_def (b'u' ∷ []) users_def ≡ some ts)
      × IsCompiled ts
      × PkNames ts.columns users_def.primary_key ts.pk_cols)
    ⊎ ((from_def (b'u' ∷ []) users_def ≡ none) × BadKey users_def users_def.primary_key)
from_def-IsCompiled_example = from_def-IsCompiled (b'u' ∷ []) users_def users_distinct

row_from_json-row_to_json_example :
    (objects.as_object (row_to_json_cols scalars objects users ann none)
      >>= row_from_json scalars users)
    ≡ some ann
row_from_json-row_to_json_example =
    row_from_json-row_to_json scalars objects users ann scalars-Laws objects-Laws
      users-DistinctNames (omega arith, tt, (tt, tt, tt))

abbrev id_column : FingerprintColumn
id_column = record { name = 105 ∷ []; type_oid = 20; typmod = pos 0 }

abbrev name_column : FingerprintColumn
name_column = record { name = 110 ∷ []; type_oid = 25; typmod = pos 0 }

abbrev before : SchemaFingerprint
before = record {
  columns = id_column ∷ name_column ∷ [];
  replident = 102;
  pk = some ((105 ∷ []) ∷ []);
}

-- The columns in another order.
abbrev after : SchemaFingerprint
after = record { columns = name_column ∷ id_column ∷ []; replident = 102; pk = none }

describe_drift-still_serves_example :
    no_drift (describe_drift before after) ≡ still_serves before after
describe_drift-still_serves_example =
    describe_drift-still_serves before after ((refl, tt), (tt, tt)) ((refl, tt), (tt, tt))

-- The name column, with which the key column comes.
abbrev wanted : List Text
wanted = name_name ∷ []

resolve_columns-exact_example :
    ((idxs : List ℕ) × (resolve_columns users (some wanted) ≡ some (some idxs))
      × Ascending idxs
      × ((i : ℕ) → Memᴰ i idxs ↔ (IsNamed users wanted i ⊎ Memᴰ i users.pk_cols)))
    ⊎ ((resolve_columns users (some wanted) ≡ none)
        × ((name : Text) × Memᴰ name wanted × (column_index users name ≡ none)))
resolve_columns-exact_example = resolve_columns-exact users wanted
