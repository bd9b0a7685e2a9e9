-- ===== src/Schema/Sample.antt =====
-- A table for runs: users, with the columns id (the key) and name.
use electric_circuits.Prelude.{
  true, false, ◌≡◌, refl, ap, Option, none, some, [], ◌∷◌, Map, nat_ord, list_ord,
}
use electric_circuits.Value.{Text, Row, pos, int, text}
use electric_circuits.Value.Encoding.{int_column, text_column}
use electric_circuits.Value.Sample.{Json, json_object, Fields, end, field, Float}
use electric_circuits.Schema.Compile.{TableSchema, DistinctNames}
use electric_circuits.Schema.Rows.{ObjectLib, ObjectLaws}

abbrev pub fields_of : Map Text Json → Fields
fields_of [] = end
fields_of ((k, j) ∷ m) = field k j (fields_of m)

abbrev pub members_of : Fields → Map Text Json
members_of end = []
members_of (field k j fs) = (k, j) ∷ members_of fs

abbrev pub object_members : Json → Option (Map Text Json)
object_members (json_object fs) = some (members_of fs)
object_members _ = none

abbrev pub objects : ObjectLib Json
objects = record { of_object = λ m. json_object (fields_of m); as_object = object_members }

members-fields : (m : Map Text Json) → members_of (fields_of m) ≡ m
members-fields [] = refl
members-fields ((k, j) ∷ m) = ap (λ r. (k, j) ∷ r) (members-fields m)

pub objects-Laws : ObjectLaws objects
objects-Laws = record { object_object = λ m. ap some (members-fields m) }

abbrev pub id_name : Text
id_name = b'i' ∷ b'd' ∷ []

abbrev pub name_name : Text
name_name = b'n' ∷ b'a' ∷ b'm' ∷ b'e' ∷ []

abbrev pub users : TableSchema
users = record {
  table = b'u' ∷ [];
  columns = (id_name, int_column) ∷ (name_name, text_column) ∷ [];
  index = (id_name, 0) ∷ (name_name, 1) ∷ [];
  pk_index = 0;
  pk_name = id_name;
  pk_type = int_column;
  pk_cols = 0 ∷ [];
  pg_types = none ∷ none ∷ [];
  has_defaults = true ∷ false ∷ [];
  fingerprint = none;
}

pub users-DistinctNames : DistinctNames users.columns
users-DistinctNames = ((refl, tt), (tt, tt))

abbrev pub ann : Row Float
ann = int (pos 1) ∷ text (b'a' ∷ []) ∷ []

abbrev pub renamed : Row Float
renamed = int (pos 1) ∷ text (b'z' ∷ []) ∷ []
