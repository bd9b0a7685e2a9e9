-- ===== src/Value/Encoding.antt =====
-- apps/engine/src/value.rs: the encodings of a cell as JSON and as a key. serde_json and the
-- standard library's text of floats are an interface; `none` is an error.
use electric_circuits.Prelude.{
  ℕ, suc, ◌≡◌, Bool, true, false, Option, none, some, [], ◌∷◌, leb, ◌==◌, ◌||◌, nat_ord, list_ord,
  if◌then◌else◌,
}
use electric_circuits.Value.{ℤ, pos, negsuc, Text, Value, null, int, text, bool, float}
use electric_circuits.Value.Decimal.{int_text, parse_i64, IsI64}

-- `ColumnType` of schema.rs.
pub data ColumnType : Type 0 where
  int_column : ColumnType
  text_column : ColumnType
  bool_column : ColumnType
  float_column : ColumnType

-- What the encodings call: the constructors and accessors of a JSON value, and the text of a float.
pub record JsonLib (J F : Type 0) : Type 0 where
  pub of_null : J
  pub of_int : ℤ → J
  pub of_float : F → J
  pub of_text : Text → J
  pub of_bool : Bool → J
  pub is_null : J → Bool
  pub as_i64 : J → Option ℤ
  pub as_f64 : J → Option F
  pub as_str : J → Option Text
  pub as_bool : J → Option Bool
  pub is_finite : F → Bool
  pub f64_text : F → Text
  pub parse_f64 : Text → Option F

-- 2^53 - 1
abbrev pub json_exact_int_max : ℕ
json_exact_int_max = 9007199254740991

abbrev pub unsigned_abs : ℤ → ℕ
unsigned_abs (pos n) = n
unsigned_abs (negsuc n) = suc n

abbrev pub map_value {ℓ} : {A : Type ℓ} {F : Type 0} → (A → Value F) → Option A → Option (Value F)
map_value f none = none
map_value f (some a) = some (f a)

abbrev pub true_text : Text
true_text = b't' ∷ b'r' ∷ b'u' ∷ b'e' ∷ []

abbrev pub false_text : Text
false_text = b'f' ∷ b'a' ∷ b'l' ∷ b's' ∷ b'e' ∷ []

abbrev pub bool_text : Bool → Text
bool_text true = true_text
bool_text false = false_text

-- `str::parse::<bool>`
abbrev pub parse_bool : Text → Option Bool
parse_bool s = if s == true_text then some true else if s == false_text then some false else none

-- `"t" | "true" | "TRUE" | "True"`, and the like for false.
abbrev pub is_true_literal : Text → Bool
is_true_literal s =
    (s == (b't' ∷ []))
    || (s == true_text)
    || (s == (b'T' ∷ b'R' ∷ b'U' ∷ b'E' ∷ []))
    || (s == (b'T' ∷ b'r' ∷ b'u' ∷ b'e' ∷ []))

abbrev pub is_false_literal : Text → Bool
is_false_literal s =
    (s == (b'f' ∷ []))
    || (s == false_text)
    || (s == (b'F' ∷ b'A' ∷ b'L' ∷ b'S' ∷ b'E' ∷ []))
    || (s == (b'F' ∷ b'a' ∷ b'l' ∷ b's' ∷ b'e' ∷ []))

module _ {J F : Type 0} (lib : JsonLib J F) where
  -- The cell of an `int` column: a decimal text, or a number.
  abbrev pub int_from_json : J → Option Text → Option (Value F)
  int_from_json j (some s) = map_value int (parse_i64 s)
  int_from_json j none = map_value int (lib.as_i64 j)

  abbrev pub typed_from_json : J → ColumnType → Option (Value F)
  typed_from_json j int_column = int_from_json j (lib.as_str j)
  typed_from_json j float_column = map_value float (lib.as_f64 j)
  typed_from_json j text_column = map_value text (lib.as_str j)
  typed_from_json j bool_column = map_value bool (lib.as_bool j)

  abbrev pub from_json : J → ColumnType → Option (Value F)
  from_json j ty = if lib.is_null j then some null else typed_from_json j ty

  abbrev pub literal_from_text : Text → ColumnType → Option (Value F)
  literal_from_text s text_column = some (text s)
  literal_from_text s int_column = map_value int (parse_i64 s)
  literal_from_text s float_column = map_value float (lib.parse_f64 s)
  literal_from_text s bool_column =
      if is_true_literal s
      then some (bool true)
      else if is_false_literal s
      then some (bool false)
      else none

  abbrev pub text_or_cell : J → ColumnType → Option Text → Option (Value F)
  text_or_cell j ty (some s) = literal_from_text s ty
  text_or_cell j ty none = from_json j ty

  abbrev pub literal_from_json : J → ColumnType → Option (Value F)
  literal_from_json j ty = text_or_cell j ty (lib.as_str j)

  abbrev pub from_key_string : Text → ColumnType → Option (Value F)
  from_key_string s int_column = map_value int (parse_i64 s)
  from_key_string s float_column = map_value float (lib.parse_f64 s)
  from_key_string s text_column = some (text s)
  from_key_string s bool_column = map_value bool (parse_bool s)

  abbrev pub to_json : Value F → J
  to_json null = lib.of_null
  to_json (int i) =
      if leb (unsigned_abs i) json_exact_int_max then lib.of_int i else lib.of_text (int_text i)
  to_json (float f) = lib.of_float f
  to_json (text s) = lib.of_text s
  to_json (bool b) = lib.of_bool b

  abbrev pub to_key_string : Value F → Text
  to_key_string null = b'n' ∷ b'u' ∷ b'l' ∷ b'l' ∷ []
  to_key_string (int i) = int_text i
  to_key_string (float f) = lib.f64_text f
  to_key_string (text s) = s
  to_key_string (bool b) = bool_text b

  -- A cell of a column of the type; an integer is an `i64`.
  abbrev pub Typed : Value F → ColumnType → Type 0
  Typed null ty = Unit
  Typed (int i) int_column = IsI64 i
  Typed (text s) text_column = Unit
  Typed (bool b) bool_column = Unit
  Typed (float f) float_column = Unit
  Typed v ty = ⊥

  -- Not an infinity or a NaN, which JSON has not.
  abbrev pub HasJson : Value F → Type 0
  HasJson (float f) = lib.is_finite f ≡ true
  HasJson v = Unit

  -- The documented behaviour: an accessor gives what the constructor of its kind was given, and
  -- nothing of another kind; the text of a float parses to it.
  pub record JsonLaws : Type 0 where
    pub null_null : lib.is_null lib.of_null ≡ true
    pub null_int : (i : ℤ) → lib.is_null (lib.of_int i) ≡ false
    pub null_float : (f : F) → lib.is_finite f ≡ true → lib.is_null (lib.of_float f) ≡ false
    pub null_text : (s : Text) → lib.is_null (lib.of_text s) ≡ false
    pub null_bool : (b : Bool) → lib.is_null (lib.of_bool b) ≡ false
    pub str_text : (s : Text) → lib.as_str (lib.of_text s) ≡ some s
    pub str_int : (i : ℤ) → lib.as_str (lib.of_int i) ≡ none
    pub i64_int : (i : ℤ) → IsI64 i → lib.as_i64 (lib.of_int i) ≡ some i
    pub i64_null : lib.as_i64 lib.of_null ≡ none
    pub i64_float : (f : F) → lib.as_i64 (lib.of_float f) ≡ none
    pub i64_text : (s : Text) → lib.as_i64 (lib.of_text s) ≡ none
    pub i64_bool : (b : Bool) → lib.as_i64 (lib.of_bool b) ≡ none
    pub f64_float : (f : F) → lib.is_finite f ≡ true → lib.as_f64 (lib.of_float f) ≡ some f
    pub bool_bool : (b : Bool) → lib.as_bool (lib.of_bool b) ≡ some b
    pub f64_parses : (f : F) → lib.parse_f64 (lib.f64_text f) ≡ some f
