-- ===== src/Value/Sample.antt =====
-- A JSON library for runs: two floats, 0.5 and a NaN, which JSON writes as null, and objects.
use electric_circuits.Prelude.{
  ◌≡◌, refl, Bool, true, false, Option, none, some, [], ◌∷◌, ◌==◌, list_ord, nat_ord, if◌then◌else◌,
  Ord, Ordering, reverse_ord,
}
use electric_circuits.Value.{ℤ, Text}
use electric_circuits.Value.Encoding.{JsonLib, JsonLaws}

pub data Float : Type 0 where
  half : Float
  nan : Float

mutual
  pub data Json : Type 0 where
    json_null : Json
    json_int : ℤ → Json
    json_float : Float → Json
    json_text : Text → Json
    json_bool : Bool → Json
    json_object : Fields → Json

  pub data Fields : Type 0 where
    end : Fields
    field : Text → Json → Fields → Fields

abbrev pub float_json : Float → Json
float_json half = json_float half
float_json nan = json_null

abbrev pub scalar_is_null : Json → Bool
scalar_is_null json_null = true
scalar_is_null _ = false

abbrev pub scalar_int : Json → Option ℤ
scalar_int (json_int i) = some i
scalar_int _ = none

abbrev pub scalar_float : Json → Option Float
scalar_float (json_float f) = some f
scalar_float _ = none

abbrev pub scalar_text : Json → Option Text
scalar_text (json_text s) = some s
scalar_text _ = none

abbrev pub scalar_bool : Json → Option Bool
scalar_bool (json_bool b) = some b
scalar_bool _ = none

abbrev pub float_is_finite : Float → Bool
float_is_finite half = true
float_is_finite nan = false

abbrev pub float_text : Float → Text
float_text half = b'0' ∷ b'.' ∷ b'5' ∷ []
float_text nan = b'N' ∷ b'a' ∷ b'N' ∷ []

abbrev pub read_float : Text → Option Float
read_float s =
    if s == float_text half then some half else if s == float_text nan then some nan else none

abbrev pub scalars : JsonLib Json Float
scalars = record {
  of_null = json_null;
  of_int = json_int;
  of_float = float_json;
  of_text = json_text;
  of_bool = json_bool;
  is_null = scalar_is_null;
  as_i64 = scalar_int;
  as_f64 = scalar_float;
  as_str = scalar_text;
  as_bool = scalar_bool;
  is_finite = float_is_finite;
  f64_text = float_text;
  parse_f64 = read_float;
}

float_not_null : (f : Float) → float_is_finite f ≡ true → scalar_is_null (float_json f) ≡ false
float_not_null half h = refl
float_not_null nan h = cc

float_no_int : (f : Float) → scalar_int (float_json f) ≡ none
float_no_int half = refl
float_no_int nan = refl

float_read : (f : Float) → float_is_finite f ≡ true → scalar_float (float_json f) ≡ some f
float_read half h = refl
float_read nan h = cc

float_parses : (f : Float) → read_float (float_text f) ≡ some f
float_parses half = refl
float_parses nan = refl

pub scalars-Laws : JsonLaws scalars
scalars-Laws = record {
  null_null = refl;
  null_int = λ i. refl;
  null_float = float_not_null;
  null_text = λ s. refl;
  null_bool = λ b. refl;
  str_text = λ s. refl;
  str_int = λ i. refl;
  i64_int = λ i h. refl;
  i64_null = refl;
  i64_float = float_no_int;
  i64_text = λ s. refl;
  i64_bool = λ b. refl;
  f64_float = float_read;
  bool_bool = λ b. refl;
  f64_parses = float_parses;
}

-- A total order of the floats: the derived one.
abbrev pub float_cmp : Float → Float → Ordering
float_cmp half half = Ordering.eq
float_cmp half nan = Ordering.lt
float_cmp nan half = Ordering.gt
float_cmp nan nan = Ordering.eq

pub float_cmp_eq : (a b : Float) → float_cmp a b ≡ Ordering.eq → a ≡ b
float_cmp_eq half half h = refl
float_cmp_eq half nan h = cc
float_cmp_eq nan half h = cc
float_cmp_eq nan nan h = refl

pub float_cmp_refl : (a : Float) → float_cmp a a ≡ Ordering.eq
float_cmp_refl half = refl
float_cmp_refl nan = refl

pub float_cmp_reverse : (a b : Float) → float_cmp b a ≡ reverse_ord (float_cmp a b)
float_cmp_reverse half half = refl
float_cmp_reverse half nan = refl
float_cmp_reverse nan half = refl
float_cmp_reverse nan nan = refl

instance abbrev pub float_ord : Ord Float
float_ord = record {
  cmp = float_cmp;
  cmp_eq = float_cmp_eq;
  cmp_refl = float_cmp_refl;
  cmp_reverse = float_cmp_reverse;
}
