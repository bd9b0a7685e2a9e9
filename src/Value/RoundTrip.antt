-- ===== src/Value/RoundTrip.antt =====
-- The encodings of apps/engine/src/value.rs and what reads them.
use electric_circuits.Prelude.{
  ◌≤◌, ◌≡◌, refl, inl, inr, Bool, true, false, some, leb, leb→le, Bool-cases, some_inj, some_none,
  if◌then◌else◌, sym, ◌∙◌, subst, ◌≢◌,
}
use electric_circuits.Value.{ℤ, Value, null, int, text, bool, float}
use electric_circuits.Value.Decimal.{int_text, IsI64, parse_i64-int_text}
use electric_circuits.Value.Encoding.{
  ColumnType, int_column, text_column, bool_column, float_column, JsonLib, JsonLaws,
  json_exact_int_max, unsigned_abs, from_json, literal_from_json, from_key_string, to_json,
  to_key_string, Typed, HasJson,
}

module _ {J F : Type 0} (lib : JsonLib J F) (laws : JsonLaws lib) where
  int_from_json-to_json :
      (i : ℤ) → IsI64 i → from_json lib (to_json lib (int i)) int_column ≡ some (int i)
  int_from_json-to_json i h = elim (Bool-cases (leb (unsigned_abs i) json_exact_int_max)) [
    | inl e ↦ rw e (rw (laws.null_int i) (rw (laws.str_int i) (rw (laws.i64_int i h) refl)))
    | inr e ↦ rw e (
        rw (laws.null_text (int_text i))
          (rw (laws.str_text (int_text i)) (rw (parse_i64-int_text i h) refl)))
  ]

  -- Where the JSON library behaves as documented, a cell of its column's type, with an integer in
  -- the range of `i64` and a float that is finite, is read back from its JSON encoding.
  pub from_json-to_json :
      (v : Value F) (ty : ColumnType)
      → Typed lib v ty
      → HasJson lib v
      → from_json lib (to_json lib v) ty ≡ some v
  from_json-to_json null ty t h = rw laws.null_null refl
  from_json-to_json (int i) int_column t h = int_from_json-to_json i t
  from_json-to_json (text s) text_column t h = rw (laws.null_text s) (rw (laws.str_text s) refl)
  from_json-to_json (bool b) bool_column t h = rw (laws.null_bool b) (rw (laws.bool_bool b) refl)
  from_json-to_json (float f) float_column t h =
      rw (laws.null_float f h) (rw (laws.f64_float f h) refl)
  from_json-to_json _ _ t h = elim t [ ]

  int_json-exact :
      (k i : ℤ)
      → IsI64 k
      → (b : Bool) → leb (unsigned_abs k) json_exact_int_max ≡ b
      → lib.as_i64 (if b then lib.of_int k else lib.of_text (int_text k)) ≡ some i
      → unsigned_abs i ≤ json_exact_int_max
  int_json-exact k i t true e h =
      subst (λ j. unsigned_abs j ≤ json_exact_int_max) (some_inj (sym (laws.i64_int k t) ∙ h))
        (leb→le (unsigned_abs k) json_exact_int_max e)
  int_json-exact k i t false e h = elim (some_none (sym h ∙ laws.i64_text (int_text k))) [ ]

  -- Where the JSON library behaves as documented, an integer that leaves as a JSON number is one
  -- that a double holds exactly, of absolute value at most 2^53 - 1.
  pub to_json-exact :
      (v : Value F) (i : ℤ)
      → Typed lib v int_column
      → lib.as_i64 (to_json lib v) ≡ some i
      → unsigned_abs i ≤ json_exact_int_max
  to_json-exact null i t h = elim (some_none (sym h ∙ laws.i64_null)) [ ]
  to_json-exact (int k) i t h =
      int_json-exact k i t (leb (unsigned_abs k) json_exact_int_max) refl h
  to_json-exact _ i t h = elim t [ ]

  -- Where the JSON library behaves as documented, a cell of its column's type that is not NULL is
  -- read back from its key, and the key as a literal of a where clause is typed to the same cell.
  pub to_key_string-reads :
      (v : Value F) (ty : ColumnType)
      → Typed lib v ty
      → v ≢ null
      → (from_key_string lib (to_key_string lib v) ty ≡ some v)
        × (literal_from_json lib (lib.of_text (to_key_string lib v)) ty ≡ some v)
  to_key_string-reads null ty t h = elim (h refl) [ ]
  to_key_string-reads (int i) int_column t h =
      rw (laws.str_text (int_text i)) (rw (parse_i64-int_text i t) (refl, refl))
  to_key_string-reads (text s) text_column t h = rw (laws.str_text s) (refl, refl)
  to_key_string-reads (bool true) bool_column t h =
      rw (laws.str_text (to_key_string lib (bool true))) (refl, refl)
  to_key_string-reads (bool false) bool_column t h =
      rw (laws.str_text (to_key_string lib (bool false))) (refl, refl)
  to_key_string-reads (float f) float_column t h =
      rw (laws.str_text (lib.f64_text f)) (rw (laws.f64_parses f) (refl, refl))
  to_key_string-reads _ _ t h = elim t [ ]
