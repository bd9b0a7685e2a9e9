-- ===== src/Value.antt =====
-- apps/engine/src/value.rs: the scalar cell values and the positional rows. A float is
-- `OrderedFloat<f64>`, a parameter `F` with the total order that the crate documents. A text is its
-- list of code points, which Rust orders as it orders the UTF-8 bytes.
pub mod Decimal
pub mod Encoding
pub mod RoundTrip
pub mod Arith
pub mod Order
pub mod Sample
mod Examples
use electric_circuits.Prelude.{
  ℕ, Ordering, compare, ◌≡◌, refl, ap, Bool, true, false, none, some, Option, List, arith, Ord,
  list_cmp, list_cmp_eq, list_cmp_refl, list_cmp_reverse, bool_cmp, bool_cmp_eq, bool_cmp_refl,
  bool_cmp_reverse, reverse_ord, get_elem?, nat_ord,
}

-- An `i64`; `negsuc n` is -(n + 1).
pub data ℤ : Type 0 where
  pos : ℕ → ℤ
  negsuc : ℕ → ℤ

abbrev pub int_cmp : ℤ → ℤ → Ordering
int_cmp (pos a) (pos b) = compare a b
int_cmp (pos a) (negsuc b) = Ordering.gt
int_cmp (negsuc a) (pos b) = Ordering.lt
int_cmp (negsuc a) (negsuc b) = compare b a

pub int_cmp_eq : (a b : ℤ) → int_cmp a b ≡ Ordering.eq → a ≡ b
int_cmp_eq a b h = ground arith

pub int_cmp_refl : (a : ℤ) → int_cmp a a ≡ Ordering.eq
int_cmp_refl a = ground arith

pub int_cmp_reverse : (a b : ℤ) → int_cmp b a ≡ reverse_ord (int_cmp a b)
int_cmp_reverse a b = ground arith

instance abbrev pub int_ord : Ord ℤ
int_ord = record {
  cmp = int_cmp;
  cmp_eq = int_cmp_eq;
  cmp_refl = int_cmp_refl;
  cmp_reverse = int_cmp_reverse;
}

abbrev pub Text : Type 0
Text = List ℕ

pub data Value (F : Type 0) : Type 0 where
  null : Value F
  int : ℤ → Value F
  text : Text → Value F
  bool : Bool → Value F
  float : F → Value F

abbrev pub Row : Type 0 → Type 0
Row F = List (Value F)

-- `matches!(v, Value::Null)`.
abbrev pub is_null : {F : Type 0} → Value F → Bool
is_null null = true
is_null _ = false

abbrev pub or_null : {F : Type 0} → Option (Value F) → Value F
or_null none = null
or_null (some v) = v

-- `row.0.get(col).unwrap_or(&Value::Null)`
abbrev pub cell_at : {F : Type 0} → Row F → ℕ → Value F
cell_at row col = or_null (get_elem? row col)

-- The position of a variant in the enum, by which the derived order compares different variants.
abbrev variant : {F : Type 0} → Value F → ℕ
variant null = 0
variant (int _) = 1
variant (text _) = 2
variant (bool _) = 3
variant (float _) = 4

module _ {F : Type 0} ⦃o : Ord F⦄ where
  -- The derived `Ord`.
  abbrev pub value_cmp : Value F → Value F → Ordering
  value_cmp (int a) (int b) = int_cmp a b
  value_cmp (text a) (text b) = list_cmp a b
  value_cmp (bool a) (bool b) = bool_cmp a b
  value_cmp (float a) (float b) = o.cmp a b
  value_cmp a b = compare (variant a) (variant b)

  pub value_cmp_eq : (a b : Value F) → value_cmp a b ≡ Ordering.eq → a ≡ b
  value_cmp_eq (int a) (int b) h = ap int (int_cmp_eq a b h)
  value_cmp_eq (text a) (text b) h = ap text (list_cmp_eq a b h)
  value_cmp_eq (bool a) (bool b) h = ap bool (bool_cmp_eq a b h)
  value_cmp_eq (float a) (float b) h = ap float (o.cmp_eq a b h)
  value_cmp_eq null null h = refl
  value_cmp_eq _ _ h = cc

  pub value_cmp_refl : (a : Value F) → value_cmp a a ≡ Ordering.eq
  value_cmp_refl null = refl
  value_cmp_refl (int a) = int_cmp_refl a
  value_cmp_refl (text a) = list_cmp_refl a
  value_cmp_refl (bool a) = bool_cmp_refl a
  value_cmp_refl (float a) = o.cmp_refl a

  pub value_cmp_reverse : (a b : Value F) → value_cmp b a ≡ reverse_ord (value_cmp a b)
  value_cmp_reverse (int a) (int b) = int_cmp_reverse a b
  value_cmp_reverse (text a) (text b) = list_cmp_reverse a b
  value_cmp_reverse (bool a) (bool b) = bool_cmp_reverse a b
  value_cmp_reverse (float a) (float b) = o.cmp_reverse a b
  value_cmp_reverse null null = refl
  value_cmp_reverse _ _ = refl

  instance abbrev pub value_ord : Ord (Value F)
  value_ord = record {
    cmp = value_cmp;
    cmp_eq = value_cmp_eq;
    cmp_refl = value_cmp_refl;
    cmp_reverse = value_cmp_reverse;
  }
