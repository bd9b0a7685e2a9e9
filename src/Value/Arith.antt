-- ===== src/Value/Arith.antt =====
-- Sums and products of integers, with the wrap-around of a machine integer. They go through the two
-- parts of an integer.
use electric_circuits.Prelude.{
  Option, none, some, ℕ, zero, suc, ◌+◌, ◌-◌, ◌*◌, ◌%◌, ◌^◌, ◌≤◌, ◌<◌, ◌≡◌, Bool, true, false,
  arith, ltb, leb, if◌then◌else◌,
}
use electric_circuits.Value.{ℤ, pos, negsuc}
use electric_circuits.Value.Encoding.{unsigned_abs}

abbrev pub pos_part : ℤ → ℕ
pos_part (pos n) = n
pos_part (negsuc n) = 0

abbrev pub neg_part : ℤ → ℕ
neg_part (pos n) = 0
neg_part (negsuc n) = suc n

-- a - b, as an integer.
abbrev pub sub_ℕ : ℕ → ℕ → ℤ
sub_ℕ a b = if leb b a then pos (a - b) else negsuc (b - a - 1)

-- `*w > 0`
abbrev pub is_positive : ℤ → Bool
is_positive (pos (suc n)) = true
is_positive _ = false

-- `or_insert(0)`
abbrev pub or_zero : Option ℤ → ℤ
or_zero none = pos 0
or_zero (some w) = w

infixl 65 ◌+ℤ◌
infixl 70 ◌*ℤ◌
unfoldable pub ◌+ℤ◌ : ℤ → ℤ → ℤ
a +ℤ b = sub_ℕ (pos_part a + pos_part b) (neg_part a + neg_part b)

unfoldable pub ◌*ℤ◌ : ℤ → ℤ → ℤ
a *ℤ b =
    sub_ℕ (pos_part a * pos_part b + neg_part a * neg_part b)
      (pos_part a * neg_part b + neg_part a * pos_part b)

pub +ℤ_parts :
    (a b : ℤ)
    → pos_part (a +ℤ b) + neg_part a + neg_part b ≡ neg_part (a +ℤ b) + pos_part a + pos_part b
unfolding ◌+ℤ◌
+ℤ_parts a b = ground arith

pub eq_of_parts : (a b : ℤ) → pos_part a + neg_part b ≡ pos_part b + neg_part a → a ≡ b
eq_of_parts a b h = ground arith

pub ruleset int_laws = (arith, +ℤ_parts, eq_of_parts)

pub +ℤ_assoc : (a b c : ℤ) → a +ℤ b +ℤ c ≡ a +ℤ (b +ℤ c)
+ℤ_assoc a b c = omega int_laws

pub +ℤ_zero : (a : ℤ) → a +ℤ pos 0 ≡ a
+ℤ_zero a = omega int_laws

pub zero_+ℤ : (a : ℤ) → pos 0 +ℤ a ≡ a
zero_+ℤ a = omega int_laws

pub unsigned_abs-+ℤ : (a b : ℤ) → unsigned_abs (a +ℤ b) ≤ unsigned_abs a + unsigned_abs b
unfolding ◌+ℤ◌
unsigned_abs-+ℤ a b = ground arith

-- The integer that a machine integer with `modulus` values holds for `z`.
abbrev pub bits_of : ℕ → ℤ → ℕ
bits_of modulus (pos n) = n % modulus
bits_of modulus (negsuc n) = modulus - 1 - n % modulus

abbrev pub of_bits : ℕ → ℕ → ℕ → ℤ
of_bits modulus half b = if ltb b half then pos b else negsuc (modulus - 1 - b)

-- An `i64` and an `i128`.
unfoldable pub wrap_i64 : ℤ → ℤ
wrap_i64 z = of_bits (2 ^ 64) (2 ^ 63) (bits_of (2 ^ 64) z)

unfoldable pub wrap_i128 : ℤ → ℤ
wrap_i128 z = of_bits (2 ^ 128) (2 ^ 127) (bits_of (2 ^ 128) z)

pub wrap_i64_small : (z : ℤ) → unsigned_abs z < 2 ^ 63 → wrap_i64 z ≡ z
unfolding wrap_i64
wrap_i64_small (pos n) h = ground arith
wrap_i64_small (negsuc n) h = ground arith

pub wrap_i128_small : (z : ℤ) → unsigned_abs z < 2 ^ 127 → wrap_i128 z ≡ z
unfolding wrap_i128
wrap_i128_small (pos n) h = ground arith
wrap_i128_small (negsuc n) h = ground arith
