-- ===== src/Value/Decimal.antt =====
-- The decimal text of integers: `to_string`, and the standard library's `parse` for `i64` and `u64`
-- with its optional sign and its overflow checks.
use electric_circuits.Prelude.{
  ℕ, zero, suc, ◌+◌, ◌-◌, ◌*◌, ◌/◌, ◌%◌, ◌≤◌, ◌<◌, ◌≡◌, refl, ◌∙◌, inl, inr, ap, Bool, true, false,
  ◌&&◌, Option, none, some, [], ◌∷◌, arith, ltb, leb, ◌==◌, nat_ord, if◌then◌else◌, nat_split,
  lt→ltb, le→leb,
}
use electric_circuits.Value.{ℤ, pos, negsuc, Text}

abbrev pub is_digit : ℕ → Bool
is_digit c = leb 48 c && leb c 57

-- The digits of `n` before those of `acc`; each round drops a digit, so `suc n` rounds suffice.
unfoldable pub digits : ℕ → ℕ → Text → Text
digits zero n acc = acc
digits (suc f) n acc =
    let more = digits f (n / 10) ((48 + n % 10) ∷ acc) in if ltb n 10 then (48 + n) ∷ acc else more

abbrev pub nat_text : ℕ → Text
nat_text n = digits (suc n) n []

abbrev pub int_text : ℤ → Text
int_text (pos n) = nat_text n
int_text (negsuc n) = 45 ∷ nat_text (suc n)

unfoldable pub read_digits : ℕ → ℕ → Text → Option ℕ
read_digits limit n [] = some n
read_digits limit n (c ∷ cs) =
    let more = read_digits limit (n * 10 + (c - 48)) cs in
    if is_digit c && leb (n * 10 + (c - 48)) limit then more else none

abbrev pub read_some : ℕ → Text → Option ℕ
read_some limit [] = none
read_some limit (c ∷ cs) = read_digits limit 0 (c ∷ cs)

-- Minus `n`.
abbrev pub negated : ℕ → ℤ
negated zero = pos 0
negated (suc n) = negsuc n

abbrev pub map_int : (ℕ → ℤ) → Option ℕ → Option ℤ
map_int f none = none
map_int f (some n) = some (f n)

abbrev pub parse_i64 : Text → Option ℤ
parse_i64 [] = none
parse_i64 (c ∷ cs) =
    if c == 45
    then map_int negated (read_some 9223372036854775808 cs)
    else if c == 43
    then map_int pos (read_some 9223372036854775807 cs)
    else map_int pos (read_some 9223372036854775807 (c ∷ cs))

abbrev pub parse_u64 : Text → Option ℕ
parse_u64 [] = none
parse_u64 (c ∷ cs) =
    if c == 43 then read_some 18446744073709551615 cs else read_some 18446744073709551615 (c ∷ cs)

-- The range of an `i64`.
abbrev pub IsI64 : ℤ → Type 0
IsI64 (pos n) = n ≤ 9223372036854775807
IsI64 (negsuc n) = n ≤ 9223372036854775807

ge_test : (n : ℕ) → 10 ≤ n → ltb n 10 ≡ false
ge_test n h = ground arith

digit_test : (d : ℕ) → d < 10 → is_digit (48 + d) ≡ true
digit_test d h = ground arith

last_back : (n : ℕ) → n / 10 * 10 + (48 + n % 10 - 48) ≡ n
last_back n = omega arith

alone : (n : ℕ) → 0 * 10 + (48 + n - 48) ≡ n
alone n = omega arith

no_round : (n : ℕ) → n < 0 → ⊥
no_round n h = omega arith

step_back :
    (limit n : ℕ) (acc : Text)
    → n ≤ limit
    → read_digits limit (n / 10) ((48 + n % 10) ∷ acc) ≡ read_digits limit n acc
unfolding read_digits
step_back limit n acc h =
    rw (digit_test (n % 10) (omega arith)) (rw (last_back n) (rw (le→leb n limit h) refl))

read_digits-digits :
    (limit f n : ℕ) (acc : Text)
    → n < f
    → n ≤ limit
    → read_digits limit 0 (digits f n acc) ≡ read_digits limit n acc
unfolding digits read_digits
read_digits-digits limit zero n acc h hl = elim (no_round n h) [ ]
read_digits-digits limit (suc f) n acc h hl = elim (nat_split n 10) [
  | inl lt ↦ rw (lt→ltb n 10 lt) (rw (digit_test n lt) (rw (alone n) (rw (le→leb n limit hl) refl)))
  | inr ge ↦ rw (ge_test n ge) (
      read_digits-digits limit f (n / 10) ((48 + n % 10) ∷ acc) (omega arith) (omega arith)
      ∙ step_back limit n acc hl)
]

abbrev StartsDigit : Text → Type 0
StartsDigit [] = ⊥
StartsDigit (c ∷ cs) = is_digit c ≡ true

digits-StartsDigit : (f n : ℕ) (acc : Text) → n < f → StartsDigit (digits f n acc)
unfolding digits
digits-StartsDigit zero n acc h = elim (no_round n h) [ ]
digits-StartsDigit (suc f) n acc h = elim (nat_split n 10) [
  | inl lt ↦ rw (lt→ltb n 10 lt) (ground arith)
  | inr ge ↦ rw (ge_test n ge) (digits-StartsDigit f (n / 10) ((48 + n % 10) ∷ acc) (omega arith))
]

unsigned_parse :
    (text : Text) (n : ℕ)
    → StartsDigit text
    → read_digits 9223372036854775807 0 text ≡ some n
    → parse_i64 text ≡ some (pos n)
unsigned_parse [] n s h = elim s [ ]
unsigned_parse (c ∷ cs) n s h = ground (arith, h)

read_some-starts :
    (limit : ℕ) (text : Text) → StartsDigit text → read_some limit text ≡ read_digits limit 0 text
read_some-starts limit [] s = elim s [ ]
read_some-starts limit (c ∷ cs) s = refl

-- An `i64` parses from its text.
pub parse_i64-int_text : (i : ℤ) → IsI64 i → parse_i64 (int_text i) ≡ some i
unfolding read_digits
parse_i64-int_text (pos n) h =
    unsigned_parse (nat_text n) n (digits-StartsDigit (suc n) n [] (omega arith))
      (read_digits-digits 9223372036854775807 (suc n) n [] (omega arith) h)
parse_i64-int_text (negsuc n) h = ap (map_int negated) (
    read_some-starts 9223372036854775808 (nat_text (suc n))
      (digits-StartsDigit (suc (suc n)) (suc n) [] (omega arith))
    ∙ read_digits-digits 9223372036854775808 (suc (suc n)) (suc n) [] (omega arith) (omega arith))
