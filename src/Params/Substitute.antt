-- ===== src/Params/Substitute.antt =====
-- apps/engine/src/params.rs, `substitute`: each `$N` outside a quoted literal becomes the value as a
-- quoted literal. A text is its code points. The scan, which has a position in the array in the
-- code, has what is left of the array here, and fuel for it.
use electric_circuits.Prelude.{
  ℕ, zero, suc, Bool, true, false, ◌&&◌, Option, none, some, [], ◌∷◌, ◌++◌, length, ◌==◌, nat_ord,
  list_ord, if◌then◌else◌, Map, lookup,
}
use electric_circuits.Value.{Text}
use electric_circuits.Value.Decimal.{is_digit}

-- `'` and `$`
abbrev pub quote : ℕ
quote = 39

abbrev pub dollar : ℕ
dollar = 36

-- The longest run of digits, and what follows it.
unfoldable pub digit_run : Text → Text × Text
digit_run [] = ([], [])
digit_run (c ∷ cs) =
    let rest = digit_run cs in if is_digit c then (c ∷ rest.0, rest.1) else ([], c ∷ cs)

unfoldable pub double_quotes : Text → Text
double_quotes [] = []
double_quotes (c ∷ cs) =
    let rest = double_quotes cs in if c == quote then quote ∷ c ∷ rest else c ∷ rest

abbrev pub quoted : Text → Text
quoted v = quote ∷ (double_quotes v ++ quote ∷ [])

-- `Err`: the parameter that was not provided, or no fuel.
pub data Outcome : Type 0 where
  ok : Text → Outcome
  not_provided : Text → Outcome
  out_of_fuel : Outcome

abbrev pub emit : Text → Outcome → Outcome
emit out (ok text) = ok (out ++ text)
emit out (not_provided num) = not_provided num
emit out out_of_fuel = out_of_fuel

-- The head of what follows is a digit, or a quote.
abbrev pub starts : (ℕ → Bool) → Text → Bool
starts p [] = false
starts p (c ∷ cs) = p c

abbrev pub tail : Text → Text
tail [] = []
tail (c ∷ cs) = cs

abbrev pub bound : Option Text → Text → Outcome → Outcome
bound none num rest = not_provided num
bound (some v) num rest = emit (quoted v) rest

-- What the loop does at one character in a quoted literal, and at one outside; `more` is the scan of
-- what is left.
abbrev pub in_literal : (Bool → Text → Outcome) → ℕ → Text → Outcome
in_literal more c cs =
    if c == quote
    then if starts (λ d. d == quote) cs
      then emit (c ∷ quote ∷ []) (more true (tail cs))
      else emit (c ∷ []) (more false cs)
    else emit (c ∷ []) (more true cs)

abbrev pub outside : Map Text Text → (Bool → Text → Outcome) → ℕ → Text → Outcome
outside params more c cs =
    if c == quote
    then emit (c ∷ []) (more true cs)
    else if (c == dollar) && starts is_digit cs
    then bound (lookup (digit_run cs).0 params) (digit_run cs).0 (more false (digit_run cs).1)
    else emit (c ∷ []) (more false cs)

unfoldable pub scan : Map Text Text → ℕ → Bool → Text → Outcome
unfolding digit_run double_quotes
scan params zero in_quote cs = out_of_fuel
scan params (suc n) in_quote [] = ok []
scan params (suc n) in_quote (c ∷ cs) =
    if in_quote then in_literal (scan params n) c cs else outside params (scan params n) c cs

-- The fuel: a round for each character, and one for the end.
unfoldable pub substitute : Text → Map Text Text → Outcome
unfolding scan
substitute where_ params = scan params (suc (length where_)) false where_
