-- ===== src/Params/Provided.antt =====
-- apps/engine/src/params.rs: a parameter that the substitution misses is not one of the request.
use electric_circuits.Prelude.{
  ℕ, zero, suc, ◌<◌, ◌≡◌, ◌≢◌, refl, ◌∙◌, sym, ap, subst, inl, inr, Bool, true, false, ◌&&◌, Option,
  none, some, List, [], ◌∷◌, length, ◌==◌, nat_ord, list_ord, Map, lookup, Bool-cases, some_none,
}
use electric_circuits.Value.{ℤ, pos, int_ord, Text}
use electric_circuits.Value.Decimal.{is_digit, parse_i64, nat_text, int_text}
use electric_circuits.Params.Substitute.{
  quote, dollar, digit_run, quoted, Outcome, ok, not_provided, out_of_fuel, emit, starts, tail,
  bound, in_literal, outside, scan, substitute,
}
use electric_circuits.Params.Keys.{ParamJson, parsed, parse_params}
use electric_circuits.Params.Numbered.{parse_params-Numbered}

-- Where the parameter that an answer misses is not bound.
abbrev pub Missing : Map Text Text → Outcome → Type 0
Missing params (ok out) = Unit
Missing params (not_provided num) = lookup num params ≡ none
Missing params out_of_fuel = Unit

emit-Missing :
    (params : Map Text Text) (pre : Text) (r : Outcome)
    → Missing params r
    → Missing params (emit pre r)
emit-Missing params pre (ok out) h = tt
emit-Missing params pre (not_provided num) h = h
emit-Missing params pre out_of_fuel h = tt

bound-Missing :
    (params : Map Text Text) (num : Text) (o : Option Text) (r : Outcome)
    → lookup num params ≡ o
    → Missing params r
    → Missing params (bound o num r)
bound-Missing params num none r e h = e
bound-Missing params num (some v) r e h = emit-Missing params (quoted v) r h

module _ (params : Map Text Text) (more : Bool → Text → Outcome)
    (f : (b : Bool) (t : Text) → Missing params (more b t)) where
  in_literal-Missing : (c : ℕ) (cs : Text) → Missing params (in_literal more c cs)
  in_literal-Missing c cs = elim (Bool-cases (c == quote)) [
    | inr e ↦ rw e (emit-Missing params (c ∷ []) (more true cs) (f true cs))
    | inl e ↦ (elim (Bool-cases (starts (λ d. d == quote) cs)) [
      | inl d ↦
          rw (e, d) (emit-Missing params (c ∷ quote ∷ []) (more true (tail cs)) (f true (tail cs)))
      | inr d ↦ rw (e, d) (emit-Missing params (c ∷ []) (more false cs) (f false cs))
    ])
  ]

  outside-Missing : (c : ℕ) (cs : Text) → Missing params (outside params more c cs)
  outside-Missing c cs = elim (Bool-cases (c == quote)) [
    | inl e ↦ rw e (emit-Missing params (c ∷ []) (more true cs) (f true cs))
    | inr e ↦ (elim (Bool-cases ((c == dollar) && starts is_digit cs)) [
      | inl d ↦
          rw (e, d)
            (bound-Missing params (digit_run cs).0 (lookup (digit_run cs).0 params)
              (more false (digit_run cs).1) refl (f false (digit_run cs).1))
      | inr d ↦ rw (e, d) (emit-Missing params (c ∷ []) (more false cs) (f false cs))
    ])
  ]

scan-Missing :
    (params : Map Text Text) (n : ℕ) (b : Bool) (cs : Text) → Missing params (scan params n b cs)
unfolding scan
scan-Missing params zero b cs = tt
scan-Missing params (suc n) b [] = tt
scan-Missing params (suc n) true (c ∷ cs) =
    in_literal-Missing params (scan params n) (scan-Missing params n) c cs
scan-Missing params (suc n) false (c ∷ cs) =
    outside-Missing params (scan params n) (scan-Missing params n) c cs

-- Each name that reads as a number is the text of the number, without a sign or leading zeros.
abbrev pub Canonical : Map Text Text → Type 0
Canonical params =
    (k v : Text) (i : ℤ) → lookup k params ≡ some v → parse_i64 k ≡ some i → k ≡ int_text i

-- Where a request is accepted and the names of its parameters are the texts of their numbers, a
-- parameter that the substitution misses has none of the numbers from 1 to how many there are.
pub substitute-provided :
    {J : Type 0} (lib : ParamJson J) (pairs : List (Text × Text)) (params : Map Text Text)
    (where_ num : Text) (n : ℕ)
    → parse_params lib pairs ≡ parsed params
    → Canonical params
    → substitute where_ params ≡ not_provided num
    → n < length params
    → num ≢ nat_text (suc n)
unfolding substitute
substitute-provided lib pairs params where_ num n h canonical missing lt same =
    let (k, v, found, reads) = parse_params-Numbered lib pairs params h n lt in
    let absent =
      subst (Missing params) missing (scan-Missing params (suc (length where_)) false where_) in
    some_none (
      sym found
      ∙ ap (λ x. lookup x params) (canonical k v (pos (suc n)) found reads ∙ sym same)
      ∙ absent)
