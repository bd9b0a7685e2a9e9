-- ===== src/Params/Ends.antt =====
-- apps/engine/src/params.rs, `substitute`: the scan ends.
use electric_circuits.Prelude.{
  ℕ, zero, suc, ◌≤◌, ◌<◌, ◌≡◌, ◌⊎◌, inl, inr, refl, Bool, true, false, ◌&&◌, Option, none, some, [],
  ◌∷◌, length, ◌==◌, nat_ord, list_ord, Map, lookup, Bool-cases, arith,
}
use electric_circuits.Value.{Text}
use electric_circuits.Value.Decimal.{is_digit}
use electric_circuits.Params.Substitute.{
  quote, dollar, digit_run, quoted, Outcome, ok, not_provided, out_of_fuel, emit, starts, tail,
  bound, in_literal, outside, scan, substitute,
}

-- The scan ends: the answer is a text or the parameter that is missing.
abbrev pub Ends : Outcome → Type 0
Ends (ok out) = Unit
Ends (not_provided num) = Unit
Ends out_of_fuel = ⊥

emit-Ends : (pre : Text) (r : Outcome) → Ends r → Ends (emit pre r)
emit-Ends pre (ok out) h = tt
emit-Ends pre (not_provided num) h = tt
emit-Ends pre out_of_fuel h = h

bound-Ends : (o : Option Text) (num : Text) (r : Outcome) → Ends r → Ends (bound o num r)
bound-Ends none num r h = tt
bound-Ends (some v) num r h = emit-Ends (quoted v) r h

length-digit_run : (cs : Text) → length (digit_run cs).1 ≤ length cs
unfolding digit_run
length-digit_run [] = omega arith
length-digit_run (c ∷ cs) = elim (Bool-cases (is_digit c)) [
  | inl e ↦ rw e (omega (arith, length-digit_run cs))
  | inr e ↦ rw e (omega arith)
]

length-tail : (cs : Text) → length (tail cs) ≤ length cs
length-tail [] = omega arith
length-tail (c ∷ cs) = omega arith

in_literal-Ends :
    (more : Bool → Text → Outcome) (c : ℕ) (cs : Text)
    → ((b : Bool) (t : Text) → length t ≤ length cs → Ends (more b t))
    → Ends (in_literal more c cs)
in_literal-Ends more c cs f = elim (Bool-cases (c == quote)) [
  | inr e ↦ rw e (emit-Ends (c ∷ []) (more true cs) (f true cs (omega arith)))
  | inl e ↦ (elim (Bool-cases (starts (λ d. d == quote) cs)) [
    | inl d ↦
        rw (e, d)
          (emit-Ends (c ∷ quote ∷ []) (more true (tail cs)) (f true (tail cs) (length-tail cs)))
    | inr d ↦ rw (e, d) (emit-Ends (c ∷ []) (more false cs) (f false cs (omega arith)))
  ])
]

outside-Ends :
    (params : Map Text Text) (more : Bool → Text → Outcome) (c : ℕ) (cs : Text)
    → ((b : Bool) (t : Text) → length t ≤ length cs → Ends (more b t))
    → Ends (outside params more c cs)
outside-Ends params more c cs f = elim (Bool-cases (c == quote)) [
  | inl e ↦ rw e (emit-Ends (c ∷ []) (more true cs) (f true cs (omega arith)))
  | inr e ↦ (elim (Bool-cases ((c == dollar) && starts is_digit cs)) [
    | inl d ↦
        rw (e, d)
          (bound-Ends (lookup (digit_run cs).0 params) (digit_run cs).0
            (more false (digit_run cs).1) (f false (digit_run cs).1 (length-digit_run cs)))
    | inr d ↦ rw (e, d) (emit-Ends (c ∷ []) (more false cs) (f false cs (omega arith)))
  ])
]

scan-Ends :
    (params : Map Text Text) (n : ℕ) (b : Bool) (cs : Text)
    → length cs < n
    → Ends (scan params n b cs)
unfolding scan
scan-Ends params zero b cs h = absurd (omega arith)
scan-Ends params (suc n) b [] h = tt
scan-Ends params (suc n) true (c ∷ cs) h =
    in_literal-Ends (scan params n) c cs (λ b t le. scan-Ends params n b t (omega arith))
scan-Ends params (suc n) false (c ∷ cs) h =
    outside-Ends params (scan params n) c cs (λ b t le. scan-Ends params n b t (omega arith))

answer :
    (r : Outcome) → Ends r → ((out : Text) × (r ≡ ok out)) ⊎ ((num : Text) × (r ≡ not_provided num))
answer (ok out) h = inl (out, refl)
answer (not_provided num) h = inr (num, refl)
answer out_of_fuel h = absurd h

-- The substitution into any clause gives a text, or the number of a parameter that is missing: the
-- fuel is enough.
pub substitute-ends :
    (where_ : Text) (params : Map Text Text)
    → ((out : Text) × (substitute where_ params ≡ ok out))
      ⊎ ((num : Text) × (substitute where_ params ≡ not_provided num))
unfolding substitute
substitute-ends where_ params =
    answer (scan params (suc (length where_)) false where_)
      (scan-Ends params (suc (length where_)) false where_ (omega arith))
