-- ===== src/Params/Skeleton.antt =====
-- apps/engine/src/params.rs, `substitute`: no value reaches the text outside quoted literals.
use electric_circuits.Prelude.{
  ℕ, zero, suc, ◌≡◌, inl, inr, refl, ap, sym, ◌∙◌, subst, Bool, true, false, not, ◌&&◌, Option,
  none, some, [], ◌∷◌, ◌++◌, length, ◌==◌, nat_ord, list_ord, if◌then◌else◌, Map, lookup,
  Bool-cases,
}
use electric_circuits.Value.{Text}
use electric_circuits.Value.Decimal.{is_digit}
use electric_circuits.Params.Substitute.{
  quote, dollar, digit_run, double_quotes, quoted, Outcome, ok, not_provided, out_of_fuel, emit,
  starts, tail, bound, in_literal, outside, scan, substitute,
}

-- The characters outside quoted literals, as a scanner that toggles at each quote reads them: a
-- doubled quote closes a literal and opens it again.
unfoldable pub skeleton : Bool → Text → Text
skeleton inside [] = []
skeleton inside (c ∷ cs) =
    let toggled = skeleton (not inside) cs in
    let same = skeleton inside cs in
    if c == quote then toggled else if inside then same else c ∷ same

-- Where both runs succeed, what is outside literals is the same.
abbrev Alike : Bool → Outcome → Outcome → Type 0
Alike b (ok out) (ok out') = skeleton b out ≡ skeleton b out'
Alike b (ok out) (not_provided num) = Unit
Alike b (ok out) out_of_fuel = Unit
Alike b (not_provided num) r = Unit
Alike b out_of_fuel r = Unit

-- What is written before the rest adds `front` to the skeleton and goes on in the state `b'`.
abbrev Writes : Bool → Bool → Text → Text → Type 0
Writes b b' front pre = (out : Text) → skeleton b (pre ++ out) ≡ front ++ skeleton b' out

emit-Alike :
    (b b' : Bool) (front pre pre' : Text) (r r' : Outcome)
    → Writes b b' front pre
    → Writes b b' front pre'
    → Alike b' r r'
    → Alike b (emit pre r) (emit pre' r')
emit-Alike b b' front pre pre' (ok out) (ok out') w w' h = w out ∙ ap (front ++◌) h ∙ sym (w' out')
emit-Alike b b' front pre pre' (ok out) (not_provided num) w w' h = tt
emit-Alike b b' front pre pre' (ok out) out_of_fuel w w' h = tt
emit-Alike b b' front pre pre' (not_provided num) r w w' h = tt
emit-Alike b b' front pre pre' out_of_fuel r w w' h = tt

quote-Writes : (b : Bool) (c : ℕ) → (c == quote) ≡ true → Writes b (not b) [] (c ∷ [])
unfolding skeleton
quote-Writes b c h out = rw h refl

inside-Writes : (c : ℕ) → (c == quote) ≡ false → Writes true true [] (c ∷ [])
unfolding skeleton
inside-Writes c h out = rw h refl

outside-Writes : (c : ℕ) → (c == quote) ≡ false → Writes false false (c ∷ []) (c ∷ [])
unfolding skeleton
outside-Writes c h out = rw h refl

doubled-Writes : (c : ℕ) → (c == quote) ≡ true → Writes true true [] (c ∷ quote ∷ [])
unfolding skeleton
doubled-Writes c h out = rw h refl

closing :
    (v out : Text) → skeleton true ((double_quotes v ++ quote ∷ []) ++ out) ≡ skeleton false out
unfolding skeleton double_quotes
closing [] out = refl
closing (c ∷ cs) out = elim (Bool-cases (c == quote)) [
  | inl e ↦ rw (e, e) (closing cs out)
  | inr e ↦ rw (e, e) (closing cs out)
]

quoted-Writes : (v : Text) → Writes false false [] (quoted v)
unfolding skeleton
quoted-Writes v out = closing v out

in_literal-Alike :
    (more more' : Bool → Text → Outcome) (c : ℕ) (cs : Text)
    → ((b : Bool) (t : Text) → Alike b (more b t) (more' b t))
    → Alike true (in_literal more c cs) (in_literal more' c cs)
in_literal-Alike more more' c cs h = elim (Bool-cases (c == quote)) [
  | inr e ↦ rw e (
      emit-Alike true true [] (c ∷ []) (c ∷ []) (more true cs) (more' true cs) (inside-Writes c e)
        (inside-Writes c e) (h true cs))
  | inl e ↦ (elim (Bool-cases (starts (λ d. d == quote) cs)) [
    | inl d ↦
        rw (e, d)
          (emit-Alike true true [] (c ∷ quote ∷ []) (c ∷ quote ∷ []) (more true (tail cs))
            (more' true (tail cs)) (doubled-Writes c e) (doubled-Writes c e) (h true (tail cs)))
    | inr d ↦
        rw (e, d)
          (emit-Alike true false [] (c ∷ []) (c ∷ []) (more false cs) (more' false cs)
            (quote-Writes true c e) (quote-Writes true c e) (h false cs))
  ])
]

bound-Alike :
    (o o' : Option Text) (num num' : Text) (r r' : Outcome)
    → Alike false r r'
    → Alike false (bound o num r) (bound o' num' r')
bound-Alike none o' num num' r r' h = tt
bound-Alike (some v) none num num' (ok out) r' h = tt
bound-Alike (some v) none num num' (not_provided k) r' h = tt
bound-Alike (some v) none num num' out_of_fuel r' h = tt
bound-Alike (some v) (some v') num num' r r' h =
    emit-Alike false false [] (quoted v) (quoted v') r r' (quoted-Writes v) (quoted-Writes v') h

outside-Alike :
    (params params' : Map Text Text) (more more' : Bool → Text → Outcome) (c : ℕ) (cs : Text)
    → ((b : Bool) (t : Text) → Alike b (more b t) (more' b t))
    → Alike false (outside params more c cs) (outside params' more' c cs)
outside-Alike params params' more more' c cs h = elim (Bool-cases (c == quote)) [
  | inl e ↦ rw e (
      emit-Alike false true [] (c ∷ []) (c ∷ []) (more true cs) (more' true cs)
        (quote-Writes false c e) (quote-Writes false c e) (h true cs))
  | inr e ↦ (elim (Bool-cases ((c == dollar) && starts is_digit cs)) [
    | inl d ↦
        rw (e, d)
          (bound-Alike (lookup (digit_run cs).0 params) (lookup (digit_run cs).0 params')
            (digit_run cs).0 (digit_run cs).0 (more false (digit_run cs).1)
            (more' false (digit_run cs).1) (h false (digit_run cs).1))
    | inr d ↦
        rw (e, d)
          (emit-Alike false false (c ∷ []) (c ∷ []) (c ∷ []) (more false cs) (more' false cs)
            (outside-Writes c e) (outside-Writes c e) (h false cs))
  ])
]

scan-Alike :
    (params params' : Map Text Text) (n : ℕ) (b : Bool) (cs : Text)
    → Alike b (scan params n b cs) (scan params' n b cs)
unfolding scan skeleton
scan-Alike params params' zero b cs = tt
scan-Alike params params' (suc n) b [] = refl
scan-Alike params params' (suc n) true (c ∷ cs) =
    in_literal-Alike (scan params n) (scan params' n) c cs (scan-Alike params params' n)
scan-Alike params params' (suc n) false (c ∷ cs) =
    outside-Alike params params' (scan params n) (scan params' n) c cs (scan-Alike params params' n)

both_ok :
    (r r' : Outcome) (out out' : Text)
    → r ≡ ok out
    → r' ≡ ok out'
    → Alike false r r'
    → skeleton false out ≡ skeleton false out'
both_ok r r' out out' e e' h = subst (Alike false (ok out)) e' (subst (λ x. Alike false x r') e h)

-- No injection: two substitutions into the same clause that succeed, whatever the values, give texts
-- that are the same outside quoted literals.
pub substitute-skeleton :
    (where_ : Text) (params params' : Map Text Text) (out out' : Text)
    → substitute where_ params ≡ ok out
    → substitute where_ params' ≡ ok out'
    → skeleton false out ≡ skeleton false out'
unfolding substitute
substitute-skeleton where_ params params' out out' h h' =
    both_ok (scan params (suc (length where_)) false where_)
      (scan params' (suc (length where_)) false where_) out out' h h'
      (scan-Alike params params' (suc (length where_)) false where_)
