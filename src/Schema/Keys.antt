-- ===== src/Schema/Keys.antt =====
-- apps/engine/src/schema.rs, `escape_key_component` and `join_key_components`: the key string of a
-- row whose primary key has several columns.
use electric_circuits.Prelude.{
  ℕ, ◌≡◌, refl, ◌∙◌, sym, ap, true, ◌&&◌, not, List, [], ◌∷◌, ◌++◌, arith, length, ◌==◌, nat_ord,
  if◌then◌else◌, any, Bool-cases, inl, inr,
}
use mathlib.Core.List.{append_assoc}
use electric_circuits.Value.{Text}

abbrev pub pk_sep : ℕ
pk_sep = 0x1f

abbrev pub backslash : ℕ
backslash = 92

abbrev pub escape_char : ℕ → Text
escape_char c =
    if c == backslash
    then 92 ∷ 92 ∷ []
    else if c == pk_sep
    then 92 ∷ 120 ∷ 49 ∷ 102 ∷ []
    else c ∷ []

unfoldable pub escape_chars : Text → Text
escape_chars [] = []
escape_chars (c ∷ cs) = escape_char c ++ escape_chars cs

unfoldable pub escape_key_component : Text → Text
escape_key_component part =
    if not (any (λ c. c == backslash) part) && not (any (λ c. c == pk_sep) part)
    then part
    else escape_chars part

-- The components after the first.
unfoldable pub join_more : List Text → Text
join_more [] = []
join_more (part ∷ parts) = pk_sep ∷ (escape_key_component part ++ join_more parts)

unfoldable pub join_key_components : List Text → Text
unfolding join_more
join_key_components [] = []
join_key_components (part ∷ parts) = escape_key_component part ++ join_more parts

-- The short cut for a component without a special character makes no difference.
escape_plain :
    (part : Text)
    → (not (any (λ c. c == backslash) part) && not (any (λ c. c == pk_sep) part)) ≡ true
    → part ≡ escape_chars part
unfolding escape_chars
escape_plain [] h = refl
escape_plain (c ∷ cs) h = ground (arith, escape_plain cs)

escape_lem : (part : Text) → escape_key_component part ≡ escape_chars part
unfolding escape_key_component
escape_lem part =
    elim (Bool-cases (not (any (λ c. c == backslash) part) && not (any (λ c. c == pk_sep) part))) [
      | inl e ↦ rw e (escape_plain part e)
      | inr e ↦ rw e refl
    ]

char_prefix : (c d : ℕ) (s t : Text) → escape_char c ++ s ≡ escape_char d ++ t → (c ≡ d) × (s ≡ t)
char_prefix c d s t h = ground arith

char_no_sep : (c : ℕ) (s t : Text) → escape_char c ++ s ≡ pk_sep ∷ t → ⊥
char_no_sep c s t h = ground arith

char_no_end : (c : ℕ) (s : Text) → escape_char c ++ s ≡ [] → ⊥
char_no_end c s h = ground arith

-- What follows a component is nothing, or a separator.
abbrev Stops : Text → Type 0
Stops [] = Unit
Stops (c ∷ cs) = c ≡ pk_sep

no_stop : (c : ℕ) (p s t : Text) → Stops t → t ≡ escape_char c ++ p → ⊥
no_stop c p s [] h e = char_no_end c p (sym e)
no_stop c p s (d ∷ ds) h e = char_no_sep c p ds (sym e ∙ ap (λ x. x ∷ ds) h)

part_prefix :
    (p q s t : Text)
    → Stops s
    → Stops t
    → escape_chars p ++ s ≡ escape_chars q ++ t
    → (p ≡ q) × (s ≡ t)
unfolding escape_chars
part_prefix [] [] s t hs ht e = (refl, e)
part_prefix [] (d ∷ q) s t hs ht e =
    absurd
      (no_stop d (escape_chars q ++ t) s s hs (e ∙ append_assoc (escape_char d) (escape_chars q) t))
part_prefix (c ∷ p) [] s t hs ht e = absurd (
    no_stop c (escape_chars p ++ s) t t ht
      (sym e ∙ append_assoc (escape_char c) (escape_chars p) s))
part_prefix (c ∷ p) (d ∷ q) s t hs ht e =
    let (same, rest) = char_prefix c d (escape_chars p ++ s) (escape_chars q ++ t) (
      sym (append_assoc (escape_char c) (escape_chars p) s)
      ∙ e
      ∙ append_assoc (escape_char d) (escape_chars q) t) in
    let (tails, ends) = part_prefix p q s t hs ht rest in (cc, ends)

join_more-Stops : (parts : List Text) → Stops (join_more parts)
unfolding join_more
join_more-Stops [] = tt
join_more-Stops (p ∷ ps) = refl

component_prefix :
    (p q : Text) (ps qs : List Text)
    → escape_key_component p ++ join_more ps ≡ escape_key_component q ++ join_more qs
    → (p ≡ q) × (join_more ps ≡ join_more qs)
component_prefix p q ps qs e =
    part_prefix p q (join_more ps) (join_more qs) (join_more-Stops ps) (join_more-Stops qs) (
      sym (ap (λ x. x ++ join_more ps) (escape_lem p))
      ∙ e
      ∙ ap (λ x. x ++ join_more qs) (escape_lem q))

join_more-injective : (ps qs : List Text) → join_more ps ≡ join_more qs → ps ≡ qs
unfolding join_more
join_more-injective [] [] e = refl
join_more-injective [] (q ∷ qs) e = cc
join_more-injective (p ∷ ps) [] e = cc
join_more-injective (p ∷ ps) (q ∷ qs) e =
    let (same, rest) = component_prefix p q ps qs (cc) in
    let tails = join_more-injective ps qs rest in cc

-- Two lists of as many components that join to the same key string are the same.
pub join_key_components-injective :
    (ps qs : List Text)
    → length ps ≡ length qs
    → join_key_components ps ≡ join_key_components qs
    → ps ≡ qs
unfolding join_key_components
join_key_components-injective [] [] n e = refl
join_key_components-injective [] (q ∷ qs) n e = absurd (omega arith)
join_key_components-injective (p ∷ ps) [] n e = absurd (omega arith)
join_key_components-injective (p ∷ ps) (q ∷ qs) n e =
    let (same, rest) = component_prefix p q ps qs e in
    let tails = join_more-injective ps qs rest in cc
