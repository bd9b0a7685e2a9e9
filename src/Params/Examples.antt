-- ===== src/Params/Examples.antt =====
-- The clause `a=$1` with a value that tries to leave its literal.
use electric_circuits.Prelude.{
  ◌≡◌, ◌⊎◌, refl, false, [], ◌∷◌, Map, lookup, list_ord, nat_ord, none, some, List, ap, sym, ◌∙◌,
  Bool-cases, inl, inr, ==_eq, ◌==◌, insert, sort, insert_in, some_inj, some_none, if◌then◌else◌,
  ◌≢◌, suc, arith,
}
use electric_circuits.Value.{Text, pos}
use electric_circuits.Params.Substitute.{ok, not_provided, quote, substitute}
use electric_circuits.Params.Skeleton.{skeleton, substitute-skeleton}
use electric_circuits.Params.Ends.{substitute-ends}
use electric_circuits.Params.Keys.{
  ParamJson, parsed, parse_params, bracket_params, key_numbers, in_sequence,
}
use electric_circuits.Params.Provided.{Canonical, substitute-provided}
use electric_circuits.Value.Decimal.{parse_i64, int_text, nat_text, read_digits, digits}

abbrev clause : Text
clause = b'a' ∷ b'=' ∷ b'$' ∷ b'1' ∷ []

abbrev hostile : Map Text Text
hostile = (b'1' ∷ [], quote ∷ b';' ∷ []) ∷ []

abbrev plain : Map Text Text
plain = (b'1' ∷ [], b'x' ∷ []) ∷ []

abbrev hostile_text : Text
hostile_text = b'a' ∷ b'=' ∷ quote ∷ quote ∷ quote ∷ b';' ∷ quote ∷ []

abbrev plain_text : Text
plain_text = b'a' ∷ b'=' ∷ quote ∷ b'x' ∷ quote ∷ []

hostile-runs : substitute clause hostile ≡ ok hostile_text
unfolding substitute lookup
hostile-runs = refl

plain-runs : substitute clause plain ≡ ok plain_text
unfolding substitute lookup
plain-runs = refl

substitute-skeleton_example : skeleton false hostile_text ≡ skeleton false plain_text
substitute-skeleton_example =
    substitute-skeleton clause hostile plain hostile_text plain_text hostile-runs plain-runs

substitute-ends_example :
    ((out : Text) × (substitute clause hostile ≡ ok out))
    ⊎ ((num : Text) × (substitute clause hostile ≡ not_provided num))
substitute-ends_example = substitute-ends clause hostile

-- A library that reads no text.
abbrev no_json : ParamJson Text
no_json = record {
  from_str = λ s. none;
  as_object = λ j. none;
  as_string = λ j. none;
  is_null = λ j. false;
  json_text = λ j. j;
}

-- The pair of the name `params[k]` with the value `x`.
abbrev bracketed : Text → Text × Text
bracketed k = (b'p' ∷ b'a' ∷ b'r' ∷ b'a' ∷ b'm' ∷ b's' ∷ b'[' ∷ k, b'x' ∷ [])

abbrev first_only : List (Text × Text)
first_only = bracketed (b'1' ∷ b']' ∷ []) ∷ []

first_only-parses : parse_params no_json first_only ≡ parsed plain
unfolding parse_params bracket_params key_numbers in_sequence sort insert_in insert read_digits
first_only-parses = refl

abbrev second_clause : Text
second_clause = b'a' ∷ b'=' ∷ b'$' ∷ b'2' ∷ []

second_missing : substitute second_clause plain ≡ not_provided (b'2' ∷ [])
unfolding substitute lookup
second_missing = refl

-- A name with a sign is accepted as the number 1, and the substitution misses the parameter 1.
signed_name :
    parse_params no_json (bracketed (b'+' ∷ b'1' ∷ b']' ∷ []) ∷ [])
    ≡ parsed ((b'+' ∷ b'1' ∷ [], b'x' ∷ []) ∷ [])
unfolding parse_params bracket_params key_numbers in_sequence sort insert_in insert read_digits
signed_name = refl

signed_missing : substitute clause ((b'+' ∷ b'1' ∷ [], b'x' ∷ []) ∷ []) ≡ not_provided (b'1' ∷ [])
unfolding substitute lookup
signed_missing = refl

one_reads : parse_i64 (b'1' ∷ []) ≡ some (pos 1)
unfolding read_digits
one_reads = refl

one_text : int_text (pos 1) ≡ b'1' ∷ []
unfolding digits
one_text = refl

plain-Canonical : Canonical plain
unfolding lookup
plain-Canonical k v i found reads = elim (Bool-cases ((b'1' ∷ []) == k)) [
  | inl e ↦
      let same = ==_eq (b'1' ∷ []) k e in
      sym same ∙ sym one_text ∙ ap int_text (some_inj (sym one_reads ∙ ap parse_i64 same ∙ reads))
  | inr d ↦ absurd (some_none (sym found ∙ ap (λ b. if b then some (b'x' ∷ []) else none) d))
]

substitute-provided_example : b'2' ∷ [] ≢ nat_text (suc 0)
substitute-provided_example =
    substitute-provided no_json first_only plain second_clause (b'2' ∷ []) 0 first_only-parses
      plain-Canonical second_missing (omega arith)
