-- ===== src/Params/Keys.antt =====
-- apps/engine/src/params.rs, `parse_params` and `validate_param_keys`. serde_json is a parameter, and
-- the sort of the standard library is a sort by insertion.
use electric_circuits.Prelude.{
  strip_prefix, ℕ, suc, Bool, true, ◌&&◌, Option, none, some, List, [], ◌∷◌, ◌==◌, ◌>>=◌, nat_ord,
  list_ord, if◌then◌else◌, Map, insert, sort,
}
use electric_circuits.Value.{ℤ, pos, int_ord, Text}
use electric_circuits.Value.Decimal.{parse_i64}

-- What `parse_params` uses of serde_json: `from_str`, `as_object`, the two patterns of
-- `json_to_param_string`, and `to_string`.
pub record ParamJson (J : Type 0) : Type 0 where
  pub from_str : Text → Option J
  pub as_object : J → Option (Map Text J)
  pub as_string : J → Option Text
  pub is_null : J → Bool
  pub json_text : J → Text

pub data ParamError : Type 0 where
  not_json : ParamError
  not_object : ParamError
  not_numbers : ParamError
  not_sequential : ParamError

pub data Parsed : Type 0 where
  parsed : Map Text Text → Parsed
  refused : ParamError → Parsed

unfoldable pub key_numbers : Map Text Text → Option (List ℤ)
key_numbers [] = some []
key_numbers ((k, v) ∷ params) = do n ← parse_i64 k; ns ← key_numbers params; some (n ∷ ns)

-- The loop over the sorted numbers, from the index `i` on.
unfoldable pub in_sequence : ℕ → List ℤ → Bool
in_sequence i [] = true
in_sequence i (n ∷ ns) = (n == pos (suc i)) && in_sequence (suc i) ns

abbrev pub check_numbers : Option (List ℤ) → Option ParamError
check_numbers none = some not_numbers
check_numbers (some ns) = if in_sequence 0 (sort ns) then none else some not_sequential

-- The error, if there is one.
abbrev pub validate_param_keys : Map Text Text → Option ParamError
validate_param_keys [] = none
validate_param_keys (e ∷ params) = check_numbers (key_numbers (e ∷ params))

-- `strip_suffix`, of one character.
abbrev pub strip_last : ℕ → Text → Option Text
strip_last p [] = none
strip_last p (c ∷ []) = if c == p then some [] else none
strip_last p (c ∷ d ∷ cs) = do rest ← strip_last p (d ∷ cs); some (c ∷ rest)

-- `params` and `params[`
abbrev pub params_name : Text
params_name = b'p' ∷ b'a' ∷ b'r' ∷ b'a' ∷ b'm' ∷ b's' ∷ []

abbrev pub bracket_prefix : Text
bracket_prefix = b'p' ∷ b'a' ∷ b'r' ∷ b'a' ∷ b'm' ∷ b's' ∷ b'[' ∷ []

unfoldable pub bracket_key : Text → Option Text
unfolding strip_prefix
bracket_key k = do inner ← strip_prefix bracket_prefix k; strip_last 93 inner

abbrev pub bracket_one : Option Text → Text → Map Text Text → Map Text Text
bracket_one none v m = m
bracket_one (some inner) v m = insert inner v m

unfoldable pub bracket_params : List (Text × Text) → Map Text Text → Map Text Text
unfolding bracket_key
bracket_params [] m = m
bracket_params ((k, v) ∷ pairs) m = bracket_params pairs (bracket_one (bracket_key k) v m)

-- The first value of the name `params`.
abbrev pub find_params : List (Text × Text) → Option Text
find_params [] = none
find_params ((k, v) ∷ pairs) =
    let rest = find_params pairs in if k == params_name then some v else rest

abbrev pub checked : Map Text Text → Option ParamError → Parsed
checked params none = parsed params
checked params (some e) = refused e

module _ {J : Type 0} (lib : ParamJson J) where
  abbrev pub param_string : J → Option Text → Text
  param_string v (some s) = s
  param_string v none = if lib.is_null v then [] else lib.json_text v

  abbrev pub json_to_param_string : J → Text
  json_to_param_string v = param_string v (lib.as_string v)

  unfoldable pub json_params : Map Text J → Map Text Text → Map Text Text
  json_params [] m = m
  json_params ((k, v) ∷ obj) m = json_params obj (insert k (json_to_param_string v) m)

  abbrev pub of_object : Option (Map Text J) → Parsed
  of_object none = refused not_object
  of_object (some obj) =
      let params = json_params obj [] in checked params (validate_param_keys params)

  abbrev pub of_json : Option J → Parsed
  of_json none = refused not_json
  of_json (some decoded) = of_object (lib.as_object decoded)

  abbrev pub of_value : Option Text → Parsed
  of_value none = checked [] (validate_param_keys [])
  of_value (some json) = of_json (lib.from_str json)

  -- The bracket form, and where it gives nothing the JSON form.
  abbrev pub from_brackets : List (Text × Text) → Map Text Text → Parsed
  from_brackets pairs [] = of_value (find_params pairs)
  from_brackets pairs (e ∷ m) = checked (e ∷ m) (validate_param_keys (e ∷ m))

  unfoldable pub parse_params : List (Text × Text) → Parsed
  unfolding bracket_params json_params key_numbers in_sequence sort
  parse_params pairs = from_brackets pairs (bracket_params pairs [])
