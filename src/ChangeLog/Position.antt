-- ===== src/ChangeLog/Position.antt =====
-- apps/engine/src/changelog.rs: positions in the log, the control envelope that points at the next
-- segment, the size that an offset encodes, and the rotation policy. Segments are `u32`; a text is
-- its code points; `Duration`s are whole seconds, as the configuration and the state make them.
use electric_circuits.Prelude.{
  strip_prefix, ℕ, ◌+◌, ◌-◌, ◌*◌, ◌%◌, ◌^◌, Bool, true, not, ◌&&◌, ◌||◌, Option, none, some, List,
  [], ◌∷◌, ltb, leb, ◌==◌, nat_ord, list_ord, if◌then◌else◌,
}
use electric_circuits.Value.{Text}
use electric_circuits.Envelope.{Envelope}

-- `n + 1` on `u32`.
abbrev pub next_segment : ℕ → ℕ
next_segment n = (n + 1) % 2 ^ 32

pub record LogPosition : Type 0 where
  pub segment : ℕ
  pub offset : Text

-- "-1"
abbrev pub before_first : Text
before_first = 45 ∷ 49 ∷ []

unfoldable pub start_of : ℕ → LogPosition
start_of n = record { segment = n; offset = before_first }

-- "__circuits.control" and "rotated"
abbrev pub control_type : Text
control_type =
    95 ∷ 95 ∷ 99 ∷ 105 ∷ 114 ∷ 99 ∷ 117 ∷ 105 ∷ 116 ∷ 115 ∷ 46 ∷ 99 ∷ 111 ∷ 110 ∷ 116 ∷ 114 ∷ 111
    ∷ 108 ∷ []

abbrev pub rotated : Text
rotated = 114 ∷ 111 ∷ 116 ∷ 97 ∷ 116 ∷ 101 ∷ 100 ∷ []

-- "changes/"
abbrev pub changes_prefix : Text
changes_prefix = 99 ∷ 104 ∷ 97 ∷ 110 ∷ 103 ∷ 101 ∷ 115 ∷ 47 ∷ []

abbrev pub is_digit : ℕ → Bool
is_digit c = leb 48 c && leb c 57

-- The value of a text of digits after what was read so far; `none` at any other character.
unfoldable pub parse_digits : ℕ → Text → Option ℕ
parse_digits acc [] = some acc
parse_digits acc (c ∷ cs) =
    let rest = parse_digits (acc * 10 + (c - 48)) cs in if is_digit c then rest else none

abbrev pub below : ℕ → Option ℕ → Option ℕ
below bound none = none
below bound (some n) = if ltb n bound then some n else none

-- `str::parse::<u32>`: a `+` may stand before the digits, of which there is at least one.
unfoldable pub parse_u32 : Text → Option ℕ
unfolding parse_digits
parse_u32 [] = none
parse_u32 (c ∷ []) = below (2 ^ 32) (parse_digits 0 (c ∷ []))
parse_u32 (c ∷ d ∷ cs) =
    below (2 ^ 32) (if c == 43 then parse_digits 0 (d ∷ cs) else parse_digits 0 (c ∷ d ∷ cs))

-- The JSON value of a pointer: `json!({ "next": .., "segment": n })`, and the reading of its fields,
-- `get("segment").and_then(as_u64)` and `get("next").and_then(as_str)`.
pub record Pointer (J : Type 0) : Type 0 where
  pub value_of : ℕ → J
  pub segment : J → Option ℕ
  pub next : J → Option Text

module _ {J : Type 0} (json : Pointer J) where
  unfoldable pub rotation_envelope : ℕ → Envelope J
  rotation_envelope next = record {
    type_ = control_type;
    key = rotated;
    value = some (json.value_of next);
    old = none;
    headers = record {
      operation = rotated;
      txid = none;
      offset = none;
      lsn = none;
      seq = none;
      last = none;
    };
  }

  abbrev pub is_control : Envelope J → Bool
  is_control env = env.type_ == control_type

  abbrev path_target : Option Text → Option ℕ
  path_target none = none
  path_target (some path) = elim (strip_prefix changes_prefix path) [
    | none ↦ none
    | some digits ↦ parse_u32 digits
  ]

  abbrev value_target : Option J → Option ℕ
  value_target none = none
  value_target (some value) = elim (json.segment value) [
    | some n ↦ below (2 ^ 32) (some n)
    | none ↦ path_target (json.next value)
  ]

  unfoldable pub rotation_target : Envelope J → Option ℕ
  unfolding strip_prefix parse_u32
  rotation_target env =
      if not (is_control env) || not (env.headers.operation == rotated)
      then none
      else value_target env.value

  abbrev or_else : Option ℕ → Option ℕ → Option ℕ
  or_else (some n) other = some n
  or_else none other = other

  -- The last pointer of the batch.
  unfoldable pub rotation_target_in : List (Envelope J) → Option ℕ
  unfolding rotation_target
  rotation_target_in [] = none
  rotation_target_in (env ∷ envs) = or_else (rotation_target_in envs) (rotation_target env)

-- The bytes of a character in UTF-8.
abbrev pub utf8_len : ℕ → ℕ
utf8_len c = if ltb c 128 then 1 else if ltb c 2048 then 2 else if ltb c 65536 then 3 else 4

abbrev pub byte_len : Text → ℕ
byte_len [] = 0
byte_len (c ∷ cs) = utf8_len c + byte_len cs

-- `split_once('_')`
unfoldable pub split_once : Text → Option (Text × Text)
split_once [] = none
split_once (c ∷ cs) =
    let rest = split_once cs in
    if c == 95 then some ([], cs) else elim rest [ none ↦ none | some p ↦ some (c ∷ p.0, p.1) ]

abbrev all_digits : Text → Bool
all_digits [] = true
all_digits (c ∷ cs) = is_digit c && all_digits cs

abbrev position_of : Option (Text × Text) → Option ℕ
position_of none = none
position_of (some (seq, bytes)) =
    if not (byte_len seq == 16) || not (byte_len bytes == 16) || not (all_digits bytes)
    then none
    else below (2 ^ 64) (parse_digits 0 bytes)

unfoldable pub offset_bytes : Text → Option ℕ
unfolding split_once parse_digits
offset_bytes offset = position_of (split_once offset)

pub record ChangeLogConfig : Type 0 where
  pub segment_bytes : ℕ
  pub segment_age : ℕ
  pub retain : ℕ

unfoldable pub should_rotate : ChangeLogConfig → ℕ → ℕ → Bool
should_rotate cfg bytes age =
    (ltb 0 cfg.segment_bytes && leb cfg.segment_bytes bytes)
    || (not (cfg.segment_age == 0) && leb cfg.segment_age age)
