-- ===== src/PgOutput/Encode.antt =====
-- The messages of apps/engine/src/pgoutput.rs as PostgreSQL documents their bytes ("Logical
-- Replication Message Formats"), and which messages it can send.
use electric_circuits.Prelude.{
  ℕ, ◌-◌, ◌/◌, ◌%◌, ◌<◌, ◌≡◌, false, Option, none, some, List, [], ◌∷◌, ◌++◌, length, All, ◌==◌,
  nat_ord, if◌then◌else◌,
}
use electric_circuits.Value.{ℤ, pos, negsuc, Text}
use electric_circuits.PgOutput.Message.{
  Cell, Tuple, OldTuple, RelColumn, Message, null, unchanged_toast, text, full, key, relation,
  insert, update, delete, truncate, ignored,
}
use electric_circuits.PgOutput.Decode.{Bytes}

abbrev pub be16 : ℕ → Bytes
be16 n = n / 256 ∷ n % 256 ∷ []

abbrev pub be32 : ℕ → Bytes
be32 n = n / 16777216 ∷ n / 65536 % 256 ∷ n / 256 % 256 ∷ n % 256 ∷ []

-- The bits of a signed number of 32 bits.
abbrev pub bits32 : ℤ → ℕ
bits32 (pos n) = n
bits32 (negsuc n) = 4294967295 - n

abbrev pub all_bytes : {A : Type 0} → (A → Bytes) → List A → Bytes
all_bytes f [] = []
all_bytes f (x ∷ xs) = f x ++ all_bytes f xs

abbrev pub IsTypmod : ℤ → Type 0
IsTypmod (pos n) = n < 2147483648
IsTypmod (negsuc n) = n < 2147483648

module _ (utf8 : Text → Bytes) where
  abbrev pub cell_bytes : Cell → Bytes
  cell_bytes null = 110 ∷ []
  cell_bytes unchanged_toast = 117 ∷ []
  cell_bytes (text s) = 116 ∷ (be32 (length (utf8 s)) ++ utf8 s)

  abbrev pub tuple_bytes : Tuple → Bytes
  tuple_bytes cells = be16 (length cells) ++ all_bytes cell_bytes cells

  abbrev pub cstr_bytes : Text → Bytes
  cstr_bytes s = utf8 s ++ 0 ∷ []

  abbrev pub column_bytes : RelColumn → Bytes
  column_bytes c =
      (if c.is_key then 1 else 0)
      ∷ (cstr_bytes c.name ++ (be32 c.type_oid ++ be32 (bits32 c.typmod)))

  abbrev pub old_bytes : OldTuple → Bytes
  old_bytes (full t) = 79 ∷ tuple_bytes t
  old_bytes (key t) = 75 ∷ tuple_bytes t

  abbrev pub maybe_old_bytes : Option OldTuple → Bytes
  maybe_old_bytes none = []
  maybe_old_bytes (some old) = old_bytes old

  -- Every message but the ignored ones, whose bytes are any others.
  unfoldable pub encode : Message → Bytes
  encode (relation rel_id namespace name replident columns) =
      82
      ∷ (be32 rel_id
          ++ (cstr_bytes namespace
              ++ (cstr_bytes name
                  ++ (replident ∷ (be16 (length columns) ++ all_bytes column_bytes columns)))))
  encode (insert rel_id new) = 73 ∷ (be32 rel_id ++ (78 ∷ tuple_bytes new))
  encode (update rel_id old new) =
      85 ∷ (be32 rel_id ++ (maybe_old_bytes old ++ (78 ∷ tuple_bytes new)))
  encode (delete rel_id old) = 68 ∷ (be32 rel_id ++ old_bytes old)
  encode (truncate rel_ids) = 84 ∷ (be32 (length rel_ids) ++ (0 ∷ all_bytes be32 rel_ids))
  encode ignored = 89 ∷ []

  -- The bounds of the fields: what their widths and their terminators allow.
  abbrev pub IsCell : Cell → Type 0
  IsCell null = Unit
  IsCell unchanged_toast = Unit
  IsCell (text s) = length (utf8 s) < 2147483648

  abbrev pub IsTuple : Tuple → Type 0
  IsTuple cells = (length cells < 32768) × All IsCell cells

  abbrev pub IsOld : OldTuple → Type 0
  IsOld (full t) = IsTuple t
  IsOld (key t) = IsTuple t

  abbrev pub IsName : Text → Type 0
  IsName s = All (λ b. (b == 0) ≡ false) (utf8 s)

  abbrev pub IsColumn : RelColumn → Type 0
  IsColumn c = IsName c.name × (c.type_oid < 4294967296) × IsTypmod c.typmod

  abbrev pub IsSome : Option OldTuple → Type 0
  IsSome none = Unit
  IsSome (some old) = IsOld old

  abbrev pub IsMessage : Message → Type 0
  IsMessage (relation rel_id namespace name replident columns) =
      (rel_id < 4294967296)
      × IsName namespace
      × IsName name
      × (length columns < 32768)
      × All IsColumn columns
  IsMessage (insert rel_id new) = (rel_id < 4294967296) × IsTuple new
  IsMessage (update rel_id old new) = (rel_id < 4294967296) × IsSome old × IsTuple new
  IsMessage (delete rel_id old) = (rel_id < 4294967296) × IsOld old
  IsMessage (truncate rel_ids) = (length rel_ids < 4294967296) × All (λ n. n < 4294967296) rel_ids
  IsMessage ignored = Unit
