-- ===== src/PgOutput/Decode.antt =====
-- apps/engine/src/pgoutput.rs, `decode` and its `Reader`: the reader is the list of the bytes from
-- its position on. `none` is an error. The lossy decoding of UTF-8 of the standard library is a
-- parameter.
use electric_circuits.Prelude.{
  ℕ, zero, suc, ◌+◌, ◌-◌, ◌*◌, ◌%◌, ◌^◌, true, false, Option, none, some, List, [], ◌∷◌, ltb, ◌==◌,
  nat_ord, if◌then◌else◌,
}
use electric_circuits.Value.{ℤ, pos, negsuc, Text}
use electric_circuits.PgOutput.Message.{
  Cell, Tuple, OldTuple, RelColumn, Message, null, unchanged_toast, text, full, key, relation,
  insert, update, delete, truncate, ignored,
}

abbrev pub Bytes : Type 0
Bytes = List ℕ

-- A value that was read, and what follows it.
abbrev pub Read {ℓ} : Type ℓ → Type ℓ
Read A = Option (A × Bytes)

-- `?` on what a read gave.
unfoldable pub bind {ℓ κ} : {A : Type ℓ} {B : Type κ} → Read A → (A → Bytes → Option B) → Option B
bind none k = none
bind (some (a, rest)) k = k a rest

unfoldable pub take : ℕ → Bytes → Read Bytes
take zero bs = some ([], bs)
take (suc n) [] = none
take (suc n) (b ∷ bs) = bind (take n bs) (λ s rest. some (b ∷ s, rest))

abbrev pub u8 : Bytes → Read ℕ
u8 [] = none
u8 (b ∷ bs) = some (b, bs)

-- Two's complement of `w` bits.
abbrev pub signed : ℕ → ℕ → ℤ
signed w n = if ltb n (2 ^ (w - 1)) then pos n else negsuc (2 ^ w - 1 - n)

abbrev pub i16 : Bytes → Read ℤ
i16 (a ∷ b ∷ bs) = some (signed 16 (a * 256 + b), bs)
i16 _ = none

abbrev pub u32 : Bytes → Read ℕ
u32 (a ∷ b ∷ c ∷ d ∷ bs) = some (a * 16777216 + b * 65536 + c * 256 + d, bs)
u32 _ = none

abbrev pub i32 : Bytes → Read ℤ
i32 bs = bind (u32 bs) (λ n rest. some (signed 32 n, rest))

-- The rounds of `for _ in 0..n`.
abbrev pub rounds : ℤ → ℕ
rounds (pos n) = n
rounds (negsuc n) = 0

-- The bytes up to the NUL, which is dropped.
unfoldable pub until_nul : Bytes → Read Bytes
until_nul [] = none
until_nul (b ∷ bs) =
    let more = bind (until_nul bs) (λ s rest. some (b ∷ s, rest)) in
    if b == 0 then some ([], bs) else more

-- `n` values read in a row.
unfoldable pub repeat {ℓ} : {A : Type ℓ} → (Bytes → Read A) → ℕ → Bytes → Read (List A)
repeat read zero bs = some ([], bs)
repeat read (suc n) bs =
    bind (read bs) (λ a rest. bind (repeat read n rest) (λ more rest'. some (a ∷ more, rest')))

module _ (from_utf8_lossy : Bytes → Text) where
  unfoldable pub cstr : Bytes → Read Text
  unfolding until_nul
  cstr bs = bind (until_nul bs) (λ s rest. some (from_utf8_lossy s, rest))

  abbrev pub text_of : ℤ → Bytes → Read Cell
  text_of (negsuc n) bs = none
  text_of (pos n) bs = bind (take n bs) (λ s rest. some (text (from_utf8_lossy s), rest))

  -- 'n', 'u' and 't'.
  abbrev pub cell_of : ℕ → Bytes → Read Cell
  cell_of kind bs =
      if kind == 110
      then some (null, bs)
      else if kind == 117
      then some (unchanged_toast, bs)
      else if kind == 116
      then bind (i32 bs) text_of
      else none

  unfoldable pub cell : Bytes → Read Cell
  unfolding take
  cell bs = bind (u8 bs) cell_of

  unfoldable pub tuple : Bytes → Read Tuple
  unfolding repeat cell
  tuple bs = bind (i16 bs) (λ ncols rest. repeat cell (rounds ncols) rest)

  unfoldable pub rel_column : Bytes → Read RelColumn
  unfolding cstr
  rel_column bs = bind (u8 bs) (λ flags r1. bind (cstr r1) (λ name r2. bind (u32 r2) (λ type_oid r3.
      bind (i32 r3) (λ typmod r4. some (
        record {
          name = name;
          type_oid = type_oid;
          typmod = typmod;
          is_key = if flags % 2 == 0 then false else true;
        },
        r4,
      )))))

  abbrev pub decode_relation : Bytes → Option Message
  decode_relation bs = bind (u32 bs) (λ rel_id r1. bind (cstr r1) (λ namespace r2.
      bind (cstr r2) (λ name r3. bind (u8 r3) (λ replident r4. bind (i16 r4) (λ ncols r5.
        bind (repeat rel_column (rounds ncols) r5)
          (λ columns r6. some (relation rel_id namespace name replident columns)))))))

  abbrev pub decode_insert : Bytes → Option Message
  decode_insert bs = bind (u32 bs) (λ rel_id r1. bind (u8 r1) (λ marker r2.
      if marker == 78 then bind (tuple r2) (λ new r3. some (insert rel_id new)) else none))

  -- The new tuple, after its marker.
  abbrev pub decode_new : ℕ → Option OldTuple → ℕ → Bytes → Option Message
  decode_new rel_id old marker bs =
      if marker == 78 then bind (tuple bs) (λ new rest. some (update rel_id old new)) else none

  abbrev pub decode_old : ℕ → (Tuple → OldTuple) → Bytes → Option Message
  decode_old rel_id old bs =
      bind (tuple bs)
        (λ t r1. bind (u8 r1) (λ marker r2. decode_new rel_id (some (old t)) marker r2))

  abbrev pub decode_update : Bytes → Option Message
  decode_update bs = bind (u32 bs) (λ rel_id r1. bind (u8 r1) (λ marker r2.
      if marker == 75
      then decode_old rel_id key r2
      else if marker == 79
      then decode_old rel_id full r2
      else decode_new rel_id none marker r2))

  abbrev pub decode_delete : Bytes → Option Message
  decode_delete bs = bind (u32 bs) (λ rel_id r1. bind (u8 r1) (λ marker r2.
      if marker == 79
      then bind (tuple r2) (λ t r3. some (delete rel_id (full t)))
      else if marker == 75
      then bind (tuple r2) (λ t r3. some (delete rel_id (key t)))
      else none))

  abbrev pub decode_truncate : Bytes → Option Message
  decode_truncate bs = bind (u32 bs) (λ n r1.
      bind (u8 r1) (λ options r2. bind (repeat u32 n r2) (λ rel_ids r3. some (truncate rel_ids))))

  -- By the tag: 'R', 'I', 'U', 'D' and 'T'.
  unfoldable pub decode : Bytes → Option Message
  unfolding tuple rel_column
  decode [] = none
  decode (tag ∷ bs) =
      if tag == 82
      then decode_relation bs
      else if tag == 73
      then decode_insert bs
      else if tag == 85
      then decode_update bs
      else if tag == 68
      then decode_delete bs
      else if tag == 84
      then decode_truncate bs
      else some ignored
