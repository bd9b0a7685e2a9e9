-- ===== src/PgOutput/Fields.antt =====
-- apps/engine/src/pgoutput.rs: each field that is read back from its bytes.
use electric_circuits.Prelude.{
  ℕ, suc, ◌+◌, ◌-◌, ◌*◌, ◌/◌, ◌%◌, ◌<◌, ◌≤◌, ◌≡◌, refl, ap, ◌∙◌, Bool, true, false, Option, some,
  List, [], ◌∷◌, ◌++◌, length, All, ◌==◌, nat_ord, if◌then◌else◌, arith, lt→ltb, ltb, append_assoc,
}
use electric_circuits.Value.{ℤ, pos, negsuc, Text}
use electric_circuits.PgOutput.Message.{Cell, Tuple, RelColumn, null, unchanged_toast, text}
use electric_circuits.PgOutput.Decode.{
  Bytes, Read, bind, take, signed, i16, u32, i32, until_nul, repeat, cstr, cell, tuple, rel_column,
}
use electric_circuits.PgOutput.Encode.{
  be16, be32, bits32, all_bytes, cell_bytes, tuple_bytes, cstr_bytes, column_bytes, IsCell, IsTuple,
  IsName, IsTypmod, IsColumn,
}

pub bind-some {ℓ κ} :
    {A : Type ℓ} {B : Type κ} (k : A → Bytes → Option B) (a : A) (rest : Bytes)
    → bind (some (a, rest)) k ≡ k a rest
unfolding bind
bind-some k a rest = refl

-- A read that succeeds hands its value on.
pub step {ℓ κ} :
    {A : Type ℓ} {B : Type κ} {r : Read A} {a : A} {rest : Bytes} {out : Option B}
    (k : A → Bytes → Option B)
    → r ≡ some (a, rest)
    → k a rest ≡ out
    → bind r k ≡ out
step {a = a} {rest = rest} k h g = ap (λ x. bind x k) h ∙ bind-some k a rest ∙ g

u32_value :
    (n : ℕ) → n / 16777216 * 16777216 + n / 65536 % 256 * 65536 + n / 256 % 256 * 256 + n % 256 ≡ n
u32_value n = omega arith

pub u32-be32 : (n : ℕ) (rest : Bytes) → u32 (be32 n ++ rest) ≡ some (n, rest)
u32-be32 n rest = ap (λ v. some (v, rest)) (u32_value n)

u16_value : (n : ℕ) → n / 256 * 256 + n % 256 ≡ n
u16_value n = omega arith

pub i16-be16 : (n : ℕ) (rest : Bytes) → n < 32768 → i16 (be16 n ++ rest) ≡ some (pos n, rest)
i16-be16 n rest h = ap (λ v. some (signed 16 v, rest)) (u16_value n) ∙ rw (lt→ltb n 32768 h) refl

ltb_false : (a b : ℕ) → b ≤ a → ltb a b ≡ false
ltb_false a b h = ground arith

signed-bits32 : (z : ℤ) → IsTypmod z → signed 32 (bits32 z) ≡ z
signed-bits32 (pos n) h = rw (lt→ltb n 2147483648 h) refl
signed-bits32 (negsuc n) h =
    rw (ltb_false (4294967295 - n) 2147483648 (omega arith)) (ap negsuc (omega arith))

pub i32-bits32 :
    (z : ℤ) (rest : Bytes) → IsTypmod z → i32 (be32 (bits32 z) ++ rest) ≡ some (z, rest)
i32-bits32 z rest h =
    step _ (u32-be32 (bits32 z) rest) (ap (λ v. some (v, rest)) (signed-bits32 z h))

pub take-append : (s rest : Bytes) → take (length s) (s ++ rest) ≡ some (s, rest)
unfolding take
take-append [] rest = refl
take-append (b ∷ s) rest = step _ (take-append s rest) refl

until_nul-append :
    (s rest : Bytes) → All (λ b. (b == 0) ≡ false) s → until_nul (s ++ (0 ∷ rest)) ≡ some (s, rest)
unfolding until_nul
until_nul-append [] rest h = refl
until_nul-append (b ∷ s) rest h = rw h.0 (step _ (until_nul-append s rest h.1) refl)

-- Whatever is read back is read back in a row.
pub repeat-all_bytes :
    {A : Type 0} (read : Bytes → Read A) (enc : A → Bytes) (P : A → Type 0) (xs : List A)
    (rest : Bytes)
    → ((x : A) (more : Bytes) → P x → read (enc x ++ more) ≡ some (x, more))
    → All P xs
    → repeat read (length xs) (all_bytes enc xs ++ rest) ≡ some (xs, rest)
unfolding repeat
repeat-all_bytes read enc P [] rest f h = refl
repeat-all_bytes read enc P (x ∷ xs) rest f h =
    ap (repeat read (suc (length xs))) (append_assoc (enc x) (all_bytes enc xs) rest)
    ∙ step _ (f x (all_bytes enc xs ++ rest) h.0)
        (step _ (repeat-all_bytes read enc P xs rest f h.1) refl)

module _ (lossy : Bytes → Text) (utf8 : Text → Bytes)
    (lossy-utf8 : (s : Text) → lossy (utf8 s) ≡ s) where
  pub cstr-bytes :
      (s : Text) (rest : Bytes)
      → IsName utf8 s
      → cstr lossy (cstr_bytes utf8 s ++ rest) ≡ some (s, rest)
  unfolding cstr
  cstr-bytes s rest h =
      ap (cstr lossy) (append_assoc (utf8 s) (0 ∷ []) rest)
      ∙ step _ (until_nul-append (utf8 s) rest h) (ap (λ t. some (t, rest)) (lossy-utf8 s))

  cell-bytes :
      (c : Cell) (rest : Bytes)
      → IsCell utf8 c
      → cell lossy (cell_bytes utf8 c ++ rest) ≡ some (c, rest)
  unfolding cell
  cell-bytes null rest h = step _ refl refl
  cell-bytes unchanged_toast rest h = step _ refl refl
  cell-bytes (text s) rest h = step _ refl (
      step _ (i32-bits32 (pos (length (utf8 s))) (utf8 s ++ rest) h)
        (step _ (take-append (utf8 s) rest) (ap (λ t. some (text t, rest)) (lossy-utf8 s))))

  pub tuple-bytes :
      (t : Tuple) (rest : Bytes)
      → IsTuple utf8 t
      → tuple lossy (tuple_bytes utf8 t ++ rest) ≡ some (t, rest)
  unfolding tuple
  tuple-bytes t rest h =
      ap (tuple lossy) (append_assoc (be16 (length t)) (all_bytes (cell_bytes utf8) t) rest)
      ∙ step _ (i16-be16 (length t) (all_bytes (cell_bytes utf8) t ++ rest) h.0)
          (repeat-all_bytes (cell lossy) (cell_bytes utf8) (IsCell utf8) t rest cell-bytes h.1)

  key_flag : (b : Bool) → (if (if b then 1 else 0) % 2 == 0 then false else true) ≡ b
  key_flag true = refl
  key_flag false = refl

  rel_column-bytes :
      (c : RelColumn) (rest : Bytes)
      → IsColumn utf8 c
      → rel_column lossy (column_bytes utf8 c ++ rest) ≡ some (c, rest)
  unfolding rel_column
  rel_column-bytes c rest (hn, ho, ht) =
      let tail = be32 c.type_oid ++ be32 (bits32 c.typmod) in
      step _ refl (
        step _
          (ap (cstr lossy) (append_assoc (cstr_bytes utf8 c.name) tail rest)
            ∙ cstr-bytes c.name (tail ++ rest) hn)
          (step _ (u32-be32 c.type_oid (be32 (bits32 c.typmod) ++ rest)) (
            step _ (i32-bits32 c.typmod rest ht) (
              ap
                (λ b. some (
                  record { name = c.name; type_oid = c.type_oid; typmod = c.typmod; is_key = b },
                  rest,
                ))
                (key_flag c.is_key)))))

  pub columns-bytes :
      (cs : List RelColumn) (rest : Bytes)
      → All (IsColumn utf8) cs
      → repeat (rel_column lossy) (length cs) (all_bytes (column_bytes utf8) cs ++ rest)
        ≡ some (cs, rest)
  columns-bytes cs rest h =
      repeat-all_bytes (rel_column lossy) (column_bytes utf8) (IsColumn utf8) cs rest
        rel_column-bytes h
