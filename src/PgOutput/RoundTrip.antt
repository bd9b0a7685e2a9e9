-- ===== src/PgOutput/RoundTrip.antt =====
-- apps/engine/src/pgoutput.rs, `decode`: the documented bytes of a message decode to the message.
use electric_circuits.Prelude.{
  ℕ, ◌<◌, ◌≡◌, refl, ap, sym, ◌∙◌, Option, none, some, List, [], ◌∷◌, ◌++◌, length, All, nat_ord,
  append_nil,
}
use electric_circuits.Value.{Text}
use electric_circuits.PgOutput.Message.{
  Tuple, OldTuple, RelColumn, Message, full, key, relation, insert, update, delete, truncate,
  ignored,
}
use electric_circuits.PgOutput.Decode.{Bytes, u32, repeat, tuple, rel_column, decode, decode_old}
use electric_circuits.PgOutput.Encode.{
  encode, be16, be32, all_bytes, tuple_bytes, cstr_bytes, column_bytes, IsMessage, IsTuple, IsOld,
}
use electric_circuits.PgOutput.Fields.{
  step, columns-bytes, u32-be32, i16-be16, repeat-all_bytes, cstr-bytes, tuple-bytes,
}

module _ (lossy : Bytes → Text) (utf8 : Text → Bytes)
    (lossy-utf8 : (s : Text) → lossy (utf8 s) ≡ s) where
  whole_tuple : (t : Tuple) → IsTuple utf8 t → tuple lossy (tuple_bytes utf8 t) ≡ some (t, [])
  whole_tuple t h =
      ap (λ bs. tuple lossy bs) (sym (append_nil (tuple_bytes utf8 t)))
      ∙ tuple-bytes lossy utf8 lossy-utf8 t [] h

  decode-relation :
      (rel_id : ℕ) (namespace name : Text) (replident : ℕ) (cs : List RelColumn)
      → IsMessage utf8 (relation rel_id namespace name replident cs)
      → decode lossy (encode utf8 (relation rel_id namespace name replident cs))
        ≡ some (relation rel_id namespace name replident cs)
  unfolding decode encode
  decode-relation rel_id namespace name replident cs (hi, hs, hn, hl, hc) =
      let columns = all_bytes (column_bytes utf8) cs in
      let tail = replident ∷ (be16 (length cs) ++ columns) in
      step _ (u32-be32 rel_id (cstr_bytes utf8 namespace ++ (cstr_bytes utf8 name ++ tail))) (
        step _ (cstr-bytes lossy utf8 lossy-utf8 namespace (cstr_bytes utf8 name ++ tail) hs) (
          step _ (cstr-bytes lossy utf8 lossy-utf8 name tail hn) (
            step _ refl (
              step _ (i16-be16 (length cs) columns hl) (
                step _
                  (ap (repeat (rel_column lossy) (length cs)) (sym (append_nil columns))
                    ∙ columns-bytes lossy utf8 lossy-utf8 cs [] hc)
                  refl)))))

  decode-insert :
      (rel_id : ℕ) (t : Tuple)
      → IsTuple utf8 t
      → decode lossy (encode utf8 (insert rel_id t)) ≡ some (insert rel_id t)
  unfolding decode encode
  decode-insert rel_id t h =
      step _ (u32-be32 rel_id (78 ∷ tuple_bytes utf8 t))
        (step _ refl (step _ (whole_tuple t h) refl))

  decode-old :
      (rel_id : ℕ) (old : Tuple → OldTuple) (t new : Tuple)
      → IsTuple utf8 t
      → IsTuple utf8 new
      → decode_old lossy rel_id old (tuple_bytes utf8 t ++ (78 ∷ tuple_bytes utf8 new))
        ≡ some (update rel_id (some (old t)) new)
  decode-old rel_id old t new h h' =
      step _ (tuple-bytes lossy utf8 lossy-utf8 t (78 ∷ tuple_bytes utf8 new) h)
        (step _ refl (step _ (whole_tuple new h') refl))

  decode-update :
      (rel_id : ℕ) (old : Option OldTuple) (new : Tuple)
      → IsMessage utf8 (update rel_id old new)
      → decode lossy (encode utf8 (update rel_id old new)) ≡ some (update rel_id old new)
  unfolding decode encode
  decode-update rel_id none new (hi, ho, hn) =
      step _ (u32-be32 rel_id (78 ∷ tuple_bytes utf8 new))
        (step _ refl (step _ (whole_tuple new hn) refl))
  decode-update rel_id (some (full t)) new (hi, ho, hn) =
      step _ (u32-be32 rel_id (79 ∷ (tuple_bytes utf8 t ++ (78 ∷ tuple_bytes utf8 new))))
        (step _ refl (decode-old rel_id full t new ho hn))
  decode-update rel_id (some (key t)) new (hi, ho, hn) =
      step _ (u32-be32 rel_id (75 ∷ (tuple_bytes utf8 t ++ (78 ∷ tuple_bytes utf8 new))))
        (step _ refl (decode-old rel_id key t new ho hn))

  decode-delete :
      (rel_id : ℕ) (old : OldTuple)
      → IsOld utf8 old
      → decode lossy (encode utf8 (delete rel_id old)) ≡ some (delete rel_id old)
  unfolding decode encode
  decode-delete rel_id (full t) h =
      step _ (u32-be32 rel_id (79 ∷ tuple_bytes utf8 t))
        (step _ refl (step _ (whole_tuple t h) refl))
  decode-delete rel_id (key t) h =
      step _ (u32-be32 rel_id (75 ∷ tuple_bytes utf8 t))
        (step _ refl (step _ (whole_tuple t h) refl))

  decode-truncate :
      (rel_ids : List ℕ)
      → All (λ n. n < 4294967296) rel_ids
      → decode lossy (encode utf8 (truncate rel_ids)) ≡ some (truncate rel_ids)
  unfolding decode encode
  decode-truncate rel_ids h = step _ (u32-be32 (length rel_ids) (0 ∷ all_bytes be32 rel_ids)) (
      step _ refl (
        step _
          (ap (repeat u32 (length rel_ids)) (sym (append_nil (all_bytes be32 rel_ids)))
            ∙ repeat-all_bytes u32 be32 (λ n. n < 4294967296) rel_ids []
                (λ n more hn. u32-be32 n more) h)
          refl))

  ignored_lem : decode lossy (encode utf8 ignored) ≡ some ignored
  unfolding decode encode
  ignored_lem = refl

  -- Where lossy decoding gives back a text from its UTF-8 bytes, a message whose fields are within
  -- their widths and whose names hold no NUL decodes from its documented bytes to itself.
  pub decode-encode : (m : Message) → IsMessage utf8 m → decode lossy (encode utf8 m) ≡ some m
  decode-encode (relation rel_id namespace name replident cs) h =
      decode-relation rel_id namespace name replident cs h
  decode-encode (insert rel_id new) h = decode-insert rel_id new h.1
  decode-encode (update rel_id old new) h = decode-update rel_id old new h
  decode-encode (delete rel_id old) h = decode-delete rel_id old h.1
  decode-encode (truncate rel_ids) h = decode-truncate rel_ids h.1
  decode-encode ignored h = ignored_lem
