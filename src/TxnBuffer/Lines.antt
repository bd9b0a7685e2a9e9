-- ===== src/TxnBuffer/Lines.antt =====
-- apps/engine/src/txn_buffer.rs: what reading a line of the spill file gives back.
use electric_circuits.Prelude.{
  ◌≡◌, refl, false, List, [], ◌∷◌, ◌++◌, All, ◌==◌, nat_ord, append_assoc, append_nil,
}
use electric_circuits.Envelope.{Envelope}
use electric_circuits.TxnBuffer.Wire.{Serde, Bytes, newline}
use electric_circuits.TxnBuffer.Buffer.{Spill, write_all, write_spilled}
use electric_circuits.TxnBuffer.Drain.{split_line}

pub split_line-append :
    (taken rest : Bytes)
    → All (λ c. (c == newline) ≡ false) taken
    → split_line (taken ++ (newline ∷ rest)) ≡ (taken, rest)
unfolding split_line
split_line-append [] rest h = refl
split_line-append (c ∷ cs) rest h = rw (split_line-append cs rest h.1, h.0) refl

module _ {J : Type 0} (serde : Serde J) where
  -- The file that holds the envelopes: one line each.
  abbrev pub file_of : List (Envelope J) → Bytes
  file_of [] = []
  file_of (e ∷ es) = serde.to_vec e ++ (newline ∷ file_of es)

  pub split_line-file_of :
      (e : Envelope J) (es : List (Envelope J))
      → split_line (file_of (e ∷ es)) ≡ (serde.to_vec e, file_of es)
  split_line-file_of e es = split_line-append (serde.to_vec e) (file_of es) (serde.one_line e)

  pub file_of-snoc :
      (es : List (Envelope J)) (e : Envelope J)
      → file_of (es ++ e ∷ []) ≡ file_of es ++ (serde.to_vec e ++ newline ∷ [])
  file_of-snoc [] e = refl
  file_of-snoc (x ∷ xs) e =
      rw
        (
          file_of-snoc xs e,
          append_assoc (serde.to_vec x) (newline ∷ file_of xs) (serde.to_vec e ++ newline ∷ []),
        )
        refl

  pub write_all-file :
      (es : List (Envelope J)) (s : Spill) → (write_all serde es s).file ≡ s.file ++ file_of es
  unfolding write_all
  write_all-file [] s = rw (append_nil s.file) refl
  write_all-file (e ∷ es) s =
      rw
        (
          write_all-file es (write_spilled (serde.to_vec e) s),
          append_assoc s.file (serde.to_vec e ++ newline ∷ []) (file_of es),
          append_assoc (serde.to_vec e) (newline ∷ []) (file_of es),
        )
        refl
