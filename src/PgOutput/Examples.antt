-- ===== src/PgOutput/Examples.antt =====
-- An update with its key, where a text is its bytes.
use electric_circuits.Prelude.{◌≡◌, refl, some, [], ◌∷◌, arith}
use electric_circuits.Value.{Text}
use electric_circuits.PgOutput.Message.{null, unchanged_toast, text, key, Message, update}
use electric_circuits.PgOutput.Decode.{decode}
use electric_circuits.PgOutput.Encode.{encode, IsMessage}
use electric_circuits.PgOutput.RoundTrip.{decode-encode}

abbrev same : Text → Text
same s = s

same-same : (s : Text) → same (same s) ≡ s
same-same s = refl

abbrev an_update : Message
an_update =
    update 9 (some (key (text (b'1' ∷ []) ∷ []))) (text (b'1' ∷ []) ∷ null ∷ unchanged_toast ∷ [])

an_update-IsMessage : IsMessage same an_update
an_update-IsMessage =
    (omega arith, (omega arith, (omega arith, tt)), (omega arith, (omega arith, (tt, (tt, tt)))))

decode-encode_example : decode same (encode same an_update) ≡ some an_update
decode-encode_example = decode-encode same same same-same an_update an_update-IsMessage
