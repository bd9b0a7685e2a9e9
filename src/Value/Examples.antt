-- ===== src/Value/Examples.antt =====
-- Runs of the encodings of apps/engine/src/value.rs.
use electric_circuits.Prelude.{◌≡◌, ◌≢◌, refl, [], ◌∷◌, list_ord, nat_ord}
use electric_circuits.Value.{negsuc, Value, null, int, float}
use electric_circuits.Value.Decimal.{digits}
use electric_circuits.Value.Encoding.{to_json}
use electric_circuits.Value.Sample.{Float, half, json_text, scalars}

-- -(2^53 + 1), which a double does not hold.
abbrev low : Value Float
low = int (negsuc 9007199254740992)

abbrev small : Value Float
small = int (negsuc 41)

low_text :
    to_json scalars low
    ≡ json_text (
        b'-' ∷ b'9' ∷ b'0' ∷ b'0' ∷ b'7' ∷ b'1' ∷ b'9' ∷ b'9' ∷ b'2' ∷ b'5' ∷ b'4' ∷ b'7' ∷ b'4'
        ∷ b'0' ∷ b'9' ∷ b'9' ∷ b'3' ∷ [])
unfolding digits
low_text = refl

half_set : float half ≢ null
half_set e = cc
