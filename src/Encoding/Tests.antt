-- ===== src/Encoding/Tests.antt =====
-- The codecs at concrete inputs.
use wasigoc.Common.{ℕ, ◌≡◌, arith, List, [], ◌∷◌, codes}
use wasigoc.Common.Outcome.{ok}
use wasigoc.Encoding.Hex
use wasigoc.Encoding.Hex.Digits.{Decodes, decode_string-Decodes}
use wasigoc.Encoding.Base64
use wasigoc.Encoding.Base64.Text.{std_encoding-IsAlphabet}
use wasigoc.Encoding.Base64.RoundTrip.{base64_decode-encode}

abbrev five : List ℕ
five = 1 ∷ 2 ∷ 3 ∷ 4 ∷ 5 ∷ []

abbrev nine : List ℕ
nine = 1 ∷ 2 ∷ 3 ∷ 4 ∷ 5 ∷ 6 ∷ 7 ∷ 8 ∷ 9 ∷ []

decode_string-Decodes_example : Decodes (codes "4fA0") (Hex.decode_string (codes "4fA0"))
decode_string-Decodes_example = decode_string-Decodes (codes "4fA0")

base64_round_trip_example :
    (s : List ℕ) × (Base64.encode_to_string Base64.std_encoding five ≡ ok s)
    × (Base64.decode_string Base64.std_encoding s ≡ ok five)
base64_round_trip_example =
    base64_decode-encode Base64.std_encoding std_encoding-IsAlphabet five (omega arith)
