-- ===== src/Unicode/Tests.antt =====
-- utf16 at concrete inputs.
use wasigoc.Common.{◌≡◌, List, [], ◌∷◌, map}
use wasigoc.Common.Int.{ℤ, pos, negsuc}
use wasigoc.Unicode.Utf16.{encode, decode}
use wasigoc.Unicode.Utf16.RoundTrip.{sanitize, decode-encode}

abbrev runes : List ℤ
runes = pos 65 ∷ pos 0x1F600 ∷ pos 0xD800 ∷ negsuc 3 ∷ []

decode-encode_example : decode (encode runes) ≡ map sanitize runes
decode-encode_example = decode-encode runes
