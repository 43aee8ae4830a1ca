-- ===== src/Tests.antt =====
-- Paths, slices, the cipher and the bit counts at concrete inputs.
use wasigoc.Common.{ℕ, ◌<◌, ◌≤◌, ◌≡◌, refl, arith, List, [], ◌∷◌, ◌⊎◌, length, codes, replicate}
use wasigoc.Common.Outcome.{ok, err}
use wasigoc.Strconv.{format_uint, parse_uint}
use wasigoc.Strconv.Laws.{parse_uint-format_uint}
use wasigoc.Rc4.{Cipher, new_cipher, xor_key_stream}
use wasigoc.Rc4.Laws.{xor_key_stream_twice, new_cipher_total}

parse_uint-format_uint_example :
    (t : List ℕ) × (format_uint 3054 16 ≡ ok t) × (parse_uint t 16 ≡ ok 3054)
parse_uint-format_uint_example =
    parse_uint-format_uint 3054 16 (omega arith) (omega arith) (omega arith)

abbrev file : List ℕ
file = codes "/usr/f.go"

abbrev cipher : Cipher
cipher = record { s = replicate 256 5; i = 0; j = 0 }

xor_key_stream_twice_example :
    (out : List ℕ) × (c' : Cipher) × (xor_key_stream cipher (0 ∷ 0 ∷ []) (65 ∷ 66 ∷ [])
      ≡ ok (out, c'))
    × (xor_key_stream cipher (1 ∷ 1 ∷ []) out ≡ ok (65 ∷ 66 ∷ [], c'))
xor_key_stream_twice_example =
    xor_key_stream_twice cipher (65 ∷ 66 ∷ []) (0 ∷ 0 ∷ []) (1 ∷ 1 ∷ []) refl refl refl

new_cipher_total_example :
    (((0 < length file) × (length file ≤ 256))
      × (c : Cipher) × (new_cipher file ≡ ok c)
      × (length (c.s) ≡ 256)
      × (c.i ≡ 0)
      × (c.j ≡ 0))
    ⊎ ((length file < 1) ⊎ (256 < length file))
      × (new_cipher file ≡ err "crypto/rc4: invalid key size")
new_cipher_total_example = new_cipher_total file
