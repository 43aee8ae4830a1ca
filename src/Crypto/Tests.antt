-- ===== src/Crypto/Tests.antt =====
-- The digests of "abc", in two writes, padded and under a key.
use wasigoc.Common.{ℕ, ◌%◌, ◌<◌, ◌≡◌, List, [], ◌∷◌, ◌++◌, codes, length, replicate}
use wasigoc.Common.Outcome.{ok, panic, ◌>>=◌}
use wasigoc.Common.Int.{pos, negsuc}
use wasigoc.Common.{All, ◌≤◌, ◌↔◌, refl, arith}
use wasigoc.Common.Bits.{IsByte}
use wasigoc.Crypto.Subtle.{constant_time_compare}
use wasigoc.Crypto.Subtle.Laws.{constant_time_compare_iff}
use wasigoc.Crypto.Hkdf
use wasigoc.Crypto.Hkdf.Laws.{hkdf, hkdf_sum-hkdf}
use wasigoc.Crypto.Words.{big_bytes64, little_bytes64}
use wasigoc.Crypto.Blocks.Laws.{write_each}
use wasigoc.Crypto.Md5
use wasigoc.Crypto.Sha1
use wasigoc.Crypto.Sha256
use wasigoc.Crypto.Sha512
use wasigoc.Crypto.Laws.{stream-sums, padding-blocks}
use wasigoc.Crypto.Hmac.{sum_md5, sum_sha1, sum_sha256}
use wasigoc.Crypto.Hmac.Laws.{reference, hmac-reference}
use wasigoc.Crypto.Aes
use wasigoc.Crypto.Aes.Inverse.{decrypt-encrypt}
use wasigoc.Crypto.Des
use wasigoc.Crypto.Des.Inverse.{des_decrypt-des_encrypt}

abbrev abc : List ℕ
abc = codes "abc"

abbrev pieces : List (List ℕ)
pieces = codes "a" ∷ codes "bc" ∷ []

stream-sums_example :
    (Md5.sum (write_each Md5.write pieces Md5.new) [] ≡ Md5.sum_of abc)
    × (Sha1.sum (write_each Sha1.write pieces Sha1.new) [] ≡ Sha1.sum_of abc)
    × (Sha256.sum (write_each Sha256.write pieces Sha256.new) [] ≡ Sha256.sum_of abc)
    × (Sha512.sum (write_each Sha512.write pieces Sha512.new) [] ≡ Sha512.sum_of abc)
stream-sums_example = stream-sums pieces []

padding-blocks_example :
    ((k : ℕ) × (k < 64)
      × (Md5.pad_block abc 24 ≡ abc ++ 128 ∷ (replicate k 0 ++ little_bytes64 24))
      × (length (Md5.pad_block abc 24) % 64 ≡ 0))
    × ((k : ℕ) × (k < 64)
        × (Sha1.pad_block abc 24 ≡ abc ++ 128 ∷ (replicate k 0 ++ big_bytes64 24))
        × (length (Sha1.pad_block abc 24) % 64 ≡ 0))
    × ((k : ℕ) × (k < 64)
        × (Sha256.pad_block abc 24 ≡ abc ++ 128 ∷ (replicate k 0 ++ big_bytes64 24))
        × (length (Sha256.pad_block abc 24) % 64 ≡ 0))
    × ((k : ℕ) × (k < 128)
        × (Sha512.pad_block abc 24
            ≡ abc ++ 128 ∷ (replicate k 0 ++ (replicate 8 0 ++ big_bytes64 24)))
        × (length (Sha512.pad_block abc 24) % 128 ≡ 0))
padding-blocks_example = padding-blocks abc 24

-- A key of exactly a block.
abbrev block_of_k : List ℕ
block_of_k = replicate 64 107

hmac-reference_example :
    (sum_md5 block_of_k abc ≡ ok (reference 64 Md5.sum_of block_of_k abc))
    × (sum_sha1 block_of_k abc ≡ ok (reference 64 Sha1.sum_of block_of_k abc))
    × (sum_sha256 block_of_k abc ≡ ok (reference 64 Sha256.sum_of block_of_k abc))
hmac-reference_example = hmac-reference block_of_k abc

abbrev abc_bytes : All IsByte abc
abc_bytes = (omega arith, (omega arith, (omega arith, tt)))

constant_time_compare_iff_example :
    (constant_time_compare abc abc ≤ 1) × ((constant_time_compare abc abc ≡ 1) ↔ (abc ≡ abc))
constant_time_compare_iff_example = constant_time_compare_iff abc abc abc_bytes abc_bytes

hkdf_sum-hkdf_example :
    (Hkdf.sum abc [] abc (pos 40) ≡ ok (hkdf abc [] abc 40))
    × (length (hkdf abc [] abc 40) ≡ 40)
    × (Hkdf.sum abc [] abc (negsuc 4) ≡ panic)
hkdf_sum-hkdf_example = hkdf_sum-hkdf abc [] abc 40 4 (omega arith)

abbrev aes_key : List ℕ
aes_key = 43 ∷ 126 ∷ 21 ∷ 22 ∷ 40 ∷ 174 ∷ 210 ∷ 166 ∷ 171 ∷ 247 ∷ 21 ∷ 136 ∷ 9 ∷ 207 ∷ 79 ∷ 60 ∷ []

abbrev long_plain : List ℕ
long_plain = codes "sixteen bytes, more"

decrypt-encrypt_example :
    (Aes.new_cipher aes_key >>= λ cipher.
    Aes.encrypt cipher long_plain long_plain >>= λ coded. Aes.decrypt cipher long_plain coded)
    ≡ ok long_plain
decrypt-encrypt_example =
    decrypt-encrypt aes_key long_plain long_plain long_plain (refl, omega arith) (omega arith)
      (omega arith) (omega arith) (omega arith)

abbrev des_key : List ℕ
des_key = 19 ∷ 52 ∷ 87 ∷ 121 ∷ 155 ∷ 188 ∷ 223 ∷ 241 ∷ []

des_decrypt-des_encrypt_example :
    (Des.new_cipher des_key >>= λ cipher.
    Des.encrypt cipher long_plain long_plain >>= λ coded. Des.decrypt cipher long_plain coded)
    ≡ ok long_plain
des_decrypt-des_encrypt_example =
    des_decrypt-des_encrypt des_key long_plain long_plain long_plain refl (omega arith)
      (omega arith) (omega arith) (omega arith)
