-- ===== src/Crypto/Md5.antt =====
-- stdlib/crypto/md5/md5.go.
use wasigoc.Common.{ℕ, zero, suc, ◌+◌, ◌*◌, ◌%◌, List, [], ◌∷◌, ◌++◌, bit_and, bit_or, bit_xor}
use wasigoc.Common.{ltb, if◌then◌else◌, get_or}
use wasigoc.Common.Bits.{u32}
use wasigoc.Crypto.Blocks
use wasigoc.Crypto.Blocks.{Scheme, Digest}
use wasigoc.Crypto.Words.{left_rotate, complement, little_words, little_bytes, little_bytes64}

-- The four words of the chaining value, and the working variables.
pub record Registers : Type 0 where
  pub a : ℕ
  pub b : ℕ
  pub c : ℕ
  pub d : ℕ

pub start : Registers
start = record { a = 1732584193; b = 4023233417; c = 2562383102; d = 271733878 }

pub k_table : List ℕ
k_table =
    3614090360 ∷ 3905402710 ∷ 606105819 ∷ 3250441966 ∷ 4118548399 ∷ 1200080426 ∷ 2821735955
    ∷ 4249261313 ∷ 1770035416 ∷ 2336552879 ∷ 4294925233 ∷ 2304563134 ∷ 1804603682 ∷ 4254626195
    ∷ 2792965006 ∷ 1236535329 ∷ 4129170786 ∷ 3225465664 ∷ 643717713 ∷ 3921069994 ∷ 3593408605
    ∷ 38016083 ∷ 3634488961 ∷ 3889429448 ∷ 568446438 ∷ 3275163606 ∷ 4107603335 ∷ 1163531501
    ∷ 2850285829 ∷ 4243563512 ∷ 1735328473 ∷ 2368359562 ∷ 4294588738 ∷ 2272392833 ∷ 1839030562
    ∷ 4259657740 ∷ 2763975236 ∷ 1272893353 ∷ 4139469664 ∷ 3200236656 ∷ 681279174 ∷ 3936430074
    ∷ 3572445317 ∷ 76029189 ∷ 3654602809 ∷ 3873151461 ∷ 530742520 ∷ 3299628645 ∷ 4096336452
    ∷ 1126891415 ∷ 2878612391 ∷ 4237533241 ∷ 1700485571 ∷ 2399980690 ∷ 4293915773 ∷ 2240044497
    ∷ 1873313359 ∷ 4264355552 ∷ 2734768916 ∷ 1309151649 ∷ 4149444226 ∷ 3174756917 ∷ 718787259
    ∷ 3951481745 ∷ []

pub s_table : List ℕ
s_table =
    7 ∷ 12 ∷ 17 ∷ 22 ∷ 7 ∷ 12 ∷ 17 ∷ 22 ∷ 7 ∷ 12 ∷ 17 ∷ 22 ∷ 7 ∷ 12 ∷ 17 ∷ 22 ∷ 5 ∷ 9 ∷ 14 ∷ 20 ∷ 5
    ∷ 9 ∷ 14 ∷ 20 ∷ 5 ∷ 9 ∷ 14 ∷ 20 ∷ 5 ∷ 9 ∷ 14 ∷ 20 ∷ 4 ∷ 11 ∷ 16 ∷ 23 ∷ 4 ∷ 11 ∷ 16 ∷ 23 ∷ 4 ∷ 11
    ∷ 16 ∷ 23 ∷ 4 ∷ 11 ∷ 16 ∷ 23 ∷ 6 ∷ 10 ∷ 15 ∷ 21 ∷ 6 ∷ 10 ∷ 15 ∷ 21 ∷ 6 ∷ 10 ∷ 15 ∷ 21 ∷ 6 ∷ 10
    ∷ 15 ∷ 21 ∷ []

-- `f` and `g` of round `i`
pub choice : ℕ → Registers → ℕ × ℕ
choice i r =
    if ltb i 16
    then (bit_or (bit_and (r.b) (r.c)) (bit_and (complement (r.b)) (r.d)), i)
    else if ltb i 32
    then (bit_or (bit_and (r.d) (r.b)) (bit_and (complement (r.d)) (r.c)), (5 * i + 1) % 16)
    else if ltb i 48
    then (bit_xor (bit_xor (r.b) (r.c)) (r.d), (3 * i + 5) % 16)
    else (bit_xor (r.c) (bit_or (r.b) (complement (r.d))), 7 * i % 16)

pub round : List ℕ → ℕ → Registers → Registers
round m i r =
    let (f, g) = choice i r in
    let f' = u32 (u32 (u32 (f + r.a) + get_or k_table i 0) + get_or m g 0) in
    record { a = r.d; b = u32 (r.b + left_rotate f' (get_or s_table i 0)); c = r.b; d = r.c }

-- `n` rounds from `i` on
pub rounds_loop : ℕ → List ℕ → ℕ → Registers → Registers
rounds_loop zero m i r = r
rounds_loop (suc n) m i r = rounds_loop n m (suc i) (round m i r)

pub process_block : List ℕ → Registers → Registers
process_block chunk h =
    let r = rounds_loop 64 (little_words chunk) 0 h in
    record { a = u32 (h.a + r.a); b = u32 (h.b + r.b); c = u32 (h.c + r.c); d = u32 (h.d + r.d) }

-- The four writes at the end of Sum.
unfoldable pub hash_to_bytes : Registers → List ℕ
hash_to_bytes h =
    little_bytes (h.a) ++ (little_bytes (h.b) ++ (little_bytes (h.c) ++ little_bytes (h.d)))

abbrev pub scheme : Scheme Registers
scheme = record {
  start = start;
  process_block = process_block;
  bytes_of = hash_to_bytes;
  block = 64;
  room = 56;
  length_field = λ bits. little_bytes64 bits;
}

unfoldable pub pad_block : List ℕ → ℕ → List ℕ
pad_block tail bits = Blocks.pad_block scheme tail bits

unfoldable pub sum_of : List ℕ → List ℕ
sum_of bytes = Blocks.sum_of scheme bytes

unfoldable pub new : Digest Registers
new = Blocks.new scheme

unfoldable pub write : Digest Registers → List ℕ → Digest Registers
write d p = Blocks.write scheme d p

unfoldable pub sum : Digest Registers → List ℕ → List ℕ
sum d b = Blocks.sum scheme d b

unfoldable pub reset : Digest Registers → Digest Registers
reset d = Blocks.reset scheme d
