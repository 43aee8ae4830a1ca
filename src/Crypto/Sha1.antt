-- ===== src/Crypto/Sha1.antt =====
-- stdlib/crypto/sha1/sha1.go.
use wasigoc.Common.{ℕ, zero, suc, ◌+◌, ◌-◌, List, [], ◌∷◌, ◌++◌, bit_and, bit_or, bit_xor}
use wasigoc.Common.{ltb, if◌then◌else◌, get_or, length}
use wasigoc.Common.Bits.{u32}
use wasigoc.Crypto.Blocks
use wasigoc.Crypto.Blocks.{Scheme, Digest}
use wasigoc.Crypto.Words.{left_rotate, complement, big_words, big_bytes, big_bytes64}

-- The five words of the chaining value, and the working variables.
pub record Registers : Type 0 where
  pub a : ℕ
  pub b : ℕ
  pub c : ℕ
  pub d : ℕ
  pub e : ℕ

pub init_h : Registers
init_h = record { a = 1732584193; b = 4023233417; c = 2562383102; d = 271733878; e = 3285377520 }

-- The word `w[i]` of the message schedule, and the loop that adds `n` of them.
pub schedule_word : List ℕ → ℕ → ℕ
schedule_word w i =
    left_rotate
      (bit_xor (bit_xor (bit_xor (get_or w (i - 3) 0) (get_or w (i - 8) 0)) (get_or w (i - 14) 0))
        (get_or w (i - 16) 0))
      1

pub schedule_loop : ℕ → List ℕ → List ℕ
schedule_loop zero w = w
schedule_loop (suc n) w = schedule_loop n (w ++ schedule_word w (length w) ∷ [])

-- `f` and `k` of round `i`
pub choice : ℕ → Registers → ℕ × ℕ
choice i r =
    if ltb i 20
    then (bit_or (bit_and (r.b) (r.c)) (bit_and (complement (r.b)) (r.d)), 1518500249)
    else if ltb i 40
    then (bit_xor (bit_xor (r.b) (r.c)) (r.d), 1859775393)
    else if ltb i 60
    then (
      bit_or (bit_or (bit_and (r.b) (r.c)) (bit_and (r.b) (r.d))) (bit_and (r.c) (r.d)),
      2400959708,
    )
    else (bit_xor (bit_xor (r.b) (r.c)) (r.d), 3395469782)

pub round : ℕ → ℕ → Registers → Registers
round i w r =
    let (f, k) = choice i r in
    let temp = u32 (u32 (u32 (u32 (left_rotate (r.a) 5 + f) + r.e) + k) + w) in
    record { a = temp; b = r.a; c = left_rotate (r.b) 30; d = r.c; e = r.d }

-- The rounds from `i` on, with the words that are left.
pub rounds_loop : ℕ → List ℕ → Registers → Registers
rounds_loop i [] r = r
rounds_loop i (w ∷ ws) r = rounds_loop (suc i) ws (round i w r)

pub process_block : List ℕ → Registers → Registers
process_block chunk h =
    let r = rounds_loop 0 (schedule_loop 64 (big_words chunk)) h in
    record {
      a = u32 (h.a + r.a);
      b = u32 (h.b + r.b);
      c = u32 (h.c + r.c);
      d = u32 (h.d + r.d);
      e = u32 (h.e + r.e);
    }

unfoldable pub hash_to_bytes : Registers → List ℕ
hash_to_bytes h =
    big_bytes (h.a)
    ++ (big_bytes (h.b) ++ (big_bytes (h.c) ++ (big_bytes (h.d) ++ big_bytes (h.e))))

abbrev pub scheme : Scheme Registers
scheme = record {
  start = init_h;
  process_block = process_block;
  bytes_of = hash_to_bytes;
  block = 64;
  room = 56;
  length_field = λ bits. big_bytes64 bits;
}

unfoldable pub pad_block : List ℕ → ℕ → List ℕ
pad_block tail bits = Blocks.pad_block scheme tail bits

unfoldable pub sum_of : List ℕ → List ℕ
sum_of bytes = Blocks.sum_of scheme bytes

unfoldable pub new : Digest Registers
new = Blocks.new scheme

unfoldable pub write : Digest Registers → List ℕ → Digest Registers
write d p = Blocks.write scheme d p

unfoldable pub sum : Digest Registers → List ℕ → List ℕ
sum d b = Blocks.sum scheme d b

unfoldable pub reset : Digest Registers → Digest Registers
reset d = Blocks.reset scheme d
