-- ===== src/Crypto/Sha256.antt =====
-- stdlib/crypto/sha256/sha256.go.
use wasigoc.Common.{ℕ, zero, suc, ◌+◌, ◌-◌, ◌/◌, ◌^◌, List, [], ◌∷◌, ◌++◌, bit_and, bit_xor}
use wasigoc.Common.{get_or, length}
use wasigoc.Common.Bits.{u32}
use wasigoc.Crypto.Blocks
use wasigoc.Crypto.Blocks.{Scheme, Digest}
use wasigoc.Crypto.Words.{big_bytes64, right_rotate, complement, big_words, big_bytes}

-- The eight words of the chaining value, and the working variables.
pub record Registers : Type 0 where
  pub a : ℕ
  pub b : ℕ
  pub c : ℕ
  pub d : ℕ
  pub e : ℕ
  pub f : ℕ
  pub g : ℕ
  pub hh : ℕ

pub init_h : Registers
init_h = record {
  a = 1779033703;
  b = 3144134277;
  c = 1013904242;
  d = 2773480762;
  e = 1359893119;
  f = 2600822924;
  g = 528734635;
  hh = 1541459225;
}

pub k_table : List ℕ
k_table =
    1116352408 ∷ 1899447441 ∷ 3049323471 ∷ 3921009573 ∷ 961987163 ∷ 1508970993 ∷ 2453635748
    ∷ 2870763221 ∷ 3624381080 ∷ 310598401 ∷ 607225278 ∷ 1426881987 ∷ 1925078388 ∷ 2162078206
    ∷ 2614888103 ∷ 3248222580 ∷ 3835390401 ∷ 4022224774 ∷ 264347078 ∷ 604807628 ∷ 770255983
    ∷ 1249150122 ∷ 1555081692 ∷ 1996064986 ∷ 2554220882 ∷ 2821834349 ∷ 2952996808 ∷ 3210313671
    ∷ 3336571891 ∷ 3584528711 ∷ 113926993 ∷ 338241895 ∷ 666307205 ∷ 773529912 ∷ 1294757372
    ∷ 1396182291 ∷ 1695183700 ∷ 1986661051 ∷ 2177026350 ∷ 2456956037 ∷ 2730485921 ∷ 2820302411
    ∷ 3259730800 ∷ 3345764771 ∷ 3516065817 ∷ 3600352804 ∷ 4094571909 ∷ 275423344 ∷ 430227734
    ∷ 506948616 ∷ 659060556 ∷ 883997877 ∷ 958139571 ∷ 1322822218 ∷ 1537002063 ∷ 1747873779
    ∷ 1955562222 ∷ 2024104815 ∷ 2227730452 ∷ 2361852424 ∷ 2428436474 ∷ 2756734187 ∷ 3204031479
    ∷ 3329325298 ∷ []

-- The word `w[i]` of the message schedule, and the loop that adds `n` of them.
pub schedule_word : List ℕ → ℕ → ℕ
schedule_word w i =
    let x = get_or w (i - 15) 0 in
    let y = get_or w (i - 2) 0 in
    let s0 = bit_xor (bit_xor (right_rotate x 7) (right_rotate x 18)) (x / 2 ^ 3) in
    let s1 = bit_xor (bit_xor (right_rotate y 17) (right_rotate y 19)) (y / 2 ^ 10) in
    u32 (u32 (u32 (get_or w (i - 16) 0 + s0) + get_or w (i - 7) 0) + s1)

pub schedule_loop : ℕ → List ℕ → List ℕ
schedule_loop zero w = w
schedule_loop (suc n) w = schedule_loop n (w ++ schedule_word w (length w) ∷ [])

pub round : ℕ → ℕ → Registers → Registers
round k w r =
    let s1 =
      bit_xor (bit_xor (right_rotate (r.e) 6) (right_rotate (r.e) 11)) (right_rotate (r.e) 25) in
    let ch = bit_xor (bit_and (r.e) (r.f)) (bit_and (complement (r.e)) (r.g)) in
    let temp1 = u32 (u32 (u32 (u32 (r.hh + s1) + ch) + k) + w) in
    let s0 =
      bit_xor (bit_xor (right_rotate (r.a) 2) (right_rotate (r.a) 13)) (right_rotate (r.a) 22) in
    let maj = bit_xor (bit_xor (bit_and (r.a) (r.b)) (bit_and (r.a) (r.c))) (bit_and (r.b) (r.c)) in
    let temp2 = u32 (s0 + maj) in
    record {
      a = u32 (temp1 + temp2);
      b = r.a;
      c = r.b;
      d = r.c;
      e = u32 (r.d + temp1);
      f = r.e;
      g = r.f;
      hh = r.g;
    }

-- The rounds, with the constants and the words that are left.
pub rounds_loop : List ℕ → List ℕ → Registers → Registers
rounds_loop (k ∷ ks) (w ∷ ws) r = rounds_loop ks ws (round k w r)
rounds_loop ks ws r = r

pub process_block : List ℕ → Registers → Registers
process_block chunk h =
    let r = rounds_loop k_table (schedule_loop 48 (big_words chunk)) h in
    record {
      a = u32 (h.a + r.a);
      b = u32 (h.b + r.b);
      c = u32 (h.c + r.c);
      d = u32 (h.d + r.d);
      e = u32 (h.e + r.e);
      f = u32 (h.f + r.f);
      g = u32 (h.g + r.g);
      hh = u32 (h.hh + r.hh);
    }

unfoldable pub hash_to_bytes : Registers → List ℕ
hash_to_bytes h =
    big_bytes (h.a)
    ++ (big_bytes (h.b)
        ++ (big_bytes (h.c)
            ++ (big_bytes (h.d)
                ++ (big_bytes (h.e)
                    ++ (big_bytes (h.f) ++ (big_bytes (h.g) ++ big_bytes (h.hh)))))))

abbrev pub scheme : Scheme Registers
scheme = record {
  start = init_h;
  process_block = process_block;
  bytes_of = hash_to_bytes;
  block = 64;
  room = 56;
  length_field = λ bits. big_bytes64 bits;
}

unfoldable pub pad_block : List ℕ → ℕ → List ℕ
pad_block tail bits = Blocks.pad_block scheme tail bits

unfoldable pub sum_of : List ℕ → List ℕ
sum_of bytes = Blocks.sum_of scheme bytes

unfoldable pub new : Digest Registers
new = Blocks.new scheme

unfoldable pub write : Digest Registers → List ℕ → Digest Registers
write d p = Blocks.write scheme d p

unfoldable pub sum : Digest Registers → List ℕ → List ℕ
sum d b = Blocks.sum scheme d b

unfoldable pub reset : Digest Registers → Digest Registers
reset d = Blocks.reset scheme d
