-- ===== src/Crypto/Des/Laws.antt =====
-- Decrypt takes back what Encrypt does.
use wasigoc.Common.{
  ℕ, ◌+◌, ◌*◌, ◌/◌, ◌%◌, ◌^◌, ◌≡◌, ◌<◌, refl, ap, ◌∙◌, arith, List, [], ◌∷◌, ◌++◌, bit_and, bit_xor,
}
use wasigoc.Common.Bits.{u32, u64, bit_or_fields, bit_and_mask, bit_xor-lt, bit_xor_cancel}
use wasigoc.Crypto.Des.{
  ip_table, fp_table, permute, feistel, rounds_loop, pre_output, des_crypt, reversed,
}
use wasigoc.Crypto.Des.Permute.{
  permute_fp-permute_ip, permute_ip-permute_fp, permute_ip-lt, permute_fp-lt,
}

feistel-lt : (r subkey : ℕ) → feistel r subkey < 2 ^ 32
unfolding feistel
feistel-lt r subkey = omega arith

-- The halves behind the last round.
abbrev swap : ℕ × ℕ → ℕ × ℕ
swap (l, r) = (r, l)

rounds_loop-append :
    (keys more : List ℕ) (l r : ℕ)
    → rounds_loop (keys ++ more) l r
      ≡ rounds_loop more ((rounds_loop keys l r).0) ((rounds_loop keys l r).1)
unfolding rounds_loop
rounds_loop-append [] more l r = refl
rounds_loop-append (key ∷ keys) more l r =
    rounds_loop-append keys more r (bit_xor l (feistel r key))

-- The rounds on the swapped halves with the keys in reverse take the halves back.
rounds_loop-reversed :
    (keys : List ℕ) (l r : ℕ)
    → rounds_loop (reversed keys) ((rounds_loop keys l r).1) ((rounds_loop keys l r).0) ≡ (r, l)
unfolding rounds_loop reversed
rounds_loop-reversed [] l r = refl
rounds_loop-reversed (key ∷ keys) l r =
    let mixed = bit_xor l (feistel r key) in
    rounds_loop-append (reversed keys) (key ∷ []) _ _
    ∙ rw (rounds_loop-reversed keys r mixed, bit_xor_cancel l (feistel r key)) refl

abbrev AreHalves : ℕ × ℕ → Type 0
AreHalves (l, r) = (l < 2 ^ 32) × (r < 2 ^ 32)

rounds_loop-AreHalves :
    (keys : List ℕ) (l r : ℕ) → l < 2 ^ 32 → r < 2 ^ 32 → AreHalves (rounds_loop keys l r)
unfolding rounds_loop
rounds_loop-AreHalves [] l r h k = (h, k)
rounds_loop-AreHalves (key ∷ keys) l r h k =
    rounds_loop-AreHalves keys r (bit_xor l (feistel r key)) k
      (bit_xor-lt 32 l (feistel r key) h (feistel-lt r key))

pre_output-sum : (l r : ℕ) → l < 2 ^ 32 → r < 2 ^ 32 → pre_output (l, r) ≡ r * 2 ^ 32 + l
pre_output-sum l r h k =
    let whole : u64 (r * 2 ^ 32) ≡ r * 2 ^ 32 = omega (arith, k) in
    rw whole (bit_or_fields 32 r l h)

-- The halves of a word.
high : ℕ → ℕ
high ip = u32 (ip / 2 ^ 32)

low : ℕ → ℕ
low ip = u32 (bit_and ip 4294967295)

low-mod : (v : ℕ) → low v ≡ v % 2 ^ 32
unfolding low
low-mod v = rw (bit_and_mask 32 v) (omega arith)

pre_output-halves : (v : ℕ) → v < 2 ^ 64 → pre_output (low v, high v) ≡ v
unfolding high
pre_output-halves v h =
    rw (low-mod v) (
      pre_output-sum (v % 2 ^ 32) (u32 (v / 2 ^ 32)) (omega arith) (omega arith) ∙ omega (arith, h))

high-pre_output : (l r : ℕ) → l < 2 ^ 32 → r < 2 ^ 32 → high (pre_output (l, r)) ≡ r
unfolding high
high-pre_output l r h k = rw (pre_output-sum l r h k) (omega (arith, h, k))

low-pre_output : (l r : ℕ) → l < 2 ^ 32 → r < 2 ^ 32 → low (pre_output (l, r)) ≡ l
low-pre_output l r h k =
    low-mod (pre_output (l, r)) ∙ rw (pre_output-sum l r h k) (omega (arith, h, k))

high-lt : (v : ℕ) → high v < 2 ^ 32
unfolding high
high-lt v = omega arith

low-lt : (v : ℕ) → low v < 2 ^ 32
low-lt v = rw (low-mod v) (omega arith)

pre_output-lt : (l r : ℕ) → l < 2 ^ 32 → r < 2 ^ 32 → pre_output (l, r) < 2 ^ 64
pre_output-lt l r h k = rw (pre_output-sum l r h k) (omega (arith, h, k))

-- What happens between the two permutations, and the last one.
core : List ℕ → ℕ → ℕ
core keys ip = permute (pre_output (rounds_loop keys (high ip) (low ip))) 64 fp_table

des_crypt-core :
    (block : ℕ) (keys : List ℕ) → des_crypt block keys ≡ core keys (permute block 64 ip_table)
unfolding des_crypt core high low
des_crypt-core block keys = refl

core-core :
    (keys : List ℕ) (ip : ℕ)
    → ip < 2 ^ 64
    → core (reversed keys) (permute (core keys ip) 64 ip_table) ≡ permute ip 64 fp_table
unfolding core
core-core keys ip h =
    let halves = rounds_loop keys (high ip) (low ip) in
    let (hl, hr) = rounds_loop-AreHalves keys (high ip) (low ip) (high-lt ip) (low-lt ip) in
    let out = pre_output halves in
    let crypt = λ (l r : ℕ). permute (pre_output (rounds_loop (reversed keys) l r)) 64 fp_table in
    ap (λ w. crypt (high w) (low w))
      (permute_ip-permute_fp out (pre_output-lt (halves.0) (halves.1) hl hr))
    ∙ ap (λ l. crypt l (low out)) (high-pre_output (halves.0) (halves.1) hl hr)
    ∙ ap (λ r. crypt (halves.1) r) (low-pre_output (halves.0) (halves.1) hl hr)
    ∙ ap (λ p. permute (pre_output p) 64 fp_table) (rounds_loop-reversed keys (high ip) (low ip))
    ∙ ap (λ w. permute w 64 fp_table) (pre_output-halves ip h)

-- The rounds with the keys in reverse undo the rounds with the keys, whatever the keys are.
pub des_crypt-des_crypt :
    (block : ℕ) (keys : List ℕ)
    → block < 2 ^ 64
    → des_crypt (des_crypt block keys) (reversed keys) ≡ block
des_crypt-des_crypt block keys h =
    rw
      (
        des_crypt-core block keys,
        des_crypt-core (core keys (permute block 64 ip_table)) (reversed keys),
      )
      (core-core keys (permute block 64 ip_table) (permute_ip-lt block)
        ∙ permute_fp-permute_ip block h)

pub des_crypt-lt : (block : ℕ) (keys : List ℕ) → des_crypt block keys < 2 ^ 64
unfolding des_crypt
des_crypt-lt block keys = permute_fp-lt _
