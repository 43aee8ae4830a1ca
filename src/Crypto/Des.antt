-- ===== src/Crypto/Des.antt =====
-- stdlib/crypto/des/des.go. Words of 32 and 64 bits are numbers; a conversion takes a remainder.
pub mod Permute
pub mod Laws
pub mod Inverse
use wasigoc.Common.{
  ℕ, zero, suc, ◌+◌, ◌-◌, ◌*◌, ◌/◌, ◌%◌, ◌^◌, Bool, ◌==◌, ltb, if◌then◌else◌, List, [], ◌∷◌, ◌++◌,
  foldl, bit_and, bit_or, bit_xor,
}
use wasigoc.Common.{length, get_or, take, drop}
use wasigoc.Common.Bits.{u8, u32, u64}
use wasigoc.Common.Outcome.{Outcome, ok, err, panic, ◌>>=◌}

unfoldable pub ip_table : List ℕ
ip_table =
    58 ∷ 50 ∷ 42 ∷ 34 ∷ 26 ∷ 18 ∷ 10 ∷ 2 ∷ 60 ∷ 52 ∷ 44 ∷ 36 ∷ 28 ∷ 20 ∷ 12 ∷ 4 ∷ 62 ∷ 54 ∷ 46 ∷ 38
    ∷ 30 ∷ 22 ∷ 14 ∷ 6 ∷ 64 ∷ 56 ∷ 48 ∷ 40 ∷ 32 ∷ 24 ∷ 16 ∷ 8 ∷ 57 ∷ 49 ∷ 41 ∷ 33 ∷ 25 ∷ 17 ∷ 9 ∷ 1
    ∷ 59 ∷ 51 ∷ 43 ∷ 35 ∷ 27 ∷ 19 ∷ 11 ∷ 3 ∷ 61 ∷ 53 ∷ 45 ∷ 37 ∷ 29 ∷ 21 ∷ 13 ∷ 5 ∷ 63 ∷ 55 ∷ 47
    ∷ 39 ∷ 31 ∷ 23 ∷ 15 ∷ 7 ∷ []

unfoldable pub fp_table : List ℕ
fp_table =
    40 ∷ 8 ∷ 48 ∷ 16 ∷ 56 ∷ 24 ∷ 64 ∷ 32 ∷ 39 ∷ 7 ∷ 47 ∷ 15 ∷ 55 ∷ 23 ∷ 63 ∷ 31 ∷ 38 ∷ 6 ∷ 46 ∷ 14
    ∷ 54 ∷ 22 ∷ 62 ∷ 30 ∷ 37 ∷ 5 ∷ 45 ∷ 13 ∷ 53 ∷ 21 ∷ 61 ∷ 29 ∷ 36 ∷ 4 ∷ 44 ∷ 12 ∷ 52 ∷ 20 ∷ 60
    ∷ 28 ∷ 35 ∷ 3 ∷ 43 ∷ 11 ∷ 51 ∷ 19 ∷ 59 ∷ 27 ∷ 34 ∷ 2 ∷ 42 ∷ 10 ∷ 50 ∷ 18 ∷ 58 ∷ 26 ∷ 33 ∷ 1 ∷ 41
    ∷ 9 ∷ 49 ∷ 17 ∷ 57 ∷ 25 ∷ []

unfoldable pub e_table : List ℕ
e_table =
    32 ∷ 1 ∷ 2 ∷ 3 ∷ 4 ∷ 5 ∷ 4 ∷ 5 ∷ 6 ∷ 7 ∷ 8 ∷ 9 ∷ 8 ∷ 9 ∷ 10 ∷ 11 ∷ 12 ∷ 13 ∷ 12 ∷ 13 ∷ 14 ∷ 15
    ∷ 16 ∷ 17 ∷ 16 ∷ 17 ∷ 18 ∷ 19 ∷ 20 ∷ 21 ∷ 20 ∷ 21 ∷ 22 ∷ 23 ∷ 24 ∷ 25 ∷ 24 ∷ 25 ∷ 26 ∷ 27 ∷ 28
    ∷ 29 ∷ 28 ∷ 29 ∷ 30 ∷ 31 ∷ 32 ∷ 1 ∷ []

unfoldable pub p_table : List ℕ
p_table =
    16 ∷ 7 ∷ 20 ∷ 21 ∷ 29 ∷ 12 ∷ 28 ∷ 17 ∷ 1 ∷ 15 ∷ 23 ∷ 26 ∷ 5 ∷ 18 ∷ 31 ∷ 10 ∷ 2 ∷ 8 ∷ 24 ∷ 14
    ∷ 32 ∷ 27 ∷ 3 ∷ 9 ∷ 19 ∷ 13 ∷ 30 ∷ 6 ∷ 22 ∷ 11 ∷ 4 ∷ 25 ∷ []

unfoldable pub pc1_table : List ℕ
pc1_table =
    57 ∷ 49 ∷ 41 ∷ 33 ∷ 25 ∷ 17 ∷ 9 ∷ 1 ∷ 58 ∷ 50 ∷ 42 ∷ 34 ∷ 26 ∷ 18 ∷ 10 ∷ 2 ∷ 59 ∷ 51 ∷ 43 ∷ 35
    ∷ 27 ∷ 19 ∷ 11 ∷ 3 ∷ 60 ∷ 52 ∷ 44 ∷ 36 ∷ 63 ∷ 55 ∷ 47 ∷ 39 ∷ 31 ∷ 23 ∷ 15 ∷ 7 ∷ 62 ∷ 54 ∷ 46
    ∷ 38 ∷ 30 ∷ 22 ∷ 14 ∷ 6 ∷ 61 ∷ 53 ∷ 45 ∷ 37 ∷ 29 ∷ 21 ∷ 13 ∷ 5 ∷ 28 ∷ 20 ∷ 12 ∷ 4 ∷ []

unfoldable pub pc2_table : List ℕ
pc2_table =
    14 ∷ 17 ∷ 11 ∷ 24 ∷ 1 ∷ 5 ∷ 3 ∷ 28 ∷ 15 ∷ 6 ∷ 21 ∷ 10 ∷ 23 ∷ 19 ∷ 12 ∷ 4 ∷ 26 ∷ 8 ∷ 16 ∷ 7 ∷ 27
    ∷ 20 ∷ 13 ∷ 2 ∷ 41 ∷ 52 ∷ 31 ∷ 37 ∷ 47 ∷ 55 ∷ 30 ∷ 40 ∷ 51 ∷ 45 ∷ 33 ∷ 48 ∷ 44 ∷ 49 ∷ 39 ∷ 56
    ∷ 34 ∷ 53 ∷ 46 ∷ 42 ∷ 50 ∷ 36 ∷ 29 ∷ 32 ∷ []

unfoldable pub shift_schedule : List ℕ
shift_schedule = 1 ∷ 1 ∷ 2 ∷ 2 ∷ 2 ∷ 2 ∷ 2 ∷ 2 ∷ 1 ∷ 2 ∷ 2 ∷ 2 ∷ 2 ∷ 2 ∷ 2 ∷ 1 ∷ []

unfoldable pub s_boxes : List ℕ
s_boxes =
    14 ∷ 4 ∷ 13 ∷ 1 ∷ 2 ∷ 15 ∷ 11 ∷ 8 ∷ 3 ∷ 10 ∷ 6 ∷ 12 ∷ 5 ∷ 9 ∷ 0 ∷ 7 ∷ 0 ∷ 15 ∷ 7 ∷ 4 ∷ 14 ∷ 2
    ∷ 13 ∷ 1 ∷ 10 ∷ 6 ∷ 12 ∷ 11 ∷ 9 ∷ 5 ∷ 3 ∷ 8 ∷ 4 ∷ 1 ∷ 14 ∷ 8 ∷ 13 ∷ 6 ∷ 2 ∷ 11 ∷ 15 ∷ 12 ∷ 9 ∷ 7
    ∷ 3 ∷ 10 ∷ 5 ∷ 0 ∷ 15 ∷ 12 ∷ 8 ∷ 2 ∷ 4 ∷ 9 ∷ 1 ∷ 7 ∷ 5 ∷ 11 ∷ 3 ∷ 14 ∷ 10 ∷ 0 ∷ 6 ∷ 13 ∷ 15 ∷ 1
    ∷ 8 ∷ 14 ∷ 6 ∷ 11 ∷ 3 ∷ 4 ∷ 9 ∷ 7 ∷ 2 ∷ 13 ∷ 12 ∷ 0 ∷ 5 ∷ 10 ∷ 3 ∷ 13 ∷ 4 ∷ 7 ∷ 15 ∷ 2 ∷ 8 ∷ 14
    ∷ 12 ∷ 0 ∷ 1 ∷ 10 ∷ 6 ∷ 9 ∷ 11 ∷ 5 ∷ 0 ∷ 14 ∷ 7 ∷ 11 ∷ 10 ∷ 4 ∷ 13 ∷ 1 ∷ 5 ∷ 8 ∷ 12 ∷ 6 ∷ 9 ∷ 3
    ∷ 2 ∷ 15 ∷ 13 ∷ 8 ∷ 10 ∷ 1 ∷ 3 ∷ 15 ∷ 4 ∷ 2 ∷ 11 ∷ 6 ∷ 7 ∷ 12 ∷ 0 ∷ 5 ∷ 14 ∷ 9 ∷ 10 ∷ 0 ∷ 9 ∷ 14
    ∷ 6 ∷ 3 ∷ 15 ∷ 5 ∷ 1 ∷ 13 ∷ 12 ∷ 7 ∷ 11 ∷ 4 ∷ 2 ∷ 8 ∷ 13 ∷ 7 ∷ 0 ∷ 9 ∷ 3 ∷ 4 ∷ 6 ∷ 10 ∷ 2 ∷ 8
    ∷ 5 ∷ 14 ∷ 12 ∷ 11 ∷ 15 ∷ 1 ∷ 13 ∷ 6 ∷ 4 ∷ 9 ∷ 8 ∷ 15 ∷ 3 ∷ 0 ∷ 11 ∷ 1 ∷ 2 ∷ 12 ∷ 5 ∷ 10 ∷ 14
    ∷ 7 ∷ 1 ∷ 10 ∷ 13 ∷ 0 ∷ 6 ∷ 9 ∷ 8 ∷ 7 ∷ 4 ∷ 15 ∷ 14 ∷ 3 ∷ 11 ∷ 5 ∷ 2 ∷ 12 ∷ 7 ∷ 13 ∷ 14 ∷ 3 ∷ 0
    ∷ 6 ∷ 9 ∷ 10 ∷ 1 ∷ 2 ∷ 8 ∷ 5 ∷ 11 ∷ 12 ∷ 4 ∷ 15 ∷ 13 ∷ 8 ∷ 11 ∷ 5 ∷ 6 ∷ 15 ∷ 0 ∷ 3 ∷ 4 ∷ 7 ∷ 2
    ∷ 12 ∷ 1 ∷ 10 ∷ 14 ∷ 9 ∷ 10 ∷ 6 ∷ 9 ∷ 0 ∷ 12 ∷ 11 ∷ 7 ∷ 13 ∷ 15 ∷ 1 ∷ 3 ∷ 14 ∷ 5 ∷ 2 ∷ 8 ∷ 4 ∷ 3
    ∷ 15 ∷ 0 ∷ 6 ∷ 10 ∷ 1 ∷ 13 ∷ 8 ∷ 9 ∷ 4 ∷ 5 ∷ 11 ∷ 12 ∷ 7 ∷ 2 ∷ 14 ∷ 2 ∷ 12 ∷ 4 ∷ 1 ∷ 7 ∷ 10 ∷ 11
    ∷ 6 ∷ 8 ∷ 5 ∷ 3 ∷ 15 ∷ 13 ∷ 0 ∷ 14 ∷ 9 ∷ 14 ∷ 11 ∷ 2 ∷ 12 ∷ 4 ∷ 7 ∷ 13 ∷ 1 ∷ 5 ∷ 0 ∷ 15 ∷ 10 ∷ 3
    ∷ 9 ∷ 8 ∷ 6 ∷ 4 ∷ 2 ∷ 1 ∷ 11 ∷ 10 ∷ 13 ∷ 7 ∷ 8 ∷ 15 ∷ 9 ∷ 12 ∷ 5 ∷ 6 ∷ 3 ∷ 0 ∷ 14 ∷ 11 ∷ 8 ∷ 12
    ∷ 7 ∷ 1 ∷ 14 ∷ 2 ∷ 13 ∷ 6 ∷ 15 ∷ 0 ∷ 9 ∷ 10 ∷ 4 ∷ 5 ∷ 3 ∷ 12 ∷ 1 ∷ 10 ∷ 15 ∷ 9 ∷ 2 ∷ 6 ∷ 8 ∷ 0
    ∷ 13 ∷ 3 ∷ 4 ∷ 14 ∷ 7 ∷ 5 ∷ 11 ∷ 10 ∷ 15 ∷ 4 ∷ 2 ∷ 7 ∷ 12 ∷ 9 ∷ 5 ∷ 6 ∷ 1 ∷ 13 ∷ 14 ∷ 0 ∷ 11 ∷ 3
    ∷ 8 ∷ 9 ∷ 14 ∷ 15 ∷ 5 ∷ 2 ∷ 8 ∷ 12 ∷ 3 ∷ 7 ∷ 0 ∷ 4 ∷ 10 ∷ 1 ∷ 13 ∷ 11 ∷ 6 ∷ 4 ∷ 3 ∷ 2 ∷ 12 ∷ 9
    ∷ 5 ∷ 15 ∷ 10 ∷ 11 ∷ 14 ∷ 1 ∷ 7 ∷ 6 ∷ 0 ∷ 8 ∷ 13 ∷ 4 ∷ 11 ∷ 2 ∷ 14 ∷ 15 ∷ 0 ∷ 8 ∷ 13 ∷ 3 ∷ 12
    ∷ 9 ∷ 7 ∷ 5 ∷ 10 ∷ 6 ∷ 1 ∷ 13 ∷ 0 ∷ 11 ∷ 7 ∷ 4 ∷ 9 ∷ 1 ∷ 10 ∷ 14 ∷ 3 ∷ 5 ∷ 12 ∷ 2 ∷ 15 ∷ 8 ∷ 6
    ∷ 1 ∷ 4 ∷ 11 ∷ 13 ∷ 12 ∷ 3 ∷ 7 ∷ 14 ∷ 10 ∷ 15 ∷ 6 ∷ 8 ∷ 0 ∷ 5 ∷ 9 ∷ 2 ∷ 6 ∷ 11 ∷ 13 ∷ 8 ∷ 1 ∷ 4
    ∷ 10 ∷ 7 ∷ 9 ∷ 5 ∷ 0 ∷ 15 ∷ 14 ∷ 2 ∷ 3 ∷ 12 ∷ 13 ∷ 2 ∷ 8 ∷ 4 ∷ 6 ∷ 15 ∷ 11 ∷ 1 ∷ 10 ∷ 9 ∷ 3 ∷ 14
    ∷ 5 ∷ 0 ∷ 12 ∷ 7 ∷ 1 ∷ 15 ∷ 13 ∷ 8 ∷ 10 ∷ 3 ∷ 7 ∷ 4 ∷ 12 ∷ 5 ∷ 6 ∷ 11 ∷ 0 ∷ 14 ∷ 9 ∷ 2 ∷ 7 ∷ 11
    ∷ 4 ∷ 1 ∷ 9 ∷ 12 ∷ 14 ∷ 2 ∷ 0 ∷ 6 ∷ 10 ∷ 13 ∷ 15 ∷ 3 ∷ 5 ∷ 8 ∷ 2 ∷ 1 ∷ 14 ∷ 7 ∷ 4 ∷ 10 ∷ 8 ∷ 13
    ∷ 15 ∷ 12 ∷ 9 ∷ 0 ∷ 3 ∷ 5 ∷ 6 ∷ 11 ∷ []

-- `(val >> uint(shift)) & 1`
unfoldable pub get_bit : ℕ → ℕ → ℕ → ℕ
get_bit val total_bits place = bit_and (val / 2 ^ (total_bits - place)) 1

-- The loop of permute.
pub permute_loop : ℕ → ℕ → List ℕ → ℕ → ℕ
permute_loop input input_bits [] out = out
permute_loop input input_bits (place ∷ table) out =
    permute_loop input input_bits table (bit_or (u64 (out * 2)) (get_bit input input_bits place))

unfoldable pub permute : ℕ → ℕ → List ℕ → ℕ
permute input input_bits table = permute_loop input input_bits table 0

pub rotate28_left : ℕ → ℕ → ℕ
rotate28_left v n = bit_and (bit_or (u32 (v * 2 ^ n)) (v / 2 ^ (28 - n))) 268435455

-- The loop over the rounds of NewCipher, one shift of the schedule for each.
pub key_loop : List ℕ → ℕ → ℕ → List ℕ
key_loop [] c d = []
key_loop (shift ∷ shifts) c d =
    let c' = rotate28_left c shift in
    let d' = rotate28_left d shift in
    permute (bit_or (u64 (c' * 2 ^ 28)) d') 56 pc2_table ∷ key_loop shifts c' d'

-- `v = (v << 8) | uint64(b)`
abbrev pub shift_in : ℕ → ℕ → ℕ
shift_in v b = bit_or (u64 (v * 2 ^ 8)) b

pub subkeys : List ℕ → List ℕ
subkeys key =
    let pc1 = permute (foldl shift_in 0 key) 64 pc1_table in
    key_loop shift_schedule (u32 (pc1 / 2 ^ 28)) (u32 (bit_and pc1 268435455))

pub new_cipher : List ℕ → Outcome (List ℕ)
new_cipher key =
    if length key == 8
    then ok (subkeys key)
    else err "crypto/des: invalid key size, must be 8 bytes"

-- The value that box `i` gives for six bits.
pub substitute : ℕ → ℕ → ℕ
substitute i chunk =
    let row = bit_or (bit_and (chunk / 2 ^ 4) 2) (bit_and chunk 1) in
    let col = bit_and (chunk / 2) 15 in get_or s_boxes (i * 64 + row * 16 + col) 0

-- The loop over the boxes from box `i` on.
pub boxes_loop : ℕ → ℕ → ℕ → ℕ → ℕ
boxes_loop zero i x out = out
boxes_loop (suc count) i x out =
    let val = substitute i (bit_and (x / 2 ^ (42 - 6 * i)) 63) in
    boxes_loop count (i + 1) x (bit_or (u32 (out * 2 ^ 4)) (u32 val))

pub feistel : ℕ → ℕ → ℕ
feistel r subkey =
    let x = bit_xor (permute r 32 e_table) subkey in u32 (permute (boxes_loop 8 0 x 0) 32 p_table)

-- The loop over the rounds, one subkey for each.
pub rounds_loop : List ℕ → ℕ → ℕ → ℕ × ℕ
rounds_loop [] l r = (l, r)
rounds_loop (subkey ∷ keys) l r = rounds_loop keys r (bit_xor l (feistel r subkey))

-- The halves are joined with the right one first.
abbrev pub pre_output : ℕ × ℕ → ℕ
pre_output (l, r) = bit_or (u64 (r * 2 ^ 32)) l

pub des_crypt : ℕ → List ℕ → ℕ
des_crypt block keys =
    let ip = permute block 64 ip_table in
    permute (pre_output (rounds_loop keys (u32 (ip / 2 ^ 32)) (u32 (bit_and ip 4294967295)))) 64
      fp_table

pub bytes_to_block : List ℕ → ℕ
bytes_to_block src = foldl shift_in 0 (take 8 src)

-- The loop of blockToBytes, which writes the last byte first.
pub block_to_bytes : ℕ → ℕ → List ℕ → List ℕ
block_to_bytes zero v out = out
block_to_bytes (suc count) v out = block_to_bytes count (v / 2 ^ 8) (u8 v ∷ out)

-- A block is read from the start of `src` and written to the start of `dst`; both panic out of range.
unfoldable pub on_block : (ℕ → ℕ) → List ℕ → List ℕ → Outcome (List ℕ)
on_block f dst src =
    if ltb (length src) 8
    then panic
    else if ltb (length dst) 8
    then panic
    else ok (block_to_bytes 8 (f (bytes_to_block src)) [] ++ drop 8 dst)

pub encrypt : List ℕ → List ℕ → List ℕ → Outcome (List ℕ)
encrypt keys dst src = on_block (λ block. des_crypt block keys) dst src

-- `reversed[i] = c.subkeys[15-i]`
pub reversed : List ℕ → List ℕ
reversed [] = []
reversed (key ∷ keys) = reversed keys ++ key ∷ []

pub decrypt : List ℕ → List ℕ → List ℕ → Outcome (List ℕ)
decrypt keys dst src = on_block (λ block. des_crypt block (reversed keys)) dst src
