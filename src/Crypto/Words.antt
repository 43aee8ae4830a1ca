-- ===== src/Crypto/Words.antt =====
-- Words of 32 and 64 bits as the digests read, rotate and write them.
use wasigoc.Common.{ℕ, ◌-◌, ◌*◌, ◌/◌, ◌^◌, List, [], ◌∷◌, bit_or, bit_xor}
use wasigoc.Common.Bits.{u8, u32, u64}

-- `(x << c) | (x >> (32 - c))`
pub left_rotate : ℕ → ℕ → ℕ
left_rotate x c = bit_or (u32 (x * 2 ^ c)) (x / 2 ^ (32 - c))

-- `(x >> c) | (x << (32 - c))`
pub right_rotate : ℕ → ℕ → ℕ
right_rotate x c = bit_or (x / 2 ^ c) (u32 (x * 2 ^ (32 - c)))

-- The same on 64 bits.
pub right_rotate64 : ℕ → ℕ → ℕ
right_rotate64 x c = bit_or (x / 2 ^ c) (u64 (x * 2 ^ (64 - c)))

-- `^x` on 32 and on 64 bits
pub complement : ℕ → ℕ
complement x = bit_xor x 4294967295

pub complement64 : ℕ → ℕ
complement64 x = bit_xor x 18446744073709551615

-- The words of a chunk, the first byte highest.
pub big_words : List ℕ → List ℕ
big_words (a ∷ b ∷ c ∷ d ∷ chunk) =
    bit_or (bit_or (bit_or (a * 2 ^ 24) (b * 2 ^ 16)) (c * 2 ^ 8)) d ∷ big_words chunk
big_words chunk = []

-- The words of a chunk, the first byte lowest.
pub little_words : List ℕ → List ℕ
little_words (a ∷ b ∷ c ∷ d ∷ chunk) =
    bit_or (bit_or (bit_or a (b * 2 ^ 8)) (c * 2 ^ 16)) (d * 2 ^ 24) ∷ little_words chunk
little_words chunk = []

-- `v = (v << 8) | x` on 64 bits
pub shift_in : ℕ → ℕ → ℕ
shift_in v x = bit_or (u64 (v * 2 ^ 8)) x

pub big_words64 : List ℕ → List ℕ
big_words64 (a ∷ b ∷ c ∷ d ∷ e ∷ f ∷ g ∷ h ∷ chunk) =
    shift_in
      (shift_in (shift_in (shift_in (shift_in (shift_in (shift_in (shift_in 0 a) b) c) d) e) f) g) h
    ∷ big_words64 chunk
big_words64 chunk = []

-- The bytes of a word.
abbrev pub big_bytes : ℕ → List ℕ
big_bytes v = u8 (v / 2 ^ 24) ∷ u8 (v / 2 ^ 16) ∷ u8 (v / 2 ^ 8) ∷ u8 v ∷ []

abbrev pub little_bytes : ℕ → List ℕ
little_bytes v = u8 v ∷ u8 (v / 2 ^ 8) ∷ u8 (v / 2 ^ 16) ∷ u8 (v / 2 ^ 24) ∷ []

abbrev pub big_bytes64 : ℕ → List ℕ
big_bytes64 v =
    u8 (v / 2 ^ 56)
    ∷ u8 (v / 2 ^ 48)
    ∷ u8 (v / 2 ^ 40)
    ∷ u8 (v / 2 ^ 32)
    ∷ u8 (v / 2 ^ 24)
    ∷ u8 (v / 2 ^ 16)
    ∷ u8 (v / 2 ^ 8)
    ∷ u8 v
    ∷ []

abbrev pub little_bytes64 : ℕ → List ℕ
little_bytes64 v =
    u8 v
    ∷ u8 (v / 2 ^ 8)
    ∷ u8 (v / 2 ^ 16)
    ∷ u8 (v / 2 ^ 24)
    ∷ u8 (v / 2 ^ 32)
    ∷ u8 (v / 2 ^ 40)
    ∷ u8 (v / 2 ^ 48)
    ∷ u8 (v / 2 ^ 56)
    ∷ []
