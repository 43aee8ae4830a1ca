-- ===== src/Crypto/Subtle.antt =====
-- stdlib/crypto/subtle/subtle.go. An int32 is its 32 bits as a number.
pub mod Laws
use wasigoc.Common.{
  ℕ, zero, suc, ◌+◌, ◌-◌, ◌*◌, ◌/◌, ◌%◌, ◌^◌, List, [], ◌∷◌, ◌==◌, not, if◌then◌else◌, length,
  bit_and, bit_or, bit_xor,
}
use wasigoc.Common.Bits.{u8, u32, u64}
use wasigoc.Common.Outcome.{Outcome, ok, panic}

pub compare_loop : ℕ → List ℕ → List ℕ → ℕ
compare_loop v [] y = v
compare_loop v (a ∷ x) [] = v
compare_loop v (a ∷ x) (b ∷ y) = compare_loop (bit_or v (bit_xor a b)) x y

-- `(uint32(x^y) - 1) >> 31`, which wraps around at 0
pub constant_time_byte_eq : ℕ → ℕ → ℕ
constant_time_byte_eq x y = u32 (bit_xor x y + (2 ^ 32 - 1)) / 2 ^ 31

pub constant_time_compare : List ℕ → List ℕ → ℕ
constant_time_compare x y =
    if not (length x == length y) then 0 else constant_time_byte_eq (compare_loop 0 x y) 0

pub constant_time_eq : ℕ → ℕ → ℕ
constant_time_eq x y = u64 (bit_xor x y + (2 ^ 64 - 1)) / 2 ^ 63

-- `((x32 - y32 - 1) >> 31) & 1`: the sign bit of the difference
pub constant_time_less_or_eq : ℕ → ℕ → ℕ
constant_time_less_or_eq x y = u32 (u32 (u32 x + (2 ^ 32 - u32 y)) + (2 ^ 32 - 1)) / 2 ^ 31 % 2

-- `x[i]&^xmask | y[i]&xmask` at each place
pub copy_loop : ℕ → List ℕ → List ℕ → List ℕ
copy_loop mask [] y = []
copy_loop mask (a ∷ x) [] = a ∷ x
copy_loop mask (a ∷ x) (b ∷ y) =
    bit_or (bit_and a (bit_xor mask 255)) (bit_and b mask) ∷ copy_loop mask x y

-- `byte(v * -1)` for v that is not negative is 255 v on 8 bits.
pub constant_time_copy : ℕ → List ℕ → List ℕ → Outcome (List ℕ)
constant_time_copy v x y =
    if not (length x == length y) then panic else ok (copy_loop (u8 (255 * v)) x y)
