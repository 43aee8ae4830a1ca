-- ===== src/MathBits.antt =====
-- stdlib/math/bits/bits.go. A shift to the right by `i` is a division by `2 ^ i`, and one to the left
-- wraps around at the width.
pub mod Laws
use wasigoc.Common.{
  ℕ, zero, suc, ◌+◌, ◌-◌, ◌*◌, ◌/◌, ◌%◌, ◌^◌, Bool, true, false, ◌==◌, if◌then◌else◌,
}
use wasigoc.Common.{bit_and, bit_or}

-- The loop of OnesCount64 on fuel: a bit leaves in each round.
unfoldable pub ones_count_loop : ℕ → ℕ → ℕ → ℕ
ones_count_loop zero n x = n
ones_count_loop (suc fuel) n x =
    let rest = ones_count_loop fuel (if bit_and x 1 == 1 then n + 1 else n) (x / 2) in
    if x == 0 then n else rest

unfoldable pub ones_count64 : ℕ → ℕ
ones_count64 x = ones_count_loop 64 0 x

unfoldable pub ones_count32 : ℕ → ℕ
ones_count32 x = ones_count64 x

-- The loop of LeadingZeros at the bit below the first `k`.
unfoldable pub leading_zeros_loop : ℕ → ℕ → ℕ → ℕ
leading_zeros_loop zero n x = n
leading_zeros_loop (suc i) n x =
    let rest = leading_zeros_loop i (n + 1) x in if bit_and (x / 2 ^ i) 1 == 1 then n else rest

unfoldable pub leading_zeros64 : ℕ → ℕ
leading_zeros64 x = if x == 0 then 64 else leading_zeros_loop 64 0 x

unfoldable pub leading_zeros32 : ℕ → ℕ
leading_zeros32 x = if x == 0 then 32 else leading_zeros_loop 32 0 x

-- The loop of TrailingZeros on fuel.
unfoldable pub trailing_zeros_loop : ℕ → ℕ → ℕ → ℕ
trailing_zeros_loop zero n x = n
trailing_zeros_loop (suc fuel) n x =
    let rest = trailing_zeros_loop fuel (n + 1) x in if bit_and (x / 2 ^ n) 1 == 0 then rest else n

unfoldable pub trailing_zeros64 : ℕ → ℕ
trailing_zeros64 x = if x == 0 then 64 else trailing_zeros_loop 64 0 x

unfoldable pub trailing_zeros32 : ℕ → ℕ
trailing_zeros32 x = if x == 0 then 32 else trailing_zeros_loop 32 0 x

unfoldable pub len64 : ℕ → ℕ
len64 x = 64 - leading_zeros64 x

unfoldable pub len32 : ℕ → ℕ
len32 x = 32 - leading_zeros32 x

-- The loop of Reverse64 and Reverse32, with `k` rounds left, at width `w`.
unfoldable pub reverse_loop : ℕ → ℕ → ℕ → ℕ → ℕ
reverse_loop w zero out x = out
reverse_loop w (suc k) out x = reverse_loop w k (bit_or ((out * 2) % 2 ^ w) (bit_and x 1)) (x / 2)

unfoldable pub reverse64 : ℕ → ℕ
reverse64 x = reverse_loop 64 64 0 x

unfoldable pub reverse32 : ℕ → ℕ
reverse32 x = reverse_loop 32 32 0 x

-- For `k` that is not negative, `((k % w) + w) % w` is `k % w`.
unfoldable pub rotate_left64 : ℕ → ℕ → ℕ
rotate_left64 x k =
    let s = (k % 64 + 64) % 64 in
    if s == 0 then x else bit_or ((x * 2 ^ s) % 2 ^ 64) (x / 2 ^ (64 - s))

unfoldable pub rotate_left32 : ℕ → ℕ → ℕ
rotate_left32 x k =
    let s = (k % 32 + 32) % 32 in
    if s == 0 then x else bit_or ((x * 2 ^ s) % 2 ^ 32) (x / 2 ^ (32 - s))
