-- ===== src/MathBits/Laws.antt =====
-- LeadingZeros and Len of math/bits against the powers of two.
use wasigoc.Common.{
  ℕ, zero, suc, ◌+◌, ◌/◌, ◌%◌, ◌^◌, ◌≤◌, ◌<◌, ◌≡◌, ◌≢◌, false, arith, Bool-cases, inl, inr, ◌==◌,
  bit_and,
}
use wasigoc.Common.Bits.{bit_and_mask}
use native.Mathlib.Nat.{one-le-pow, pow-suc, div-lt_iff_lt-mul, le-div_iff_mul-le}
use wasigoc.MathBits.{leading_zeros_loop, leading_zeros64, len64}

bit_at : (i x : ℕ) → bit_and (x / 2 ^ i) 1 ≡ (x / 2 ^ i) % 2
bit_at i x = bit_and_mask 1 (x / 2 ^ i)

high_bit : (i x : ℕ) → x / 2 ^ i ≡ 0 → x < 2 ^ i
high_bit i x e = omega (
  arith,
  (div-lt_iff_lt-mul {k = 2 ^ i} {x = x} {y = 1} (one-le-pow i 2 (omega arith))).0
      (omega (arith, e)),
)

no_high_bit : (i x : ℕ) → x < 2 ^ suc i → x / 2 ^ i < 2
no_high_bit i x h =
    (div-lt_iff_lt-mul {k = 2 ^ i} {x = x} {y = 2} (one-le-pow i 2 (omega arith))).1
      (omega (arith, h, pow-suc 2 i))

at_least : (i x : ℕ) → 0 < x / 2 ^ i → 2 ^ i ≤ x
at_least i x h =
    omega
      (arith, (le-div_iff_mul-le {k = 2 ^ i} {x = 1} {y = x} (one-le-pow i 2 (omega arith))).0 h)

-- The place of the highest bit of a number below `2 ^ k`, from what the loop counted.
IsCounted : ℕ → ℕ → ℕ → ℕ → Type 0
IsCounted k n x r = (m : ℕ) × (r + suc m ≡ n + k) × (2 ^ m ≤ x) × (x < 2 ^ suc m)

leading_zeros_loop-IsCounted :
    (k n x : ℕ) → 0 < x → x < 2 ^ k → IsCounted k n x (leading_zeros_loop k n x)
unfolding leading_zeros_loop IsCounted
leading_zeros_loop-IsCounted zero n x pos h = absurd (omega arith)
leading_zeros_loop-IsCounted (suc i) n x pos h = elim (Bool-cases (bit_and (x / 2 ^ i) 1 == 1)) [
  | inl one ↦
      let b : bit_and (x / 2 ^ i) 1 ≡ 1 = ground arith in
      rw one (i, omega arith, at_least i x (omega (arith, bit_at i x, b)), h)
  | inr other ↦
      let b : bit_and (x / 2 ^ i) 1 ≢ 1 = ground arith in
      let z : x / 2 ^ i ≡ 0 = ground (arith, bit_at i x, b, no_high_bit i x h) in
      let (m, e, lo, hi) = leading_zeros_loop-IsCounted i (n + 1) x pos (high_bit i x z) in
      rw other (m, omega (arith, e), lo, hi)
]

-- Len64 of a number that is not zero and below 2 ^ 64 is one more than the exponent of the largest
-- power of two that does not exceed the number, and LeadingZeros64 is what is missing to 64.
pub len64_bounds :
    (x : ℕ)
    → 0 < x
    → x < 2 ^ 64
    → (m : ℕ) × (len64 x ≡ suc m)
      × (2 ^ m ≤ x)
      × (x < 2 ^ suc m)
      × (leading_zeros64 x + len64 x ≡ 64)
unfolding len64 leading_zeros64 IsCounted
len64_bounds x pos h =
    let nz : (x == 0) ≡ false = ground arith in
    let (m, e, lo, hi) = leading_zeros_loop-IsCounted 64 0 x pos h in
    rw nz (m, omega (arith, e), lo, hi, omega (arith, e))
