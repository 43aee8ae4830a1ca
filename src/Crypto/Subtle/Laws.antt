-- ===== src/Crypto/Subtle/Laws.antt =====
-- The comparisons of subtle.go against `==` and `<=`, and the conditional copy.
use wasigoc.Common.{
  ℕ, ◌^◌, ◌<◌, ◌≤◌, ◌≡◌, ◌≢◌, ◌↔◌, refl, ap, ◌∙◌, arith, List, [], ◌∷◌, ◌==◌, true, false, All,
  if◌then◌else◌,
}
use wasigoc.Common.{length, bit_and, bit_or, bit_xor, leb, Bool-cases, inl, inr}
use wasigoc.Common.Bits.{
  IsByte, bit_xor-eq_zero, bit_xor_self, bit_xor-zero, bit_xor-lt, bit_or-lt, bit_or-eq_zero,
  bit_or-zero, bit_and-zero, bit_and_mask, zero-bit_or,
}
use wasigoc.Common.Outcome.{ok, panic}
use wasigoc.Crypto.Subtle.{
  compare_loop, constant_time_byte_eq, constant_time_compare, constant_time_less_or_eq, copy_loop,
  constant_time_copy,
}

-- A loop value of zero stands for lists that agree and a start of zero.
compare_loop-zero :
    (v : ℕ) (x y : List ℕ) → length x ≡ length y → compare_loop v x y ≡ 0 → (v ≡ 0) × (x ≡ y)
unfolding compare_loop
compare_loop-zero v [] [] len e = (e, refl)
compare_loop-zero v [] (b ∷ y) len e = absurd (omega (arith, len))
compare_loop-zero v (a ∷ x) [] len e = absurd (omega (arith, len))
compare_loop-zero v (a ∷ x) (b ∷ y) len e =
    let (zero_or, same) = compare_loop-zero (bit_or v (bit_xor a b)) x y (omega (arith, len)) e in
    let (zero_v, zero_xor) = bit_or-eq_zero v (bit_xor a b) zero_or in
    (zero_v, ap (λ c. c ∷ x) (bit_xor-eq_zero a b zero_xor) ∙ ap (◌∷◌ b) same)

compare_loop_self : (x : List ℕ) → compare_loop 0 x x ≡ 0
unfolding compare_loop
compare_loop_self [] = refl
compare_loop_self (a ∷ x) = rw (bit_xor_self a) (compare_loop_self x)

compare_loop-lt :
    (v : ℕ) (x y : List ℕ) → v < 2 ^ 8 → All IsByte x → All IsByte y → compare_loop v x y < 2 ^ 8
unfolding compare_loop
compare_loop-lt v [] y h k l = h
compare_loop-lt v (a ∷ x) [] h k l = h
compare_loop-lt v (a ∷ x) (b ∷ y) h (ka, k) (lb, l) =
    compare_loop-lt (bit_or v (bit_xor a b)) x y
      (bit_or-lt 8 v (bit_xor a b) h (bit_xor-lt 8 a b ka lb)) k l

byte_eq_none : constant_time_byte_eq 0 0 ≡ 1
unfolding constant_time_byte_eq
byte_eq_none = refl

byte_eq_some : (v : ℕ) → 0 < v → v < 2 ^ 8 → constant_time_byte_eq v 0 ≡ 0
unfolding constant_time_byte_eq
byte_eq_some v h k = rw (bit_xor-zero v) (omega (arith, h, k))

-- On bytes ConstantTimeCompare returns 1 for slices that are equal and 0 for all others.
pub constant_time_compare_iff :
    (x y : List ℕ)
    → All IsByte x
    → All IsByte y
    → (constant_time_compare x y ≤ 1) × ((constant_time_compare x y ≡ 1) ↔ (x ≡ y))
unfolding constant_time_compare
constant_time_compare_iff x y h k = elim (Bool-cases (length x == length y)) [
  | inr differ ↦ rw differ (
    omega arith,
    (
      λ e. absurd (omega (arith, e)),
      λ e. (let len : length x ≡ length y = ap length e in absurd (ground (arith, len, differ))),
    ),
  )
  | inl same ↦
      let len : length x ≡ length y = ground (arith, same) in
      let bound = compare_loop-lt 0 x y (omega arith) h k in
      elim (Bool-cases (compare_loop 0 x y == 0)) [
        | inl agree ↦
            let zero_loop : compare_loop 0 x y ≡ 0 = ground (arith, agree) in
            rw (same, zero_loop, byte_eq_none)
              (omega arith, (λ e. (compare_loop-zero 0 x y len zero_loop).1, λ e. refl))
        | inr apart ↦
            let some_digit = byte_eq_some (compare_loop 0 x y) (ground (arith, apart)) bound in
            rw (same, some_digit)
              (
                omega arith,
                (
                  λ e. absurd (omega (arith, e)),
                  λ e.
                      (let zero_loop : compare_loop 0 x y ≡ 0 =
                          ap (λ t. compare_loop 0 t y) e ∙ compare_loop_self y in
                        absurd (ground (arith, apart, zero_loop))),
                ),
              )
      ]
]

copy_loop-all : (x y : List ℕ) → length x ≡ length y → All IsByte y → copy_loop 255 x y ≡ y
unfolding copy_loop
copy_loop-all [] [] len h = refl
copy_loop-all [] (b ∷ y) len h = absurd (omega (arith, len))
copy_loop-all (a ∷ x) [] len h = absurd (omega (arith, len))
copy_loop-all (a ∷ x) (b ∷ y) len (hb, h) =
    let kept : bit_and b 255 ≡ b = omega (arith, bit_and_mask 8 b, hb) in
    rw (bit_and-zero a, kept, zero-bit_or b, copy_loop-all x y (omega (arith, len)) h) refl

copy_loop-none : (x y : List ℕ) → All IsByte x → copy_loop 0 x y ≡ x
unfolding copy_loop
copy_loop-none [] y h = refl
copy_loop-none (a ∷ x) [] h = refl
copy_loop-none (a ∷ x) (b ∷ y) (ha, h) =
    let kept : bit_and a 255 ≡ a = omega (arith, bit_and_mask 8 a, ha) in
    rw (bit_and-zero b, kept, bit_or-zero a, copy_loop-none x y h) refl

-- ConstantTimeCopy of bytes leaves y for v = 1 and x for v = 0, if they have one length, and panics
-- otherwise.
pub constant_time_copy_lem :
    (x y : List ℕ)
    → All IsByte x
    → All IsByte y
    → (length x ≡ length y → (constant_time_copy 1 x y ≡ ok y) × (constant_time_copy 0 x y ≡ ok x))
      × ((v : ℕ) → length x ≢ length y → constant_time_copy v x y ≡ panic)
unfolding constant_time_copy
constant_time_copy_lem x y h k = (
  λ len.
      (let same : (length x == length y) ≡ true = ground (arith, len) in
        rw same (ap ok (copy_loop-all x y len k), ap ok (copy_loop-none x y h))),
  λ v apart.
      (let differ : (length x == length y) ≡ false = ground (arith, apart) in rw differ refl),
)

-- ConstantTimeLessOrEq of ints up to 2^31 - 1 is 1 if x <= y, and 0 otherwise.
pub constant_time_less_or_eq_lem :
    (x y : ℕ) → x < 2 ^ 31 → y < 2 ^ 31 → constant_time_less_or_eq x y ≡ (if leb x y then 1 else 0)
unfolding constant_time_less_or_eq
constant_time_less_or_eq_lem x y h k = ground arith
