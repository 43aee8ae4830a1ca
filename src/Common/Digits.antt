-- ===== src/Common/Digits.antt =====
-- The bit operations by their lowest digit: one equation for each, with no fuel.
use Prim.Native.Nat.{ℕ, zero, suc, ◌+◌, ◌*◌, ◌/◌, ◌%◌, ◌≤◌, ◌<◌, min, max, differ}
use Prim.Native.Nat.{bit_and, bit_or, bit_xor, digits, bitwise}
use Prim.Native.Nat.{bit_and-bitwise, bit_or-bitwise, bit_xor-bitwise}
use mathlib.Core.Path.{◌≡◌, refl, ap}
use native.Mathlib.Omega.{arith}

-- Any fuel that is at least the first number gives the same digits.
enough_fuel :
    (x y : ℕ) (z : ℕ → ℕ) (op : ℕ → ℕ → ℕ) (k l : ℕ)
    → (x ≤ k) × (x ≤ l)
    → digits z op k x y ≡ digits z op l x y
enough_fuel zero y z op zero zero h = refl
enough_fuel zero y z op zero (suc l) h = refl
enough_fuel zero y z op (suc k) zero h = refl
enough_fuel zero y z op (suc k) (suc l) h = refl
enough_fuel (suc x) y z op zero l h = absurd (omega arith)
enough_fuel (suc x) y z op (suc k) zero h = absurd (omega arith)
enough_fuel (suc x) y z op (suc k) (suc l) h =
    ap (λ (t : ℕ). t * 2 + op (suc x % 2) (y % 2))
      (enough_fuel (suc x / 2) (y / 2) z op k l (omega arith))

-- So the lowest digit splits off, and the rest starts with its own fuel.
digits_step :
    (z : ℕ → ℕ) (op : ℕ → ℕ → ℕ) (x y : ℕ)
    → bitwise z op (suc x) y ≡ op (suc x % 2) (y % 2) + 2 * bitwise z op (suc x / 2) (y / 2)
digits_step z op x y =
    omega (arith, enough_fuel (suc x / 2) (y / 2) z op x (suc x / 2) (omega arith))

pub bit_or_step : (x y : ℕ) → bit_or x y ≡ max (x % 2) (y % 2) + 2 * bit_or (x / 2) (y / 2)
bit_or_step zero y = simp bit_or-bitwise (omega arith)
bit_or_step (suc x) y = simp bit_or-bitwise (digits_step (λ d. d) max x y)

pub bit_and_step : (x y : ℕ) → bit_and x y ≡ min (x % 2) (y % 2) + 2 * bit_and (x / 2) (y / 2)
bit_and_step zero y = simp bit_and-bitwise (omega arith)
bit_and_step (suc x) y = simp bit_and-bitwise (digits_step (λ d. 0) min x y)

-- `differ` is the exclusive or of two binary digits.
differ_digit : (x y : ℕ) → x < 2 → y < 2 → differ x y ≡ (x + y) % 2
differ_digit zero y p q = ground arith
differ_digit (suc zero) zero p q = refl
differ_digit (suc zero) (suc zero) p q = refl
differ_digit (suc zero) (suc (suc y)) p q = absurd (omega arith)
differ_digit (suc (suc x)) y p q = absurd (omega arith)

pub bit_xor_step : (x y : ℕ) → bit_xor x y ≡ (x % 2 + y % 2) % 2 + 2 * bit_xor (x / 2) (y / 2)
bit_xor_step zero y = simp bit_xor-bitwise (omega arith)
bit_xor_step (suc x) y =
    let digit = differ_digit (suc x % 2) (y % 2) (omega arith) (omega arith) in
    simp bit_xor-bitwise (rw (← digit) (digits_step (λ d. d) differ x y))
