-- ===== src/Common/Bits.antt =====
-- Laws of the bit operations at every width, by induction on the digits.
use Prim.Native.Nat.{ℕ, zero, suc, ◌+◌, ◌-◌, ◌*◌, ◌/◌, ◌%◌, ◌^◌, ◌≤◌, ◌<◌}
use Prim.Native.Nat.{bit_and, bit_or, bit_xor}
use mathlib.Core.Path.{◌≡◌, refl, sym, ap, ◌∙◌}
use native.Mathlib.Omega.{arith}
use native.Mathlib.Nat.{pow-suc, one-le-pow, div-one, mul_comm, div-div-eq-div-mul}
use native.Mathlib.Nat.{mod-one, mod-lt, mod-eq_of_lt, add-mul-mod_self_left, div-add-mod}
use wasigoc.Common.Digits.{bit_or_step, bit_and_step, bit_xor_step}

-- The casts to a fixed width.
abbrev pub u8 : ℕ → ℕ
u8 n = n % 2 ^ 8

abbrev pub u16 : ℕ → ℕ
u16 n = n % 2 ^ 16

abbrev pub u32 : ℕ → ℕ
u32 n = n % 2 ^ 32

abbrev pub u64 : ℕ → ℕ
u64 n = n % 2 ^ 64

abbrev pub IsByte : ℕ → Type 0
IsByte b = b < 256

-- Shifts before any wrap.
infixl 75 ◌<<<◌ ◌>>>◌
abbrev pub ◌<<<◌ : ℕ → ℕ → ℕ
x <<< k = x * 2 ^ k

abbrev pub ◌>>>◌ : ℕ → ℕ → ℕ
x >>> k = x / 2 ^ k

bit_or-zero_below : (n a : ℕ) → a ≤ n → bit_or a 0 ≡ a
bit_or-zero_below n zero h = refl
bit_or-zero_below zero (suc a) h = absurd (omega arith)
bit_or-zero_below (suc n) (suc a) h =
    omega (arith, bit_or_step (suc a) 0, bit_or-zero_below n (suc a / 2) (omega arith))

pub bit_or-zero : (a : ℕ) → bit_or a 0 ≡ a
bit_or-zero a = bit_or-zero_below a a (omega arith)

pub zero-bit_or : (a : ℕ) → bit_or 0 a ≡ a
zero-bit_or a = omega (arith, zero-bit_or_below a a (omega arith))
  where
    zero-bit_or_below : (n b : ℕ) → b ≤ n → bit_or 0 b ≡ b
    zero-bit_or_below n zero h = refl
    zero-bit_or_below zero (suc b) h = absurd (omega arith)
    zero-bit_or_below (suc n) (suc b) h =
        omega (arith, bit_or_step 0 (suc b), zero-bit_or_below n (suc b / 2) (omega arith))

bit_and-zero_below : (n a : ℕ) → a ≤ n → bit_and a 0 ≡ 0
bit_and-zero_below n zero h = refl
bit_and-zero_below zero (suc a) h = absurd (omega arith)
bit_and-zero_below (suc n) (suc a) h =
    omega (arith, bit_and_step (suc a) 0, bit_and-zero_below n (suc a / 2) (omega arith))

pub bit_and-zero : (a : ℕ) → bit_and a 0 ≡ 0
bit_and-zero a = bit_and-zero_below a a (omega arith)

-- The field above one more digit.
double_field : (k q : ℕ) → q * 2 ^ suc k ≡ 2 * (q * 2 ^ k)
double_field k q = omega (arith, ap (λ (t : ℕ). q * t) (pow-suc 2 k))

-- `q << k | r` is a sum where `r` fits `k` bits.
pub bit_or_fields : (k q r : ℕ) → r < 2 ^ k → bit_or (q * 2 ^ k) r ≡ q * 2 ^ k + r
bit_or_fields zero q r fits = ground (arith, bit_or-zero q)
bit_or_fields (suc k) q r fits =
    let width = pow-suc 2 k in
    let lower = bit_or_fields k q (r / 2) (omega (arith, width)) in
    let upper = double_field k q in
    ground (arith, lower, upper, width, bit_or_step (q * 2 ^ suc k) r)

-- `r | q << k` is the same sum.
pub bit_or_fields_low : (k q r : ℕ) → r < 2 ^ k → bit_or r (q * 2 ^ k) ≡ q * 2 ^ k + r
bit_or_fields_low zero q r fits = ground (arith, zero-bit_or q)
bit_or_fields_low (suc k) q r fits =
    let width = pow-suc 2 k in
    let lower = bit_or_fields_low k q (r / 2) (omega (arith, width)) in
    let upper = double_field k q in
    ground (arith, lower, upper, width, bit_or_step r (q * 2 ^ suc k))

mask_of_fields : (k q r : ℕ) → r < 2 ^ k → bit_and (q * 2 ^ k + r) (2 ^ k - 1) ≡ r
mask_of_fields zero q r fits = ground (arith, bit_and-zero (q * 1 + r))
mask_of_fields (suc k) q r fits =
    let width = pow-suc 2 k in
    let lower = mask_of_fields k q (r / 2) (omega (arith, width)) in
    let upper = double_field k q in
    let some_width = one-le-pow k 2 in
    ground
      (arith, lower, upper, width, some_width, bit_and_step (q * 2 ^ suc k + r) (2 ^ suc k - 1))

-- A mask of `k` low bits is the remainder by `2 ^ k`.
pub bit_and_mask : (k a : ℕ) → bit_and a (2 ^ k - 1) ≡ a % 2 ^ k
bit_and_mask k a = ground (arith, one-le-pow k 2, mask_of_fields k (a / 2 ^ k) (a % 2 ^ k))

bit_xor_self_below : (n a : ℕ) → a ≤ n → bit_xor a a ≡ 0
bit_xor_self_below n zero h = refl
bit_xor_self_below zero (suc a) h = absurd (omega arith)
bit_xor_self_below (suc n) (suc a) h =
    omega (arith, bit_xor_step (suc a) (suc a), bit_xor_self_below n (suc a / 2) (omega arith))

pub bit_xor_self : (a : ℕ) → bit_xor a a ≡ 0
bit_xor_self a = bit_xor_self_below a a (omega arith)

bit_xor-zero_below : (n a : ℕ) → a ≤ n → bit_xor a 0 ≡ a
bit_xor-zero_below n zero h = refl
bit_xor-zero_below zero (suc a) h = absurd (omega arith)
bit_xor-zero_below (suc n) (suc a) h =
    omega (arith, bit_xor_step (suc a) 0, bit_xor-zero_below n (suc a / 2) (omega arith))

pub bit_xor-zero : (a : ℕ) → bit_xor a 0 ≡ a
bit_xor-zero a = bit_xor-zero_below a a (omega arith)

bit_xor_comm_below : (n a b : ℕ) → a ≤ n → b ≤ n → bit_xor a b ≡ bit_xor b a
bit_xor_comm_below zero zero zero h k = refl
bit_xor_comm_below zero zero (suc b) h k = absurd (omega arith)
bit_xor_comm_below zero (suc a) b h k = absurd (omega arith)
bit_xor_comm_below (suc n) a b h k = omega (
  arith,
  bit_xor_step a b,
  bit_xor_step b a,
  bit_xor_comm_below n (a / 2) (b / 2) (omega arith) (omega arith),
)

pub bit_xor_comm : (a b : ℕ) → bit_xor a b ≡ bit_xor b a
bit_xor_comm a b = bit_xor_comm_below (a + b) a b (omega arith) (omega arith)

pub zero-bit_xor : (a : ℕ) → bit_xor 0 a ≡ a
zero-bit_xor a = omega (arith, bit_xor_comm 0 a, bit_xor-zero a)

-- The quotient and the last digit of an exclusive or.
pub bit_xor-div_two : (a b : ℕ) → bit_xor a b / 2 ≡ bit_xor (a / 2) (b / 2)
bit_xor-div_two a b = omega (arith, bit_xor_step a b)

pub bit_xor-mod_two : (a b : ℕ) → bit_xor a b % 2 ≡ (a % 2 + b % 2) % 2
bit_xor-mod_two a b = omega (arith, bit_xor_step a b)

bit_xor_assoc_below :
    (n a b c : ℕ) → a ≤ n → b ≤ n → c ≤ n → bit_xor (bit_xor a b) c ≡ bit_xor a (bit_xor b c)
bit_xor_assoc_below zero zero zero zero h k l = refl
bit_xor_assoc_below zero zero zero (suc c) h k l = absurd (omega arith)
bit_xor_assoc_below zero zero (suc b) c h k l = absurd (omega arith)
bit_xor_assoc_below zero (suc a) b c h k l = absurd (omega arith)
bit_xor_assoc_below (suc n) a b c h k l = ground (
  arith,
  bit_xor_step (bit_xor a b) c,
  bit_xor_step a (bit_xor b c),
  bit_xor-div_two a b,
  bit_xor-mod_two a b,
  bit_xor-div_two b c,
  bit_xor-mod_two b c,
  bit_xor_assoc_below n (a / 2) (b / 2) (c / 2) (omega arith) (omega arith) (omega arith),
)

pub bit_xor_assoc : (a b c : ℕ) → bit_xor (bit_xor a b) c ≡ bit_xor a (bit_xor b c)
bit_xor_assoc a b c =
    bit_xor_assoc_below (a + b + c) a b c (omega arith) (omega arith) (omega arith)

-- Applying the same mask twice gives the value back.
pub bit_xor_cancel : (a b : ℕ) → bit_xor (bit_xor a b) b ≡ a
bit_xor_cancel a b = rw (bit_xor_assoc, bit_xor_self) (bit_xor-zero a)

pub bit_xor-lt : (k a b : ℕ) → a < 2 ^ k → b < 2 ^ k → bit_xor a b < 2 ^ k
bit_xor-lt zero zero zero h l = omega arith
bit_xor-lt zero zero (suc b) h l = absurd (omega arith)
bit_xor-lt zero (suc a) b h l = absurd (omega arith)
bit_xor-lt (suc k) a b h l = omega (
  arith,
  pow-suc 2 k,
  bit_xor_step a b,
  bit_xor-lt k (a / 2) (b / 2) (omega (arith, pow-suc 2 k)) (omega (arith, pow-suc 2 k)),
)

pub bit_or-lt : (k a b : ℕ) → a < 2 ^ k → b < 2 ^ k → bit_or a b < 2 ^ k
bit_or-lt zero zero zero h l = omega arith
bit_or-lt zero zero (suc b) h l = absurd (omega arith)
bit_or-lt zero (suc a) b h l = absurd (omega arith)
bit_or-lt (suc k) a b h l = omega (
  arith,
  pow-suc 2 k,
  bit_or_step a b,
  bit_or-lt k (a / 2) (b / 2) (omega (arith, pow-suc 2 k)) (omega (arith, pow-suc 2 k)),
)

bit_or-eq_zero_below : (n a b : ℕ) → a + b ≤ n → bit_or a b ≡ 0 → (a ≡ 0) × (b ≡ 0)
bit_or-eq_zero_below zero a b h e = (omega (arith, h), omega (arith, h))
bit_or-eq_zero_below (suc n) zero zero h e = (refl, refl)
bit_or-eq_zero_below (suc n) zero (suc b) h e = (refl, omega (arith, zero-bit_or (suc b), e))
bit_or-eq_zero_below (suc n) (suc a) b h e =
    let (p, q) =
      bit_or-eq_zero_below n (suc a / 2) (b / 2) (omega (arith, h))
        (omega (arith, e, bit_or_step (suc a) b)) in
    (omega (arith, e, p, bit_or_step (suc a) b), omega (arith, e, q, bit_or_step (suc a) b))

-- Only zeros join to zero.
pub bit_or-eq_zero : (a b : ℕ) → bit_or a b ≡ 0 → (a ≡ 0) × (b ≡ 0)
bit_or-eq_zero a b e = bit_or-eq_zero_below (a + b) a b (omega arith) e

-- Two numbers with no differing digit are equal.
pub bit_xor-eq_zero : (a b : ℕ) → bit_xor a b ≡ 0 → a ≡ b
bit_xor-eq_zero a b h = ground (arith, bit_xor_cancel a b, zero-bit_xor b)

-- `r ^ q << k` is the sum too.
pub bit_xor_fields : (k q r : ℕ) → r < 2 ^ k → bit_xor r (q * 2 ^ k) ≡ q * 2 ^ k + r
bit_xor_fields zero q r fits = ground (arith, zero-bit_xor q)
bit_xor_fields (suc k) q r fits = ground (
  arith,
  bit_xor_step r (q * 2 ^ suc k),
  double_field k q,
  pow-suc 2 k,
  bit_xor_fields k q (r / 2) (omega (arith, pow-suc 2 k)),
)

-- The high digits of an exclusive or.
pub bit_xor-div_pow : (k a b : ℕ) → bit_xor a b / 2 ^ k ≡ bit_xor (a / 2 ^ k) (b / 2 ^ k)
bit_xor-div_pow zero a b = rw (div-one, div-one, div-one)
bit_xor-div_pow (suc k) a b =
    rw
      (
        pow-suc 2 k,
        mul_comm (2 ^ k) 2,
        ← div-div-eq-div-mul,
        ← div-div-eq-div-mul,
        ← div-div-eq-div-mul,
        bit_xor-div_two,
      )
      (bit_xor-div_pow k (a / 2) (b / 2))

mod_double : (m x : ℕ) → 0 < m → x % (2 * m) ≡ x % 2 + 2 * (x / 2 % m)
mod_double m x h =
    ap (λ (t : ℕ). t % (2 * m)) whole
    ∙ add-mul-mod_self_left (x % 2 + 2 * (x / 2 % m)) (2 * m) (x / 2 / m)
    ∙ mod-eq_of_lt (omega (arith, mod-lt (x / 2) h))
  where
    whole : x ≡ x % 2 + 2 * (x / 2 % m) + 2 * m * (x / 2 / m)
    whole = omega (arith, div-add-mod (x / 2) m)

-- The low digits of an exclusive or.
pub bit_xor-mod_pow : (k a b : ℕ) → bit_xor a b % 2 ^ k ≡ bit_xor (a % 2 ^ k) (b % 2 ^ k)
bit_xor-mod_pow zero a b = rw (mod-one, mod-one, mod-one)
bit_xor-mod_pow (suc k) a b = ground (
  arith,
  pow-suc 2 k,
  one-le-pow k 2,
  mod_double (2 ^ k) (bit_xor a b),
  mod_double (2 ^ k) a,
  mod_double (2 ^ k) b,
  bit_xor-div_two a b,
  bit_xor-mod_two a b,
  bit_xor_step (a % 2 ^ suc k) (b % 2 ^ suc k),
  bit_xor-mod_pow k (a / 2) (b / 2),
)

pub xor_right_injective : (a b c : ℕ) → bit_xor a c ≡ bit_xor b c → a ≡ b
xor_right_injective a b c e =
    sym (bit_xor_cancel a c) ∙ ap (λ (t : ℕ). bit_xor t c) e ∙ bit_xor_cancel b c

pub xor_left_injective : (a b c : ℕ) → bit_xor c a ≡ bit_xor c b → a ≡ b
xor_left_injective a b c e = xor_right_injective a b c (bit_xor_comm a c ∙ e ∙ bit_xor_comm c b)
