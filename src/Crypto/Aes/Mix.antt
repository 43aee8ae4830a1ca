-- ===== src/Crypto/Aes/Mix.antt =====
-- The multiplication in the field of 256 elements, and the columns that it mixes.
use wasigoc.Common.{
  ℕ, zero, suc, ◌*◌, ◌/◌, ◌≡◌, ◌<◌, refl, sym, ap, ◌∙◌, arith, ◌==◌, bit_and, bit_xor,
}
use wasigoc.Common.{Bool-cases, inl, inr}
use wasigoc.Common.Bits.{
  u8, bit_xor_comm, bit_xor_assoc, bit_xor-lt, bit_xor-mod_pow, bit_xor-div_pow, bit_xor-div_two,
  bit_xor-mod_two,
}
use wasigoc.Common.Tables.{agree_below, agree_below→eq}
use wasigoc.Crypto.Aes.{double, gmul_loop, gmul}

pub xor_swap4 :
    (a b c d : ℕ) → bit_xor (bit_xor a b) (bit_xor c d) ≡ bit_xor (bit_xor a c) (bit_xor b d)
xor_swap4 a b c d =
    bit_xor_assoc a b (bit_xor c d)
    ∙ ap (λ x. bit_xor a x)
        (sym (bit_xor_assoc b c d) ∙ ap (λ x. bit_xor x d) (bit_xor_comm b c) ∙ bit_xor_assoc c b d)
    ∙ sym (bit_xor_assoc a c (bit_xor b d))

double-sum : (a : ℕ) → a < 256 → double a ≡ bit_xor (u8 (a * 2)) (27 * (a / 128))
unfolding agree_below double
double-sum a h = agree_below→eq double (λ a. bit_xor (u8 (a * 2)) (27 * (a / 128))) 256 refl a h

bit_xor-twice : (a b : ℕ) → bit_xor a b * 2 ≡ bit_xor (a * 2) (b * 2)
bit_xor-twice a b =
    let half_a : a * 2 / 2 ≡ a = omega arith in
    let half_b : b * 2 / 2 ≡ b = omega arith in
    omega (
      arith,
      bit_xor-div_two (a * 2) (b * 2),
      bit_xor-mod_two (a * 2) (b * 2),
      ap (λ x. bit_xor x (b * 2 / 2)) half_a,
      ap (λ x. bit_xor a x) half_b,
    )

times27 : (x y : ℕ) → x < 2 → y < 2 → 27 * bit_xor x y ≡ bit_xor (27 * x) (27 * y)
times27 zero zero h k = refl
times27 zero (suc zero) h k = refl
times27 (suc zero) zero h k = refl
times27 (suc zero) (suc zero) h k = refl
times27 (suc (suc x)) y h k = absurd (omega (arith, h))
times27 x (suc (suc y)) h k = absurd (omega (arith, k))

double-bit_xor :
    (a b : ℕ) → a < 256 → b < 256 → double (bit_xor a b) ≡ bit_xor (double a) (double b)
double-bit_xor a b h k =
    double-sum (bit_xor a b) (bit_xor-lt 8 a b h k)
    ∙ ap (λ x. bit_xor x (27 * (bit_xor a b / 128)))
        (ap u8 (bit_xor-twice a b) ∙ bit_xor-mod_pow 8 (a * 2) (b * 2))
    ∙ ap (λ x. bit_xor (bit_xor (u8 (a * 2)) (u8 (b * 2))) x)
        (ap (λ x. 27 * x) (bit_xor-div_pow 7 a b)
          ∙ times27 (a / 128) (b / 128) (omega (arith, h)) (omega (arith, k)))
    ∙ xor_swap4 (u8 (a * 2)) (u8 (b * 2)) (27 * (a / 128)) (27 * (b / 128))
    ∙ ap (λ x. bit_xor x (bit_xor (u8 (b * 2)) (27 * (b / 128)))) (sym (double-sum a h))
    ∙ ap (λ x. bit_xor (double a) x) (sym (double-sum b k))

double-IsByte : (a : ℕ) → a < 256 → double a < 256
double-IsByte a h =
    rw (double-sum a h)
      (bit_xor-lt 8 (u8 (a * 2)) (27 * (a / 128)) (omega arith) (omega (arith, h)))

gmul_loop-bit_xor :
    (count a c b p q : ℕ)
    → a < 256
    → c < 256
    → gmul_loop count (bit_xor a c) b (bit_xor p q)
      ≡ bit_xor (gmul_loop count a b p) (gmul_loop count c b q)
unfolding gmul_loop
gmul_loop-bit_xor zero a c b p q h k = refl
gmul_loop-bit_xor (suc count) a c b p q h k = elim (Bool-cases (bit_and b 1 == 0)) [
  | inl even ↦
      rw (even, double-bit_xor a c h k)
        (gmul_loop-bit_xor count (double a) (double c) (b / 2) p q (double-IsByte a h)
          (double-IsByte c k))
  | inr odd ↦
      rw (odd, double-bit_xor a c h k, xor_swap4 p q a c)
        (gmul_loop-bit_xor count (double a) (double c) (b / 2) (bit_xor p a) (bit_xor q c)
          (double-IsByte a h) (double-IsByte c k))
]

-- The multiplication is linear in its first factor.
pub gmul-bit_xor :
    (a c b : ℕ) → a < 256 → c < 256 → gmul (bit_xor a c) b ≡ bit_xor (gmul a b) (gmul c b)
unfolding gmul
gmul-bit_xor a c b h k = gmul_loop-bit_xor 8 a c b 0 0 h k

gmul_loop-IsByte : (count a b p : ℕ) → a < 256 → p < 256 → gmul_loop count a b p < 256
unfolding gmul_loop
gmul_loop-IsByte zero a b p h k = k
gmul_loop-IsByte (suc count) a b p h k = elim (Bool-cases (bit_and b 1 == 0)) [
  | inl even ↦ rw even (gmul_loop-IsByte count (double a) (b / 2) p (double-IsByte a h) k)
  | inr odd ↦ rw odd (
      gmul_loop-IsByte count (double a) (b / 2) (bit_xor p a) (double-IsByte a h)
        (bit_xor-lt 8 p a k h))
]

pub gmul-IsByte : (a b : ℕ) → a < 256 → gmul a b < 256
unfolding gmul
gmul-IsByte a b h = gmul_loop-IsByte 8 a b 0 h (omega arith)
