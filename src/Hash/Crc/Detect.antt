-- ===== src/Hash/Crc/Detect.antt =====
-- A register whose polynomial has its top bit set forgets nothing: the CRC tells any two messages
-- of bytes apart that differ in one byte.
use native.Mathlib.Nat.{pow-suc, div-eq_of_lt}
use wasigoc.Common.{ℕ, zero, suc, ◌/◌, ◌%◌, ◌^◌, ◌≤◌, ◌<◌, ◌≡◌, sym, ◌∙◌, ap}
use wasigoc.Common.{List, [], ◌∷◌, ◌++◌, bit_xor, arith, All, inl, inr}
use wasigoc.Common.Bits.{IsByte, bit_xor-lt}
use wasigoc.Common.Bits.{bit_xor-div_pow, xor_right_injective, xor_left_injective}
use wasigoc.Hash.Crc.{rounds, round}
use wasigoc.Hash.Crc.Reference.{update_bits, absorb_bits, round_odd, round_even, parity}

-- The width of the register is `k + 1`.
module _ (poly k : ℕ) (top : poly / 2 ^ k ≡ 1) (fits : poly < 2 ^ suc k) where
  half_fits : (a : ℕ) → a < 2 ^ suc k → a / 2 < 2 ^ k
  half_fits a h = omega (arith, pow-suc 2 k)

  -- The bit that leaves the register shows as the new top bit.
  round_top : (a : ℕ) → a < 2 ^ suc k → round poly a / 2 ^ k ≡ a % 2
  round_top a h = elim (parity poly a) [
    | inl p ↦ rw (round_even poly a p, p) (div-eq_of_lt (half_fits a h))
    | inr p ↦
        rw
          (round_odd poly a p, p, bit_xor-div_pow k (a / 2) poly, top, div-eq_of_lt (half_fits a h))
  ]

  round-lt : (a : ℕ) → a < 2 ^ suc k → round poly a < 2 ^ suc k
  round-lt a h = elim (parity poly a) [
    | inl p ↦ rw (round_even poly a p) (omega (arith, half_fits a h, pow-suc 2 k))
    | inr p ↦
        rw (round_odd poly a p)
          (bit_xor-lt (suc k) (a / 2) poly (omega (arith, half_fits a h, pow-suc 2 k)) fits)
  ]

  same_parity :
      (a b : ℕ) → a < 2 ^ suc k → b < 2 ^ suc k → round poly a ≡ round poly b → a % 2 ≡ b % 2
  same_parity a b h l e = sym (round_top a h) ∙ ap (λ (t : ℕ). t / 2 ^ k) e ∙ round_top b l

  round_injective : (a b : ℕ) → a < 2 ^ suc k → b < 2 ^ suc k → round poly a ≡ round poly b → a ≡ b
  round_injective a b h l e = elim (parity poly a) [
    | inl p ↦
        let q : b % 2 ≡ 0 = omega (arith, same_parity a b h l e) in
        omega (arith, round_even poly a p, round_even poly b q)
    | inr p ↦
        let q : b % 2 ≡ 1 = omega (arith, same_parity a b h l e) in
        let halves =
          xor_right_injective (a / 2) (b / 2) poly
            (sym (round_odd poly a p) ∙ e ∙ round_odd poly b q) in
        omega arith
  ]

  rounds-lt : (n a : ℕ) → a < 2 ^ suc k → rounds poly n a < 2 ^ suc k
  unfolding rounds
  rounds-lt zero a h = h
  rounds-lt (suc n) a h = rounds-lt n (round poly a) (round-lt a h)

  rounds_injective :
      (n a b : ℕ) → a < 2 ^ suc k → b < 2 ^ suc k → rounds poly n a ≡ rounds poly n b → a ≡ b
  unfolding rounds
  rounds_injective zero a b h l e = e
  rounds_injective (suc n) a b h l e =
      round_injective a b h l
        (rounds_injective n (round poly a) (round poly b) (round-lt a h) (round-lt b l) e)

  module _ (wide : 256 ≤ 2 ^ suc k) where
    pub update_bits-lt :
        (crc b : ℕ) → crc < 2 ^ suc k → IsByte b → update_bits poly crc b < 2 ^ suc k
    unfolding update_bits
    update_bits-lt crc b h l =
        rounds-lt 8 (bit_xor crc b) (bit_xor-lt (suc k) crc b h (omega arith))

    pub absorb_bits-lt :
        (crc : ℕ) (p : List ℕ) → crc < 2 ^ suc k → All IsByte p → absorb_bits poly crc p < 2 ^ suc k
    unfolding absorb_bits
    absorb_bits-lt crc [] h l = h
    absorb_bits-lt crc (b ∷ p) h l =
        absorb_bits-lt (update_bits poly crc b) p (update_bits-lt crc b h l.0) l.1

    absorb_bits_injective :
        (crc crc' : ℕ) (p : List ℕ)
        → crc < 2 ^ suc k
        → crc' < 2 ^ suc k
        → All IsByte p
        → absorb_bits poly crc p ≡ absorb_bits poly crc' p
        → crc ≡ crc'
    unfolding absorb_bits update_bits
    absorb_bits_injective crc crc' [] h l bytes e = e
    absorb_bits_injective crc crc' (b ∷ p) h l bytes e = xor_right_injective crc crc' b (
        rounds_injective 8 _ _ (bit_xor-lt (suc k) crc b h small)
          (bit_xor-lt (suc k) crc' b l small)
          (absorb_bits_injective (rounds poly 8 (bit_xor crc b)) (rounds poly 8 (bit_xor crc' b)) p
            (update_bits-lt crc b h bytes.0) (update_bits-lt crc' b l bytes.0) bytes.1 e))
      where
        small : b < 2 ^ suc k
        small = omega arith

    -- Two messages that differ in exactly one byte leave different registers.
    pub absorb_bits_detects :
        (crc x y : ℕ) (p q : List ℕ)
        → crc < 2 ^ suc k
        → All IsByte p
        → All IsByte q
        → IsByte x
        → IsByte y
        → absorb_bits poly crc (p ++ x ∷ q) ≡ absorb_bits poly crc (p ++ y ∷ q)
        → x ≡ y
    unfolding absorb_bits update_bits
    absorb_bits_detects crc x y [] q h hp hq hx hy e = xor_left_injective x y crc (
        rounds_injective 8 _ _ (bit_xor-lt (suc k) crc x h (omega arith))
          (bit_xor-lt (suc k) crc y h (omega arith))
          (absorb_bits_injective (update_bits poly crc x) (update_bits poly crc y) q
            (update_bits-lt crc x h hx) (update_bits-lt crc y h hy) hq e))
    absorb_bits_detects crc x y (b ∷ p) q h hp hq hx hy e =
        absorb_bits_detects (update_bits poly crc b) x y p q (update_bits-lt crc b h hp.0) hp.1 hq
          hx hy e
