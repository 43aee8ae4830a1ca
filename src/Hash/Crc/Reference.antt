-- ===== src/Hash/Crc/Reference.antt =====
-- The table-driven loop against the CRC by its definition, one bit a step.
use native.Mathlib.Nat.{pow-suc}
use wasigoc.Common.{ℕ, zero, suc, ◌+◌, ◌*◌, ◌/◌, ◌%◌, ◌^◌, ◌≤◌, ◌<◌, ◌≡◌, refl, sym, ◌∙◌, ap}
use wasigoc.Common.{List, [], ◌∷◌, bit_xor, arith, ◌==◌, get_elem?, set, replicate}
use wasigoc.Common.{length, length-set, length-replicate, All, some, get_elem?-set_self}
use wasigoc.Common.{get_elem?-set_ne, Bool-cases, ◌⊎◌, inl, inr}
use wasigoc.Common.Bits.{u8, IsByte, bit_xor-zero, bit_xor_comm}
use wasigoc.Common.Bits.{
  bit_xor_assoc, bit_xor-div_two, bit_xor-mod_two, bit_xor_fields, bit_xor-lt,
}
use wasigoc.Common.Bits.{bit_and_mask, bit_xor_cancel, bit_xor-div_pow, bit_xor-mod_pow}
use wasigoc.Common.Outcome.{ok}
use wasigoc.Hash.Crc.{round, rounds, fill, make_table, update, absorb}

-- A byte enters the register, and eight bits leave it.
unfoldable pub update_bits : ℕ → ℕ → ℕ → ℕ
update_bits poly crc b = rounds poly 8 (bit_xor crc b)

unfoldable pub absorb_bits : ℕ → ℕ → List ℕ → ℕ
absorb_bits poly crc [] = crc
absorb_bits poly crc (b ∷ rest) = absorb_bits poly (update_bits poly crc b) rest

module _ (poly : ℕ) where
  pub round_odd : (a : ℕ) → a % 2 ≡ 1 → round poly a ≡ bit_xor (a / 2) poly
  unfolding round
  round_odd a h = ground (arith, bit_and_mask 1 a)

  pub round_even : (a : ℕ) → a % 2 ≡ 0 → round poly a ≡ a / 2
  unfolding round
  round_even a h = ground (arith, bit_and_mask 1 a)

  pub parity : (a : ℕ) → (a % 2 ≡ 0) ⊎ (a % 2 ≡ 1)
  parity a = omega arith

xor_swap : (p q r : ℕ) → bit_xor (bit_xor p q) r ≡ bit_xor (bit_xor p r) q
xor_swap p q r = rw (bit_xor_assoc p q r, bit_xor_comm q r, ← bit_xor_assoc p r q)

xor_pairs : (p q r : ℕ) → bit_xor (bit_xor p r) (bit_xor q r) ≡ bit_xor p q
xor_pairs p q r = rw (bit_xor_comm q r, ← bit_xor_assoc (bit_xor p r) r q, bit_xor_cancel p r)

-- One step is linear over the exclusive or.
round-xor : (poly a b : ℕ) → round poly (bit_xor a b) ≡ bit_xor (round poly a) (round poly b)
round-xor poly a b = elim (parity poly a) [
  | inl p ↦ elim (parity poly b) [
    | inl q ↦
        rw
          (
            round_even poly a p,
            round_even poly b q,
            round_even poly (bit_xor a b) (omega (arith, bit_xor-mod_two a b)),
          )
          (bit_xor-div_two a b)
    | inr q ↦
        rw
          (
            round_even poly a p,
            round_odd poly b q,
            round_odd poly (bit_xor a b) (omega (arith, bit_xor-mod_two a b)),
            bit_xor-div_two a b,
          )
          (bit_xor_assoc _ _ _)
  ]
  | inr p ↦ elim (parity poly b) [
    | inl q ↦
        rw
          (
            round_odd poly a p,
            round_even poly b q,
            round_odd poly (bit_xor a b) (omega (arith, bit_xor-mod_two a b)),
            bit_xor-div_two a b,
          )
          (xor_swap _ _ _)
    | inr q ↦
        rw
          (
            round_odd poly a p,
            round_odd poly b q,
            round_even poly (bit_xor a b) (omega (arith, bit_xor-mod_two a b)),
            bit_xor-div_two a b,
          )
          (sym (xor_pairs _ _ _))
  ]
]

rounds-xor :
    (poly n a b : ℕ) → rounds poly n (bit_xor a b) ≡ bit_xor (rounds poly n a) (rounds poly n b)
unfolding rounds
rounds-xor poly zero a b = refl
rounds-xor poly (suc n) a b =
    rw (round-xor poly a b) (rounds-xor poly n (round poly a) (round poly b))

-- Low zeros are shifted out.
rounds_shift : (poly n q : ℕ) → rounds poly n (q * 2 ^ n) ≡ q
unfolding rounds
rounds_shift poly zero q = omega arith
rounds_shift poly (suc n) q =
    rw (round_even poly (q * 2 ^ suc n) (omega (arith, double))) (rw half (rounds_shift poly n q))
  where
    double : q * 2 ^ suc n ≡ 2 * (q * 2 ^ n)
    double = omega (arith, ap (λ (t : ℕ). q * t) (pow-suc 2 n))

    half : q * 2 ^ suc n / 2 ≡ q * 2 ^ n
    half = omega (arith, double)

split_byte : (x : ℕ) → x ≡ bit_xor (x % 256) (x / 256 * 2 ^ 8)
split_byte x = omega (arith, bit_xor_fields 8 (x / 256) (x % 256) (omega arith))

rounds_split : (poly x : ℕ) → rounds poly 8 x ≡ bit_xor (rounds poly 8 (x % 256)) (x / 256)
rounds_split poly x =
    ap (rounds poly 8) (split_byte x)
    ∙ rounds-xor poly 8 (x % 256) (x / 256 * 2 ^ 8)
    ∙ ap (bit_xor (rounds poly 8 (x % 256))) (rounds_shift poly 8 (x / 256))

fill-length : (poly n i : ℕ) (t : List ℕ) → length (fill poly n i t) ≡ length t
unfolding fill
fill-length poly zero i t = refl
fill-length poly (suc n) i t =
    fill-length poly n (i + 1) (set t i (rounds poly 8 i)) ∙ length-set t i (rounds poly 8 i)

fill_before : (poly n i j : ℕ) (t : List ℕ) → j < i → get_elem? (fill poly n i t) j ≡ get_elem? t j
unfolding fill
fill_before poly zero i j t h = refl
fill_before poly (suc n) i j t h =
    fill_before poly n (i + 1) j (set t i (rounds poly 8 i)) (omega arith)
    ∙ get_elem?-set_ne t i j (rounds poly 8 i) (omega arith)

-- Every entry of the filled part is its eight rounds.
fill_entry :
    (poly n i j : ℕ) (t : List ℕ)
    → i ≤ j
    → j < i + n
    → i + n ≤ length t
    → get_elem? (fill poly n i t) j ≡ some (rounds poly 8 j)
unfolding fill
fill_entry poly zero i j t lo hi fits = absurd (omega arith)
fill_entry poly (suc n) i j t lo hi fits = elim (Bool-cases (i == j)) [
  | inl e ↦
      let same : i ≡ j = ground arith in
      rw (← same) (
        fill_before poly n (i + 1) i (set t i (rounds poly 8 i)) (omega arith)
        ∙ get_elem?-set_self t i (rounds poly 8 i) (omega arith))
  | inr e ↦
      fill_entry poly n (i + 1) j (set t i (rounds poly 8 i)) (ground arith) (omega arith)
        (omega (arith, length-set t i (rounds poly 8 i)))
]

pub make_table_entry :
    (poly j : ℕ) → j < 256 → get_elem? (make_table poly) j ≡ some (rounds poly 8 j)
unfolding make_table
make_table_entry poly j h =
    fill_entry poly 256 0 j (replicate 256 0) (omega arith) (omega arith)
      (omega (arith, length-replicate {A = ℕ} 256 0))

-- One byte by the table is eight bits by the definition.
pub update-eq-update_bits :
    (poly crc b : ℕ) → IsByte b → update (make_table poly) crc b ≡ ok (update_bits poly crc b)
unfolding update update_bits
update-eq-update_bits poly crc b h =
    rw (make_table_entry poly (bit_xor (u8 crc) b) (bit_xor-lt 8 (u8 crc) b (omega arith) h))
      (ap ok (rw (rounds_split poly (bit_xor crc b), low, high)))
  where
    high : bit_xor crc b / 256 ≡ crc / 256
    high = bit_xor-div_pow 8 crc b ∙ rw (small) (bit_xor-zero _)
      where
        small : b / 256 ≡ 0
        small = omega arith

    low : bit_xor crc b % 256 ≡ bit_xor (u8 crc) b
    low = bit_xor-mod_pow 8 crc b ∙ ap (bit_xor (u8 crc)) (omega arith)

-- The whole loop never panics on bytes, and computes the CRC by its definition.
pub absorb-eq-absorb_bits :
    (poly crc : ℕ) (bytes : List ℕ)
    → All IsByte bytes
    → absorb (make_table poly) crc bytes ≡ ok (absorb_bits poly crc bytes)
unfolding absorb absorb_bits
absorb-eq-absorb_bits poly crc [] h = refl
absorb-eq-absorb_bits poly crc (b ∷ rest) h =
    rw (update-eq-update_bits poly crc b h.0)
      (absorb-eq-absorb_bits poly (update_bits poly crc b) rest h.1)
