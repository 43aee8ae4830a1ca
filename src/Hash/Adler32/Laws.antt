-- ===== src/Hash/Adler32/Laws.antt =====
-- adler32.go: the two running sums in closed form, and the interface of hash.go.
use native.Mathlib.Nat.{div-add-mod}
use wasigoc.Common.{ℕ, ◌+◌, ◌*◌, ◌/◌, ◌%◌, ◌^◌, ◌<◌, ◌≡◌, refl, arith, List, [], ◌∷◌, ◌++◌, ap}
use wasigoc.Common.{length, length-append, All}
use wasigoc.Common.Bits.{IsByte, bit_or_fields}
use wasigoc.Common.Outcome.{ok, ◌>>=◌}
use wasigoc.Hash.Interface.{Hash, IsHash, append_four_shape}
use wasigoc.Hash.Adler32.{
  modulus, Digest, round, absorb, write, sum32, checksum, reset, size, block_size, sum,
}

abbrev pub hash : Hash
hash = record {
  State = Digest;
  write = write;
  sum = sum;
  reset = reset;
  size = size;
  block_size = block_size;
}

-- The sum of the bytes, and the sum in which each counts once for itself and each byte behind it.
unfoldable pub total : List ℕ → ℕ
total [] = 0
total (x ∷ p) = x + total p

unfoldable pub weighted : List ℕ → ℕ
weighted [] = 0
weighted (x ∷ p) = length (x ∷ p) * x + weighted p

-- Both sums are reduced.
pub record IsReduced (d : Digest) : Type 0 where
  pub low : d.a < modulus
  pub high : d.b < modulus

scaled_mod : (n y : ℕ) → n * y ≡ modulus * (n * (y / modulus)) + n * (y % modulus)
scaled_mod n y = omega (arith, ap (λ (t : ℕ). n * t) (div-add-mod y modulus))

pub absorb-IsReduced : (d : Digest) (p : List ℕ) → IsReduced d → IsReduced (absorb d p)
unfolding absorb
absorb-IsReduced d [] v = v
absorb-IsReduced d (x ∷ p) v =
    absorb-IsReduced (round d x) p (record { low = omega arith; high = omega arith })

absorb_a :
    (d : Digest) (p : List ℕ)
    → IsReduced d
    → All IsByte p
    → (absorb d p).a ≡ (d.a + total p) % modulus
unfolding absorb total
absorb_a d [] v h = omega (arith, v.low)
absorb_a d (x ∷ p) v h = omega (
  arith,
  v.low,
  h.0,
  absorb_a (round d x) p (record { low = omega arith; high = omega arith }) h.1,
)

absorb_b :
    (d : Digest) (p : List ℕ)
    → IsReduced d
    → All IsByte p
    → (absorb d p).b ≡ (d.b + length p * d.a + weighted p) % modulus
unfolding absorb weighted
absorb_b d [] v h = omega (arith, v.high)
absorb_b d (x ∷ p) v h =
    let narrow : (d.a + x) % 2 ^ 32 ≡ d.a + x = omega (arith, v.low, h.0) in
    omega (
      arith,
      v.low,
      v.high,
      h.0,
      ap (λ (t : ℕ). length p * (t % modulus)) narrow,
      scaled_mod (length p) (d.a + x),
      absorb_b (round d x) p (record { low = omega arith; high = omega arith }) h.1,
    )

-- On bytes `Checksum` never wraps around: its low half is one more than the sum of the bytes, and
-- its high half the sum of all those partial sums, both modulo 65521.
pub adler32_closed :
    (p : List ℕ)
    → All IsByte p
    → checksum p ≡ (length p + weighted p) % modulus * 2 ^ 16 + (1 + total p) % modulus
unfolding checksum sum32
adler32_closed p h =
    let start : Digest = record { a = 1; b = 0 } in
    let reduced : IsReduced start = record { low = omega arith; high = omega arith } in
    let after = absorb-IsReduced start p reduced in
    ground (
      arith,
      after.low,
      after.high,
      absorb_a start p reduced h,
      absorb_b start p reduced h,
      bit_or_fields 16 (absorb start p).b (absorb start p).a,
    )

absorb-append : (d : Digest) (p q : List ℕ) → absorb d (p ++ q) ≡ absorb (absorb d p) q
unfolding absorb
absorb-append d [] q = refl
absorb-append d (x ∷ p) q = absorb-append (round d x) p q

write-parts :
    (d : Digest) (p q : List ℕ)
    → write d (p ++ q) ≡ (do (n, d') ← write d p; (m, d'') ← write d' q; ok (n + m, d''))
unfolding write
write-parts d p q = rw (length-append p q, absorb-append d p q)

-- The Adler-32 digest meets the interface of hash.go in every state: a write never fails and may
-- be cut anywhere, `Sum` appends its four bytes, `Reset` forgets the data.
pub adler32-IsHash : IsHash hash (λ d. Unit)
unfolding reset size sum write
adler32-IsHash = record {
  write_total = λ d p v h. (_, refl, tt, refl);
  write-append = write-parts;
  sum_shape = λ d b. append_four_shape b (sum32 d);
  reset-IsValid = λ d v. tt;
}
