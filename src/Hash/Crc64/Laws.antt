-- ===== src/Hash/Crc64/Laws.antt =====
-- crc64.go with a table of `MakeTable`, at any polynomial.
use wasigoc.Common.{ℕ, ◌+◌, ◌/◌, ◌^◌, ◌≡◌, ◌≢◌, refl, sym, ◌∙◌, arith, List, ◌∷◌, ◌++◌}
use wasigoc.Common.{length, length-append, All, All-append, bit_xor}
use wasigoc.Common.Bits.{IsByte, xor_right_injective}
use wasigoc.Common.Outcome.{Outcome, ok, ◌>>=◌}
use wasigoc.Hash.Interface.{Hash, IsHash, append_eight_shape}
use wasigoc.Hash.Crc.{make_table, absorb-append}
use wasigoc.Hash.Crc.Reference.{absorb_bits, absorb-eq-absorb_bits}
use wasigoc.Hash.Crc.Detect.{absorb_bits_detects}
use wasigoc.Hash.Crc64.{checksum, Digest, write, sum64, reset, size, block_size, sum}

abbrev pub hash : Hash
hash = record {
  State = Digest;
  write = write;
  sum = sum;
  reset = reset;
  size = size;
  block_size = block_size;
}

-- The digest's table was made by `MakeTable`.
abbrev pub HasMadeTable : Digest → Type 0
HasMadeTable d = (poly : ℕ) × (d.tab ≡ make_table poly)

pub write-bytes :
    (d : Digest) (poly : ℕ) (p : List ℕ)
    → d.tab ≡ make_table poly
    → All IsByte p
    → write d p ≡ ok (length p, record d { crc = absorb_bits poly d.crc p })
unfolding write
write-bytes d poly p t h = ground (arith, t, absorb-eq-absorb_bits poly d.crc p h)

write-parts :
    (d : Digest) (p q : List ℕ)
    → write d (p ++ q) ≡ (do (n, d') ← write d p; (m, d'') ← write d' q; ok (n + m, d''))
unfolding write
write-parts d p q = ground (arith, absorb-append d.tab d.crc p q, length-append p q)

-- A CRC-64 digest whose table `MakeTable` made meets the interface of hash.go: a write of bytes
-- never panics, takes them all and may be cut anywhere, `Sum` appends its eight bytes, `Reset`
-- forgets the data and keeps the table.
pub crc64-IsHash : IsHash hash HasMadeTable
unfolding reset size sum
crc64-IsHash = record {
  write_total = λ d p (poly, t) h. (_, write-bytes d poly p t h, (poly, t), refl);
  write-append = write-parts;
  sum_shape = λ d b. append_eight_shape b (sum64 d);
  reset-IsValid = λ d v. v;
}

checksum_bits :
    (poly : ℕ) (p : List ℕ)
    → All IsByte p
    → checksum p (make_table poly)
      ≡ ok (bit_xor (absorb_bits poly 18446744073709551615 p) 18446744073709551615)
unfolding checksum
checksum_bits poly p h = rw (absorb-eq-absorb_bits poly 18446744073709551615 p h)

-- For every polynomial with its top bit set, two messages of bytes that differ in exactly one byte
-- have different checksums over the table of that polynomial.
pub checksum_detects :
    (poly : ℕ) (p q : List ℕ) (x y : ℕ)
    → poly / 2 ^ 63 ≡ 1
    → All IsByte p
    → All IsByte q
    → IsByte x
    → IsByte y
    → x ≢ y
    → checksum (p ++ x ∷ q) (make_table poly) ≢ checksum (p ++ y ∷ q) (make_table poly)
checksum_detects poly p q x y top hp hq hx hy ne e = ne (
    absorb_bits_detects poly 63 top (omega arith) (omega arith) 18446744073709551615 x y p q
      (omega arith) hp hq hx hy (xor_right_injective _ _ 18446744073709551615 (ok_injective same)))
  where
    ok_injective : {a b : ℕ} → ◌≡◌ {A = Outcome ℕ} (ok a) (ok b) → a ≡ b
    ok_injective k = cc

    message : (z : ℕ) → IsByte z → All IsByte (p ++ z ∷ q)
    message z hz = All-append IsByte p (z ∷ q) hp (hz, hq)

    same :
        ok (bit_xor (absorb_bits poly 18446744073709551615 (p ++ x ∷ q)) 18446744073709551615)
        ≡ ok (bit_xor (absorb_bits poly 18446744073709551615 (p ++ y ∷ q)) 18446744073709551615)
    same =
        sym (checksum_bits poly (p ++ x ∷ q) (message x hx))
        ∙ e
        ∙ checksum_bits poly (p ++ y ∷ q) (message y hy)
