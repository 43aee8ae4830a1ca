-- ===== src/Hash/Crc32/Laws.antt =====
-- crc32.go against the CRC by its definition, as a `Hash`, and as an error detector.
use wasigoc.Common.{ℕ, ◌+◌, ◌≡◌, ◌≢◌, refl, sym, ◌∙◌, arith, List, ◌∷◌, ◌++◌}
use wasigoc.Common.{length, length-append, All, All-append, bit_xor}
use wasigoc.Common.Bits.{IsByte, xor_right_injective}
use wasigoc.Common.Outcome.{Outcome, ok, ◌>>=◌}
use wasigoc.Hash.Interface.{Hash, IsHash, append_four_shape}
use wasigoc.Hash.Crc.{absorb-append}
use wasigoc.Hash.Crc.Reference.{absorb_bits, absorb-eq-absorb_bits}
use wasigoc.Hash.Crc.Detect.{absorb_bits_detects}
use wasigoc.Hash.Crc32.{
  polynomial, ieee_table, checksum_ieee, Digest, new_ieee, write, sum32, reset, size, block_size,
  sum,
}

abbrev pub hash : Hash
hash = record {
  State = Digest;
  write = write;
  sum = sum;
  reset = reset;
  size = size;
  block_size = block_size;
}

pub write-bytes :
    (d : Digest) (p : List ℕ)
    → All IsByte p
    → write d p ≡ ok (length p, record { crc = absorb_bits polynomial d.crc p })
unfolding write ieee_table
write-bytes d p h = rw (absorb-eq-absorb_bits polynomial d.crc p h)

write-parts :
    (d : Digest) (p q : List ℕ)
    → write d (p ++ q) ≡ (do (n, d') ← write d p; (m, d'') ← write d' q; ok (n + m, d''))
unfolding write
write-parts d p q = ground (arith, absorb-append ieee_table d.crc p q, length-append p q)

-- The CRC-32 digest meets the interface of hash.go in every state: a write of bytes never panics,
-- takes them all and may be cut anywhere, `Sum` appends its four bytes, `Reset` forgets the data.
pub crc32-IsHash : IsHash hash (λ d. Unit)
unfolding reset size sum
crc32-IsHash = record {
  write_total = λ d p v h. (_, write-bytes d p h, tt, refl);
  write-append = write-parts;
  sum_shape = λ d b. append_four_shape b (sum32 d);
  reset-IsValid = λ d v. tt;
}

pub checksum_ieee-reference :
    (p : List ℕ)
    → All IsByte p
    → (checksum_ieee p ≡ ok (bit_xor (absorb_bits polynomial 4294967295 p) 4294967295))
      × ((d : Digest) × (write new_ieee p ≡ ok (length p, d)) × (checksum_ieee p ≡ ok (sum32 d)))
unfolding checksum_ieee new_ieee sum32 ieee_table
checksum_ieee-reference p h =
    let by_bits = absorb-eq-absorb_bits polynomial 4294967295 p h in
    (rw by_bits, (_, write-bytes new_ieee p h, rw by_bits))

-- Two messages of bytes that differ in exactly one byte have different checksums.
pub checksum_ieee_detects :
    (p q : List ℕ) (x y : ℕ)
    → All IsByte p
    → All IsByte q
    → IsByte x
    → IsByte y
    → x ≢ y
    → checksum_ieee (p ++ x ∷ q) ≢ checksum_ieee (p ++ y ∷ q)
checksum_ieee_detects p q x y hp hq hx hy ne e = ne (
    absorb_bits_detects polynomial 31 refl (omega arith) (omega arith) 4294967295 x y p q
      (omega arith) hp hq hx hy (xor_right_injective _ _ 4294967295 (ok_injective same)))
  where
    ok_injective : {a b : ℕ} → ◌≡◌ {A = Outcome ℕ} (ok a) (ok b) → a ≡ b
    ok_injective k = cc

    message : (z : ℕ) → IsByte z → All IsByte (p ++ z ∷ q)
    message z hz = All-append IsByte p (z ∷ q) hp (hz, hq)

    same :
        ok (bit_xor (absorb_bits polynomial 4294967295 (p ++ x ∷ q)) 4294967295)
        ≡ ok (bit_xor (absorb_bits polynomial 4294967295 (p ++ y ∷ q)) 4294967295)
    same =
        sym (checksum_ieee-reference (p ++ x ∷ q) (message x hx)).0
        ∙ e
        ∙ (checksum_ieee-reference (p ++ y ∷ q) (message y hy)).0
