-- ===== src/Hash/Adler32.antt =====
-- stdlib/hash/adler32/adler32.go. The sums are uint32, so each wraps at 2^32.
pub mod Laws
use wasigoc.Common.{ℕ, ◌+◌, ◌*◌, ◌/◌, ◌%◌, ◌^◌, List, [], ◌∷◌, length, bit_or}
use wasigoc.Common.Bits.{u32}
use wasigoc.Common.Outcome.{Outcome, ok}
use wasigoc.Hash.Interface.{append_four}

abbrev pub modulus : ℕ
modulus = 65521

pub record Digest : Type 0 where
  pub a : ℕ
  pub b : ℕ

-- The body of the loop of `Checksum` and of `Write`.
abbrev pub round : Digest → ℕ → Digest
round d x = let a = u32 (d.a + x) % modulus in record { a = a; b = u32 (d.b + a) % modulus }

unfoldable pub absorb : Digest → List ℕ → Digest
absorb d [] = d
absorb d (x ∷ rest) = absorb (round d x) rest

pub new : Digest
new = record { a = 1; b = 0 }

pub write : Digest → List ℕ → Outcome (ℕ × Digest)
write d p = ok (length p, absorb d p)

-- `(d.b << 16) | d.a`
unfoldable pub sum32 : Digest → ℕ
sum32 d = bit_or (u32 (d.b * 2 ^ 16)) d.a

unfoldable pub checksum : List ℕ → ℕ
checksum p = sum32 (absorb (record { a = 1; b = 0 }) p)

pub reset : Digest → Digest
reset d = record { a = 1; b = 0 }

pub size : Digest → ℕ
size d = 4

pub block_size : Digest → ℕ
block_size d = 4

pub sum : Digest → List ℕ → List ℕ
sum d b = append_four b (sum32 d)
