-- ===== src/Hash/Crc64.antt =====
-- stdlib/hash/crc64/crc64.go: the caller chooses the table.
pub mod Laws
use wasigoc.Common.{ℕ, List, length, bit_xor}
use wasigoc.Common.Outcome.{Outcome, ok, ◌>>=◌}
use wasigoc.Hash.Interface.{append_eight}
use wasigoc.Hash.Crc.{absorb}

abbrev pub iso : ℕ
iso = 0xD800000000000000

abbrev pub ecma : ℕ
ecma = 0xC96C5795D7870F42

pub checksum : List ℕ → List ℕ → Outcome ℕ
checksum p tab = do crc ← absorb tab 18446744073709551615 p; ok (bit_xor crc 18446744073709551615)

pub record Digest : Type 0 where
  pub crc : ℕ
  pub tab : List ℕ

pub new : List ℕ → Digest
new tab = record { crc = 18446744073709551615; tab = tab }

pub write : Digest → List ℕ → Outcome (ℕ × Digest)
write d p = do crc ← absorb d.tab d.crc p; ok (length p, record d { crc = crc })

pub sum64 : Digest → ℕ
sum64 d = bit_xor d.crc 18446744073709551615

pub reset : Digest → Digest
reset d = record d { crc = 18446744073709551615 }

pub size : Digest → ℕ
size d = 8

pub block_size : Digest → ℕ
block_size d = 1

pub sum : Digest → List ℕ → List ℕ
sum d b = append_eight b (sum64 d)
