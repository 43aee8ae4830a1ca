-- ===== src/Hash/Crc32.antt =====
-- stdlib/hash/crc32/crc32.go: the IEEE polynomial only.
pub mod Laws
use wasigoc.Common.{ℕ, List, length, bit_xor}
use wasigoc.Common.Outcome.{Outcome, ok, ◌>>=◌}
use wasigoc.Hash.Interface.{append_four}
use wasigoc.Hash.Crc.{make_table, absorb}

abbrev pub polynomial : ℕ
polynomial = 3988292384

pub ieee_table : List ℕ
ieee_table = make_table polynomial

pub checksum_ieee : List ℕ → Outcome ℕ
checksum_ieee p = do crc ← absorb ieee_table 4294967295 p; ok (bit_xor crc 4294967295)

pub record Digest : Type 0 where
  pub crc : ℕ

pub new_ieee : Digest
new_ieee = record { crc = 4294967295 }

pub write : Digest → List ℕ → Outcome (ℕ × Digest)
write d p = do crc ← absorb ieee_table d.crc p; ok (length p, record d { crc = crc })

pub sum32 : Digest → ℕ
sum32 d = bit_xor d.crc 4294967295

pub reset : Digest → Digest
reset d = record d { crc = 4294967295 }

pub size : Digest → ℕ
size d = 4

pub block_size : Digest → ℕ
block_size d = 1

pub sum : Digest → List ℕ → List ℕ
sum d b = append_four b (sum32 d)
