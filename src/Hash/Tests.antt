-- ===== src/Hash/Tests.antt =====
-- The checksums at concrete inputs.
use wasigoc.Common.{ℕ, ◌≡◌, ◌≢◌, refl, arith, List, ◌∷◌, ◌++◌, codes}
use wasigoc.Hash.Crc32
use wasigoc.Hash.Crc32.Laws.{checksum_ieee_detects}
use wasigoc.Hash.Adler32

abbrev message : List ℕ
message = codes "ab"

checksum_ieee_detects_example :
    Crc32.checksum_ieee (codes "a" ++ 1 ∷ codes "c")
    ≢ Crc32.checksum_ieee (codes "a" ++ 2 ∷ codes "c")
checksum_ieee_detects_example =
    checksum_ieee_detects (codes "a") (codes "c") 1 2 (omega arith) (omega arith) (omega arith)
      (omega arith) (omega arith)

adler32_wiki : Adler32.checksum (codes "Wikipedia") ≡ 0x11E60398
unfolding Adler32.checksum Adler32.sum32 Adler32.absorb
adler32_wiki = refl
