-- ===== src/Hash/Fnv.antt =====
-- stdlib/hash/fnv/fnv.go: FNV-1 and FNV-1a at 32 and 64 bits.
-- The four digests differ in the width, the offset, the prime and the order of a round's two steps.
pub mod Narrow
pub mod Wide
use wasigoc.Common.{ℕ, ◌*◌, ◌%◌, List, [], ◌∷◌, length, bit_xor}
use wasigoc.Common.Bits.{u32, u64}
use wasigoc.Common.Outcome.{Outcome, ok}
use wasigoc.Hash.Interface.{append_four, append_eight}

abbrev pub offset32 : ℕ
offset32 = 2166136261

abbrev pub prime32 : ℕ
prime32 = 16777619

abbrev pub offset64 : ℕ
offset64 = 14695981039346656037

abbrev pub prime64 : ℕ
prime64 = 1099511628211

pub record Digest32 : Type 0 where
  pub hash : ℕ

pub new32 : Digest32
new32 = record { hash = offset32 }

pub absorb32 : ℕ → List ℕ → ℕ
absorb32 h [] = h
absorb32 h (x ∷ rest) = absorb32 (bit_xor (u32 (h * prime32)) x) rest

pub write32 : Digest32 → List ℕ → Outcome (ℕ × Digest32)
write32 s p = ok (length p, record { hash = absorb32 s.hash p })

pub reset32 : Digest32 → Digest32
reset32 s = record { hash = offset32 }

pub sum32 : Digest32 → List ℕ → List ℕ
sum32 s b = append_four b s.hash

pub record Digest32a : Type 0 where
  pub hash : ℕ

pub new32a : Digest32a
new32a = record { hash = offset32 }

pub absorb32a : ℕ → List ℕ → ℕ
absorb32a h [] = h
absorb32a h (x ∷ rest) = absorb32a (u32 (bit_xor h x * prime32)) rest

pub write32a : Digest32a → List ℕ → Outcome (ℕ × Digest32a)
write32a s p = ok (length p, record { hash = absorb32a s.hash p })

pub reset32a : Digest32a → Digest32a
reset32a s = record { hash = offset32 }

pub sum32a : Digest32a → List ℕ → List ℕ
sum32a s b = append_four b s.hash

pub record Digest64 : Type 0 where
  pub hash : ℕ

pub new64 : Digest64
new64 = record { hash = offset64 }

pub absorb64 : ℕ → List ℕ → ℕ
absorb64 h [] = h
absorb64 h (x ∷ rest) = absorb64 (bit_xor (u64 (h * prime64)) x) rest

pub write64 : Digest64 → List ℕ → Outcome (ℕ × Digest64)
write64 s p = ok (length p, record { hash = absorb64 s.hash p })

pub reset64 : Digest64 → Digest64
reset64 s = record { hash = offset64 }

pub sum64 : Digest64 → List ℕ → List ℕ
sum64 s b = append_eight b s.hash

pub record Digest64a : Type 0 where
  pub hash : ℕ

pub new64a : Digest64a
new64a = record { hash = offset64 }

pub absorb64a : ℕ → List ℕ → ℕ
absorb64a h [] = h
absorb64a h (x ∷ rest) = absorb64a (u64 (bit_xor h x * prime64)) rest

pub write64a : Digest64a → List ℕ → Outcome (ℕ × Digest64a)
write64a s p = ok (length p, record { hash = absorb64a s.hash p })

pub reset64a : Digest64a → Digest64a
reset64a s = record { hash = offset64 }

pub sum64a : Digest64a → List ℕ → List ℕ
sum64a s b = append_eight b s.hash
