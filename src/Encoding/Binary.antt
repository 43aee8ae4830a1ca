-- ===== src/Encoding/Binary.antt =====
-- stdlib/encoding/binary/binary.go: fixed-width integers, little and big endian.
-- A shift by k is a product by 2^k; the values are bytes, so no shift wraps.
pub mod RoundTrip
use wasigoc.Common.{
  ℕ, ◌*◌, ◌/◌, ◌^◌, List, ◌++◌, Bool, true, false, bit_or, if◌then◌else◌, replicate,
}
use wasigoc.Common.Bits.{u8}
use wasigoc.Common.Outcome.{Outcome, ok, ◌>>=◌}
use wasigoc.Common.Slices.{load, store}

pub record ByteOrder : Type 0 where
  pub little : Bool

abbrev pub little_endian : ByteOrder
little_endian = record { little = true }

abbrev pub big_endian : ByteOrder
big_endian = record { little = false }

pub uint16 : ByteOrder → List ℕ → Outcome ℕ
unfolding load
uint16 o b =
    if o.little
    then (do b0 ← load b 0; b1 ← load b 1; ok (bit_or b0 (b1 * 2 ^ 8)))
    else (do b1 ← load b 1; b0 ← load b 0; ok (bit_or b1 (b0 * 2 ^ 8)))

pub put_uint16 : ByteOrder → List ℕ → ℕ → Outcome (List ℕ)
unfolding store
put_uint16 o b v =
    if o.little
    then (do b ← store b 0 (u8 v); store b 1 (u8 (v / 2 ^ 8)))
    else (do b ← store b 0 (u8 (v / 2 ^ 8)); store b 1 (u8 v))

pub uint32 : ByteOrder → List ℕ → Outcome ℕ
unfolding load
uint32 o b =
    if o.little
    then (do
      b0 ← load b 0
      b1 ← load b 1
      b2 ← load b 2
      b3 ← load b 3
      ok (bit_or (bit_or (bit_or b0 (b1 * 2 ^ 8)) (b2 * 2 ^ 16)) (b3 * 2 ^ 24)))
    else (do
      b3 ← load b 3
      b2 ← load b 2
      b1 ← load b 1
      b0 ← load b 0
      ok (bit_or (bit_or (bit_or b3 (b2 * 2 ^ 8)) (b1 * 2 ^ 16)) (b0 * 2 ^ 24)))

pub put_uint32 : ByteOrder → List ℕ → ℕ → Outcome (List ℕ)
unfolding store
put_uint32 o b v =
    if o.little
    then (do
      b ← store b 0 (u8 v)
      b ← store b 1 (u8 (v / 2 ^ 8))
      b ← store b 2 (u8 (v / 2 ^ 16))
      store b 3 (u8 (v / 2 ^ 24)))
    else (do
      b ← store b 3 (u8 v)
      b ← store b 2 (u8 (v / 2 ^ 8))
      b ← store b 1 (u8 (v / 2 ^ 16))
      store b 0 (u8 (v / 2 ^ 24)))

-- The sum of eight bytes, the lowest first.
abbrev join_eight : (b0 b1 b2 b3 b4 b5 b6 b7 : ℕ) → ℕ
join_eight b0 b1 b2 b3 b4 b5 b6 b7 =
    let low = bit_or (bit_or (bit_or b0 (b1 * 2 ^ 8)) (b2 * 2 ^ 16)) (b3 * 2 ^ 24) in
    bit_or (bit_or (bit_or (bit_or low (b4 * 2 ^ 32)) (b5 * 2 ^ 40)) (b6 * 2 ^ 48)) (b7 * 2 ^ 56)

pub uint64 : ByteOrder → List ℕ → Outcome ℕ
unfolding load
uint64 o b = do
  b0 ← load b 0
  b1 ← load b 1
  b2 ← load b 2
  b3 ← load b 3
  b4 ← load b 4
  b5 ← load b 5
  b6 ← load b 6
  b7 ← load b 7
  ok (if o.little then join_eight b0 b1 b2 b3 b4 b5 b6 b7 else join_eight b7 b6 b5 b4 b3 b2 b1 b0)

pub put_uint64 : ByteOrder → List ℕ → ℕ → Outcome (List ℕ)
unfolding store
put_uint64 o b v =
    if o.little
    then (do
      b ← store b 0 (u8 v)
      b ← store b 1 (u8 (v / 2 ^ 8))
      b ← store b 2 (u8 (v / 2 ^ 16))
      b ← store b 3 (u8 (v / 2 ^ 24))
      b ← store b 4 (u8 (v / 2 ^ 32))
      b ← store b 5 (u8 (v / 2 ^ 40))
      b ← store b 6 (u8 (v / 2 ^ 48))
      store b 7 (u8 (v / 2 ^ 56)))
    else (do
      b ← store b 7 (u8 v)
      b ← store b 6 (u8 (v / 2 ^ 8))
      b ← store b 5 (u8 (v / 2 ^ 16))
      b ← store b 4 (u8 (v / 2 ^ 24))
      b ← store b 3 (u8 (v / 2 ^ 32))
      b ← store b 2 (u8 (v / 2 ^ 40))
      b ← store b 1 (u8 (v / 2 ^ 48))
      store b 0 (u8 (v / 2 ^ 56)))

pub append_uint16 : ByteOrder → List ℕ → ℕ → Outcome (List ℕ)
append_uint16 o b v = do out ← put_uint16 o (replicate 2 0) v; ok (b ++ out)

pub append_uint32 : ByteOrder → List ℕ → ℕ → Outcome (List ℕ)
append_uint32 o b v = do out ← put_uint32 o (replicate 4 0) v; ok (b ++ out)

pub append_uint64 : ByteOrder → List ℕ → ℕ → Outcome (List ℕ)
append_uint64 o b v = do out ← put_uint64 o (replicate 8 0) v; ok (b ++ out)
