-- ===== src/Encoding/Binary/RoundTrip.antt =====
-- What was put is read back, and the other way round, at every width and in both orders.
use wasigoc.Common.{ℕ, ◌+◌, ◌*◌, ◌/◌, ◌^◌, ◌≤◌, ◌<◌, ◌≡◌, arith, List, [], ◌∷◌}
use wasigoc.Common.{if◌then◌else◌, length, drop, bit_or, ap, ◌∙◌, ◌++◌, Bool-cases, inl, inr}
use wasigoc.Common.Bits.{u8, bit_or_fields_low}
use wasigoc.Common.Outcome.{ok}
use wasigoc.Encoding.Binary.{
  ByteOrder, uint16, put_uint16, uint32, put_uint32, uint64, put_uint64, join_eight,
}

join_two : (a b : ℕ) → a < 256 → bit_or a (b * 2 ^ 8) ≡ b * 2 ^ 8 + a
join_two a b h = bit_or_fields_low 8 b a h

join_four :
    (a b c d : ℕ)
    → a < 256
    → b < 256
    → c < 256
    → bit_or (bit_or (bit_or a (b * 2 ^ 8)) (c * 2 ^ 16)) (d * 2 ^ 24)
      ≡ d * 2 ^ 24 + (c * 2 ^ 16 + (b * 2 ^ 8 + a))
join_four a b c d ha hb hc =
    rw (join_two a b ha, bit_or_fields_low 16 c (b * 2 ^ 8 + a) (omega arith))
      (bit_or_fields_low 24 d (c * 2 ^ 16 + (b * 2 ^ 8 + a)) (omega arith))

join_eight_sum :
    (a b c d e f g h : ℕ)
    → a < 256
    → b < 256
    → c < 256
    → d < 256
    → e < 256
    → f < 256
    → g < 256
    → join_eight a b c d e f g h
      ≡ h * 2 ^ 56
        + (g * 2 ^ 48 + (f * 2 ^ 40 + (e * 2 ^ 32 + (d * 2 ^ 24 + (c * 2 ^ 16 + (b * 2 ^ 8 + a))))))
join_eight_sum a b c d e f g h ha hb hc hd he hf hg =
    let low = d * 2 ^ 24 + (c * 2 ^ 16 + (b * 2 ^ 8 + a)) in
    let fifth = e * 2 ^ 32 + low in
    let sixth = f * 2 ^ 40 + fifth in
    let seventh = g * 2 ^ 48 + sixth in
    rw
      (
        join_four a b c d ha hb hc,
        bit_or_fields_low 32 e low (omega arith),
        bit_or_fields_low 40 f fifth (omega arith),
        bit_or_fields_low 48 g sixth (omega arith),
      )
      (bit_or_fields_low 56 h seventh (omega arith))

bytes16 : ByteOrder → ℕ → List ℕ
bytes16 o v = if o.little then u8 v ∷ u8 (v / 2 ^ 8) ∷ [] else u8 (v / 2 ^ 8) ∷ u8 v ∷ []

put_uint16-bytes :
    (o : ByteOrder) (x0 x1 v : ℕ) (r : List ℕ)
    → put_uint16 o (x0 ∷ x1 ∷ r) v ≡ ok (bytes16 o v ++ r)
unfolding put_uint16 bytes16
put_uint16-bytes o x0 x1 v r = ground arith

uint16-bytes :
    (o : ByteOrder) (v : ℕ) (r : List ℕ) → v < 2 ^ 16 → uint16 o (bytes16 o v ++ r) ≡ ok v
unfolding uint16 bytes16
uint16-bytes o v r h =
    let whole = join_two (u8 v) (u8 (v / 2 ^ 8)) (omega arith) in
    elim (Bool-cases o.little) [
      | inl e ↦ rw (e) (ap ok (whole ∙ omega arith))
      | inr e ↦ rw (e) (ap ok (whole ∙ omega arith))
    ]

bytes16-shape :
    (o : ByteOrder) (v : ℕ) (r : List ℕ)
    → (length (bytes16 o v ++ r) ≡ 2 + length r) × (drop 2 (bytes16 o v ++ r) ≡ r)
unfolding bytes16
bytes16-shape o v r = ground arith

-- In both byte orders, on a slice of at least 2 elements and a value of 16 bits, `PutUint16` keeps the
-- length and all behind the first 2 elements, and `Uint16` reads the value back.
pub uint16-put_uint16 :
    (o : ByteOrder) (b : List ℕ) (v : ℕ)
    → 2 ≤ length b
    → v < 2 ^ 16
    → (b' : List ℕ) × (put_uint16 o b v ≡ ok b')
      × (uint16 o b' ≡ ok v)
      × (length b' ≡ length b)
      × (drop 2 b' ≡ drop 2 b)
uint16-put_uint16 o (x0 ∷ x1 ∷ r) v h k =
    let (size, kept) = bytes16-shape o v r in
    (
      bytes16 o v ++ r,
      put_uint16-bytes o x0 x1 v r,
      uint16-bytes o v r k,
      omega (arith, size),
      kept,
    )
uint16-put_uint16 o b v h k = absurd (omega arith)

bytes32 : ByteOrder → ℕ → List ℕ
bytes32 o v =
    if o.little
    then u8 v ∷ u8 (v / 2 ^ 8) ∷ u8 (v / 2 ^ 16) ∷ u8 (v / 2 ^ 24) ∷ []
    else u8 (v / 2 ^ 24) ∷ u8 (v / 2 ^ 16) ∷ u8 (v / 2 ^ 8) ∷ u8 v ∷ []

put_uint32-bytes :
    (o : ByteOrder) (x0 x1 x2 x3 v : ℕ) (r : List ℕ)
    → put_uint32 o (x0 ∷ x1 ∷ x2 ∷ x3 ∷ r) v ≡ ok (bytes32 o v ++ r)
unfolding put_uint32 bytes32
put_uint32-bytes o x0 x1 x2 x3 v r = ground arith

uint32-bytes :
    (o : ByteOrder) (v : ℕ) (r : List ℕ) → v < 2 ^ 32 → uint32 o (bytes32 o v ++ r) ≡ ok v
unfolding uint32 bytes32
uint32-bytes o v r h =
    let whole =
      join_four (u8 v) (u8 (v / 2 ^ 8)) (u8 (v / 2 ^ 16)) (u8 (v / 2 ^ 24)) (omega arith)
        (omega arith) (omega arith) in
    elim (Bool-cases o.little) [
      | inl e ↦ rw (e) (ap ok (whole ∙ omega arith))
      | inr e ↦ rw (e) (ap ok (whole ∙ omega arith))
    ]

bytes32-shape :
    (o : ByteOrder) (v : ℕ) (r : List ℕ)
    → (length (bytes32 o v ++ r) ≡ 4 + length r) × (drop 4 (bytes32 o v ++ r) ≡ r)
unfolding bytes32
bytes32-shape o v r = ground arith

-- In both byte orders, on a slice of at least 4 elements and a value of 32 bits, `PutUint32` keeps the
-- length and all behind the first 4 elements, and `Uint32` reads the value back.
pub uint32-put_uint32 :
    (o : ByteOrder) (b : List ℕ) (v : ℕ)
    → 4 ≤ length b
    → v < 2 ^ 32
    → (b' : List ℕ) × (put_uint32 o b v ≡ ok b')
      × (uint32 o b' ≡ ok v)
      × (length b' ≡ length b)
      × (drop 4 b' ≡ drop 4 b)
uint32-put_uint32 o (x0 ∷ x1 ∷ x2 ∷ x3 ∷ r) v h k =
    let (size, kept) = bytes32-shape o v r in
    (
      bytes32 o v ++ r,
      put_uint32-bytes o x0 x1 x2 x3 v r,
      uint32-bytes o v r k,
      omega (arith, size),
      kept,
    )
uint32-put_uint32 o b v h k = absurd (omega arith)

bytes64 : ByteOrder → ℕ → List ℕ
bytes64 o v =
    if o.little
    then u8 v
      ∷ u8 (v / 2 ^ 8)
      ∷ u8 (v / 2 ^ 16)
      ∷ u8 (v / 2 ^ 24)
      ∷ u8 (v / 2 ^ 32)
      ∷ u8 (v / 2 ^ 40)
      ∷ u8 (v / 2 ^ 48)
      ∷ u8 (v / 2 ^ 56)
      ∷ []
    else u8 (v / 2 ^ 56)
      ∷ u8 (v / 2 ^ 48)
      ∷ u8 (v / 2 ^ 40)
      ∷ u8 (v / 2 ^ 32)
      ∷ u8 (v / 2 ^ 24)
      ∷ u8 (v / 2 ^ 16)
      ∷ u8 (v / 2 ^ 8)
      ∷ u8 v
      ∷ []

put_uint64-bytes :
    (o : ByteOrder) (x0 x1 x2 x3 x4 x5 x6 x7 v : ℕ) (r : List ℕ)
    → put_uint64 o (x0 ∷ x1 ∷ x2 ∷ x3 ∷ x4 ∷ x5 ∷ x6 ∷ x7 ∷ r) v ≡ ok (bytes64 o v ++ r)
unfolding put_uint64 bytes64
put_uint64-bytes o x0 x1 x2 x3 x4 x5 x6 x7 v r = ground arith

uint64-bytes :
    (o : ByteOrder) (v : ℕ) (r : List ℕ) → v < 2 ^ 64 → uint64 o (bytes64 o v ++ r) ≡ ok v
unfolding uint64 bytes64
uint64-bytes o v r h =
    let whole =
      join_eight_sum (u8 v) (u8 (v / 2 ^ 8)) (u8 (v / 2 ^ 16)) (u8 (v / 2 ^ 24)) (u8 (v / 2 ^ 32))
        (u8 (v / 2 ^ 40)) (u8 (v / 2 ^ 48)) (u8 (v / 2 ^ 56)) (omega arith) (omega arith)
        (omega arith) (omega arith) (omega arith) (omega arith) (omega arith) in
    elim (Bool-cases o.little) [
      | inl e ↦ rw (e) (ap ok (whole ∙ omega arith))
      | inr e ↦ rw (e) (ap ok (whole ∙ omega arith))
    ]

bytes64-shape :
    (o : ByteOrder) (v : ℕ) (r : List ℕ)
    → (length (bytes64 o v ++ r) ≡ 8 + length r) × (drop 8 (bytes64 o v ++ r) ≡ r)
unfolding bytes64
bytes64-shape o v r = ground arith

-- In both byte orders, on a slice of at least 8 elements and a value of 64 bits, `PutUint64` keeps the
-- length and all behind the first 8 elements, and `Uint64` reads the value back.
pub uint64-put_uint64 :
    (o : ByteOrder) (b : List ℕ) (v : ℕ)
    → 8 ≤ length b
    → v < 2 ^ 64
    → (b' : List ℕ) × (put_uint64 o b v ≡ ok b')
      × (uint64 o b' ≡ ok v)
      × (length b' ≡ length b)
      × (drop 8 b' ≡ drop 8 b)
uint64-put_uint64 o (x0 ∷ x1 ∷ x2 ∷ x3 ∷ x4 ∷ x5 ∷ x6 ∷ x7 ∷ r) v h k =
    let (size, kept) = bytes64-shape o v r in
    (
      bytes64 o v ++ r,
      put_uint64-bytes o x0 x1 x2 x3 x4 x5 x6 x7 v r,
      uint64-bytes o v r k,
      omega (arith, size),
      kept,
    )
uint64-put_uint64 o b v h k = absurd (omega arith)
