-- ===== src/Unicode/Utf16/RoundTrip.antt =====
-- `Decode` after `Encode`, on any list of runes.
use mathlib.Core.List.{append_assoc, append-nil}
use wasigoc.Common.{
  ℕ, ◌+◌, ◌-◌, ◌/◌, ◌%◌, ◌^◌, ◌≤◌, ◌<◌, ◌≡◌, refl, arith, List, [], ◌∷◌, ◌++◌, map,
}
use wasigoc.Common.{ltb, leb, ◌&&◌, ◌||◌, if◌then◌else◌, ◌∙◌}
use wasigoc.Common.{◌⊎◌, Option, none, some, length, length-append, sym}
use wasigoc.Common.Bits.{bit_and_mask, bit_or_fields}
use wasigoc.Common.Int.{ℤ, pos, negsuc}
use wasigoc.Unicode.Utf16.{
  replacement_char, max_rune, surr1, surr2, surr3, surr_self, rune_len, encode_pair, decode_rune,
  encode_one, encode_loop, encode, decode_loop, decode,
}

-- A code point outside the surrogates.
abbrev pub IsScalar : ℕ → Type 0
IsScalar r = (r < surr1) ⊎ ((surr3 ≤ r) × (r ≤ max_rune))

-- What is left of a rune: a scalar value stays, all else becomes the replacement character.
unfoldable pub sanitize : ℤ → ℕ
sanitize (pos r) = if ltb r surr1 || leb surr3 r && leb r max_rune then r else replacement_char
sanitize (negsuc n) = replacement_char

decode_rune-encode_pair :
    (r : ℕ) → surr_self ≤ r → r ≤ max_rune → decode_rune (encode_pair r).0 (encode_pair r).1 ≡ r
unfolding decode_rune encode_pair
decode_rune-encode_pair r h k = ground (
  arith,
  bit_and_mask 10 ((r - surr_self) / 2 ^ 10),
  bit_and_mask 10 (r - surr_self),
  bit_or_fields 10 ((r - surr_self) / 2 ^ 10) ((r - surr_self) % 2 ^ 10),
)

encode_pair-bounds :
    (r : ℕ)
    → surr_self ≤ r
    → r ≤ max_rune
    → (surr1 ≤ (encode_pair r).0)
      × ((encode_pair r).0 < surr2)
      × (surr2 ≤ (encode_pair r).1)
      × ((encode_pair r).1 < surr3)
unfolding encode_pair
encode_pair-bounds r h k =
    ground (arith, bit_and_mask 10 ((r - surr_self) / 2 ^ 10), bit_and_mask 10 (r - surr_self))

-- A unit that starts no pair is taken alone.
decode_loop-single :
    (out : List ℕ) (r : ℕ) (s : List ℕ)
    → (r < surr1) ⊎ (surr2 ≤ r)
    → decode_loop out (r ∷ s) ≡ decode_loop (out ++ r ∷ []) s
unfolding decode_loop
decode_loop-single out r [] h = refl
decode_loop-single out r (r2 ∷ s) h = ground arith

decode_loop-pair :
    (out : List ℕ) (r1 r2 : ℕ) (s : List ℕ)
    → surr1 ≤ r1
    → r1 < surr2
    → surr2 ≤ r2
    → r2 < surr3
    → decode_loop out (r1 ∷ r2 ∷ s) ≡ decode_loop (out ++ decode_rune r1 r2 ∷ []) s
unfolding decode_loop
decode_loop-pair out r1 r2 s h k l m = ground arith

-- What one rune wrote is read as that rune, sanitized.
decode_loop-encode_one :
    (out : List ℕ) (r : ℤ) (s : List ℕ)
    → decode_loop out (encode_one r ++ s) ≡ decode_loop (out ++ sanitize r ∷ []) s
unfolding encode_one sanitize
decode_loop-encode_one out (pos r) s = ground (
  arith,
  decode_loop-single out r s,
  decode_loop-single out replacement_char s,
  encode_pair-bounds r,
  decode_loop-pair out (encode_pair r).0 (encode_pair r).1 s,
  decode_rune-encode_pair r,
)
decode_loop-encode_one out (negsuc n) s = decode_loop-single out replacement_char s (omega arith)

abbrev units : List ℤ → List ℕ
units [] = []
units (r ∷ s) = encode_one r ++ units s

encode_loop-units : (out : List ℕ) (s : List ℤ) → encode_loop out s ≡ out ++ units s
unfolding encode_loop
encode_loop-units out [] = sym (append-nil out)
encode_loop-units out (r ∷ s) =
    encode_loop-units (out ++ encode_one r) s ∙ append_assoc out (encode_one r) (units s)

decode_loop-units : (out : List ℕ) (s : List ℤ) → decode_loop out (units s) ≡ out ++ map sanitize s
unfolding decode_loop sanitize
decode_loop-units out [] = sym (append-nil out)
decode_loop-units out (r ∷ s) =
    decode_loop-encode_one out r (units s)
    ∙ decode_loop-units (out ++ sanitize r ∷ []) s
    ∙ append_assoc out (sanitize r ∷ []) (map sanitize s)

-- `Decode` after `Encode` gives every list of runes back, with each rune that is negative, too
-- large or a surrogate replaced by U+FFFD.
pub decode-encode : (s : List ℤ) → decode (encode s) ≡ map sanitize s
unfolding decode encode
decode-encode s = rw (encode_loop-units [] s) (decode_loop-units [] s)

-- The units that `RuneLen` announces, and one for a rune that it refuses.
abbrev announced : Option ℕ → ℕ
announced (some n) = n
announced none = 1

unfoldable pub total_units : List ℤ → ℕ
total_units [] = 0
total_units (r ∷ s) = announced (rune_len r) + total_units s

length-encode_one : (r : ℤ) → length (encode_one r) ≡ announced (rune_len r)
unfolding encode_one rune_len
length-encode_one (pos r) = ground arith
length-encode_one (negsuc n) = refl

-- `Encode` writes as many units as `RuneLen` announces for the runes, and one for each that has none.
pub length-encode : (s : List ℤ) → length (encode s) ≡ total_units s
unfolding encode total_units
length-encode s = rw (encode_loop-units [] s) (count s)
  where
    count : (s : List ℤ) → length (units s) ≡ total_units s
    count [] = refl
    count (r ∷ s) =
        omega (arith, length-append (encode_one r) (units s), length-encode_one r, count s)
