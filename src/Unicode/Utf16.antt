-- ===== src/Unicode/Utf16.antt =====
-- stdlib/unicode/utf16/utf16.go. A rune is an int32, so it may be negative; a uint16 is a number.
-- The shifts and masks are on non-negative runes.
pub mod RoundTrip
use wasigoc.Common.{ℕ, ◌+◌, ◌-◌, ◌*◌, ◌/◌, ◌%◌, ◌^◌, List, [], ◌∷◌, ◌++◌, Bool, true, false}
use wasigoc.Common.{bit_and, bit_or, ltb, leb, ◌&&◌, ◌||◌, if◌then◌else◌, Option, none, some}
use wasigoc.Common.Bits.{u16}
use wasigoc.Common.Int.{ℤ, pos, negsuc}

abbrev pub replacement_char : ℕ
replacement_char = 65533

abbrev pub max_rune : ℕ
max_rune = 1114111

abbrev pub surr1 : ℕ
surr1 = 55296

abbrev pub surr2 : ℕ
surr2 = 56320

abbrev pub surr3 : ℕ
surr3 = 57344

abbrev pub surr_self : ℕ
surr_self = 65536

pub is_surrogate : ℤ → Bool
is_surrogate (pos r) = leb surr1 r && ltb r surr3
is_surrogate (negsuc n) = false

-- `none` is the result -1.
pub rune_len : ℤ → Option ℕ
rune_len (pos r) =
    if leb surr1 r && ltb r surr3 || ltb max_rune r
    then none
    else if leb surr_self r
    then some 2
    else some 1
rune_len (negsuc n) = none

-- `encode_rune` on a rune that is not negative.
pub encode_pair : ℕ → ℕ × ℕ
encode_pair r =
    if ltb r surr_self || ltb max_rune r
    then (replacement_char, replacement_char)
    else (surr1 + bit_and ((r - surr_self) / 2 ^ 10) 1023, surr2 + bit_and (r - surr_self) 1023)

pub encode_rune : ℤ → ℕ × ℕ
unfolding encode_pair
encode_rune (pos r) = encode_pair r
encode_rune (negsuc n) = (replacement_char, replacement_char)

-- On the runes of two uint16, as `Decode` calls it.
pub decode_rune : ℕ → ℕ → ℕ
decode_rune r1 r2 =
    if leb surr1 r1 && ltb r1 surr2 && leb surr2 r2 && ltb r2 surr3
    then bit_or ((r1 - surr1) * 2 ^ 10) (r2 - surr2) + surr_self
    else replacement_char

-- What one round of the loop of `Encode` appends.
pub encode_one : ℤ → List ℕ
unfolding encode_pair
encode_one (pos r) =
    if ltb r surr1 || leb surr3 r && ltb r surr_self
    then u16 r ∷ []
    else if leb surr_self r && leb r max_rune
    then u16 (encode_pair r).0 ∷ u16 (encode_pair r).1 ∷ []
    else u16 replacement_char ∷ []
encode_one (negsuc n) = u16 replacement_char ∷ []

pub encode_loop : List ℕ → List ℤ → List ℕ
encode_loop out [] = out
encode_loop out (r ∷ s) = encode_loop (out ++ encode_one r) s

pub encode : List ℤ → List ℕ
encode s = encode_loop [] s

-- `r2` is there where `i + 1 < len(s)`.
pub decode_loop : List ℕ → List ℕ → List ℕ
decode_loop out [] = out
decode_loop out (r ∷ []) = out ++ r ∷ []
decode_loop out (r ∷ r2 ∷ s) =
    let pair = decode_loop (out ++ decode_rune r r2 ∷ []) s in
    let single = decode_loop (out ++ r ∷ []) (r2 ∷ s) in
    if leb surr1 r && ltb r surr2
    then (if leb surr2 r2 && ltb r2 surr3 then pair else single)
    else single

pub decode : List ℕ → List ℕ
decode s = decode_loop [] s
