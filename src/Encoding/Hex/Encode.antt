-- ===== src/Encoding/Hex/Encode.antt =====
-- What `EncodeToString` writes, and a parser of such texts by recursion.
use mathlib.Core.List.{append_assoc}
use wasigoc.Common.{ℕ, ◌+◌, ◌*◌, ◌/◌, ◌%◌, ◌^◌, ◌<◌, ◌≡◌, refl, ap, ◌∙◌, arith, List, [], ◌∷◌, ◌++◌}
use wasigoc.Common.{
  All, Option, some, none, bit_or, length, length-append, length-replicate, replicate, ltb,
  if◌then◌else◌, get_or,
}
use wasigoc.Common.Bits.{IsByte, u8, bit_and_mask, bit_or_fields}
use wasigoc.Common.Outcome.{ok}
use wasigoc.Common.Slices.{load, store_at}
use wasigoc.Common.Tables.{agree_below, agree_below→eq, load-get_or}
use wasigoc.Encoding.Hex.{digits, encode_loop, encode, encode_to_string, decode_nibble}

-- The character of a nibble.
unfoldable pub hex_char : ℕ → ℕ
hex_char n = if ltb n 10 then 48 + n else 87 + n

digit_table : (n : ℕ) → n < 16 → load digits n ≡ ok (hex_char n)
unfolding hex_char agree_below
digit_table n h =
    load-get_or digits n 0 h ∙ ap ok (agree_below→eq (λ k. get_or digits k 0) hex_char 16 refl n h)

unfoldable pub text : List ℕ → List ℕ
text [] = []
text (v ∷ src) = hex_char (v / 16) ∷ hex_char (v % 16) ∷ text src

pub length-text : (src : List ℕ) → length (text src) ≡ length src * 2
unfolding text
length-text [] = refl
length-text (v ∷ src) = omega (arith, length-text src)

-- The bytes that a text of hexadecimal digits stands for.
abbrev pub combine : Option ℕ → Option ℕ → Option (List ℕ) → Option (List ℕ)
combine (some hi) (some lo) (some out) = some ((hi * 16 + lo) ∷ out)
combine hi lo out = none

unfoldable pub parse : List ℕ → Option (List ℕ)
parse [] = some []
parse (c ∷ []) = none
parse (c1 ∷ c2 ∷ s) = combine (decode_nibble c1) (decode_nibble c2) (parse s)

encode_loop-text :
    (src : List ℕ) (i : ℕ) (pre post : List ℕ)
    → i * 2 ≡ length pre
    → length post ≡ length src * 2
    → All IsByte src
    → encode_loop src i (pre ++ post) ≡ ok (pre ++ text src)
unfolding encode_loop text
encode_loop-text [] i pre [] e h b = refl
encode_loop-text [] i pre (x ∷ post) e h b = absurd (omega arith)
encode_loop-text (v ∷ src) i pre (x ∷ y ∷ post) e h b =
    let hi = hex_char (v / 16) in
    let lo = hex_char (v % 16) in
    rw
      (
        digit_table (v / 16) (omega (arith, b.0)),
        store_at (i * 2) pre x hi (y ∷ post) e,
        bit_and_mask 4 v,
        digit_table (v % 16) (omega arith),
        ← append_assoc pre (hi ∷ []) (y ∷ post),
        store_at (i * 2 + 1) (pre ++ hi ∷ []) y lo post
            (omega (arith, e, length-append pre (hi ∷ []))),
        ← append_assoc pre (hi ∷ []) (lo ∷ text src),
        ← append_assoc (pre ++ hi ∷ []) (lo ∷ []) post,
        ← append_assoc (pre ++ hi ∷ []) (lo ∷ []) (text src),
      )
      (encode_loop-text src (i + 1) ((pre ++ hi ∷ []) ++ lo ∷ []) post
        (omega (arith, e, length-append pre (hi ∷ []), length-append (pre ++ hi ∷ []) (lo ∷ [])))
        (omega (arith, h)) b.1)
encode_loop-text (v ∷ src) i pre post e h b = absurd (omega arith)

-- `EncodeToString` never panics on bytes, and writes two digits for each.
pub encode_to_string-text : (src : List ℕ) → All IsByte src → encode_to_string src ≡ ok (text src)
unfolding encode_to_string encode
encode_to_string-text src b =
    rw (encode_loop-text src 0 [] (replicate (length src * 2) 0) refl (length-replicate _ 0) b)

nibble-hex_char : (n : ℕ) → n < 16 → decode_nibble (hex_char n) ≡ some n
unfolding decode_nibble hex_char
nibble-hex_char n h = ground arith

pub decode_nibble-lt : (c n : ℕ) → decode_nibble c ≡ some n → n < 16
unfolding decode_nibble
decode_nibble-lt c n e = ground arith

pub join_nibbles : (hi lo : ℕ) → hi < 16 → lo < 16 → bit_or (u8 (hi * 2 ^ 4)) lo ≡ hi * 16 + lo
join_nibbles hi lo h l = ground (arith, bit_or_fields 4 hi lo)

pub parse-text : (src : List ℕ) → All IsByte src → parse (text src) ≡ some src
unfolding parse text
parse-text [] b = refl
parse-text (v ∷ src) b =
    rw
      (
        nibble-hex_char (v / 16) (omega (arith, b.0)),
        nibble-hex_char (v % 16) (omega arith),
        parse-text src b.1,
      )
      (ap (λ (t : ℕ). some (t ∷ src)) (omega arith))
