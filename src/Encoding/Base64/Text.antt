-- ===== src/Encoding/Base64/Text.antt =====
-- What `EncodeToString` writes: the characters of six-bit values, and the padding.
use mathlib.Core.List.{append_assoc, append-nil}
use wasigoc.Common.{ℕ, ◌+◌, ◌*◌, ◌/◌, ◌%◌, ◌^◌, ◌<◌, ◌≡◌, ◌≢◌, refl, ap, ◌∙◌, arith}
use wasigoc.Common.{
  List, [], ◌∷◌, ◌++◌, map, Option, none, some, bit_and, bit_or, ◌==◌, if◌then◌else◌,
}
use wasigoc.Common.{length, get_or, All, replicate}
use wasigoc.Common.Bits.{IsByte, u8, bit_and_mask, bit_or_fields}
use wasigoc.Common.Outcome.{ok}
use wasigoc.Common.Slices.{load}
use wasigoc.Common.Tables.{agree_below, agree_below→eq, load-get_or}
use wasigoc.Encoding.Base64.{
  Encoding, std_encoding, url_encoding, encode_loop, index_of, decode_char,
}

-- The character of a six-bit value.
abbrev pub char : Encoding → ℕ → ℕ
char enc v = get_or enc.alphabet v 0

-- 64 characters, each found where it stands, and none of them the padding.
pub record IsAlphabet (enc : Encoding) : Type 0 where
  pub size : length enc.alphabet ≡ 64
  pub found : (v : ℕ) → v < 64 → decode_char enc (char enc v) ≡ some v
  pub no_padding : (v : ℕ) → v < 64 → char enc v ≢ 61

-- The index that a search finds, and 64 where it finds none.
abbrev found_at : Option ℕ → ℕ
found_at (some i) = i
found_at none = 64

some_found : (o : Option ℕ) (v : ℕ) → v < 64 → found_at o ≡ v → o ≡ some v
some_found none v h e = absurd (omega arith)
some_found (some i) v h e = ap some e

-- 1 for the padding, and 0 for all else.
abbrev is_padding : ℕ → ℕ
is_padding c = if c == 61 then 1 else 0

not_padding : (c : ℕ) → is_padding c ≡ 0 → c ≢ 61
not_padding c h e = ground arith

pub std_encoding-IsAlphabet : IsAlphabet std_encoding
unfolding decode_char index_of agree_below
std_encoding-IsAlphabet = record {
  size = refl;
  found = λ v h. some_found _ v h (
      agree_below→eq (λ k. found_at (decode_char std_encoding (char std_encoding k))) (λ k. k) 64
        refl v h);
  no_padding = λ v h.
      not_padding _ (agree_below→eq (λ k. is_padding (char std_encoding k)) (λ k. 0) 64 refl v h);
}

pub url_encoding-IsAlphabet : IsAlphabet url_encoding
unfolding decode_char index_of agree_below
url_encoding-IsAlphabet = record {
  size = refl;
  found = λ v h. some_found _ v h (
      agree_below→eq (λ k. found_at (decode_char url_encoding (char url_encoding k))) (λ k. k) 64
        refl v h);
  no_padding = λ v h.
      not_padding _ (agree_below→eq (λ k. is_padding (char url_encoding k)) (λ k. 0) 64 refl v h);
}

-- The six-bit values of the bytes, and how many padding characters follow.
abbrev pub sextets : List ℕ → List ℕ
sextets (b0 ∷ b1 ∷ b2 ∷ src) =
    b0 / 4 ∷ (b0 % 4 * 16 + b1 / 16) ∷ (b1 % 16 * 4 + b2 / 64) ∷ b2 % 64 ∷ sextets src
sextets (b0 ∷ b1 ∷ []) = b0 / 4 ∷ (b0 % 4 * 16 + b1 / 16) ∷ b1 % 16 * 4 ∷ []
sextets (b0 ∷ []) = b0 / 4 ∷ b0 % 4 * 16 ∷ []
sextets [] = []

abbrev pub padding : List ℕ → ℕ
padding (b0 ∷ b1 ∷ b2 ∷ src) = padding src
padding (b0 ∷ b1 ∷ []) = 1
padding (b0 ∷ []) = 2
padding [] = 0

pub sextets-lt : (src : List ℕ) → All IsByte src → All (λ v. v < 64) (sextets src)
sextets-lt (b0 ∷ b1 ∷ b2 ∷ src) (h0, (h1, (h2, h))) =
    (omega arith, (omega arith, (omega arith, (omega arith, sextets-lt src h))))
sextets-lt (b0 ∷ b1 ∷ []) h = omega arith
sextets-lt (b0 ∷ []) h = omega arith
sextets-lt [] h = tt

-- The source's shifts and masks are these quotients and remainders.
second_index :
    (a b : ℕ) → b < 256 → bit_or (u8 (bit_and a 3 * 2 ^ 4)) (b / 2 ^ 4) ≡ a % 4 * 16 + b / 16
second_index a b h = ground (arith, bit_and_mask 2 a, bit_or_fields 4 (a % 4) (b / 16))

third_index :
    (a b : ℕ) → b < 256 → bit_or (u8 (bit_and a 15 * 2 ^ 2)) (b / 2 ^ 6) ≡ a % 16 * 4 + b / 64
third_index a b h = ground (arith, bit_and_mask 4 a, bit_or_fields 2 (a % 16) (b / 64))

last_second : (a : ℕ) → u8 (bit_and a 3 * 2 ^ 4) ≡ a % 4 * 16
last_second a = omega (arith, bit_and_mask 2 a)

last_third : (a : ℕ) → u8 (bit_and a 15 * 2 ^ 2) ≡ a % 16 * 4
last_third a = omega (arith, bit_and_mask 4 a)

module _ (enc : Encoding) (alphabet : IsAlphabet enc) where
  load-char : (v : ℕ) → v < 64 → load enc.alphabet v ≡ ok (char enc v)
  load-char v h = load-get_or enc.alphabet v 0 (omega (arith, alphabet.size))

  abbrev four : (b0 b1 b2 : ℕ) → List ℕ
  four b0 b1 b2 =
      map (char enc) (b0 / 4 ∷ (b0 % 4 * 16 + b1 / 16) ∷ (b1 % 16 * 4 + b2 / 64) ∷ b2 % 64 ∷ [])

  pub encode_loop-text :
      (out src : List ℕ)
      → All IsByte src
      → encode_loop enc out src
        ≡ ok (out ++ (map (char enc) (sextets src) ++ replicate (padding src) 61))
  unfolding encode_loop
  encode_loop-text out (b0 ∷ b1 ∷ b2 ∷ src) (h0, (h1, (h2, h))) =
      rw
        (
          load-char (b0 / 4) (omega arith),
          second_index b0 b1 h1,
          load-char (b0 % 4 * 16 + b1 / 16) (omega arith),
          third_index b1 b2 h2,
          load-char (b1 % 16 * 4 + b2 / 64) (omega arith),
          bit_and_mask 6 b2,
          load-char (b2 % 64) (omega arith),
        )
        (encode_loop-text (out ++ four b0 b1 b2) src h
          ∙ ap ok (
              append_assoc out (four b0 b1 b2)
                (map (char enc) (sextets src) ++ replicate (padding src) 61)))
  encode_loop-text out (b0 ∷ b1 ∷ []) (h0, (h1, h)) = rw (
    load-char (b0 / 4) (omega arith),
    second_index b0 b1 h1,
    load-char (b0 % 4 * 16 + b1 / 16) (omega arith),
    last_third b1,
    load-char (b1 % 16 * 4) (omega arith),
  )
  encode_loop-text out (b0 ∷ []) (h0, h) =
      rw (load-char (b0 / 4) (omega arith), last_second b0, load-char (b0 % 4 * 16) (omega arith))
  encode_loop-text out [] h = rw append-nil
