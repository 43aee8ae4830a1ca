-- ===== src/Encoding/Hex/Digits.antt =====
-- `DecodeString` against what hexadecimal digits mean.
use wasigoc.Common.{
  ℕ, ◌+◌, ◌-◌, ◌*◌, ◌%◌, ◌<◌, ◌≡◌, refl, sym, subst, arith, List, [], ◌∷◌, Bool-cases, ◌&&◌, leb,
  some, Option-cases, inl, inr, length, true, ◌==◌,
}
use wasigoc.Common.Outcome.{Outcome, ok, err}
use wasigoc.Encoding.Hex.{decode_nibble, decode_string}
use wasigoc.Encoding.Hex.Encode.{parse}
use wasigoc.Encoding.Hex.Decode.{parse-some_pair, decode_string-parse}

-- The character is a digit of that value: from `0` to `9`, `a` to `f` or `A` to `F`.
pub data IsDigit : ℕ → ℕ → Type 0 where
  decimal : {c n : ℕ} → n < 10 → c ≡ 48 + n → IsDigit c n
  lower : {c n : ℕ} → n < 6 → c ≡ 97 + n → IsDigit c (10 + n)
  upper : {c n : ℕ} → n < 6 → c ≡ 65 + n → IsDigit c (10 + n)

-- Each two digits of the text stand for a byte.
pub data Reads : List ℕ → List ℕ → Type 0 where
  nothing : Reads [] []
  pair :
      {c1 c2 hi lo : ℕ} {s out : List ℕ}
      → IsDigit c1 hi
      → IsDigit c2 lo
      → Reads s out
      → Reads (c1 ∷ c2 ∷ s) ((hi * 16 + lo) ∷ out)

-- What comes of a text: its bytes, or one of the two errors.
pub data Decodes (s : List ℕ) : Outcome (List ℕ) → Type 0 where
  bytes : {out : List ℕ} → Reads s out → Decodes s (ok out)
  odd : length s % 2 ≡ 1 → Decodes s (err "encoding/hex: odd length hex string")
  invalid :
      length s % 2 ≡ 0
      → ((out : List ℕ) → ¬ Reads s out)
      → Decodes s (err "encoding/hex: invalid byte")

IsDigit-nibble : {c n : ℕ} → IsDigit c n → decode_nibble c ≡ some n
unfolding decode_nibble
IsDigit-nibble (decimal small e) = ground (arith, small, e)
IsDigit-nibble (lower small e) = ground (arith, small, e)
IsDigit-nibble (upper small e) = ground (arith, small, e)

nibble-IsDigit : (c n : ℕ) → decode_nibble c ≡ some n → IsDigit c n
unfolding decode_nibble
nibble-IsDigit c n e = elim (Bool-cases (leb 48 c && leb c 57)) [
  | inl figure ↦ decimal (ground (arith, figure, e)) (ground (arith, figure, e))
  | inr other ↦ elim (Bool-cases (leb 97 c && leb c 102)) [
    | inl small ↦
        let value : 10 + (c - 97) ≡ n = ground (arith, other, small, e) in
        subst (IsDigit c) value (lower (ground (arith, small)) (ground (arith, small)))
    | inr neither ↦
        let capital : (leb 65 c && leb c 70) ≡ true = ground (arith, other, neither, e) in
        let value : 10 + (c - 65) ≡ n = ground (arith, other, neither, capital, e) in
        subst (IsDigit c) value (upper (ground (arith, capital)) (ground (arith, capital)))
  ]
]

Reads-parse : {s out : List ℕ} → Reads s out → parse s ≡ some out
unfolding parse
Reads-parse nothing = refl
Reads-parse (pair high low rest) =
    rw (IsDigit-nibble high, IsDigit-nibble low, Reads-parse rest) refl

parse-Reads : (s out : List ℕ) → parse s ≡ some out → Reads s out
unfolding parse
parse-Reads [] out e = let same : [] ≡ out = cc in subst (Reads []) same nothing
parse-Reads (c ∷ []) out e = cc
parse-Reads (c1 ∷ c2 ∷ s) out e =
    let (hi, lo, rest, high, low, behind, shape) = parse-some_pair c1 c2 s out e in
    subst (Reads (c1 ∷ c2 ∷ s)) (sym shape)
      (pair (nibble-IsDigit c1 hi high) (nibble-IsDigit c2 lo low) (parse-Reads s rest behind))

-- `DecodeString` on every input: a text of pairs of hexadecimal digits, of lower or upper case, gives
-- the bytes that they stand for, a text of odd length is refused with the error for that, and any
-- other text with the error for an invalid byte.
pub decode_string-Decodes : (s : List ℕ) → Decodes s (decode_string s)
decode_string-Decodes s = elim (Option-cases (parse s)) [
  | inr (out, read) ↦
      subst (Decodes s) (sym ((decode_string-parse s).2 out read)) (bytes (parse-Reads s out read))
  | inl refused ↦ elim (Bool-cases (length s % 2 == 0)) [
    | inl same ↦
        let even : length s % 2 ≡ 0 = ground (arith, same) in
        subst (Decodes s) (sym ((decode_string-parse s).1 even refused))
          (invalid even λ out read. let found = Reads-parse read in cc)
    | inr differs ↦
        let uneven : length s % 2 ≡ 1 = ground (arith, differs) in
        subst (Decodes s) (sym ((decode_string-parse s).0 uneven)) (odd uneven)
  ]
]
