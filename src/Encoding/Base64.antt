-- ===== src/Encoding/Base64.antt =====
-- stdlib/encoding/base64/base64.go: the standard and the URL alphabet, with padding.
-- A list argument of a loop is what the loop has not reached of its slice.
pub mod Text
pub mod RoundTrip
use wasigoc.Common.{
  ℕ, zero, suc, ◌+◌, ◌*◌, ◌/◌, ◌^◌, List, [], ◌∷◌, ◌++◌, Option, none, some, codes,
}
use wasigoc.Common.{bit_and, bit_or, ◌==◌, if◌then◌else◌, length, take, get_elem?, ◌≢◌}
use wasigoc.Common.Bits.{u8}
use wasigoc.Common.Outcome.{Outcome, ok, err, panic, ◌>>=◌}
use wasigoc.Common.Slices.{load}

pub record Encoding : Type 0 where
  pub alphabet : List ℕ

abbrev pub std_encoding : Encoding
std_encoding = record {
  alphabet = codes "ABCDEFGHIJKLMNOPQRSTUVWXYZabcdefghijklmnopqrstuvwxyz0123456789+/";
}

abbrev pub url_encoding : Encoding
url_encoding = record {
  alphabet = codes "ABCDEFGHIJKLMNOPQRSTUVWXYZabcdefghijklmnopqrstuvwxyz0123456789-_";
}

-- Three bytes a round, and one or two behind the loop.
pub encode_loop : Encoding → List ℕ → List ℕ → Outcome (List ℕ)
encode_loop enc out (b0 ∷ b1 ∷ b2 ∷ src) = do
  c0 ← load enc.alphabet (b0 / 2 ^ 2)
  c1 ← load enc.alphabet (bit_or (u8 (bit_and b0 3 * 2 ^ 4)) (b1 / 2 ^ 4))
  c2 ← load enc.alphabet (bit_or (u8 (bit_and b1 15 * 2 ^ 2)) (b2 / 2 ^ 6))
  c3 ← load enc.alphabet (bit_and b2 63)
  encode_loop enc (out ++ c0 ∷ c1 ∷ c2 ∷ c3 ∷ []) src
encode_loop enc out (b0 ∷ b1 ∷ []) = do
  c0 ← load enc.alphabet (b0 / 2 ^ 2)
  c1 ← load enc.alphabet (bit_or (u8 (bit_and b0 3 * 2 ^ 4)) (b1 / 2 ^ 4))
  c2 ← load enc.alphabet (u8 (bit_and b1 15 * 2 ^ 2))
  ok (out ++ c0 ∷ c1 ∷ c2 ∷ 61 ∷ [])
encode_loop enc out (b0 ∷ []) = do
  c0 ← load enc.alphabet (b0 / 2 ^ 2)
  c1 ← load enc.alphabet (u8 (bit_and b0 3 * 2 ^ 4))
  ok (out ++ c0 ∷ c1 ∷ 61 ∷ 61 ∷ [])
encode_loop enc out [] = ok out

pub encode_to_string : Encoding → List ℕ → Outcome (List ℕ)
encode_to_string enc src = encode_loop enc [] src

-- The search of `decodeChar`, from index `i` on.
pub index_of : List ℕ → ℕ → ℕ → Option ℕ
index_of [] c i = none
index_of (a ∷ alphabet) c i = if a == c then some i else index_of alphabet c (suc i)

pub decode_char : Encoding → ℕ → Option ℕ
decode_char enc c = index_of enc.alphabet c 0

-- `for n > 0 && src[n-1] == 61 { n-- }`
pub strip : List ℕ → ℕ → ℕ
strip src zero = zero
strip src (suc n) =
    let shorter = strip src n in
    elim (get_elem? src n) [ some c ↦ if c == 61 then shorter else suc n | none ↦ suc n ]

-- The inner loop: at most `k` more characters go to `vals`, and the rest is left.
pub read_group : Encoding → ℕ → List ℕ → List ℕ → Outcome (List ℕ × List ℕ)
read_group enc zero src vals = ok (vals, src)
read_group enc (suc k) [] vals = ok (vals, [])
read_group enc (suc k) (c ∷ src) vals = elim (decode_char enc c) [
  | none ↦ err "encoding/base64: invalid byte"
  | some v ↦ read_group enc k src (vals ++ v ∷ [])
]

-- What a group of one to four values appends.
pub emit : List ℕ → List ℕ
emit (v0 ∷ v1 ∷ []) = u8 (bit_or (v0 * 2 ^ 2) (v1 / 2 ^ 4)) ∷ []
emit (v0 ∷ v1 ∷ v2 ∷ []) =
    u8 (bit_or (v0 * 2 ^ 2) (v1 / 2 ^ 4)) ∷ u8 (bit_or (bit_and v1 15 * 2 ^ 4) (v2 / 2 ^ 2)) ∷ []
emit (v0 ∷ v1 ∷ v2 ∷ v3 ∷ []) =
    u8 (bit_or (v0 * 2 ^ 2) (v1 / 2 ^ 4))
    ∷ u8 (bit_or (bit_and v1 15 * 2 ^ 4) (v2 / 2 ^ 2))
    ∷ u8 (bit_or (bit_and v2 3 * 2 ^ 6) v3)
    ∷ []
emit vals = []

-- The outer loop on fuel; each round takes a character, so the length of the text is enough.
pub decode_loop : Encoding → ℕ → List ℕ → List ℕ → Outcome (List ℕ)
decode_loop enc fuel [] out = ok out
decode_loop enc zero (c ∷ src) out = panic
decode_loop enc (suc fuel) (c ∷ src) out = do
  (vals, rest) ← read_group enc 4 (c ∷ src) []
  decode_loop enc fuel rest (out ++ emit vals)

pub decode_string : Encoding → List ℕ → Outcome (List ℕ)
decode_string enc s = let n = strip s (length s) in decode_loop enc n (take n s) []
