-- ===== src/Encoding/Hex.antt =====
-- stdlib/encoding/hex/hex.go. A string is the list of its bytes; a destination slice is passed in,
-- and comes back as the call leaves it.
pub mod Encode
pub mod Decode
pub mod Digits
use wasigoc.Common.{
  ℕ, zero, suc, ◌+◌, ◌-◌, ◌*◌, ◌/◌, ◌%◌, ◌^◌, List, [], ◌∷◌, Bool, Option, none, some,
}
use wasigoc.Common.{
  String, bit_and, bit_or, leb, ◌==◌, ◌&&◌, if◌then◌else◌, length, take, replicate, codes,
}
use wasigoc.Common.Bits.{u8}
use wasigoc.Common.Outcome.{Outcome, ok, err, panic, ◌>>=◌}
use wasigoc.Common.Slices.{load, store}

abbrev pub digits : List ℕ
digits = codes "0123456789abcdef"

pub encoded_len : ℕ → ℕ
encoded_len n = n * 2

-- The loop of `Encode`, from `i` on: the list is what is left of `src`.
pub encode_loop : List ℕ → ℕ → List ℕ → Outcome (List ℕ)
encode_loop [] i dst = ok dst
encode_loop (v ∷ src) i dst = do
  hi ← load digits (v / 2 ^ 4)
  dst ← store dst (i * 2) hi
  lo ← load digits (bit_and v 15)
  dst ← store dst (i * 2 + 1) lo
  encode_loop src (i + 1) dst

pub encode : List ℕ → List ℕ → Outcome (List ℕ × ℕ)
encode dst src = do dst ← encode_loop src 0 dst; ok (dst, length src * 2)

pub encode_to_string : List ℕ → Outcome (List ℕ)
encode_to_string src = do (dst, n) ← encode (replicate (length src * 2) 0) src; ok dst

-- `none` is the pair (0, false).
pub decode_nibble : ℕ → Option ℕ
decode_nibble c =
    if leb 48 c && leb c 57
    then some (c - 48)
    else if leb 97 c && leb c 102
    then some (c - 97 + 10)
    else if leb 65 c && leb c 70
    then some (c - 65 + 10)
    else none

pub decoded_len : ℕ → ℕ
decoded_len n = n / 2

-- What `Decode` leaves and returns: the slice, the count and the text of the error.
pub record Decoded : Type 0 where
  pub dst : List ℕ
  pub count : ℕ
  pub failure : Option String

abbrev invalid : List ℕ → ℕ → Outcome Decoded
invalid dst i = ok (record { dst = dst; count = i; failure = some "encoding/hex: invalid byte" })

-- One round of the loop of `Decode` hands its two nibbles on; `rest` is the rounds behind it.
abbrev decode_pair : Option ℕ → Option ℕ → List ℕ → ℕ → (List ℕ → Outcome Decoded) → Outcome Decoded
decode_pair (some hi) (some lo) dst i rest = store dst i (bit_or (u8 (hi * 2 ^ 4)) lo) >>= rest
decode_pair (some hi) none dst i rest = invalid dst i
decode_pair none lo dst i rest = invalid dst i

-- The loop of `Decode` with `n` rounds left, from `i` on.
pub decode_loop : ℕ → List ℕ → ℕ → List ℕ → Outcome Decoded
decode_loop zero src i dst = ok (record { dst = dst; count = length src / 2; failure = none })
decode_loop (suc n) src i dst = do
  c1 ← load src (i * 2)
  c2 ← load src (i * 2 + 1)
  decode_pair (decode_nibble c1) (decode_nibble c2) dst i (λ dst'. decode_loop n src (i + 1) dst')

pub decode : List ℕ → List ℕ → Outcome Decoded
decode dst src =
    if length src % 2 == 0
    then decode_loop (length src / 2) src 0 dst
    else ok (record { dst = dst; count = 0; failure = some "encoding/hex: odd length hex string" })

finish : Decoded → Option String → Outcome (List ℕ)
finish d (some e) = err e
finish d none = ok (take d.count d.dst)

pub decode_string : List ℕ → Outcome (List ℕ)
unfolding finish
decode_string src = do d ← decode (replicate (length src / 2) 0) src; finish d d.failure
