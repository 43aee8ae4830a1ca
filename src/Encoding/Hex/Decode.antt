-- ===== src/Encoding/Hex/Decode.antt =====
-- `DecodeString` against a parser by recursion, on every input, and the round trip.
use mathlib.Core.List.{append_assoc}
use wasigoc.Common.{
  ℕ, zero, suc, ◌+◌, ◌*◌, ◌/◌, ◌%◌, ◌≡◌, refl, ap, ◌∙◌, arith, List, [], ◌∷◌, ◌++◌,
}
use wasigoc.Common.{
  All, inl, inr, Option, some, none, Option-cases, length, length-append, length-replicate,
  replicate, true, ◌==◌, take_of_length-le,
}
use wasigoc.Common.Bits.{IsByte}
use wasigoc.Common.Outcome.{ok, err}
use wasigoc.Common.Slices.{load_at, load_next, store_at}
use wasigoc.Encoding.Hex.{
  encode_to_string, decode_nibble, Decoded, decode_pair, decode_loop, decode, decode_string,
}
use wasigoc.Encoding.Hex.Encode.{
  text, length-text, parse, combine, encode_to_string-text, decode_nibble-lt, join_nibbles,
  parse-text,
}

abbrev invalid_byte : List ℕ → ℕ → Decoded
invalid_byte dst i = record { dst = dst; count = i; failure = some "encoding/hex: invalid byte" }

decode_step :
    (n i : ℕ) (pre s dst : List ℕ) (c1 c2 : ℕ)
    → i * 2 ≡ length pre
    → decode_loop (suc n) (pre ++ c1 ∷ c2 ∷ s) i dst
      ≡ decode_pair
          (decode_nibble c1)
          (decode_nibble c2)
          dst
          i
          (λ d. decode_loop n (pre ++ c1 ∷ c2 ∷ s) (i + 1) d)
unfolding decode_loop
decode_step n i pre s dst c1 c2 e =
    rw (load_at (i * 2) pre c1 (c2 ∷ s) e, load_next (i * 2 + 1) pre c1 c2 s (omega arith))

pub parse-some_pair :
    (c1 c2 : ℕ) (s out : List ℕ)
    → parse (c1 ∷ c2 ∷ s) ≡ some out
    → (hi lo : ℕ) × (rest : List ℕ) × (decode_nibble c1 ≡ some hi)
      × (decode_nibble c2 ≡ some lo)
      × (parse s ≡ some rest)
      × (out ≡ (hi * 16 + lo) ∷ rest)
unfolding parse
parse-some_pair c1 c2 s out e = go (decode_nibble c1) (decode_nibble c2) (parse s) refl refl refl e
  where
    go :
        (x y : Option ℕ) (z : Option (List ℕ))
        → decode_nibble c1 ≡ x
        → decode_nibble c2 ≡ y
        → parse s ≡ z
        → combine x y z ≡ some out
        → (hi lo : ℕ) × (rest : List ℕ) × (decode_nibble c1 ≡ some hi)
          × (decode_nibble c2 ≡ some lo)
          × (parse s ≡ some rest)
          × (out ≡ (hi * 16 + lo) ∷ rest)
    go (some hi) (some lo) (some rest) p q r f = (hi, lo, rest, p, q, r, cc)
    go (some hi) (some lo) none p q r f = cc
    go (some hi) none z p q r f = cc
    go none y z p q r f = cc

-- The loop reads what `parse` reads.
decode_loop-some :
    (n i : ℕ) (pre rest dpre dpost out : List ℕ)
    → i * 2 ≡ length pre
    → i ≡ length dpre
    → length rest ≡ n * 2
    → length dpost ≡ n
    → parse rest ≡ some out
    → decode_loop n (pre ++ rest) i (dpre ++ dpost)
      ≡ ok (record { dst = dpre ++ out; count = length (pre ++ rest) / 2; failure = none })
unfolding parse decode_loop
decode_loop-some zero i pre [] dpre [] out e f h k p = let same : [] ≡ out = cc in rw (← same)
decode_loop-some zero i pre (c ∷ rest) dpre dpost out e f h k p = absurd (omega arith)
decode_loop-some zero i pre [] dpre (d ∷ dpost) out e f h k p = absurd (omega arith)
decode_loop-some (suc n) i pre (c1 ∷ c2 ∷ s) dpre (d ∷ dpost) out e f h k p =
    let (hi, lo, more, p1, p2, p3, shape) = parse-some_pair c1 c2 s out p in
    let v = hi * 16 + lo in
    let ih =
      decode_loop-some n (i + 1) (pre ++ c1 ∷ c2 ∷ []) s (dpre ++ v ∷ []) dpost more
        (omega (arith, e, length-append pre (c1 ∷ c2 ∷ [])))
        (omega (arith, f, length-append dpre (v ∷ []))) (omega (arith, h)) (omega (arith, k)) p3 in
    decode_step n i pre s (dpre ++ d ∷ dpost) c1 c2 e
    ∙ rw
        (
          p1,
          p2,
          join_nibbles hi lo (decode_nibble-lt c1 hi p1) (decode_nibble-lt c2 lo p2),
          store_at i dpre d v dpost f,
          shape,
        )
        (rw
          (
            append_assoc pre (c1 ∷ c2 ∷ []) s,
            append_assoc dpre (v ∷ []) dpost,
            append_assoc dpre (v ∷ []) more,
          )
          at ih)
decode_loop-some (suc n) i pre (c1 ∷ c2 ∷ s) dpre [] out e f h k p = absurd (omega arith)
decode_loop-some (suc n) i pre [] dpre dpost out e f h k p = absurd (omega arith)
decode_loop-some (suc n) i pre (c ∷ []) dpre dpost out e f h k p = absurd (omega arith)

combine-none : (hi lo : ℕ) (o : Option (List ℕ)) → combine (some hi) (some lo) o ≡ none → o ≡ none
combine-none hi lo (some out) p = cc
combine-none hi lo none p = refl

-- Where `parse` refuses, the loop stops with the error.
decode_loop-none :
    (n i : ℕ) (pre rest dpre dpost : List ℕ)
    → i * 2 ≡ length pre
    → i ≡ length dpre
    → length rest ≡ n * 2
    → length dpost ≡ n
    → parse rest ≡ none
    → (dst : List ℕ) × (j : ℕ) × (decode_loop n (pre ++ rest) i (dpre ++ dpost)
        ≡ ok (invalid_byte dst j))
unfolding parse
decode_loop-none zero i pre [] dpre dpost e f h k p = cc
decode_loop-none zero i pre (c ∷ rest) dpre dpost e f h k p = absurd (omega arith)
decode_loop-none (suc n) i pre [] dpre dpost e f h k p = absurd (omega arith)
decode_loop-none (suc n) i pre (c ∷ []) dpre dpost e f h k p = absurd (omega arith)
decode_loop-none (suc n) i pre (c1 ∷ c2 ∷ s) dpre [] e f h k p = absurd (omega arith)
decode_loop-none (suc n) i pre (c1 ∷ c2 ∷ s) dpre (d ∷ dpost) e f h k p =
    elim (Option-cases (decode_nibble c1)) [
      | inl q1 ↦ (dpre ++ d ∷ dpost, i, decode_step n i pre s (dpre ++ d ∷ dpost) c1 c2 e ∙ rw q1)
      | inr (hi, q1) ↦ elim (Option-cases (decode_nibble c2)) [
        | inl q2 ↦
            (dpre ++ d ∷ dpost, i, decode_step n i pre s (dpre ++ d ∷ dpost) c1 c2 e ∙ rw (q1, q2))
        | inr (lo, q2) ↦
            let v = hi * 16 + lo in
            let q3 : parse s ≡ none = combine-none hi lo (parse s) (rw (q1, q2) at p) in
            let (dst, j, ih) =
              decode_loop-none n (i + 1) (pre ++ c1 ∷ c2 ∷ []) s (dpre ++ v ∷ []) dpost
                (omega (arith, e, length-append pre (c1 ∷ c2 ∷ [])))
                (omega (arith, f, length-append dpre (v ∷ []))) (omega (arith, h))
                (omega (arith, k)) q3 in
            (
              dst,
              j,
              decode_step n i pre s (dpre ++ d ∷ dpost) c1 c2 e
                  ∙ rw
                      (
                        q1,
                        q2,
                        join_nibbles hi lo (decode_nibble-lt c1 hi q1) (decode_nibble-lt c2 lo q2),
                        store_at i dpre d v dpost f,
                      )
                      (rw (append_assoc pre (c1 ∷ c2 ∷ []) s, append_assoc dpre (v ∷ []) dpost) at
                        ih),
            )
      ]
    ]

length-parse : (s out : List ℕ) → parse s ≡ some out → length s ≡ length out * 2
unfolding parse
length-parse [] out p = let same : [] ≡ out = cc in rw (← same) refl
length-parse (c ∷ []) out p = cc
length-parse (c1 ∷ c2 ∷ s) out p =
    let (hi, lo, more, p1, p2, p3, shape) = parse-some_pair c1 c2 s out p in
    rw shape (omega (arith, length-parse s more p3))

-- `DecodeString` returns what `parse` reads, and tells an odd length from other failures.
pub decode_string-parse :
    (s : List ℕ)
    → ((length s % 2 ≡ 1) → decode_string s ≡ err "encoding/hex: odd length hex string")
      × ((length s % 2 ≡ 0) → parse s ≡ none → decode_string s ≡ err "encoding/hex: invalid byte")
      × ((out : List ℕ) → parse s ≡ some out → decode_string s ≡ ok out)
unfolding decode_string decode
decode_string-parse s = (
  λ odd. ground arith,
  λ even refused.
      let (dst, j, e) =
        decode_loop-none n 0 [] s [] zeros refl refl (omega arith) (length-replicate n 0) refused in
      let test : (length s % 2 == 0) ≡ true = ground arith in rw (test, e),
  λ out p.
      let size = length-parse s out p in
      let e =
        decode_loop-some n 0 [] s [] zeros out refl refl (omega (arith, size))
          (length-replicate n 0) p in
      let test : (length s % 2 == 0) ≡ true = ground (arith, size) in
      rw (test, e) (ap ok (take_of_length-le n out (omega (arith, size)))),
)
  where
    n : ℕ
    n = length s / 2

    zeros : List ℕ
    zeros = replicate n 0

-- `DecodeString` gives every list of bytes back from what `EncodeToString` made of it, which is a
-- text of twice its length.
pub decode_string-encode_to_string :
    (src : List ℕ)
    → All IsByte src
    → (s : List ℕ) × (encode_to_string src ≡ ok s)
      × (length s ≡ length src * 2)
      × (decode_string s ≡ ok src)
decode_string-encode_to_string src b = (
  text src,
  encode_to_string-text src b,
  length-text src,
  (decode_string-parse (text src)).2 src (parse-text src b),
)
