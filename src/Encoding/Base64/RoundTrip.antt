-- ===== src/Encoding/Base64/RoundTrip.antt =====
-- `DecodeString` after `EncodeToString`, for both alphabets.
use mathlib.Core.List.{append_assoc, append-nil}
use wasigoc.Common.{
  ℕ, zero, suc, ◌+◌, ◌*◌, ◌/◌, ◌%◌, ◌≤◌, ◌<◌, ◌≡◌, ◌≢◌, refl, ap, ◌∙◌, arith, dec_lt,
}
use wasigoc.Common.{List, [], ◌∷◌, ◌++◌, map, some}
use wasigoc.Common.{
  length, All, length-append, length-map, length-replicate, replicate, take, get_elem?,
}
use wasigoc.Common.{take-length_append, length-take, ◌⊎◌, inl, inr, Option-cases}
use wasigoc.Common.Bits.{IsByte, bit_and_mask, bit_or_fields}
use wasigoc.Common.Outcome.{ok, err}
use wasigoc.Common.Slices.{get_elem?-append_left}
use wasigoc.Encoding.Base64.{
  Encoding, encode_to_string, decode_char, strip, read_group, emit, decode_loop, decode_string,
}
use wasigoc.Encoding.Base64.Text.{char, IsAlphabet, sextets, sextets-lt, padding, encode_loop-text}

-- The padding is dropped, and nothing else.
strip_prefix : (p q : List ℕ) (n : ℕ) → n ≤ length p → strip (p ++ q) n ≡ strip p n
unfolding strip
strip_prefix p q zero h = refl
strip_prefix p q (suc n) h =
    ground (arith, get_elem?-append_left p q n h, strip_prefix p q n (omega arith))

get_elem?-All :
    (P : ℕ → Type 0) (p : List ℕ) (n : ℕ)
    → n < length p
    → All P p
    → (c : ℕ) × (get_elem? p n ≡ some c) × P c
get_elem?-All P [] n h a = absurd (omega arith)
get_elem?-All P (x ∷ p) zero h a = (x, refl, a.0)
get_elem?-All P (x ∷ p) (suc n) h a = get_elem?-All P p n (omega arith) a.1

strip-All : (p : List ℕ) (n : ℕ) → n ≤ length p → All (λ c. c ≢ 61) p → strip p n ≡ n
unfolding strip
strip-All p zero h a = refl
strip-All p (suc n) h a =
    let (c, at, other) = get_elem?-All (λ c. c ≢ 61) p n h a in ground (arith, at, other)

replicate_at : (m k : ℕ) → k < m → get_elem? (replicate {A = ℕ} m 61) k ≡ some 61
replicate_at zero k h = absurd (omega arith)
replicate_at (suc m) zero h = refl
replicate_at (suc m) (suc k) h = replicate_at m k (omega arith)

padding_at :
    (body : List ℕ) (m n : ℕ)
    → length body ≤ n
    → n < length body + m
    → get_elem? (body ++ replicate m 61) n ≡ some 61
padding_at [] m n h k = replicate_at m n (omega arith)
padding_at (x ∷ body) m zero h k = absurd (omega arith)
padding_at (x ∷ body) m (suc n) h k = padding_at body m n (omega arith) (omega arith)

strip-padding :
    (body : List ℕ) (m n : ℕ)
    → length body ≤ n
    → n ≤ length body + m
    → All (λ c. c ≢ 61) body
    → strip (body ++ replicate m 61) n ≡ length body
unfolding strip
strip-padding body m zero h k a = omega arith
strip-padding body m (suc n) h k a = elim (dec_lt n (length body)) [
  | yes inside ↦
      let last : suc n ≡ length body = omega arith in
      strip_prefix body (replicate m 61) (suc n) inside ∙ strip-All body (suc n) inside a ∙ last
  | no outside ↦
      let at = padding_at body m n (omega arith) k in
      let ih = strip-padding body m n (omega arith) (omega arith) a in ground (arith, at, ih)
]

length-sextets : (src : List ℕ) → length src ≤ length (sextets src)
length-sextets (x ∷ y ∷ z ∷ src) = omega (arith, length-sextets src)
length-sextets (x ∷ y ∷ []) = omega arith
length-sextets (x ∷ []) = omega arith
length-sextets [] = omega arith

-- The bytes come back from their values.
emit_three :
    (a b c : ℕ)
    → a < 256
    → b < 256
    → c < 256
    → emit (a / 4 ∷ (a % 4 * 16 + b / 16) ∷ (b % 16 * 4 + c / 64) ∷ c % 64 ∷ []) ≡ a ∷ b ∷ c ∷ []
unfolding emit
emit_three a b c ha hb hc = ground (
  arith,
  bit_or_fields 2 (a / 4) (a % 4),
  bit_and_mask 4 (a % 4 * 16 + b / 16),
  bit_or_fields 4 (b / 16) (b % 16),
  bit_and_mask 2 (b % 16 * 4 + c / 64),
  bit_or_fields 6 (c / 64) (c % 64),
)

emit_two :
    (a b : ℕ)
    → a < 256
    → b < 256
    → emit (a / 4 ∷ (a % 4 * 16 + b / 16) ∷ b % 16 * 4 ∷ []) ≡ a ∷ b ∷ []
unfolding emit
emit_two a b ha hb = ground (
  arith,
  bit_or_fields 2 (a / 4) (a % 4),
  bit_and_mask 4 (a % 4 * 16 + b / 16),
  bit_or_fields 4 (b / 16) (b % 16),
)

emit_one : (a : ℕ) → a < 256 → emit (a / 4 ∷ a % 4 * 16 ∷ []) ≡ a ∷ []
unfolding emit
emit_one a ha = ground (arith, bit_or_fields 2 (a / 4) (a % 4))

module _ (enc : Encoding) (alphabet : IsAlphabet enc) where
  abbrev text : List ℕ → List ℕ
  text vals = map (char enc) vals

  text_no_padding : (vals : List ℕ) → All (λ v. v < 64) vals → All (λ c. c ≢ 61) (text vals)
  text_no_padding [] h = tt
  text_no_padding (v ∷ vals) h = (alphabet.no_padding v h.0, text_no_padding vals h.1)

  -- A round of the inner loop on the character of a value.
  read_group-char :
      (k v : ℕ) (src vals : List ℕ)
      → v < 64
      → read_group enc (suc k) (char enc v ∷ src) vals ≡ read_group enc k src (vals ++ v ∷ [])
  unfolding read_group
  read_group-char k v src vals h = ground (arith, alphabet.found v h)

  decode_four :
      (f a b c d : ℕ) (src out : List ℕ)
      → a < 64
      → b < 64
      → c < 64
      → d < 64
      → decode_loop enc (suc f) (text (a ∷ b ∷ c ∷ d ∷ []) ++ src) out
        ≡ decode_loop enc f src (out ++ emit (a ∷ b ∷ c ∷ d ∷ []))
  unfolding decode_loop read_group
  decode_four f a b c d src out ha hb hc hd =
      ground
        (arith, alphabet.found a ha, alphabet.found b hb, alphabet.found c hc, alphabet.found d hd)

  decode_three :
      (f a b c : ℕ) (out : List ℕ)
      → a < 64
      → b < 64
      → c < 64
      → decode_loop enc (suc f) (text (a ∷ b ∷ c ∷ [])) out ≡ ok (out ++ emit (a ∷ b ∷ c ∷ []))
  unfolding decode_loop read_group
  decode_three f a b c out ha hb hc =
      ground (arith, alphabet.found a ha, alphabet.found b hb, alphabet.found c hc)

  decode_two :
      (f a b : ℕ) (out : List ℕ)
      → a < 64
      → b < 64
      → decode_loop enc (suc f) (text (a ∷ b ∷ [])) out ≡ ok (out ++ emit (a ∷ b ∷ []))
  unfolding decode_loop read_group
  decode_two f a b out ha hb = ground (arith, alphabet.found a ha, alphabet.found b hb)

  decode_loop-text :
      (f : ℕ) (src out : List ℕ)
      → length src ≤ f
      → All IsByte src
      → decode_loop enc f (text (sextets src)) out ≡ ok (out ++ src)
  unfolding decode_loop
  decode_loop-text zero [] out h b = rw append-nil
  decode_loop-text zero (x ∷ src) out h b = absurd (omega arith)
  decode_loop-text (suc f) (x ∷ y ∷ z ∷ src) out h (hx, (hy, (hz, b))) =
      decode_four f _ _ _ _ (text (sextets src)) out (omega arith) (omega arith) (omega arith)
        (omega arith)
      ∙ rw (emit_three x y z hx hy hz) (
          decode_loop-text f src (out ++ x ∷ y ∷ z ∷ []) (omega arith) b
          ∙ ap ok (append_assoc out (x ∷ y ∷ z ∷ []) src))
  decode_loop-text (suc f) (x ∷ y ∷ []) out h (hx, (hy, b)) =
      decode_three f _ _ _ out (omega arith) (omega arith) (omega arith) ∙ rw (emit_two x y hx hy)
  decode_loop-text (suc f) (x ∷ []) out h (hx, b) =
      decode_two f _ _ out (omega arith) (omega arith) ∙ rw (emit_one x hx)
  decode_loop-text (suc f) [] out h b = rw append-nil

  -- Over an alphabet of 64 characters, each found where it stands and none of them `=`, as both of
  -- the package are: `EncodeToString` never panics on bytes, and `DecodeString` gives the bytes back.
  pub base64_decode-encode :
      (src : List ℕ)
      → All IsByte src
      → (s : List ℕ) × (encode_to_string enc src ≡ ok s) × (decode_string enc s ≡ ok src)
  unfolding encode_to_string decode_string
  base64_decode-encode src b =
      let body = text (sextets src) in
      let full = body ++ replicate (padding src) 61 in
      let sized = length-append body (replicate (padding src) 61) in
      let cut : strip full (length full) ≡ length body =
        strip-padding body (padding src) (length full) (omega (arith, sized))
          (omega (arith, sized, length-replicate {A = ℕ} (padding src) 61))
          (text_no_padding (sextets src) (sextets-lt src b)) in
      (
        full,
        encode_loop-text enc alphabet [] src b,
        rw (cut, take-length_append body (replicate (padding src) 61))
            (decode_loop-text (length body) src []
              (omega (arith, length-map (char enc) (sextets src), length-sextets src)) b),
      )

-- A read of the inner loop ends normally or with the error, and leaves no more than it was given.
read_group_shrinks :
    (enc : Encoding) (k : ℕ) (src vals : List ℕ)
    → (read_group enc k src vals ≡ err "encoding/base64: invalid byte")
      ⊎ ((vals' rest : List ℕ) × (read_group enc k src vals ≡ ok (vals', rest))
          × (length rest ≤ length src))
unfolding read_group
read_group_shrinks enc zero src vals = inr (vals, src, refl, omega arith)
read_group_shrinks enc (suc k) [] vals = inr (vals, [], refl, omega arith)
read_group_shrinks enc (suc k) (c ∷ src) vals = elim (Option-cases (decode_char enc c)) [
  | inl e ↦ inl (rw (e, read_group))
  | inr (v, e) ↦ elim (read_group_shrinks enc k src (vals ++ v ∷ [])) [
    | inl f ↦ inl (rw (e, read_group) f)
    | inr (vals', rest, f, h) ↦ inr (vals', rest, rw (e, read_group) f, omega arith)
  ]
]

-- So the first character of a round is always taken.
round_shrinks :
    (enc : Encoding) (c : ℕ) (src : List ℕ)
    → (read_group enc 4 (c ∷ src) [] ≡ err "encoding/base64: invalid byte")
      ⊎ ((vals rest : List ℕ) × (read_group enc 4 (c ∷ src) [] ≡ ok (vals, rest))
          × (length rest ≤ length src))
unfolding read_group
round_shrinks enc c src = elim (Option-cases (decode_char enc c)) [
  | inl e ↦ inl (rw (e, read_group))
  | inr (v, e) ↦ rw (e, read_group) (read_group_shrinks enc 3 src (v ∷ []))
]

decode_loop_ends :
    (enc : Encoding) (f : ℕ) (src out : List ℕ)
    → length src ≤ f
    → (decode_loop enc f src out ≡ err "encoding/base64: invalid byte")
      ⊎ ((r : List ℕ) × (decode_loop enc f src out ≡ ok r))
unfolding decode_loop
decode_loop_ends enc f [] out h = inr (out, refl)
decode_loop_ends enc zero (c ∷ src) out h = absurd (omega arith)
decode_loop_ends enc (suc f) (c ∷ src) out h = elim (round_shrinks enc c src) [
  | inl e ↦ inl (rw e)
  | inr (vals, rest, e, l) ↦ rw e (decode_loop_ends enc f rest (out ++ emit vals) (omega arith))
]

-- On every text and over every alphabet `DecodeString` ends: with bytes or with its one error.
pub decode_string_ends :
    (enc : Encoding) (s : List ℕ)
    → (decode_string enc s ≡ err "encoding/base64: invalid byte")
      ⊎ ((r : List ℕ) × (decode_string enc s ≡ ok r))
unfolding decode_string
decode_string_ends enc s =
    let n = strip s (length s) in
    decode_loop_ends enc n (take n s) [] (omega (arith, length-take n s))
