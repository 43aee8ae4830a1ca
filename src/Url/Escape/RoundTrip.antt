-- ===== src/Url/Escape/RoundTrip.antt =====
-- Unescaping undoes escaping, and what escaped text consists of.
use mathlib.Core.List.{append_assoc, append-nil}
use wasigoc.Common.{
  ℕ, ◌<◌, ◌≡◌, refl, sym, ap, ◌∙◌, arith, List, [], ◌∷◌, ◌++◌, Bool, true, false, none, some,
}
use wasigoc.Common.{
  ◌==◌, ◌&&◌, ◌||◌, if◌then◌else◌, All, All-append, Bool-cases, Option-cases, inl, inr, ◌/◌, ◌^◌,
  get_or, bit_and,
}
use wasigoc.Common.Outcome.{ok}
use wasigoc.Common.Bits.{IsByte}
use wasigoc.Common.Tables.{agree_below, agree_below→eq}
use wasigoc.Url.Escape.{
  is_unreserved, hex_digits, percent, query_byte, query_escape_loop, query_escape, path_byte,
  path_escape_loop, path_escape, hex_val, join_digits, unescape_loop, query_unescape, path_unescape,
}

-- The number that two characters of an escape stand for, and 256 if they stand for none.
pair_value : ℕ → ℕ → ℕ
pair_value h l = elim (join_digits (hex_val h) (hex_val l)) [ none ↦ 256 | some b ↦ b ]

pair_value-some :
    (h l b : ℕ) → b < 256 → pair_value h l ≡ b → join_digits (hex_val h) (hex_val l) ≡ some b
unfolding pair_value
pair_value-some h l b lt e = elim (Option-cases (join_digits (hex_val h) (hex_val l))) [
  | inl n ↦ absurd (omega (arith, rw (n, pair_value) at e))
  | inr (v, s) ↦ s ∙ ap some (rw (s, pair_value) at e)
]

abbrev high_digit : ℕ → ℕ
high_digit c = get_or hex_digits (c / 2 ^ 4) 0

abbrev low_digit : ℕ → ℕ
low_digit c = get_or hex_digits (bit_and c 15) 0

-- The digits of a byte are read as the byte.
percent_digits :
    (c : ℕ) → IsByte c → join_digits (hex_val (high_digit c)) (hex_val (low_digit c)) ≡ some c
unfolding pair_value join_digits hex_val agree_below
percent_digits c h =
    pair_value-some (high_digit c) (low_digit c) c h
      (agree_below→eq (λ k. pair_value (high_digit k) (low_digit k)) (λ k. k) 256 refl c h)

-- An escaped byte is read back, whatever follows.
unescape_percent :
    (plus : Bool) (out : List ℕ) (c : ℕ) (rest : List ℕ)
    → IsByte c
    → unescape_loop plus out (percent c ++ rest) ≡ unescape_loop plus (out ++ c ∷ []) rest
unfolding unescape_loop percent
unescape_percent false out c rest h = rw (percent_digits c h, unescape_loop) refl
unescape_percent true out c rest h = rw (percent_digits c h, unescape_loop) refl

-- A byte that stands for itself, whatever follows.
unescape_plain :
    (plus : Bool) (out : List ℕ) (c : ℕ) (rest : List ℕ)
    → (plus && c == 43) ≡ false
    → (c == 37) ≡ false
    → unescape_loop plus out (c ∷ rest) ≡ unescape_loop plus (out ++ c ∷ []) rest
unfolding unescape_loop
unescape_plain plus out c [] p e = rw (p, e) refl
unescape_plain plus out c (x ∷ []) p e = rw (p, e, unescape_loop) refl
unescape_plain plus out c (x ∷ y ∷ rest) p e = rw (p, e, unescape_loop) refl

unescape_plus :
    (out rest : List ℕ)
    → unescape_loop true out (43 ∷ rest) ≡ unescape_loop true (out ++ 32 ∷ []) rest
unfolding unescape_loop
unescape_plus out [] = refl
unescape_plus out (x ∷ []) = refl
unescape_plus out (x ∷ y ∷ rest) = refl

unreserved_plain : (c : ℕ) → is_unreserved c ≡ true → ((c == 37) ≡ false) × ((c == 43) ≡ false)
unfolding is_unreserved
unreserved_plain c e = ground (arith, e)

unescape-query_byte :
    (out : List ℕ) (c : ℕ) (rest : List ℕ)
    → IsByte c
    → unescape_loop true out (query_byte c ++ rest) ≡ unescape_loop true (out ++ c ∷ []) rest
unfolding query_byte
unescape-query_byte out c rest h = elim (Bool-cases (is_unreserved c)) [
  | inl u ↦ let (a, b) = unreserved_plain c u in rw u (unescape_plain true out c rest b a)
  | inr r ↦ elim (Bool-cases (c == 32)) [
    | inl e ↦
        let q : 32 ≡ c = ground (arith, e) in
        rw (r, e) (unescape_plus out rest ∙ ap (λ k. unescape_loop true (out ++ k ∷ []) rest) q)
    | inr e ↦ rw (r, e) (unescape_percent true out c rest h)
  ]
]

unescape-path_byte :
    (out : List ℕ) (c : ℕ) (rest : List ℕ)
    → IsByte c
    → unescape_loop false out (path_byte c ++ rest) ≡ unescape_loop false (out ++ c ∷ []) rest
unfolding path_byte
unescape-path_byte out c rest h = elim (Bool-cases (is_unreserved c || c == 47)) [
  | inl u ↦ rw u (unescape_plain false out c rest refl (plain_or_slash c u))
  | inr r ↦ rw r (unescape_percent false out c rest h)
]
  where
    plain_or_slash : (c : ℕ) → (is_unreserved c || c == 47) ≡ true → (c == 37) ≡ false
    plain_or_slash c u = ground (arith, u, unreserved_plain c)

-- The text that escapes byte by byte.
escaped : (ℕ → List ℕ) → List ℕ → List ℕ
escaped byte [] = []
escaped byte (c ∷ s) = byte c ++ escaped byte s

query_escape_loop-escaped : (out s : List ℕ) → query_escape_loop out s ≡ out ++ escaped query_byte s
unfolding query_escape_loop escaped
query_escape_loop-escaped out [] = sym (append-nil out)
query_escape_loop-escaped out (c ∷ s) =
    query_escape_loop-escaped (out ++ query_byte c) s
    ∙ append_assoc out (query_byte c) (escaped query_byte s)

path_escape_loop-escaped : (out s : List ℕ) → path_escape_loop out s ≡ out ++ escaped path_byte s
unfolding path_escape_loop escaped
path_escape_loop-escaped out [] = sym (append-nil out)
path_escape_loop-escaped out (c ∷ s) =
    path_escape_loop-escaped (out ++ path_byte c) s
    ∙ append_assoc out (path_byte c) (escaped path_byte s)

-- Byte by byte, the text comes back.
unescape-escaped :
    (plus : Bool) (byte : ℕ → List ℕ)
    → ((out : List ℕ) (c : ℕ) (rest : List ℕ)
        → IsByte c
        → unescape_loop plus out (byte c ++ rest) ≡ unescape_loop plus (out ++ c ∷ []) rest)
    → (out s : List ℕ) → All IsByte s
    → unescape_loop plus out (escaped byte s) ≡ ok (out ++ s)
unfolding escaped
unescape-escaped plus byte one out [] h = unfold unescape_loop in ap ok (sym (append-nil out))
unescape-escaped plus byte one out (c ∷ s) h =
    one out c (escaped byte s) (h.0)
    ∙ unescape-escaped plus byte one (out ++ c ∷ []) s (h.1)
    ∙ ap ok (append_assoc out (c ∷ []) s)

-- Unescaping undoes escaping, for queries and for paths: on every text of bytes it returns the text.
pub unescape-escape :
    (s : List ℕ)
    → All IsByte s
    → (query_unescape (query_escape s) ≡ ok s) × (path_unescape (path_escape s) ≡ ok s)
unfolding query_unescape query_escape path_unescape path_escape
unescape-escape s h = (
  ap (unescape_loop true []) (query_escape_loop-escaped [] s)
      ∙ unescape-escaped true query_byte unescape-query_byte [] s h,
  ap (unescape_loop false []) (path_escape_loop-escaped [] s)
      ∙ unescape-escaped false path_byte unescape-path_byte [] s h,
)

-- The characters of an escaped query: unreserved ones, `+` and `%`.
abbrev pub IsQueryChar : ℕ → Type 0
IsQueryChar c = (is_unreserved c || c == 43 || c == 37) ≡ true

safe_digits :
    (c : ℕ)
    → IsByte c
    → (is_unreserved (high_digit c) ≡ true) × (is_unreserved (low_digit c) ≡ true)
unfolding is_unreserved agree_below
safe_digits c h = (
  from_one (agree_below→eq (λ k. one (is_unreserved (high_digit k))) (λ k. 1) 256 refl c h),
  from_one (agree_below→eq (λ k. one (is_unreserved (low_digit k))) (λ k. 1) 256 refl c h),
)
  where
    one : Bool → ℕ
    one b = if b then 1 else 0

    from_one : {b : Bool} → one b ≡ 1 → b ≡ true
    from_one e = ground (arith, e)

plus_or_percent : IsQueryChar 43 × IsQueryChar 37
unfolding is_unreserved
plus_or_percent = (refl, refl)

query_byte-IsQueryChar : (c : ℕ) → IsByte c → All IsQueryChar (query_byte c)
unfolding query_byte percent
query_byte-IsQueryChar c h = elim (Bool-cases (is_unreserved c)) [
  | inl u ↦ rw u (rw u refl, tt)
  | inr r ↦ elim (Bool-cases (c == 32)) [
    | inl e ↦ rw (r, e) (plus_or_percent.0, tt)
    | inr e ↦
        let (a, b) = safe_digits c h in rw (r, e) (plus_or_percent.1, (rw a refl, (rw b refl, tt)))
  ]
]

escaped-IsQueryChar : (s : List ℕ) → All IsByte s → All IsQueryChar (escaped query_byte s)
unfolding escaped
escaped-IsQueryChar [] h = tt
escaped-IsQueryChar (c ∷ s) h =
    All-append IsQueryChar (query_byte c) (escaped query_byte s) (query_byte-IsQueryChar c (h.0))
      (escaped-IsQueryChar s (h.1))

-- QueryEscape writes nothing but unreserved characters, `+` and `%`.
pub query_escape-IsQueryChar : (s : List ℕ) → All IsByte s → All IsQueryChar (query_escape s)
unfolding query_escape
query_escape-IsQueryChar s h = rw (query_escape_loop-escaped [] s) (escaped-IsQueryChar s h)
