-- ===== src/Encoding/Csv/Laws.antt =====
-- What the writer writes, the reader reads.
use mathlib.Core.List.{append_assoc}
use wasigoc.Common.{
  ℕ, zero, suc, ◌+◌, ◌≡◌, ◌≢◌, ◌<◌, refl, ◌∙◌, arith, Bool, true, false, ◌||◌, ◌==◌, List, [], ◌∷◌,
  ◌++◌, some,
}
use wasigoc.Common.{length, length-append, Bool-cases, inl, inr}
use wasigoc.Encoding.Csv.{
  parse_unquoted_field, quoted_loop, skip_spaces, field_at, parse_field, fields, line_end, is_comma,
  fields_loop, has_special, field_needs_quotes, quote_loop, written_field, new_line,
}

-- The byte ends a field that is not quoted.
abbrev pub stops : ℕ → ℕ → Bool
stops comma c = (c == comma) || (c == 10) || (c == 13)

quoted_loop-quote_loop :
    (s : List ℕ) (d : ℕ) (rest : List ℕ)
    → (d == 34) ≡ false
    → quoted_loop false (quote_loop s ++ d ∷ rest) ≡ (some s, d ∷ rest)
unfolding quoted_loop quote_loop
quoted_loop-quote_loop [] d rest h = rw h refl
quoted_loop-quote_loop (c ∷ s) d rest h =
    let more = quoted_loop-quote_loop s d rest h in
    elim (Bool-cases (c == 34)) [
      | inl quote ↦ let e : c ≡ 34 = ground (arith, quote) in rw (quote, more, e) refl
      | inr plain ↦ rw (plain, plain, more) refl
    ]

pub has_special-false :
    (comma c : ℕ) (s : List ℕ)
    → has_special comma (c ∷ s) ≡ false
    → (stops comma c ≡ false) × ((c == 34) ≡ false) × (has_special comma s ≡ false)
unfolding has_special
has_special-false comma c s h = ground (arith, h)

parse_unquoted_field-append :
    (comma : ℕ) (s : List ℕ) (d : ℕ) (rest : List ℕ)
    → has_special comma s ≡ false
    → stops comma d ≡ true
    → parse_unquoted_field comma (s ++ d ∷ rest) ≡ (s, d ∷ rest)
unfolding parse_unquoted_field
parse_unquoted_field-append comma [] d rest h e = rw e refl
parse_unquoted_field-append comma (c ∷ s) d rest h e =
    let (go, x, more) = has_special-false comma c s h in
    rw (go, parse_unquoted_field-append comma s d rest more e) refl

has_special-empty : (comma : ℕ) → has_special comma [] ≡ false
unfolding has_special
has_special-empty comma = refl

pub empty-plain : (comma : ℕ) → field_needs_quotes comma [] ≡ false
unfolding field_needs_quotes
empty-plain comma = refl

-- A byte that can separate fields.
abbrev pub IsDelimiter : ℕ → Type 0
IsDelimiter comma = (comma ≢ 34) × (comma ≢ 10) × (comma ≢ 13) × (comma ≢ 32)

module _ (comma : ℕ) (trim : Bool) (delimiter : IsDelimiter comma) where
  parse_field-at :
      (c : ℕ) (rest : List ℕ)
      → (c == 32) ≡ false
      → parse_field comma trim (c ∷ rest) ≡ field_at comma (c ∷ rest)
  unfolding parse_field skip_spaces
  parse_field-at c rest h = elim (Bool-cases trim) [
    | inl on ↦ rw (on, h) refl
    | inr off ↦ rw off refl
  ]

  stops-not : (d : ℕ) → stops comma d ≡ true → ((d == 32) ≡ false) × ((d == 34) ≡ false)
  stops-not d h = let (a, b, c, e) = delimiter in ground (arith, h, a, b, c, e)

  field_at-append :
      (s : List ℕ) (d : ℕ) (rest : List ℕ)
      → has_special comma s ≡ false
      → stops comma d ≡ true
      → field_at comma (s ++ d ∷ rest) ≡ (some s, d ∷ rest)
  unfolding field_at
  field_at-append [] d rest plain h =
      let (space, quote) = stops-not d h in
      rw (quote, parse_unquoted_field-append comma [] d rest plain h) refl
  field_at-append (c ∷ s) d rest plain h =
      let (go, quote, more) = has_special-false comma c s plain in
      rw (quote, parse_unquoted_field-append comma (c ∷ s) d rest plain h) refl

  pub no_quotes :
      (c : ℕ) (s : List ℕ)
      → field_needs_quotes comma (c ∷ s) ≡ false
      → ((c == 32) ≡ false) × (has_special comma (c ∷ s) ≡ false)
  unfolding field_needs_quotes
  no_quotes c s h = ground (arith, h)

  parse_field-written_field :
      (s : List ℕ) (d : ℕ) (rest : List ℕ)
      → stops comma d ≡ true
      → parse_field comma trim (written_field comma s ++ d ∷ rest) ≡ (some s, d ∷ rest)
  unfolding written_field field_at
  parse_field-written_field [] d rest h =
      let (space, quote) = stops-not d h in
      rw (empty-plain comma)
        (parse_field-at d rest space ∙ field_at-append [] d rest (has_special-empty comma) h)
  parse_field-written_field (c ∷ s) d rest h =
      let (space, quote) = stops-not d h in
      elim (Bool-cases (field_needs_quotes comma (c ∷ s))) [
        | inl needs ↦ rw needs (
            parse_field-at 34 (quote_loop (c ∷ s) ++ d ∷ rest) refl
            ∙ quoted_loop-quote_loop (c ∷ s) d rest quote)
        | inr plain ↦
            let (no_space, free) = no_quotes c s plain in
            rw plain
              (parse_field-at c (s ++ d ∷ rest) no_space ∙ field_at-append (c ∷ s) d rest free h)
      ]

-- What the writer writes behind the first field of a record, before `more`.
abbrev pub tail_text : ℕ → Bool → List ℕ → List (List ℕ) → List ℕ
tail_text comma crlf more [] = new_line crlf ++ more
tail_text comma crlf more (s ∷ fs) = comma ∷ (written_field comma s ++ tail_text comma crlf more fs)

-- The text of a record, and that of records.
abbrev pub record_text : ℕ → Bool → List (List ℕ) → List ℕ → List ℕ
record_text comma crlf [] more = new_line crlf ++ more
record_text comma crlf (s ∷ fs) more = written_field comma s ++ tail_text comma crlf more fs

abbrev pub text : ℕ → Bool → List (List (List ℕ)) → List ℕ
text comma crlf [] = []
text comma crlf (r ∷ records) = record_text comma crlf r (text comma crlf records)

module _ (comma : ℕ) (trim crlf : Bool) (delimiter : IsDelimiter comma) where
  is_comma-true : (c : ℕ) (rest : List ℕ) → c ≡ comma → is_comma comma (c ∷ rest) ≡ true
  is_comma-true c rest e = ground (arith, e)

  -- The last field of a record.
  line_end-new_line :
      (out : List (List ℕ)) (fs : List (List ℕ)) (more : List ℕ)
      → line_end out (new_line crlf ++ more) ≡ (fields out, more)
  unfolding line_end
  line_end-new_line out fs more = elim (Bool-cases crlf) [
    | inl on ↦ rw on refl
    | inr off ↦ rw off refl
  ]

  not_comma : (more : List ℕ) → is_comma comma (new_line crlf ++ more) ≡ false
  not_comma more =
      let (a, b, c, e) = delimiter in
      elim (Bool-cases crlf) [
        | inl on ↦ rw on (ground (arith, c))
        | inr off ↦ rw off (ground (arith, b))
      ]

  last_field :
      (s more : List ℕ)
      → parse_field comma trim (written_field comma s ++ (new_line crlf ++ more))
        ≡ (some s, new_line crlf ++ more)
  last_field s more = elim (Bool-cases crlf) [
    | inl on ↦
        rw on (parse_field-written_field comma trim delimiter s 13 (10 ∷ more) (ground arith))
    | inr off ↦ rw off (parse_field-written_field comma trim delimiter s 10 more (ground arith))
  ]

  pub fields_loop-tail_text :
      (fuel : ℕ) (s : List ℕ) (fs : List (List ℕ)) (more : List ℕ) (out : List (List ℕ))
      → length fs < fuel
      → fields_loop comma trim fuel (written_field comma s ++ tail_text comma crlf more fs) out
        ≡ (fields (out ++ s ∷ fs), more)
  unfolding fields_loop
  fields_loop-tail_text zero s fs more out fits = absurd (omega (arith, fits))
  fields_loop-tail_text (suc fuel) s [] more out fits =
      rw (last_field s more, not_comma more) (line_end-new_line (out ++ s ∷ []) [] more)
  fields_loop-tail_text (suc fuel) s (f ∷ fs) more out fits =
      let rest = written_field comma f ++ tail_text comma crlf more fs in
      let here : stops comma comma ≡ true = ground arith in
      rw
        (
          parse_field-written_field comma trim delimiter s comma rest here,
          is_comma-true comma rest refl,
        )
        (fields_loop-tail_text fuel f fs more (out ++ s ∷ []) (omega (arith, fits))
          ∙ rw (append_assoc out (s ∷ []) (f ∷ fs)) refl)

  pub length-tail_text :
      (fs : List (List ℕ)) (more : List ℕ)
      → length fs + length more < length (tail_text comma crlf more fs)
  length-tail_text [] more = elim (Bool-cases crlf) [
    | inl on ↦ rw on (omega arith)
    | inr off ↦ rw off (omega arith)
  ]
  length-tail_text (f ∷ fs) more = omega (
    arith,
    length-append (written_field comma f) (tail_text comma crlf more fs),
    length-tail_text fs more,
  )
