-- ===== src/Encoding/Csv/RoundTrip.antt =====
-- Records that are written and read again.
use mathlib.Core.List.{append_assoc, append-nil}
use wasigoc.Common.{
  ℕ, zero, suc, ◌+◌, ◌≡◌, ◌≤◌, ◌<◌, refl, sym, ap, ◌∙◌, arith, Bool, true, false, ◌==◌, List, [],
  ◌∷◌, ◌++◌,
}
use wasigoc.Common.{length, length-append, Bool-cases, inl, inr, All}
use wasigoc.Common.Int.{ℤ, pos, negsuc}
use wasigoc.Common.Outcome.{ok, ◌>>=◌}
use wasigoc.Encoding.Csv.{
  Reader, eof, skip_lines, ends_line, fields, fields_loop, at, expect, check_count, check_line,
  read_line, read, read_all_loop, read_all, field_needs_quotes, written_field, write_all,
}
use wasigoc.Encoding.Csv.Written.{keep, write_all-text}
use wasigoc.Encoding.Csv.Laws.{
  IsDelimiter, tail_text, record_text, text, fields_loop-tail_text, length-tail_text, empty-plain,
  no_quotes, has_special-false,
}

-- The record does not look like an empty line.
abbrev pub IsRecord : List (List ℕ) → Type 0
IsRecord [] = ⊥
IsRecord ([] ∷ []) = ⊥
IsRecord ([] ∷ f ∷ fs) = Unit
IsRecord ((c ∷ s) ∷ fs) = Unit

-- What FieldsPerRecord is behind a record of `n` fields.
abbrev next_count : ℤ → ℕ → ℤ
next_count (pos zero) n = pos n
next_count (pos (suc k)) n = pos (suc k)
next_count (negsuc k) n = negsuc k

-- The records have the number of fields that FieldsPerRecord asks for.
abbrev pub Suit : ℤ → List (List (List ℕ)) → Type 0
Suit (negsuc k) records = Unit
Suit (pos zero) [] = Unit
Suit (pos zero) (r ∷ records) = All (λ other. length other ≡ length r) records
Suit (pos (suc k)) records = All (λ r. length r ≡ suc k) records

abbrev pub reader_of : ℕ → Bool → ℤ → List ℕ → Reader
reader_of comma trim count rest = record {
  comma = comma;
  comment = 0;
  fields_per_record = count;
  trim_leading_space = trim;
  rest = rest;
}

skip_lines-stays :
    (c : ℕ) (rest : List ℕ) → ends_line c ≡ false → skip_lines 0 false (c ∷ rest) ≡ c ∷ rest
unfolding skip_lines
skip_lines-stays c rest h = rw h refl

check_count-Suit :
    (r : List (List ℕ)) (records : List (List (List ℕ))) (count : ℤ) (reader : Reader)
    → IsRecord r
    → reader.fields_per_record ≡ count
    → Suit count (r ∷ records)
    → (check_count count reader r ≡ (fields r, expect reader (next_count count (length r))))
      × Suit (next_count count (length r)) records
unfolding check_count
check_count-Suit r records (negsuc k) reader good e suit = (rw (sym e) refl, tt)
check_count-Suit [] records (pos zero) reader good e suit = absurd good
check_count-Suit (f ∷ fs) records (pos zero) reader good e suit = (refl, suit)
check_count-Suit r records (pos (suc k)) reader good e (here, suit) =
    let met : (length r == suc k) ≡ true = ground (arith, here) in (rw met (rw (sym e) refl), suit)

-- A reader in front of text that starts no empty line.
abbrev Starts : List ℕ → Type 0
Starts [] = ⊥
Starts (c ∷ rest) = ends_line c ≡ false

Starts-append : (a b : List ℕ) → Starts a → Starts (a ++ b)
Starts-append (c ∷ a) b h = h
Starts-append [] b h = absurd h

skip_lines-Starts : (bytes : List ℕ) → Starts bytes → skip_lines 0 false bytes ≡ bytes
skip_lines-Starts [] h = absurd h
skip_lines-Starts (c ∷ rest) h = skip_lines-stays c rest h

read_line-Starts :
    (reader : Reader) (bytes : List ℕ)
    → Starts bytes
    → read_line reader bytes
      ≡ check_line reader
          (fields_loop (reader.comma) (reader.trim_leading_space) (length bytes + 1) bytes [])
unfolding read_line
read_line-Starts reader [] h = absurd h
read_line-Starts reader (c ∷ rest) h = refl

read-empty :
    {comma : ℕ} {trim : Bool} {count : ℤ}
    → read (reader_of comma trim count []) ≡ (eof, reader_of comma trim count [])
unfolding read read_line skip_lines
read-empty = refl

module _ (comma : ℕ) (trim crlf : Bool) (delimiter : IsDelimiter comma) where
  record_text-Starts :
      (r : List (List ℕ)) (more : List ℕ) → IsRecord r → Starts (record_text comma crlf r more)
  unfolding written_field
  record_text-Starts ([] ∷ f ∷ fs) more good =
      let (a, b, c, e) = delimiter in rw (empty-plain comma) (ground (arith, b, c))
  record_text-Starts ((c ∷ s) ∷ fs) more good =
      elim (Bool-cases (field_needs_quotes comma (c ∷ s))) [
        | inl needs ↦ rw needs (ground arith)
        | inr plain ↦
            let (no_space, free) = no_quotes comma trim delimiter c s plain in
            let (go, x, y) = has_special-false comma c s free in rw plain (ground (arith, go))
      ]
  record_text-Starts [] more good = absurd good
  record_text-Starts ([] ∷ []) more good = absurd good

  length-record_text :
      (r : List (List ℕ)) (more : List ℕ)
      → IsRecord r
      → (length r ≤ length (record_text comma crlf r more))
        × (length more < length (record_text comma crlf r more))
  length-record_text [] more good = absurd good
  length-record_text (s ∷ fs) more good =
      let total = length-append (written_field comma s) (tail_text comma crlf more fs) in
      let tail = length-tail_text comma trim crlf delimiter fs more in
      (omega (arith, total, tail), omega (arith, total, tail))

  read-record_text :
      (r : List (List ℕ)) (records : List (List (List ℕ))) (count : ℤ) (more : List ℕ)
      → IsRecord r
      → Suit count (r ∷ records)
      → (read (reader_of comma trim count (record_text comma crlf r more))
          ≡ (fields r, reader_of comma trim (next_count count (length r)) more))
        × Suit (next_count count (length r)) records
  unfolding read
  read-record_text [] records count more good suit = absurd good
  read-record_text (s ∷ fs) records count more good suit =
      let bytes = record_text comma crlf (s ∷ fs) more in
      let reader = reader_of comma trim count bytes in
      let starts : Starts bytes = record_text-Starts (s ∷ fs) more good in
      let (fits, x) = length-record_text (s ∷ fs) more good in
      let (counted, suits) =
        check_count-Suit (s ∷ fs) records count (at reader more) good refl suit in
      let loop =
        fields_loop-tail_text comma trim crlf delimiter (length bytes + 1) s fs more []
          (omega (arith, fits)) in
      (
        ap (read_line reader) (skip_lines-Starts bytes starts)
            ∙ (read_line-Starts reader bytes starts ∙ (ap (check_line reader) loop ∙ counted)),
        suits,
      )

  read_all_loop-text :
      (records : List (List (List ℕ))) (fuel : ℕ) (count : ℤ) (out : List (List (List ℕ)))
      → All IsRecord records
      → Suit count records
      → length (text comma crlf records) < fuel
      → read_all_loop fuel (reader_of comma trim count (text comma crlf records)) out
        ≡ ok (out ++ records)
  unfolding read_all_loop
  read_all_loop-text records zero count out good suit fits = absurd (omega (arith, fits))
  read_all_loop-text [] (suc fuel) count out good suit fits =
      rw read-empty (sym (ap ok (append-nil out)))
  read_all_loop-text (r ∷ records) (suc fuel) count out (here, good) suit fits =
      let (one, suits) = read-record_text r records count (text comma crlf records) here suit in
      let (x, less) = length-record_text r (text comma crlf records) here in
      rw one (
        read_all_loop-text records fuel (next_count count (length r)) (out ++ r ∷ []) good suits
          (omega (arith, fits, less))
        ∙ ap ok (append_assoc out (r ∷ []) records))

-- ReadAll reads the records that WriteAll has written, for each separator that is not a quote, a
-- space or a line end, with either line end, and whether or not the reader trims leading spaces: if
-- no record looks like an empty line, no byte starts a comment and FieldsPerRecord admits them.
pub read_all-write_all :
    (comma : ℕ) (trim crlf : Bool) (count : ℤ) (records : List (List (List ℕ)))
    → IsDelimiter comma
    → All IsRecord records
    → Suit count records
    → (write_all keep (record { comma = comma; use_crlf = crlf }) records [] >>= λ bytes.
        read_all (reader_of comma trim count bytes))
      ≡ ok records
unfolding read_all
read_all-write_all comma trim crlf count records delimiter good suit =
    rw (write_all-text comma crlf records []) (
      read_all_loop-text comma trim crlf delimiter records (length (text comma crlf records) + 1)
        count [] good suit (omega arith))
