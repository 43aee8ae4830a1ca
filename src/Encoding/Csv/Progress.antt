-- ===== src/Encoding/Csv/Progress.antt =====
-- Each record that is read takes bytes away.
use wasigoc.Common.{
  ℕ, zero, suc, ◌+◌, ◌-◌, ◌≡◌, ◌≢◌, ◌≤◌, ◌<◌, refl, arith, Bool, true, false, not, ◌&&◌, ◌||◌, ◌==◌,
  if◌then◌else◌, List, [], ◌∷◌, ◌++◌, Option, none, some,
}
use wasigoc.Common.{length, length-drop, drop, Bool-cases, inl, inr}
use wasigoc.Common.Int.{ℤ, pos, negsuc}
use wasigoc.Common.Outcome.{Outcome, panic}
use wasigoc.Encoding.Csv.{
  Reader, push_some, skip_lines, ends_line, parse_unquoted_field, quoted_loop, skip_spaces,
  field_at, parse_field, Line, fields, eof, failed, line_end, is_comma, drop_newline, fields_loop,
  on_field, at, check_count, check_line, read_line, read, read_all_loop, on_line, read_all,
}

skip_lines-length :
    (comment : ℕ) (over : Bool) (bytes : List ℕ)
    → length (skip_lines comment over bytes) ≤ length bytes
unfolding skip_lines
skip_lines-length comment over [] = omega arith
skip_lines-length comment true (c ∷ rest) =
    omega (arith, skip_lines-length comment (not (c == 10)) rest)
skip_lines-length comment false (c ∷ rest) =
    elim (Bool-cases (ends_line c || (not (comment == 0) && (c == comment)))) [
      | inl skips ↦ rw skips (omega (arith, skip_lines-length comment (not (ends_line c)) rest))
      | inr stays ↦ rw stays (omega arith)
    ]

parse_unquoted_field-length :
    (comma : ℕ) (bytes : List ℕ) → length ((parse_unquoted_field comma bytes).1) ≤ length bytes
unfolding parse_unquoted_field
parse_unquoted_field-length comma [] = omega arith
parse_unquoted_field-length comma (c ∷ rest) =
    elim (Bool-cases ((c == comma) || (c == 10) || (c == 13))) [
      | inl stop ↦ rw stop (omega arith)
      | inr go ↦ rw go (omega (arith, parse_unquoted_field-length comma rest))
    ]

push_some-length :
    (c : ℕ) (p : Option (List ℕ) × List ℕ) → length ((push_some c p).1) ≡ length (p.1)
push_some-length c (none, rest) = refl
push_some-length c (some field, rest) = refl

quoted_loop-length :
    (quote : Bool) (bytes : List ℕ) → length ((quoted_loop quote bytes).1) ≤ length bytes
unfolding quoted_loop
quoted_loop-length false [] = omega arith
quoted_loop-length false (c ∷ rest) =
    let less = quoted_loop-length (c == 34) rest in
    elim (Bool-cases (c == 34)) [
      | inl q ↦ rw q (omega (arith, quoted_loop-length true rest))
      | inr plain ↦ rw plain (
          omega (arith, push_some-length c (quoted_loop false rest), quoted_loop-length false rest))
    ]
quoted_loop-length true [] = omega arith
quoted_loop-length true (c ∷ rest) = elim (Bool-cases (c == 34)) [
  | inl q ↦
      rw q
        (omega (arith, push_some-length 34 (quoted_loop false rest), quoted_loop-length false rest))
  | inr plain ↦ rw plain (omega arith)
]

skip_spaces-length : (bytes : List ℕ) → length (skip_spaces bytes) ≤ length bytes
unfolding skip_spaces
skip_spaces-length [] = omega arith
skip_spaces-length (c ∷ rest) = elim (Bool-cases (c == 32)) [
  | inl space ↦ rw space (omega (arith, skip_spaces-length rest))
  | inr other ↦ rw other (omega arith)
]

field_at-length : (comma : ℕ) (bytes : List ℕ) → length ((field_at comma bytes).1) ≤ length bytes
unfolding field_at
field_at-length comma [] = parse_unquoted_field-length comma []
field_at-length comma (c ∷ rest) = elim (Bool-cases (c == 34)) [
  | inl q ↦ rw q (omega (arith, quoted_loop-length false rest))
  | inr plain ↦ rw plain (parse_unquoted_field-length comma (c ∷ rest))
]

parse_field-length :
    (comma : ℕ) (trim : Bool) (bytes : List ℕ)
    → length ((parse_field comma trim bytes).1) ≤ length bytes
unfolding parse_field
parse_field-length comma true bytes =
    omega (arith, field_at-length comma (skip_spaces bytes), skip_spaces-length bytes)
parse_field-length comma false bytes = field_at-length comma bytes

-- A record takes bytes away, if there are any; there is an error, or there is no record.
abbrev Takes : ℕ → Line × List ℕ → Type 0
Takes n (fields out, rest) = length rest ≤ n - 1
Takes n (eof, rest) = ⊥
Takes n (failed e, rest) = Unit

line_end-Takes :
    (out : List (List ℕ)) (rest : List ℕ) (n : ℕ) → length rest ≤ n → Takes n (line_end out rest)
unfolding line_end
line_end-Takes out [] n h = omega arith
line_end-Takes out (c ∷ rest) n h = elim (Bool-cases (c == 13)) [
  | inl cr ↦ rw cr (omega (arith, h, drop_newline-length rest))
  | inr other ↦
      rw other
        (elim (Bool-cases (c == 10)) [ inl lf ↦ rw lf (omega (arith, h)) | inr bad ↦ rw bad tt ])
]
  where
    drop_newline-length : (xs : List ℕ) → length (drop_newline xs) ≤ length xs
    drop_newline-length [] = omega arith
    drop_newline-length (x ∷ xs) = elim (Bool-cases (x == 10)) [
      | inl lf ↦ rw lf (omega arith)
      | inr other ↦ rw other (omega arith)
    ]

on_field-Takes :
    (n : ℕ) (p : Option (List ℕ) × List ℕ) (go : List ℕ → List ℕ → Line × List ℕ)
    → length (p.1) ≤ n
    → ((field rest : List ℕ) → length rest ≤ n → Takes n (go field rest))
    → Takes n (on_field p go)
on_field-Takes n (none, rest) go h then_takes = tt
on_field-Takes n (some field, rest) go h then_takes = then_takes field rest h

Takes-weaken : (n m : ℕ) (p : Line × List ℕ) → n ≤ m → Takes n p → Takes m p
Takes-weaken n m (fields out, rest) h takes = omega (arith, h, takes)
Takes-weaken n m (eof, rest) h takes = takes
Takes-weaken n m (failed e, rest) h takes = tt

module _ (comma : ℕ) (trim : Bool) where
  is_comma-length : (rest : List ℕ) → is_comma comma rest ≡ true → 0 < length rest
  is_comma-length [] h = cc
  is_comma-length (c ∷ rest) h = omega arith

  behind_field :
      (n : ℕ) (out : List (List ℕ)) (rest : List ℕ) (more : Line × List ℕ)
      → length rest ≤ n
      → (is_comma comma rest ≡ true → Takes n more)
      → Takes n (if is_comma comma rest then more else line_end out rest)
  behind_field n out rest more less then_takes = elim (Bool-cases (is_comma comma rest)) [
    | inl goes ↦ rw goes (then_takes goes)
    | inr ends ↦ rw ends (line_end-Takes out rest n less)
  ]

  fields_loop-Takes :
      (fuel : ℕ) (bytes : List ℕ) (out : List (List ℕ))
      → length bytes < fuel
      → Takes (length bytes) (fields_loop comma trim fuel bytes out)
  unfolding fields_loop
  fields_loop-Takes zero bytes out fits = absurd (omega (arith, fits))
  fields_loop-Takes (suc fuel) bytes out fits =
      on_field-Takes (length bytes) (parse_field comma trim bytes) _
        (parse_field-length comma trim bytes)
        λ field rest less. behind_field (length bytes) (out ++ field ∷ []) rest _ less λ more.
          let short = length-drop 1 rest in
          let some_left = is_comma-length rest more in
          Takes-weaken (length (drop 1 rest)) (length bytes)
            (fields_loop comma trim fuel (drop 1 rest) (out ++ field ∷ []))
            (omega (arith, short, less))
            (fields_loop-Takes fuel (drop 1 rest) (out ++ field ∷ [])
              (omega (arith, short, some_left, less, fits)))

-- Read gives a record and leaves fewer bytes, or meets the end, or an error.
abbrev pub Progresses : ℕ → Line × Reader → Type 0
Progresses n (fields out, r) = length (r.rest) < n
Progresses n (eof, r) = r.rest ≡ []
Progresses n (failed e, r) = Unit

check_count-Progresses :
    (count : ℤ) (r : Reader) (out : List (List ℕ)) (n : ℕ)
    → length (r.rest) < n
    → Progresses n (check_count count r out)
unfolding check_count
check_count-Progresses (pos zero) r out n h = h
check_count-Progresses (pos (suc k)) r out n h = elim (Bool-cases (length out == suc k)) [
  | inl met ↦ rw met h
  | inr differs ↦ rw differs tt
]
check_count-Progresses (negsuc k) r out n h = h

check_line-Progresses :
    (r : Reader) (n : ℕ) (p : Line × List ℕ) → Takes (suc n) p → Progresses (suc n) (check_line r p)
check_line-Progresses r n (fields out, rest) takes =
    check_count-Progresses (r.fields_per_record) (at r rest) out (suc n) (omega (arith, takes))
check_line-Progresses r n (eof, rest) takes = absurd takes
check_line-Progresses r n (failed e, rest) takes = tt

Progresses-weaken : (n m : ℕ) (p : Line × Reader) → n ≤ m → Progresses n p → Progresses m p
Progresses-weaken n m (fields out, r) h takes = omega (arith, h, takes)
Progresses-weaken n m (eof, r) h takes = takes
Progresses-weaken n m (failed e, r) h takes = tt

read_line-Progresses : (r : Reader) (bytes : List ℕ) → Progresses (length bytes) (read_line r bytes)
unfolding read_line
read_line-Progresses r [] = refl
read_line-Progresses r (c ∷ rest) = check_line-Progresses r (length rest) _ (
    fields_loop-Takes (r.comma) (r.trim_leading_space) (length (c ∷ rest) + 1) (c ∷ rest) []
      (omega arith))

-- Read returns a record and leaves fewer bytes than before, or it returns io.EOF and leaves none, or
-- it returns an error: whatever the bytes and the settings of the reader are.
pub read-Progresses : (r : Reader) → Progresses (length (r.rest)) (read r)
unfolding read
read-Progresses r =
    let bytes = skip_lines (r.comment) false (r.rest) in
    Progresses-weaken (length bytes) (length (r.rest)) (read_line r bytes)
      (skip_lines-length (r.comment) false (r.rest)) (read_line-Progresses r bytes)

on_line-total :
    (n : ℕ) (p : Line × Reader) (out : List (List (List ℕ)))
    (go : List (List ℕ) → Reader → Outcome (List (List (List ℕ))))
    → Progresses n p
    → ((record_fields : List (List ℕ)) (r : Reader)
        → length (r.rest) < n
        → go record_fields r ≢ panic)
    → on_line p out go ≢ panic
on_line-total n (fields record_fields, r) out go h total = total record_fields r h
on_line-total n (eof, r) out go h total = λ e. cc
on_line-total n (failed x, r) out go h total = λ e. cc

read_all_loop-total :
    (fuel : ℕ) (r : Reader) (out : List (List (List ℕ)))
    → length (r.rest) < fuel
    → read_all_loop fuel r out ≢ panic
unfolding read_all_loop
read_all_loop-total zero r out fits = absurd (omega (arith, fits))
read_all_loop-total (suc fuel) r out fits =
    on_line-total (length (r.rest)) (read r) out _ (read-Progresses r) λ record_fields r2 less.
      read_all_loop-total fuel r2 (out ++ record_fields ∷ []) (omega (arith, less, fits))

-- ReadAll comes to an end, with the records or an error, on whatever bytes and with whatever settings.
pub read_all-total : (r : Reader) → read_all r ≢ panic
unfolding read_all
read_all-total r = read_all_loop-total (length (r.rest) + 1) r [] (omega arith)
