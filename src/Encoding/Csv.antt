-- ===== src/Encoding/Csv.antt =====
-- stdlib/encoding/csv/csv.go. A reader keeps the bytes from its position on, `data[pos:]`.
pub mod Laws
pub mod Written
pub mod Progress
pub mod RoundTrip
mod Tests
use wasigoc.Common.{
  ℕ, zero, suc, ◌+◌, ◌-◌, ◌*◌, Bool, true, false, not, ◌&&◌, ◌||◌, ◌==◌, ltb, leb, if◌then◌else◌,
  List, [], ◌∷◌, ◌++◌, Option, none, some,
}
use wasigoc.Common.{String, length, get_or, drop}
use wasigoc.Common.Int.{ℤ, pos, negsuc}
use wasigoc.Common.Outcome.{Outcome, ok, err, panic, ◌>>=◌}

pub record Reader : Type 0 where
  pub comma : ℕ
  pub comment : ℕ
  pub fields_per_record : ℤ
  pub trim_leading_space : Bool
  pub rest : List ℕ

-- NewReader, when the data are read.
pub new_reader : List ℕ → Reader
new_reader bytes = record {
  comma = 44;
  comment = 0;
  fields_per_record = pos 0;
  trim_leading_space = false;
  rest = bytes;
}

abbrev pub ends_line : ℕ → Bool
ends_line c = (c == 13) || (c == 10)

-- skipCommentsAndBlankLines, where the flag says that the inner loop is on its way over a comment.
pub skip_lines : ℕ → Bool → List ℕ → List ℕ
skip_lines comment in_comment [] = []
skip_lines comment true (c ∷ rest) = skip_lines comment (not (c == 10)) rest
skip_lines comment false (c ∷ rest) =
    let more = skip_lines comment (not (ends_line c)) rest in
    if ends_line c || (not (comment == 0) && (c == comment)) then more else c ∷ rest

-- A field, and the bytes behind it.
abbrev push : ℕ → List ℕ × List ℕ → List ℕ × List ℕ
push c (field, rest) = (c ∷ field, rest)

pub parse_unquoted_field : ℕ → List ℕ → List ℕ × List ℕ
parse_unquoted_field comma [] = ([], [])
parse_unquoted_field comma (c ∷ rest) =
    let more = parse_unquoted_field comma rest in
    if (c == comma) || (c == 10) || (c == 13) then ([], c ∷ rest) else push c more

abbrev pub push_some : ℕ → Option (List ℕ) × List ℕ → Option (List ℕ) × List ℕ
push_some c (none, rest) = (none, rest)
push_some c (some field, rest) = (some (c ∷ field), rest)

-- The loop of parseQuotedField behind the quote that opens the field; the flag says that a quote was
-- read, which the next byte may double. There is no field where the data end before it does.
pub quoted_loop : Bool → List ℕ → Option (List ℕ) × List ℕ
quoted_loop false [] = (none, [])
quoted_loop false (c ∷ rest) =
    let more = quoted_loop (c == 34) rest in if c == 34 then more else push_some c more
quoted_loop true [] = (some [], [])
quoted_loop true (c ∷ rest) =
    let more = quoted_loop false rest in if c == 34 then push_some 34 more else (some [], c ∷ rest)

pub skip_spaces : List ℕ → List ℕ
skip_spaces [] = []
skip_spaces (c ∷ rest) = let more = skip_spaces rest in if c == 32 then more else c ∷ rest

abbrev bare : List ℕ × List ℕ → Option (List ℕ) × List ℕ
bare (field, rest) = (some field, rest)

unfoldable pub field_at : ℕ → List ℕ → Option (List ℕ) × List ℕ
field_at comma [] = bare (parse_unquoted_field comma [])
field_at comma (c ∷ rest) =
    if c == 34 then quoted_loop false rest else bare (parse_unquoted_field comma (c ∷ rest))

pub parse_field : ℕ → Bool → List ℕ → Option (List ℕ) × List ℕ
parse_field comma trim bytes = field_at comma (if trim then skip_spaces bytes else bytes)

-- What Read returns: a record, io.EOF or an error with its text.
pub data Line : Type 0 where
  fields : List (List ℕ) → Line
  eof : Line
  failed : String → Line

-- `\n` behind `\r` belongs to it.
abbrev pub drop_newline : List ℕ → List ℕ
drop_newline [] = []
drop_newline (c ∷ rest) = if c == 10 then rest else c ∷ rest

-- What ends the loop over the fields, if the byte behind a field is no comma.
unfoldable pub line_end : List (List ℕ) → List ℕ → Line × List ℕ
line_end out [] = (fields out, [])
line_end out (c ∷ rest) =
    if c == 13
    then (fields out, drop_newline rest)
    else if c == 10
    then (fields out, rest)
    else (failed "csv: extraneous or missing \" in quoted-field", c ∷ rest)

abbrev pub is_comma : ℕ → List ℕ → Bool
is_comma comma [] = false
is_comma comma (c ∷ rest) = c == comma

abbrev pub on_field : Option (List ℕ) × List ℕ → (List ℕ → List ℕ → Line × List ℕ) → Line × List ℕ
on_field (none, rest) go = (failed "csv: unexpected end of file in quoted field", rest)
on_field (some field, rest) go = go field rest

-- The loop over the fields of a record, on fuel: each round but the last one reads a comma. It returns
-- io.EOF only if the fuel is not enough.
pub fields_loop : ℕ → Bool → ℕ → List ℕ → List (List ℕ) → Line × List ℕ
fields_loop comma trim zero bytes out = (eof, bytes)
fields_loop comma trim (suc fuel) bytes out = on_field (parse_field comma trim bytes) λ field rest.
    let more = fields_loop comma trim fuel (drop 1 rest) (out ++ field ∷ []) in
    if is_comma comma rest then more else line_end (out ++ field ∷ []) rest

abbrev pub at : Reader → List ℕ → Reader
at r rest = record {
  comma = r.comma;
  comment = r.comment;
  fields_per_record = r.fields_per_record;
  trim_leading_space = r.trim_leading_space;
  rest = rest;
}

abbrev pub expect : Reader → ℤ → Reader
expect r count = record {
  comma = r.comma;
  comment = r.comment;
  fields_per_record = count;
  trim_leading_space = r.trim_leading_space;
  rest = r.rest;
}

-- The check of FieldsPerRecord: 0 is set, another one that is not negative must be met.
unfoldable pub check_count : ℤ → Reader → List (List ℕ) → Line × Reader
check_count (pos zero) r record_fields =
    (fields record_fields, expect r (pos (length record_fields)))
check_count (pos (suc n)) r record_fields =
    if length record_fields == suc n
    then (fields record_fields, r)
    else (failed "csv: wrong number of fields", r)
check_count (negsuc n) r record_fields = (fields record_fields, r)

abbrev pub check_line : Reader → Line × List ℕ → Line × Reader
check_line r (fields record_fields, rest) =
    check_count (r.fields_per_record) (at r rest) record_fields
check_line r (eof, rest) = (eof, at r rest)
check_line r (failed e, rest) = (failed e, at r rest)

-- Read, where the blank lines and the comments before the record are skipped.
unfoldable pub read_line : Reader → List ℕ → Line × Reader
read_line r [] = (eof, at r [])
read_line r (c ∷ rest) =
    check_line r
      (fields_loop (r.comma) (r.trim_leading_space) (length (c ∷ rest) + 1) (c ∷ rest) [])

pub read : Reader → Line × Reader
read r = read_line r (skip_lines (r.comment) false (r.rest))

abbrev Records : Type 0
Records = List (List (List ℕ))

abbrev pub on_line :
    Line × Reader → Records → (List (List ℕ) → Reader → Outcome Records) → Outcome Records
on_line (eof, r2) out go = ok out
on_line (failed e, r2) out go = err e
on_line (fields record_fields, r2) out go = go record_fields r2

-- ReadAll on fuel: each record reads a byte at least.
pub read_all_loop : ℕ → Reader → Records → Outcome Records
read_all_loop zero r out = panic
read_all_loop (suc fuel) r out =
    on_line (read r) out λ record_fields r2. read_all_loop fuel r2 (out ++ record_fields ∷ [])

pub read_all : Reader → Outcome (List (List (List ℕ)))
read_all r = read_all_loop (length (r.rest) + 1) r []

pub record Writer : Type 0 where
  pub comma : ℕ
  pub use_crlf : Bool

-- The loop of fieldNeedsQuotes.
pub has_special : ℕ → List ℕ → Bool
has_special comma [] = false
has_special comma (c ∷ s) =
    if (c == comma) || (c == 34) || (c == 10) || (c == 13) then true else has_special comma s

pub field_needs_quotes : ℕ → List ℕ → Bool
field_needs_quotes comma [] = false
field_needs_quotes comma (c ∷ s) =
    if has_special comma (c ∷ s)
    then true
    else (c == 32) || (get_or (c ∷ s) (length (c ∷ s) - 1) 0 == 32)

-- The loop of quoteField, and the quote that closes the field.
pub quote_loop : List ℕ → List ℕ
quote_loop [] = 34 ∷ []
quote_loop (c ∷ s) = if c == 34 then 34 ∷ 34 ∷ quote_loop s else c ∷ quote_loop s

abbrev pub quote_field : List ℕ → List ℕ
quote_field s = 34 ∷ quote_loop s

unfoldable pub written_field : ℕ → List ℕ → List ℕ
written_field comma s = if field_needs_quotes comma s then quote_field s else s

abbrev pub new_line : Bool → List ℕ
new_line use_crlf = if use_crlf then 13 ∷ 10 ∷ [] else 10 ∷ []

-- The io.Writer below is a parameter: its state, and what a write does to it.
module _ {S : Type 0} (write_bytes : S → List ℕ → Outcome S) where
  -- The fields behind the first one.
  pub write_fields : ℕ → List (List ℕ) → S → Outcome S
  write_fields comma [] sink = ok sink
  write_fields comma (s ∷ record_fields) sink = write_bytes sink (comma ∷ []) >>= λ sink.
      write_bytes sink (written_field comma s) >>= λ sink. write_fields comma record_fields sink

  unfoldable pub first_fields : ℕ → List (List ℕ) → S → Outcome S
  first_fields comma [] sink = ok sink
  first_fields comma (s ∷ record_fields) sink =
      write_bytes sink (written_field comma s) >>= λ sink. write_fields comma record_fields sink

  pub write : Writer → List (List ℕ) → S → Outcome S
  write w record_fields sink =
      first_fields (w.comma) record_fields sink >>= λ sink. write_bytes sink (new_line (w.use_crlf))

  pub write_all : Writer → List (List (List ℕ)) → S → Outcome S
  write_all w [] sink = ok sink
  write_all w (record_fields ∷ records) sink =
      write w record_fields sink >>= λ sink. write_all w records sink
