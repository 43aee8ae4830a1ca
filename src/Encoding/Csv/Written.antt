-- ===== src/Encoding/Csv/Written.antt =====
-- The text that the writer writes.
use mathlib.Core.List.{append_assoc, append-nil}
use wasigoc.Common.{ℕ, ◌≡◌, sym, ap, ◌∙◌, Bool, List, [], ◌∷◌, ◌++◌}
use wasigoc.Common.Outcome.{Outcome, ok, ◌>>=◌}
use wasigoc.Encoding.Csv.{written_field, new_line, write_fields, first_fields, write, write_all}
use wasigoc.Encoding.Csv.Laws.{tail_text, record_text, text}

-- An io.Writer that takes all bytes.
abbrev pub keep : List ℕ → List ℕ → Outcome (List ℕ)
keep sink p = ok (sink ++ p)

new_line-empty : (crlf : Bool) → new_line crlf ≡ new_line crlf ++ []
new_line-empty crlf = sym (append-nil (new_line crlf))

write_fields-tail_text :
    (comma : ℕ) (crlf : Bool) (fs : List (List ℕ)) (sink : List ℕ)
    → (write_fields keep comma fs sink >>= λ sink. keep sink (new_line crlf))
      ≡ ok (sink ++ tail_text comma crlf [] fs)
unfolding write_fields
write_fields-tail_text comma crlf [] sink = ap (λ end_. ok (sink ++ end_)) (new_line-empty crlf)
write_fields-tail_text comma crlf (s ∷ fs) sink =
    write_fields-tail_text comma crlf fs ((sink ++ comma ∷ []) ++ written_field comma s)
    ∙ ap ok (
        append_assoc (sink ++ comma ∷ []) (written_field comma s) (tail_text comma crlf [] fs)
        ∙ append_assoc sink (comma ∷ []) (written_field comma s ++ tail_text comma crlf [] fs))

write-record_text :
    (comma : ℕ) (crlf : Bool) (r : List (List ℕ)) (sink : List ℕ)
    → write keep (record { comma = comma; use_crlf = crlf }) r sink
      ≡ ok (sink ++ record_text comma crlf r [])
unfolding write first_fields
write-record_text comma crlf [] sink = ap (λ end_. ok (sink ++ end_)) (new_line-empty crlf)
write-record_text comma crlf (s ∷ fs) sink =
    write_fields-tail_text comma crlf fs (sink ++ written_field comma s)
    ∙ ap ok (append_assoc sink (written_field comma s) (tail_text comma crlf [] fs))

tail_text-append :
    (comma : ℕ) (crlf : Bool) (fs : List (List ℕ)) (more : List ℕ)
    → tail_text comma crlf [] fs ++ more ≡ tail_text comma crlf more fs
tail_text-append comma crlf [] more = ap (λ end_. end_ ++ more) (sym (new_line-empty crlf))
tail_text-append comma crlf (s ∷ fs) more =
    ap (λ rest. comma ∷ rest)
      (append_assoc (written_field comma s) (tail_text comma crlf [] fs) more
        ∙ ap (λ rest. written_field comma s ++ rest) (tail_text-append comma crlf fs more))

record_text-append :
    (comma : ℕ) (crlf : Bool) (r : List (List ℕ)) (more : List ℕ)
    → record_text comma crlf r [] ++ more ≡ record_text comma crlf r more
record_text-append comma crlf [] more = ap (λ end_. end_ ++ more) (sym (new_line-empty crlf))
record_text-append comma crlf (s ∷ fs) more =
    append_assoc (written_field comma s) (tail_text comma crlf [] fs) more
    ∙ ap (λ rest. written_field comma s ++ rest) (tail_text-append comma crlf fs more)

pub write_all-text :
    (comma : ℕ) (crlf : Bool) (records : List (List (List ℕ))) (sink : List ℕ)
    → write_all keep (record { comma = comma; use_crlf = crlf }) records sink
      ≡ ok (sink ++ text comma crlf records)
unfolding write_all
write_all-text comma crlf [] sink = sym (ap ok (append-nil sink))
write_all-text comma crlf (r ∷ records) sink =
    let one = record_text comma crlf r [] in
    rw (write-record_text comma crlf r sink) (
      write_all-text comma crlf records (sink ++ one)
      ∙ ap ok (
          append_assoc sink one (text comma crlf records)
          ∙ ap (λ rest. sink ++ rest) (record_text-append comma crlf r (text comma crlf records))))
