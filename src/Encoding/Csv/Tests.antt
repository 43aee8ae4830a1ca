-- ===== src/Encoding/Csv/Tests.antt =====
-- Records and bytes at concrete settings.
use wasigoc.Common.{ℕ, ◌≡◌, ◌≢◌, arith, true, List, [], ◌∷◌, codes}
use wasigoc.Common.Int.{pos, negsuc}
use wasigoc.Common.Outcome.{ok, panic, ◌>>=◌}
use wasigoc.Encoding.Csv.{Reader, read, read_all, write_all}
use wasigoc.Encoding.Csv.Progress.{Progresses, read-Progresses, read_all-total}
use wasigoc.Encoding.Csv.RoundTrip.{reader_of, read_all-write_all}
use wasigoc.Encoding.Csv.Written.{keep}
use wasigoc.Common.{length}

abbrev two_records : List (List (List ℕ))
two_records = (codes "a" ∷ codes " b,\"c" ∷ []) ∷ ([] ∷ codes "d" ∷ []) ∷ []

read_all-write_all_example :
    (write_all keep (record { comma = 44; use_crlf = true }) two_records [] >>= λ bytes.
    read_all (reader_of 44 true (pos 0) bytes))
    ≡ ok two_records
read_all-write_all_example =
    read_all-write_all 44 true true (pos 0) two_records
      (
        (λ e. omega (arith, e)),
        (λ e. omega (arith, e)),
        (λ e. omega (arith, e)),
        λ e. omega (arith, e),
      )
      (tt, (tt, tt)) (omega arith, tt)

abbrev commented : Reader
commented = record {
  comma = 44;
  comment = 35;
  fields_per_record = negsuc 0;
  trim_leading_space = true;
  rest = codes "# c\na, \"b\"\n\"x";
}

read-Progresses_example : Progresses (length (codes "# c\na, \"b\"\n\"x")) (read commented)
read-Progresses_example = read-Progresses commented

read_all-total_example : read_all commented ≢ panic
read_all-total_example = read_all-total commented
