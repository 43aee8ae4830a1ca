-- ===== src/Strconv.antt =====
-- stdlib/strconv/strconv.go on unsigned numbers and booleans. The base is a number that is not
-- negative; the bit size, which the source does not read, is left out.
pub mod Laws
use wasigoc.Common.{
  ℕ, zero, suc, ◌+◌, ◌-◌, ◌*◌, ◌/◌, ◌%◌, List, [], ◌∷◌, ◌++◌, Bool, true, false, ◌==◌, ltb, leb,
}
use wasigoc.Common.{
  ◌&&◌, ◌||◌, if◌then◌else◌, Option, none, some, length, take, drop, get_or, codes, String,
}
use wasigoc.Common.Outcome.{Outcome, ok, err, panic, ◌>>=◌}
use wasigoc.Common.Slices.{load}
use wasigoc.Common.Bits.{u64}
use wasigoc.Text.Find.{same_text}

abbrev pub digits : List ℕ
digits = codes "0123456789abcdefghijklmnopqrstuvwxyz"

-- The loop of FormatUint on fuel: 64 rounds are enough for a base of 2 or more, with base 1 the
-- source does not end. A base of 0 panics.
unfoldable pub format_loop : ℕ → List ℕ → ℕ → ℕ → Outcome (List ℕ)
format_loop zero rev n base = ok rev
format_loop (suc fuel) rev n base =
    let round : Outcome (List ℕ) =
      load digits (n % base) >>= λ c. format_loop fuel (rev ++ c ∷ []) (n / base) base in
    if n == 0 then ok rev else if base == 0 then panic else round

-- `out[k] = rev[len(rev)-1-k]` for the last `n` places.
unfoldable pub reversed : ℕ → List ℕ → List ℕ
reversed zero rev = []
reversed (suc n) rev = get_or rev n 0 ∷ reversed n rev

unfoldable pub format_uint : ℕ → ℕ → Outcome (List ℕ)
format_uint i base =
    if i == 0
    then ok (48 ∷ [])
    else (format_loop 64 [] i base >>= λ rev. ok (reversed (length rev) rev))

unfoldable pub digit_val : ℕ → Option ℕ
digit_val ci =
    if leb 48 ci && leb ci 57
    then some (ci - 48)
    else if leb 97 ci && leb ci 122
    then some (ci - 97 + 10)
    else if leb 65 ci && leb ci 90
    then some (ci - 65 + 10)
    else none

-- The prefix `0` and the letter, in lower or upper case.
unfoldable pub has_base_prefix : ℕ → ℕ → List ℕ → Bool
has_base_prefix low up s =
    leb 2 (length s)
    && (same_text (take 1 s) (48 ∷ [])
        && (same_text (take 1 (drop 1 s)) (low ∷ []) || same_text (take 1 (drop 1 s)) (up ∷ [])))

unfoldable pub has0x_prefix : List ℕ → Bool
has0x_prefix s = has_base_prefix 120 88 s

unfoldable pub has0o_prefix : List ℕ → Bool
has0o_prefix s = has_base_prefix 111 79 s

unfoldable pub has0b_prefix : List ℕ → Bool
has0b_prefix s = has_base_prefix 98 66 s

abbrev pub uint_error : String
uint_error = "strconv.ParseUint: invalid syntax"

-- The base and the digits that are left after the prefix.
unfoldable pub choose_base : List ℕ → ℕ → ℕ × List ℕ
choose_base s base =
    if base == 0
    then if has0x_prefix s
      then (16, drop 2 s)
      else if has0o_prefix s
      then (8, drop 2 s)
      else if has0b_prefix s
      then (2, drop 2 s)
      else if ltb 1 (length s) && same_text (take 1 s) (48 ∷ [])
      then (8, drop 1 s)
      else (10, s)
    else if base == 16 && has0x_prefix s
    then (base, drop 2 s)
    else (base, s)

-- The loop of ParseUint over the bytes that are left; `n` wraps around.
unfoldable pub parse_loop : ℕ → ℕ → List ℕ → Outcome ℕ
parse_loop b n [] = ok n
parse_loop b n (c ∷ rest) =
    let skipped = parse_loop b n rest in
    let next : Outcome ℕ = elim (digit_val c) [
      | none ↦ err uint_error
      | some d ↦ if leb b d then err uint_error else parse_loop b (u64 (u64 (n * b) + d)) rest
    ] in
    if c == 95 then skipped else next

unfoldable pub parse_uint : List ℕ → ℕ → Outcome ℕ
parse_uint s base =
    let (b, rest) = choose_base s base in
    if length s == 0
    then err uint_error
    else if length rest == 0
    then err uint_error
    else parse_loop b 0 rest

unfoldable pub format_bool : Bool → List ℕ
format_bool b = if b then codes "true" else codes "false"

unfoldable pub parse_bool : List ℕ → Outcome Bool
parse_bool s =
    if same_text s (codes "1")
      || same_text s (codes "t")
      || same_text s (codes "T")
      || same_text s (codes "true")
      || same_text s (codes "True")
      || same_text s (codes "TRUE")
    then ok true
    else if same_text s (codes "0")
        || same_text s (codes "f")
        || same_text s (codes "F")
        || same_text s (codes "false")
        || same_text s (codes "False")
        || same_text s (codes "FALSE")
    then ok false
    else err "strconv.ParseBool: invalid syntax"
