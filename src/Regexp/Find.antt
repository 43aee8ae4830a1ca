-- ===== src/Regexp/Find.antt =====
-- The search for a match and the methods that stand on it. A loop over places has the guard of the
-- source and fuel: each round starts behind the place of the round before it.
pub mod Laws
pub mod Loops
pub mod Split
use wasigoc.Common.{
  ℕ, zero, suc, ◌+◌, ◌-◌, Bool, true, false, ◌&&◌, ◌||◌, not, ◌==◌, leb, ltb, if◌then◌else◌, List,
  [], ◌∷◌, ◌++◌, Option, none, some,
}
use wasigoc.Common.{length, get_elem?, take, drop}
use wasigoc.Common.Outcome.{Outcome, ok, err, panic, ◌>>=◌}
use wasigoc.Regexp.{Node}
use wasigoc.Regexp.Match.{match_node}

-- `s[low:high]`
unfoldable pub slice : List ℕ → ℕ → ℕ → Outcome (List ℕ)
slice s low high =
    if leb low high && leb high (length s) then ok (take (high - low) (drop low s)) else panic

abbrev pub found_or : ℕ → Option ℕ → Option (ℕ × ℕ) → Option (ℕ × ℕ)
found_or i (some e) later = some (i, e)
found_or i none later = later

-- The loop of findAt from `i`, where the continuation keeps the end of the match.
pub find_loop : Node → List ℕ → ℕ → ℕ → Option (ℕ × ℕ)
find_loop root s zero i = none
find_loop root s (suc fuel) i =
    let later = find_loop root s fuel (i + 1) in
    if leb i (length s) then found_or i (match_node root s i (λ p2. some p2)) later else none

pub find_at : Node → List ℕ → ℕ → Option (ℕ × ℕ)
find_at root s start = find_loop root s (length s + 1 - start) start

abbrev pub is_found : Option (ℕ × ℕ) → Bool
is_found none = false
is_found (some span) = true

pub match_string : Node → List ℕ → Bool
match_string root s = is_found (find_at root s 0)

abbrev pub text_of : List ℕ → Option (ℕ × ℕ) → Outcome (List ℕ)
text_of s none = ok []
text_of s (some (from, to)) = slice s from to

pub find_string : Node → List ℕ → Outcome (List ℕ)
find_string root s = text_of s (find_at root s 0)

abbrev pub index_of : Option (ℕ × ℕ) → List ℕ
index_of none = []
index_of (some (from, to)) = from ∷ to ∷ []

pub find_string_index : Node → List ℕ → List ℕ
find_string_index root s = index_of (find_at root s 0)

-- `if end == start { pos = end + 1 } else { pos = end }`
abbrev pub behind : ℕ → ℕ → ℕ
behind from to = if to == from then to + 1 else to

-- `n >= 0 && len(out) >= n`, where `none` stands for a negative n.
abbrev pub has_all : Option ℕ → ℕ → Bool
has_all none count = false
has_all (some n) count = leb n count

abbrev pub on_span {ℓ} : {A : Type ℓ} → Option (ℕ × ℕ) → Outcome A → (ℕ → ℕ → Outcome A) → Outcome A
on_span none missing f = missing
on_span (some (from, to)) missing f = f from to

pub find_all_loop : Node → List ℕ → Option ℕ → ℕ → ℕ → List (List ℕ) → Outcome (List (List ℕ))
find_all_loop root s n zero pos out = err "no fuel"
find_all_loop root s n (suc fuel) pos out =
    if not (leb pos (length s)) || has_all n (length out)
    then ok out
    else on_span (find_at root s pos) (ok out) λ from to.
      slice s from to >>= λ piece. find_all_loop root s n fuel (behind from to) (out ++ piece ∷ [])

pub find_all_string : Node → List ℕ → Option ℕ → Outcome (List (List ℕ))
find_all_string root s n = find_all_loop root s n (length s + 2) 0 []

-- `if end == start { if start < len(s) { out = append(out, s[start]) } }`
abbrev pub skipped : List ℕ → ℕ → ℕ → List ℕ
skipped s from to = if to == from then take 1 (drop from s) else []

pub replace_loop : Node → List ℕ → List ℕ → ℕ → ℕ → List ℕ → Outcome (List ℕ)
replace_loop root s repl zero pos out = err "no fuel"
replace_loop root s repl (suc fuel) pos out =
    if not (leb pos (length s))
    then ok out
    else on_span (find_at root s pos) (slice s pos (length s) >>= λ rest. ok (out ++ rest))
        λ from to. slice s pos from >>= λ kept.
          replace_loop root s repl fuel (behind from to)
            (((out ++ kept) ++ repl) ++ skipped s from to)

pub replace_all_string : Node → List ℕ → List ℕ → Outcome (List ℕ)
replace_all_string root s repl = replace_loop root s repl (length s + 2) 0 []

-- `n >= 0 && len(out) >= n-1`
abbrev pub has_split : Option ℕ → ℕ → Bool
has_split none count = false
has_split (some n) count = leb n (count + 1)

-- `out = append(out, s[pos:])`
abbrev pub split_rest : List ℕ → ℕ → List (List ℕ) → Outcome (List (List ℕ))
split_rest s pos out = slice s pos (length s) >>= λ rest. ok (out ++ rest ∷ [])

pub split_loop : Node → List ℕ → Option ℕ → ℕ → ℕ → List (List ℕ) → Outcome (List (List ℕ))
split_loop root s n zero pos out = err "no fuel"
split_loop root s n (suc fuel) pos out =
    if not (leb pos (length s)) || has_split n (length out)
    then split_rest s pos out
    else on_span (find_at root s pos) (split_rest s pos out) λ from to.
      if leb (length s) from || to == from
      then split_rest s pos out
      else (slice s pos from >>= λ piece. split_loop root s n fuel to (out ++ piece ∷ []))

pub split : Node → List ℕ → Option ℕ → Outcome (List (List ℕ))
split root s n = split_loop root s n (length s + 2) 0 []
