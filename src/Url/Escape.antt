-- ===== src/Url/Escape.antt =====
-- QueryEscape, PathEscape and what undoes them.
pub mod RoundTrip
use wasigoc.Common.{
  ℕ, zero, suc, ◌+◌, ◌-◌, ◌*◌, ◌/◌, ◌%◌, ◌^◌, List, [], ◌∷◌, ◌++◌, Bool, true, false, Option, none,
  some,
}
use wasigoc.Common.{
  ◌==◌, ltb, leb, ◌&&◌, ◌||◌, if◌then◌else◌, length, get_or, codes, bit_and, bit_or, String,
}
use wasigoc.Common.Outcome.{Outcome, ok, err, panic, ◌>>=◌, or_panic}
use wasigoc.Common.Slices.{load}
use wasigoc.Common.Bits.{u8}

pub is_unreserved : ℕ → Bool
is_unreserved c =
    if leb 65 c && leb c 90
    then true
    else if leb 97 c && leb c 122
    then true
    else if leb 48 c && leb c 57
    then true
    else c == 45 || c == 95 || c == 46 || c == 126

abbrev pub hex_digits : List ℕ
hex_digits = codes "0123456789ABCDEF"

-- The three bytes that stand for one.
pub percent : ℕ → List ℕ
percent c = 37 ∷ get_or hex_digits (c / 2 ^ 4) 0 ∷ get_or hex_digits (bit_and c 15) 0 ∷ []

pub query_byte : ℕ → List ℕ
query_byte c = if is_unreserved c then c ∷ [] else if c == 32 then 43 ∷ [] else percent c

pub query_escape_loop : List ℕ → List ℕ → List ℕ
query_escape_loop out [] = out
query_escape_loop out (c ∷ s) = query_escape_loop (out ++ query_byte c) s

pub query_escape : List ℕ → List ℕ
query_escape s = query_escape_loop [] s

pub path_byte : ℕ → List ℕ
path_byte c = if is_unreserved c || c == 47 then c ∷ [] else percent c

pub path_escape_loop : List ℕ → List ℕ → List ℕ
path_escape_loop out [] = out
path_escape_loop out (c ∷ s) = path_escape_loop (out ++ path_byte c) s

pub path_escape : List ℕ → List ℕ
path_escape s = path_escape_loop [] s

pub hex_val : ℕ → Option ℕ
hex_val c =
    if leb 48 c && leb c 57
    then some (c - 48)
    else if leb 97 c && leb c 102
    then some (c - 97 + 10)
    else if leb 65 c && leb c 70
    then some (c - 65 + 10)
    else none

abbrev pub invalid_escape : String
invalid_escape = "invalid URL escape"

-- `byte(hi<<4|lo)`, if both are digits.
pub join_digits : Option ℕ → Option ℕ → Option ℕ
join_digits (some hi) (some lo) = some (u8 (bit_or (hi * 2 ^ 4) lo))
join_digits (some hi) none = none
join_digits none lo = none

-- The loop over the bytes that are left; `plus` says whether `+` stands for a space.
pub unescape_loop : Bool → List ℕ → List ℕ → Outcome (List ℕ)
unescape_loop plus out [] = ok out
unescape_loop plus out (c ∷ []) =
    if plus && c == 43
    then ok (out ++ 32 ∷ [])
    else if c == 37
    then err invalid_escape
    else ok (out ++ c ∷ [])
unescape_loop plus out (c ∷ h ∷ []) =
    let later = unescape_loop plus (out ++ (if plus && c == 43 then 32 else c) ∷ []) (h ∷ []) in
    if plus && c == 43 then later else if c == 37 then err invalid_escape else later
unescape_loop plus out (c ∷ h ∷ l ∷ s) =
    let later = unescape_loop plus (out ++ (if plus && c == 43 then 32 else c) ∷ []) (h ∷ l ∷ s) in
    let escaped : Outcome (List ℕ) = elim (join_digits (hex_val h) (hex_val l)) [
      | none ↦ err invalid_escape
      | some b ↦ unescape_loop plus (out ++ b ∷ []) s
    ] in
    if plus && c == 43 then later else if c == 37 then escaped else later

pub query_unescape : List ℕ → Outcome (List ℕ)
query_unescape s = unescape_loop true [] s

pub path_unescape : List ℕ → Outcome (List ℕ)
path_unescape s = unescape_loop false [] s
