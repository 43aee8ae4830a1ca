-- ===== src/Url/Parse.antt =====
-- Parse, String and ParseQuery. A map is the list of its pairs, the last one set first.
pub mod RoundTrip
use wasigoc.Common.{
  ℕ, zero, suc, ◌+◌, ◌-◌, List, [], ◌∷◌, ◌++◌, Bool, true, false, Option, none, some,
}
use wasigoc.Common.{◌==◌, leb, ◌&&◌, if◌then◌else◌, length, take, drop, codes, String}
use wasigoc.Common.Outcome.{Outcome, ok, err, panic, ◌>>=◌}
use wasigoc.Text.Find.{same_text}
use wasigoc.Url.Escape.{query_unescape}

pub record Url : Type 0 where
  pub scheme : List ℕ
  pub host : List ℕ
  pub path : List ℕ
  pub raw_query : List ℕ
  pub fragment : List ℕ

-- `i+len(sep) <= len(s)` and `s[i:i+len(sep)] == sep` at the bytes from `i` on
pub starts_with : List ℕ → List ℕ → Bool
starts_with s sep = leb (length sep) (length s) && same_text (take (length sep) s) sep

-- The loop of splitOnce at the bytes that are left, with those before.
pub split_loop : List ℕ → List ℕ → List ℕ → Option (List ℕ × List ℕ)
split_loop before [] sep = if starts_with [] sep then some (before, []) else none
split_loop before (c ∷ s) sep =
    let later = split_loop (before ++ c ∷ []) s sep in
    if starts_with (c ∷ s) sep then some (before, drop (length sep) (c ∷ s)) else later

-- `none` is the result `s, "", false`.
pub split_once : List ℕ → List ℕ → Option (List ℕ × List ℕ)
split_once s sep = split_loop [] s sep

-- The part before a separator and the part after it; without one, all and nothing.
pub part : Option (List ℕ × List ℕ) → List ℕ → List ℕ × List ℕ
part none s = (s, [])
part (some (before, after)) s = (before, after)

-- With a scheme what is left is a host and a path that starts with a slash.
pub host_path : Option (List ℕ × List ℕ) → List ℕ → List ℕ × List ℕ
host_path none rest = (rest, [])
host_path (some (host, after)) rest = (host, 47 ∷ after)

-- The scheme and the rest.
pub cut_scheme : Option (List ℕ × List ℕ) → List ℕ → List ℕ × List ℕ
cut_scheme none raw = ([], raw)
cut_scheme (some (scheme, after)) raw = (scheme, after)

pub parse : List ℕ → Url
parse raw =
    let (scheme, rest) = cut_scheme (split_once raw (codes "://")) raw in
    let (rest1, fragment) = part (split_once rest (codes "#")) rest in
    let (rest2, query) = part (split_once rest1 (codes "?")) rest1 in
    let (host, path) = host_path (split_once rest2 (codes "/")) rest2 in
    if length scheme == 0
    then record { scheme = []; host = []; path = rest2; raw_query = query; fragment = fragment }
    else record {
      scheme = scheme;
      host = host;
      path = path;
      raw_query = query;
      fragment = fragment;
    }

-- `if s != "" { out = out + mark + s }`
pub marked : ℕ → List ℕ → List ℕ
marked mark [] = []
marked mark (c ∷ s) = mark ∷ c ∷ s

pub origin : List ℕ → List ℕ → List ℕ
origin [] host = []
origin (c ∷ scheme) host = ((c ∷ scheme) ++ codes "://") ++ host

pub string : Url → List ℕ
string u = ((origin u.scheme u.host ++ u.path) ++ marked 63 u.raw_query) ++ marked 35 u.fragment

-- The end of the pair that starts the text: the bytes before the next `&`.
pub pair_end : List ℕ → ℕ
pair_end [] = 0
pair_end (c ∷ s) = if c == 38 then 0 else suc (pair_end s)

-- One pair: its key and its value, each unescaped.
pub parse_pair : List ℕ → Outcome (List ℕ × List ℕ)
parse_pair pair =
    let (key, val) = part (split_once pair (codes "=")) pair in
    query_unescape key >>= λ k. query_unescape val >>= λ v. ok (k, v)

-- What a pair adds to the map, or the text of its error; an empty pair adds nothing.
pub add_pair : List (List ℕ × List ℕ) → List ℕ → List (List ℕ × List ℕ) × Option String
add_pair out [] = (out, none)
add_pair out (c ∷ pair) = elim (parse_pair (c ∷ pair)) [
  | ok kv ↦ (kv ∷ out, none)
  | err e ↦ (out, some e)
  | panic ↦ (out, none)
]

-- The loop of ParseQuery on fuel; an error stops it with the pairs so far.
pub query_loop : ℕ → List (List ℕ × List ℕ) → List ℕ → List (List ℕ × List ℕ) × Option String
query_loop zero out rest = (out, none)
query_loop (suc fuel) out rest =
    let n = pair_end rest in
    let (out', error) = add_pair out (take n rest) in
    elim error [
      | some e ↦ (out', some e)
      | none ↦ elim (drop n rest) [ [] ↦ (out', none) | c ∷ s ↦ query_loop fuel out' s ]
    ]

pub parse_query : List ℕ → List (List ℕ × List ℕ) × Option String
parse_query raw = if length raw == 0 then ([], none) else query_loop (length raw + 1) [] raw
