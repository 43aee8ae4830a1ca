-- ===== src/Url/Parse/RoundTrip.antt =====
-- Parse reads back what String writes.
use mathlib.Core.List.{append_assoc, append-nil}
use wasigoc.Common.{
  ℕ, ◌≡◌, refl, sym, ap, ◌∙◌, arith, List, [], ◌∷◌, ◌++◌, true, false, Option, none, some,
}
use wasigoc.Common.{
  ◌==◌, leb, All, All-append, length, drop, codes, take-length_append, drop-length_append,
  length-append,
}
use wasigoc.Text.Find.{same_text, same_text_iff}
use wasigoc.Url.Parse.{
  Url, starts_with, split_loop, split_once, part, host_path, cut_scheme, parse, marked, origin,
  string,
}

-- None of the bytes is `c`.
abbrev Avoids : ℕ → List ℕ → Type 0
Avoids c s = All (λ b. (b == c) ≡ false) s

starts_with-append : (sep rest : List ℕ) → starts_with (sep ++ rest) sep ≡ true
unfolding starts_with
starts_with-append sep rest =
    let fits : leb (length sep) (length (sep ++ rest)) ≡ true =
      ground (arith, length-append sep rest) in
    rw fits ((same_text_iff _ _).1 (take-length_append sep rest))

starts_with_other :
    (b c : ℕ) (s sep : List ℕ) → (b == c) ≡ false → starts_with (b ∷ s) (c ∷ sep) ≡ false
unfolding starts_with same_text
starts_with_other b c s sep e = ground (arith, e)

starts_with_nil : (c : ℕ) (sep : List ℕ) → starts_with [] (c ∷ sep) ≡ false
unfolding starts_with
starts_with_nil c sep = ground arith

-- The first separator is the one behind a part without its first byte.
split_loop-found :
    (before p : List ℕ) (c : ℕ) (sep rest : List ℕ)
    → Avoids c p
    → split_loop before (p ++ ((c ∷ sep) ++ rest)) (c ∷ sep) ≡ some (before ++ p, rest)
unfolding split_loop
split_loop-found before [] c sep rest h = rw (starts_with-append (c ∷ sep) rest) (
    ap some (
      ap (λ b. (b, drop (length sep) (sep ++ rest))) (sym (append-nil before))
      ∙ ap (λ r. (before ++ [], r)) (drop-length_append sep rest)))
split_loop-found before (b ∷ p) c sep rest h =
    rw (starts_with_other b c (p ++ ((c ∷ sep) ++ rest)) sep (h.0)) (
      split_loop-found (before ++ b ∷ []) p c sep rest (h.1)
      ∙ ap (λ t. some (t, rest)) (append_assoc before (b ∷ []) p))

split_loop-none :
    (before p : List ℕ) (c : ℕ) (sep : List ℕ) → Avoids c p → split_loop before p (c ∷ sep) ≡ none
unfolding split_loop
split_loop-none before [] c sep h = rw (starts_with_nil c sep) refl
split_loop-none before (b ∷ p) c sep h =
    rw (starts_with_other b c p sep (h.0)) (split_loop-none (before ++ b ∷ []) p c sep (h.1))

-- A text that may have a mark behind it.
part-marked :
    (p s : List ℕ) (mark : ℕ)
    → Avoids mark p
    → part (split_once (p ++ marked mark s) (mark ∷ [])) (p ++ marked mark s) ≡ (p, s)
unfolding split_once marked part
part-marked p [] mark h = rw (append-nil p) (rw (split_loop-none [] p mark [] h, part) refl)
part-marked p (c ∷ s) mark h = rw (split_loop-found [] p mark [] (c ∷ s) h, part) refl

-- A path is empty or starts with a slash.
abbrev pub rooted : Option (List ℕ) → List ℕ
rooted none = []
rooted (some path) = 47 ∷ path

host_path-rooted :
    (host : List ℕ) (path : Option (List ℕ))
    → Avoids 47 host
    → host_path (split_once (host ++ rooted path) (47 ∷ [])) (host ++ rooted path)
      ≡ (host, rooted path)
unfolding split_once host_path
host_path-rooted host none h =
    rw (append-nil host) (rw (split_loop-none [] host 47 [] h, host_path) refl)
host_path-rooted host (some path) h = rw (split_loop-found [] host 47 [] path h, host_path) refl

-- The parts of a URL with a scheme: no part has a byte that ends it.
pub record IsUrl (scheme host : List ℕ) (path : Option (List ℕ)) (query : List ℕ) : Type 0 where
  pub scheme_ends : Avoids 58 scheme
  pub host_ends : Avoids 47 host × Avoids 63 host × Avoids 35 host
  pub path_ends : Avoids 63 (rooted path) × Avoids 35 (rooted path)
  pub query_ends : Avoids 35 query

marked-Avoids :
    (c mark : ℕ) (s : List ℕ) → (mark == c) ≡ false → Avoids c s → Avoids c (marked mark s)
unfolding marked
marked-Avoids c mark [] e h = tt
marked-Avoids c mark (b ∷ s) e h = (e, h)

-- Parse reads back what String writes: for every URL with a scheme, a path that is empty or starts
-- with a slash, and parts without the bytes that end them.
pub parse-string :
    (b : ℕ) (scheme host : List ℕ) (path : Option (List ℕ)) (query fragment : List ℕ)
    → IsUrl (b ∷ scheme) host path query
    → let u : Url = record {
      scheme = b ∷ scheme;
      host = host;
      path = rooted path;
      raw_query = query;
      fragment = fragment;
    } in
      parse (string u) ≡ u
unfolding parse string origin cut_scheme
parse-string b scheme host path query fragment h =
    let hp = host ++ rooted path in
    let hpq = hp ++ marked 63 query in
    let (host_slash, host_mark, host_hash) = h.host_ends in
    let hash : Avoids 35 hpq =
      All-append (λ k. (k == 35) ≡ false) hp (marked 63 query)
        (All-append (λ k. (k == 35) ≡ false) host (rooted path) host_hash (h.path_ends.1))
        (marked-Avoids 35 63 query refl (h.query_ends)) in
    let mark : Avoids 63 hp =
      All-append (λ k. (k == 63) ≡ false) host (rooted path) host_mark (h.path_ends.0) in
    let origin' = (b ∷ scheme) ++ codes "://" in
    let rest = hpq ++ marked 35 fragment in
    let regroup : (((origin' ++ host) ++ rooted path) ++ marked 63 query) ++ marked 35 fragment
        ≡ origin' ++ rest =
      simp append_assoc in
    let found : split_once (origin' ++ rest) (codes "://") ≡ some (b ∷ scheme, rest) =
      unfold split_once in
      ap (λ t. split_loop [] t (codes "://")) (append_assoc (b ∷ scheme) (codes "://") rest)
      ∙ split_loop-found [] (b ∷ scheme) 58 (codes "//") rest (h.scheme_ends) in
    let some_scheme : (length (b ∷ scheme) == 0) ≡ false = ground arith in
    ap parse regroup
    ∙ rw
        (
          found,
          part-marked hpq fragment 35 hash,
          part-marked hp query 63 mark,
          host_path-rooted host path host_slash,
          some_scheme,
          cut_scheme,
        )
        refl
