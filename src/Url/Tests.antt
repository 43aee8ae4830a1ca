-- ===== src/Url/Tests.antt =====
-- A query and a URL at concrete inputs.
use wasigoc.Common.{ℕ, ◌≡◌, refl, arith, List, [], ◌∷◌, ◌++◌, All, some, codes}
use wasigoc.Common.Outcome.{ok}
use wasigoc.Url.Escape.{query_escape, path_escape, query_unescape, path_unescape}
use wasigoc.Common.Bits.{IsByte}
use wasigoc.Url.Escape.RoundTrip.{unescape-escape}
use wasigoc.Url.Parse.{Url, parse, string}
use wasigoc.Url.Parse.RoundTrip.{IsUrl, parse-string}

abbrev text : List ℕ
text = codes "a b/c%~" ++ 255 ∷ []

abbrev bytes : All IsByte text
bytes = (
  omega arith,
  (
    omega arith,
    (omega arith, (omega arith, (omega arith, (omega arith, (omega arith, (omega arith, tt)))))),
  ),
)

unescape-escape_example :
    (query_unescape (query_escape text) ≡ ok text) × (path_unescape (path_escape text) ≡ ok text)
unescape-escape_example = unescape-escape text bytes

abbrev address : Url
address = record {
  scheme = codes "http";
  host = codes "go.dev";
  path = codes "/a/b";
  raw_query = codes "q=1?";
  fragment = codes "top#";
}

address-IsUrl : IsUrl (codes "http") (codes "go.dev") (some (codes "a/b")) (codes "q=1?")
address-IsUrl = record {
  scheme_ends = (refl, (refl, (refl, (refl, tt))));
  host_ends = (
    (refl, (refl, (refl, (refl, (refl, (refl, tt)))))),
    (refl, (refl, (refl, (refl, (refl, (refl, tt)))))),
    (refl, (refl, (refl, (refl, (refl, (refl, tt)))))),
  );
  path_ends = ((refl, (refl, (refl, (refl, tt)))), (refl, (refl, (refl, (refl, tt)))));
  query_ends = (refl, (refl, (refl, (refl, tt))));
}

parse-string_example : parse (string address) ≡ address
parse-string_example =
    parse-string 104 (codes "ttp") (codes "go.dev") (some (codes "a/b")) (codes "q=1?")
      (codes "top#") address-IsUrl
