-- ===== src/Regexp/Parse.antt =====
-- The parser of patterns: a function gets the place in the pattern and returns the node with the place
-- behind it. A parser call never panics, so that `panic` stands for a model that ran out of fuel.
pub mod Ends
use wasigoc.Common.{
  ℕ, zero, suc, ◌+◌, ◌-◌, ◌*◌, Bool, true, false, not, ◌&&◌, ◌||◌, ◌==◌, ltb, leb, if◌then◌else◌,
  List, [], ◌∷◌, ◌++◌,
}
use wasigoc.Common.{length, get_or}
use wasigoc.Common.Outcome.{Outcome, ok, err, panic, ◌>>=◌}
use wasigoc.Regexp.{
  ClassRange, Node, char, any, class, star, plus, quest, concat, alt, group, start, end_, Nodes,
  nil, cons,
}
use wasigoc.Regexp.Find.{match_string}

unfoldable pub peek : List ℕ → ℕ → ℕ
peek s pos = get_or s pos 0

abbrev range : ℕ → ℕ → ClassRange
range lo hi = record { lo = lo; hi = hi }

abbrev digit_class : List ClassRange
digit_class = range 48 57 ∷ []

abbrev word_class : List ClassRange
word_class = range 48 57 ∷ range 65 90 ∷ range 97 122 ∷ range 95 95 ∷ []

abbrev space_class : List ClassRange
space_class = range 32 32 ∷ range 9 9 ∷ range 10 10 ∷ range 13 13 ∷ range 12 12 ∷ range 11 11 ∷ []

pub escape_node : ℕ → Node
escape_node e =
    if e == 100
    then class false digit_class
    else if e == 68
    then class true digit_class
    else if e == 119
    then class false word_class
    else if e == 87
    then class true word_class
    else if e == 115
    then class false space_class
    else if e == 83
    then class true space_class
    else if e == 110
    then char 10
    else if e == 116
    then char 9
    else if e == 114
    then char 13
    else char e

pub class_escape_byte : ℕ → ℕ
class_escape_byte e = if e == 110 then 10 else if e == 116 then 9 else if e == 114 then 13 else e

-- A byte of a class at `pos`, escaped or not, and the place behind it.
unfoldable pub class_byte : List ℕ → ℕ → ℕ × ℕ
class_byte s pos =
    if peek s pos == 92
    then (class_escape_byte (peek s (pos + 1)), pos + 2)
    else (peek s pos, pos + 1)

abbrev has_dash : List ℕ → ℕ → Bool
has_dash s pos = (peek s pos == 45) && ltb (pos + 1) (length s) && not (peek s (pos + 1) == 93)

-- A byte or a range of bytes at `pos`, and the place behind it.
unfoldable pub class_item : List ℕ → ℕ → ClassRange × ℕ
class_item s pos =
    let lo : ℕ × ℕ = class_byte s pos in
    let hi : ℕ × ℕ = class_byte s (lo.1 + 1) in
    if has_dash s (lo.1) then (range (lo.0) (hi.0), hi.1) else (range (lo.0) (lo.0), lo.1)

pub class_loop : List ℕ → ℕ → ℕ → Bool → List ClassRange → Outcome (List ClassRange × ℕ)
class_loop s zero pos first ranges = panic
class_loop s (suc fuel) pos first ranges =
    let item : ClassRange × ℕ = class_item s pos in
    let rest = class_loop s fuel (item.1) false (ranges ++ item.0 ∷ []) in
    if ltb pos (length s) && (not (peek s pos == 93) || first) then rest else ok (ranges, pos)

abbrev close_class : List ℕ → Bool → List ClassRange × ℕ → Outcome (Node × ℕ)
close_class s neg (ranges, pos) =
    if peek s pos == 93 then ok (class neg ranges, pos + 1) else err "regexp: missing closing ]"

pub parse_class : List ℕ → ℕ → Outcome (Node × ℕ)
parse_class s pos =
    let neg = peek s (pos + 1) == 94 in
    class_loop s (length s + 1) (if neg then pos + 2 else pos + 1) true [] >>= close_class s neg

abbrev pub is_repetition : ℕ → Bool
is_repetition c = (c == 42) || (c == 43) || (c == 63)

abbrev pub repeated : ℕ → Node → Node
repeated c a = if c == 42 then star a else if c == 43 then plus a else quest a

-- The loop over `*`, `+` and `?` behind an atom.
pub repeat_loop : List ℕ → ℕ → ℕ → Node → Outcome (Node × ℕ)
repeat_loop s zero pos a = panic
repeat_loop s (suc fuel) pos a =
    let rest = repeat_loop s fuel (pos + 1) (repeated (peek s pos) a) in
    if is_repetition (peek s pos) then rest else ok (a, pos)

-- `(?:` opens a group as `(` does.
unfoldable pub group_start : List ℕ → ℕ → ℕ
group_start s pos =
    if ltb (pos + 1) (length s) && (peek s pos == 63) && (peek s (pos + 1) == 58)
    then pos + 2
    else pos

abbrev pub close_group : List ℕ → Node × ℕ → Outcome (Node × ℕ)
close_group s (n, pos) =
    if peek s pos == 41 then ok (group n, pos + 1) else err "regexp: missing closing )"

-- parseAtom, with parseAlt as a parameter.
unfoldable pub parse_atom : List ℕ → (ℕ → Outcome (Node × ℕ)) → ℕ → Outcome (Node × ℕ)
parse_atom s alternatives pos =
    let c = peek s pos in
    if c == 40
    then (alternatives (group_start s (pos + 1)) >>= close_group s)
    else if c == 46
    then ok (any, pos + 1)
    else if c == 94
    then ok (start, pos + 1)
    else if c == 36
    then ok (end_, pos + 1)
    else if c == 91
    then parse_class s pos
    else if c == 92
    then ok (escape_node (peek s (pos + 1)), pos + 2)
    else if c == 0
    then err "regexp: unexpected end of pattern"
    else ok (char c, pos + 1)

unfoldable pub parse_repeat : List ℕ → (ℕ → Outcome (Node × ℕ)) → ℕ → Outcome (Node × ℕ)
parse_repeat s alternatives pos =
    parse_atom s alternatives pos >>= λ (a, behind). repeat_loop s (length s + 1) behind a

abbrev nodes_of : List Node → Nodes
nodes_of [] = nil
nodes_of (n ∷ ns) = cons n (nodes_of ns)

-- One node stands for itself, others for a node of the kind.
abbrev only_or : (Nodes → Node) → List Node → Node
only_or kind [] = kind nil
only_or kind (n ∷ []) = n
only_or kind (n ∷ m ∷ ns) = kind (nodes_of (n ∷ m ∷ ns))

abbrev pub in_concat : List ℕ → ℕ → Bool
in_concat s pos = ltb pos (length s) && not (peek s pos == 124) && not (peek s pos == 41)

mutual
  pub parse_alt : List ℕ → ℕ → ℕ → Outcome (Node × ℕ)
  parse_alt s zero pos = panic
  parse_alt s (suc fuel) pos = parse_concat s fuel pos >>= λ (first, behind).
      alt_loop s fuel behind (first ∷ []) >>= λ (alts, last). ok (only_or alt alts, last)

  pub alt_loop : List ℕ → ℕ → ℕ → List Node → Outcome (List Node × ℕ)
  alt_loop s zero pos alts = panic
  alt_loop s (suc fuel) pos alts = elim (peek s pos == 124) [
    | true ↦
        parse_concat s fuel (pos + 1) >>= λ (n, behind). alt_loop s fuel behind (alts ++ n ∷ [])
    | false ↦ ok (alts, pos)
  ]

  pub parse_concat : List ℕ → ℕ → ℕ → Outcome (Node × ℕ)
  parse_concat s zero pos = panic
  parse_concat s (suc fuel) pos =
      concat_loop s fuel pos [] >>= λ (parts, behind). ok (only_or concat parts, behind)

  pub concat_loop : List ℕ → ℕ → ℕ → List Node → Outcome (List Node × ℕ)
  concat_loop s zero pos parts = panic
  concat_loop s (suc fuel) pos parts = elim (in_concat s pos) [
    | true ↦ parse_repeat s (λ p. parse_alt s fuel p) pos >>= λ (n, behind).
        concat_loop s fuel behind (parts ++ n ∷ [])
    | false ↦ ok (parts, pos)
  ]

abbrev pub whole : List ℕ → Node × ℕ → Outcome Node
whole s (n, pos) = if pos == length s then ok n else err "regexp: unexpected character in pattern"

-- Three calls at most stand between two bytes of the pattern.
pub compile : List ℕ → Outcome Node
compile pattern = parse_alt pattern (3 * length pattern + 3) 0 >>= whole pattern

-- The error becomes a panic.
abbrev pub must {ℓ} : {A : Type ℓ} → Outcome A → Outcome A
must (ok a) = ok a
must (err e) = panic
must panic = panic

pub must_compile : List ℕ → Outcome Node
must_compile pattern = must (compile pattern)

pub match : List ℕ → List ℕ → Outcome Bool
match pattern s = compile pattern >>= λ re. ok (match_string re s)
