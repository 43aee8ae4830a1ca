-- ===== src/Regexp/Match.antt =====
-- The matcher. A continuation returns where the whole match ends, which the closure of findAt stores
-- when it returns true; `none` is the result false.
pub mod Meaning
pub mod Sound
pub mod Complete
use wasigoc.Common.{
  ℕ, zero, suc, ◌+◌, Bool, true, false, not, ◌==◌, leb, ltb, ◌&&◌, if◌then◌else◌, List, [], ◌∷◌,
  Option, none, some,
}
use wasigoc.Common.{length, get_elem?}
use wasigoc.Regexp.{
  ClassRange, Node, char, any, class, star, plus, quest, concat, alt, group, start, end_, Nodes,
  nil, cons,
}

abbrev pub Cont : Type 0
Cont = ℕ → Option ℕ

pub in_ranges : List ClassRange → ℕ → Bool
in_ranges [] c = false
in_ranges (r ∷ ranges) c = if leb r.lo c && leb c r.hi then true else in_ranges ranges c

pub class_matches : Bool → List ClassRange → ℕ → Bool
class_matches negate ranges c = if negate then not (in_ranges ranges c) else in_ranges ranges c

-- `if pos < len(s) && s[pos] ... { return cont(pos + 1) }; return false`
pub step_at : (ℕ → Bool) → Option ℕ → ℕ → Cont → Option ℕ
step_at test none pos cont = none
step_at test (some c) pos cont = if test c then cont (pos + 1) else none

pub step : (ℕ → Bool) → List ℕ → ℕ → Cont → Option ℕ
step test s pos cont = step_at test (get_elem? s pos) pos cont

-- `if m { return true }; return ...`
abbrev pub or_else : Option ℕ → Option ℕ → Option ℕ
or_else none later = later
or_else (some e) later = some e

-- matchStar on fuel, where `m` matches the node that is repeated.
pub match_star : (ℕ → Cont → Option ℕ) → ℕ → ℕ → Cont → Option ℕ
match_star m zero pos cont = none
match_star m (suc fuel) pos cont =
    or_else (m pos λ p2. let again = match_star m fuel p2 cont in if p2 == pos then none else again)
      (cont pos)

pub at_place : ℕ → ℕ → Cont → Option ℕ
at_place place pos cont = if pos == place then cont pos else none

-- A repetition goes on behind a match that is not empty: `length s` rounds and one more are enough.
mutual
  pub match_node : Node → List ℕ → ℕ → Cont → Option ℕ
  match_node (char c) s pos cont = step (λ b. b == c) s pos cont
  match_node any s pos cont = step (λ b. not (b == 10)) s pos cont
  match_node (class negate ranges) s pos cont = step (class_matches negate ranges) s pos cont
  match_node start s pos cont = at_place 0 pos cont
  match_node end_ s pos cont = at_place (length s) pos cont
  match_node (group n) s pos cont = match_node n s pos cont
  match_node (concat ns) s pos cont = match_concat ns s pos cont
  match_node (alt ns) s pos cont = match_alt ns s pos cont
  match_node (quest n) s pos cont = or_else (match_node n s pos cont) (cont pos)
  match_node (star n) s pos cont = match_star (match_node n s) (length s + 1) pos cont
  match_node (plus n) s pos cont =
      match_node n s pos λ p2. match_star (match_node n s) (length s + 1) p2 cont

  pub match_concat : Nodes → List ℕ → ℕ → Cont → Option ℕ
  match_concat nil s pos cont = cont pos
  match_concat (cons n ns) s pos cont = match_node n s pos λ p2. match_concat ns s p2 cont

  pub match_alt : Nodes → List ℕ → ℕ → Cont → Option ℕ
  match_alt nil s pos cont = none
  match_alt (cons n ns) s pos cont = or_else (match_node n s pos cont) (match_alt ns s pos cont)
