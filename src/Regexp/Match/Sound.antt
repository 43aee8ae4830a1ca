-- ===== src/Regexp/Match/Sound.antt =====
-- What the matcher finds is a match.
use wasigoc.Common.{
  ℕ, zero, suc, ◌+◌, ◌≡◌, refl, ap, ◌∙◌, arith, Bool, true, false, not, ◌==◌, ◌⊎◌, if◌then◌else◌,
  List, Option, none, some,
}
use wasigoc.Common.{length, get_elem?, inl, inr}
use wasigoc.Regexp.{
  Node, char, any, class, star, plus, quest, concat, alt, group, start, end_, Nodes, nil, cons,
}
use wasigoc.Regexp.Match.{
  Cont, class_matches, step_at, step, or_else, match_star, at_place, match_node, match_concat,
  match_alt,
}
use wasigoc.Regexp.Match.Meaning.{
  HasByte, Matches, one_char, one_any, one_class, at_start, at_end, grouped, all_of, one_of, absent,
  present, no_more, once_more, at_least_once, MatchesAll, all_done, all_next, MatchesOne, this_one,
  later_one,
}

-- The end comes from the continuation, behind a match.
abbrev pub Found : (ℕ → ℕ → Type 0) → ℕ → Cont → ℕ → Type 0
Found P pos cont e = (p : ℕ) × P pos p × (cont p ≡ some e)

if_some :
    (b : Bool) (x : Option ℕ) (e : ℕ) → (if b then x else none) ≡ some e → (b ≡ true) × (x ≡ some e)
if_some true x e h = (refl, h)
if_some false x e h = cc

unless_some : (b : Bool) (x : Option ℕ) (e : ℕ) → (if b then none else x) ≡ some e → x ≡ some e
unless_some true x e h = cc
unless_some false x e h = h

step_at-Found :
    (test : ℕ → Bool) (byte : Option ℕ) (pos : ℕ) (cont : Cont) (e : ℕ)
    → step_at test byte pos cont ≡ some e
    → ((b : ℕ) × (byte ≡ some b) × (test b ≡ true)) × (cont (suc pos) ≡ some e)
unfolding step_at
step_at-Found test none pos cont e h = cc
step_at-Found test (some b) pos cont e h =
    let (yes_test, rest) = if_some (test b) (cont (pos + 1)) e h in
    let next : suc pos ≡ pos + 1 = omega arith in ((b, refl, yes_test), ap cont next ∙ rest)

step-Found :
    (test : ℕ → Bool) (s : List ℕ) (pos : ℕ) (cont : Cont) (e : ℕ)
    → step test s pos cont ≡ some e
    → HasByte test s pos × (cont (suc pos) ≡ some e)
unfolding step
step-Found test s pos cont e h = step_at-Found test (get_elem? s pos) pos cont e h

at_place-Found :
    (place pos : ℕ) (cont : Cont) (e : ℕ)
    → at_place place pos cont ≡ some e
    → (pos ≡ place) × (cont pos ≡ some e)
unfolding at_place
at_place-Found place pos cont e h = ground (arith, h)

or_else-cases : (a b : Option ℕ) (e : ℕ) → or_else a b ≡ some e → (a ≡ some e) ⊎ (b ≡ some e)
or_else-cases none b e h = inr h
or_else-cases (some x) b e h = inl h

module _ (m : ℕ → Cont → Option ℕ) (P Q : ℕ → ℕ → Type 0) where
  match_star-Found :
      ((pos : ℕ) (cont : Cont) (e : ℕ) → m pos cont ≡ some e → Found P pos cont e)
      → ((i : ℕ) → Q i i)
      → ((i j k : ℕ) → P i j → Q j k → Q i k)
      → (fuel pos : ℕ) (cont : Cont) (e : ℕ) → match_star m fuel pos cont ≡ some e
      → Found Q pos cont e
  unfolding match_star
  match_star-Found sound none_left more zero pos cont e h = cc
  match_star-Found sound none_left more (suc fuel) pos cont e h =
      let again : Cont = λ p2. if p2 == pos then none else match_star m fuel p2 cont in
      elim (or_else-cases (m pos again) (cont pos) e h) [
        | inr stop ↦ (pos, none_left pos, stop)
        | inl found ↦
            let (p2, first, rest) = sound pos again e found in
            let (p, later, last) =
              match_star-Found sound none_left more fuel p2 cont e
                (unless_some (p2 == pos) (match_star m fuel p2 cont) e rest) in
            (p, more pos p2 p first later, last)
      ]

mutual
  unfolding match_node

  pub match_node-Found :
      (n : Node) (s : List ℕ) (pos : ℕ) (cont : Cont) (e : ℕ)
      → match_node n s pos cont ≡ some e
      → Found (Matches s n) pos cont e
  match_node-Found (char c) s pos cont e h =
      (let (byte, rest) = step-Found (λ b. b == c) s pos cont e h in (suc pos, one_char byte, rest))
  match_node-Found any s pos cont e h =
      (let (byte, rest) = step-Found (λ b. not (b == 10)) s pos cont e h in
        (suc pos, one_any byte, rest))
  match_node-Found (class negate ranges) s pos cont e h =
      let (byte, rest) = step-Found (class_matches negate ranges) s pos cont e h in
      (suc pos, one_class byte, rest)
  match_node-Found start s pos cont e h =
      (let (here, rest) = at_place-Found 0 pos cont e h in (pos, at_start here, rest))
  match_node-Found end_ s pos cont e h =
      (let (here, rest) = at_place-Found (length s) pos cont e h in (pos, at_end here, rest))
  match_node-Found (group n) s pos cont e h =
      (let (p, found, rest) = match_node-Found n s pos cont e h in (p, grouped found, rest))
  match_node-Found (concat ns) s pos cont e h =
      (let (p, found, rest) = match_concat-Found ns s pos cont e h in (p, all_of found, rest))
  match_node-Found (alt ns) s pos cont e h =
      (let (p, found, rest) = match_alt-Found ns s pos cont e h in (p, one_of found, rest))
  match_node-Found (quest n) s pos cont e h =
      elim (or_else-cases (match_node n s pos cont) (cont pos) e h) [
        | inl first ↦
            (let (p, found, rest) = match_node-Found n s pos cont e first in
              (p, present found, rest))
        | inr skip ↦ (pos, absent, skip)
      ]
  match_node-Found (star n) s pos cont e h =
      match_star-Found (match_node n s) (Matches s n) (Matches s (star n)) (match_node-Found n s)
        (λ i. no_more) (λ i j k d ds. once_more d ds) (length s + 1) pos cont e h
  match_node-Found (plus n) s pos cont e h =
      let (p2, first, rest) =
        match_node-Found n s pos (λ p2. match_star (match_node n s) (length s + 1) p2 cont) e h in
      let (p, later, last) =
        match_star-Found (match_node n s) (Matches s n) (Matches s (star n)) (match_node-Found n s)
          (λ i. no_more) (λ i j k d ds. once_more d ds) (length s + 1) p2 cont e rest in
      (p, at_least_once first later, last)

  match_concat-Found :
      (ns : Nodes) (s : List ℕ) (pos : ℕ) (cont : Cont) (e : ℕ)
      → match_concat ns s pos cont ≡ some e
      → Found (MatchesAll s ns) pos cont e
  match_concat-Found nil s pos cont e h = (pos, all_done, h)
  match_concat-Found (cons n ns) s pos cont e h =
      let (p2, first, rest) = match_node-Found n s pos (λ p2. match_concat ns s p2 cont) e h in
      let (p, later, last) = match_concat-Found ns s p2 cont e rest in
      (p, all_next first later, last)

  match_alt-Found :
      (ns : Nodes) (s : List ℕ) (pos : ℕ) (cont : Cont) (e : ℕ)
      → match_alt ns s pos cont ≡ some e
      → Found (MatchesOne s ns) pos cont e
  match_alt-Found nil s pos cont e h = cc
  match_alt-Found (cons n ns) s pos cont e h =
      elim (or_else-cases (match_node n s pos cont) (match_alt ns s pos cont) e h) [
        | inl first ↦
            (let (p, found, rest) = match_node-Found n s pos cont e first in
              (p, this_one found, rest))
        | inr later ↦
            (let (p, found, rest) = match_alt-Found ns s pos cont e later in
              (p, later_one found, rest))
      ]
