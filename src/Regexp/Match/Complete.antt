-- ===== src/Regexp/Match/Complete.antt =====
-- The matcher finds a match if there is one.
use wasigoc.Common.{
  ℕ, zero, suc, ◌+◌, ◌≡◌, ◌<◌, ◌≤◌, refl, subst, arith, Bool, true, false, ◌==◌, if◌then◌else◌,
  List, [], ◌∷◌, Option, none, some,
}
use wasigoc.Common.{length, get_elem?, Bool-cases, inl, inr, max}
use wasigoc.Regexp.{Node, star, Nodes}
use wasigoc.Regexp.Match.{
  Cont, step_at, step, or_else, match_star, at_place, match_node, match_concat, match_alt,
}
use wasigoc.Regexp.Match.Meaning.{
  HasByte, Matches, one_char, one_any, one_class, at_start, at_end, grouped, all_of, one_of, absent,
  present, no_more, once_more, at_least_once, MatchesAll, all_done, all_next, MatchesOne, this_one,
  later_one,
}

abbrev pub IsSome : Option ℕ → Type 0
IsSome x = (e : ℕ) × (x ≡ some e)

get_elem?-some-lt : (s : List ℕ) (i c : ℕ) → get_elem? s i ≡ some c → i < length s
get_elem?-some-lt [] i c h = cc
get_elem?-some-lt (x ∷ s) zero c h = omega arith
get_elem?-some-lt (x ∷ s) (suc i) c h = omega (arith, get_elem?-some-lt s i c h)

-- A match does not go back, nor past the end of the text.
abbrev pub Onward : List ℕ → ℕ → ℕ → Type 0
Onward s i j = (i ≤ j) × (j ≤ max i (length s))

byte-Onward : {test : ℕ → Bool} (s : List ℕ) (i : ℕ) → HasByte test s i → Onward s i (suc i)
byte-Onward s i (c, at, yes_test) = (omega arith, omega (arith, get_elem?-some-lt s i c at))

mutual
  pub Matches-Onward : {s : List ℕ} {n : Node} {i j : ℕ} → Matches s n i j → Onward s i j
  Matches-Onward {s} {n} {i} (one_char h) = byte-Onward s i h
  Matches-Onward {s} {n} {i} (one_any h) = byte-Onward s i h
  Matches-Onward {s} {n} {i} (one_class h) = byte-Onward s i h
  Matches-Onward (at_start h) = (omega arith, omega arith)
  Matches-Onward (at_end h) = (omega arith, omega arith)
  Matches-Onward (grouped d) = Matches-Onward d
  Matches-Onward (all_of d) = MatchesAll-Onward d
  Matches-Onward (one_of d) = MatchesOne-Onward d
  Matches-Onward absent = (omega arith, omega arith)
  Matches-Onward (present d) = Matches-Onward d
  Matches-Onward no_more = (omega arith, omega arith)
  Matches-Onward (once_more d ds) =
      (let (a, b) = Matches-Onward d in
        let (x, y) = Matches-Onward ds in (omega (arith, a, x), omega (arith, b, y)))
  Matches-Onward (at_least_once d ds) =
      (let (a, b) = Matches-Onward d in
        let (x, y) = Matches-Onward ds in (omega (arith, a, x), omega (arith, b, y)))

  MatchesAll-Onward : {s : List ℕ} {ns : Nodes} {i j : ℕ} → MatchesAll s ns i j → Onward s i j
  MatchesAll-Onward all_done = (omega arith, omega arith)
  MatchesAll-Onward (all_next d ds) =
      (let (a, b) = Matches-Onward d in
        let (x, y) = MatchesAll-Onward ds in (omega (arith, a, x), omega (arith, b, y)))

  MatchesOne-Onward : {s : List ℕ} {ns : Nodes} {i j : ℕ} → MatchesOne s ns i j → Onward s i j
  MatchesOne-Onward (this_one d) = Matches-Onward d
  MatchesOne-Onward (later_one d) = MatchesOne-Onward d

step-IsSome :
    (test : ℕ → Bool) (s : List ℕ) (i : ℕ) (cont : Cont)
    → HasByte test s i
    → IsSome (cont (suc i))
    → IsSome (step test s i cont)
unfolding step step_at
step-IsSome test s i cont (c, at, yes_test) (e, h) =
    let next : i + 1 ≡ suc i = omega arith in rw (at, yes_test, next) (e, h)

or_else-left : (a b : Option ℕ) → IsSome a → IsSome (or_else a b)
or_else-left a b (e, h) = rw h (e, refl)

or_else-right : (a b : Option ℕ) → IsSome b → IsSome (or_else a b)
or_else-right none b h = h
or_else-right (some e) b h = (e, refl)

at_place-IsSome :
    (place i : ℕ) (cont : Cont) → i ≡ place → IsSome (cont i) → IsSome (at_place place i cont)
unfolding at_place
at_place-IsSome place i cont e h = (let here : (i == place) ≡ true = ground (arith, e) in rw here h)

match_star-stop :
    (m : ℕ → Cont → Option ℕ) (fuel i : ℕ) (cont : Cont)
    → i < i + fuel
    → IsSome (cont i)
    → IsSome (match_star m fuel i cont)
unfolding match_star
match_star-stop m zero i cont fits h = absurd (omega (arith, fits))
match_star-stop m (suc fuel) i cont fits h =
    or_else-right (m i (λ p2. if p2 == i then none else match_star m fuel p2 cont)) (cont i) h

-- The rounds behind a first one that is not empty.
abbrev next_round : (ℕ → Cont → Option ℕ) → ℕ → ℕ → Cont → Cont
next_round m fuel i cont p2 =
    let again = match_star m fuel p2 cont in if p2 == i then none else again

match_star-go :
    (m : ℕ → Cont → Option ℕ) (fuel i : ℕ) (cont : Cont)
    → IsSome (m i (next_round m fuel i cont))
    → IsSome (match_star m (suc fuel) i cont)
unfolding match_star
match_star-go m fuel i cont h = or_else-left (m i (next_round m fuel i cont)) (cont i) h

next_round-IsSome :
    (m : ℕ → Cont → Option ℕ) (fuel i j : ℕ) (cont : Cont)
    → (j == i) ≡ false
    → IsSome (match_star m fuel j cont)
    → IsSome (next_round m fuel i cont j)
next_round-IsSome m fuel i j cont moved h = rw moved h

-- A further match that is empty leaves the place as it is.
match_star-either :
    (m : ℕ → Cont → Option ℕ) (fuel i j : ℕ) (cont : Cont)
    → (j ≡ i → IsSome (match_star m (suc fuel) j cont))
    → ((j == i) ≡ false → IsSome (m i (next_round m fuel i cont)))
    → IsSome (match_star m (suc fuel) i cont)
match_star-either m fuel i j cont stay go = elim (Bool-cases (j == i)) [
  | inl same ↦
      let here : j ≡ i = ground (arith, same) in
      subst (λ x. IsSome (match_star m (suc fuel) x cont)) here (stay here)
  | inr moved ↦ match_star-go m fuel i cont (go moved)
]

further : (fuel i j k : ℕ) → i ≤ j → (j == i) ≡ false → k < i + suc fuel → k < j + fuel
further fuel i j k a moved fits = ground (arith, a, moved, fits)

mutual
  unfolding match_node

  pub match_node-IsSome :
      {s : List ℕ} {n : Node} {i j : ℕ}
      → Matches s n i j
      → (cont : Cont) → IsSome (cont j)
      → IsSome (match_node n s i cont)
  match_node-IsSome {s} {n} {i} (one_char h) cont k = step-IsSome _ s i cont h k
  match_node-IsSome {s} {n} {i} (one_any h) cont k = step-IsSome _ s i cont h k
  match_node-IsSome {s} {n} {i} (one_class h) cont k = step-IsSome _ s i cont h k
  match_node-IsSome {s} {n} {i} (at_start h) cont k = at_place-IsSome 0 i cont h k
  match_node-IsSome {s} {n} {i} (at_end h) cont k = at_place-IsSome (length s) i cont h k
  match_node-IsSome (grouped d) cont k = match_node-IsSome d cont k
  match_node-IsSome (all_of d) cont k = match_concat-IsSome d cont k
  match_node-IsSome (one_of d) cont k = match_alt-IsSome d cont k
  match_node-IsSome absent cont k = or_else-right _ _ k
  match_node-IsSome (present d) cont k = or_else-left _ _ (match_node-IsSome d cont k)
  match_node-IsSome no_more cont k = match_star-stop _ _ _ cont (omega arith) k
  match_node-IsSome {s} (once_more {n = n} {i = i} {j = j} {k = last} d ds) cont k =
      let (a, b) = Matches-Onward d in
      let (x, y) = Matches-Onward ds in
      let rounds : suc (length s) ≡ length s + 1 = omega arith in
      subst (λ f. IsSome (match_star (match_node n s) f i cont)) rounds
        (match_star-either (match_node n s) (length s) i j cont
          (λ same. rounds-IsSome ds (suc (length s)) cont (omega (arith, y)) k)
          λ moved. match_node-IsSome d _ (
            next_round-IsSome (match_node n s) (length s) i j cont moved (
              rounds-IsSome ds (length s) cont
                (further (length s) i j last a moved (omega (arith, x, y, b))) k)))
  match_node-IsSome {s} (at_least_once d ds) cont k =
      let (a, b) = Matches-Onward ds in
      match_node-IsSome d _ (rounds-IsSome ds (length s + 1) cont (omega (arith, b)) k)

  rounds-IsSome :
      {s : List ℕ} {n : Node} {i j : ℕ}
      → Matches s (star n) i j
      → (fuel : ℕ) (cont : Cont) → j < i + fuel
      → IsSome (cont j)
      → IsSome (match_star (match_node n s) fuel i cont)
  rounds-IsSome no_more fuel cont fits k = match_star-stop _ fuel _ cont fits k
  rounds-IsSome (once_more d ds) zero cont fits k =
      absurd (
        let (a, b) = Matches-Onward d in
        let (x, y) = Matches-Onward ds in omega (arith, a, x, fits))
  rounds-IsSome {s} (once_more {n = n} {i = i} {j = j} d ds) (suc fuel) cont fits k =
      let (a, b) = Matches-Onward d in
      match_star-either (match_node n s) fuel i j cont
        (λ same. rounds-IsSome ds (suc fuel) cont (omega (arith, a, fits)) k)
        λ moved. match_node-IsSome d _ (
          next_round-IsSome (match_node n s) fuel i j cont moved
            (rounds-IsSome ds fuel cont (further fuel i j _ a moved fits) k))

  match_concat-IsSome :
      {s : List ℕ} {ns : Nodes} {i j : ℕ}
      → MatchesAll s ns i j
      → (cont : Cont) → IsSome (cont j)
      → IsSome (match_concat ns s i cont)
  match_concat-IsSome all_done cont k = k
  match_concat-IsSome (all_next d ds) cont k = match_node-IsSome d _ (match_concat-IsSome ds cont k)

  match_alt-IsSome :
      {s : List ℕ} {ns : Nodes} {i j : ℕ}
      → MatchesOne s ns i j
      → (cont : Cont) → IsSome (cont j)
      → IsSome (match_alt ns s i cont)
  match_alt-IsSome (this_one d) cont k = or_else-left _ _ (match_node-IsSome d cont k)
  match_alt-IsSome (later_one d) cont k = or_else-right _ _ (match_alt-IsSome d cont k)
