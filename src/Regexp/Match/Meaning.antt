-- ===== src/Regexp/Match/Meaning.antt =====
-- What it means that a node matches the bytes of a text from one place to another.
use wasigoc.Common.{ℕ, suc, ◌≡◌, Bool, true, not, ◌==◌, List, length, get_elem?, some}
use wasigoc.Regexp.{
  ClassRange, Node, char, any, class, star, plus, quest, concat, alt, group, start, end_, Nodes,
  nil, cons,
}
use wasigoc.Regexp.Match.{class_matches}

-- The text has a byte with the property at `i`.
abbrev pub HasByte : (ℕ → Bool) → List ℕ → ℕ → Type 0
HasByte test s i = (b : ℕ) × (get_elem? s i ≡ some b) × (test b ≡ true)

mutual
  pub data Matches (s : List ℕ) : Node → ℕ → ℕ → Type 0 where
    one_char : {c i : ℕ} → HasByte (λ b. b == c) s i → Matches s (char c) i (suc i)
    one_any : {i : ℕ} → HasByte (λ b. not (b == 10)) s i → Matches s any i (suc i)
    one_class :
        {negate : Bool} {ranges : List ClassRange} {i : ℕ}
        → HasByte (class_matches negate ranges) s i
        → Matches s (class negate ranges) i (suc i)
    at_start : {i : ℕ} → i ≡ 0 → Matches s start i i
    at_end : {i : ℕ} → i ≡ length s → Matches s end_ i i
    grouped : {n : Node} {i j : ℕ} → Matches s n i j → Matches s (group n) i j
    all_of : {ns : Nodes} {i j : ℕ} → MatchesAll s ns i j → Matches s (concat ns) i j
    one_of : {ns : Nodes} {i j : ℕ} → MatchesOne s ns i j → Matches s (alt ns) i j
    absent : {n : Node} {i : ℕ} → Matches s (quest n) i i
    present : {n : Node} {i j : ℕ} → Matches s n i j → Matches s (quest n) i j
    no_more : {n : Node} {i : ℕ} → Matches s (star n) i i
    once_more :
        {n : Node} {i j k : ℕ} → Matches s n i j → Matches s (star n) j k → Matches s (star n) i k
    at_least_once :
        {n : Node} {i j k : ℕ} → Matches s n i j → Matches s (star n) j k → Matches s (plus n) i k

  pub data MatchesAll (s : List ℕ) : Nodes → ℕ → ℕ → Type 0 where
    all_done : {i : ℕ} → MatchesAll s nil i i
    all_next :
        {n : Node} {ns : Nodes} {i j k : ℕ}
        → Matches s n i j
        → MatchesAll s ns j k
        → MatchesAll s (cons n ns) i k

  pub data MatchesOne (s : List ℕ) : Nodes → ℕ → ℕ → Type 0 where
    this_one : {n : Node} {ns : Nodes} {i j : ℕ} → Matches s n i j → MatchesOne s (cons n ns) i j
    later_one :
        {n : Node} {ns : Nodes} {i j : ℕ} → MatchesOne s ns i j → MatchesOne s (cons n ns) i j
