-- ===== src/Regexp/Find/Laws.antt =====
-- What findAt finds.
use wasigoc.Common.{
  ℕ, zero, suc, ◌+◌, ◌-◌, ◌≡◌, ◌≤◌, ◌<◌, refl, subst, arith, ◌==◌, leb, List, Option, none, some,
}
use wasigoc.Common.{length, Bool-cases, inl, inr, leb→le}
use wasigoc.Regexp.{Node}
use wasigoc.Regexp.Match.{match_node}
use wasigoc.Regexp.Match.Meaning.{Matches}
use wasigoc.Regexp.Match.Sound.{match_node-Found}
use wasigoc.Regexp.Match.Complete.{match_node-IsSome, Matches-Onward}
use wasigoc.Regexp.Find.{find_loop, find_at, found_or}

-- No match starts at a place from `low` to below `high`.
abbrev pub NoMatch : Node → List ℕ → ℕ → ℕ → Type 0
NoMatch root s low high = (j e : ℕ) → low ≤ j → j < high → ¬ Matches s root j e

-- The leftmost match that starts in the text at `start` or later, or none if there is none.
abbrev pub IsLeftmost : Node → List ℕ → ℕ → Option (ℕ × ℕ) → Type 0
IsLeftmost root s start none = NoMatch root s start (length s + 1)
IsLeftmost root s start (some (from, to)) =
    (start ≤ from)
    × (from ≤ length s)
    × (to ≤ length s)
    × Matches s root from to
    × NoMatch root s start from

match_node-none :
    (root : Node) (s : List ℕ) (i e : ℕ)
    → match_node root s i (λ p2. some p2) ≡ none
    → ¬ Matches s root i e
match_node-none root s i e fails d =
    let (x, found) = match_node-IsSome d (λ p2. some p2) (e, refl) in cc

not_here :
    {high : ℕ} (root : Node) (s : List ℕ) (i j e : ℕ)
    → match_node root s i (λ p2. some p2) ≡ none
    → i ≤ j
    → (i + 1 ≤ j → j < high → ¬ Matches s root j e)
    → j < high
    → ¬ Matches s root j e
not_here root s i j e run low behind h d = elim (Bool-cases (j == i)) [
  | inl same ↦
      let here : j ≡ i = ground (arith, same) in
      match_node-none root s i e run (subst (λ x. Matches s root x e) here d)
  | inr moved ↦ behind (ground (arith, low, moved)) h d
]

-- One round: the match that starts at `i`, or what is found behind it.
found_or-IsLeftmost :
    (root : Node) (s : List ℕ) (i : ℕ) (now : Option ℕ)
    → match_node root s i (λ p2. some p2) ≡ now
    → i ≤ length s
    → (later : Option (ℕ × ℕ)) → IsLeftmost root s (i + 1) later
    → IsLeftmost root s i (found_or i now later)
found_or-IsLeftmost root s i (some e) run inside later behind =
    let (p, d, ends) = match_node-Found root s i (λ p2. some p2) e run in
    let same : p ≡ e = cc in
    let here : Matches s root i e = subst (λ x. Matches s root i x) same d in
    let (onward, within) = Matches-Onward here in
    (
      omega arith,
      inside,
      omega (arith, within, inside),
      here,
      λ j x low high d. omega (arith, low, high),
    )
found_or-IsLeftmost root s i none run inside none behind =
    λ j e low high d. not_here root s i j e run low (behind j e) high d
found_or-IsLeftmost root s i none run inside (some (from, to)) (low, a, b, here, free) =
    (omega (arith, low), a, b, here, λ j e l h d. not_here root s i j e run l (free j e) h d)

find_loop-IsLeftmost :
    (root : Node) (s : List ℕ) (fuel i : ℕ)
    → length s < i + fuel
    → IsLeftmost root s i (find_loop root s fuel i)
unfolding find_loop
find_loop-IsLeftmost root s zero i fits = λ j e low high d. omega (arith, low, high, fits)
find_loop-IsLeftmost root s (suc fuel) i fits = elim (Bool-cases (leb i (length s))) [
  | inl inside ↦ rw inside (
      found_or-IsLeftmost root s i (match_node root s i (λ p2. some p2)) refl
        (leb→le i (length s) inside) (find_loop root s fuel (i + 1))
        (find_loop-IsLeftmost root s fuel (i + 1) (omega (arith, fits))))
  | inr outside ↦ rw outside (λ j e low high d. ground (arith, outside, low, high))
]

-- findAt gives the leftmost match of the expression at `start` or behind it, from its first byte to
-- behind its last one, both within the text; it gives nothing only if no match starts there.
pub find_at-IsLeftmost :
    (root : Node) (s : List ℕ) (start : ℕ) → IsLeftmost root s start (find_at root s start)
unfolding find_at
find_at-IsLeftmost root s start =
    find_loop-IsLeftmost root s (length s + 1 - start) start (omega arith)
