-- ===== src/Regexp/Find/Split.antt =====
-- Split: what its pieces are.
use mathlib.Core.List.{append_assoc}
use wasigoc.Common.{
  ℕ, zero, suc, ◌+◌, ◌≡◌, ◌≤◌, ◌<◌, refl, sym, ◌∙◌, subst, arith, not, ◌||◌, ◌==◌, leb, List, [],
  ◌∷◌, ◌++◌, Option, none, some,
}
use wasigoc.Common.{◌⊎◌, true, false, if◌then◌else◌, length-append, length, Bool-cases, inl, inr}
use wasigoc.Common.Outcome.{ok, ◌>>=◌, Returns}
use wasigoc.Regexp.{Node}
use wasigoc.Regexp.Match.Complete.{Matches-Onward}
use wasigoc.Regexp.Find.{slice, find_at, on_span, has_split, split_rest, split_loop, split}
use wasigoc.Regexp.Find.Laws.{IsLeftmost, find_at-IsLeftmost}
use wasigoc.Regexp.Find.Loops.{Returns-imp, slice-Returns}

-- The pieces that are there and the rest of the text are as many as were asked for, or more.
unfoldable pub IsFull : Option ℕ → ℕ → Type 0
IsFull none count = ⊥
IsFull (some asked) count = asked ≤ count + 1

-- There is room for a piece before the rest of the text.
unfoldable pub HasRoom : Option ℕ → ℕ → Type 0
HasRoom none count = Unit
HasRoom (some asked) count = count + 1 < asked

-- The pieces of the text from `pos` on, behind `count` others.
pub data Pieces (root : Node) (s : List ℕ) (n : Option ℕ) : ℕ → ℕ → List (List ℕ) → Type 0 where
  full :
      {count pos : ℕ} {w : List ℕ}
      → IsFull n count
      → slice s pos (length s) ≡ ok w
      → Pieces root s n count pos (w ∷ [])
  missing :
      {count pos : ℕ} {w : List ℕ}
      → IsLeftmost root s pos none
      → slice s pos (length s) ≡ ok w
      → Pieces root s n count pos (w ∷ [])
  blocked :
      {count pos from to : ℕ} {w : List ℕ}
      → IsLeftmost root s pos (some (from, to))
      → (from ≡ length s) ⊎ (from ≡ to)
      → slice s pos (length s) ≡ ok w
      → Pieces root s n count pos (w ∷ [])
  cut :
      {count pos from to : ℕ} {w : List ℕ} {ws : List (List ℕ)}
      → HasRoom n count
      → IsLeftmost root s pos (some (from, to))
      → from < length s
      → from < to
      → slice s pos from ≡ ok w
      → Pieces root s n (suc count) to ws
      → Pieces root s n count pos (w ∷ ws)

has_split-IsFull : (n : Option ℕ) (count : ℕ) → has_split n count ≡ true → IsFull n count
unfolding IsFull
has_split-IsFull none count e = cc
has_split-IsFull (some asked) count e = ground (arith, e)

has_split-HasRoom : (n : Option ℕ) (count : ℕ) → has_split n count ≡ false → HasRoom n count
unfolding HasRoom
has_split-HasRoom none count e = tt
has_split-HasRoom (some asked) count e = ground (arith, e)

module _ (root : Node) (s : List ℕ) (n : Option ℕ) where
  -- What a call adds to the pieces that it is given.
  abbrev Adds : ℕ → List (List ℕ) → List (List ℕ) → Type 0
  Adds pos out all =
      (more : List (List ℕ)) × Pieces root s n (length out) pos more × (all ≡ out ++ more)

  -- The rest of the text as the last piece.
  split_rest-Adds :
      (pos : ℕ) (out : List (List ℕ))
      → pos ≤ length s
      → ((w : List ℕ) → slice s pos (length s) ≡ ok w → Pieces root s n (length out) pos (w ∷ []))
      → Returns (Adds pos out) (split_rest s pos out)
  split_rest-Adds pos out inside last =
      slice-Returns (Adds pos out) s pos (length s) (λ w. ok (out ++ w ∷ [])) inside (omega arith)
        λ w made. (w ∷ [], last w made, refl)

  -- What the rounds from `pos` on do, with some fuel.
  SplitGoes : ℕ → Type 0
  SplitGoes fuel =
      (pos : ℕ) (out : List (List ℕ))
      → pos ≤ length s
      → length s < pos + fuel
      → Returns (Adds pos out) (split_loop root s n fuel pos out)

  -- A round that may cut, by what findAt finds.
  split_round :
      (fuel : ℕ)
      → SplitGoes fuel
      → (pos : ℕ) (out : List (List ℕ)) (span : Option (ℕ × ℕ)) → pos ≤ length s
      → length s < pos + suc fuel
      → HasRoom n (length out)
      → IsLeftmost root s pos span
      → Returns (Adds pos out) (
          on_span span (split_rest s pos out) λ from to.
            if leb (length s) from || to == from
            then split_rest s pos out
            else (slice s pos from >>= λ piece. split_loop root s n fuel to (out ++ piece ∷ [])))
  unfolding SplitGoes
  split_round fuel go pos out none inside fits room found =
      split_rest-Adds pos out inside λ w made. missing found made
  split_round fuel go pos out (some (from, to)) inside fits room found =
      let (low, start, within, here, free) = found in
      let (onward, x) = Matches-Onward here in
      elim (Bool-cases (leb (length s) from || to == from)) [
        | inl stop ↦
            let why : (from ≡ length s) ⊎ (from ≡ to) = ground (arith, stop, start) in
            rw stop (split_rest-Adds pos out inside λ w made. blocked found why made)
        | inr clear ↦
            let longer : from < to = ground (arith, clear, onward) in
            let early : from < length s = ground (arith, clear) in
            rw clear (
              slice-Returns (Adds pos out) s pos from _ low start λ w made.
                Returns-imp (Adds to (out ++ w ∷ [])) (Adds pos out)
                  (split_loop root s n fuel to (out ++ w ∷ []))
                  (go to (out ++ w ∷ []) within (omega (arith, low, longer, fits)))
                  λ all (more, pieces, e).
                    let count : length (out ++ w ∷ []) ≡ suc (length out) =
                      omega (arith, length-append out (w ∷ [])) in
                    (
                      w ∷ more,
                      cut room found early longer made
                          (subst (λ c. Pieces root s n c to more) count pieces),
                      e ∙ append_assoc out (w ∷ []) more,
                    ))
      ]

  split_loop-Adds : (fuel : ℕ) → SplitGoes fuel
  unfolding SplitGoes split_loop
  split_loop-Adds zero pos out inside fits = absurd (omega (arith, inside, fits))
  split_loop-Adds (suc fuel) pos out inside fits =
      let before : not (leb pos (length s)) ≡ false = ground (arith, inside) in
      elim (Bool-cases (has_split n (length out))) [
        | inl stop ↦
            let enough = has_split-IsFull n (length out) stop in
            rw (before, stop) (split_rest-Adds pos out inside λ w made. full enough made)
        | inr more ↦
            rw (before, more)
              (split_round fuel (split_loop-Adds fuel) pos out (find_at root s pos) inside fits
                (has_split-HasRoom n (length out) more) (find_at-IsLeftmost root s pos))
      ]

  -- Split cuts the text at the leftmost match, again and again behind it, as long as there is room
  -- for one more piece before the rest in the number asked for, if one is: each piece but the last
  -- is the text from there to the next match. It stops, with the rest of the text as the last piece,
  -- only where that number is reached, no match is left, or the leftmost one is empty or starts at
  -- the end of the text. No slice of the text is out of range, and the loop ends within the rounds
  -- given.
  pub split-Pieces : Returns (Pieces root s n 0 0) (split root s n)
  unfolding split SplitGoes
  split-Pieces =
      Returns-imp (Adds 0 []) (Pieces root s n 0 0) (split root s n)
        (split_loop-Adds (length s + 2) 0 [] (omega arith) (omega arith))
        λ all (more, pieces, e). subst (Pieces root s n 0 0) (sym e) pieces
