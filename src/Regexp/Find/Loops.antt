-- ===== src/Regexp/Find/Loops.antt =====
-- The methods that look for one match behind the other.
use wasigoc.Common.{
  ℕ, zero, suc, ◌+◌, ◌-◌, ◌≡◌, ◌≤◌, ◌<◌, arith, not, ◌||◌, leb, List, [], ◌∷◌, ◌++◌, Option, none,
  some,
}
use wasigoc.Common.{length, Bool-cases, inl, inr, take, drop, All, All-append}
use wasigoc.Common.Outcome.{Outcome, ok, err, panic, ◌>>=◌, Returns}
use wasigoc.Regexp.{Node}
use wasigoc.Regexp.Match.Meaning.{Matches}
use wasigoc.Regexp.Match.Complete.{Matches-Onward}
use wasigoc.Regexp.Find.{
  slice, find_at, behind, has_all, on_span, find_all_loop, find_all_string, skipped, replace_loop,
}
use wasigoc.Regexp.Find.Laws.{IsLeftmost, NoMatch, find_at-IsLeftmost}

pub slice-ok :
    (s : List ℕ) (low high : ℕ)
    → low ≤ high
    → high ≤ length s
    → slice s low high ≡ ok (take (high - low) (drop low s))
unfolding slice
slice-ok s low high a b = ground (arith, a, b)

pub Returns-imp :
    {A : Type 0} (P Q : A → Type 0) (r : Outcome A)
    → Returns P r
    → ((a : A) → P a → Q a)
    → Returns Q r
Returns-imp P Q (ok a) p imp = imp a p
Returns-imp P Q (err e) p imp = absurd p
Returns-imp P Q panic p imp = absurd p

-- The text is that of a match.
abbrev pub IsMatchText : Node → List ℕ → List ℕ → Type 0
IsMatchText root s w = (from : ℕ) × (to : ℕ) × Matches s root from to × (slice s from to ≡ ok w)

-- What a round does with what findAt finds, by cases.
on_span-Returns :
    {A : Type 0} (P : A → Type 0) (root : Node) (s : List ℕ) (pos : ℕ) (span : Option (ℕ × ℕ))
    (missing : Outcome A) (f : ℕ → ℕ → Outcome A)
    → IsLeftmost root s pos span
    → Returns P missing
    → ((from to : ℕ)
        → pos ≤ from
        → from ≤ to
        → to ≤ length s
        → Matches s root from to
        → Returns P (f from to))
    → Returns P (on_span span missing f)
on_span-Returns P root s pos none missing f found stop go = stop
on_span-Returns P root s pos (some (from, to)) missing f (low, inside, within, here, free) stop go =
    (let (onward, x) = Matches-Onward here in go from to low onward within here)

pub slice-Returns :
    {A : Type 0} (P : A → Type 0) (s : List ℕ) (low high : ℕ) (f : List ℕ → Outcome A)
    → low ≤ high
    → high ≤ length s
    → ((w : List ℕ) → slice s low high ≡ ok w → Returns P (f w))
    → Returns P (slice s low high >>= f)
slice-Returns P s low high f a b go =
    let made = slice-ok s low high a b in rw made (go (take (high - low) (drop low s)) made)

behind-bounds :
    (from to limit : ℕ)
    → from ≤ to
    → to ≤ limit
    → (from < behind from to) × (behind from to ≤ limit + 1)
behind-bounds from to limit onward within = ground (arith, onward, within)

find_all_loop-Returns :
    (root : Node) (s : List ℕ) (n : Option ℕ) (fuel pos : ℕ) (out : List (List ℕ))
    → pos ≤ length s + 1
    → length s + 1 < pos + fuel
    → All (IsMatchText root s) out
    → Returns (All (IsMatchText root s)) (find_all_loop root s n fuel pos out)
unfolding find_all_loop
find_all_loop-Returns root s n zero pos out inside fits good = absurd (omega (arith, inside, fits))
find_all_loop-Returns root s n (suc fuel) pos out inside fits good =
    elim (Bool-cases (not (leb pos (length s)) || has_all n (length out))) [
      | inl stop ↦ rw stop good
      | inr go ↦ rw go (
          on_span-Returns (All (IsMatchText root s)) root s pos (find_at root s pos) (ok out) _
            (find_at-IsLeftmost root s pos) good
            λ from to low onward within here.
              slice-Returns (All (IsMatchText root s)) s from to _ onward within λ w made.
                let (a, b) = behind-bounds from to (length s) onward within in
                find_all_loop-Returns root s n fuel (behind from to) (out ++ w ∷ []) b
                  (omega (arith, low, a, fits))
                  (All-append (IsMatchText root s) out (w ∷ []) good ((from, to, here, made), tt)))
    ]

-- FindAllString returns texts of matches of the expression only, whatever the number asked for: no
-- slice of the text is out of range, and the loop ends within the rounds given.
pub find_all_string-Returns :
    (root : Node) (s : List ℕ) (n : Option ℕ)
    → Returns (All (IsMatchText root s)) (find_all_string root s n)
unfolding find_all_string
find_all_string-Returns root s n =
    find_all_loop-Returns root s n (length s + 2) 0 [] (omega arith) (omega arith) tt

-- The text from `pos` on, in which a match that no other one precedes is replaced, again and again.
-- The byte behind an empty match is kept.
pub data Replaced (root : Node) (s repl : List ℕ) : ℕ → List ℕ → Type 0 where
  at_end : {pos : ℕ} → length s < pos → Replaced root s repl pos []
  rest :
      {pos : ℕ} {w : List ℕ}
      → NoMatch root s pos (length s + 1)
      → slice s pos (length s) ≡ ok w
      → Replaced root s repl pos w
  put :
      {pos from to : ℕ} {w more : List ℕ}
      → IsLeftmost root s pos (some (from, to))
      → slice s pos from ≡ ok w
      → Replaced root s repl (behind from to) more
      → Replaced root s repl pos (((w ++ repl) ++ skipped s from to) ++ more)

abbrev pub Writes : Node → List ℕ → List ℕ → ℕ → List ℕ → List ℕ → Type 0
Writes root s repl pos out all =
    (more : List ℕ) × Replaced root s repl pos more × (all ≡ out ++ more)

module _ (root : Node) (s repl : List ℕ) where
  -- What is in place before a round and behind it.
  Goes : ℕ → Type 0
  Goes fuel =
      (pos : ℕ) (out : List ℕ)
      → pos ≤ length s + 1
      → length s + 1 < pos + fuel
      → Returns (Writes root s repl pos out) (replace_loop root s repl fuel pos out)
