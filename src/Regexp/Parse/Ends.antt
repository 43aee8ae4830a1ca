-- ===== src/Regexp/Parse/Ends.antt =====
-- The parser comes to an end: no call goes back in the pattern, and the fuel is enough.
use wasigoc.Common.{
  ℕ, zero, suc, ◌+◌, ◌-◌, ◌*◌, ◌≡◌, ◌≢◌, ◌≤◌, ◌<◌, refl, arith, Bool, true, false, not, ◌&&◌, ◌||◌,
  ◌==◌, ltb, if◌then◌else◌, List, [], ◌∷◌, ◌++◌,
}
use wasigoc.Common.{length, Bool-cases, inl, inr}
use wasigoc.Common.Outcome.{Outcome, ok, err, panic, ◌>>=◌}
use wasigoc.Regexp.{ClassRange, Node}
use wasigoc.Regexp.Parse.{
  is_repetition, repeated, in_concat, whole, peek, class_byte, class_item, class_loop, parse_class,
  repeat_loop, group_start, close_group, parse_atom, parse_repeat, parse_alt, alt_loop,
  parse_concat, concat_loop, compile,
}

-- The call returns a place that is not before `low`, or an error.
abbrev Ends : {A : Type 0} → ℕ → Outcome (A × ℕ) → Type 0
Ends low (ok (a, pos)) = low ≤ pos
Ends low (err e) = Unit
Ends low panic = ⊥

Ends-bind :
    {A B : Type 0} (low high : ℕ) (r : Outcome (A × ℕ)) (f : A × ℕ → Outcome (B × ℕ))
    → Ends low r
    → ((a : A) (pos : ℕ) → low ≤ pos → Ends high (f (a, pos)))
    → Ends high (r >>= f)
Ends-bind low high (ok (a, pos)) f h go = go a pos h
Ends-bind low high (err e) f h go = tt
Ends-bind low high panic f h go = absurd h

Ends-if :
    {A : Type 0} (low : ℕ) (b : Bool) (x y : Outcome (A × ℕ))
    → (b ≡ true → Ends low x)
    → (b ≡ false → Ends low y)
    → Ends low (if b then x else y)
Ends-if low true x y then_ends else_ends = then_ends refl
Ends-if low false x y then_ends else_ends = else_ends refl

Ends-elim :
    {A : Type 0} (low : ℕ) (b : Bool) (x y : Outcome (A × ℕ))
    → (b ≡ true → Ends low x)
    → (b ≡ false → Ends low y)
    → Ends low (elim b [ true ↦ x | false ↦ y ])
Ends-elim low true x y then_ends else_ends = then_ends refl
Ends-elim low false x y then_ends else_ends = else_ends refl

Ends-weaken :
    {A : Type 0} (low high : ℕ) (r : Outcome (A × ℕ)) → low ≤ high → Ends high r → Ends low r
Ends-weaken low high (ok (a, pos)) h ends = omega (arith, h, ends)
Ends-weaken low high (err e) h ends = tt
Ends-weaken low high panic h ends = ends

-- A byte that is not 0 stands within the pattern.
peek-lt : (s : List ℕ) (pos : ℕ) → 0 < peek s pos → pos < length s
unfolding peek
peek-lt [] pos h = absurd (omega (arith, h))
peek-lt (x ∷ s) zero h = omega arith
peek-lt (x ∷ s) (suc pos) h = omega (arith, peek-lt s pos h)

byte-positive : (b c : ℕ) → (b == c) ≡ true → 0 < c → 0 < b
byte-positive b c h positive = ground (arith, h, positive)

class_byte-lt : (s : List ℕ) (pos : ℕ) → pos < (class_byte s pos).1
unfolding class_byte
class_byte-lt s pos = ground arith

class_item-lt : (s : List ℕ) (pos : ℕ) → pos < (class_item s pos).1
unfolding class_item
class_item-lt s pos =
    ground (arith, class_byte-lt s pos, class_byte-lt s ((class_byte s pos).1 + 1))

class_loop-Ends :
    (s : List ℕ) (fuel pos : ℕ) (first : Bool) (ranges : List ClassRange)
    → length s - pos < fuel
    → Ends pos (class_loop s fuel pos first ranges)
unfolding class_loop
class_loop-Ends s zero pos first ranges fits = absurd (omega (arith, fits))
class_loop-Ends s (suc fuel) pos first ranges fits =
    let item : ClassRange × ℕ = class_item s pos in
    let onward : pos < item.1 = class_item-lt s pos in
    Ends-if pos (ltb pos (length s) && (not (peek s pos == 93) || first)) _ _
      (λ more.
        let inside : pos < length s = ground (arith, more) in
        Ends-weaken pos (item.1) (class_loop s fuel (item.1) false (ranges ++ item.0 ∷ []))
          (omega (arith, onward))
          (class_loop-Ends s fuel (item.1) false (ranges ++ item.0 ∷ [])
            (omega (arith, onward, inside, fits))))
      λ stop. omega arith

parse_class-Ends : (s : List ℕ) (pos : ℕ) → Ends (pos + 1) (parse_class s pos)
unfolding parse_class
parse_class-Ends s pos =
    let from : ℕ = if peek s (pos + 1) == 94 then pos + 2 else pos + 1 in
    let on : pos + 1 ≤ from = ground arith in
    Ends-bind from (pos + 1) (class_loop s (length s + 1) from true []) _
      (class_loop-Ends s (length s + 1) from true [] (omega arith))
      λ ranges p h.
        Ends-if (pos + 1) (peek s p == 93) _ _ (λ closed. omega (arith, on, h)) λ open_. tt

repeat_loop-Ends :
    (s : List ℕ) (fuel pos : ℕ) (a : Node)
    → length s - pos < fuel
    → Ends pos (repeat_loop s fuel pos a)
unfolding repeat_loop
repeat_loop-Ends s zero pos a fits = absurd (omega (arith, fits))
repeat_loop-Ends s (suc fuel) pos a fits =
    let rest = repeat_loop s fuel (pos + 1) (repeated (peek s pos) a) in
    Ends-if pos (is_repetition (peek s pos)) rest _
      (λ more.
        let inside : pos < length s = peek-lt s pos (ground (arith, more)) in
        Ends-weaken pos (pos + 1) rest (omega arith) (
          repeat_loop-Ends s fuel (pos + 1) (repeated (peek s pos) a)
            (omega (arith, inside, fits))))
      λ stop. omega arith

group_start-le : (s : List ℕ) (pos : ℕ) → pos ≤ group_start s pos
unfolding group_start
group_start-le s pos = ground arith

module _ (s : List ℕ) (alternatives : ℕ → Outcome (Node × ℕ)) where
  parse_atom-Ends :
      (pos : ℕ)
      → (pos < length s → (p : ℕ) → pos < p → Ends p (alternatives p))
      → Ends (pos + 1) (parse_atom s alternatives pos)
  unfolding parse_atom
  parse_atom-Ends pos inner =
      let c = peek s pos in
      Ends-if (pos + 1) (c == 40) _ _
        (λ opens.
          let inside : pos < length s =
            peek-lt s pos (byte-positive (peek s pos) 40 opens (omega arith)) in
          let from : ℕ = group_start s (pos + 1) in
          let on : pos + 1 ≤ from = group_start-le s (pos + 1) in
          Ends-bind from (pos + 1) (alternatives from) (close_group s)
            (inner inside from (omega (arith, on)))
            λ n p h.
              Ends-if (pos + 1) (peek s p == 41) _ _ (λ closed. omega (arith, on, h)) λ missing. tt)
        λ x1.
          Ends-if (pos + 1) (c == 46) _ _ (λ y. omega arith)
            λ x2.
              Ends-if (pos + 1) (c == 94) _ _ (λ y. omega arith)
                λ x3.
                  Ends-if (pos + 1) (c == 36) _ _ (λ y. omega arith)
                    λ x4.
                      Ends-if (pos + 1) (c == 91) _ _ (λ y. parse_class-Ends s pos)
                        λ x5.
                          Ends-if (pos + 1) (c == 92) _ _ (λ y. omega arith)
                            λ x6. Ends-if (pos + 1) (c == 0) _ _ (λ y. tt) (λ y. omega arith)

  parse_repeat-Ends :
      (pos : ℕ)
      → (pos < length s → (p : ℕ) → pos < p → Ends p (alternatives p))
      → Ends (pos + 1) (parse_repeat s alternatives pos)
  unfolding parse_repeat
  parse_repeat-Ends pos inner =
      Ends-bind (pos + 1) (pos + 1) (parse_atom s alternatives pos) _ (parse_atom-Ends pos inner)
        λ a p h.
          Ends-weaken (pos + 1) p (repeat_loop s (length s + 1) p a) h
            (repeat_loop-Ends s (length s + 1) p a (omega arith))

-- The fuel that is enough for the rest of the pattern.
abbrev Fits : List ℕ → ℕ → ℕ → ℕ → Type 0
Fits s k pos fuel = 3 * (length s - pos) + k ≤ fuel

mutual
  unfolding parse_alt alt_loop parse_concat concat_loop

  parse_alt-Ends : (s : List ℕ) (fuel pos : ℕ) → Fits s 3 pos fuel → Ends pos (parse_alt s fuel pos)
  parse_alt-Ends s zero pos fits = absurd (omega (arith, fits))
  parse_alt-Ends s (suc fuel) pos fits =
      Ends-bind pos pos (parse_concat s fuel pos) _
        (parse_concat-Ends s fuel pos (omega (arith, fits)))
        λ first p h.
          Ends-bind p pos (alt_loop s fuel p (first ∷ [])) _
            (alt_loop-Ends s fuel p (first ∷ []) (omega (arith, fits, h)))
            λ alts last after. omega (arith, h, after)

  alt_loop-Ends :
      (s : List ℕ) (fuel pos : ℕ) (alts : List Node)
      → Fits s 2 pos fuel
      → Ends pos (alt_loop s fuel pos alts)
  alt_loop-Ends s zero pos alts fits = absurd (omega (arith, fits))
  alt_loop-Ends s (suc fuel) pos alts fits =
      Ends-elim pos (peek s pos == 124) _ _
        (λ bar.
          let inside : pos < length s =
            peek-lt s pos (byte-positive (peek s pos) 124 bar (omega arith)) in
          Ends-bind (pos + 1) pos (parse_concat s fuel (pos + 1)) _
            (parse_concat-Ends s fuel (pos + 1) (omega (arith, fits, inside)))
            λ n p h.
              Ends-weaken pos p (alt_loop s fuel p (alts ++ n ∷ [])) (omega (arith, h))
                (alt_loop-Ends s fuel p (alts ++ n ∷ []) (omega (arith, fits, inside, h))))
        λ none_left. omega arith

  parse_concat-Ends :
      (s : List ℕ) (fuel pos : ℕ) → Fits s 2 pos fuel → Ends pos (parse_concat s fuel pos)
  parse_concat-Ends s zero pos fits = absurd (omega (arith, fits))
  parse_concat-Ends s (suc fuel) pos fits =
      Ends-bind pos pos (concat_loop s fuel pos []) _
        (concat_loop-Ends s fuel pos [] (omega (arith, fits))) λ parts p h. h

  concat_loop-Ends :
      (s : List ℕ) (fuel pos : ℕ) (parts : List Node)
      → Fits s 1 pos fuel
      → Ends pos (concat_loop s fuel pos parts)
  concat_loop-Ends s zero pos parts fits = absurd (omega (arith, fits))
  concat_loop-Ends s (suc fuel) pos parts fits =
      Ends-elim pos (in_concat s pos) _ _
        (λ more.
          let inside : pos < length s = ground (arith, more) in
          Ends-bind (pos + 1) pos (parse_repeat s (λ p. parse_alt s fuel p) pos) _
            (parse_repeat-Ends s (λ p. parse_alt s fuel p) pos
              λ x p h. parse_alt-Ends s fuel p (omega (arith, fits, inside, h)))
            λ n p h.
              Ends-weaken pos p (concat_loop s fuel p (parts ++ n ∷ [])) (omega (arith, h))
                (concat_loop-Ends s fuel p (parts ++ n ∷ []) (omega (arith, fits, inside, h))))
        λ stop. omega arith

whole-total : (s : List ℕ) (r : Outcome (Node × ℕ)) → Ends 0 r → (r >>= whole s) ≢ panic
whole-total s (ok (n, pos)) ends = elim (Bool-cases (pos == length s)) [
  | inl all ↦ rw all (λ e. cc)
  | inr some_left ↦ rw some_left (λ e. cc)
]
whole-total s (err x) ends = λ e. cc
whole-total s panic ends = absurd ends

-- Compile returns an expression or an error for each pattern: the fuel is enough, so that the run
-- never ends without a result.
pub compile-total : (pattern : List ℕ) → compile pattern ≢ panic
unfolding compile
compile-total pattern =
    whole-total pattern _ (parse_alt-Ends pattern (3 * length pattern + 3) 0 (omega arith))
