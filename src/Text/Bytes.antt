-- ===== src/Text/Bytes.antt =====
-- bytes.go: the functions of strings.go over a search that compares byte by byte, and the loops
-- that append byte by byte.
use mathlib.Core.List.{append_assoc, append-nil}
use wasigoc.Common.{
  ℕ, zero, suc, ◌≡◌, ◌↔◌, refl, sym, ap, ◌∙◌, arith, List, [], ◌∷◌, ◌++◌, Bool, true, false,
}
use wasigoc.Common.{◌==◌, ltb, not, if◌then◌else◌, Option, length, take}
use wasigoc.Text.Find.{index_bytes}
use wasigoc.Text.Pieces.{
  contains, split, replace, replace_all, cut, join, join_loop, repeat, repeat_loop,
}

-- The loop of Equal on slices of one length.
equal_loop : List ℕ → List ℕ → Bool
equal_loop [] b = true
equal_loop (x ∷ a) [] = false
equal_loop (x ∷ a) (y ∷ b) = if not (x == y) then false else equal_loop a b

pub equal_bytes : List ℕ → List ℕ → Bool
equal_bytes a b = if not (length a == length b) then false else equal_loop a b

contains_bytes : List ℕ → List ℕ → Bool
contains_bytes s sub = contains index_bytes s sub

split_bytes : List ℕ → List ℕ → List (List ℕ)
split_bytes s sep = split index_bytes s sep

replace_bytes : List ℕ → List ℕ → List ℕ → Option ℕ → List ℕ
replace_bytes s old new n = replace index_bytes s old new n

replace_all_bytes : List ℕ → List ℕ → List ℕ → List ℕ
replace_all_bytes s old new = replace_all index_bytes s old new

cut_bytes : List ℕ → List ℕ → List ℕ × List ℕ × Bool
cut_bytes s sep = cut index_bytes s sep

has_prefix_bytes : List ℕ → List ℕ → Bool
has_prefix_bytes s prefix =
    if ltb (length s) (length prefix) then false else equal_bytes (take (length prefix) s) prefix

-- `out = append(out, b[j])` over the bytes of one copy.
append_each : List ℕ → List ℕ → List ℕ
append_each out [] = out
append_each out (c ∷ b) = append_each (out ++ c ∷ []) b

repeat_bytes_loop : ℕ → List ℕ → List ℕ → List ℕ
repeat_bytes_loop zero out b = out
repeat_bytes_loop (suc k) out b = repeat_bytes_loop k (append_each out b) b

pub repeat_bytes : List ℕ → ℕ → List ℕ
repeat_bytes b count = repeat_bytes_loop count [] b

-- Appends the separator and then the element.
join_bytes_loop : List ℕ → List (List ℕ) → List ℕ → List ℕ
join_bytes_loop out [] sep = out
join_bytes_loop out (e ∷ s) sep = join_bytes_loop ((out ++ sep) ++ e) s sep

pub join_bytes : List (List ℕ) → List ℕ → List ℕ
join_bytes [] sep = []
join_bytes (e ∷ s) sep = join_bytes_loop e s sep

equal_loop_iff : (a b : List ℕ) → length a ≡ length b → (equal_loop a b ≡ true) ↔ (a ≡ b)
unfolding equal_loop
equal_loop_iff [] [] e = (λ h. refl, λ h. refl)
equal_loop_iff [] (y ∷ b) e = absurd (omega (arith, e))
equal_loop_iff (x ∷ a) [] e = absurd (omega (arith, e))
equal_loop_iff (x ∷ a) (y ∷ b) e = (
  λ h. ground (arith, equal_loop_iff a b (omega (arith, e))),
  λ h. ground (arith, equal_loop_iff a b (omega (arith, e))),
)

-- bytes.Equal returns true exactly if the two slices are equal: for all slices.
pub equal_bytes_iff : (a b : List ℕ) → (equal_bytes a b ≡ true) ↔ (a ≡ b)
unfolding equal_bytes
equal_bytes_iff a b = (λ e. (equal_loop_iff a b (lengths e)).0 (contents e), λ e. rw e (by_loop b))
  where
    lengths :
        (if not (length a == length b) then false else equal_loop a b) ≡ true → length a ≡ length b
    lengths e = ground (arith, e)

    contents :
        (if not (length a == length b) then false else equal_loop a b) ≡ true
        → equal_loop a b ≡ true
    contents e = ground (arith, e)

    by_loop : (b : List ℕ) → (if not (length b == length b) then false else equal_loop b b) ≡ true
    by_loop b = ground (arith, (equal_loop_iff b b refl).1 refl)

append_each-append : (out b : List ℕ) → append_each out b ≡ out ++ b
unfolding append_each
append_each-append out [] = sym (append-nil out)
append_each-append out (c ∷ b) = append_each-append (out ++ c ∷ []) b ∙ append_assoc out (c ∷ []) b

repeat_bytes_loop-repeat_loop :
    (k : ℕ) (out b : List ℕ) → repeat_bytes_loop k out b ≡ repeat_loop k out b
unfolding repeat_bytes_loop repeat_loop
repeat_bytes_loop-repeat_loop zero out b = refl
repeat_bytes_loop-repeat_loop (suc k) out b =
    repeat_bytes_loop-repeat_loop k (append_each out b) b
    ∙ ap (λ o. repeat_loop k o b) (append_each-append out b)

join_bytes_loop-join_loop :
    (out : List ℕ) (s : List (List ℕ)) (sep : List ℕ)
    → join_bytes_loop out s sep ≡ join_loop out s sep
unfolding join_bytes_loop join_loop
join_bytes_loop-join_loop out [] sep = refl
join_bytes_loop-join_loop out (e ∷ s) sep =
    join_bytes_loop-join_loop ((out ++ sep) ++ e) s sep
    ∙ ap (λ o. join_loop o s sep) (append_assoc out sep e)

-- The byte slice versions of Repeat and Join, which append piece by piece, return what the string
-- versions return: for all inputs.
pub repeat_bytes-repeat :
    (b : List ℕ) (count : ℕ) (s : List (List ℕ)) (sep : List ℕ)
    → (repeat_bytes b count ≡ repeat b count) × (join_bytes s sep ≡ join s sep)
unfolding repeat_bytes repeat join_bytes join
repeat_bytes-repeat b count [] sep = (repeat_bytes_loop-repeat_loop count [] b, refl)
repeat_bytes-repeat b count (e ∷ s) sep =
    (repeat_bytes_loop-repeat_loop count [] b, join_bytes_loop-join_loop e s sep)
