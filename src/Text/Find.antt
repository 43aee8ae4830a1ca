-- ===== src/Text/Find.antt =====
-- The search for a substring: strings.Index and bytes.Index, against the first occurrence.
use wasigoc.Common.{
  ℕ, zero, suc, ◌+◌, ◌-◌, ◌≤◌, ◌<◌, ◌≡◌, ◌↔◌, refl, sym, ap, ◌∙◌, arith, List, [], ◌∷◌, ◌++◌,
}
use wasigoc.Common.{Bool, true, false, ◌&&◌, ltb, ◌==◌, if◌then◌else◌, Option, none, some}
use wasigoc.Common.{
  length, take, drop, length-take, length-drop, Bool-cases, inl, inr, take-append-drop,
}

-- `s == t` on strings.
unfoldable pub same_text : List ℕ → List ℕ → Bool
same_text [] [] = true
same_text [] (y ∷ t) = false
same_text (x ∷ s) [] = false
same_text (x ∷ s) (y ∷ t) = x == y && same_text s t

pub same_text_iff : (s t : List ℕ) → (same_text s t ≡ true) ↔ (s ≡ t)
unfolding same_text
same_text_iff [] [] = (λ e. refl, λ e. refl)
same_text_iff [] (y ∷ t) = (λ e. cc, λ e. cc)
same_text_iff (x ∷ s) [] = (λ e. cc, λ e. cc)
same_text_iff (x ∷ s) (y ∷ t) =
    (λ e. ground (arith, same_text_iff s t), λ e. ground (arith, same_text_iff s t))

-- The loop of strings.Index from `i` on, with `k` rounds left.
pub index_loop : ℕ → ℕ → List ℕ → List ℕ → Option ℕ
index_loop zero i s sub = none
index_loop (suc k) i s sub =
    let later = index_loop k (i + 1) s sub in
    if same_text (take (length sub) (drop i s)) sub then some i else later

pub index : List ℕ → List ℕ → Option ℕ
index s sub =
    if length sub == 0
    then some 0
    else if ltb (length s) (length sub)
    then none
    else index_loop (length s - length sub + 1) 0 s sub

-- The inner loop of bytes.Index: do the bytes of `sep` stand at the front?
pub match_loop : List ℕ → List ℕ → Bool
match_loop s [] = true
match_loop [] (b ∷ sep) = false
match_loop (x ∷ s) (b ∷ sep) = x == b && match_loop s sep

pub index_bytes_loop : ℕ → ℕ → List ℕ → List ℕ → Option ℕ
index_bytes_loop zero i s sep = none
index_bytes_loop (suc k) i s sep =
    let later = index_bytes_loop k (i + 1) s sep in
    if match_loop (drop i s) sep then some i else later

pub index_bytes : List ℕ → List ℕ → Option ℕ
index_bytes s sep =
    if length sep == 0
    then some 0
    else if ltb (length s) (length sep)
    then none
    else index_bytes_loop (length s - length sep + 1) 0 s sep

-- `sub` stands in `s` at `i`.
abbrev pub OccursAt : List ℕ → List ℕ → ℕ → Type 0
OccursAt s sub i = take (length sub) (drop i s) ≡ sub

-- The first place at which `sub` stands in `s`, if there is one.
abbrev pub IsFirst : List ℕ → List ℕ → Option ℕ → Type 0
IsFirst s sub (some i) =
    OccursAt s sub i × (i + length sub ≤ length s) × ((j : ℕ) → j < i → ¬ OccursAt s sub j)
IsFirst s sub none = (j : ℕ) → ¬ OccursAt s sub j

-- An occurrence of a text that is not empty lies inside.
pub OccursAt-le :
    (s sub : List ℕ) (i : ℕ) → 0 < length sub → OccursAt s sub i → i + length sub ≤ length s
OccursAt-le s sub i h e =
    omega (arith, ap length e, length-take (length sub) (drop i s), length-drop i s)

index_loop-IsFirst :
    (k i : ℕ) (s sub : List ℕ)
    → 0 < length sub
    → i + k + length sub ≡ suc (length s)
    → ((j : ℕ) → j < i → ¬ OccursAt s sub j)
    → IsFirst s sub (index_loop k i s sub)
unfolding index_loop
index_loop-IsFirst zero i s sub h e before =
    λ j o. before j (omega (arith, OccursAt-le s sub j h o)) o
index_loop-IsFirst (suc k) i s sub h e before =
    elim (Bool-cases (same_text (take (length sub) (drop i s)) sub)) [
      | inl t ↦ rw t ((same_text_iff _ _).0 t, omega arith, before)
      | inr f ↦ rw f (
          index_loop-IsFirst k (i + 1) s sub h (omega arith)
            (λ j lt o. before j (ne_here j lt o f) o))
    ]
  where
    ne_here :
        (j : ℕ)
        → j < i + 1
        → OccursAt s sub j
        → same_text (take (length sub) (drop i s)) sub ≡ false
        → j < i
    ne_here j lt o f = elim (Bool-cases (ltb j i)) [
      | inl less ↦ ground arith
      | inr no' ↦
          let same : j ≡ i = ground arith in absurd (clash ((same_text_iff _ _).1 (rw same at o)) f)
    ]
      where
        clash : {b : Bool} → b ≡ true → b ≡ false → ⊥
        clash p q = cc

-- strings.Index returns the first place at which the substring stands, and -1 exactly if there is
-- none: for all texts, the empty ones included.
pub index-IsFirst : (s sub : List ℕ) → IsFirst s sub (index s sub)
unfolding index
index-IsFirst s [] = (refl, omega arith, λ j lt. absurd (omega arith))
index-IsFirst s (x ∷ sub) =
    let ne : (length (x ∷ sub) == 0) ≡ false = ground arith in
    elim (Bool-cases (ltb (length s) (length (x ∷ sub)))) [
      | inl short ↦
          rw (ne, short)
            (λ j o. absurd (too_short j short (OccursAt-le s (x ∷ sub) j (omega arith) o)))
      | inr long ↦
          rw (ne, long)
            (index_loop-IsFirst (length s - length (x ∷ sub) + 1) 0 s (x ∷ sub) (omega arith)
              (ground (arith, long)) (λ j lt. absurd (omega arith)))
    ]
  where
    too_short :
        (j : ℕ) → ltb (length s) (length (x ∷ sub)) ≡ true → j + length (x ∷ sub) ≤ length s → ⊥
    too_short j e h = ground arith

match_loop-eq : (s sep : List ℕ) → match_loop s sep ≡ same_text (take (length sep) s) sep
unfolding match_loop same_text
match_loop-eq [] [] = refl
match_loop-eq (x ∷ s) [] = refl
match_loop-eq [] (b ∷ sep) = refl
match_loop-eq (x ∷ s) (b ∷ sep) = rw (match_loop-eq s sep)

index_bytes_loop-eq : (k i : ℕ) (s sep : List ℕ) → index_bytes_loop k i s sep ≡ index_loop k i s sep
unfolding index_bytes_loop index_loop
index_bytes_loop-eq zero i s sep = refl
index_bytes_loop-eq (suc k) i s sep =
    rw (match_loop-eq (drop i s) sep, index_bytes_loop-eq k (i + 1) s sep)

-- bytes.Index, which compares byte by byte, and strings.Index, which compares slices, agree on all
-- inputs.
pub index_bytes-index : (s sep : List ℕ) → index_bytes s sep ≡ index s sep
unfolding index_bytes index
index_bytes-index s sep = rw (index_bytes_loop-eq (length s - length sep + 1) 0 s sep)

pub drop-drop : (i m : ℕ) (s : List ℕ) → drop m (drop i s) ≡ drop (i + m) s
drop-drop zero m s = ap (λ k. drop k s) (omega arith)
drop-drop (suc i) m [] = drop-none m ∙ sym (drop-none (suc i + m))
  where
    drop-none : (m : ℕ) → drop {A = ℕ} m [] ≡ []
    drop-none zero = refl
    drop-none (suc m) = refl
drop-drop (suc i) m (x ∷ s) =
    let e : suc (i + m) ≡ suc i + m = omega arith in drop-drop i m s ∙ ap (λ k. drop k (x ∷ s)) e

-- An occurrence splits the text in three.
pub OccursAt-append :
    (s sub : List ℕ) (i : ℕ) → OccursAt s sub i → s ≡ take i s ++ (sub ++ drop (i + length sub) s)
OccursAt-append s sub i o =
    sym (take-append-drop i s)
    ∙ ap (λ t. take i s ++ t)
        (sym (take-append-drop (length sub) (drop i s)) ∙ rw (o, drop-drop i (length sub) s))

take-drop-take :
    (m i j : ℕ) (s : List ℕ) → i + m ≤ j → take m (drop i (take j s)) ≡ take m (drop i s)
take-drop-take zero i j s h = refl
take-drop-take (suc m) i zero s h = absurd (omega arith)
take-drop-take (suc m) i (suc j) [] h = refl
take-drop-take (suc m) zero (suc j) (x ∷ s) h = ap (◌∷◌ x) (take-drop-take m 0 j s (omega arith))
take-drop-take (suc m) (suc i) (suc j) (x ∷ s) h = take-drop-take (suc m) i j s (omega arith)

-- What occurs in a front part occurs in the text, before the part's end.
pub OccursAt-take :
    (s sub : List ℕ) (i j : ℕ)
    → 0 < length sub
    → OccursAt (take j s) sub i
    → OccursAt s sub i × (i < j)
OccursAt-take s sub i j h o =
    let fits = OccursAt-le (take j s) sub i h o in
    let inside : i + length sub ≤ j = omega (arith, length-take j s) in
    (sym (take-drop-take (length sub) i j s inside) ∙ o, omega arith)
