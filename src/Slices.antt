-- ===== src/Slices.antt =====
-- stdlib/slices/slices.go without Sort and IsSorted. `eq` and `less` are `==` and `<` of the
-- element type, and a result of `none` is a panic, or the index -1.
use mathlib.Core.List.{append_assoc, append-nil}
use wasigoc.Common.{
  ℕ, zero, suc, ◌+◌, ◌-◌, ◌≤◌, ◌<◌, ◌≡◌, refl, sym, ap, ◌∙◌, arith, List, [], ◌∷◌, ◌++◌,
}
use wasigoc.Common.{
  Bool, true, false, ◌==◌, ltb, not, if◌then◌else◌, Option, none, some, length, take, drop,
  get_elem?, length-drop, length-take, length-append, take-append-drop, take-length_append,
}
use wasigoc.Common.Outcome.{Outcome, ok, panic, ◌>>=◌}
use wasigoc.Common.Slices.{load, store}

module _ {ℓ} {A : Type ℓ} (eq : A → A → Bool) where
  index_loop : ℕ → List A → A → Option ℕ
  index_loop i [] v = none
  index_loop i (x ∷ s) v = if eq x v then some i else index_loop (i + 1) s v

  index : List A → A → Option ℕ
  index s v = index_loop 0 s v

  contains : List A → A → Bool
  contains s v = elim (index s v) [ some i ↦ true | none ↦ false ]

  equal_loop : List A → List A → Bool
  equal_loop [] b = true
  equal_loop (x ∷ a) [] = false
  equal_loop (x ∷ a) (y ∷ b) = if not (eq x y) then false else equal_loop a b

  equal : List A → List A → Bool
  equal a b = if not (length a == length b) then false else equal_loop a b

module _ {ℓ} {A : Type ℓ} where
  -- The loop of Reverse on fuel.
  reverse_loop : ℕ → ℕ → ℕ → List A → Outcome (List A)
  reverse_loop zero i j s = ok s
  reverse_loop (suc fuel) i j s =
      let round : Outcome (List A) = load s i >>= λ a. load s j >>= λ b.
      store s i b >>= λ s'. store s' j a >>= λ t. reverse_loop fuel (i + 1) (j - 1) t in
      if ltb i j then round else ok s

  reverse : List A → Outcome (List A)
  reverse s = reverse_loop (length s) 0 (length s - 1) s

  -- The loops of Insert, Delete and Concat that append `s[k]` for `k` from `i` on, `n` times.
  append_from : ℕ → ℕ → List A → List A → Outcome (List A)
  append_from zero i s out = ok out
  append_from (suc n) i s out = load s i >>= λ a. append_from n (i + 1) s (out ++ a ∷ [])

  pub insert : List A → ℕ → A → Outcome (List A)
  insert s i v = append_from i 0 s [] >>= λ out. append_from (length s - i) i s (out ++ v ∷ [])

  -- A negative capacity `len(s)-(j-i)` panics.
  pub delete : List A → ℕ → ℕ → Outcome (List A)
  delete s i j =
      if ltb (length s + i) j
      then panic
      else append_from i 0 s [] >>= λ out. append_from (length s - j) j s out

  clone : List A → Outcome (List A)
  clone s = append_from (length s) 0 s []

  concat_loop : List A → List (List A) → Outcome (List A)
  concat_loop out [] = ok out
  concat_loop out (s ∷ slices) = append_from (length s) 0 s out >>= λ out'. concat_loop out' slices

  concat : List (List A) → Outcome (List A)
  concat slices = concat_loop [] slices

  module _ (less : A → A → Bool) where
    max_loop : A → List A → A
    max_loop m [] = m
    max_loop m (x ∷ s) = max_loop (if less m x then x else m) s

    max : List A → Outcome A
    max [] = panic
    max (x ∷ s) = ok (max_loop x s)

    min_loop : A → List A → A
    min_loop m [] = m
    min_loop m (x ∷ s) = min_loop (if less x m then x else m) s

    min : List A → Outcome A
    min [] = panic
    min (x ∷ s) = ok (min_loop x s)

module _ {ℓ} {A : Type ℓ} where
  append_from-slice :
      (n i : ℕ) (s out : List A)
      → i + n ≤ length s
      → append_from n i s out ≡ ok (out ++ take n (drop i s))
  unfolding append_from load
  append_from-slice zero i s out h = ap ok (sym (append-nil out))
  append_from-slice (suc n) i s out h =
      let (a, e, f) = at_front n i s (omega arith) in
      rw (e, append_from)
        (append_from-slice n (i + 1) s (out ++ a ∷ []) (omega arith)
          ∙ ap ok
              (append_assoc out (a ∷ []) (take n (drop (i + 1) s)) ∙ ap (λ t. out ++ t) (sym f)))
    where
      at_front :
          (n i : ℕ) (s : List A)
          → i < length s
          → (a : A) × (get_elem? s i ≡ some a)
            × (take (suc n) (drop i s) ≡ a ∷ take n (drop (i + 1) s))
      at_front n i [] h = absurd (omega arith)
      at_front n zero (x ∷ s) h = (x, refl, refl)
      at_front n (suc i) (x ∷ s) h =
          let q : suc i + 1 ≡ suc (i + 1) = omega arith in rw q (at_front n i s (omega arith))

  take-all : (s : List A) → take (length s) s ≡ s
  take-all [] = refl
  take-all (x ∷ s) = ap (◌∷◌ x) (take-all s)

  drop-suc-length : (p : List A) (v : A) (q : List A) → drop (suc (length p)) (p ++ v ∷ q) ≡ q
  drop-suc-length [] v q = refl
  drop-suc-length (x ∷ p) v q = drop-suc-length p v q

  pub insert_lem :
      (s : List A) (i : ℕ) (v : A) → i ≤ length s → insert s i v ≡ ok (take i s ++ v ∷ drop i s)
  unfolding insert
  insert_lem s i v h =
      let rest : take (length s - i) (drop i s) ≡ drop i s =
        ap (λ n. take n (drop i s)) (omega (arith, length-drop i s)) ∙ take-all (drop i s) in
      rw
        (
          append_from-slice i 0 s [] (omega (arith, h)),
          append_from-slice (length s - i) i s (take i s ++ v ∷ []) (omega (arith, h)),
        )
        (ap ok (
          append_assoc (take i s) (v ∷ []) (take (length s - i) (drop i s))
          ∙ ap (λ t. take i s ++ v ∷ t) rest))

  pub delete_lem :
      (s : List A) (i j : ℕ) → i ≤ j → j ≤ length s → delete s i j ≡ ok (take i s ++ drop j s)
  unfolding delete
  delete_lem s i j h l =
      let cap : ltb (length s + i) j ≡ false = ground (arith, h, l) in
      let rest : take (length s - j) (drop j s) ≡ drop j s =
        ap (λ n. take n (drop j s)) (omega (arith, length-drop j s)) ∙ take-all (drop j s) in
      rw
        (
          cap,
          append_from-slice i 0 s [] (omega (arith, h, l)),
          append_from-slice (length s - j) j s (take i s) (omega (arith, l)),
        )
        (ap ok (ap (λ t. take i s ++ t) rest))

  -- Delete of the place at which Insert put an element gives the slice back, for every place up to
  -- the length, and neither panics there.
  pub delete-insert :
      (s : List A) (i : ℕ) (v : A)
      → i ≤ length s
      → (t : List A) × (insert s i v ≡ ok t) × (delete t i (i + 1) ≡ ok s)
  delete-insert s i v h =
      let t = take i s ++ v ∷ drop i s in
      let len : i ≡ length (take i s) = omega (arith, h, length-take i s) in
      let front : take i t ≡ take i s =
        ap (λ n. take n t) len ∙ take-length_append (take i s) (v ∷ drop i s) in
      let next : i + 1 ≡ suc (length (take i s)) = omega (arith, len) in
      let back : drop (i + 1) t ≡ drop i s =
        ap (λ n. drop n t) next ∙ drop-suc-length (take i s) v (drop i s) in
      (
        t,
        insert_lem s i v h,
        delete_lem t i (i + 1) (omega arith)
              (omega (arith, length-append (take i s) (v ∷ drop i s), len))
            ∙ ap ok (
                ap (λ a. a ++ drop (i + 1) t) front
                ∙ ap (λ b. take i s ++ b) back
                ∙ take-append-drop i s),
      )
