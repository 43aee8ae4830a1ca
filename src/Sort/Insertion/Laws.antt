-- ===== src/Sort/Insertion/Laws.antt =====
-- The insertion sort sorts, permutes and never panics; the check decides sortedness.
use mathlib.Core.List.{append_assoc, append-nil, Perm, perm_middle}
use mathlib.Core.List.Perm
use wasigoc.Common.{
  ℕ, zero, suc, ◌+◌, ◌-◌, ◌≡◌, refl, sym, ap, ◌∙◌, ◌↔◌, arith, List, [], ◌∷◌, ◌++◌,
}
use wasigoc.Common.{
  true, false, length, length-append, All, All-append, subst, length-perm, Bool-cases, inl, inr,
}
use wasigoc.Common.Outcome.{ok}
use wasigoc.Common.Slices.{load_at, store_at}
use wasigoc.Sort.Order.{
  Ordered, IsOrder, IsSorted, AtMost, Above, IsSorted-append_left, AtMost-last, IsSorted-insert,
}
use wasigoc.Sort.Insertion.{shift, insert_at, sort_loop, sort, is_sorted}

-- A list that is not empty has a last element.
pub snoc_of_length {ℓ} :
    {A : Type ℓ} (n : ℕ) (p : List A)
    → length p ≡ suc n
    → (front : List A) × (a : A) × (p ≡ front ++ a ∷ []) × (length front ≡ n)
snoc_of_length n [] h = absurd (omega arith)
snoc_of_length zero (x ∷ []) h = ([], x, refl, refl)
snoc_of_length zero (x ∷ y ∷ p) h = absurd (omega arith)
snoc_of_length (suc n) (x ∷ p) h =
    let (front, a, e, l) = snoc_of_length n p (omega arith) in
    (x ∷ front, a, ap (◌∷◌ x) e, ap suc l)

module _ {A : Type 0} (o : Ordered A) (laws : IsOrder o) where
  shift_move :
      (n : ℕ) (front : List A) (a w v : A) (q : List A)
      → length front ≡ n
      → o.lt v a ≡ true
      → shift o ((front ++ a ∷ []) ++ w ∷ q) v (suc n) ≡ shift o (front ++ a ∷ a ∷ q) v n
  unfolding shift
  shift_move n front a w v q l e = rw (
    append_assoc front (a ∷ []) (w ∷ q),
    load_at n front a (w ∷ q) (sym l),
    e,
    ← append_assoc front (a ∷ []) (w ∷ q),
    store_at (suc n) (front ++ a ∷ []) w a q (omega (arith, length-append front (a ∷ []))),
    append_assoc front (a ∷ []) (a ∷ q),
  )

  shift_stop :
      (n : ℕ) (front : List A) (a w v : A) (q : List A)
      → length front ≡ n
      → o.lt v a ≡ false
      → shift o ((front ++ a ∷ []) ++ w ∷ q) v (suc n) ≡ ok ((front ++ a ∷ []) ++ w ∷ q, suc n)
  unfolding shift
  shift_stop n front a w v q l e =
      rw (append_assoc front (a ∷ []) (w ∷ q), load_at n front a (w ∷ q) (sym l), e)

  -- What the inner loop leaves: what is greater than `v` one place up, behind a hole, behind the rest.
  abbrev Parts : ℕ → List A → A → A → List A → Type 0
  Parts n p w v q =
      (low high : List A) × (w' : A) × (p ≡ low ++ high)
      × AtMost o v low
      × Above o v high
      × (shift o (p ++ w ∷ q) v n ≡ ok (low ++ w' ∷ (high ++ q), length low))

  shift-Parts :
      (n : ℕ) (p : List A) (w v : A) (q : List A) → length p ≡ n → IsSorted o p → Parts n p w v q
  shift-Parts zero [] w v q h s = ([], [], w, refl, tt, tt, unfold shift in refl)
  shift-Parts zero (x ∷ p) w v q h s = absurd (omega arith)
  shift-Parts (suc n) p w v q h s =
      let (front, a, e, l) = snoc_of_length n p h in
      subst (λ t. IsSorted o t → Parts (suc n) t w v q) (sym e)
        (λ s'. elim (Bool-cases (o.lt v a)) [
          | inl greater ↦
              let (low, high, w', e', al, ah, run) =
                shift-Parts n front a v (a ∷ q) l (IsSorted-append_left o front (a ∷ []) s') in
              (
                low,
                high ++ a ∷ [],
                w',
                rw e' (append_assoc low high (a ∷ [])),
                al,
                All-append (λ b. o.lt v b ≡ true) high (a ∷ []) ah (greater, tt),
                shift_move n front a w v q l greater ∙ rw (append_assoc high (a ∷ []) q) run,
              )
          | inr stop ↦ (
            front ++ a ∷ [],
            [],
            w,
            sym (append-nil _),
            AtMost-last o laws front a v s' stop,
            tt,
            shift_stop n front a w v q l stop
                ∙ ap (λ (k : ℕ). ok ((front ++ a ∷ []) ++ w ∷ q, k))
                    (omega (arith, length-append front (a ∷ []))),
          )
        ])
        s

  -- A round puts the next element where it belongs in the sorted part.
  insert_at-parts :
      (p : List A) (v : A) (q : List A)
      → IsSorted o p
      → (p' : List A) × (insert_at o (p ++ v ∷ q) (length p) ≡ ok (p' ++ q))
        × IsSorted o p'
        × Perm p' (v ∷ p)
  unfolding insert_at
  insert_at-parts p v q s =
      let (low, high, w', e, al, ah, run) = shift-Parts (length p) p v v q refl s in
      (
        low ++ v ∷ high,
        rw (load_at (length p) p v q refl, run, store_at (length low) low w' v (high ++ q) refl)
            (ap ok (sym (append_assoc low (v ∷ high) q))),
        IsSorted-insert o laws v low high (rw e at s) al ah,
        rw e (perm_middle low high),
      )

  sort_loop-sorts :
      (k i : ℕ) (p q : List A)
      → length p ≡ i
      → length q ≡ k
      → IsSorted o p
      → (y : List A) × (sort_loop o k i (p ++ q) ≡ ok y) × IsSorted o y × Perm y (p ++ q)
  unfolding sort_loop
  sort_loop-sorts zero i p [] h l s = (p, rw append-nil, s, rw append-nil (Perm.refl p))
  sort_loop-sorts zero i p (v ∷ q) h l s = absurd (omega arith)
  sort_loop-sorts (suc k) i p [] h l s = absurd (omega arith)
  sort_loop-sorts (suc k) i p (v ∷ q) h l s =
      let (p', run, s', same) = insert_at-parts p v q s in
      let (y, rest, sorted, perm) =
        sort_loop-sorts k (i + 1) p' q (omega (arith, h, length-perm same)) (omega arith) s' in
      (
        y,
        rw (← h, run) (rw (← h) at rest),
        sorted,
        Perm.trans perm (Perm.trans (Perm.append_right q same) (Perm.symm (perm_middle p q))),
      )

  -- Under a strict order whose negation is transitive `slices.Sort` never panics: it leaves the
  -- elements of the slice, as often as they were there, in ascending order.
  pub sort-sorts : (x : List A) → (y : List A) × (sort o x ≡ ok y) × IsSorted o y × Perm y x
  unfolding sort
  sort-sorts [] = ([], unfold sort_loop in refl, tt, Perm.refl [])
  sort-sorts (a ∷ x) =
      let rounds : suc (length x) - 1 ≡ length x = omega arith in
      rw rounds (sort_loop-sorts (length x) 1 (a ∷ []) x refl refl (tt, tt))

  at_most-All :
      (x y : A) (rest : List A)
      → o.lt y x ≡ false
      → All (λ z. o.lt z y ≡ false) rest
      → All (λ z. o.lt z x ≡ false) rest
  at_most-All x y [] e h = tt
  at_most-All x y (z ∷ rest) e h = (laws.le_trans x y z e h.0, at_most-All x y rest e h.1)

  is_sorted→IsSorted : (x : List A) → is_sorted o x ≡ true → IsSorted o x
  unfolding is_sorted
  is_sorted→IsSorted [] h = tt
  is_sorted→IsSorted (a ∷ []) h = (tt, tt)
  is_sorted→IsSorted (a ∷ b ∷ x) h = elim (Bool-cases (o.lt b a)) [
    | inl less ↦ absurd (ground (arith, less))
    | inr e ↦
        let ih = is_sorted→IsSorted (b ∷ x) (ground (arith, e)) in
        ((e, at_most-All a b x e ih.0), ih)
  ]

  IsSorted→is_sorted : (x : List A) → IsSorted o x → is_sorted o x ≡ true
  unfolding is_sorted
  IsSorted→is_sorted [] h = refl
  IsSorted→is_sorted (a ∷ []) h = refl
  IsSorted→is_sorted (a ∷ b ∷ x) h = rw h.0.0 (IsSorted→is_sorted (b ∷ x) h.1)

  -- `slices.IsSorted` looks at neighbours only, and yet says true exactly on the lists in which no
  -- element is less than an earlier one.
  pub is_sorted_iff : (x : List A) → (is_sorted o x ≡ true) ↔ IsSorted o x
  is_sorted_iff x = (is_sorted→IsSorted x, IsSorted→is_sorted x)
