-- ===== src/Sort/Interface/Laws.antt =====
-- sort.Sort through any faithful implementation of the interface.
use mathlib.Core.List.{append_assoc, append-nil, Perm, perm_middle}
use mathlib.Core.List.Perm
use wasigoc.Common.{ℕ, zero, suc, ◌+◌, ◌-◌, ◌≡◌, refl, sym, ap, ◌∙◌, arith}
use wasigoc.Common.{List, [], ◌∷◌, ◌++◌, true, length, length-append}
use wasigoc.Common.{All-append, Bool-cases, inl, inr, get_elem?, some, set}
use wasigoc.Sort.Order.{
  Ordered, IsOrder, IsSorted, AtMost, Above, IsSorted-append_left, AtMost-last, IsSorted-insert,
}
use wasigoc.Sort.Insertion.Laws.{snoc_of_length}
use wasigoc.Sort.Interface.{Interface, IsCollection, sink, sort_loop, sort}

-- Two neighbours, and the exchange of them.
neighbours :
    {A : Type 0} (n : ℕ) (p : List A) (a v : A) (q : List A)
    → length p ≡ n
    → (get_elem? (p ++ a ∷ v ∷ q) (suc n) ≡ some v)
      × (get_elem? (p ++ a ∷ v ∷ q) n ≡ some a)
      × (set (set (p ++ a ∷ v ∷ q) (suc n) a) n v ≡ p ++ v ∷ a ∷ q)
neighbours zero [] a v q h = (refl, refl, refl)
neighbours zero (x ∷ p) a v q h = absurd (omega arith)
neighbours (suc n) [] a v q h = absurd (omega arith)
neighbours (suc n) (x ∷ p) a v q h =
    let (first, second, both) = neighbours n p a v q (omega arith) in
    (first, second, ap (◌∷◌ x) both)

module _ {A : Type 0} (o : Ordered A) (laws : IsOrder o) (h : Interface) (view : h.State → List A)
    (faithful : IsCollection o h view) where
  -- What the inner loop leaves of `p ++ v ∷ q`.
  abbrev Sunk : List A → A → List A → h.State → Type 0
  Sunk p v q s' =
      (low high : List A) × (p ≡ low ++ high)
      × AtMost o v low
      × Above o v high
      × (view s' ≡ low ++ v ∷ (high ++ q))

  sink-parts :
      (n : ℕ) (p : List A) (v : A) (q : List A) (s : h.State)
      → length p ≡ n
      → IsSorted o p
      → view s ≡ p ++ v ∷ q
      → Sunk p v q (sink h s n)
  unfolding sink
  sink-parts zero [] v q s l sorted e = ([], [], refl, tt, tt, e)
  sink-parts zero (x ∷ p) v q s l sorted e = absurd (omega arith)
  sink-parts (suc n) p v q s l sorted e =
      let (front, a, shape, l') = snoc_of_length n p l in
      let whole : view s ≡ front ++ a ∷ v ∷ q =
        e ∙ rw shape (append_assoc front (a ∷ []) (v ∷ q)) in
      let (at_v, at_a, swapped) = neighbours n front a v q l' in
      let less = faithful.less_view s (suc n) n v a (rw whole at_v) (rw whole at_a) in
      let moved : view (h.swap s (suc n) n) ≡ front ++ v ∷ a ∷ q =
        faithful.swap_view s (suc n) n v a (rw whole at_v) (rw whole at_a) ∙ rw whole swapped in
      let sorted' : IsSorted o (front ++ a ∷ []) = rw shape at sorted in
      elim (Bool-cases (o.lt v a)) [
        | inl greater ↦
            let (low, high, e', al, ah, run) =
              sink-parts n front v (a ∷ q) (h.swap s (suc n) n) l'
                (IsSorted-append_left o front (a ∷ []) sorted') moved in
            rw (less ∙ greater) (
              low,
              high ++ a ∷ [],
              shape ∙ rw e' (append_assoc low high (a ∷ [])),
              al,
              All-append (λ b. o.lt v b ≡ true) high (a ∷ []) ah (greater, tt),
              run ∙ rw (append_assoc high (a ∷ []) q),
            )
        | inr stop ↦
            rw (less ∙ stop) (
              p,
              [],
              sym (append-nil p),
              rw shape (AtMost-last o laws front a v sorted' stop),
              tt,
              e,
            )
      ]

  sort_loop-sorts :
      (k i : ℕ) (p q : List A) (s : h.State)
      → length p ≡ i
      → length q ≡ k
      → IsSorted o p
      → view s ≡ p ++ q
      → IsSorted o (view (sort_loop h k i s)) × Perm (view (sort_loop h k i s)) (view s)
  unfolding sort_loop
  sort_loop-sorts zero i p [] s lp lq sorted e = (rw (e, append-nil) sorted, Perm.refl (view s))
  sort_loop-sorts zero i p (v ∷ q) s lp lq sorted e = absurd (omega arith)
  sort_loop-sorts (suc k) i p [] s lp lq sorted e = absurd (omega arith)
  sort_loop-sorts (suc k) i p (v ∷ q) s lp lq sorted e =
      let (low, high, shape, al, ah, run) = sink-parts i p v q s lp sorted e in
      let placed : view (sink h s i) ≡ (low ++ v ∷ high) ++ q =
        run ∙ sym (append_assoc low (v ∷ high) q) in
      let size : length (low ++ v ∷ high) ≡ i + 1 =
        omega (arith, length-append low (v ∷ high), length-append low high, ap length shape, lp) in
      let (done, perm) =
        sort_loop-sorts k (i + 1) (low ++ v ∷ high) q (sink h s i) size (omega arith)
          (IsSorted-insert o laws v low high (rw shape at sorted) al ah) placed in
      (
        done,
        Perm.trans perm (
            rw (placed, e)
              (Perm.trans (Perm.append_right {l₂ = v ∷ p} q (rw shape (perm_middle low high)))
                (Perm.symm (perm_middle p q)))),
      )

  -- Under a strict order whose negation is transitive, and for every implementation whose `Len`,
  -- `Less` and `Swap` speak of one collection, `Sort` leaves its elements in ascending order, each
  -- as often as it was there.
  pub interface_sort-sorts :
      (s : h.State) → IsSorted o (view (sort h s)) × Perm (view (sort h s)) (view s)
  unfolding sort sort_loop
  interface_sort-sorts s = start (view s) refl
    where
      start :
          (l : List A)
          → view s ≡ l
          → IsSorted o (view (sort_loop h (h.len s - 1) 1 s))
            × Perm (view (sort_loop h (h.len s - 1) 1 s)) (view s)
      start [] e =
          let none_left : h.len s - 1 ≡ 0 = omega (arith, faithful.len_view s, ap length e) in
          rw none_left (sort_loop-sorts 0 0 [] [] s refl refl tt e)
      start (a ∷ x) e =
          let rounds : h.len s - 1 ≡ length x = omega (arith, faithful.len_view s, ap length e) in
          rw rounds (sort_loop-sorts (length x) 1 (a ∷ []) x s refl refl (tt, tt) e)
