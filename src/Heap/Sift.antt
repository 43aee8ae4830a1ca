-- ===== src/Heap/Sift.antt =====
-- What up and down do to a collection that meets the laws of heap.Interface.
use wasigoc.Common.{
  ℕ, zero, suc, ◌+◌, ◌-◌, ◌*◌, ◌<◌, ◌≤◌, ◌≡◌, refl, sym, ◌∙◌, subst, arith, true, false, ◌==◌,
}
use wasigoc.Common.{ltb, leb, Bool-cases, inl, inr}
use wasigoc.Sort.Order.{Ordered, IsOrder}
use wasigoc.Heap.{Interface, up_loop, child, down_loop}
use wasigoc.Heap.Order.{
  parent, AtMost, IsHeap, IsHeapBut, IsHeapUnder, IsSwapped, IsHeapBut-IsHeap, IsHeapBut-swap,
  IsHeapUnder-IsHeap, IsHeapUnder-swap, lt_refl,
}

-- What the documentation asks of the five methods: there are elements at the indices below Len, Less
-- compares them, Swap swaps them, Push adds one at the end and Pop takes the last one off.
pub record IsCollection {A : Type 0} (o : Ordered A) (h : Interface A) : Type 0 where
  pub at : h.State → ℕ → A
  pub less_at :
      (s : h.State) (i j : ℕ) → i < h.len s → j < h.len s → h.less s i j ≡ o.lt (at s i) (at s j)
  pub len-swap : (s : h.State) (i j : ℕ) → h.len (h.swap s i j) ≡ h.len s
  pub at-swap :
      (s : h.State) (i j : ℕ)
      → i < h.len s
      → j < h.len s
      → IsSwapped o (at s) (at (h.swap s i j)) i j
  pub len-push : (s : h.State) (x : A) → h.len (h.push s x) ≡ h.len s + 1
  pub at-push : (s : h.State) (x : A) → at (h.push s x) (h.len s) ≡ x
  pub at-push_other : (s : h.State) (x : A) (k : ℕ) → k < h.len s → at (h.push s x) k ≡ at s k
  pub value-pop : (s : h.State) → 0 < h.len s → (h.pop s).0 ≡ at s (h.len s - 1)
  pub len-pop : (s : h.State) → 0 < h.len s → h.len ((h.pop s).1) ≡ h.len s - 1
  pub at-pop : (s : h.State) (k : ℕ) → k < h.len s - 1 → at ((h.pop s).1) k ≡ at s k

module _ {A : Type 0} (o : Ordered A) (laws : IsOrder o) (h : Interface A)
    (c : IsCollection o h) where
  up_loop-zero : (fuel : ℕ) (s : h.State) → up_loop h fuel s 0 ≡ s
  unfolding up_loop
  up_loop-zero zero s = refl
  up_loop-zero (suc fuel) s = refl

  up_loop_less :
      (fuel : ℕ) (s : h.State) (j : ℕ)
      → h.less s (suc j) (parent (suc j)) ≡ true
      → up_loop h (suc fuel) s (suc j)
        ≡ up_loop h fuel (h.swap s (parent (suc j)) (suc j)) (parent (suc j))
  unfolding up_loop
  up_loop_less fuel s j less =
      let not_zero : (suc j == 0) ≡ false = ground arith in
      let apart : (parent (suc j) == suc j) ≡ false = ground arith in
      rw (not_zero, apart, less) refl

  up_loop_stays :
      (fuel : ℕ) (s : h.State) (j : ℕ)
      → h.less s (suc j) (parent (suc j)) ≡ false
      → up_loop h (suc fuel) s (suc j) ≡ s
  unfolding up_loop
  up_loop_stays fuel s j stays =
      let not_zero : (suc j == 0) ≡ false = ground arith in
      let apart : (parent (suc j) == suc j) ≡ false = ground arith in
      rw (not_zero, apart, stays) refl

  -- up puts the element at `j` in order, if all else is.
  pub up_loop-IsHeap :
      (fuel : ℕ) (s : h.State) (j : ℕ)
      → j ≤ fuel
      → j < h.len s
      → IsHeapBut o (c.at s) j (h.len s)
      → (h.len (up_loop h fuel s j) ≡ h.len s) × IsHeap o (c.at (up_loop h fuel s j)) 0 (h.len s)
  up_loop-IsHeap fuel s zero enough under but =
      rw (up_loop-zero fuel s) (
        refl,
        IsHeapBut-IsHeap o laws (c.at s) 0 (h.len s) but (λ pos. absurd (omega (arith, pos))),
      )
  up_loop-IsHeap zero s (suc j) enough under but = absurd (omega (arith, enough))
  up_loop-IsHeap (suc fuel) s (suc j) enough under but =
      let i = parent (suc j) in
      let s' = h.swap s i (suc j) in
      let same : h.len s' ≡ h.len s = c.len-swap s i (suc j) in
      let compared = c.less_at s (suc j) i under (omega (arith, under)) in
      elim (Bool-cases (h.less s (suc j) i)) [
        | inl less ↦
            let but' =
              IsHeapBut-swap o laws (c.at s) (c.at s') (suc j) (h.len s) (omega arith) under
                (c.at-swap s i (suc j) (omega (arith, under)) under) (sym compared ∙ less) but in
            let (len, heap) =
              up_loop-IsHeap fuel s' i (omega (arith, enough)) (omega (arith, under, same))
                (subst (IsHeapBut o (c.at s') i) (sym same) but') in
            rw (up_loop_less fuel s j less) (len ∙ same, subst (IsHeap o _ 0) same heap)
        | inr stays ↦ rw (up_loop_stays fuel s j stays) (
          refl,
          IsHeapBut-IsHeap o laws (c.at s) (suc j) (h.len s) but (λ pos. sym compared ∙ stays),
        )
      ]

  same_place : (k i : ℕ) → (k == i) ≡ true → k ≡ i
  same_place k i e = ground (arith, e)

  -- The child that down compares is the smaller one.
  child-IsLeast :
      (s : h.State) (i n : ℕ)
      → 2 * i + 1 < n
      → n ≤ h.len s
      → (0 < child h s i n)
        × (child h s i n < n)
        × (parent (child h s i n) ≡ i)
        × ((k : ℕ) → 0 < k → k < n → parent k ≡ i → AtMost o (c.at s) (child h s i n) k)
  unfolding child
  child-IsLeast s i n under within = elim (Bool-cases (ltb (2 * i + 1 + 1) n)) [
    | inr only ↦ rw only (
      omega arith,
      under,
      omega arith,
      λ k pos k_under e.
          let eq : k ≡ 2 * i + 1 = ground (arith, e, pos, k_under, only) in
          subst (AtMost o (c.at s) (2 * i + 1)) (sym eq) (lt_refl o laws (c.at s (2 * i + 1))),
    )
    | inl two ↦
        let compared =
          c.less_at s (2 * i + 1 + 1) (2 * i + 1) (ground (arith, two, within))
            (omega (arith, under, within)) in
        elim (Bool-cases (h.less s (2 * i + 1 + 1) (2 * i + 1))) [
          | inl less ↦
              let smaller =
                laws.asym (c.at s (2 * i + 1 + 1)) (c.at s (2 * i + 1)) (sym compared ∙ less) in
              rw (two, less)
                (
                  omega arith,
                  ground (arith, two),
                  omega arith,
                  λ k pos k_under e. elim (Bool-cases (k == 2 * i + 1)) [
                    | inl left ↦
                        subst (AtMost o (c.at s) (2 * i + 1 + 1))
                          (sym (same_place k (2 * i + 1) left)) smaller
                    | inr right ↦
                        let eq : k ≡ 2 * i + 1 + 1 = ground (arith, right, e, pos) in
                        subst (AtMost o (c.at s) (2 * i + 1 + 1)) (sym eq)
                          (lt_refl o laws (c.at s (2 * i + 1 + 1)))
                  ],
                )
          | inr stays ↦
              rw (two, stays)
                (
                  omega arith,
                  under,
                  omega arith,
                  λ k pos k_under e. elim (Bool-cases (k == 2 * i + 1)) [
                    | inl left ↦
                        subst (AtMost o (c.at s) (2 * i + 1)) (sym (same_place k (2 * i + 1) left))
                          (lt_refl o laws (c.at s (2 * i + 1)))
                    | inr right ↦
                        let eq : k ≡ 2 * i + 1 + 1 = ground (arith, right, e, pos) in
                        subst (AtMost o (c.at s) (2 * i + 1)) (sym eq) (sym compared ∙ stays)
                  ],
                )
        ]
  ]

  down_loop_leaf :
      (fuel : ℕ) (s : h.State) (i n : ℕ) → n ≤ 2 * i + 1 → down_loop h (suc fuel) s i n ≡ (s, i)
  unfolding down_loop
  down_loop_leaf fuel s i n leaf =
      let none_left : leb n (2 * i + 1) ≡ true = ground (arith, leaf) in rw none_left refl

  down_loop_stays :
      (fuel : ℕ) (s : h.State) (i n : ℕ)
      → 2 * i + 1 < n
      → h.less s (child h s i n) i ≡ false
      → down_loop h (suc fuel) s i n ≡ (s, i)
  unfolding down_loop
  down_loop_stays fuel s i n under stays =
      let some_left : leb n (2 * i + 1) ≡ false = ground (arith, under) in
      rw (some_left, stays) refl

  down_loop_less :
      (fuel : ℕ) (s : h.State) (i n : ℕ)
      → 2 * i + 1 < n
      → h.less s (child h s i n) i ≡ true
      → down_loop h (suc fuel) s i n
        ≡ down_loop h fuel (h.swap s i (child h s i n)) (child h s i n) n
  unfolding down_loop
  down_loop_less fuel s i n under less =
      let some_left : leb n (2 * i + 1) ≡ false = ground (arith, under) in rw (some_left, less) refl

  -- What down leaves: the length, a heap, and the elements from `n` on.
  pub record IsSifted (s s' : h.State) (lo n : ℕ) : Type 0 where
    pub len : h.len s' ≡ h.len s
    pub heap : IsHeap o (c.at s') lo n
    pub rest : (k : ℕ) → n ≤ k → k < h.len s → c.at s' k ≡ c.at s k

  -- down puts the element at `i` in order among the first `n`, if all else behind `lo` is.
  pub down_loop-IsSifted :
      (fuel : ℕ) (s : h.State) (lo i n : ℕ)
      → n ≤ i + fuel
      → i < n
      → lo ≤ i
      → n ≤ h.len s
      → IsHeapUnder o (c.at s) lo i n
      → IsSifted s (down_loop h fuel s i n).0 lo n
  down_loop-IsSifted zero s lo i n enough under low within heap =
      absurd (omega (arith, enough, under))
  down_loop-IsSifted (suc fuel) s lo i n enough under low within heap =
      elim (Bool-cases (ltb (2 * i + 1) n)) [
        | inr leaf ↦ rw (down_loop_leaf fuel s i n (ground (arith, leaf))) (record {
          len = refl;
          heap =
              IsHeapUnder-IsHeap o laws (c.at s) lo i n heap
                (λ k pos k_under e. absurd (ground (arith, leaf, e, k_under, pos)));
          rest = λ k from k_under. refl;
        })
        | inl inner ↦
            let room : 2 * i + 1 < n = ground (arith, inner) in
            let j = child h s i n in
            let (j_pos, j_under, j_parent, least) = child-IsLeast s i n room within in
            let compared =
              c.less_at s j i (omega (arith, j_under, within)) (omega (arith, under, within)) in
            elim (Bool-cases (h.less s j i)) [
              | inr stays ↦ rw (down_loop_stays fuel s i n room stays) (record {
                len = refl;
                heap = IsHeapUnder-IsHeap o laws (c.at s) lo i n heap (λ k pos k_under e.
                    laws.le_trans (c.at s i) (c.at s j) (c.at s k) (sym compared ∙ stays)
                      (least k pos k_under e));
                rest = λ k from k_under. refl;
              })
              | inl less ↦
                  let s' = h.swap s i j in
                  let same : h.len s' ≡ h.len s = c.len-swap s i j in
                  let swapped =
                    c.at-swap s i j (omega (arith, under, within))
                      (omega (arith, j_under, within)) in
                  let heap' =
                    IsHeapUnder-swap o laws (c.at s) (c.at s') lo i j n j_pos j_under j_parent low
                      swapped (sym compared ∙ less) least heap in
                  let after =
                    down_loop-IsSifted fuel s' lo j n (omega (arith, enough, j_parent, j_pos))
                      j_under (omega (arith, low, j_parent)) (omega (arith, within, same)) heap' in
                  rw (down_loop_less fuel s i n room less) (record {
                    len = after.len ∙ same;
                    heap = after.heap;
                    rest = λ k from k_under.
                        after.rest k from (omega (arith, k_under, same))
                        ∙ swapped.other k (ground (arith, from, under))
                            (ground (arith, from, j_under));
                  })
            ]
      ]
