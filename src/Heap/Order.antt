-- ===== src/Heap/Order.antt =====
-- The order of a heap on the elements at 0, 1, ...: none is less than its parent. What a swap of an
-- element with its parent does to it.
use wasigoc.Common.{ℕ, zero, suc, ◌-◌, ◌/◌, ◌<◌, ◌≤◌, ◌≡◌, sym, ap, ◌∙◌, arith, true, false, ◌==◌}
use wasigoc.Common.{subst, Bool-cases, inl, inr}
use wasigoc.Sort.Order.{Ordered, IsOrder}

abbrev pub parent : ℕ → ℕ
parent k = (k - 1) / 2

module _ {A : Type 0} (o : Ordered A) where
  -- The element at `i` is at most the one at `k`.
  abbrev pub AtMost : (ℕ → A) → ℕ → ℕ → Type 0
  AtMost f i k = o.lt (f k) (f i) ≡ false

  -- No element below `n` whose parent is at `lo` or behind is less than its parent.
  abbrev pub IsHeap : (ℕ → A) → ℕ → ℕ → Type 0
  IsHeap f lo n = (k : ℕ) → 0 < k → k < n → lo ≤ parent k → AtMost f (parent k) k

  -- A heap but for the element at `j`, which may be less than its parent.
  pub record IsHeapBut (f : ℕ → A) (j n : ℕ) : Type 0 where
    pub others : (k : ℕ) → 0 < k → k < n → (k == j) ≡ false → AtMost f (parent k) k
    pub bridged : (k : ℕ) → 0 < k → k < n → parent k ≡ j → 0 < j → AtMost f (parent j) k

  -- A heap but for the element at `i`, which may be greater than its children.
  pub record IsHeapUnder (f : ℕ → A) (lo i n : ℕ) : Type 0 where
    pub others :
        (k : ℕ) → 0 < k → k < n → lo ≤ parent k → (parent k == i) ≡ false → AtMost f (parent k) k
    pub bridged :
        (k : ℕ) → 0 < k → k < n → parent k ≡ i → 0 < i → lo ≤ parent i → AtMost f (parent i) k

  pub record IsSwapped (f g : ℕ → A) (i j : ℕ) : Type 0 where
    pub left : g i ≡ f j
    pub right : g j ≡ f i
    pub other : (k : ℕ) → (k == i) ≡ false → (k == j) ≡ false → g k ≡ f k

  AtMost-same :
      (f g : ℕ → A) (i k i' k' : ℕ) → g i' ≡ f i → g k' ≡ f k → AtMost f i k → AtMost g i' k'
  AtMost-same f g i k i' k' e d h = rw (e, d) h

  module _ (laws : IsOrder o) where
    pub lt_refl : (a : A) → o.lt a a ≡ false
    lt_refl a = elim (Bool-cases (o.lt a a)) [
      | inl less ↦ laws.asym a a less
      | inr not_less ↦ not_less
    ]

    pub IsHeapBut-IsHeap :
        (f : ℕ → A) (j n : ℕ) → IsHeapBut f j n → (0 < j → AtMost f (parent j) j) → IsHeap f 0 n
    IsHeapBut-IsHeap f j n h e k pos under low = elim (Bool-cases (k == j)) [
      | inl same ↦ (let eq : k ≡ j = ground (arith, same) in rw eq (e (omega (arith, eq, pos))))
      | inr apart ↦ h.others k pos under apart
    ]

    -- An element less than its parent goes up.
    pub IsHeapBut-swap :
        (f g : ℕ → A) (j n : ℕ)
        → 0 < j
        → j < n
        → IsSwapped f g (parent j) j
        → o.lt (f j) (f (parent j)) ≡ true
        → IsHeapBut f j n
        → IsHeapBut g (parent j) n
    IsHeapBut-swap f g j n pos under swapped less h =
        let up : AtMost f j (parent j) = laws.asym (f j) (f (parent j)) less in
        record {
          others = λ k k_pos k_under apart. elim (Bool-cases (k == j)) [
            | inl same ↦
                let eq : k ≡ j = ground (arith, same) in
                AtMost-same f g j (parent j) (parent k) k (ap (λ k. g (parent k)) eq ∙ swapped.left)
                  (ap g eq ∙ swapped.right) up
            | inr moved ↦ elim (Bool-cases (parent k == j)) [
              | inl below ↦
                  let eq : parent k ≡ j = ground (arith, below) in
                  AtMost-same f g (parent j) k (parent k) k (ap g eq ∙ swapped.right)
                    (swapped.other k apart moved) (h.bridged k k_pos k_under eq pos)
              | inr not_below ↦ elim (Bool-cases (parent k == parent j)) [
                | inl sibling ↦
                    let eq : parent k ≡ parent j = ground (arith, sibling) in
                    AtMost-same f g j k (parent k) k (ap g eq ∙ swapped.left)
                      (swapped.other k apart moved)
                      (laws.le_trans (f j) (f (parent j)) (f k) up
                        (subst (λ i. AtMost f i k) eq (h.others k k_pos k_under moved)))
                | inr far ↦
                    AtMost-same f g (parent k) k (parent k) k
                      (swapped.other (parent k) far not_below) (swapped.other k apart moved)
                      (h.others k k_pos k_under moved)
              ]
            ]
          ];
          bridged = λ k k_pos k_under e i_pos.
              let top : g (parent (parent j)) ≡ f (parent (parent j)) =
                swapped.other (parent (parent j)) (ground (arith, i_pos)) (ground (arith, i_pos)) in
              let over : AtMost f (parent (parent j)) (parent j) =
                h.others (parent j) i_pos (omega (arith, under)) (ground (arith, pos)) in
              elim (Bool-cases (k == j)) [
                | inl same ↦
                    let eq : k ≡ j = ground (arith, same) in
                    AtMost-same f g (parent (parent j)) (parent j) (parent (parent j)) k top
                      (ap g eq ∙ swapped.right) over
                | inr moved ↦
                    AtMost-same f g (parent (parent j)) k (parent (parent j)) k top
                      (swapped.other k (ground (arith, e, i_pos)) moved)
                      (laws.le_trans (f (parent (parent j))) (f (parent j)) (f k) over
                        (subst (λ i. AtMost f i k) e (h.others k k_pos k_under moved)))
              ];
        }

    -- An element goes down below its smaller child.
    pub IsHeapUnder-swap :
        (f g : ℕ → A) (lo i c n : ℕ)
        → 0 < c
        → c < n
        → parent c ≡ i
        → lo ≤ i
        → IsSwapped f g i c
        → o.lt (f c) (f i) ≡ true
        → ((k : ℕ) → 0 < k → k < n → parent k ≡ i → AtMost f c k)
        → IsHeapUnder f lo i n
        → IsHeapUnder g lo c n
    IsHeapUnder-swap f g lo i c n pos under child low swapped less least h = record {
      others = λ k k_pos k_under k_low apart. elim (Bool-cases (k == c)) [
        | inl same ↦
            let eq : k ≡ c = ground (arith, same) in
            AtMost-same f g c i (parent k) k (ap (λ k. g (parent k)) eq ∙ ap g child ∙ swapped.left)
              (ap g eq ∙ swapped.right) (laws.asym (f c) (f i) less)
        | inr not_c ↦ elim (Bool-cases (parent k == i)) [
          | inl below ↦
              let eq : parent k ≡ i = ground (arith, below) in
              AtMost-same f g c k (parent k) k (ap g eq ∙ swapped.left)
                (swapped.other k (ground (arith, eq, k_pos)) not_c) (least k k_pos k_under eq)
          | inr not_below ↦ elim (Bool-cases (k == i)) [
            | inl same ↦
                let eq : k ≡ i = ground (arith, same) in
                AtMost-same f g (parent i) c (parent k) k
                  (ap (λ k. g (parent k)) eq
                    ∙ swapped.other (parent i) (ground (arith, eq, k_pos))
                        (ground (arith, child, eq, k_pos)))
                  (ap g eq ∙ swapped.left)
                  (h.bridged c pos under child (omega (arith, eq, k_pos))
                    (omega (arith, eq, k_low)))
            | inr far ↦
                AtMost-same f g (parent k) k (parent k) k (swapped.other (parent k) not_below apart)
                  (swapped.other k far not_c) (h.others k k_pos k_under k_low not_below)
          ]
        ]
      ];
      bridged = λ k k_pos k_under e c_pos c_low.
          AtMost-same f g c k (parent c) k (ap g child ∙ swapped.left)
            (swapped.other k (ground (arith, e, child, pos, k_pos)) (ground (arith, e, k_pos)))
            (subst (λ i'. AtMost f i' k) e
              (h.others k k_pos k_under (omega (arith, e, child, low, pos))
                (ground (arith, e, child, pos))));
    }

    pub IsHeapUnder-IsHeap :
        (f : ℕ → A) (lo i n : ℕ)
        → IsHeapUnder f lo i n
        → ((k : ℕ) → 0 < k → k < n → parent k ≡ i → AtMost f i k)
        → IsHeap f lo n
    IsHeapUnder-IsHeap f lo i n h below k pos under low = elim (Bool-cases (parent k == i)) [
      | inl child ↦
          let eq : parent k ≡ i = ground (arith, child) in
          subst (λ i'. AtMost f i' k) (sym eq) (below k pos under eq)
      | inr apart ↦ h.others k pos under low apart
    ]

    -- The first element of a heap is at most every other one.
    pub IsHeap-least :
        (fuel : ℕ) (f : ℕ → A) (n : ℕ) → IsHeap f 0 n → (k : ℕ) → k < n → k ≤ fuel → AtMost f 0 k
    IsHeap-least fuel f n h zero under enough = lt_refl (f 0)
    IsHeap-least zero f n h (suc k) under enough = absurd (omega (arith, enough))
    IsHeap-least (suc fuel) f n h (suc k) under enough =
        laws.le_trans (f 0) (f (parent (suc k))) (f (suc k))
          (IsHeap-least fuel f n h (parent (suc k)) (omega (arith, under)) (omega (arith, enough)))
          (h (suc k) (omega arith) under (omega arith))
