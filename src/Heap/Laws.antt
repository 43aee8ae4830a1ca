-- ===== src/Heap/Laws.antt =====
-- Init makes a heap, Push and Pop keep it, and Pop returns a least element.
use wasigoc.Common.{
  ℕ, zero, suc, ◌+◌, ◌-◌, ◌/◌, ◌<◌, ◌≤◌, ◌≡◌, refl, sym, ap, ◌∙◌, subst, arith, false, ◌==◌,
}
use wasigoc.Common.{some}
use wasigoc.Sort.Order.{Ordered, IsOrder}
use wasigoc.Heap.{Interface, up, down_loop, down, init_loop, init, push, pop}
use wasigoc.Heap.Order.{parent, IsHeap, IsHeapBut, IsHeapUnder, IsHeap-least}
use wasigoc.Heap.Sift.{IsCollection, up_loop-IsHeap, IsSifted, down_loop-IsSifted}

module _ {A : Type 0} (o : Ordered A) (laws : IsOrder o) (h : Interface A)
    (c : IsCollection o h) where
  IsHeap-under : (f : ℕ → A) (i n : ℕ) → IsHeap o f (suc i) n → IsHeapUnder o f i i n
  IsHeap-under f i n heap = record {
    others = λ k pos under low apart. heap k pos under (ground (arith, low, apart));
    bridged = λ k pos under e i_pos low. absurd (omega (arith, i_pos, low));
  }

  init_loop-IsHeap :
      (i : ℕ) (s : h.State) (n : ℕ)
      → i ≤ n / 2
      → h.len s ≡ n
      → IsHeap o (c.at s) i n
      → (h.len (init_loop h i s n) ≡ n) × IsHeap o (c.at (init_loop h i s n)) 0 n
  unfolding init_loop down
  init_loop-IsHeap zero s n low len heap = (len, heap)
  init_loop-IsHeap (suc i) s n low len heap =
      let sifted =
        down_loop-IsSifted o laws h c n s i i n (omega arith) (omega (arith, low)) (omega arith)
          (omega (arith, len)) (IsHeap-under (c.at s) i n heap) in
      init_loop-IsHeap i (down_loop h n s i n).0 n (omega (arith, low)) (sifted.len ∙ len)
        (sifted.heap)

  -- Init makes any collection a heap of the same length.
  pub init-IsHeap :
      (s : h.State) → (h.len (init h s) ≡ h.len s) × IsHeap o (c.at (init h s)) 0 (h.len (init h s))
  unfolding init
  init-IsHeap s =
      let (len, heap) =
        init_loop-IsHeap (h.len s / 2) s (h.len s) (omega arith) refl
          (λ k pos under low. absurd (omega (arith, pos, under, low))) in
      (len, subst (IsHeap o (c.at (init h s)) 0) (sym len) heap)

  -- Push keeps a heap a heap, which has one element more.
  pub push-IsHeap :
      (s : h.State) (x : A)
      → IsHeap o (c.at s) 0 (h.len s)
      → (h.len (push h s x) ≡ h.len s + 1) × IsHeap o (c.at (push h s x)) 0 (h.len (push h s x))
  unfolding push up
  push-IsHeap s x heap =
      let s' = h.push s x in
      let grown = c.len-push s x in
      let last : h.len s' - 1 ≡ h.len s = omega (arith, grown) in
      let but : IsHeapBut o (c.at s') (h.len s' - 1) (h.len s') = record {
        others = λ k pos under apart.
            let within : k < h.len s = ground (arith, apart, last, under, grown) in
            rw
              (c.at-push_other s x k within, c.at-push_other s x (parent k) (omega (arith, within)))
              (heap k pos within (omega arith));
        bridged = λ k pos under e j_pos. absurd (omega (arith, e, under, pos, grown));
      } in
      let (len, heap') =
        up_loop-IsHeap o laws h c (h.len s' - 1) s' (h.len s' - 1) (omega arith)
          (omega (arith, grown)) but in
      (len ∙ grown, subst (IsHeap o (c.at (push h s x)) 0) (sym len) heap')

  not_empty : (n : ℕ) → 0 < n → (n == 0) ≡ false
  not_empty n h = ground (arith, h)

  first-IsSifted :
      (n : ℕ) (s : h.State)
      → n ≤ h.len s
      → IsHeapUnder o (c.at s) 0 0 n
      → IsSifted o laws h c s (down_loop h n s 0 n).0 0 n
  unfolding down_loop
  first-IsSifted zero s within under = record {
    len = refl;
    heap = λ k pos k_under low. absurd (omega (arith, k_under));
    rest = λ k from k_under. refl;
  }
  first-IsSifted (suc n) s within under =
      down_loop-IsSifted o laws h c (suc n) s 0 0 (suc n) (omega arith) (omega arith) (omega arith)
        within under

  -- With the last element in front, a heap but the last element is in order but for the front.
  swapped-IsHeapUnder :
      (s : h.State)
      → IsHeap o (c.at s) 0 (h.len s)
      → 0 < h.len s
      → IsHeapUnder o (c.at (h.swap s 0 (h.len s - 1))) 0 0 (h.len s - 1)
  swapped-IsHeapUnder s heap some_left =
      let n = h.len s - 1 in
      let swapped = c.at-swap s 0 n some_left (omega (arith, some_left)) in
      record {
        others = λ k pos under low apart.
            rw
              (
                swapped.other k (ground (arith, pos)) (ground (arith, under)),
                swapped.other (parent k) apart (ground (arith, under, pos)),
              )
              (heap k pos (omega (arith, under)) low);
        bridged = λ k pos under e i_pos low. absurd (omega (arith, i_pos));
      }

  -- Pop of a heap that is not empty returns the first element, at most which no other is, and keeps
  -- the rest a heap, which has one element less.
  pub pop-IsHeap :
      (s : h.State)
      → 0 < h.len s
      → IsHeap o (c.at s) 0 (h.len s)
      → (x : A) × (s' : h.State) × (pop h s ≡ some (x, s'))
        × (x ≡ c.at s 0)
        × ((k : ℕ) → k < h.len s → o.lt (c.at s k) x ≡ false)
        × (h.len s' + 1 ≡ h.len s)
        × IsHeap o (c.at s') 0 (h.len s')
  unfolding pop down
  pop-IsHeap s some_left heap =
      let n = h.len s - 1 in
      let s1 = h.swap s 0 n in
      let s2 = (down_loop h n s1 0 n).0 in
      let len1 = c.len-swap s 0 n in
      let swapped = c.at-swap s 0 n some_left (omega (arith, some_left)) in
      let sifted =
        first-IsSifted n s1 (omega (arith, len1)) (swapped-IsHeapUnder s heap some_left) in
      let len2 : h.len s2 ≡ h.len s = sifted.len ∙ len1 in
      let filled : 0 < h.len s2 = omega (arith, len2, some_left) in
      let len3 = c.len-pop s2 filled in
      let last : (h.pop s2).0 ≡ c.at s 0 =
        c.value-pop s2 filled
        ∙ ap (c.at s2) (omega (arith, len2))
        ∙ sifted.rest n (omega arith) (omega (arith, len1, some_left))
        ∙ swapped.right in
      (
        (h.pop s2).0,
        (h.pop s2).1,
        rw (not_empty (h.len s) some_left) refl,
        last,
        λ k under. rw last (IsHeap-least o laws k (c.at s) (h.len s) heap k under (omega arith)),
        omega (arith, len3, len2, some_left),
        λ k pos under low.
            rw
              (
                c.at-pop s2 k (omega (arith, under, len3)),
                c.at-pop s2 (parent k) (omega (arith, under, len3)),
              )
              (sifted.heap k pos (omega (arith, under, len3, len2)) low),
      )
