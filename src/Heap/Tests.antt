-- ===== src/Heap/Tests.antt =====
-- A collection of natural numbers, made a heap, grown and shrunk.
use wasigoc.Common.{ℕ, ◌+◌, ◌-◌, ◌<◌, ◌≡◌, refl, arith, true, false, ◌==◌, some, if◌then◌else◌}
use wasigoc.Common.{Bool-cases, inl, inr, ap}
use wasigoc.Sort.Order.{nat_ordered, nat_ordered-IsOrder}
use wasigoc.Heap.{Interface, push, pop}
use wasigoc.Heap.Order.{IsHeap, IsSwapped}
use wasigoc.Heap.Sift.{IsCollection}
use wasigoc.Heap.Laws.{push-IsHeap, pop-IsHeap}

-- The length and the elements.
abbrev Numbers : Type 0
Numbers = ℕ × (ℕ → ℕ)

abbrev exchange : (ℕ → ℕ) → ℕ → ℕ → ℕ → ℕ
exchange f i j k = if k == i then f j else if k == j then f i else f k

abbrev numbers : Interface ℕ
numbers = record {
  State = Numbers;
  len = λ s. s.0;
  less = λ s i j. nat_ordered.lt (s.1 i) (s.1 j);
  swap = λ s i j. (s.0, exchange (s.1) i j);
  push = λ s x. (s.0 + 1, λ k. if k == s.0 then x else s.1 k);
  pop = λ s. (s.1 (s.0 - 1), (s.0 - 1, s.1));
}

exchange-IsSwapped : (f : ℕ → ℕ) (i j : ℕ) → IsSwapped nat_ordered f (exchange f i j) i j
exchange-IsSwapped f i j = record {
  left = (let same : (i == i) ≡ true = ground arith in rw same refl);
  right = elim (Bool-cases (j == i)) [
    | inl eq ↦ rw eq (ap f (ground (arith, eq)))
    | inr apart ↦ (let same : (j == j) ≡ true = ground arith in rw (apart, same) refl)
  ];
  other = λ k p q. rw (p, q) refl;
}

numbers-IsCollection : IsCollection nat_ordered numbers
numbers-IsCollection = record {
  at = λ s. s.1;
  less_at = λ s i j p q. refl;
  len-swap = λ s i j. refl;
  at-swap = λ s i j p q. exchange-IsSwapped (s.1) i j;
  len-push = λ s x. refl;
  at-push = λ s x. (let same : (s.0 == s.0) ≡ true = ground arith in rw same refl);
  at-push_other = λ s x k p. (let apart : (k == s.0) ≡ false = ground (arith, p) in rw apart refl);
  value-pop = λ s p. refl;
  len-pop = λ s p. refl;
  at-pop = λ s k p. refl;
}

-- 5, 4 and 3
abbrev falling : Numbers
falling = (3, λ k. 5 - k)

-- 3, 4 and 5
abbrev rising : Numbers
rising = (3, λ k. 3 + k)

rising-IsHeap : IsHeap nat_ordered (rising.1) 0 (rising.0)
rising-IsHeap k pos under low = ground (arith, pos)

push-IsHeap_example :
    ((push numbers rising 1).0 ≡ 4)
    × IsHeap nat_ordered ((push numbers rising 1).1) 0 ((push numbers rising 1).0)
unfolding numbers-IsCollection
push-IsHeap_example =
    push-IsHeap nat_ordered nat_ordered-IsOrder numbers numbers-IsCollection rising 1 rising-IsHeap

pop-IsHeap_example :
    (x : ℕ) × (s' : Numbers) × (pop numbers rising ≡ some (x, s'))
    × (x ≡ 3)
    × ((k : ℕ) → k < 3 → nat_ordered.lt (rising.1 k) x ≡ false)
    × (s'.0 + 1 ≡ 3)
    × IsHeap nat_ordered (s'.1) 0 (s'.0)
unfolding numbers-IsCollection
pop-IsHeap_example =
    pop-IsHeap nat_ordered nat_ordered-IsOrder numbers numbers-IsCollection rising (omega arith)
      rising-IsHeap
