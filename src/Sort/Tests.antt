-- ===== src/Sort/Tests.antt =====
-- The sorts and the search at concrete inputs.
use mathlib.Core.List.{Perm}
use wasigoc.Common.{ℕ, ◌≡◌, refl, arith, List, [], ◌∷◌, ltb, leb}
use wasigoc.Common.{get_elem?, set, length, some, none, Option}
use wasigoc.Common.Outcome.{ok}
use wasigoc.Sort.Order.{nat_ordered, nat_ordered-IsOrder, IsSorted}
use wasigoc.Sort.Insertion
use wasigoc.Sort.Insertion.Laws.{sort-sorts}
use wasigoc.Sort.Search.Laws.{IsMonotone}
use wasigoc.Sort.Interface.{Interface, IsCollection, sort}
use wasigoc.Sort.Interface.Laws.{interface_sort-sorts}

abbrev sample : List ℕ
sample = 5 ∷ 2 ∷ 9 ∷ 2 ∷ []

sort-sorts_example :
    (y : List ℕ) × (Insertion.sort nat_ordered sample ≡ ok y)
    × IsSorted nat_ordered y
    × Perm y sample
sort-sorts_example = sort-sorts nat_ordered nat_ordered-IsOrder sample

leb_seven_monotone : IsMonotone 10 (leb 7)
leb_seven_monotone i j le lt h = ground arith

-- A slice of numbers as an implementation of the interface.
abbrev or_zero : Option ℕ → ℕ
or_zero (some a) = a
or_zero none = 0

abbrev numbers : Interface
numbers = record {
  State = List ℕ;
  len = length;
  less = λ s i j. ltb (or_zero (get_elem? s i)) (or_zero (get_elem? s j));
  swap = λ s i j. set (set s i (or_zero (get_elem? s j))) j (or_zero (get_elem? s i));
}

numbers-IsCollection : IsCollection nat_ordered numbers (λ s. s)
numbers-IsCollection = record {
  len_view = λ s. refl;
  less_view = λ s i j a b p q. ground (arith, p, q);
  swap_view = λ s i j a b p q. ground (arith, p, q);
}

interface_sort-sorts_example :
    IsSorted nat_ordered (sort numbers sample) × Perm (sort numbers sample) sample
interface_sort-sorts_example =
    interface_sort-sorts nat_ordered nat_ordered-IsOrder numbers (λ s. s) numbers-IsCollection
      sample
