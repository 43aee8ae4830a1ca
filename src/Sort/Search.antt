-- ===== src/Sort/Search.antt =====
-- Binary search: sort.Search and the searches that it serves. An int index is never negative here.
-- `lo + hi` is an int sum, which does not wrap where `n` is at most 2^62: the theorems say so.
pub mod Laws
use wasigoc.Common.{
  ℕ, zero, suc, ◌+◌, ◌/◌, List, Bool, true, false, not, ltb, if◌then◌else◌, length, get_elem?,
}
use wasigoc.Common.{Option, none, some}
use wasigoc.Sort.Order.{Ordered}

-- The loop on fuel; the range shrinks in each round, so `n` rounds are enough.
pub search_loop : ℕ → (ℕ → Bool) → ℕ → ℕ → ℕ
search_loop zero f lo hi = lo
search_loop (suc fuel) f lo hi =
    let mid = (lo + hi) / 2 in
    let right = search_loop fuel f (mid + 1) hi in
    let left = search_loop fuel f lo mid in
    if ltb lo hi then (if f mid then left else right) else lo

pub search : ℕ → (ℕ → Bool) → ℕ
search n f = search_loop n f 0 n

-- `x[i] >= target`; `Search` asks only for indices of the slice.
pub at_least : {A : Type 0} → Ordered A → List A → A → ℕ → Bool
at_least o x target i = elim (get_elem? x i) [ some a ↦ not (o.lt a target) | none ↦ false ]

-- `SearchInts`, `SearchStrings` and `SearchFloat64s`, each at its type.
pub search_ordered : {A : Type 0} → Ordered A → List A → A → ℕ
search_ordered o x target = search (length x) (at_least o x target)
