-- ===== src/Sort/Interface.antt =====
-- sort.Sort, sort.IsSorted and sort.Slice: sorting through `Len`, `Less` and `Swap` alone.
-- What implements the interface is a parameter: a state, with a view of it as a list.
pub mod Laws
use wasigoc.Common.{
  ℕ, zero, suc, ◌+◌, ◌-◌, ◌<◌, ◌≡◌, List, Bool, true, false, if◌then◌else◌, length,
}
use wasigoc.Common.{get_elem?, some, set}
use wasigoc.Sort.Order.{Ordered}

pub record Interface : Type 1 where
  pub State : Type 0
  pub len : State → ℕ
  pub less : State → ℕ → ℕ → Bool
  pub swap : State → ℕ → ℕ → State

-- What the documentation of `Interface` asks: the three methods speak of the elements of one
-- collection, by their indices in range.
pub record IsCollection {A : Type 0} (o : Ordered A) (h : Interface) (view : h.State → List A)
    : Type 0 where
  pub len_view : (s : h.State) → h.len s ≡ length (view s)
  pub less_view :
      (s : h.State) (i j : ℕ) (a b : A)
      → get_elem? (view s) i ≡ some a
      → get_elem? (view s) j ≡ some b
      → h.less s i j ≡ o.lt a b
  pub swap_view :
      (s : h.State) (i j : ℕ) (a b : A)
      → get_elem? (view s) i ≡ some a
      → get_elem? (view s) j ≡ some b
      → view (h.swap s i j) ≡ set (set (view s) i b) j a

module _ (h : Interface) where
  -- `for j := i; j > 0 && data.Less(j, j-1); j-- { data.Swap(j, j-1) }`
  pub sink : h.State → ℕ → h.State
  sink s zero = s
  sink s (suc j) =
      let lower = sink (h.swap s (suc j) j) j in if h.less s (suc j) j then lower else s

  -- `for i := 1; i < n; i++`, with `k` rounds left.
  pub sort_loop : ℕ → ℕ → h.State → h.State
  sort_loop zero i s = s
  sort_loop (suc k) i s = sort_loop k (i + 1) (sink s i)

  pub sort : h.State → h.State
  sort s = sort_loop (h.len s - 1) 1 s

  -- The loop of `IsSorted`, with `k` rounds left.
  pub is_sorted_loop : ℕ → ℕ → h.State → Bool
  is_sorted_loop zero i s = true
  is_sorted_loop (suc k) i s = if h.less s i (i - 1) then false else is_sorted_loop k (i + 1) s

  pub is_sorted : h.State → Bool
  is_sorted s = is_sorted_loop (h.len s - 1) 1 s

-- `Slice` calls its `less` on a slice that shares the array of `x`: the state is that array.
abbrev pub slice_interface :
    {A : Type 0} → (List A → ℕ → ℕ → Bool) → (List A → ℕ → ℕ → List A) → Interface
slice_interface {A} less swap = record { State = List A; len = length; less = less; swap = swap }
