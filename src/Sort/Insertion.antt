-- ===== src/Sort/Insertion.antt =====
-- The insertion sort that sort.Ints, sort.Strings, sort.Float64s and slices.Sort share, and their
-- checks. The slice is sorted in place: a call gives the slice that it leaves.
pub mod Laws
use wasigoc.Common.{ℕ, zero, suc, ◌+◌, ◌-◌, List, [], ◌∷◌, Bool, true, false, if◌then◌else◌, length}
use wasigoc.Common.Outcome.{Outcome, ok, ◌>>=◌}
use wasigoc.Common.Int.{ℤ}
use wasigoc.Common.Slices.{load, store}
use wasigoc.Sort.Order.{Ordered}

module _ {A : Type 0} (o : Ordered A) where
  -- `for j > 0 && x[j-1] > v { x[j] = x[j-1]; j-- }`
  pub shift : List A → A → ℕ → Outcome (List A × ℕ)
  shift x v zero = ok (x, 0)
  shift x v (suc j) = do
    a ← load x j
    let moved : Outcome (List A × ℕ) = do y ← store x (suc j) a; shift y v j
    if o.lt v a then moved else ok (x, suc j)

  -- One round of the outer loop.
  pub insert_at : List A → ℕ → Outcome (List A)
  insert_at x i = do v ← load x i; (y, j) ← shift x v i; store y j v

  -- `for i := 1; i < n; i++`, with `k` rounds left.
  pub sort_loop : ℕ → ℕ → List A → Outcome (List A)
  sort_loop zero i x = ok x
  sort_loop (suc k) i x = do y ← insert_at x i; sort_loop k (i + 1) y

  -- `slices.Sort`
  pub sort : List A → Outcome (List A)
  sort x = sort_loop (length x - 1) 1 x

  -- `slices.IsSorted`
  pub is_sorted : List A → Bool
  is_sorted (x ∷ y ∷ rest) = if o.lt y x then false else is_sorted (y ∷ rest)
  is_sorted x = true

-- `sort.Ints`, `sort.Strings` and `sort.Float64s` are the same loop at their types.
module _ (o : Ordered ℤ) where
  pub ints : List ℤ → Outcome (List ℤ)
  ints x = sort o x

  pub ints_are_sorted : List ℤ → Bool
  ints_are_sorted x = is_sorted o x

module _ (o : Ordered (List ℕ)) where
  pub strings : List (List ℕ) → Outcome (List (List ℕ))
  strings x = sort o x

  pub strings_are_sorted : List (List ℕ) → Bool
  strings_are_sorted x = is_sorted o x
