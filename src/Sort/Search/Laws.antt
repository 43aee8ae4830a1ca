-- ===== src/Sort/Search/Laws.antt =====
-- What `Search` finds, with and without a monotone test.
use wasigoc.Common.{
  ℕ, zero, suc, ◌+◌, ◌/◌, ◌-◌, ◌^◌, ◌≤◌, ◌<◌, ◌≡◌, refl, arith, Bool, true, false, ltb,
}
use wasigoc.Common.{◌⊎◌, inl, inr, Bool-cases}
use wasigoc.Sort.Search.{search_loop, search}

-- `r` is where the test turns true, as far as the loop has looked.
pub record IsBoundary (n : ℕ) (f : ℕ → Bool) (r : ℕ) : Type 0 where
  pub within : r ≤ n
  pub below : (r ≡ 0) ⊎ (f (r - 1) ≡ false)
  pub above : (r ≡ n) ⊎ (f r ≡ true)

module _ (n : ℕ) (f : ℕ → Bool) where
  search_loop-IsBoundary :
      (fuel lo hi : ℕ)
      → hi - lo ≤ fuel
      → lo ≤ hi
      → hi ≤ n
      → (lo ≡ 0) ⊎ (f (lo - 1) ≡ false)
      → (hi ≡ n) ⊎ (f hi ≡ true)
      → IsBoundary n f (search_loop fuel f lo hi)
  unfolding search_loop
  search_loop-IsBoundary zero lo hi enough order top low high =
      let same : hi ≡ lo = omega arith in
      record { within = omega arith; below = low; above = rw same at high }
  search_loop-IsBoundary (suc fuel) lo hi enough order top low high =
      let mid = (lo + hi) / 2 in
      elim (Bool-cases (ltb lo hi)) [
        | inl more ↦ elim (Bool-cases (f mid)) [
          | inl yes' ↦
              rw (more, yes')
                (search_loop-IsBoundary fuel lo mid (ground arith) (ground arith) (ground arith) low
                  (inr yes'))
          | inr no' ↦
              let back : mid + 1 - 1 ≡ mid = omega arith in
              rw (more, no')
                (search_loop-IsBoundary fuel (mid + 1) hi (ground arith) (ground arith) top
                  (inr (rw back no')) high)
        ]
        | inr done ↦
            let same : hi ≡ lo = ground arith in
            rw done (record { within = omega arith; below = low; above = rw same at high })
      ]

  -- For `n` up to 2^62 and any test, monotone or not, `Search` returns an index up to `n` with the
  -- test false just before it, unless it is 0, and true at it, unless it is `n`.
  pub search-IsBoundary : n ≤ 2 ^ 62 → IsBoundary n f (search n f)
  unfolding search
  search-IsBoundary h =
      search_loop-IsBoundary n 0 n (omega arith) (omega arith) (omega arith) (inl refl) (inl refl)

  -- A test that stays true from where it first is true.
  abbrev pub IsMonotone : Type 0
  IsMonotone = (i j : ℕ) → i ≤ j → j < n → f i ≡ true → f j ≡ true

  -- For `n` up to 2^62 and a monotone test `Search` returns the number of indices at which the test
  -- is false: it is false at each index below the result and true at each from it up to `n`.
  pub search-partition :
      n ≤ 2 ^ 62
      → IsMonotone
      → (search n f ≤ n)
        × ((i : ℕ) → i < search n f → f i ≡ false)
        × ((i : ℕ) → search n f ≤ i → i < n → f i ≡ true)
  search-partition h mono =
      let b = search-IsBoundary h in
      (
        b.within,
        λ i lt. elim (Bool-cases (f i)) [
          | inl t ↦ elim b.below [
            | inl z ↦ absurd (omega arith)
            | inr e ↦
                absurd (clash (mono i (search n f - 1) (omega arith) (omega (arith, b.within)) t) e)
          ]
          | inr e ↦ e
        ],
        λ i le lt. elim b.above [
          | inl z ↦ absurd (omega arith)
          | inr e ↦ mono (search n f) i le lt e
        ],
      )
    where
      clash : {b : Bool} → b ≡ true → b ≡ false → ⊥
      clash p q = cc
