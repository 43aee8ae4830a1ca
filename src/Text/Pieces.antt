-- ===== src/Text/Pieces.antt =====
-- What strings and bytes build on `Index` with the same code: Contains, Count, Split, Join,
-- Replace, Cut and Repeat. The search is a parameter; `rest` is `s[start:]`.
pub mod Split
pub mod Replace
use wasigoc.Common.{
  ℕ, zero, suc, ◌+◌, List, [], ◌∷◌, ◌++◌, Bool, true, false, ◌==◌, ltb, leb, ◌&&◌, ◌||◌,
}
use wasigoc.Common.{if◌then◌else◌, Option, none, some, length, take, drop}

-- `out = out + sep + elems[i]` over the elements that are left.
unfoldable pub join_loop : List ℕ → List (List ℕ) → List ℕ → List ℕ
join_loop out [] sep = out
join_loop out (e ∷ elems) sep = join_loop (out ++ (sep ++ e)) elems sep

unfoldable pub join : List (List ℕ) → List ℕ → List ℕ
join [] sep = []
join (e ∷ elems) sep = join_loop e elems sep

-- `for i := 0; i < count; i++ { out = out + s }`
unfoldable pub repeat_loop : ℕ → List ℕ → List ℕ → List ℕ
repeat_loop zero out s = out
repeat_loop (suc k) out s = repeat_loop k (out ++ s) s

unfoldable pub repeat : List ℕ → ℕ → List ℕ
repeat s count = repeat_loop count [] s

-- One piece for each byte.
pub explode : List ℕ → List (List ℕ)
explode [] = []
explode (b ∷ s) = (b ∷ []) ∷ explode s

module _ (find : List ℕ → List ℕ → Option ℕ) where
  pub contains : List ℕ → List ℕ → Bool
  contains s sub = elim (find s sub) [ some i ↦ true | none ↦ false ]

  -- The loop of Count on fuel. Each round but the last takes a separator out of `rest`.
  pub count_loop : ℕ → ℕ → List ℕ → List ℕ → ℕ
  count_loop zero n rest sub = n
  count_loop (suc fuel) n rest sub = elim (find rest sub) [
    | none ↦ n
    | some j ↦ count_loop fuel (n + 1) (drop (j + length sub) rest) sub
  ]

  pub count : List ℕ → List ℕ → ℕ
  count s sub = if length sub == 0 then length s + 1 else count_loop (length s + 1) 0 s sub

  -- The loop of Split on fuel.
  pub split_loop : ℕ → List (List ℕ) → List ℕ → List ℕ → List (List ℕ)
  split_loop zero out rest sep = out
  split_loop (suc fuel) out rest sep = elim (find rest sep) [
    | none ↦ out ++ rest ∷ []
    | some j ↦ split_loop fuel (out ++ take j rest ∷ []) (drop (j + length sep) rest) sep
  ]

  pub split : List ℕ → List ℕ → List (List ℕ)
  split s sep = if length sep == 0 then explode s else split_loop (length s + 1) [] s sep

  -- The loop of Replace on fuel; `none` is a negative limit, which stands for all.
  pub replace_loop : ℕ → List ℕ → ℕ → List ℕ → List ℕ → List ℕ → Option ℕ → List ℕ
  replace_loop zero out done rest old new n = out
  replace_loop (suc fuel) out done rest old new n =
      let step : List ℕ = elim (find rest old) [
        | none ↦ out ++ rest
        | some j ↦
            replace_loop fuel (out ++ (take j rest ++ new)) (done + 1) (drop (j + length old) rest)
              old new n
      ] in
      if elim n [ some limit ↦ leb limit done | none ↦ false ] then out ++ rest else step

  pub replace : List ℕ → List ℕ → List ℕ → Option ℕ → List ℕ
  replace s old new n =
      if elim n [ some limit ↦ limit == 0 | none ↦ false ]
      then s
      else if length old == 0
      then s
      else replace_loop (length s + 1) [] 0 s old new n

  pub replace_all : List ℕ → List ℕ → List ℕ → List ℕ
  replace_all s old new = replace s old new none

  -- `before, after, found`
  pub cut : List ℕ → List ℕ → List ℕ × List ℕ × Bool
  cut s sep = elim (find s sep) [
    | none ↦ (s, [], false)
    | some i ↦ (take i s, drop (i + length sep) s, true)
  ]
