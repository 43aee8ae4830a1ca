-- ===== src/Heap.antt =====
-- stdlib/container/heap/heap.go. What implements the interface is a parameter: its state, with the
-- five methods. `any` is the parameter `A`.
pub mod Order
pub mod Sift
pub mod Laws
mod Tests
use wasigoc.Common.{
  ℕ, zero, suc, ◌+◌, ◌-◌, ◌*◌, ◌/◌, Bool, ◌==◌, ltb, leb, ◌&&◌, ◌||◌, not, if◌then◌else◌, Option,
  none, some,
}

pub record Interface (A : Type 0) : Type 1 where
  pub State : Type 0
  pub len : State → ℕ
  pub less : State → ℕ → ℕ → Bool
  pub swap : State → ℕ → ℕ → State
  pub push : State → A → State
  pub pop : State → A × State

module _ {A : Type 0} (h : Interface A) where
  -- The loop of up on fuel; a round at `j` goes on at a place below `j`.
  pub up_loop : ℕ → h.State → ℕ → h.State
  up_loop zero s j = s
  up_loop (suc fuel) s j =
      let i = (j - 1) / 2 in
      let higher = up_loop fuel (h.swap s i j) i in
      if j == 0 then s else if i == j || not (h.less s j i) then s else higher

  pub up : h.State → ℕ → h.State
  up s j = up_loop j s j

  -- The smaller child of `i`: the left one, or the right one if it is less.
  pub child : h.State → ℕ → ℕ → ℕ
  child s i n = let j1 = 2 * i + 1 in if ltb (j1 + 1) n && h.less s (j1 + 1) j1 then j1 + 1 else j1

  -- The loop of down on fuel, with the last `i`; a round at `i` goes on at a place above `i`.
  pub down_loop : ℕ → h.State → ℕ → ℕ → h.State × ℕ
  down_loop zero s i n = (s, i)
  down_loop (suc fuel) s i n =
      let j = child s i n in
      let lower = down_loop fuel (h.swap s i j) j n in
      if leb n (2 * i + 1) then (s, i) else if not (h.less s j i) then (s, i) else lower

  pub down : h.State → ℕ → ℕ → h.State × Bool
  down s i0 n = let (s', i) = down_loop n s i0 n in (s', ltb i0 i)

  -- `for i := n/2 - 1; i >= 0; i--`, with `k` rounds left.
  pub init_loop : ℕ → h.State → ℕ → h.State
  init_loop zero s n = s
  init_loop (suc k) s n = init_loop k ((down s k n).0) n

  pub init : h.State → h.State
  init s = init_loop (h.len s / 2) s (h.len s)

  pub push : h.State → A → h.State
  push s x = let s' = h.push s x in up s' (h.len s' - 1)

  -- With nothing in the heap the indices are -1, which no collection has: `none`.
  pub pop : h.State → Option (A × h.State)
  pop s =
      let n = h.len s - 1 in
      if h.len s == 0 then none else some (h.pop ((down (h.swap s 0 n) 0 n).0))

  -- Down, and up where down did not move.
  pub settle : h.State → ℕ → ℕ → h.State
  settle s i n = let (s', moved) = down s i n in if moved then s' else up s' i

  pub remove : h.State → ℕ → Option (A × h.State)
  remove s i =
      let n = h.len s - 1 in
      if h.len s == 0
      then none
      else some (h.pop (if not (n == i) then settle (h.swap s i n) i n else s))

  pub fix : h.State → ℕ → h.State
  fix s i = settle s i (h.len s)
