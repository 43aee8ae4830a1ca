-- ===== src/Hash/Interface.antt =====
-- stdlib/hash/hash.go: the interface `hash.Hash`, the laws that its callers rely on, and the last
-- line of `Sum`, which all the digests share.
use wasigoc.Common.{ℕ, ◌+◌, ◌/◌, ◌^◌, ◌≡◌, List, [], ◌∷◌, ◌++◌, length, All, arith, refl}
use wasigoc.Common.Bits.{u8, IsByte}
use wasigoc.Common.Outcome.{Outcome, ok, ◌>>=◌}

-- `hash.Hash`: a call of `Write` gives its count and the state that it leaves.
pub record Hash : Type 1 where
  pub State : Type 0
  pub write : State → List ℕ → Outcome (ℕ × State)
  pub sum : State → List ℕ → List ℕ
  pub reset : State → State
  pub size : State → ℕ
  pub block_size : State → ℕ

-- What the callers of a `Hash` rely on, for the states in `IsValid`.
pub record IsHash (h : Hash) (IsValid : h.State → Type 0) : Type 0 where
  -- bytes are all taken, and a valid state is left
  pub write_total :
      (s : h.State) (p : List ℕ)
      → IsValid s
      → All IsByte p
      → (s' : h.State) × (h.write s p ≡ ok (length p, s')) × IsValid s' × (h.reset s' ≡ h.reset s)
  -- a write may be cut anywhere
  pub write-append :
      (s : h.State) (p q : List ℕ)
      → h.write s (p ++ q) ≡ (do (n, s') ← h.write s p; (m, s'') ← h.write s' q; ok (n + m, s''))
  -- `Sum` appends `Size` bytes to its argument
  pub sum_shape :
      (s : h.State) (b : List ℕ)
      → (t : List ℕ) × (h.sum s b ≡ b ++ t) × (length t ≡ h.size s) × All IsByte t
  pub reset-IsValid : (s : h.State) → IsValid s → IsValid (h.reset s)

-- `append(b, byte(v>>24), byte(v>>16), byte(v>>8), byte(v))`
unfoldable pub append_four : List ℕ → ℕ → List ℕ
append_four b v = b ++ u8 (v / 2 ^ 24) ∷ u8 (v / 2 ^ 16) ∷ u8 (v / 2 ^ 8) ∷ u8 v ∷ []

-- The same with the eight bytes of a uint64.
unfoldable pub append_eight : List ℕ → ℕ → List ℕ
append_eight b v =
    b
    ++ u8 (v / 2 ^ 56)
      ∷ u8 (v / 2 ^ 48)
      ∷ u8 (v / 2 ^ 40)
      ∷ u8 (v / 2 ^ 32)
      ∷ u8 (v / 2 ^ 24)
      ∷ u8 (v / 2 ^ 16)
      ∷ u8 (v / 2 ^ 8)
      ∷ u8 v
      ∷ []

pub append_four_shape :
    (b : List ℕ) (v : ℕ) → (t : List ℕ) × (append_four b v ≡ b ++ t) × (length t ≡ 4) × All IsByte t
unfolding append_four
append_four_shape b v = (_, refl, refl, omega arith)

pub append_eight_shape :
    (b : List ℕ) (v : ℕ)
    → (t : List ℕ) × (append_eight b v ≡ b ++ t) × (length t ≡ 8) × All IsByte t
unfolding append_eight
append_eight_shape b v = (_, refl, refl, omega arith)
