-- ===== src/Common/Tables.antt =====
-- Facts about every number of a small range, checked by evaluation.
use Prim.Native.Nat.{ℕ, zero, suc, ◌<◌}
use mathlib.Core.Path.{◌≡◌, refl}
use mathlib.Core.Bool.{Bool, true, false}
use mathlib.Core.List.{List, [], ◌∷◌}
use native.Mathlib.Omega.{arith}
use wasigoc.Common.Tests.{◌==◌, if◌then◌else◌}
use wasigoc.Common.Lists.{length, get_or}
use wasigoc.Common.Outcome.{ok}
use wasigoc.Common.Slices.{load}

module _ (f g : ℕ → ℕ) where
  unfoldable pub agree_below : ℕ → Bool
  agree_below zero = true
  agree_below (suc n) = if f n == g n then agree_below n else false

  pub agree_below→eq : (n : ℕ) → agree_below n ≡ true → (i : ℕ) → i < n → f i ≡ g i
  unfolding agree_below
  agree_below→eq zero e i h = absurd (omega arith)
  agree_below→eq (suc n) e i h = ground (arith, agree_below→eq n (ground arith) i)

-- A read in range is the read with any default.
pub load-get_or {ℓ} :
    {A : Type ℓ} (s : List A) (i : ℕ) (d : A) → i < length s → load s i ≡ ok (get_or s i d)
unfolding load
load-get_or [] i d h = absurd (omega arith)
load-get_or (x ∷ s) zero d h = refl
load-get_or (x ∷ s) (suc i) d h = load-get_or s i d (omega arith)
