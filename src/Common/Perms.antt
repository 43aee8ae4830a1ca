-- ===== src/Common/Perms.antt =====
-- A permutation keeps the length, in native numbers.
use mathlib.Core.Path.{◌≡◌, refl}
use mathlib.Core.Logic.{∥∥₁_elim}
use mathlib.Core.List.{List, Perm, Permᴰ}
use native.Mathlib.Nat.{ℕ_set}
use native.Mathlib.Omega.{arith}
use wasigoc.Common.Lists.{length}

module _ {ℓ} {A : Type ℓ} where
  same_length : {l r : List A} → Permᴰ l r → length l ≡ length r
  same_length (Permᴰ.trans first second) = omega (arith, same_length first, same_length second)
  same_length (Permᴰ.swap y x) = refl
  same_length (Permᴰ.cons x rest) = omega (arith, same_length rest)
  same_length Permᴰ.nil = refl

  pub length-perm : {l r : List A} → Perm l r → length l ≡ length r
  length-perm perm = ∥∥₁_elim perm (ℕ_set _ _) same_length
