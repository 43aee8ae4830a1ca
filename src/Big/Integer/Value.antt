-- ===== src/Big/Integer/Value.antt =====
-- What an Integer stands for.
use wasigoc.Common.{ℕ, ◌<◌, arith, ◌≡◌, refl, sym, List, [], ◌∷◌, Bool, true, false, ◌&&◌}
use wasigoc.Common.Int.{ℤ, signed, signed-zero}
use wasigoc.Big.Magnitude.Value.{value, IsMagnitude}
use wasigoc.Big.Integer.{Integer, some_limbs}

unfoldable pub number : Integer → ℤ
number x = signed (x.neg) (value (x.limbs))

-- A magnitude, and no sign on zero.
pub record IsInteger (x : Integer) : Type 0 where
  pub magnitude : IsMagnitude (x.limbs)
  pub unsigned : x.neg ≡ true → some_limbs (x.limbs) ≡ true

-- The test that keeps zero unsigned.
pub signed-some_limbs :
    (b : Bool) (limbs : List ℕ)
    → signed (b && some_limbs limbs) (value limbs) ≡ signed b (value limbs)
unfolding value signed
signed-some_limbs false limbs = refl
signed-some_limbs true [] = sym (signed-zero true)
signed-some_limbs true (x ∷ limbs) = refl

pub some_limbs-and :
    (b : Bool) (limbs : List ℕ) → (b && some_limbs limbs) ≡ true → some_limbs limbs ≡ true
some_limbs-and true limbs e = e
some_limbs-and false limbs e = cc

pub IsInteger-intro :
    (b : Bool) (limbs : List ℕ)
    → IsMagnitude limbs
    → IsInteger (record { neg = b && some_limbs limbs; limbs = limbs })
IsInteger-intro b limbs m = record { magnitude = m; unsigned = some_limbs-and b limbs }

pub some_limbs_of_pos : (limbs : List ℕ) → 0 < value limbs → some_limbs limbs ≡ true
unfolding value
some_limbs_of_pos [] h = absurd (omega arith)
some_limbs_of_pos (x ∷ limbs) h = refl

pub value_of_none : (limbs : List ℕ) → some_limbs limbs ≡ false → value limbs ≡ 0
unfolding value
value_of_none [] e = refl
value_of_none (x ∷ limbs) e = cc
