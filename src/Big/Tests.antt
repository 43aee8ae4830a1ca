-- ===== src/Big/Tests.antt =====
-- The arithmetic of big integers at concrete inputs.
use wasigoc.Common.{ℕ, ◌+◌, ◌*◌, ◌<◌, ◌≡◌, refl, arith, List, [], ◌∷◌, true, false}
use wasigoc.Common.Int.{pos, ◌+ℤ◌, ◌*ℤ◌}
use wasigoc.Common.{◌⊎◌}
use wasigoc.Common.Outcome.{ok}
use wasigoc.Big.Magnitude.{mul_mag, div_mod_mag}
use wasigoc.Big.Magnitude.Value.{value, IsMagnitude}
use wasigoc.Big.Magnitude.Product.{mul_mag-product}
use wasigoc.Big.Magnitude.Quotient.{div_mod_mag-division}
use wasigoc.Common.{some}
use wasigoc.Big.Integer.{Integer, add, quo_rem, exp}
use wasigoc.Big.Integer.Power.{exp-ends}
use wasigoc.Big.Integer.Value.{number, IsInteger}
use wasigoc.Big.Integer.Arithmetic.{add-number}
use wasigoc.Big.Integer.Division.{quo_rem-division}

-- 3,000,000,000,005 and 7,000,002
abbrev long : List ℕ
long = 5 ∷ 0 ∷ 3 ∷ []

abbrev short : List ℕ
short = 2 ∷ 7 ∷ []

long-IsMagnitude : IsMagnitude long
long-IsMagnitude = record {
  limbs = (omega arith, (omega arith, (omega arith, tt)));
  top = omega arith;
}

short-IsMagnitude : IsMagnitude short
short-IsMagnitude = record { limbs = (omega arith, (omega arith, tt)); top = omega arith }

short_positive : 0 < value short
unfolding value
short_positive = omega arith

mul_mag-product_example :
    IsMagnitude (mul_mag long short) × (value (mul_mag long short) ≡ value long * value short)
mul_mag-product_example =
    mul_mag-product long short (omega arith) (long-IsMagnitude.limbs) (short-IsMagnitude.limbs)

div_mod_mag-division_example :
    IsMagnitude (div_mod_mag long short).0
    × IsMagnitude (div_mod_mag long short).1
    × (value long
        ≡ value (div_mod_mag long short).0 * value short + value (div_mod_mag long short).1)
    × (value (div_mod_mag long short).1 < value short)
div_mod_mag-division_example =
    div_mod_mag-division long short long-IsMagnitude short-IsMagnitude short_positive

abbrev debt : Integer
debt = record { neg = true; limbs = long }

abbrev gain : Integer
gain = record { neg = false; limbs = short }

debt-IsInteger : IsInteger debt
debt-IsInteger = record { magnitude = long-IsMagnitude; unsigned = λ e. refl }

gain-IsInteger : IsInteger gain
gain-IsInteger = record { magnitude = short-IsMagnitude; unsigned = λ e. refl }

add-number_example :
    IsInteger (add debt gain) × (number (add debt gain) ≡ number debt +ℤ number gain)
add-number_example = add-number debt gain debt-IsInteger gain-IsInteger

quo_rem-division_example :
    (q r : Integer) × (quo_rem debt gain ≡ ok (q, r))
    × IsInteger q
    × IsInteger r
    × (number debt ≡ number q *ℤ number gain +ℤ number r)
    × (value (r.limbs) < value short)
    × ((number r ≡ pos 0) ⊎ (r.neg ≡ true))
quo_rem-division_example = quo_rem-division debt gain debt-IsInteger gain-IsInteger short_positive

exp-ends_example : (z : Integer) × (exp debt gain (some gain) ≡ ok z)
exp-ends_example = exp-ends debt gain (some gain) gain-IsInteger
