-- ===== src/Big/Integer.antt =====
-- The methods of Int in big.go. A method returns what it sets its receiver to; receivers and
-- arguments are objects of their own.
pub mod Value
pub mod Arithmetic
pub mod Division
pub mod Power
use Prim.Native.Nat.{compare, Ordering, lt, eq, gt}
use wasigoc.Common.{
  ℕ, zero, suc, ◌+◌, ◌-◌, ◌*◌, ◌/◌, ◌%◌, ◌^◌, List, [], ◌∷◌, ◌++◌, Bool, true, false, not, ◌&&◌,
}
use wasigoc.Common.{◌==◌, ltb, leb, if◌then◌else◌, length}
use wasigoc.Common.{Option, none, some}
use wasigoc.Common.Int.{ℤ, is_negative, absolute, differ}
use wasigoc.Common.Outcome.{Outcome, ok, err, panic, ◌>>=◌}
use wasigoc.Common.Bits.{u32}
use wasigoc.Big.Magnitude.{limb_base, cmp_mag, add_mag, sub_mag, mul_mag, div_mod_mag}

pub record Integer : Type 0 where
  pub neg : Bool
  pub limbs : List ℕ

-- `len(limbs) > 0`
abbrev pub some_limbs : List ℕ → Bool
some_limbs [] = false
some_limbs (x ∷ limbs) = true

-- The loop of SetInt64 on fuel: 11 limbs hold 64 bits.
pub limbs_of : ℕ → ℕ → List ℕ
limbs_of zero ux = []
limbs_of (suc fuel) ux =
    let rest = limbs_of fuel (ux / limb_base) in
    if ltb 0 ux then u32 (ux % limb_base) ∷ rest else []

-- NewInt and SetInt64, for integers of 64 bits but the smallest one.
pub new_int : ℤ → Integer
new_int x =
    let limbs = limbs_of 11 (absolute x) in
    record { neg = is_negative x && some_limbs limbs; limbs = limbs }

pub add_unlike : Ordering → Integer → Integer → Integer
add_unlike eq x y = record { neg = false; limbs = [] }
add_unlike gt x y = record { neg = x.neg; limbs = sub_mag (x.limbs) (y.limbs) }
add_unlike lt x y = record { neg = y.neg; limbs = sub_mag (y.limbs) (x.limbs) }

pub add : Integer → Integer → Integer
add x y =
    if differ (x.neg) (y.neg)
    then add_unlike (cmp_mag (x.limbs) (y.limbs)) x y
    else (let limbs = add_mag (x.limbs) (y.limbs) in
        record { neg = x.neg && some_limbs limbs; limbs = limbs })

pub neg_of : Integer → Integer
neg_of y = record { neg = not (y.neg) && some_limbs (y.limbs); limbs = y.limbs }

pub sub : Integer → Integer → Integer
sub x y = add x (neg_of y)

pub mul : Integer → Integer → Integer
mul x y =
    let limbs = mul_mag (x.limbs) (y.limbs) in
    record { neg = differ (x.neg) (y.neg) && some_limbs limbs; limbs = limbs }

-- The quotient and the remainder.
pub quo_rem : Integer → Integer → Outcome (Integer × Integer)
quo_rem x y =
    let (quotient, rem) = div_mod_mag (x.limbs) (y.limbs) in
    if not (some_limbs (y.limbs))
    then panic
    else ok (
      record { neg = differ (x.neg) (y.neg) && some_limbs quotient; limbs = quotient },
      record { neg = x.neg && some_limbs rem; limbs = rem },
    )

pub quo : Integer → Integer → Outcome Integer
quo x y = quo_rem x y >>= λ (q, r). ok q

pub rem : Integer → Integer → Outcome Integer
rem x y = quo_rem x y >>= λ (q, r). ok r

-- The step from the truncated to the Euclidean quotient and remainder.
pub euclidean : Integer → Integer → Integer → Integer → Integer × Integer
euclidean x y q m =
    let one = new_int (ℤ.pos 1) in
    let abs : Integer = record { neg = false; limbs = y.limbs } in
    if some_limbs (m.limbs) && x.neg
    then (if y.neg then add q one else sub q one, add m abs)
    else (q, m)

pub div_mod : Integer → Integer → Outcome (Integer × Integer)
div_mod x y = quo_rem x y >>= λ (q, m). ok (euclidean x y q m)

pub opposite_order : Ordering → Ordering
opposite_order lt = gt
opposite_order eq = eq
opposite_order gt = lt

pub cmp : Integer → Integer → Ordering
cmp x y =
    let c = cmp_mag (x.limbs) (y.limbs) in
    if differ (x.neg) (y.neg)
    then (if not (some_limbs (x.limbs)) && not (some_limbs (y.limbs))
        then eq
        else if x.neg
        then lt
        else gt)
    else if x.neg
    then opposite_order c
    else c

pub sign : Integer → ℤ
sign x = if not (some_limbs (x.limbs)) then ℤ.pos 0 else if x.neg then ℤ.negsuc 0 else ℤ.pos 1

pub div : Integer → Integer → Outcome Integer
div x y = div_mod x y >>= λ (q, m). ok q

pub mod_of : Integer → Integer → Outcome Integer
mod_of x y = div_mod x y >>= λ (q, m). ok m

-- `if useMod { z.Mod(z, m) }`; the modulus is `none` where useMod is false.
pub reduce : Option Integer → Integer → Outcome Integer
reduce none x = ok x
reduce (some m) x = mod_of x m

-- A modulus that is nil or not positive is not used.
pub used_modulus : Option Integer → Option Integer
used_modulus none = none
used_modulus (some m) = if some_limbs (m.limbs) && not (m.neg) then some m else none

-- The loop of Exp on fuel.
pub exp_loop : ℕ → Option Integer → Integer → Integer → Integer → Outcome Integer
exp_loop zero m result base exp = panic
exp_loop (suc fuel) m result base exp =
    let round : Outcome Integer = quo_rem exp (new_int (ℤ.pos 2)) >>= λ (q, r).
    (if some_limbs (r.limbs) then reduce m (mul result base) else ok result) >>= λ result'.
    reduce m (mul base base) >>= λ base'. exp_loop fuel m result' base' q in
    if some_limbs (exp.limbs) && not (exp.neg) then round else ok result

-- An exponent of k limbs has at most 20 k bits.
pub exp : Integer → Integer → Option Integer → Outcome Integer
exp x y m =
    let used = used_modulus m in
    reduce used x >>= λ base. exp_loop (20 * length (y.limbs) + 1) used (new_int (ℤ.pos 1)) base y
