-- ===== src/Big/Integer/Division.antt =====
-- QuoRem and DivMod against division of integers.
use wasigoc.Common.{ℕ, ◌+◌, ◌*◌, ◌<◌, ◌≡◌, refl, ap, List, Bool, true, false, ◌&&◌}
use wasigoc.Common.{◌⊎◌, Bool-cases, inl, inr}
use wasigoc.Common.Int.{pos, signed, ◌+ℤ◌, ◌*ℤ◌, differ, signed-add, signed-mul, differ_twice}
use wasigoc.Common.Outcome.{ok, panic}
use wasigoc.Big.Magnitude.{div_mod_mag}
use wasigoc.Big.Magnitude.Value.{value}
use wasigoc.Big.Magnitude.Quotient.{div_mod_mag-division}
use wasigoc.Big.Integer.{Integer, some_limbs, quo_rem}
use wasigoc.Big.Integer.Value.{
  number, IsInteger, signed-some_limbs, IsInteger-intro, some_limbs_of_pos, value_of_none,
}

signed_division :
    (b c : Bool) (qs rs : List ℕ) (m n : ℕ)
    → m ≡ value qs * n + value rs
    → signed b m
      ≡ signed (differ b c && some_limbs qs) (value qs) *ℤ signed c n
        +ℤ signed (b && some_limbs rs) (value rs)
signed_division b c qs rs m n split =
    rw
      (
        signed-some_limbs (differ b c) qs,
        signed-some_limbs b rs,
        signed-mul (differ b c) c (value qs) n,
        differ_twice b c,
        signed-add b (value qs * n) (value rs),
      )
      (ap (signed b) split)

-- A number that keeps a sign unless it has no limbs is zero or has that sign.
sign_of_rest :
    (b : Bool) (rs : List ℕ)
    → (signed (b && some_limbs rs) (value rs) ≡ pos 0) ⊎ ((b && some_limbs rs) ≡ b)
unfolding signed
sign_of_rest false rs = inr refl
sign_of_rest true rs = elim (Bool-cases (some_limbs rs)) [
  | inl some_rest ↦ inr some_rest
  | inr nothing ↦ inl (rw (nothing, value_of_none rs nothing) refl)
]

-- QuoRem for a divisor that is not zero returns a quotient and a remainder, both in normal form: the
-- dividend is the quotient times the divisor plus the remainder, the remainder's absolute value is
-- below the divisor's, and the remainder is zero or has exactly the sign of the dividend.
pub quo_rem-division :
    (x y : Integer)
    → IsInteger x
    → IsInteger y
    → 0 < value (y.limbs)
    → (q r : Integer) × (quo_rem x y ≡ ok (q, r))
      × IsInteger q
      × IsInteger r
      × (number x ≡ number q *ℤ number y +ℤ number r)
      × (value (r.limbs) < value (y.limbs))
      × ((number r ≡ pos 0) ⊎ (r.neg ≡ x.neg))
unfolding quo_rem number
quo_rem-division x y h k positive =
    let (mq, mr, split, small) =
      div_mod_mag-division (x.limbs) (y.limbs) (h.magnitude) (k.magnitude) positive in
    let qs = (div_mod_mag (x.limbs) (y.limbs)).0 in
    let rs = (div_mod_mag (x.limbs) (y.limbs)).1 in
    let b = differ (x.neg) (y.neg) in
    (
      record { neg = b && some_limbs qs; limbs = qs },
      record { neg = x.neg && some_limbs rs; limbs = rs },
      rw (some_limbs_of_pos (y.limbs) positive) refl,
      IsInteger-intro b qs mq,
      IsInteger-intro (x.neg) rs mr,
      signed_division (x.neg) (y.neg) qs rs (value (x.limbs)) (value (y.limbs)) split,
      small,
      sign_of_rest (x.neg) rs,
    )

-- QuoRem panics for the divisor zero.
quo_rem-zero : (x y : Integer) → some_limbs (y.limbs) ≡ false → quo_rem x y ≡ panic
unfolding quo_rem
quo_rem-zero x y e = rw e refl
