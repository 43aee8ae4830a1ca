-- ===== src/Big/Integer/Power.antt =====
-- Exp ends.
use native.Mathlib.Nat.{pow-succ', pow-le-pow_right}
use wasigoc.Common.{
  ℕ, zero, suc, ◌+◌, ◌*◌, ◌^◌, ◌<◌, ◌≤◌, ◌≡◌, refl, ap, ◌∙◌, arith, List, [], ◌∷◌, Bool, true,
  false, not, ◌&&◌, All,
}
use wasigoc.Common.{Option, none, some, length, Bool-cases, inl, inr, if◌then◌else◌}
use wasigoc.Common.Int.{ℤ, differ, absolute}
use wasigoc.Common.Outcome.{ok}
use wasigoc.Big.Magnitude.{limb_base, div_mod_mag}
use wasigoc.Big.Magnitude.Value.{value, IsLimb, IsMagnitude, pow-le-value}
use wasigoc.Big.Magnitude.Quotient.{div_mod_mag-division}
use wasigoc.Big.Integer.{
  Integer, some_limbs, new_int, limbs_of, quo_rem, div_mod, mod_of, reduce, used_modulus, mul,
  exp_loop, exp,
}
use wasigoc.Big.Integer.Value.{IsInteger, IsInteger-intro, some_limbs_of_pos}

two_pow-add : (m n : ℕ) → 2 ^ (m + n) ≡ 2 ^ m * 2 ^ n
two_pow-add zero n = (let e : 0 + n ≡ n = omega arith in rw e (omega arith))
two_pow-add (suc m) n =
    let e : suc m + n ≡ suc (m + n) = omega arith in
    rw (e, pow-succ' 2 (m + n), pow-succ' 2 m, two_pow-add m n) (omega arith)

-- A limb holds less than 20 bits.
value_bits : (a : List ℕ) → All IsLimb a → value a < 2 ^ (20 * length a)
unfolding value
value_bits [] h = omega arith
value_bits (x ∷ a) h =
    let rest = value_bits a (h.1) in
    let split : 2 ^ (20 * suc (length a)) ≡ 2 ^ 20 * 2 ^ (20 * length a) =
      ap (λ k. 2 ^ k) (omega arith) ∙ two_pow-add 20 (20 * length a) in
    omega (arith, rest, split, h.0)

both_left : (b c : Bool) → (b && c) ≡ true → b ≡ true
both_left true c e = refl
both_left false c e = e

mod_of-ends : (x y : Integer) → some_limbs (y.limbs) ≡ true → (z : Integer) × (mod_of x y ≡ ok z)
unfolding mod_of div_mod quo_rem
mod_of-ends x y e = rw e (_, refl)

reduce-ends :
    (m : Option Integer) (x : Integer) → (z : Integer) × (reduce (used_modulus m) x ≡ ok z)
unfolding used_modulus reduce
reduce-ends none x = (x, refl)
reduce-ends (some m) x = elim (Bool-cases (some_limbs (m.limbs) && not (m.neg))) [
  | inr unused ↦ rw unused (x, refl)
  | inl used ↦ rw used (mod_of-ends x m (both_left (some_limbs (m.limbs)) (not (m.neg)) used))
]

abbrev two : Integer
two = new_int (ℤ.pos 2)

-- A round halves the exponent.
two-IsMagnitude : (two.limbs ≡ 2 ∷ []) × IsMagnitude (two.limbs) × (value (two.limbs) ≡ 2)
unfolding new_int limbs_of value absolute
two-IsMagnitude = (refl, record { limbs = (omega arith, tt); top = omega arith }, refl)

quo_rem-two :
    (x : Integer)
    → IsInteger x
    → (q r : Integer) × (quo_rem x two ≡ ok (q, r))
      × IsInteger q
      × (value (q.limbs) * 2 ≤ value (x.limbs))
unfolding quo_rem
quo_rem-two x h =
    let (shape, magnitude, v) = two-IsMagnitude in
    let (mq, mr, split, small) =
      div_mod_mag-division (x.limbs) (two.limbs) (h.magnitude) magnitude (omega (arith, v)) in
    let qs = (div_mod_mag (x.limbs) (two.limbs)).0 in
    let not_zero : some_limbs (two.limbs) ≡ true =
      some_limbs_of_pos (two.limbs) (omega (arith, v)) in
    let rs = (div_mod_mag (x.limbs) (two.limbs)).1 in
    (
      record { neg = differ (x.neg) (two.neg) && some_limbs qs; limbs = qs },
      record { neg = x.neg && some_limbs rs; limbs = rs },
      rw not_zero refl,
      IsInteger-intro (differ (x.neg) (two.neg)) qs mq,
      halves (value (x.limbs)) (value qs) (value (two.limbs)) (value rs) v split,
    )
  where
    halves : (x q d r : ℕ) → d ≡ 2 → x ≡ q * d + r → q * 2 ≤ x
    halves x q d r e h = (let h' : x ≡ q * 2 + r = h ∙ ap (λ d. q * d + r) e in omega (arith, h'))

value-zero : (a : List ℕ) → IsMagnitude a → value a < 1 → some_limbs a ≡ false
value-zero [] h small = refl
value-zero (x ∷ a) h small =
    let low : limb_base ^ 0 ≤ limb_base ^ length a =
      pow-le-pow_right {n = limb_base} (omega arith) {i = 0} {j = length a} (omega arith) in
    absurd (omega (arith, small, pow-le-value x a (h.top), low))

maybe_multiply-ends :
    (b : Bool) (m : Option Integer) (result base : Integer)
    → (z : Integer) × ((if b then reduce (used_modulus m) (mul result base) else ok result) ≡ ok z)
maybe_multiply-ends true m result base = reduce-ends m (mul result base)
maybe_multiply-ends false m result base = (result, refl)

-- One round.
exp_loop-round :
    (fuel : ℕ) (m : Option Integer) (result base exp q r result' base' : Integer)
    → (some_limbs (exp.limbs) && not (exp.neg)) ≡ true
    → quo_rem exp two ≡ ok (q, r)
    → (if some_limbs (r.limbs) then reduce m (mul result base) else ok result) ≡ ok result'
    → reduce m (mul base base) ≡ ok base'
    → exp_loop (suc fuel) m result base exp ≡ exp_loop fuel m result' base' q
unfolding exp_loop
exp_loop-round fuel m result base exp q r result' base' more halved multiplied squared =
    rw (more, halved, multiplied, squared) refl

exp_loop-ends :
    (bits : ℕ) (m : Option Integer) (result base exp : Integer)
    → value (exp.limbs) < 2 ^ bits
    → IsInteger exp
    → (z : Integer) × (exp_loop (suc bits) (used_modulus m) result base exp ≡ ok z)
unfolding exp_loop
exp_loop-ends zero m result base exp bound h =
    let done : some_limbs (exp.limbs) ≡ false =
      value-zero (exp.limbs) (h.magnitude) (omega (arith, bound)) in
    rw done (result, refl)
exp_loop-ends (suc bits) m result base exp bound h =
    elim (Bool-cases (some_limbs (exp.limbs) && not (exp.neg))) [
      | inr done ↦ rw done (result, refl)
      | inl more ↦
          let (q, r, halved, i, smaller) = quo_rem-two exp h in
          let (result', multiplied) = maybe_multiply-ends (some_limbs (r.limbs)) m result base in
          let (base', squared) = reduce-ends m (mul base base) in
          let (z, ends) =
            exp_loop-ends bits m result' base' q (omega (arith, smaller, bound, pow-succ' 2 bits))
              i in
          (
            z,
            exp_loop-round (suc bits) (used_modulus m) result base exp q r result' base' more halved
                  multiplied squared
                ∙ ends,
          )
    ]

-- Exp returns a value, for every exponent and with every modulus: its loop ends within 20 rounds for
-- each limb of the exponent and one more.
pub exp-ends :
    (x y : Integer) (m : Option Integer) → IsInteger y → (z : Integer) × (exp x y m ≡ ok z)
unfolding exp
exp-ends x y m h =
    let (base, reduced) = reduce-ends m x in
    let bound : value (y.limbs) < 2 ^ (20 * length (y.limbs)) =
      value_bits (y.limbs) (h.magnitude.limbs) in
    let (z, ends) = exp_loop-ends (20 * length (y.limbs)) m (new_int (ℤ.pos 1)) base y bound h in
    let fuel : 20 * length (y.limbs) + 1 ≡ suc (20 * length (y.limbs)) = omega arith in
    (z, rw (reduced, fuel) ends)
