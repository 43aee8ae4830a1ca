-- ===== src/Big/Magnitude/Quotient.antt =====
-- divModMag against division with remainder.
use Prim.Native.Nat.{compare}
use native.Mathlib.Nat.{mul-zero, zero-mul, mul_comm, pow-suc, add-mul, mul_assoc, mul-suc}
use wasigoc.Common.{
  ℕ, zero, suc, ◌+◌, ◌-◌, ◌*◌, ◌/◌, ◌^◌, ◌≤◌, ◌<◌, ◌≡◌, refl, ap, arith, List, [], ◌∷◌, true,
}
use wasigoc.Common.{ltb, All, Bool-cases, inl, inr, ◌↔◌}
use wasigoc.Big.Magnitude.{
  limb_base, normalize, cmp_mag, at_most, is_less, mul_mag_small, fits, digit_loop, div_round,
  div_loop, div_mod_mag,
}
use wasigoc.Big.Magnitude.Value.{
  value, IsLimb, IsMagnitude, value-normalize, normalize-IsMagnitude, nil-IsMagnitude,
  cmp_mag-compare,
}
use wasigoc.Big.Magnitude.Sum.{sub_mag-difference}
use wasigoc.Big.Magnitude.Product.{mul_mag_small-product}

-- The probe of the search compares the product with the remainder.
fits_iff :
    (b : List ℕ) (mid : ℕ) (rem : List ℕ)
    → mid < limb_base
    → IsMagnitude b
    → IsMagnitude rem
    → (fits b mid rem ≡ true) ↔ (value b * mid ≤ value rem)
unfolding fits at_most
fits_iff b mid rem h k r =
    let (m, v) = mul_mag_small-product b mid h (k.limbs) in
    rw (cmp_mag-compare (mul_mag_small b mid) rem m r, v) (ground arith)

-- What the search is for: the largest digit whose product fits.
abbrev IsDigit : ℕ → ℕ → ℕ → Type 0
IsDigit b rem q = (q < limb_base) × (b * q ≤ rem) × (rem < b * suc q)

-- An empty range has no room above `q`.
IsDigit-end :
    (b rem lo top q : ℕ)
    → top ≤ limb_base
    → top ≡ lo
    → q ≡ lo - 1
    → b * q ≤ rem
    → rem < b * top
    → IsDigit b rem q
IsDigit-end b rem zero top q t o e l u =
    absurd (omega (arith, ap (λ (k : ℕ). b * k) o, mul-zero b, u))
IsDigit-end b rem (suc lo) top q t o e l u =
    let same : top ≡ suc q = omega (arith, o, e) in (omega (arith, same, t), l, rw (← same) u)

digit_loop-IsDigit :
    (fuel lo top q : ℕ) (b rem : List ℕ)
    → IsMagnitude b
    → IsMagnitude rem
    → top ≤ limb_base
    → lo ≤ top
    → top < lo + 2 ^ fuel
    → q ≡ lo - 1
    → value b * q ≤ value rem
    → value rem < value b * top
    → IsDigit (value b) (value rem) (digit_loop fuel lo top q b rem)
unfolding digit_loop
digit_loop-IsDigit zero lo top q b rem k r t o f e l u =
    IsDigit-end (value b) (value rem) lo top q t (omega (arith, o, f)) e l u
digit_loop-IsDigit (suc fuel) lo top q b rem k r t o f e l u =
    let mid = (lo + (top - 1)) / 2 in
    let room : top < lo + 2 ^ fuel * 2 = omega (arith, f, pow-suc 2 fuel) in
    elim (Bool-cases (ltb lo top)) [
      | inr end' ↦
          rw end' (IsDigit-end (value b) (value rem) lo top q t (ground (arith, end', o)) e l u)
      | inl go ↦
          let inside : lo < top = ground (arith, go) in
          let probe = fits_iff b mid rem (omega (arith, inside, t)) k r in
          elim (Bool-cases (fits b mid rem)) [
            | inl up ↦
                rw (go, up)
                  (digit_loop-IsDigit fuel (mid + 1) top mid b rem k r t (omega (arith, inside))
                    (omega (arith, inside, room)) (omega arith) (probe.0 up) u)
            | inr down ↦
                rw (go, down)
                  (digit_loop-IsDigit fuel lo mid q b rem k r (omega (arith, inside, t))
                    (omega (arith, inside)) (omega (arith, inside, room)) e l
                    (ground (arith, probe, down)))
          ]
    ]

-- The long division: after each limb the remainder is below the divisor.
abbrev IsDivision : List ℕ → List ℕ → List ℕ × List ℕ → Type 0
IsDivision a b (quotient, rem) =
    All IsLimb quotient
    × IsMagnitude rem
    × (value a ≡ value quotient * value b + value rem)
    × (value rem < value b)

div_round-IsDivision :
    (x : ℕ) (a b quotient rem : List ℕ)
    → IsLimb x
    → IsMagnitude b
    → IsDivision a b (quotient, rem)
    → IsDivision (x ∷ a) b (div_round x b (quotient, rem))
unfolding div_round value
div_round-IsDivision x a b quotient rem h k (qs, r, split, small) =
    let shifted = normalize (x ∷ rem) in
    let s = normalize-IsMagnitude (x ∷ rem) (h, r.limbs) in
    let v = value-normalize (x ∷ rem) in
    let (in_range, fits_in, next) =
      digit_loop-IsDigit 20 0 limb_base 0 b shifted k s (omega arith) (omega arith) (omega arith)
        refl (omega (arith, mul-zero (value b)))
        (omega (arith, v, h, small, mul_comm (value b) limb_base)) in
    let q = digit_loop 20 0 limb_base 0 b shifted in
    let (m, p) = mul_mag_small-product b q in_range (k.limbs) in
    let (d, left) =
      sub_mag-difference shifted (mul_mag_small b q) (s.limbs) (m.limbs)
        (omega (arith, p, fits_in)) in
    (
      (in_range, qs),
      d,
      omega (
        arith,
        left,
        p,
        v,
        split,
        add-mul q (limb_base * value quotient) (value b),
        mul_assoc limb_base (value quotient) (value b),
        mul_comm q (value b),
      ),
      omega (arith, left, p, next, mul-suc (value b) q),
    )

div_loop-IsDivision :
    (a b : List ℕ) → All IsLimb a → IsMagnitude b → 0 < value b → IsDivision a b (div_loop a b)
unfolding div_loop
div_loop-IsDivision [] b h k pos =
    unfold value in (tt, nil-IsMagnitude, omega (arith, zero-mul (value b)), pos)
div_loop-IsDivision (x ∷ a) b h k pos =
    let ih = div_loop-IsDivision a b (h.1) k pos in
    div_round-IsDivision x a b ((div_loop a b).0) ((div_loop a b).1) (h.0) k ih

is_less-lt : (x y : ℕ) → is_less (compare x y) ≡ true → x < y
unfolding is_less
is_less-lt x y e = ground (arith, e)

-- divModMag divides: for magnitudes of which the second is not zero, it gives the magnitudes of the
-- quotient and of a remainder below the divisor.
pub div_mod_mag-division :
    (a b : List ℕ)
    → IsMagnitude a
    → IsMagnitude b
    → 0 < value b
    → IsMagnitude (div_mod_mag a b).0
      × IsMagnitude (div_mod_mag a b).1
      × (value a ≡ value (div_mod_mag a b).0 * value b + value (div_mod_mag a b).1)
      × (value (div_mod_mag a b).1 < value b)
unfolding div_mod_mag is_less
div_mod_mag-division a b h k pos =
    let (qs, r, split, small) = div_loop-IsDivision a b (h.limbs) k pos in
    let quotient = (div_loop a b).0 in
    elim (Bool-cases (is_less (cmp_mag a b))) [
      | inl less ↦
          let below = is_less-lt (value a) (value b) (rw (cmp_mag-compare a b h k) at less) in
          rw less (nil-IsMagnitude, h, unfold value in omega (arith, zero-mul (value b)), below)
      | inr not_less ↦
          rw not_less
            (normalize-IsMagnitude quotient qs, r, rw (value-normalize quotient) split, small)
    ]
