-- ===== src/Big/Magnitude/Sum.antt =====
-- addMag and subMag against addition and subtraction.
use wasigoc.Common.{ℕ, suc, ◌+◌, ◌≤◌, ◌<◌, ◌≡◌, refl, arith, List, [], ◌∷◌}
use wasigoc.Common.{ltb, leb, length, All, Bool-cases, inl, inr}
use wasigoc.Common.Bits.{u32}
use wasigoc.Big.Magnitude.{limb_base, low, higher, add_loop, add_mag, sub_loop, sub_mag}
use wasigoc.Big.Magnitude.Value.{
  value, IsLimb, IsMagnitude, value-normalize, normalize-IsMagnitude, value-higher, higher-All,
}

low-IsLimb : (b : List ℕ) → All IsLimb b → IsLimb (low b)
unfolding low
low-IsLimb [] h = omega arith
low-IsLimb (y ∷ b) h = h.0

length-higher : (b : List ℕ) (n : ℕ) → length b ≤ suc n → length (higher b) ≤ n
unfolding higher
length-higher [] n h = omega arith
length-higher (y ∷ b) n h = omega (arith, h)

value-nil : (b : List ℕ) → length b ≤ 0 → value b ≡ 0
unfolding value
value-nil [] h = refl
value-nil (y ∷ b) h = absurd (omega (arith, h))

add_loop-value :
    (carry : ℕ) (a b : List ℕ)
    → carry ≤ 1
    → All IsLimb a
    → All IsLimb b
    → length b ≤ length a
    → (value (add_loop carry a b) ≡ carry + value a + value b) × All IsLimb (add_loop carry a b)
unfolding add_loop value
add_loop-value carry [] b c h k l = (omega (arith, value-nil b l), (omega (arith, c), tt))
add_loop-value carry (x ∷ a) b c h k l =
    let y = low b in
    let ys = low-IsLimb b k in
    let whole = value-higher b in
    let len = length-higher b (length a) l in
    let sum : u32 (u32 (x + y) + carry) ≡ x + y + carry = omega (arith, c, h.0, ys) in
    elim (Bool-cases (leb limb_base (x + y + carry))) [
      | inl over ↦
          let (v, all) =
            add_loop-value 1 a (higher b) (omega arith) (h.1) (higher-All IsLimb b k) len in
          let big : limb_base ≤ x + y + carry = ground (arith, over) in
          rw (sum, over) (omega (arith, v, whole, big), (omega (arith, c, h.0, ys, big), all))
      | inr under ↦
          let (v, all) =
            add_loop-value 0 a (higher b) (omega arith) (h.1) (higher-All IsLimb b k) len in
          let small : x + y + carry < limb_base = ground (arith, under) in
          rw (sum, under) (omega (arith, v, whole), (small, all))
    ]

-- addMag adds: the sum of two magnitudes is a magnitude, which stands for the sum.
pub add_mag-sum :
    (a b : List ℕ)
    → All IsLimb a
    → All IsLimb b
    → IsMagnitude (add_mag a b) × (value (add_mag a b) ≡ value a + value b)
unfolding add_mag
add_mag-sum a b h k = elim (Bool-cases (ltb (length a) (length b))) [
  | inl less ↦
      let (v, all) = add_loop-value 0 b a (omega arith) k h (ground (arith, less)) in
      rw less (normalize-IsMagnitude _ all, omega (arith, value-normalize (add_loop 0 b a), v))
  | inr more ↦
      let (v, all) = add_loop-value 0 a b (omega arith) h k (ground (arith, more)) in
      rw more (normalize-IsMagnitude _ all, omega (arith, value-normalize (add_loop 0 a b), v))
]

sub_loop-value :
    (borrow : ℕ) (a b : List ℕ)
    → borrow ≤ 1
    → All IsLimb a
    → All IsLimb b
    → value b + borrow ≤ value a
    → (value (sub_loop borrow a b) + value b + borrow ≡ value a) × All IsLimb (sub_loop borrow a b)
unfolding sub_loop value
sub_loop-value borrow [] b c h k l = (omega (arith, l), tt)
sub_loop-value borrow (x ∷ a) b c h k l =
    let y = low b in
    let ys = low-IsLimb b k in
    let whole = value-higher b in
    let xs = h.0 in
    elim (Bool-cases (ltb x (y + borrow))) [
      | inl under ↦
          let small : x < y + borrow = ground (arith, under) in
          let (v, all) =
            sub_loop-value 1 a (higher b) (omega arith) (h.1) (higher-All IsLimb b k)
              (omega (arith, l, whole, small)) in
          rw under
            (omega (arith, v, whole, small, xs, c, ys), (omega (arith, small, xs, c, ys), all))
      | inr over ↦
          let large : y + borrow ≤ x = ground (arith, over) in
          let (v, all) =
            sub_loop-value 0 a (higher b) (omega arith) (h.1) (higher-All IsLimb b k)
              (omega (arith, l, whole, large, xs)) in
          rw over (omega (arith, v, whole, large), (omega (arith, xs), all))
    ]

-- subMag subtracts: of two magnitudes of which the second is not larger, it gives the magnitude that
-- stands for the difference.
pub sub_mag-difference :
    (a b : List ℕ)
    → All IsLimb a
    → All IsLimb b
    → value b ≤ value a
    → IsMagnitude (sub_mag a b) × (value (sub_mag a b) + value b ≡ value a)
unfolding sub_mag
sub_mag-difference a b h k l =
    let (v, all) = sub_loop-value 0 a b (omega arith) h k (omega (arith, l)) in
    (normalize-IsMagnitude _ all, omega (arith, value-normalize (sub_loop 0 a b), v))
