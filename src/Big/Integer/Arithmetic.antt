-- ===== src/Big/Integer/Arithmetic.antt =====
-- Add, Sub, Mul and Cmp against the integers.
use Prim.Native.Nat.{compare, Ordering, lt, eq, gt}
use wasigoc.Common.{
  ℕ, ◌+◌, ◌^◌, ◌≤◌, ◌<◌, ◌≡◌, refl, sym, ap, ◌∙◌, arith, List, [], Bool, true, false, ◌&&◌, not,
}
use wasigoc.Common.{length}
use wasigoc.Common.Int.{
  ℤ, signed, minus, ◌+ℤ◌, ◌*ℤ◌, opposite, differ, signed-add, signed-add_differ, signed-add_differ',
  signed-mul, minus-add_left, minus-add_right, signed-zero, opposite-signed,
}
use wasigoc.Big.Magnitude.{add_mag, sub_mag, mul_mag}
use wasigoc.Big.Magnitude.Value.{value, IsMagnitude, cmp_mag-compare, nil-IsMagnitude}
use wasigoc.Big.Magnitude.Sum.{add_mag-sum, sub_mag-difference}
use wasigoc.Big.Magnitude.Product.{mul_mag-product}
use wasigoc.Big.Integer.{Integer, some_limbs, add, add_unlike, neg_of, sub, mul}
use wasigoc.Big.Integer.Value.{
  number, IsInteger, signed-some_limbs, IsInteger-intro, some_limbs_of_pos,
}

-- Mul multiplies, if the first factor has at most 10,000 limbs, and keeps the form of an integer.
pub mul-number :
    (x y : Integer)
    → length (x.limbs) ≤ 10 ^ 4
    → IsInteger x
    → IsInteger y
    → IsInteger (mul x y) × (number (mul x y) ≡ number x *ℤ number y)
unfolding mul number
mul-number x y few h k =
    let (m, v) = mul_mag-product (x.limbs) (y.limbs) few (h.magnitude.limbs) (k.magnitude.limbs) in
    let limbs = mul_mag (x.limbs) (y.limbs) in
    (
      IsInteger-intro (differ (x.neg) (y.neg)) limbs m,
      signed-some_limbs (differ (x.neg) (y.neg)) limbs
          ∙ ap (signed (differ (x.neg) (y.neg))) v
          ∙ sym (signed-mul (x.neg) (y.neg) (value (x.limbs)) (value (y.limbs))),
    )

add_like :
    (b : Bool) (xs ys : List ℕ)
    → IsMagnitude xs
    → IsMagnitude ys
    → IsInteger (record { neg = b && some_limbs (add_mag xs ys); limbs = add_mag xs ys })
      × (signed (b && some_limbs (add_mag xs ys)) (value (add_mag xs ys))
          ≡ signed b (value xs) +ℤ signed b (value ys))
add_like b xs ys h k =
    let (m, v) = add_mag-sum xs ys (h.limbs) (k.limbs) in
    (
      IsInteger-intro b (add_mag xs ys) m,
      signed-some_limbs b (add_mag xs ys)
          ∙ ap (signed b) v
          ∙ sym (signed-add b (value xs) (value ys)),
    )

-- The difference of two magnitudes, by how they compare.
minus_less : (m n d : ℕ) → d + m ≡ n → minus m n ≡ signed true d
minus_less m n d e = rw (sym e) (minus-add_right d m)

minus_more : (m n d : ℕ) → d + n ≡ m → minus m n ≡ signed false d
minus_more m n d e = rw (sym e) (unfold signed in minus-add_left d n)

-- The difference of limbs, the larger magnitude first, with a sign.
less_limbs :
    (b : Bool) (xs ys : List ℕ)
    → IsMagnitude xs
    → IsMagnitude ys
    → value ys < value xs
    → IsInteger (record { neg = b; limbs = sub_mag xs ys })
      × (value (sub_mag xs ys) + value ys ≡ value xs)
less_limbs b xs ys h k l =
    let (m, v) = sub_mag-difference xs ys (h.limbs) (k.limbs) (omega (arith, l)) in
    (
      record {
        magnitude = m;
        unsigned = λ e. some_limbs_of_pos (sub_mag xs ys) (omega (arith, v, l));
      },
      v,
    )

zero-IsInteger : IsInteger (record { neg = false; limbs = [] })
zero-IsInteger = record { magnitude = nil-IsMagnitude; unsigned = λ e. cc }

abbrev unlike_sum : Bool → ℕ → ℕ → ℤ
unlike_sum b m n = signed b m +ℤ signed (not b) n

unlike_sum-more : (b : Bool) (m n d : ℕ) → d + n ≡ m → unlike_sum b m n ≡ signed b d
unlike_sum-more false m n d e = signed-add_differ m n ∙ minus_more m n d e
unlike_sum-more true m n d e = signed-add_differ' m n ∙ minus_less n m d e

unlike_sum-less : (b : Bool) (m n d : ℕ) → d + m ≡ n → unlike_sum b m n ≡ signed (not b) d
unlike_sum-less false m n d e = signed-add_differ m n ∙ minus_less m n d e
unlike_sum-less true m n d e = signed-add_differ' m n ∙ minus_more n m d e

add_unlike-number :
    (b : Bool) (xs ys : List ℕ) (o : Ordering)
    → IsMagnitude xs
    → IsMagnitude ys
    → compare (value xs) (value ys) ≡ o
    → IsInteger (add_unlike o (record { neg = b; limbs = xs }) (record { neg = not b; limbs = ys }))
      × (number (add_unlike o (record { neg = b; limbs = xs }) (record { neg = not b; limbs = ys }))
          ≡ unlike_sum b (value xs) (value ys))
unfolding add_unlike number signed
add_unlike-number b xs ys eq h k e = (
  zero-IsInteger,
  unfold value in
      sym (unlike_sum-more b (value xs) (value ys) 0 (ground (arith, e)) ∙ signed-zero b),
)
add_unlike-number b xs ys gt h k e =
    let (i, v) = less_limbs b xs ys h k (ground (arith, e)) in
    (i, sym (unlike_sum-more b (value xs) (value ys) (value (sub_mag xs ys)) v))
add_unlike-number b xs ys lt h k e =
    let (i, v) = less_limbs (not b) ys xs k h (ground (arith, e)) in
    (i, sym (unlike_sum-less b (value xs) (value ys) (value (sub_mag ys xs)) v))

add_parts :
    (b c : Bool) (xs ys : List ℕ)
    → IsMagnitude xs
    → IsMagnitude ys
    → IsInteger (add (record { neg = b; limbs = xs }) (record { neg = c; limbs = ys }))
      × (number (add (record { neg = b; limbs = xs }) (record { neg = c; limbs = ys }))
          ≡ signed b (value xs) +ℤ signed c (value ys))
unfolding add differ number
add_parts false false xs ys h k = add_like false xs ys h k
add_parts true true xs ys h k = add_like true xs ys h k
add_parts false true xs ys h k =
    rw (cmp_mag-compare xs ys h k) (add_unlike-number false xs ys _ h k refl)
add_parts true false xs ys h k =
    rw (cmp_mag-compare xs ys h k) (add_unlike-number true xs ys _ h k refl)

-- Add adds: the sum of two integers in their form is one, which stands for the sum.
pub add-number :
    (x y : Integer)
    → IsInteger x
    → IsInteger y
    → IsInteger (add x y) × (number (add x y) ≡ number x +ℤ number y)
unfolding number
add-number x y h k = add_parts (x.neg) (y.neg) (x.limbs) (y.limbs) (h.magnitude) (k.magnitude)

neg_of-number :
    (y : Integer) → IsInteger y → IsInteger (neg_of y) × (number (neg_of y) ≡ opposite (number y))
unfolding neg_of number
neg_of-number y k = (
  IsInteger-intro (not (y.neg)) (y.limbs) (k.magnitude),
  signed-some_limbs (not (y.neg)) (y.limbs) ∙ sym (opposite-signed (y.neg) (value (y.limbs))),
)

-- Sub subtracts.
pub sub-number :
    (x y : Integer)
    → IsInteger x
    → IsInteger y
    → IsInteger (sub x y) × (number (sub x y) ≡ number x +ℤ opposite (number y))
unfolding sub
sub-number x y h k =
    let (i, v) = neg_of-number y k in
    let (j, w) = add-number x (neg_of y) h i in (j, w ∙ ap (λ n. number x +ℤ n) v)
