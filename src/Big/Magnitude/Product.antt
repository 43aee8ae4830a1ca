-- ===== src/Big/Magnitude/Product.antt =====
-- mulMag and mulMagSmall against multiplication, and that their 64-bit sums do not wrap around.
use native.Mathlib.Nat.{
  pow-suc, mul-le-mul, mul-add, mul_left_comm, mul-zero, zero-mul, add-mul, mul_assoc, mul_comm,
  suc-mul, mul-le-mul_left, mul-lt-mul_of_pos_right, pow-zero, one-mul,
}
use wasigoc.Common.{
  ℕ, zero, suc, ◌+◌, ◌*◌, ◌/◌, ◌%◌, ◌^◌, ◌≤◌, ◌<◌, ◌≡◌, refl, sym, ap, ◌∙◌, arith, List, [], ◌∷◌,
  true,
}
use wasigoc.Common.{◌==◌, ◌||◌, length, All, Bool-cases, inl, inr, replicate, length-replicate}
use wasigoc.Common.Bits.{u32, u64}
use wasigoc.Big.Magnitude.{
  limb_base, low, higher, add_row, add_rows, carry_loop, mul_mag, small_loop, mul_mag_small,
}
use wasigoc.Big.Magnitude.Value.{
  value, IsLimb, IsMagnitude, value-normalize, normalize-IsMagnitude, nil-IsMagnitude, value-lt,
  value-higher, higher-All,
}

-- The product of two limbs.
limbs-lt : (x y : ℕ) → IsLimb x → IsLimb y → x * y ≤ 10 ^ 12
limbs-lt x y h k =
    let p : x ≤ 10 ^ 6 = omega (arith, h) in
    let q : y ≤ 10 ^ 6 = omega (arith, k) in omega (arith, mul-le-mul p q)

-- Sums of `n` products of limbs.
abbrev IsSum : ℕ → ℕ → Type 0
IsSum n c = c ≤ n * 10 ^ 12

IsSum-mono : (n m : ℕ) (acc : List ℕ) → n ≤ m → All (IsSum n) acc → All (IsSum m) acc
IsSum-mono n m [] h s = tt
IsSum-mono n m (c ∷ acc) h s = (omega (arith, s.0, h), IsSum-mono n m acc h (s.1))

module _ (n : ℕ) (few : n < 10 ^ 4) where
  add_row-value :
      (x : ℕ) (b acc : List ℕ)
      → IsLimb x
      → All IsLimb b
      → All (IsSum n) acc
      → length b ≤ length acc
      → (value (add_row x b acc) ≡ x * value b + value acc)
        × All (IsSum (suc n)) (add_row x b acc)
        × (length (add_row x b acc) ≡ length acc)
  unfolding add_row value
  add_row-value x [] acc h k s l =
      (omega (arith, mul-zero x), IsSum-mono n (suc n) acc (omega arith) s, refl)
  add_row-value x (y ∷ b) [] h k s l = absurd (omega (arith, l))
  add_row-value x (y ∷ b) (c ∷ acc) h k s l =
      let (v, all, len) = add_row-value x b acc h (k.1) (s.1) (omega (arith, l)) in
      let p = limbs-lt x y h (k.0) in
      let bound : c + x * y ≤ suc n * 10 ^ 12 = omega (arith, p, s.0) in
      let exact : u64 (c + u64 (x * y)) ≡ c + x * y = omega (arith, p, s.0, few) in
      rw exact (
        omega (arith, v, mul-add x y (limb_base * value b), mul_left_comm x limb_base (value b)),
        (bound, all),
        omega (arith, len),
      )

low-IsSum : (n : ℕ) (acc : List ℕ) → All (IsSum n) acc → IsSum n (low acc)
unfolding low
low-IsSum n [] s = omega arith
low-IsSum n (c ∷ acc) s = s.0

length-higher : (acc : List ℕ) (k : ℕ) → suc k ≤ length acc → suc (length (higher acc)) ≡ length acc
unfolding higher
length-higher [] k h = absurd (omega (arith, h))
length-higher (c ∷ acc) k h = refl

-- Rows for the limbs of `a`, where each place has at most `n` products already.
add_rows-value :
    (n : ℕ) (a b acc : List ℕ)
    → n + length a ≤ 10 ^ 4
    → All IsLimb a
    → All IsLimb b
    → All (IsSum n) acc
    → length a + length b ≤ length acc
    → (value (add_rows a b acc) ≡ value a * value b + value acc)
      × All (IsSum (10 ^ 4)) (add_rows a b acc)
      × (length (add_rows a b acc) ≡ length acc)
unfolding add_rows value
add_rows-value n [] b acc few h k s l =
    (omega (arith, zero-mul (value b)), IsSum-mono n (10 ^ 4) acc (omega (arith, few)) s, refl)
add_rows-value n (x ∷ a) b acc few h k s l =
    let (v, all, len) = add_row-value n (omega (arith, few)) x b acc (h.0) k s (omega (arith, l)) in
    let row = add_row x b acc in
    let len' = length-higher row (length a + length b) (omega (arith, l, len)) in
    let (v', all', len'') =
      add_rows-value (suc n) a b (higher row) (omega (arith, few)) (h.1) k
        (higher-All (IsSum (suc n)) row all) (omega (arith, len', len, l)) in
    (
      omega (
        arith,
        v,
        v',
        value-higher row,
        add-mul x (limb_base * value a) (value b),
        mul_assoc limb_base (value a) (value b),
      ),
      (omega (arith, few, low-IsSum (suc n) row all), all'),
      omega (arith, len', len'', len),
    )

-- A carry is what a limb takes off its base: with the limbs above, nothing is lost.
carry-value :
    (last p v c : ℕ) → v + last * p ≡ c → limb_base * v + last * (p * limb_base) ≡ limb_base * c
carry-value last p v c e =
    let q : last * (p * limb_base) ≡ limb_base * (last * p) =
      sym (mul_assoc last p limb_base) ∙ mul_comm (last * p) limb_base in
    omega (arith, q, e)

carry_loop-step :
    (carry x : ℕ) (acc : List ℕ)
    → carry ≤ 10 ^ 16
    → IsSum (10 ^ 4) x
    → carry_loop carry (x ∷ acc)
      ≡ (x + carry) % limb_base ∷ carry_loop ((x + carry) / limb_base) acc
unfolding carry_loop
carry_loop-step carry x acc c s =
    let exact : u64 (x + carry) ≡ x + carry = omega (arith, c, s) in
    let limb : u32 ((x + carry) % limb_base) ≡ (x + carry) % limb_base = omega arith in
    rw (exact, limb) refl

-- The carries: nothing is lost but the last one.
carry_loop-value :
    (carry : ℕ) (acc : List ℕ)
    → carry ≤ 10 ^ 16
    → All (IsSum (10 ^ 4)) acc
    → (last : ℕ) × (value (carry_loop carry acc) + last * limb_base ^ length acc
        ≡ value acc + carry)
      × All IsLimb (carry_loop carry acc)
      × (length (carry_loop carry acc) ≡ length acc)
unfolding value
carry_loop-value carry [] c s = unfold carry_loop in (carry, omega arith, tt, refl)
carry_loop-value carry (x ∷ acc) c s =
    let next = (x + carry) / limb_base in
    let (last, v, all, len) = carry_loop-value next acc (omega (arith, c, s.0)) (s.1) in
    let whole =
      carry-value last (limb_base ^ length acc) (value (carry_loop next acc)) (value acc + next)
        v in
    (
      last,
      rw (carry_loop-step carry x acc c (s.0), pow-suc limb_base (length acc))
          (omega (arith, whole)),
      rw (carry_loop-step carry x acc c (s.0)) (omega arith, all),
      rw (carry_loop-step carry x acc c (s.0)) (omega (arith, len)),
    )

value-zeros : (n : ℕ) → value (replicate n 0) ≡ 0
unfolding value
value-zeros zero = refl
value-zeros (suc n) = omega (arith, value-zeros n)

zeros-IsSum : (n : ℕ) → All (IsSum 0) (replicate n 0)
zeros-IsSum zero = tt
zeros-IsSum (suc n) = (omega arith, zeros-IsSum n)

-- The product fits into as many limbs as the factors have together, so that no carry is left.
no_carry : (last p v m : ℕ) → v + last * p ≡ m → m < p → v ≡ m
no_carry zero p v m e h = omega (arith, e, zero-mul p)
no_carry (suc last) p v m e h = absurd (omega (arith, e, h, suc-mul last p))

pow-add : (b n m : ℕ) → b ^ (n + m) ≡ b ^ n * b ^ m
pow-add b zero m = let e : 0 + m ≡ m = omega arith in rw (e, pow-zero b) (sym (one-mul (b ^ m)))
pow-add b (suc n) m =
    let e : suc n + m ≡ suc (n + m) = omega arith in
    rw e (
      pow-suc b (n + m)
      ∙ ap (λ t. t * b) (pow-add b n m)
      ∙ mul_assoc (b ^ n) (b ^ m) b
      ∙ ap (λ t. b ^ n * t) (mul_comm (b ^ m) b)
      ∙ sym (mul_assoc (b ^ n) b (b ^ m))
      ∙ ap (λ t. t * b ^ m) (sym (pow-suc b n)))

product-lt : (p q v w : ℕ) → v < p → w < q → v * w < p * q
product-lt p q v w h k =
    let wide : v * w ≤ v * q = mul-le-mul_left v (omega (arith, k)) in
    let some_q : 0 < q = omega (arith, k) in omega (arith, wide, mul-lt-mul_of_pos_right h some_q)

rows-product :
    (a b : List ℕ)
    → length a ≤ 10 ^ 4
    → All IsLimb a
    → All IsLimb b
    → (value (carry_loop 0 (add_rows a b (replicate (length a + length b) 0))) ≡ value a * value b)
      × All IsLimb (carry_loop 0 (add_rows a b (replicate (length a + length b) 0)))
rows-product a b few h k =
    let n = length a + length b in
    let zeros = replicate n 0 in
    let acc = add_rows a b zeros in
    let (v, all, len) =
      add_rows-value 0 a b zeros (omega (arith, few)) h k (zeros-IsSum n)
        (omega (arith, length-replicate {A = ℕ} n 0)) in
    let (last, w, limbs, len') = carry_loop-value 0 acc (omega arith) all in
    let same : length acc ≡ n = omega (arith, len, length-replicate {A = ℕ} n 0) in
    let total : value acc + 0 ≡ value a * value b = omega (arith, v, value-zeros n) in
    let room : value a * value b < limb_base ^ length acc =
      rw (same, pow-add limb_base (length a) (length b))
        (product-lt (limb_base ^ length a) (limb_base ^ length b) (value a) (value b) (value-lt a h)
          (value-lt b k)) in
    (
      no_carry last (limb_base ^ length acc) (value (carry_loop 0 acc)) (value a * value b)
          (w ∙ total) room,
      limbs,
    )

-- mulMag multiplies: the product of two magnitudes of at most 10,000 limbs (the first one) is a
-- magnitude, which stands for the product.
pub mul_mag-product :
    (a b : List ℕ)
    → length a ≤ 10 ^ 4
    → All IsLimb a
    → All IsLimb b
    → IsMagnitude (mul_mag a b) × (value (mul_mag a b) ≡ value a * value b)
unfolding mul_mag value
mul_mag-product a b few h k = elim (Bool-cases (length a == 0 || length b == 0)) [
  | inl none_left ↦ rw none_left (nil-IsMagnitude, sym (zero_product a b none_left))
  | inr some_left ↦
      let (v, limbs) = rows-product a b few h k in
      rw some_left (normalize-IsMagnitude _ limbs, value-normalize _ ∙ v)
]
  where
    zero_product : (a b : List ℕ) → (length a == 0 || length b == 0) ≡ true → value a * value b ≡ 0
    zero_product [] b e = zero-mul (value b)
    zero_product (x ∷ a) [] e = mul-zero (value (x ∷ a))
    zero_product (x ∷ a) (y ∷ b) e = absurd (ground (arith, e))

-- A product of limbs with a carry has two digits.
limb_step-lt :
    (x m carry : ℕ) → IsLimb x → m < limb_base → carry < limb_base → x * m + carry < 10 ^ 12
limb_step-lt x m carry h k c =
    let p : x ≤ 999999 = omega (arith, h) in
    let q : m ≤ 999999 = omega (arith, k) in omega (arith, mul-le-mul p q, c)

small_loop-step :
    (carry x : ℕ) (a : List ℕ) (m : ℕ)
    → x * m + carry < 10 ^ 12
    → small_loop carry (x ∷ a) m
      ≡ (x * m + carry) % limb_base ∷ small_loop ((x * m + carry) / limb_base) a m
unfolding small_loop
small_loop-step carry x a m h =
    let exact : u64 (u64 (x * m) + carry) ≡ x * m + carry = omega (arith, h) in
    let limb : u32 ((x * m + carry) % limb_base) ≡ (x * m + carry) % limb_base = omega arith in
    rw (exact, limb) refl

small_loop-value :
    (carry : ℕ) (a : List ℕ) (m : ℕ)
    → carry < limb_base
    → m < limb_base
    → All IsLimb a
    → (value (small_loop carry a m) ≡ value a * m + carry) × All IsLimb (small_loop carry a m)
unfolding value
small_loop-value carry [] m c h k =
    unfold small_loop in (omega (arith, c, zero-mul m), (omega (arith, c), tt))
small_loop-value carry (x ∷ a) m c h k =
    let small = limb_step-lt x m carry (k.0) h c in
    let next = (x * m + carry) / limb_base in
    let (v, all) = small_loop-value next a m (omega (arith, small)) h (k.1) in
    rw (small_loop-step carry x a m small) (
      omega (arith, v, add-mul x (limb_base * value a) m, mul_assoc limb_base (value a) m),
      (omega arith, all),
    )

-- mulMagSmall multiplies by a number below the base.
pub mul_mag_small-product :
    (a : List ℕ) (m : ℕ)
    → m < limb_base
    → All IsLimb a
    → IsMagnitude (mul_mag_small a m) × (value (mul_mag_small a m) ≡ value a * m)
unfolding mul_mag_small value
mul_mag_small-product a m h k = elim (Bool-cases (m == 0 || length a == 0)) [
  | inl none_left ↦ rw none_left (nil-IsMagnitude, sym (zero_product a m none_left))
  | inr some_left ↦
      let (v, limbs) = small_loop-value 0 a m (omega arith) h k in
      rw some_left
        (normalize-IsMagnitude _ limbs, omega (arith, value-normalize (small_loop 0 a m), v))
]
  where
    zero_product : (a : List ℕ) (m : ℕ) → (m == 0 || length a == 0) ≡ true → value a * m ≡ 0
    zero_product [] m e = zero-mul m
    zero_product (x ∷ a) m e = let z : m ≡ 0 = ground (arith, e) in rw z (mul-zero (value (x ∷ a)))
