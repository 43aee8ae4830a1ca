-- ===== src/Common/Int.antt =====
-- Go's signed integers where a program tells negative ones apart.
use Prim.Native.Nat.{ℕ, zero, suc, ◌+◌, ◌*◌}
use mathlib.Core.Path.{◌≡◌, refl, ap}
use mathlib.Core.Bool.{Bool, true, false, not}
use native.Mathlib.Nat.{mul-zero, zero-mul}
use native.Mathlib.Omega.{arith}

-- `negsuc n` is -(n + 1).
pub data ℤ : Type 0 where
  pos : ℕ → ℤ
  negsuc : ℕ → ℤ

-- The integer of a sign and an absolute value.
unfoldable pub signed : Bool → ℕ → ℤ
signed false n = pos n
signed true zero = pos 0
signed true (suc n) = negsuc n

-- The difference of two numbers.
unfoldable pub minus : ℕ → ℕ → ℤ
minus a zero = pos a
minus zero (suc b) = negsuc b
minus (suc a) (suc b) = minus a b

infixl 65 ◌+ℤ◌
unfoldable pub ◌+ℤ◌ : ℤ → ℤ → ℤ
pos a +ℤ pos b = pos (a + b)
pos a +ℤ negsuc b = minus a (suc b)
negsuc a +ℤ pos b = minus b (suc a)
negsuc a +ℤ negsuc b = negsuc (suc (a + b))

unfoldable pub absolute : ℤ → ℕ
absolute (pos n) = n
absolute (negsuc n) = suc n

unfoldable pub is_negative : ℤ → Bool
is_negative (pos n) = false
is_negative (negsuc n) = true

unfoldable pub differ : Bool → Bool → Bool
differ false b = b
differ true b = not b

infixl 70 ◌*ℤ◌
unfoldable pub ◌*ℤ◌ : ℤ → ℤ → ℤ
a *ℤ b = signed (differ (is_negative a) (is_negative b)) (absolute a * absolute b)

unfoldable pub opposite : ℤ → ℤ
opposite a = signed (not (is_negative a)) (absolute a)

pub signed-zero : (b : Bool) → signed b 0 ≡ pos 0
unfolding signed
signed-zero false = refl
signed-zero true = refl

pub minus-add_left : (k n : ℕ) → minus (k + n) n ≡ pos k
unfolding minus
minus-add_left k zero = ap pos (omega arith)
minus-add_left k (suc n) =
    let e : k + suc n ≡ suc (k + n) = omega arith in rw e (minus-add_left k n)

pub minus-add_right : (k n : ℕ) → minus n (k + n) ≡ signed true k
unfolding minus signed
minus-add_right zero zero = refl
minus-add_right (suc k) zero = let e : suc k + 0 ≡ suc k = omega arith in rw e refl
minus-add_right k (suc n) =
    let e : k + suc n ≡ suc (k + n) = omega arith in rw e (minus-add_right k n)

-- Sums of signed numbers, by their signs.
pub signed-add : (b : Bool) (m n : ℕ) → signed b m +ℤ signed b n ≡ signed b (m + n)
unfolding signed ◌+ℤ◌ minus
signed-add false m n = refl
signed-add true zero zero = refl
signed-add true zero (suc n) = let e : 0 + suc n ≡ suc n = omega arith in rw e refl
signed-add true (suc m) zero = let e : suc m + 0 ≡ suc m = omega arith in rw e refl
signed-add true (suc m) (suc n) =
    let e : suc m + suc n ≡ suc (suc (m + n)) = omega arith in rw e refl

pub signed-add_differ : (m n : ℕ) → signed false m +ℤ signed true n ≡ minus m n
unfolding signed ◌+ℤ◌ minus
signed-add_differ m zero = ap pos (omega arith)
signed-add_differ m (suc n) = refl

pub signed-add_differ' : (m n : ℕ) → signed true m +ℤ signed false n ≡ minus n m
unfolding signed ◌+ℤ◌ minus
signed-add_differ' zero n = ap pos (omega arith)
signed-add_differ' (suc m) n = refl

-- A product of signed numbers.
pub signed-mul : (a b : Bool) (m n : ℕ) → signed a m *ℤ signed b n ≡ signed (differ a b) (m * n)
unfolding signed ◌*ℤ◌ differ is_negative absolute
signed-mul false false m n = refl
signed-mul false true m zero = let e = mul-zero m in rw e refl
signed-mul false true m (suc n) = refl
signed-mul true false zero n = let e = zero-mul n in rw e refl
signed-mul true false (suc m) n = refl
signed-mul true true zero zero = refl
signed-mul true true zero (suc n) = let e = zero-mul (suc n) in rw e refl
signed-mul true true (suc m) zero = let e = mul-zero (suc m) in rw e refl
signed-mul true true (suc m) (suc n) = refl

pub differ_twice : (a b : Bool) → differ (differ a b) b ≡ a
unfolding differ
differ_twice false false = refl
differ_twice false true = refl
differ_twice true false = refl
differ_twice true true = refl

pub opposite-signed : (b : Bool) (n : ℕ) → opposite (signed b n) ≡ signed (not b) n
unfolding opposite signed is_negative absolute
opposite-signed false zero = refl
opposite-signed false (suc n) = refl
opposite-signed true zero = refl
opposite-signed true (suc n) = refl
