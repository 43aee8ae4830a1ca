-- ===== src/Big/Magnitude/Value.antt =====
-- What a magnitude stands for, and cmpMag and normalize against it.
use Prim.Native.Nat.{compare}
use native.Mathlib.Nat.{pow-suc, pow-le-pow_right}
use wasigoc.Common.{ℕ, ◌+◌, ◌*◌, ◌^◌, ◌≤◌, ◌<◌, ◌≡◌, refl, arith, List, [], ◌∷◌}
use wasigoc.Common.{◌==◌, ltb, length, All, Bool-cases, inl, inr}
use wasigoc.Big.Magnitude.{limb_base, low, higher, push_limb, normalize, below, cmp_loop, cmp_mag}

-- The number that the limbs stand for.
unfoldable pub value : List ℕ → ℕ
value [] = 0
value (x ∷ a) = x + limb_base * value a

abbrev pub IsLimb : ℕ → Type 0
IsLimb x = x < limb_base

pub value-higher : (b : List ℕ) → low b + limb_base * value (higher b) ≡ value b
unfolding value low higher
value-higher [] = refl
value-higher (y ∷ b) = refl

pub higher-All {κ} : (P : ℕ → Type κ) (b : List ℕ) → All P b → All P (higher b)
unfolding higher
higher-All P [] h = tt
higher-All P (y ∷ b) h = h.1

-- The highest limb is not zero.
abbrev pub IsTop : List ℕ → Type 0
IsTop [] = Unit {0}
IsTop (x ∷ []) = 0 < x
IsTop (x ∷ y ∷ a) = IsTop (y ∷ a)

-- Limbs below the base, and no zero on top.
pub record IsMagnitude (a : List ℕ) : Type 0 where
  pub limbs : All IsLimb a
  pub top : IsTop a

value-push_limb : (x : ℕ) (a : List ℕ) → value (push_limb x a) ≡ x + limb_base * value a
unfolding value push_limb
value-push_limb x [] = ground arith
value-push_limb x (y ∷ a) = refl

pub value-normalize : (a : List ℕ) → value (normalize a) ≡ value a
unfolding normalize value
value-normalize [] = refl
value-normalize (x ∷ a) = omega (arith, value-push_limb x (normalize a), value-normalize a)

push_limb-All : (x : ℕ) (a : List ℕ) → IsLimb x → All IsLimb a → All IsLimb (push_limb x a)
unfolding push_limb
push_limb-All x [] h k = elim (Bool-cases (x == 0)) [ inl z ↦ rw z tt | inr z ↦ rw z (h, tt) ]
push_limb-All x (y ∷ a) h k = (h, k)

push_limb-IsTop : (x : ℕ) (a : List ℕ) → IsTop a → IsTop (push_limb x a)
unfolding push_limb
push_limb-IsTop x [] k = elim (Bool-cases (x == 0)) [
  | inl z ↦ rw z tt
  | inr z ↦ rw z (ground arith)
]
push_limb-IsTop x (y ∷ a) k = k

normalize-All : (a : List ℕ) → All IsLimb a → All IsLimb (normalize a)
unfolding normalize
normalize-All [] h = tt
normalize-All (x ∷ a) h = push_limb-All x (normalize a) (h.0) (normalize-All a (h.1))

normalize-IsTop : (a : List ℕ) → IsTop (normalize a)
unfolding normalize
normalize-IsTop [] = tt
normalize-IsTop (x ∷ a) = push_limb-IsTop x (normalize a) (normalize-IsTop a)

pub normalize-IsMagnitude : (a : List ℕ) → All IsLimb a → IsMagnitude (normalize a)
normalize-IsMagnitude a h = record { limbs = normalize-All a h; top = normalize-IsTop a }

pub nil-IsMagnitude : IsMagnitude []
nil-IsMagnitude = record { limbs = tt; top = tt }

pub value-lt : (a : List ℕ) → All IsLimb a → value a < limb_base ^ length a
unfolding value
value-lt [] h = omega arith
value-lt (x ∷ a) h = omega (arith, pow-suc limb_base (length a), value-lt a (h.1), h.0)

pub pow-le-value : (x : ℕ) (a : List ℕ) → IsTop (x ∷ a) → limb_base ^ length a ≤ value (x ∷ a)
unfolding value
pow-le-value x [] h = omega (arith, h)
pow-le-value x (y ∷ a) h = omega (arith, pow-suc limb_base (length a), pow-le-value y a h)

-- A magnitude with fewer limbs is smaller.
value_of_shorter : (a b : List ℕ) → All IsLimb a → IsTop b → length a < length b → value a < value b
value_of_shorter a [] h t l = absurd (omega arith)
value_of_shorter a (y ∷ b) h t l =
    let short : length a ≤ length b = omega arith in
    omega (
      arith,
      value-lt a h,
      pow-le-value y b t,
      pow-le-pow_right {n = limb_base} (omega arith) short,
    )

pub below-compare :
    (p q x y : ℕ)
    → IsLimb x
    → IsLimb y
    → below (compare p q) x y ≡ compare (x + limb_base * p) (y + limb_base * q)
unfolding below
below-compare p q x y h k = ground arith

cmp_loop-compare :
    (a b : List ℕ)
    → All IsLimb a
    → All IsLimb b
    → length a ≡ length b
    → cmp_loop a b ≡ compare (value a) (value b)
unfolding cmp_loop value
cmp_loop-compare [] [] h k l = refl
cmp_loop-compare [] (y ∷ b) h k l = absurd (omega (arith, l))
cmp_loop-compare (x ∷ a) [] h k l = absurd (omega (arith, l))
cmp_loop-compare (x ∷ a) (y ∷ b) h k l =
    rw (cmp_loop-compare a b (h.1) (k.1) (omega (arith, l)))
      (below-compare (value a) (value b) x y (h.0) (k.0))

-- cmpMag compares the numbers that two magnitudes stand for.
pub cmp_mag-compare :
    (a b : List ℕ) → IsMagnitude a → IsMagnitude b → cmp_mag a b ≡ compare (value a) (value b)
unfolding cmp_mag
cmp_mag-compare a b h k = elim (Bool-cases (length a == length b)) [
  | inl same ↦ rw same (cmp_loop-compare a b (h.limbs) (k.limbs) (ground arith))
  | inr differ ↦ elim (Bool-cases (ltb (length a) (length b))) [
    | inl less ↦
        let small = value_of_shorter a b (h.limbs) (k.top) (ground arith) in
        rw (differ, less) (ground arith)
    | inr more ↦
        let large = value_of_shorter b a (k.limbs) (h.top) (ground arith) in
        rw (differ, more) (ground arith)
  ]
]
