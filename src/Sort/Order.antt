-- ===== src/Sort/Order.antt =====
-- The comparison of an ordered Go type, and lists sorted by it.
-- The `<` of ints and of strings meets `IsOrder`; that of float64 does so only without NaN.
use wasigoc.Common.{ℕ, ◌≡◌, Bool, true, false, List, [], ◌∷◌, ◌++◌, All, All-append, ltb, arith}

pub record Ordered {ℓ} (A : Type ℓ) : Type ℓ where
  pub lt : A → A → Bool

-- A strict order whose negation is transitive.
pub record IsOrder {ℓ} {A : Type ℓ} (o : Ordered A) : Type ℓ where
  pub asym : (a b : A) → o.lt a b ≡ true → o.lt b a ≡ false
  pub le_trans : (a b c : A) → o.lt b a ≡ false → o.lt c b ≡ false → o.lt c a ≡ false

-- Ints that are not negative.
abbrev pub nat_ordered : Ordered ℕ
nat_ordered = record { lt = ltb }

pub nat_ordered-IsOrder : IsOrder nat_ordered
nat_ordered-IsOrder = record { asym = λ a b h. ground arith; le_trans = λ a b c h k. ground arith }

module _ {ℓ} {A : Type ℓ} (o : Ordered A) where
  -- no element behind `x` is less than it
  abbrev pub IsSorted : List A → Type 0
  IsSorted [] = Unit
  IsSorted (x ∷ xs) = All (λ y. o.lt y x ≡ false) xs × IsSorted xs

  -- every element is at most `v`, or greater than it
  abbrev pub AtMost : A → List A → Type 0
  AtMost v = All (λ a. o.lt v a ≡ false)

  abbrev pub Above : A → List A → Type 0
  Above v = All (λ a. o.lt v a ≡ true)

  All-left : (P : A → Type 0) (p q : List A) → All P (p ++ q) → All P p
  All-left P [] q h = tt
  All-left P (x ∷ p) q h = (h.0, All-left P p q h.1)

  All-right : (P : A → Type 0) (p q : List A) → All P (p ++ q) → All P q
  All-right P [] q h = h
  All-right P (x ∷ p) q h = All-right P p q h.1

  pub IsSorted-append_left : (p q : List A) → IsSorted (p ++ q) → IsSorted p
  IsSorted-append_left [] q h = tt
  IsSorted-append_left (x ∷ p) q h =
      (All-left (λ y. o.lt y x ≡ false) p q h.0, IsSorted-append_left p q h.1)

  module _ (laws : IsOrder o) where
    -- what is at least the last element of a sorted list is at least all of them
    pub AtMost-last :
        (p : List A) (a v : A) → IsSorted (p ++ a ∷ []) → o.lt v a ≡ false → AtMost v (p ++ a ∷ [])
    AtMost-last [] a v h e = (e, tt)
    AtMost-last (x ∷ p) a v h e =
        let last = All-right (λ y. o.lt y x ≡ false) p (a ∷ []) h.0 in
        (laws.le_trans x a v last.0 e, AtMost-last p a v h.1 e)

    Above-at_least : (v : A) (q : List A) → Above v q → All (λ y. o.lt y v ≡ false) q
    Above-at_least v [] h = tt
    Above-at_least v (x ∷ q) h = (laws.asym v x h.0, Above-at_least v q h.1)

    -- a value stands between what is at most it and what is above it
    pub IsSorted-insert :
        (v : A) (p q : List A) → IsSorted (p ++ q) → AtMost v p → Above v q → IsSorted (p ++ v ∷ q)
    IsSorted-insert v [] q h low high = (Above-at_least v q high, h)
    IsSorted-insert v (x ∷ p) q h low high = (
      All-append (λ y. o.lt y x ≡ false) p (v ∷ q) (All-left (λ y. o.lt y x ≡ false) p q h.0)
          (low.0, All-right (λ y. o.lt y x ≡ false) p q h.0),
      IsSorted-insert v p q h.1 low.1 high,
    )
