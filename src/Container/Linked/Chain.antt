-- ===== src/Container/Linked/Chain.antt =====
-- Chains of elements: which elements lie between two ends, in order.
use wasigoc.Common.{ℕ, ◌≡◌, refl, ap, arith, List, [], ◌∷◌, ◌++◌, false, Option, some, ◌==◌}
use wasigoc.Common.{◌⊎◌, inl, inr}
use wasigoc.Container.Linked.{Element, write, set_next, set_prev}

pub ne_comm : (x y : ℕ) → (x == y) ≡ false → (y == x) ≡ false
ne_comm x y h = ground (arith, h)

module _ {A : Type 0} where
  -- The ends of a chain, or what stands there if it is empty.
  abbrev pub first_or : Option ℕ → List (ℕ × A) → Option ℕ
  first_or d [] = d
  first_or d ((x, v) ∷ xs) = some x

  abbrev pub last_or : Option ℕ → List (ℕ × A) → Option ℕ
  last_or d [] = d
  last_or d ((x, v) ∷ xs) = last_or (some x) xs

  -- The elements of `xs` at their addresses with their values, linked both ways and owned by `self`.
  abbrev pub Linked : ℕ → (ℕ → Element A) → Option ℕ → List (ℕ × A) → Option ℕ → Type 0
  Linked self cells before [] after = Unit {0}
  Linked self cells before ((x, v) ∷ xs) after =
      ((cells x).prev ≡ before)
      × ((cells x).next ≡ first_or after xs)
      × ((cells x).list ≡ some self)
      × ((cells x).value ≡ v)
      × Linked self cells (some x) xs after

  abbrev pub NotIn : ℕ → List (ℕ × A) → Type 0
  NotIn y [] = Unit {0}
  NotIn y ((x, v) ∷ xs) = ((y == x) ≡ false) × NotIn y xs

  abbrev pub Distinct : List (ℕ × A) → Type 0
  Distinct [] = Unit {0}
  Distinct ((x, v) ∷ xs) = NotIn x xs × Distinct xs

  -- A write elsewhere leaves a chain alone.
  pub Linked-write :
      (self : ℕ) (cells : ℕ → Element A) (y : ℕ) (e : Element A) (before after : Option ℕ)
      (xs : List (ℕ × A))
      → NotIn y xs
      → Linked self cells before xs after
      → Linked self (write cells y e) before xs after
  Linked-write self cells y e before after [] h k = tt
  Linked-write self cells y e before after ((x, v) ∷ xs) (h, hs) (p, n, l, u, k) =
      rw h (p, n, l, u, Linked-write self cells y e (some x) after xs hs k)

  pub Linked-append :
      (self : ℕ) (cells : ℕ → Element A) (before after : Option ℕ) (xs ys : List (ℕ × A))
      → Linked self cells before xs (first_or after ys)
      → Linked self cells (last_or before xs) ys after
      → Linked self cells before (xs ++ ys) after
  Linked-append self cells before after [] ys h k = k
  Linked-append self cells before after ((x, v) ∷ []) ys (p, n, l, u, h) k = (p, n, l, u, k)
  Linked-append self cells before after ((x, v) ∷ z ∷ xs) ys (p, n, l, u, h) k =
      (p, n, l, u, Linked-append self cells (some x) after (z ∷ xs) ys h k)

  pub Linked-split :
      (self : ℕ) (cells : ℕ → Element A) (before after : Option ℕ) (xs ys : List (ℕ × A))
      → Linked self cells before (xs ++ ys) after
      → Linked self cells before xs (first_or after ys)
        × Linked self cells (last_or before xs) ys after
  Linked-split self cells before after [] ys h = (tt, h)
  Linked-split self cells before after ((x, v) ∷ []) ys (p, n, l, u, h) = ((p, n, l, u, tt), h)
  Linked-split self cells before after ((x, v) ∷ z ∷ xs) ys (p, n, l, u, h) =
      let (a, b) = Linked-split self cells (some x) after (z ∷ xs) ys h in ((p, n, l, u, a), b)

  -- The last link of a chain, or its first one, set anew.
  pub Linked-set_next :
      (self : ℕ) (cells : ℕ → Element A) (before after q : Option ℕ) (x : ℕ) (v : A)
      (xs : List (ℕ × A))
      → NotIn x xs
      → Linked self cells before (xs ++ (x, v) ∷ []) after
      → Linked self (set_next cells x q) before (xs ++ (x, v) ∷ []) q
  Linked-set_next self cells before after q x v xs h k =
      let (front, (p, n, l, u, end')) = Linked-split self cells before after xs ((x, v) ∷ []) k in
      Linked-append self (set_next cells x q) before q xs ((x, v) ∷ [])
        (Linked-write self cells x _ before (some x) xs h front) (ground (arith, p, l, u))

  pub Linked-set_prev :
      (self : ℕ) (cells : ℕ → Element A) (before after q : Option ℕ) (x : ℕ) (v : A)
      (xs : List (ℕ × A))
      → NotIn x xs
      → Linked self cells before ((x, v) ∷ xs) after
      → Linked self (set_prev cells x q) q ((x, v) ∷ xs) after
  Linked-set_prev self cells before after q x v xs h (p, n, l, u, k) = ground (
    arith,
    n,
    l,
    u,
    Linked-write self cells x (record (cells x) { prev = q }) (some x) after xs h k,
  )

  pub first_or-append :
      (d : Option ℕ) (xs ys : List (ℕ × A)) → first_or d (xs ++ ys) ≡ first_or (first_or d ys) xs
  first_or-append d [] ys = refl
  first_or-append d ((x, v) ∷ xs) ys = refl

  pub last_or-append :
      (d : Option ℕ) (xs ys : List (ℕ × A)) → last_or d (xs ++ ys) ≡ last_or (last_or d xs) ys
  last_or-append d [] ys = refl
  last_or-append d ((x, v) ∷ xs) ys = last_or-append (some x) xs ys

  pub NotIn-append : (y : ℕ) (xs ys : List (ℕ × A)) → NotIn y xs → NotIn y ys → NotIn y (xs ++ ys)
  NotIn-append y [] ys h k = k
  NotIn-append y ((x, v) ∷ xs) ys (h, hs) k = (h, NotIn-append y xs ys hs k)

  pub NotIn-split : (y : ℕ) (xs ys : List (ℕ × A)) → NotIn y (xs ++ ys) → NotIn y xs × NotIn y ys
  NotIn-split y [] ys h = (tt, h)
  NotIn-split y ((x, v) ∷ xs) ys (h, hs) = let (a, b) = NotIn-split y xs ys hs in ((h, a), b)

  -- An element between two parts stands in neither.
  pub Distinct-middle :
      (x : ℕ) (v : A) (xs ys : List (ℕ × A))
      → Distinct (xs ++ (x, v) ∷ ys)
      → NotIn x xs × NotIn x ys × Distinct (xs ++ ys)
  Distinct-middle x v [] ys (h, k) = (tt, h, k)
  Distinct-middle x v ((z, w) ∷ xs) ys (h, k) =
      let (a, b) = NotIn-split z xs ((x, v) ∷ ys) h in
      let (c, d, e) = Distinct-middle x v xs ys k in
      ((ne_comm z x (b.0), c), d, (NotIn-append z xs ys a (b.1), e))

  pub Distinct-insert :
      (x : ℕ) (v : A) (xs ys : List (ℕ × A))
      → NotIn x (xs ++ ys)
      → Distinct (xs ++ ys)
      → Distinct (xs ++ (x, v) ∷ ys)
  Distinct-insert x v [] ys h k = (h, k)
  Distinct-insert x v ((z, w) ∷ xs) ys (h, hs) (k, ks) =
      let (a, b) = NotIn-split z xs ys k in
      (NotIn-append z xs ((x, v) ∷ ys) a (ne_comm x z h, b), Distinct-insert x v xs ys hs ks)

  -- A list is empty or has a last element.
  pub last_view :
      (xs : List (ℕ × A))
      → (xs ≡ []) ⊎ ((ys : List (ℕ × A)) × (x : ℕ) × (v : A) × (xs ≡ ys ++ (x, v) ∷ []))
  last_view [] = inl refl
  last_view ((x, v) ∷ xs) = elim (last_view xs) [
    | inl e ↦ inr ([], x, v, ap (◌∷◌ (x, v)) e)
    | inr (ys, z, w, e) ↦ inr ((x, v) ∷ ys, z, w, ap (◌∷◌ (x, v)) e)
  ]
