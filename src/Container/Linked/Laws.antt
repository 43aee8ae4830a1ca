-- ===== src/Container/Linked/Laws.antt =====
-- The methods keep the store a list, and what they do to the list of values.
use mathlib.Core.List.{append_assoc, append-nil}
use wasigoc.Common.{
  ℕ, ◌≡◌, refl, sym, ap, ◌∙◌, subst, arith, List, [], ◌∷◌, ◌++◌, true, false, Option, none, some,
}
use wasigoc.Common.{length, length-append, inl, inr}
use wasigoc.Container.Linked.{Store, owned, link_next, link_prev, drop_element, unlink, remove}
use wasigoc.Container.Linked.Chain.{
  first_or, last_or, Linked, Distinct, Linked-write, Linked-append, Linked-split, Linked-set_next,
  Linked-set_prev, first_or-append, last_or-append, NotIn-append, Distinct-middle, last_view,
  ne_comm,
}

module _ {A : Type 0} where
  -- The store holds the list of these addresses and values, in this order.
  pub record IsList (self : ℕ) (s : Store A) (xs : List (ℕ × A)) : Type 0 where
    pub starts : s.head ≡ first_or none xs
    pub ends : s.tail ≡ last_or none xs
    pub counted : s.n ≡ length xs
    pub chain : Linked self (s.cells) none xs none
    pub distinct : Distinct xs

  -- The first half of the removal of `e` between `p` and `q`: the link to the right.
  record IsHalf (self e : ℕ) (s s' : Store A) (p q : List (ℕ × A)) : Type 0 where
    starts : s'.head ≡ first_or none (p ++ q)
    same_tail : s'.tail ≡ s.tail
    same_count : s'.n ≡ s.n
    same_element : s'.cells e ≡ s.cells e
    left : Linked self (s'.cells) none p (first_or none q)
    right : Linked self (s'.cells) (some e) q none

  last_or-snoc :
      (d : Option ℕ) (ps : List (ℕ × A)) (x : ℕ) (u : A) → last_or d (ps ++ (x, u) ∷ []) ≡ some x
  last_or-snoc d ps x u = last_or-append d ps ((x, u) ∷ [])

  link_next-IsHalf_nil :
      (self e : ℕ) (v : A) (s : Store A) (q : List (ℕ × A))
      → IsList self s ((e, v) ∷ q)
      → IsHalf self e s (link_next none (first_or none q) s) [] q
  unfolding link_next
  link_next-IsHalf_nil self e v s q h =
      let (p, n, l, u, rest) = h.chain in
      record {
        starts = refl;
        same_tail = refl;
        same_count = refl;
        same_element = refl;
        left = tt;
        right = rest;
      }

  link_next-IsHalf_snoc :
      (self e x : ℕ) (v u : A) (s : Store A) (ps q : List (ℕ × A))
      → IsList self s ((ps ++ (x, u) ∷ []) ++ (e, v) ∷ q)
      → IsHalf self e s (link_next (some x) (first_or none q) s) (ps ++ (x, u) ∷ []) q
  unfolding link_next
  link_next-IsHalf_snoc self e x v u s ps q h =
      let p = ps ++ (x, u) ∷ [] in
      let (front, (pe, ne, le, ue, rest)) =
        Linked-split self (s.cells) none none p ((e, v) ∷ q) (h.chain) in
      let (x_ps, x_rest, d) =
        Distinct-middle x u ps ((e, v) ∷ q)
          (subst Distinct (append_assoc ps ((x, u) ∷ []) ((e, v) ∷ q)) (h.distinct)) in
      record {
        starts =
            h.starts
            ∙ first_or-append none p ((e, v) ∷ q)
            ∙ front_of ps x u (some e) (first_or none q)
            ∙ sym (first_or-append none p q);
        same_tail = refl;
        same_count = refl;
        same_element = rw (x_rest.0) refl;
        left = Linked-set_next self (s.cells) none (some e) (first_or none q) x u ps x_ps front;
        right = Linked-write self (s.cells) x _ (some e) none q (x_rest.1) rest;
      }
    where
      front_of :
          (ps : List (ℕ × A)) (x : ℕ) (u : A) (d d' : Option ℕ)
          → first_or d (ps ++ (x, u) ∷ []) ≡ first_or d' (ps ++ (x, u) ∷ [])
      front_of [] x u d d' = refl
      front_of ((z, w) ∷ ps) x u d d' = refl

  link_next-IsHalf :
      (self e : ℕ) (v : A) (s : Store A) (p q : List (ℕ × A))
      → IsList self s (p ++ (e, v) ∷ q)
      → IsHalf self e s (link_next (last_or none p) (first_or none q) s) p q
  link_next-IsHalf self e v s p q h = elim (last_view p) [
    | inl nil ↦
        subst (λ p'. IsHalf self e s (link_next (last_or none p') (first_or none q) s) p' q)
          (sym nil)
          (link_next-IsHalf_nil self e v s q (subst (λ p'. IsList self s (p' ++ (e, v) ∷ q)) nil h))
    | inr (ps, x, u, eq) ↦
        subst (λ p'. IsHalf self e s (link_next (last_or none p') (first_or none q) s) p' q)
          (sym eq)
          (rw (last_or-snoc none ps x u) (
            link_next-IsHalf_snoc self e x v u s ps q
              (subst (λ p'. IsList self s (p' ++ (e, v) ∷ q)) eq h)))
  ]

  -- The second half, and the parts that are left of the list.
  record IsUnlinked (self e : ℕ) (s s' : Store A) (p q : List (ℕ × A)) : Type 0 where
    starts : s'.head ≡ first_or none (p ++ q)
    ends : s'.tail ≡ last_or none (p ++ q)
    same_count : s'.n ≡ s.n
    same_value : (s'.cells e).value ≡ (s.cells e).value
    chain : Linked self (s'.cells) none (p ++ q) none

  link_prev-IsUnlinked :
      (self e : ℕ) (v : A) (s s' : Store A) (p q : List (ℕ × A))
      → s.tail ≡ last_or none (p ++ (e, v) ∷ q)
      → Distinct (p ++ (e, v) ∷ q)
      → IsHalf self e s s' p q
      → IsUnlinked self e s (link_prev (first_or none q) (last_or none p) s') p q
  unfolding link_prev
  link_prev-IsUnlinked self e v s s' p [] t d h = record {
    starts = h.starts;
    ends = ap (last_or none) (sym (append-nil p));
    same_count = h.same_count;
    same_value = ap (λ c. c.value) (h.same_element);
    chain = rw (append-nil p) (h.left);
  }
  link_prev-IsUnlinked self e v s s' p ((y, w) ∷ q) t d h =
      let (e_p, (e_y, e_q), d') = Distinct-middle e v p ((y, w) ∷ q) d in
      let (y_p, y_q, d'') = Distinct-middle y w p q d' in
      record {
        starts = h.starts;
        ends =
            h.same_tail
            ∙ t
            ∙ last_or-append none p ((e, v) ∷ (y, w) ∷ q)
            ∙ sym (last_or-append none p ((y, w) ∷ q));
        same_count = h.same_count;
        same_value = rw (ne_comm e y e_y) (ap (λ c. c.value) (h.same_element));
        chain =
            Linked-append self _ none none p ((y, w) ∷ q)
              (Linked-write self (s'.cells) y _ none (some y) p y_p (h.left))
              (Linked-set_prev self (s'.cells) (some e) none (last_or none p) y w q y_q (h.right));
      }

  unlink-IsUnlinked :
      (self e : ℕ) (v : A) (s : Store A) (p q : List (ℕ × A))
      → IsList self s (p ++ (e, v) ∷ q)
      → IsUnlinked self e s (unlink e s) p q
  unfolding unlink
  unlink-IsUnlinked self e v s p q h =
      let (front, (pe, ne, le, ue, rest)) =
        Linked-split self (s.cells) none none p ((e, v) ∷ q) (h.chain) in
      let half = link_next-IsHalf self e v s p q h in
      subst (λ s'. IsUnlinked self e s s' p q) (sym (steps pe ne half))
        (link_prev-IsUnlinked self e v s (link_next (last_or none p) (first_or none q) s) p q
          (h.ends) (h.distinct) half)
    where
      steps :
          (s.cells e).prev ≡ last_or none p
          → (s.cells e).next ≡ first_or none q
          → IsHalf self e s (link_next (last_or none p) (first_or none q) s) p q
          → link_prev
              ((link_next ((s.cells e).prev) ((s.cells e).next) s).cells e).next
              ((link_next ((s.cells e).prev) ((s.cells e).next) s).cells e).prev
              (link_next ((s.cells e).prev) ((s.cells e).next) s)
            ≡ link_prev
                (first_or none q)
                (last_or none p)
                (link_next (last_or none p) (first_or none q) s)
      steps pe ne half = rw (pe, ne, half.same_element, pe, ne) refl

  -- Remove of an element of the list returns its value and takes it out: what is left is a list again,
  -- of the other elements in their order.
  pub remove-IsList :
      (self e : ℕ) (v : A) (s : Store A) (p q : List (ℕ × A))
      → IsList self s (p ++ (e, v) ∷ q)
      → ((remove self e s).0 ≡ v) × IsList self (remove self e s).1 (p ++ q)
  unfolding remove drop_element
  remove-IsList self e v s p q h =
      let (front, (pe, ne, le, ue, rest)) =
        Linked-split self (s.cells) none none p ((e, v) ∷ q) (h.chain) in
      let u = unlink-IsUnlinked self e v s p q h in
      let (e_p, e_q, d) = Distinct-middle e v p q (h.distinct) in
      let own : owned self ((s.cells e).list) ≡ true = rw le (ground arith) in
      rw own (
        ue,
        record {
          starts = u.starts;
          ends = u.ends;
          counted =
              omega
                (arith, h.counted, u.same_count, length-append p ((e, v) ∷ q), length-append p q);
          chain = Linked-write self _ e _ none none (p ++ q) (NotIn-append e p q e_p e_q) (u.chain);
          distinct = d;
        },
      )

  -- Remove of an element that another list owns, or none, changes nothing.
  pub remove_foreign :
      (self e : ℕ) (s : Store A)
      → owned self ((s.cells e).list) ≡ false
      → remove self e s ≡ ((s.cells e).value, s)
  unfolding remove
  remove_foreign self e s h = rw h refl
