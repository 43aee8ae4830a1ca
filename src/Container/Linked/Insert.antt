-- ===== src/Container/Linked/Insert.antt =====
-- InsertBefore puts a new element in front of one of the list.
use mathlib.Core.List.{append_assoc}
use wasigoc.Common.{
  ℕ, ◌≡◌, refl, sym, ◌∙◌, subst, arith, List, [], ◌∷◌, ◌++◌, Option, none, some, true, ◌==◌,
}
use wasigoc.Common.{length-append, inl, inr}
use wasigoc.Container.Linked.{
  Element, Store, allocate, link_next, link_prev, insert_before, set_next, write,
}
use wasigoc.Container.Linked.Chain.{
  first_or, last_or, NotIn, Linked-write, Linked-append, Linked-split, Linked-set_next,
  Linked-set_prev, last_or-append, Distinct, NotIn-split, Distinct-middle, Distinct-insert,
  last_view, ne_comm,
}
use wasigoc.Container.Linked.Laws.{IsList}

module _ {A : Type 0} where
  insert_before-IsList_nil :
      (self fresh mark : ℕ) (v w : A) (s : Store A) (q : List (ℕ × A))
      → NotIn fresh ((mark, w) ∷ q)
      → IsList self s ((mark, w) ∷ q)
      → IsList self
          (link_prev
            (some mark)
            (some fresh)
            (link_next none (some fresh) (allocate self fresh v none (some mark) s)))
          ((fresh, v) ∷ (mark, w) ∷ q)
  unfolding link_next link_prev
  insert_before-IsList_nil self fresh mark v w s q new h =
      let e : Element A = record { next = some mark; prev = none; list = some self; value = v } in
      let written = Linked-write self (s.cells) fresh e none none ((mark, w) ∷ q) new (h.chain) in
      let right =
        Linked-set_prev self (write (s.cells) fresh e) none none (some fresh) mark w q
          (h.distinct.0) written in
      record {
        starts = refl;
        ends = h.ends;
        counted = omega (arith, h.counted);
        chain = rw (ne_comm fresh mark (new.0)) (ground (arith, right));
        distinct = (new, h.distinct);
      }

  same_front :
      (ys : List (ℕ × A)) (t : ℕ) (u : A) (xs zs : List (ℕ × A))
      → first_or none ((ys ++ (t, u) ∷ []) ++ xs) ≡ first_or none ((ys ++ (t, u) ∷ []) ++ zs)
  same_front [] t u xs zs = refl
  same_front (y ∷ ys) t u xs zs = refl

  insert_before-IsList_snoc :
      (self fresh mark t : ℕ) (v w u : A) (s : Store A) (ys q : List (ℕ × A))
      → NotIn fresh ((ys ++ (t, u) ∷ []) ++ (mark, w) ∷ q)
      → IsList self s ((ys ++ (t, u) ∷ []) ++ (mark, w) ∷ q)
      → IsList self
          (link_prev
            (some mark)
            (some fresh)
            (link_next (some t) (some fresh) (allocate self fresh v (some t) (some mark) s)))
          ((ys ++ (t, u) ∷ []) ++ (fresh, v) ∷ (mark, w) ∷ q)
  unfolding link_next link_prev
  insert_before-IsList_snoc self fresh mark t v w u s ys q new h =
      let p = ys ++ (t, u) ∷ [] in
      let rest = (mark, w) ∷ q in
      let (new_p, new_rest) = NotIn-split fresh p rest new in
      let (_, (new_t, _)) = NotIn-split fresh ys ((t, u) ∷ []) new_p in
      let (mark_p, mark_q, _) = Distinct-middle mark w p q (h.distinct) in
      let (t_ys, t_rest, _) =
        Distinct-middle t u ys rest
          (subst Distinct (append_assoc ys ((t, u) ∷ []) rest) (h.distinct)) in
      let (front, back) = Linked-split self (s.cells) none none p rest (h.chain) in
      let e : Element A = record { next = some mark; prev = some t; list = some self; value = v } in
      let cells1 = write (s.cells) fresh e in
      let cells2 = set_next cells1 t (some fresh) in
      let left =
        Linked-write self cells2 mark (record (cells2 mark) { prev = some fresh }) none (some fresh)
          p mark_p
          (Linked-set_next self cells1 none (some mark) (some fresh) t u ys t_ys
            (Linked-write self (s.cells) fresh e none (some mark) p new_p front)) in
      let right = Linked-set_prev self cells2 (last_or none p) none (some fresh) mark w q mark_q (
        Linked-write self cells1 t (record (cells1 t) { next = some fresh }) (last_or none p) none
          rest t_rest
          (Linked-write self (s.cells) fresh e (last_or none p) none rest new_rest back)) in
      record {
        starts = h.starts ∙ same_front ys t u rest ((fresh, v) ∷ rest);
        ends =
            h.ends ∙ last_or-append none p rest ∙ sym (last_or-append none p ((fresh, v) ∷ rest));
        counted =
            omega (arith, h.counted, length-append p rest, length-append p ((fresh, v) ∷ rest));
        chain = Linked-append self _ none none p ((fresh, v) ∷ rest) left (
            rw
              (
                last_or-append none ys ((t, u) ∷ []),
                ne_comm fresh t new_t,
                ne_comm fresh mark (new_rest.0),
              )
              (ground (arith, right)));
        distinct = Distinct-insert fresh v p rest new (h.distinct);
      }

  -- The store with the links set, where `prev` is in front of the mark.
  abbrev spliced : ℕ → ℕ → ℕ → A → Option ℕ → Store A → Store A
  spliced self fresh mark v prev s =
      link_prev (some mark) (some fresh)
        (link_next prev (some fresh) (allocate self fresh v prev (some mark) s))

  spliced-IsList :
      (self fresh mark : ℕ) (v w : A) (s : Store A) (p q : List (ℕ × A))
      → NotIn fresh (p ++ (mark, w) ∷ q)
      → IsList self s (p ++ (mark, w) ∷ q)
      → IsList self (spliced self fresh mark v (last_or none p) s) (p ++ (fresh, v) ∷ (mark, w) ∷ q)
  spliced-IsList self fresh mark v w s p q new h =
      let Placed : List (ℕ × A) → Type 0 = λ p'.
        IsList self (spliced self fresh mark v (last_or none p') s)
          (p' ++ (fresh, v) ∷ (mark, w) ∷ q) in
      elim (last_view p) [
        | inl nil ↦ subst Placed (sym nil) (
            insert_before-IsList_nil self fresh mark v w s q
              (subst (λ p'. NotIn fresh (p' ++ (mark, w) ∷ q)) nil new)
              (subst (λ p'. IsList self s (p' ++ (mark, w) ∷ q)) nil h))
        | inr (ys, t, u, eq) ↦ subst Placed (sym eq) (
            subst
              (λ d.
                IsList self (spliced self fresh mark v d s)
                  ((ys ++ (t, u) ∷ []) ++ (fresh, v) ∷ (mark, w) ∷ q))
              (sym (last_or-append none ys ((t, u) ∷ [])))
              (insert_before-IsList_snoc self fresh mark t v w u s ys q
                (subst (λ p'. NotIn fresh (p' ++ (mark, w) ∷ q)) eq new)
                (subst (λ p'. IsList self s (p' ++ (mark, w) ∷ q)) eq h)))
      ]

  -- InsertBefore of a value at a new address and a mark of the list puts it in front of the mark, and
  -- keeps the store a list.
  pub insert_before-IsList :
      (self fresh mark : ℕ) (v w : A) (s : Store A) (p q : List (ℕ × A))
      → NotIn fresh (p ++ (mark, w) ∷ q)
      → IsList self s (p ++ (mark, w) ∷ q)
      → (s' : Store A) × (insert_before self fresh v (some mark) s ≡ some s')
        × IsList self s' (p ++ (fresh, v) ∷ (mark, w) ∷ q)
  unfolding insert_before
  insert_before-IsList self fresh mark v w s p q new h =
      let (_, (prev_at, _, list_at, _, _)) =
        Linked-split self (s.cells) none none p ((mark, w) ∷ q) (h.chain) in
      let same : (self == self) ≡ true = ground arith in
      (
        spliced self fresh mark v (last_or none p) s,
        rw (list_at, same, prev_at) refl,
        spliced-IsList self fresh mark v w s p q new h,
      )
