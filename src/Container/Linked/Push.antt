-- ===== src/Container/Linked/Push.antt =====
-- PushBack and PushFront put a new element at an end of the list.
use mathlib.Core.List.{append-nil}
use wasigoc.Common.{ℕ, ◌≡◌, refl, sym, ◌∙◌, subst, arith, List, [], ◌∷◌, ◌++◌, Option, none, some}
use wasigoc.Common.{length-append, inl, inr}
use wasigoc.Container.Linked.{Store, push_back, push_front}
use wasigoc.Container.Linked.Chain.{
  first_or, NotIn, Linked-write, Linked-append, Linked-set_next, Linked-set_prev, last_or-append,
  NotIn-split, Distinct-middle, Distinct-insert, last_view, ne_comm,
}
use wasigoc.Container.Linked.Laws.{IsList}

module _ {A : Type 0} where
  push_back-IsList_nil :
      (self fresh : ℕ) (v : A) (s : Store A)
      → IsList self s []
      → IsList self (push_back self fresh v s) ((fresh, v) ∷ [])
  unfolding push_back
  push_back-IsList_nil self fresh v s h =
      rw (h.ends, push_back)
        (record {
          starts = refl;
          ends = refl;
          counted = omega (arith, h.counted);
          chain = ground arith;
          distinct = (tt, tt);
        })

  push_back-IsList_snoc :
      (self fresh t : ℕ) (v w : A) (s : Store A) (ys : List (ℕ × A))
      → NotIn fresh (ys ++ (t, w) ∷ [])
      → IsList self s (ys ++ (t, w) ∷ [])
      → IsList self (push_back self fresh v s) ((ys ++ (t, w) ∷ []) ++ (fresh, v) ∷ [])
  unfolding push_back
  push_back-IsList_snoc self fresh t v w s ys new h =
      let xs = ys ++ (t, w) ∷ [] in
      let tail_at : s.tail ≡ some t = h.ends ∙ last_or-append none ys ((t, w) ∷ []) in
      let (new_ys, (new_t, _)) = NotIn-split fresh ys ((t, w) ∷ []) new in
      let (t_ys, _, d) = Distinct-middle t w ys [] (h.distinct) in
      let written = Linked-write self (s.cells) fresh _ none none xs new (h.chain) in
      rw (tail_at, push_back)
        (record {
          starts = h.starts ∙ same_front ys t w (fresh, v) none;
          ends = sym (last_or-append none xs ((fresh, v) ∷ []));
          counted = omega (arith, h.counted, length-append xs ((fresh, v) ∷ []));
          chain =
              Linked-append self _ none none xs ((fresh, v) ∷ [])
                (Linked-set_next self _ none none (some fresh) t w ys t_ys written)
                (rw (last_or-append none ys ((t, w) ∷ []), ne_comm fresh t new_t) (ground arith));
          distinct =
              Distinct-insert fresh v xs [] (rw (append-nil xs) new)
                (rw (append-nil xs) (h.distinct));
        })
    where
      same_front :
          (ys : List (ℕ × A)) (t : ℕ) (w : A) (e : ℕ × A) (d : Option ℕ)
          → first_or d (ys ++ (t, w) ∷ []) ≡ first_or d ((ys ++ (t, w) ∷ []) ++ e ∷ [])
      same_front [] t w e d = refl
      same_front ((x, u) ∷ ys) t w e d = refl

  -- PushBack of a value at a new address keeps the store a list, which has the value at its end.
  pub push_back-IsList :
      (self fresh : ℕ) (v : A) (s : Store A) (xs : List (ℕ × A))
      → NotIn fresh xs
      → IsList self s xs
      → IsList self (push_back self fresh v s) (xs ++ (fresh, v) ∷ [])
  push_back-IsList self fresh v s xs new h = elim (last_view xs) [
    | inl nil ↦
        subst (λ xs'. IsList self (push_back self fresh v s) (xs' ++ (fresh, v) ∷ [])) (sym nil)
          (push_back-IsList_nil self fresh v s (subst (IsList self s) nil h))
    | inr (ys, t, w, eq) ↦
        subst (λ xs'. IsList self (push_back self fresh v s) (xs' ++ (fresh, v) ∷ [])) (sym eq)
          (push_back-IsList_snoc self fresh t v w s ys (subst (NotIn fresh) eq new)
            (subst (IsList self s) eq h))
  ]

  -- PushFront of a value at a new address keeps the store a list, which has the value at its front.
  pub push_front-IsList :
      (self fresh : ℕ) (v : A) (s : Store A) (xs : List (ℕ × A))
      → NotIn fresh xs
      → IsList self s xs
      → IsList self (push_front self fresh v s) ((fresh, v) ∷ xs)
  unfolding push_front
  push_front-IsList self fresh v s [] new h =
      rw (h.starts, push_front)
        (record {
          starts = refl;
          ends = refl;
          counted = omega (arith, h.counted);
          chain = ground arith;
          distinct = (tt, tt);
        })
  push_front-IsList self fresh v s ((t, w) ∷ xs) (new, news) h =
      let (t_xs, d) = h.distinct in
      let written =
        Linked-write self (s.cells) fresh _ none none ((t, w) ∷ xs) (new, news) (h.chain) in
      rw (h.starts, push_front)
        (record {
          starts = refl;
          ends = h.ends;
          counted = omega (arith, h.counted);
          chain =
              Linked-append self _ none none ((fresh, v) ∷ []) ((t, w) ∷ xs)
                (rw (ne_comm fresh t new) (ground arith))
                (Linked-set_prev self _ none none (some fresh) t w xs t_xs written);
          distinct = ((new, news), (t_xs, d));
        })
