-- ===== src/Text/Pieces/Split.antt =====
-- `Split`, `Join`, `Count` and `Cut` over a search that finds the first occurrence.
use mathlib.Core.List.{append_assoc, append-nil}
use wasigoc.Common.{
  ℕ, zero, suc, ◌+◌, ◌<◌, ◌≡◌, refl, sym, ap, subst, ◌∙◌, arith, List, [], ◌∷◌, ◌++◌,
}
use wasigoc.Common.{Bool, true, false, ◌==◌, Option, none, some, Option-cases, inl, inr}
use wasigoc.Common.{length, take, drop, length-drop, length-take, All}
use wasigoc.Text.Find.{OccursAt, IsFirst, OccursAt-append, OccursAt-take}
use wasigoc.Text.Pieces.{join_loop, join, explode, count_loop, count, split_loop, split, cut}

abbrev pub joined : List ℕ → List (List ℕ) → List ℕ
joined sep [] = []
joined sep (e ∷ elems) = sep ++ (e ++ joined sep elems)

join_loop-joined :
    (out : List ℕ) (elems : List (List ℕ)) (sep : List ℕ)
    → join_loop out elems sep ≡ out ++ joined sep elems
unfolding join_loop
join_loop-joined out [] sep = sym (append-nil out)
join_loop-joined out (e ∷ elems) sep =
    join_loop-joined (out ++ (sep ++ e)) elems sep
    ∙ append_assoc out (sep ++ e) (joined sep elems)
    ∙ ap (λ t. out ++ t) (append_assoc sep e (joined sep elems))

pub join-joined :
    (e : List ℕ) (elems : List (List ℕ)) (sep : List ℕ)
    → join (e ∷ elems) sep ≡ e ++ joined sep elems
unfolding join
join-joined e elems sep = join_loop-joined e elems sep

join-explode : (s : List ℕ) → join (explode s) [] ≡ s
unfolding explode
join-explode [] = unfold join in refl
join-explode (b ∷ s) = join-joined (b ∷ []) (explode s) [] ∙ ap (◌∷◌ b) (bytes s)
  where
    bytes : (s : List ℕ) → joined [] (explode s) ≡ s
    bytes [] = refl
    bytes (b ∷ s) = ap (◌∷◌ b) (bytes s)

-- What Cut returns: the parts around the first separator, or the whole text if there is none.
pub IsCut : List ℕ → List ℕ → List ℕ × List ℕ × Bool → Type 0
IsCut s sep (before, after, true) =
    (s ≡ before ++ (sep ++ after)) × IsFirst s sep (some (length before))
IsCut s sep (before, after, false) = (before ≡ s) × ((j : ℕ) → ¬ OccursAt s sep j)

module _ (find : List ℕ → List ℕ → Option ℕ)
    (first : (s sub : List ℕ) → IsFirst s sub (find s sub)) where
  pub found : (s sub : List ℕ) (i : ℕ) → find s sub ≡ some i → IsFirst s sub (some i)
  found s sub i e = rw e at (first s sub)

  missing : (s sub : List ℕ) → find s sub ≡ none → (j : ℕ) → ¬ OccursAt s sub j
  missing s sub e = rw e at (first s sub)

  -- The accumulator comes first.
  pub split_loop_out :
      (fuel : ℕ) (out : List (List ℕ)) (rest sep : List ℕ)
      → split_loop find fuel out rest sep ≡ out ++ split_loop find fuel [] rest sep
  unfolding split_loop
  split_loop_out zero out rest sep = sym (append-nil out)
  split_loop_out (suc fuel) out rest sep = elim (Option-cases (find rest sep)) [
    | inl e ↦ rw (e, split_loop)
    | inr (j, e) ↦
        let more = drop (j + length sep) rest in
        rw (e, split_loop)
          (split_loop_out fuel (out ++ take j rest ∷ []) more sep
            ∙ append_assoc out (take j rest ∷ []) (split_loop find fuel [] more sep)
            ∙ ap (λ t. out ++ t) (sym (split_loop_out fuel (take j rest ∷ []) more sep)))
  ]

  -- The counter comes first.
  count_loop_add :
      (fuel n : ℕ) (rest sub : List ℕ)
      → count_loop find fuel (suc n) rest sub ≡ suc (count_loop find fuel n rest sub)
  unfolding count_loop
  count_loop_add zero n rest sub = refl
  count_loop_add (suc fuel) n rest sub = elim (Option-cases (find rest sub)) [
    | inl e ↦ rw (e, count_loop)
    | inr (j, e) ↦
        let q : suc n + 1 ≡ suc (n + 1) = omega arith in
        rw (e, count_loop, q) (count_loop_add fuel (n + 1) (drop (j + length sub) rest) sub)
  ]

  unfoldable pub Splitting : ℕ → List ℕ → List ℕ → Type 0
  Splitting fuel rest sep =
      (e : List ℕ) × (elems : List (List ℕ)) × (split_loop find fuel [] rest sep ≡ e ∷ elems)
      × (rest ≡ e ++ joined sep elems)
      × (length elems ≡ count_loop find fuel 0 rest sep)
      × All (λ p. (j : ℕ) → ¬ OccursAt p sep j) (e ∷ elems)

  Splitting-last :
      (fuel : ℕ) (rest sep : List ℕ) → find rest sep ≡ none → Splitting (suc fuel) rest sep
  unfolding split_loop count_loop Splitting
  Splitting-last fuel rest sep e = (
    rest,
    [],
    rw (e, split_loop),
    sym (append-nil rest),
    rw (e, count_loop),
    (missing rest sep e, tt),
  )

  Splitting-next :
      (fuel : ℕ) (rest sep : List ℕ) (j : ℕ)
      → 0 < length sep
      → find rest sep ≡ some j
      → Splitting fuel (drop (j + length sep) rest) sep
      → Splitting (suc fuel) rest sep
  unfolding split_loop count_loop Splitting
  Splitting-next fuel rest sep j h e (p, ps, eq, glue, n, none_in) =
      let more = drop (j + length sep) rest in
      let (at_j, fits, before) = found rest sep j e in
      (
        take j rest,
        p ∷ ps,
        rw (e, split_loop)
            (split_loop_out fuel (take j rest ∷ []) more sep ∙ ap (◌∷◌ (take j rest)) eq),
        OccursAt-append rest sep j at_j ∙ ap (λ t. take j rest ++ (sep ++ t)) glue,
        rw (e, count_loop) (ap suc n ∙ sym (count_loop_add fuel 0 more sep)),
        (λ i o. let (o', lt) = OccursAt-take rest sep i j h o in before i lt o', none_in),
      )

  pub shorter :
      (fuel : ℕ) (rest sep : List ℕ) (j : ℕ)
      → 0 < length sep
      → length rest < suc fuel
      → IsFirst rest sep (some j)
      → length (drop (j + length sep) rest) < fuel
  shorter fuel rest sep j h enough (at_j, fits, before) =
      omega (arith, length-drop (j + length sep) rest)

  -- With a round for each byte and one more, the loop's pieces are those of the text.
  pub split_loop-Splitting :
      (fuel : ℕ) (rest sep : List ℕ) → 0 < length sep → length rest < fuel → Splitting fuel rest sep
  split_loop-Splitting zero rest sep h enough = absurd (omega arith)
  split_loop-Splitting (suc fuel) rest sep h enough = elim (Option-cases (find rest sep)) [
    | inl e ↦ Splitting-last fuel rest sep e
    | inr (j, e) ↦ Splitting-next fuel rest sep j h e (
        split_loop-Splitting fuel (drop (j + length sep) rest) sep h
          (shorter fuel rest sep j h enough (found rest sep j e)))
  ]

  split-some : (s sep : List ℕ) → 0 < length sep → Splitting (length s + 1) s sep
  split-some s sep h = split_loop-Splitting (length s + 1) s sep h (omega arith)

  -- Joining the pieces with the separator gives the text back.
  pub join-split : (s sep : List ℕ) → join (split find s sep) sep ≡ s
  unfolding split Splitting
  join-split s [] = join-explode s
  join-split s (x ∷ sep) =
      let ne : (length (x ∷ sep) == 0) ≡ false = ground arith in
      let (p, ps, eq, glue, n, none_in) = split-some s (x ∷ sep) (omega arith) in
      rw ne (ap (λ t. join t (x ∷ sep)) eq ∙ join-joined p ps (x ∷ sep) ∙ sym glue)

  -- There is one piece more than Count counts, and the separator stands in none of them.
  pub length-split :
      (s sep : List ℕ)
      → 0 < length sep
      → (length (split find s sep) ≡ count find s sep + 1)
        × All (λ p. (j : ℕ) → ¬ OccursAt p sep j) (split find s sep)
  unfolding split count Splitting
  length-split s sep h =
      let ne : (length sep == 0) ≡ false = ground arith in
      let (p, ps, eq, glue, n, none_in) = split-some s sep h in
      rw (ne, eq) (omega (arith, n), none_in)

  pub cut-IsCut : (s sep : List ℕ) → IsCut s sep (cut find s sep)
  unfolding cut IsCut
  cut-IsCut s sep = elim (Option-cases (find s sep)) [
    | inl e ↦
        let eq : cut find s sep ≡ (s, [], false) = rw (e, cut) in
        subst (λ c. IsCut s sep c) (sym eq) (refl, missing s sep e)
    | inr (j, e) ↦
        let eq : cut find s sep ≡ (take j s, drop (j + length sep) s, true) = rw (e, cut) in
        let (at_j, fits, before) = found s sep j e in
        let len : j ≡ length (take j s) = omega (arith, length-take j s) in
        subst (λ c. IsCut s sep c) (sym eq)
          (
            OccursAt-append s sep j at_j,
            subst (λ k. IsFirst s sep (some k)) len (at_j, fits, before),
          )
  ]
