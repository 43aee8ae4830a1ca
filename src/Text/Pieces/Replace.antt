-- ===== src/Text/Pieces/Replace.antt =====
-- `ReplaceAll` over a search that finds the first occurrence, against `Split` and `Join`.
use mathlib.Core.List.{append_assoc, append-nil}
use wasigoc.Common.{ℕ, zero, suc, ◌+◌, ◌<◌, ◌≡◌, sym, ap, ◌∙◌, arith, List, [], ◌∷◌, ◌++◌}
use wasigoc.Common.{false, ◌==◌, Option, none, Option-cases, inl, inr}
use wasigoc.Common.{length, take, drop}
use wasigoc.Text.Find.{IsFirst}
use wasigoc.Text.Pieces.{join, split_loop, split, replace_loop, replace, replace_all}
use wasigoc.Text.Pieces.Split.{
  joined, join-joined, split_loop_out, split_loop-Splitting, Splitting, found, shorter,
}

module _ (find : List ℕ → List ℕ → Option ℕ)
    (first : (s sub : List ℕ) → IsFirst s sub (find s sub)) where
  replace_loop-joined :
      (fuel : ℕ) (out : List ℕ) (done : ℕ) (rest old new : List ℕ)
      → 0 < length old
      → length rest < fuel
      → replace_loop find fuel out done rest old new none
        ≡ out ++ join (split_loop find fuel [] rest old) new
  unfolding replace_loop split_loop Splitting
  replace_loop-joined zero out done rest old new h enough = absurd (omega arith)
  replace_loop-joined (suc fuel) out done rest old new h enough =
      elim (Option-cases (find rest old)) [
        | inl e ↦
            rw (e, replace_loop, split_loop)
              (ap (λ t. out ++ t) (sym (append-nil rest) ∙ sym (join-joined rest [] new)))
        | inr (j, e) ↦
            rw (e, replace_loop, split_loop)
              (let lt =
                  shorter find first fuel rest old j h enough (found find first rest old j e) in
                go j lt (
                  replace_loop-joined fuel (out ++ (take j rest ++ new)) (done + 1)
                    (drop (j + length old) rest) old new h lt))
      ]
    where
      go :
          (j : ℕ)
          → length (drop (j + length old) rest) < fuel
          → {r : List ℕ}
          → r
            ≡ (out ++ (take j rest ++ new))
              ++ join (split_loop find fuel [] (drop (j + length old) rest) old) new
          → r
            ≡ out
              ++ join (split_loop find fuel (take j rest ∷ []) (drop (j + length old) rest) old) new
      go j lt ih =
          let more = drop (j + length old) rest in
          let t = take j rest in
          let (p, ps, eq, glue, n, none_in) = split_loop-Splitting find first fuel more old h lt in
          ih
          ∙ ap (λ l. (out ++ (t ++ new)) ++ join l new) eq
          ∙ ap (λ l. (out ++ (t ++ new)) ++ l) (join-joined p ps new)
          ∙ append_assoc out (t ++ new) (p ++ joined new ps)
          ∙ ap (λ l. out ++ l) (append_assoc t new (p ++ joined new ps))
          ∙ ap (λ l. out ++ l) (sym (join-joined t (p ∷ ps) new))
          ∙ ap (λ l. out ++ join l new)
              (sym (split_loop_out find first fuel (t ∷ []) more old ∙ ap (λ l. t ∷ l) eq))

  -- ReplaceAll splits at the old text and joins with the new one.
  pub replace_all-join-split :
      (s old new : List ℕ)
      → 0 < length old
      → replace_all find s old new ≡ join (split find s old) new
  unfolding replace_all replace split
  replace_all-join-split s old new h =
      let ne : (length old == 0) ≡ false = ground arith in
      rw ne (replace_loop-joined (length s + 1) [] 0 s old new h (omega arith))
