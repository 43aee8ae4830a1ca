-- ===== src/Text/Strings/Laws.antt =====
-- Prefixes and letter case of strings.go.
use mathlib.Core.List.{append_assoc, append-nil, map}
use wasigoc.Common.{ℕ, ◌≡◌, ◌↔◌, refl, sym, ap, ◌∙◌, arith, List, [], ◌∷◌, ◌++◌}
use wasigoc.Common.{true, false, ◌==◌, ltb, if◌then◌else◌, length, take, drop}
use wasigoc.Common.{length-append, take-append-drop, take-length_append, length-map}
use wasigoc.Text.Find.{same_text, same_text_iff}
use wasigoc.Text.Strings.{
  has_prefix, upper_byte, lower_byte, upper_loop, to_upper, lower_loop, to_lower, equal_fold,
}

-- HasPrefix says whether the text is the prefix followed by some text: for all texts.
pub has_prefix_iff :
    (s prefix : List ℕ) → (has_prefix s prefix ≡ true) ↔ ((t : List ℕ) × (s ≡ prefix ++ t))
unfolding has_prefix
has_prefix_iff s prefix = (
  λ e. (
    drop (length prefix) s,
    sym (take-append-drop (length prefix) s)
        ∙ ap (λ t. t ++ drop (length prefix) s) ((same_text_iff _ _).0 (then_same e)),
  ),
  λ (t, e). rw e (starts t),
)
  where
    then_same :
        (if ltb (length s) (length prefix)
            then false
            else same_text (take (length prefix) s) prefix)
          ≡ true
        → same_text (take (length prefix) s) prefix ≡ true
    then_same e = ground (arith, e)

    starts :
        (t : List ℕ)
        → (if ltb (length (prefix ++ t)) (length prefix)
            then false
            else same_text (take (length prefix) (prefix ++ t)) prefix)
          ≡ true
    starts t =
        let ge : ltb (length (prefix ++ t)) (length prefix) ≡ false =
          ground (arith, length-append prefix t) in
        rw ge ((same_text_iff _ _).1 (take-length_append prefix t))

upper_loop-append : (b s : List ℕ) → upper_loop b s ≡ b ++ map upper_byte s
unfolding upper_loop
upper_loop-append b [] = sym (append-nil b)
upper_loop-append b (c ∷ s) =
    upper_loop-append (b ++ upper_byte c ∷ []) s
    ∙ append_assoc b (upper_byte c ∷ []) (map upper_byte s)

lower_loop-append : (b s : List ℕ) → lower_loop b s ≡ b ++ map lower_byte s
unfolding lower_loop
lower_loop-append b [] = sym (append-nil b)
lower_loop-append b (c ∷ s) =
    lower_loop-append (b ++ lower_byte c ∷ []) s
    ∙ append_assoc b (lower_byte c ∷ []) (map lower_byte s)

lower_byte-upper_byte : (c : ℕ) → lower_byte (upper_byte c) ≡ lower_byte c
unfolding lower_byte upper_byte
lower_byte-upper_byte c = ground arith

lower_upper_map : (s : List ℕ) → map lower_byte (map upper_byte s) ≡ map lower_byte s
lower_upper_map [] = refl
lower_upper_map (c ∷ s) = rw (lower_byte-upper_byte c, lower_upper_map s)

-- Lower case forgets upper case: for all texts, ToLower of ToUpper of a text is its ToLower, and
-- EqualFold does not tell a text from its ToUpper.
pub to_lower-to_upper :
    (s : List ℕ) → (to_lower (to_upper s) ≡ to_lower s) × (equal_fold s (to_upper s) ≡ true)
unfolding to_lower to_upper equal_fold
to_lower-to_upper s =
    let u = upper_loop-append [] s in
    let low : lower_loop [] (upper_loop [] s) ≡ lower_loop [] s =
      ap (lower_loop []) u
      ∙ lower_loop-append [] (map upper_byte s)
      ∙ lower_upper_map s
      ∙ sym (lower_loop-append [] s) in
    let len : (length s == length (upper_loop [] s)) ≡ true =
      ground (arith, ap length u, length-map upper_byte s) in
    (low, rw len ((same_text_iff _ _).1 (sym low)))
