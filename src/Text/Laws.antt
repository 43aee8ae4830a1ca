-- ===== src/Text/Laws.antt =====
-- What strings and bytes promise about Split, Join, Count, Cut and Replace, over their searches.
use wasigoc.Common.{ℕ, ◌+◌, ◌<◌, ◌≡◌, List, [], length, All, subst, sym, ◌∙◌}
use wasigoc.Text.Find.{index, index-IsFirst, index_bytes, index_bytes-index, OccursAt, IsFirst}
use wasigoc.Text.Pieces.{join, split, count, cut, replace_all}
use wasigoc.Text.Bytes.{join_bytes, repeat_bytes-repeat}
use wasigoc.Text.Pieces.Split
use wasigoc.Text.Pieces.Replace

index_bytes-IsFirst : (s sub : List ℕ) → IsFirst s sub (index_bytes s sub)
index_bytes-IsFirst s sub =
    subst (IsFirst s sub) (sym (index_bytes-index s sub)) (index-IsFirst s sub)

-- Joining what Split returns with the separator gives the text back, in strings and, with the Join
-- that appends byte by byte, in bytes: for all texts and all separators, the empty one included.
pub join-split :
    (s sep : List ℕ)
    → (join (split index s sep) sep ≡ s) × (join_bytes (split index_bytes s sep) sep ≡ s)
join-split s sep = (
  Split.join-split index index-IsFirst s sep,
  (repeat_bytes-repeat [] 0 (split index_bytes s sep) sep).1
      ∙ Split.join-split index_bytes index_bytes-IsFirst s sep,
)

-- For a separator that is not empty, strings.Split returns one piece more than strings.Count
-- counts, and the separator stands in none of the pieces.
pub length-split :
    (s sep : List ℕ)
    → 0 < length sep
    → (length (split index s sep) ≡ count index s sep + 1)
      × All (λ p. (j : ℕ) → ¬ OccursAt p sep j) (split index s sep)
length-split s sep h = Split.length-split index index-IsFirst s sep h

-- ReplaceAll splits at the old text and joins with the new one, in strings and in bytes, if the old
-- text is not empty.
pub replace_all-join-split :
    (s old new : List ℕ)
    → 0 < length old
    → (replace_all index s old new ≡ join (split index s old) new)
      × (replace_all index_bytes s old new ≡ join (split index_bytes s old) new)
replace_all-join-split s old new h = (
  Replace.replace_all-join-split index index-IsFirst s old new h,
  Replace.replace_all-join-split index_bytes index_bytes-IsFirst s old new h,
)

-- strings.Cut returns the parts of the text around the first place of the separator and true, or
-- the whole text and false if the separator does not stand in it.
pub cut-IsCut : (s sep : List ℕ) → Split.IsCut s sep (cut index s sep)
cut-IsCut s sep = Split.cut-IsCut index index-IsFirst s sep
