-- ===== src/Paths/File.antt =====
-- stdlib/path/filepath/filepath.go. All but Rel, ToSlash and FromSlash is the code of path.go once more,
-- so that these functions are those of Paths.
use wasigoc.Common.{
  ℕ, ◌≡◌, refl, codes, List, [], ◌∷◌, ◌++◌, Bool, true, false, not, if◌then◌else◌, length, Option,
  none, some, ◌==◌,
}
use wasigoc.Text.Find.{same_text}
use wasigoc.Paths
use wasigoc.Paths.{dots}

abbrev base : List ℕ → List ℕ
base = Paths.base

abbrev dir : List ℕ → List ℕ
dir = Paths.dir

abbrev ext : List ℕ → List ℕ
ext = Paths.ext

abbrev has_slash : List ℕ → Bool
has_slash = Paths.has_slash

abbrev join : List (List ℕ) → List ℕ
join = Paths.join

abbrev to_slash : List ℕ → List ℕ
to_slash path = path

abbrev from_slash : List ℕ → List ℕ
from_slash path = path

abbrev is_abs : List ℕ → Bool
is_abs = Paths.is_abs

abbrev split : List ℕ → List ℕ × List ℕ
split = Paths.split

abbrev split_segs : List ℕ → List (List ℕ)
split_segs = Paths.split_segs

abbrev clean : List ℕ → List ℕ
clean = Paths.clean

-- What is left of two paths behind the segments at which they agree.
behind_common : List (List ℕ) → List (List ℕ) → List (List ℕ) × List (List ℕ)
behind_common [] target_segs = ([], target_segs)
behind_common (b ∷ base_segs) [] = (b ∷ base_segs, [])
behind_common (b ∷ base_segs) (t ∷ target_segs) =
    let rest = behind_common base_segs target_segs in
    if same_text b t then rest else (b ∷ base_segs, t ∷ target_segs)

has_dots : List (List ℕ) → Bool
has_dots [] = false
has_dots (seg ∷ segs) = if same_text seg dots then true else has_dots segs

-- `if rel == "" { rel = seg } else { rel = rel + "/" + seg }`
abbrev add_seg : List ℕ → List ℕ → List ℕ
add_seg rel seg = if length rel == 0 then seg else (rel ++ 47 ∷ []) ++ seg

-- The loop that climbs out of the base, and the one that goes down to the target.
climb_loop : List ℕ → List (List ℕ) → List ℕ
climb_loop rel [] = rel
climb_loop rel (seg ∷ base_segs) = climb_loop (add_seg rel dots) base_segs

descend_loop : List ℕ → List (List ℕ) → List ℕ
descend_loop rel [] = rel
descend_loop rel (seg ∷ target_segs) = descend_loop (add_seg rel seg) target_segs

abbrev same_flag : Bool → Bool → Bool
same_flag true b = b
same_flag false b = not b

abbrev or_dot : List ℕ → List ℕ
or_dot rel = if length rel == 0 then 46 ∷ [] else rel

-- `none` is the error, whose text names the two paths.
rel : List ℕ → List ℕ → Option (List ℕ)
rel base_path target_path =
    let from = clean base_path in
    let to = clean target_path in
    let rest = behind_common (split_segs from) (split_segs to) in
    if same_text from to
    then some (46 ∷ [])
    else if not (same_flag (is_abs from) (is_abs to))
    then none
    else if has_dots (rest.0)
    then none
    else some (or_dot (descend_loop (climb_loop [] (rest.0)) (rest.1)))

rel_sideways : rel (codes "/a/./b/") (codes "/a/c/d") ≡ some (codes "../c/d")
unfolding rel behind_common has_dots climb_loop descend_loop Paths.clean Paths.is_abs
    Paths.split_segs Paths.segs_loop Paths.clean_loop Paths.clean_seg Paths.can_pop Paths.glue
    Paths.slash_at same_text
rel_sideways = refl

rel_unlike : rel (codes "a") (codes "/a") ≡ none
unfolding rel behind_common has_dots climb_loop descend_loop Paths.clean Paths.is_abs
    Paths.split_segs Paths.segs_loop Paths.clean_loop Paths.clean_seg Paths.can_pop Paths.glue
    Paths.slash_at same_text
rel_unlike = refl
