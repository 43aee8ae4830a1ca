-- ===== src/Paths.antt =====
-- stdlib/path/path.go. A path is the list of its bytes, 47 is the slash and 46 the dot.
pub mod Laws
pub mod File
use wasigoc.Common.{ℕ, zero, suc, ◌+◌, ◌-◌, List, [], ◌∷◌, ◌++◌, Bool, true, false, ◌==◌, ltb, leb}
use wasigoc.Common.{◌&&◌, ◌||◌, not, if◌then◌else◌, length, take, drop, get_or}
use wasigoc.Text.Find.{same_text}

-- `name[i:i+1] == "/"`
unfoldable pub slash_at : List ℕ → ℕ → Bool
slash_at name i = same_text (take 1 (drop i name)) (47 ∷ [])

unfoldable pub dot_at : List ℕ → ℕ → Bool
dot_at name i = same_text (take 1 (drop i name)) (46 ∷ [])

-- `for n > 0 && name[n-1:n] == "/" { n-- }`
unfoldable pub back_over_slashes : List ℕ → ℕ → ℕ
back_over_slashes name zero = 0
back_over_slashes name (suc n) =
    let less = back_over_slashes name n in if slash_at name n then less else suc n

-- `for i >= 0 && name[i:i+1] != "/" { i-- }` from `i = n - 1` on; the result is `i + 1`.
unfoldable pub after_slash : List ℕ → ℕ → ℕ
after_slash name zero = 0
after_slash name (suc i) = let less = after_slash name i in if slash_at name i then suc i else less

unfoldable pub base : List ℕ → List ℕ
base name =
    let n = back_over_slashes name (length name) in
    if length name == 0
    then 46 ∷ []
    else if n == 0
    then 47 ∷ []
    else drop (after_slash name n) (take n name)

-- `for i > 0 && name[i:i+1] == "/" { i-- }`
unfoldable pub before_slashes : List ℕ → ℕ → ℕ
before_slashes name zero = 0
before_slashes name (suc i) =
    let less = before_slashes name i in if slash_at name (suc i) then less else suc i

unfoldable pub dir : List ℕ → List ℕ
dir name =
    let k = after_slash name (length name) in
    let i = before_slashes name (k - 1) in
    if k == 0 then 46 ∷ [] else if i == 0 && slash_at name 0 then 47 ∷ [] else take (i + 1) name

-- The loop of Ext, from `i = k - 1` on.
unfoldable pub ext_loop : List ℕ → ℕ → List ℕ
ext_loop name zero = []
ext_loop name (suc i) =
    let earlier = ext_loop name i in
    if slash_at name i then [] else if dot_at name i then drop i name else earlier

unfoldable pub ext : List ℕ → List ℕ
ext name = ext_loop name (length name)

unfoldable pub has_slash : List ℕ → Bool
has_slash s = ltb 0 (length s) && slash_at s (length s - 1)

unfoldable pub join_loop : List ℕ → List (List ℕ) → List ℕ
join_loop out [] = out
join_loop out (e ∷ elem) =
    join_loop
      (if length e == 0
        then out
        else if length out == 0
        then e
        else if has_slash out
        then out ++ e
        else (out ++ 47 ∷ []) ++ e)
      elem

unfoldable pub join : List (List ℕ) → List ℕ
join elem = join_loop [] elem

unfoldable pub is_abs : List ℕ → Bool
is_abs path = ltb 0 (length path) && slash_at path 0

unfoldable pub split : List ℕ → List ℕ × List ℕ
split path = let k = after_slash path (length path) in (take k path, drop k path)

-- The loop of splitSegs at `i`, with the bytes from `i` on and the segment `path[start:i]`.
unfoldable pub segs_loop : List (List ℕ) → List ℕ → List ℕ → List (List ℕ)
segs_loop out seg [] = if length seg == 0 then out else out ++ seg ∷ []
segs_loop out seg (c ∷ path) =
    let closed = segs_loop (if length seg == 0 then out else out ++ seg ∷ []) [] path in
    let longer = segs_loop out (seg ++ c ∷ []) path in if c == 47 then closed else longer

unfoldable pub split_segs : List ℕ → List (List ℕ)
split_segs path = segs_loop [] [] path

abbrev pub dots : List ℕ
dots = 46 ∷ 46 ∷ []

-- `len(out) > 0 && out[len(out)-1] != ".."`
unfoldable pub can_pop : List (List ℕ) → Bool
can_pop out = ltb 0 (length out) && not (same_text (get_or out (length out - 1) []) dots)

-- One round of the loop of Clean.
unfoldable pub clean_seg : Bool → List (List ℕ) → List ℕ → List (List ℕ)
clean_seg abs out seg =
    if same_text seg (46 ∷ [])
    then out
    else if same_text seg dots
    then if can_pop out then take (length out - 1) out else if abs then out else out ++ dots ∷ []
    else out ++ seg ∷ []

unfoldable pub clean_loop : Bool → List (List ℕ) → List (List ℕ) → List (List ℕ)
clean_loop abs out [] = out
clean_loop abs out (seg ∷ segs) = clean_loop abs (clean_seg abs out seg) segs

-- The loop that puts the segments together.
unfoldable pub glue : ℕ → List ℕ → List (List ℕ) → List ℕ
glue i res [] = res
glue i res (seg ∷ out) = glue (i + 1) ((if ltb 0 i then res ++ 47 ∷ [] else res) ++ seg) out

unfoldable pub clean : List ℕ → List ℕ
clean path =
    let abs = is_abs path in
    let res = glue 0 [] (clean_loop abs [] (split_segs path)) in
    let res' = if abs then 47 ∷ res else res in
    if length path == 0 then 46 ∷ [] else if length res' == 0 then 46 ∷ [] else res'
