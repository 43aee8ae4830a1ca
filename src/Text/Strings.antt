-- ===== src/Text/Strings.antt =====
-- The rest of strings.go on bytes: prefixes, ASCII case, trimming, fields and the other searches.
pub mod Laws
use wasigoc.Common.{ℕ, zero, suc, ◌+◌, ◌-◌, List, [], ◌∷◌, ◌++◌, Bool, true, false, ◌==◌, ltb, leb}
use wasigoc.Common.{◌&&◌, ◌||◌, if◌then◌else◌, not, Option, none, some, length, take, drop}
use wasigoc.Text.Find.{same_text, index}
use wasigoc.Text.Pieces.{contains}

unfoldable pub has_prefix : List ℕ → List ℕ → Bool
has_prefix s prefix =
    if ltb (length s) (length prefix) then false else same_text (take (length prefix) s) prefix

unfoldable pub has_suffix : List ℕ → List ℕ → Bool
has_suffix s suffix =
    if ltb (length s) (length suffix)
    then false
    else same_text (drop (length s - length suffix) s) suffix

unfoldable pub trim_prefix : List ℕ → List ℕ → List ℕ
trim_prefix s prefix = if has_prefix s prefix then drop (length prefix) s else s

unfoldable pub trim_suffix : List ℕ → List ℕ → List ℕ
trim_suffix s suffix = if has_suffix s suffix then take (length s - length suffix) s else s

unfoldable pub upper_byte : ℕ → ℕ
upper_byte ci = if leb 97 ci && leb ci 122 then ci - 32 else ci

unfoldable pub lower_byte : ℕ → ℕ
lower_byte ci = if leb 65 ci && leb ci 90 then ci + 32 else ci

-- `b = append(b, byte(ci))` over the bytes that are left.
unfoldable pub upper_loop : List ℕ → List ℕ → List ℕ
upper_loop b [] = b
upper_loop b (c ∷ s) = upper_loop (b ++ upper_byte c ∷ []) s

unfoldable pub lower_loop : List ℕ → List ℕ → List ℕ
lower_loop b [] = b
lower_loop b (c ∷ s) = lower_loop (b ++ lower_byte c ∷ []) s

unfoldable pub to_upper : List ℕ → List ℕ
to_upper s = upper_loop [] s

unfoldable pub to_lower : List ℕ → List ℕ
to_lower s = lower_loop [] s

unfoldable pub equal_fold : List ℕ → List ℕ → Bool
equal_fold s t = if not (length s == length t) then false else same_text (to_lower s) (to_lower t)

unfoldable pub is_space_byte : ℕ → Bool
is_space_byte c = c == 32 || c == 9 || c == 10 || c == 11 || c == 12 || c == 13

-- The loops that move a start to the right, with the text from the start on, while `p` holds.
unfoldable pub skip : (ℕ → Bool) → List ℕ → List ℕ
skip p [] = []
skip p (c ∷ s) = if p c then skip p s else c ∷ s

-- The loops that move an end `n` to the left, `k` places at most, while `p` holds before it.
unfoldable pub shrink : (ℕ → Bool) → ℕ → ℕ → List ℕ → ℕ
shrink p zero n s = n
shrink p (suc k) n s =
    let less = shrink p k (n - 1) s in
    elim (drop (n - 1) s) [ [] ↦ n | c ∷ t ↦ if p c then less else n ]

unfoldable pub in_cutset : List ℕ → ℕ → Bool
in_cutset cutset c = contains index cutset (c ∷ [])

unfoldable pub trim_left : List ℕ → List ℕ → List ℕ
trim_left s cutset = skip (in_cutset cutset) s

unfoldable pub trim_right : List ℕ → List ℕ → List ℕ
trim_right s cutset = take (shrink (in_cutset cutset) (length s) (length s) s) s

unfoldable pub trim : List ℕ → List ℕ → List ℕ
trim s cutset = trim_left (trim_right s cutset) cutset

-- The text from `i` on is what the first loop leaves, so that `n` goes down to 0 there.
unfoldable pub trim_space : List ℕ → List ℕ
trim_space s =
    let rest = skip is_space_byte s in
    take (shrink is_space_byte (length rest) (length rest) rest) rest

-- How far the loop over the bytes that are no spaces goes.
unfoldable pub word_length : List ℕ → ℕ
word_length [] = 0
word_length (c ∷ s) = if is_space_byte c then 0 else suc (word_length s)

-- The loop of Fields on fuel.
unfoldable pub fields_loop : ℕ → List (List ℕ) → List ℕ → List (List ℕ)
fields_loop zero out s = out
fields_loop (suc fuel) out s =
    let rest = skip is_space_byte s in
    let n = word_length rest in
    let later = fields_loop fuel (out ++ take n rest ∷ []) (drop n rest) in
    if length rest == 0 then out else later

unfoldable pub fields : List ℕ → List (List ℕ)
fields s = fields_loop (length s) [] s

-- `for i := n - m; i >= 0; i--`, with `k` places left.
unfoldable pub last_index_loop : ℕ → List ℕ → List ℕ → Option ℕ
last_index_loop zero s sub = none
last_index_loop (suc k) s sub =
    let earlier = last_index_loop k s sub in
    if same_text (take (length sub) (drop k s)) sub then some k else earlier

unfoldable pub last_index : List ℕ → List ℕ → Option ℕ
last_index s sub =
    if length sub == 0
    then some (length s)
    else if ltb (length s) (length sub)
    then none
    else last_index_loop (length s - length sub + 1) s sub

-- The first place, counted from `i` on, with a byte that satisfies `p`.
unfoldable pub place : (ℕ → Bool) → ℕ → List ℕ → Option ℕ
place p i [] = none
place p i (c ∷ s) = if p c then some i else place p (i + 1) s

unfoldable pub index_byte : List ℕ → ℕ → Option ℕ
index_byte s c = place (λ b. b == c) 0 s

unfoldable pub index_any : List ℕ → List ℕ → Option ℕ
index_any s chars = place (in_cutset chars) 0 s

unfoldable pub contains_any : List ℕ → List ℕ → Bool
contains_any s chars = elim (index_any s chars) [ some i ↦ true | none ↦ false ]

-- `for i := len(s) - 1; i >= 0; i--`, with `k` places left.
unfoldable pub last_index_byte_loop : ℕ → List ℕ → ℕ → Option ℕ
last_index_byte_loop zero s c = none
last_index_byte_loop (suc k) s c =
    let earlier = last_index_byte_loop k s c in
    elim (drop k s) [ [] ↦ earlier | b ∷ t ↦ if b == c then some k else earlier ]

unfoldable pub last_index_byte : List ℕ → ℕ → Option ℕ
last_index_byte s c = last_index_byte_loop (length s) s c
