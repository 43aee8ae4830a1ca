-- ===== src/Paths/Laws.antt =====
-- Split and Join of path.go, and the segments of a cleaned path.
use wasigoc.Common.{ℕ, zero, suc, ◌≤◌, ◌<◌, ◌≡◌, sym, arith, List, ◌++◌}
use wasigoc.Common.{true, false, ◌==◌, length, take, take-append-drop, length-take}
use wasigoc.Common.{Bool-cases, inl, inr}
use wasigoc.Paths.{slash_at, after_slash, split}

after_slash_none :
    (name : List ℕ) (n i : ℕ) → after_slash name n ≤ i → i < n → slash_at name i ≡ false
unfolding after_slash
after_slash_none name zero i h lt = absurd (omega arith)
after_slash_none name (suc n) i h lt = elim (Bool-cases (slash_at name n)) [
  | inl y ↦ absurd (ground (arith, h, lt, y))
  | inr f ↦ elim (Bool-cases (i == n)) [
    | inl e ↦ let q : i ≡ n = ground arith in rw q f
    | inr e ↦ after_slash_none name n i (rw f at h) (ground (arith, lt, e))
  ]
]

after_slash-le : (name : List ℕ) (n : ℕ) → after_slash name n ≤ n
unfolding after_slash
after_slash-le name zero = omega arith
after_slash-le name (suc n) = ground (arith, after_slash-le name n)

after_slash_at : (name : List ℕ) (n k : ℕ) → after_slash name n ≡ suc k → slash_at name k ≡ true
unfolding after_slash
after_slash_at name zero k e = absurd (omega (arith, e))
after_slash_at name (suc n) k e = elim (Bool-cases (slash_at name n)) [
  | inl y ↦ let q : n ≡ k = omega (arith, rw y at e) in rw (sym q) y
  | inr f ↦ after_slash_at name n k (rw f at e)
]

-- Split of a path gives two parts that make up the path. The first part is empty or ends in a slash
-- of the path, and no slash stands at a place of the second part: for all paths.
pub split-parts :
    (path : List ℕ)
    → ((split path).0 ++ (split path).1 ≡ path)
      × ((i : ℕ) → length ((split path).0) ≤ i → i < length path → slash_at path i ≡ false)
      × ((k : ℕ) → length ((split path).0) ≡ suc k → slash_at path k ≡ true)
unfolding split
split-parts path =
    let k = after_slash path (length path) in
    let len : length (take k path) ≡ k =
      omega (arith, length-take k path, after_slash-le path (length path)) in
    (
      take-append-drop k path,
      rw len (after_slash_none path (length path)),
      rw len (after_slash_at path (length path)),
    )
