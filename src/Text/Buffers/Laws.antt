-- ===== src/Text/Buffers/Laws.antt =====
-- What a read from a Reader returns.
use wasigoc.Common.{
  ℕ, zero, suc, ◌+◌, ◌≤◌, min, ◌≡◌, refl, sym, ap, ◌∙◌, arith, List, [], ◌∷◌, ◌++◌,
}
use wasigoc.Common.{◌==◌, leb, length, take, drop, Bool-cases, inl, inr}
use wasigoc.Common.{
  length-append, length-take, length-drop, take-append-drop, take-length_append, drop-length_append,
}
use wasigoc.Text.Find.{drop-drop}
use wasigoc.Text.Buffers.{copy, Reader, read, unread, IsRead}

length-copy : (p s : List ℕ) → length ((copy p s).1) ≡ length p
unfolding copy
length-copy p s =
    let n = min (length p) (length s) in
    omega (arith, length-append (take n s) (drop n p), length-take n s, length-drop n p)

take-copy : (p s : List ℕ) → take ((copy p s).0) ((copy p s).1) ≡ take ((copy p s).0) s
unfolding copy
take-copy p s =
    let n = min (length p) (length s) in
    let e : n ≡ length (take n s) = omega (arith, length-take n s) in
    ap (λ k. take k (take n s ++ drop n p)) e ∙ take-length_append (take n s) (drop n p)

drop-copy : (p s : List ℕ) → drop ((copy p s).0) ((copy p s).1) ≡ drop ((copy p s).0) p
unfolding copy
drop-copy p s =
    let n = min (length p) (length s) in
    let e : n ≡ length (take n s) = omega (arith, length-take n s) in
    ap (λ k. drop k (take n s ++ drop n p)) e ∙ drop-length_append (take n s) (drop n p)

drop-all : (n : ℕ) (s : List ℕ) → length s ≤ n → drop n s ≡ []
drop-all zero [] h = refl
drop-all zero (x ∷ s) h = absurd (omega (arith, h))
drop-all (suc n) [] h = refl
drop-all (suc n) (x ∷ s) h = drop-all n s (omega (arith, h))

-- Reader.Read copies the next bytes to the front of the buffer, as many as fit or are left, leaves
-- the rest of the buffer as it is, and moves on by that number: what it read and what is still to
-- be read make up what was to be read. It returns an error exactly with nothing left to read and a
-- buffer that is not empty, and it never panics: for all readers and buffers.
pub read-IsRead : (r : Reader) (p : List ℕ) → IsRead r p (read r p)
unfolding read unread
read-IsRead r p = elim (Bool-cases (leb (length (r.s)) (r.i))) [
  | inr more ↦
      let q = drop (r.i) (r.s) in
      let n = (copy p q).0 in
      rw more (
        length-copy p q,
        unfold copy in refl,
        ap (λ t. t ++ drop (r.i + n) (r.s)) (take-copy p q)
            ∙ ap (λ t. take n q ++ t) (sym (drop-drop (r.i) n (r.s)))
            ∙ take-append-drop n q,
        drop-copy p q,
      )
  | inl done ↦
      let none_left : drop (r.i) (r.s) ≡ [] = drop-all (r.i) (r.s) (ground arith) in
      elim (Bool-cases (length p == 0)) [
        | inl e ↦
            let z : length p ≡ 0 = ground arith in rw (done, e) (refl, omega (arith, z), refl, refl)
        | inr f ↦ rw (done, f) (none_left, ground arith)
      ]
]
