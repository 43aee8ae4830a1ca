-- ===== src/Crypto/Blocks/Laws.antt =====
-- Streaming against the one-shot Sum, and the padding.
use mathlib.Core.List.{append_assoc, append-nil}
use wasigoc.Common.{ℕ, zero, suc, ◌+◌, ◌*◌, ◌/◌, ◌<◌, ◌≤◌, ◌≡◌, refl, sym, ap, ◌∙◌, arith}
use wasigoc.Common.{List, [], ◌∷◌, ◌++◌, length, length-append, take, drop, length-drop}
use native.Mathlib.Nat.{zero-div, mul-add-div_right, div-mul-le_self, add-mul}
use wasigoc.Common.Bits.{u64}
use wasigoc.Crypto.Blocks.{
  Scheme, Digest, process_blocks, pad_block, finish, sum_of, new, write, sum,
}

take_append_within :
    {A : Type 0} → (n : ℕ) (xs ys : List A) → n ≤ length xs → take n (xs ++ ys) ≡ take n xs
take_append_within zero xs ys h = refl
take_append_within (suc n) [] ys h = absurd (omega (arith, h))
take_append_within (suc n) (x ∷ xs) ys h =
    ap (◌∷◌ x) (take_append_within n xs ys (omega (arith, h)))

drop_append_within :
    {A : Type 0} → (n : ℕ) (xs ys : List A) → n ≤ length xs → drop n (xs ++ ys) ≡ drop n xs ++ ys
drop_append_within zero xs ys h = refl
drop_append_within (suc n) [] ys h = absurd (omega (arith, h))
drop_append_within (suc n) (x ∷ xs) ys h = drop_append_within n xs ys (omega (arith, h))

drop-drop : {A : Type 0} → (m n : ℕ) (xs : List A) → drop n (drop m xs) ≡ drop (m + n) xs
drop-drop zero n xs = ap (λ k. drop k xs) (omega arith)
drop-drop (suc m) zero [] = (let e : suc m + 0 ≡ suc m = omega arith in rw e refl)
drop-drop (suc m) (suc n) [] = (let e : suc m + suc n ≡ suc (suc m + n) = omega arith in rw e refl)
drop-drop (suc m) n (x ∷ xs) =
    (let e : suc m + n ≡ suc (m + n) = omega arith in rw e (drop-drop m n xs))

pub Digest-eq :
    {H : Type 0} → (d e : Digest H) → d.h ≡ e.h → d.buf ≡ e.buf → d.total_len ≡ e.total_len → d ≡ e
Digest-eq {H} d e p q r =
    let mk : H → List ℕ → ℕ → Digest H = λ a b c. record { h = a; buf = b; total_len = c } in
    ap (λ a. mk a (d.buf) (d.total_len)) p
    ∙ ap (λ b. mk (e.h) b (d.total_len)) q
    ∙ ap (mk (e.h) (e.buf)) r

-- A write for each piece, and the pieces joined.
abbrev pub write_each : {D : Type 0} → (D → List ℕ → D) → List (List ℕ) → D → D
write_each write_one [] d = d
write_each write_one (p ∷ ps) d = write_each write_one ps (write_one d p)

abbrev pub joined : List (List ℕ) → List ℕ
joined [] = []
joined (p ∷ ps) = p ++ joined ps

module _ {H : Type 0} (f : Scheme H) where
  process_blocks-append :
      (n : ℕ) (xs ys : List ℕ) (h : H)
      → n * f.block ≤ length xs
      → process_blocks f n (xs ++ ys) h ≡ process_blocks f n xs h
  unfolding process_blocks
  process_blocks-append zero xs ys h within = refl
  process_blocks-append (suc n) xs ys h within =
      let first : f.block ≤ length xs = omega (arith, within) in
      rw (take_append_within (f.block) xs ys first, drop_append_within (f.block) xs ys first)
        (process_blocks-append n (drop (f.block) xs) ys _
          (omega (arith, within, length-drop (f.block) xs)))

  process_blocks-add :
      (m n : ℕ) (xs : List ℕ) (h : H)
      → process_blocks f (m + n) xs h
        ≡ process_blocks f n (drop (m * f.block) xs) (process_blocks f m xs h)
  unfolding process_blocks
  process_blocks-add zero n xs h =
      (let e : 0 + n ≡ n = omega arith in let z : 0 * f.block ≡ 0 = omega arith in rw (e, z) refl)
  process_blocks-add (suc m) n xs h =
      let whole : f.block + m * f.block ≡ suc m * f.block = omega arith in
      let step : suc m + n ≡ suc (m + n) = omega arith in
      ap (λ k. process_blocks f k xs h) step
      ∙ process_blocks-add m n (drop (f.block) xs) (f.process_block (take (f.block) xs) h)
      ∙ ap (λ t. process_blocks f n t (process_blocks f (suc m) xs h))
          (drop-drop (f.block) (m * f.block) xs ∙ ap (λ k. drop k xs) whole)

  -- A write may be cut anywhere.
  pub write-append :
      (d : Digest H) (p q : List ℕ) → 0 < f.block → write f (write f d p) q ≡ write f d (p ++ q)
  unfolding write
  write-append d p q pos =
      let xs = d.buf ++ p in
      let n1 = length xs / f.block in
      let left = drop (n1 * f.block) xs in
      let n2 = length (left ++ q) / f.block in
      let whole : d.buf ++ (p ++ q) ≡ xs ++ q = sym (append_assoc (d.buf) p q) in
      let within : n1 * f.block ≤ length xs = div-mul-le_self (length xs) (f.block) in
      let rest : drop (n1 * f.block) (xs ++ q) ≡ left ++ q =
        drop_append_within (n1 * f.block) xs q within in
      let long : length (xs ++ q) ≡ n1 * f.block + length (left ++ q) =
        omega (
          arith,
          length-append xs q,
          length-append left q,
          length-drop (n1 * f.block) xs,
          within,
        ) in
      let blocks : length (xs ++ q) / f.block ≡ n1 + n2 =
        ap (λ k. k / f.block) long ∙ mul-add-div_right pos n1 (length (left ++ q)) in
      let hashed : process_blocks f (n1 + n2) (xs ++ q) (d.h)
          ≡ process_blocks f n2 (left ++ q) (process_blocks f n1 xs (d.h)) =
        process_blocks-add n1 n2 (xs ++ q) (d.h)
        ∙ ap (λ t. process_blocks f n2 t (process_blocks f n1 (xs ++ q) (d.h))) rest
        ∙ ap (process_blocks f n2 (left ++ q)) (process_blocks-append n1 xs q (d.h) within) in
      let kept : drop ((n1 + n2) * f.block) (xs ++ q) ≡ drop (n2 * f.block) (left ++ q) =
        ap (λ k. drop k (xs ++ q)) (add-mul n1 n2 (f.block))
        ∙ sym (drop-drop (n1 * f.block) (n2 * f.block) (xs ++ q))
        ∙ ap (drop (n2 * f.block)) rest in
      Digest-eq (write f (write f d p) q) (write f d (p ++ q))
        (sym (
          ap (λ t. process_blocks f (length t / f.block) t (d.h)) whole
          ∙ ap (λ k. process_blocks f k (xs ++ q) (d.h)) blocks
          ∙ hashed))
        (sym (
          ap (λ t. drop (length t / f.block * f.block) t) whole
          ∙ ap (λ k. drop (k * f.block) (xs ++ q)) blocks
          ∙ kept))
        (omega (arith, length-append p q))

  write_each-joined :
      (ps : List (List ℕ)) (d : Digest H) (p : List ℕ)
      → 0 < f.block
      → write_each (write f) ps (write f d p) ≡ write f d (p ++ joined ps)
  write_each-joined [] d p pos = ap (write f d) (sym (append-nil p))
  write_each-joined (q ∷ ps) d p pos =
      ap (write_each (write f) ps) (write-append d p q pos)
      ∙ write_each-joined ps d (p ++ q) pos
      ∙ ap (write f d) (append_assoc p q (joined ps))

  write-new_nil : write f (new f) [] ≡ new f
  unfolding write new process_blocks
  write-new_nil = (let e : 0 * f.block ≡ 0 = omega arith in rw (zero-div (f.block), e) refl)

  sum-write_new : (xs b : List ℕ) → sum f (write f (new f) xs) b ≡ b ++ sum_of f xs
  unfolding sum write new sum_of
  sum-write_new xs b =
      let n = length xs / f.block in
      let once : u64 (0 + u64 (length xs)) ≡ u64 (length xs) = omega arith in
      ap
        (λ t.
          b
          ++ finish f (pad_block f (drop (n * f.block) xs) (u64 (t * 8)))
              (process_blocks f n xs (f.start)))
        once

  -- However the data is cut into writes, the digest gives the one-shot sum of all of it.
  pub stream-sum_of :
      (ps : List (List ℕ)) (b : List ℕ)
      → 0 < f.block
      → sum f (write_each (write f) ps (new f)) b ≡ b ++ sum_of f (joined ps)
  stream-sum_of ps b pos =
      ap (λ d. sum f (write_each (write f) ps d) b) (sym write-new_nil)
      ∙ ap (λ d. sum f d b) (write_each-joined ps (new f) [] pos)
      ∙ sum-write_new (joined ps) b
