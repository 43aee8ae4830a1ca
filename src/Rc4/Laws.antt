-- ===== src/Rc4/Laws.antt =====
-- XORKeyStream runs without a panic and undoes itself.
use wasigoc.Common.{
  bit_xor, ℕ, zero, suc, ◌+◌, ◌%◌, ◌<◌, ◌≡◌, refl, sym, ap, ◌∙◌, arith, List, [], ◌∷◌, ◌++◌, length,
  set, replicate, length-set, ◌||◌, ltb, ◌≤◌, ◌⊎◌, Bool-cases, inl, inr,
}
use wasigoc.Common.Outcome.{ok, err}
use wasigoc.Common.Slices.{load, store, store_at}
use wasigoc.Common.Bits.{u8, bit_xor_cancel}
use mathlib.Core.List.{append_assoc}
use native.Mathlib.Nat.{mod-lt}
use wasigoc.Common.{length-append}
use wasigoc.Rc4.{
  Cipher, swap, identity_loop, schedule_loop, new_cipher, next, xor_loop, xor_key_stream,
}

load_returns : (s : List ℕ) (i : ℕ) → i < length s → (a : ℕ) × (load s i ≡ ok a)
unfolding load
load_returns [] i h = absurd (omega arith)
load_returns (x ∷ s) zero h = (x, refl)
load_returns (x ∷ s) (suc i) h = load_returns s i (omega arith)

store_returns :
    (s : List ℕ) (i v : ℕ)
    → i < length s
    → (s' : List ℕ) × (store s i v ≡ ok s') × (length s' ≡ length s)
unfolding store
store_returns s i v h = (set s i v, ground (arith, h), length-set s i v)

swap_returns :
    (s : List ℕ) (i j : ℕ)
    → i < length s
    → j < length s
    → (s' : List ℕ) × (swap s i j ≡ ok s') × (length s' ≡ length s)
unfolding swap
swap_returns s i j hi hj =
    let (a, ea) = load_returns s i hi in
    let (b, eb) = load_returns s j hj in
    let (s', es, len) = store_returns s i b hi in
    let (t, et, len') = store_returns s' j a (omega (arith, len)) in
    (t, rw (ea, eb, es) et, omega (arith, len, len'))

u8-lt : (n : ℕ) → u8 n < 256
u8-lt n = omega arith

next_returns :
    (c : Cipher)
    → length (c.s) ≡ 256
    → (key : ℕ) × (c' : Cipher) × (next c ≡ ok (key, c')) × (length (c'.s) ≡ 256)
unfolding next
next_returns c h =
    let i' = u8 (c.i + 1) in
    let hi : i' < length (c.s) = omega (arith, h, u8-lt (c.i + 1)) in
    let (a, ea) = load_returns (c.s) i' hi in
    let j' = u8 (c.j + a) in
    let hj : j' < length (c.s) = omega (arith, h, u8-lt (c.j + a)) in
    let (s', es, len) = swap_returns (c.s) i' j' hi hj in
    let (x, ex) = load_returns s' i' (omega (arith, len, hi)) in
    let (y, ey) = load_returns s' j' (omega (arith, len, hj)) in
    let (k, ek) = load_returns s' (u8 (x + y)) (omega (arith, len, h, u8-lt (x + y))) in
    (k, record { s = s'; i = i'; j = j' }, rw (ea, es, ex, ey, ek) refl, omega (arith, len, h))

empty : (t : List ℕ) → length t ≡ 0 → t ≡ []
empty [] e = refl
empty (x ∷ t) e = absurd (omega (arith, e))

xor_loop_back :
    (c c' c'' : Cipher) (k key x : ℕ) (out src q more : List ℕ)
    → next c ≡ ok (key, c')
    → ((q more : List ℕ)
        → k + 1 ≡ length q
        → length more ≡ length src
        → xor_loop c' (k + 1) (q ++ more) out ≡ ok (q ++ src, c''))
    → k ≡ length q
    → length more ≡ suc (length src)
    → xor_loop c k (q ++ more) (bit_xor x key ∷ out) ≡ ok (q ++ x ∷ src, c'')
unfolding xor_loop
xor_loop_back c c' c'' k key x out src q [] en back e l = absurd (omega (arith, l))
xor_loop_back c c' c'' k key x out src q (m ∷ more) en back e l =
    rw (en, xor_loop, bit_xor_cancel x key, store_at k q m x more e)
      (sym (ap (λ t. xor_loop c' (k + 1) t out) (append_assoc q (x ∷ []) more))
        ∙ back (q ++ x ∷ []) more (omega (arith, e, length-append q (x ∷ []))) (omega (arith, l))
        ∙ ap (λ t. ok (t, c'')) (append_assoc q (x ∷ []) src))

-- From one state, two runs over texts of one length: the second over what the first wrote.
xor_loop_twice :
    (c : Cipher) (k : ℕ) (p rest src : List ℕ)
    → length (c.s) ≡ 256
    → k ≡ length p
    → length rest ≡ length src
    → (out : List ℕ) × (c' : Cipher) × (xor_loop c k (p ++ rest) src ≡ ok (p ++ out, c'))
      × (length out ≡ length src)
      × ((q more : List ℕ)
          → k ≡ length q
          → length more ≡ length src
          → xor_loop c k (q ++ more) out ≡ ok (q ++ src, c'))
unfolding xor_loop
xor_loop_twice c k p [] [] h e l =
    ([], c, refl, refl, λ q more eq lm. ap (λ t. ok (q ++ t, c)) (empty more lm))
xor_loop_twice c k p [] (x ∷ src) h e l = absurd (omega (arith, l))
xor_loop_twice c k p (r ∷ rest) [] h e l = absurd (omega (arith, l))
xor_loop_twice c k p (r ∷ rest) (x ∷ src) h e l =
    let (key, c', en, h') = next_returns c h in
    let b = bit_xor x key in
    let (out, c'', run, len, back) =
      xor_loop_twice c' (k + 1) (p ++ b ∷ []) rest src h'
        (omega (arith, e, length-append p (b ∷ []))) (omega (arith, l)) in
    (
      b ∷ out,
      c'',
      rw (en, xor_loop, store_at k p r b rest e)
          (sym (ap (λ t. xor_loop c' (k + 1) t src) (append_assoc p (b ∷ []) rest))
            ∙ run
            ∙ ap (λ t. ok (t, c'')) (append_assoc p (b ∷ []) out)),
      omega (arith, len),
      λ q more eq lm. xor_loop_back c c' c'' k key x out src q more en back eq lm,
    )

-- XORKeyStream undoes itself: from a state whose table has 256 bytes, with destinations as long as
-- the source, it runs without a panic, and from the same state it turns what it wrote back into the
-- source and ends in the same state.
pub xor_key_stream_twice :
    (c : Cipher) (src dst dst' : List ℕ)
    → length (c.s) ≡ 256
    → length dst ≡ length src
    → length dst' ≡ length src
    → (out : List ℕ) × (c' : Cipher) × (xor_key_stream c dst src ≡ ok (out, c'))
      × (xor_key_stream c dst' out ≡ ok (src, c'))
unfolding xor_key_stream
xor_key_stream_twice c src dst dst' h l l' =
    let (out, c', run, len, back) = xor_loop_twice c 0 [] dst src h refl l in
    (out, c', run, back [] dst' refl l')

identity_loop_returns :
    (k i : ℕ) (s : List ℕ)
    → i + k ≡ length s
    → (s' : List ℕ) × (identity_loop k i s ≡ ok s') × (length s' ≡ length s)
unfolding identity_loop
identity_loop_returns zero i s h = (s, refl, refl)
identity_loop_returns (suc k) i s h =
    let (s', e, len) = store_returns s i (u8 i) (omega (arith, h)) in
    let (t, f, len') = identity_loop_returns k (i + 1) s' (omega (arith, len, h)) in
    (t, rw e f, omega (arith, len, len'))

schedule_loop_returns :
    (k i j : ℕ) (s key : List ℕ)
    → length s ≡ 256
    → i + k ≡ 256
    → 0 < length key
    → (s' : List ℕ) × (schedule_loop k i j s key ≡ ok s') × (length s' ≡ 256)
unfolding schedule_loop
schedule_loop_returns zero i j s key h e pos = (s, refl, h)
schedule_loop_returns (suc k) i j s key h e pos =
    let (a, ea) = load_returns s i (omega (arith, h, e)) in
    let (b, eb) = load_returns key (i % length key) (mod-lt i pos) in
    let j' = u8 (u8 (j + a) + b) in
    let hj : j' < length s = omega (arith, h, u8-lt (u8 (j + a) + b)) in
    let (s', es, len) = swap_returns s i j' (omega (arith, h, e)) hj in
    let (t, et, len') =
      schedule_loop_returns k (i + 1) j' s' key (omega (arith, len, h)) (omega (arith, e)) pos in
    (t, rw (ea, eb, es) et, len')

-- NewCipher accepts the keys of 1 to 256 bytes, for which it returns without a panic a cipher with a
-- table of 256 bytes and both indices 0, and it returns an error for all other keys.
pub new_cipher_total :
    (key : List ℕ)
    → (((0 < length key) × (length key ≤ 256))
        × (c : Cipher) × (new_cipher key ≡ ok c)
        × (length (c.s) ≡ 256)
        × (c.i ≡ 0)
        × (c.j ≡ 0))
      ⊎ ((length key < 1) ⊎ (256 < length key))
        × (new_cipher key ≡ err "crypto/rc4: invalid key size")
unfolding new_cipher
new_cipher_total key = elim (Bool-cases (ltb (length key) 1 || ltb 256 (length key))) [
  | inl bad ↦ inr (ground (arith, bad), rw bad refl)
  | inr fine ↦
      let pos : 0 < length key = ground (arith, fine) in
      let (s, es, len) = identity_loop_returns 256 0 (replicate 256 0) refl in
      let (t, et, len') = schedule_loop_returns 256 0 0 s key len refl pos in
      inl (
        (pos, ground (arith, fine)),
        record { s = t; i = 0; j = 0 },
        rw (fine, es, et) refl,
        len',
        refl,
        refl,
      )
]
