-- ===== src/Crypto/Hkdf/Laws.antt =====
-- Sum of hkdf.go against HKDF by its definition in RFC 5869.
use wasigoc.Common.{
  ℕ, zero, suc, ◌+◌, ◌*◌, ◌/◌, ◌≤◌, ◌≡◌, refl, ap, ◌∙◌, arith, List, [], ◌∷◌, ◌++◌, length,
  length-append, length-take, take, replicate, true, false, ◌==◌, ltb,
}
use wasigoc.Common.Int.{pos, negsuc}
use wasigoc.Common.Outcome.{ok, panic}
use wasigoc.Common.Bits.{u8}
use wasigoc.Crypto.Sha256
use wasigoc.Crypto.Laws.{length-sums}
use wasigoc.Crypto.Hmac.{sum_sha256}
use wasigoc.Crypto.Hmac.Laws.{reference, hmac-reference}
use wasigoc.Crypto.Hkdf.{extract, expand_loop, up_to, expand, sum}

-- HMAC-Hash(key, text) of the RFC.
abbrev pub hmac : List ℕ → List ℕ → List ℕ
hmac key text = reference 64 Sha256.sum_of key text

-- A salt that is not given is a string of zeros of the hash's length.
abbrev pub rfc_salt : List ℕ → List ℕ
rfc_salt [] = replicate 32 0
rfc_salt (x ∷ salt) = x ∷ salt

-- T(0) is empty, T(i + 1) = HMAC-Hash(PRK, T(i) | info | i + 1)
unfoldable pub block : List ℕ → List ℕ → ℕ → List ℕ
block prk info zero = []
block prk info (suc i) = hmac prk ((block prk info i ++ info) ++ suc i ∷ [])

-- T(1) | T(2) | ... | T(m)
unfoldable pub blocks : List ℕ → List ℕ → ℕ → List ℕ
blocks prk info zero = []
blocks prk info (suc m) = blocks prk info m ++ block prk info (suc m)

-- HKDF-Expand: the first `n` bytes of the blocks 1 to n / 32, rounded up.
abbrev pub rfc_expand : List ℕ → List ℕ → ℕ → List ℕ
rfc_expand prk info n = take n (blocks prk info ((n + 31) / 32))

-- HKDF: Expand over what Extract, HMAC-Hash(salt, IKM), gives.
abbrev pub hkdf : List ℕ → List ℕ → List ℕ → ℕ → List ℕ
hkdf secret salt info n = rfc_expand (hmac (rfc_salt salt) secret) info n

hashed : (key text : List ℕ) → sum_sha256 key text ≡ ok (hmac key text)
hashed key text = (hmac-reference key text).2

length-blocks : (prk info : List ℕ) (m : ℕ) → length (blocks prk info m) ≡ 32 * m
unfolding blocks block
length-blocks prk info zero = refl
length-blocks prk info (suc m) =
    let last = hmac prk ((block prk info m ++ info) ++ suc m ∷ []) in
    let size : length last ≡ 32 = (length-sums _).2 in
    omega (arith, length-append (blocks prk info m) last, length-blocks prk info m, size)

-- One round.
expand_loop-round :
    (fuel : ℕ) (prk info : List ℕ) (n : ℕ) (out prev : List ℕ) (i : ℕ)
    → ltb (length out) n ≡ true
    → expand_loop (suc fuel) prk info n out prev i
      ≡ expand_loop fuel prk info n
          (out ++ hmac prk ((prev ++ info) ++ i ∷ []))
          (hmac prk ((prev ++ info) ++ i ∷ []))
          (u8 (i + 1))
unfolding expand_loop
expand_loop-round fuel prk info n out prev i short =
    rw (short, hashed prk ((prev ++ info) ++ i ∷ [])) refl

expand_loop-done :
    (fuel : ℕ) (prk info : List ℕ) (n : ℕ) (out prev : List ℕ) (i : ℕ)
    → ltb (length out) n ≡ false
    → expand_loop (suc fuel) prk info n out prev i ≡ ok out
unfolding expand_loop
expand_loop-done fuel prk info n out prev i long = rw long refl

-- From `j` blocks on, `k` more rounds give the blocks that are missing: the counter does not wrap
-- around before the last one is made.
expand_loop-blocks :
    (k fuel : ℕ) (prk info : List ℕ) (n j i : ℕ)
    → j + k ≡ (n + 31) / 32
    → n ≤ 8160
    → i ≡ u8 (suc j)
    → k ≤ fuel
    → expand_loop (suc fuel) prk info n (blocks prk info j) (block prk info j) i
      ≡ ok (blocks prk info ((n + 31) / 32))
unfolding blocks block
expand_loop-blocks zero fuel prk info n j i e bound c enough =
    let size = length-blocks prk info j in
    let all : j ≡ (n + 31) / 32 = omega (arith, e) in
    expand_loop-done fuel prk info n (blocks prk info j) (block prk info j) i
      (ground (arith, size, e))
    ∙ ap (λ m. ok (blocks prk info m)) all
expand_loop-blocks (suc k) zero prk info n j i e bound c enough = absurd (omega (arith, enough))
expand_loop-blocks (suc k) (suc fuel) prk info n j i e bound c enough =
    let size = length-blocks prk info j in
    let counter : i ≡ suc j = omega (arith, e, bound, c) in
    expand_loop-round (suc fuel) prk info n (blocks prk info j) (block prk info j) i
      (ground (arith, size, e))
    ∙ rw counter (
        expand_loop-blocks k fuel prk info n (suc j) (u8 (suc j + 1)) (omega (arith, e)) bound
          (omega arith) (omega (arith, enough)))

expand-rfc_expand :
    (prk info : List ℕ) (n : ℕ) → n ≤ 8160 → expand prk info (pos n) ≡ ok (rfc_expand prk info n)
unfolding expand up_to blocks block
expand-rfc_expand prk info n bound =
    let m = (n + 31) / 32 in
    let ends : expand_loop (suc n) prk info n [] [] 1 ≡ ok (blocks prk info m) =
      expand_loop-blocks m n prk info n 0 1 (omega arith) bound refl (omega arith) in
    let fuel : n + 1 ≡ suc n = omega arith in
    let size = length-blocks prk info m in
    let long : ltb (length (blocks prk info m)) n ≡ false = ground (arith, size) in
    rw (fuel, ends, long) refl

length-rfc_expand : (prk info : List ℕ) (n : ℕ) → length (rfc_expand prk info n) ≡ n
length-rfc_expand prk info n =
    let all = blocks prk info ((n + 31) / 32) in
    omega (arith, length-take n all, length-blocks prk info ((n + 31) / 32))

extract-hmac : (salt secret : List ℕ) → extract salt secret ≡ ok (hmac (rfc_salt salt) secret)
unfolding extract
extract-hmac [] secret = hashed (replicate 32 0) secret
extract-hmac (x ∷ salt) secret =
    let given : (suc (length salt) == 0) ≡ false = ground arith in
    rw given (hashed (x ∷ salt) secret)

-- Sum of a length of up to 255 blocks, 8,160 bytes, never fails and gives HKDF with SHA-256 as RFC
-- 5869 defines it, which is as many bytes as it is asked for; Sum of a negative length panics.
pub hkdf_sum-hkdf :
    (secret salt info : List ℕ) (n m : ℕ)
    → n ≤ 8160
    → (sum secret salt info (pos n) ≡ ok (hkdf secret salt info n))
      × (length (hkdf secret salt info n) ≡ n)
      × (sum secret salt info (negsuc m) ≡ panic)
unfolding sum expand up_to
hkdf_sum-hkdf secret salt info n m bound =
    let prk = hmac (rfc_salt salt) secret in
    (
      rw (extract-hmac salt secret) (expand-rfc_expand prk info n bound),
      length-rfc_expand prk info n,
      rw (extract-hmac salt secret) refl,
    )
