-- ===== src/Crypto/Hmac/Laws.antt =====
-- hmac.go against HMAC by its definition in RFC 2104.
use mathlib.Core.List.{append_assoc, map}
use wasigoc.Common.{
  ℕ, zero, suc, ◌-◌, ◌≤◌, ◌≡◌, refl, sym, ap, ◌∙◌, subst, arith, List, [], ◌∷◌, ◌++◌, if◌then◌else◌,
  leb,
}
use wasigoc.Common.{length, length-append, length-replicate, drop, replicate, bit_xor}
use wasigoc.Common.Outcome.{ok}
use wasigoc.Common.Slices.{store_at}
use wasigoc.Crypto.Md5
use wasigoc.Crypto.Sha1
use wasigoc.Crypto.Sha256
use wasigoc.Crypto.Laws.{length-sums}
use wasigoc.Crypto.Hmac.{copy_loop, xor_loop, block_key, hmac_core, sum_md5, sum_sha1, sum_sha256}

-- RFC 2104: a key of up to a block's length is taken as it is, a longer one is hashed.
abbrev pub rfc_key : ℕ → (List ℕ → List ℕ) → List ℕ → List ℕ
rfc_key block hash key = if leb (length key) block then key else hash key

-- The key of a block's length, with zeros behind it.
abbrev pub full_key : ℕ → (List ℕ → List ℕ) → List ℕ → List ℕ
full_key block hash key = let k = rfc_key block hash key in k ++ replicate (block - length k) 0

-- H(K xor opad, H(K xor ipad, text))
abbrev pub reference : ℕ → (List ℕ → List ℕ) → List ℕ → List ℕ → List ℕ
reference block hash key text =
    let k = full_key block hash key in
    hash (map (λ x. bit_xor x 92) k ++ hash (map (λ x. bit_xor x 54) k ++ text))

xor_loop-map : (c : ℕ) (k : List ℕ) → xor_loop c k ≡ map (λ x. bit_xor x c) k
unfolding xor_loop
xor_loop-map c [] = refl
xor_loop-map c (x ∷ k) = ap (◌∷◌ (bit_xor x c)) (xor_loop-map c k)

copy_loop-fill :
    (k p q : List ℕ)
    → length k ≤ length q
    → copy_loop k (length p) (p ++ q) ≡ ok (p ++ (k ++ drop (length k) q))
unfolding copy_loop
copy_loop-fill [] p q h = refl
copy_loop-fill (x ∷ k) p [] h = absurd (omega (arith, h))
copy_loop-fill (x ∷ k) p (y ∷ q) h =
    let longer : suc (length p) ≡ length (p ++ x ∷ []) = omega (arith, length-append p (x ∷ [])) in
    rw (store_at (length p) p y x q refl) (
      ap (λ i. copy_loop k i (p ++ x ∷ q)) longer
      ∙ ap (copy_loop k (length (p ++ x ∷ []))) (sym (append_assoc p (x ∷ []) q))
      ∙ copy_loop-fill k (p ++ x ∷ []) q (omega (arith, h))
      ∙ ap ok (append_assoc p (x ∷ []) (k ++ drop (length k) q)))

drop-replicate : (m n x : ℕ) → drop m (replicate n x) ≡ replicate (n - m) x
drop-replicate zero n x = (let e : n - 0 ≡ n = omega arith in rw e refl)
drop-replicate (suc m) zero x = (let e : 0 - suc m ≡ 0 = omega arith in rw e refl)
drop-replicate (suc m) (suc n) x =
    (let e : suc n - suc m ≡ n - m = omega arith in rw e (drop-replicate m n x))

rfc_key_fits :
    (block : ℕ) (hash : List ℕ → List ℕ) (key : List ℕ)
    → length (hash key) ≤ block
    → length (rfc_key block hash key) ≤ block
rfc_key_fits block hash key h = ground (arith, h)

-- hmacCore hashes the keys that the RFC says are hashed.
block_key-rfc_key :
    (block : ℕ) (hash : List ℕ → List ℕ) (key : List ℕ)
    → block_key block hash key ≡ rfc_key block hash key
unfolding block_key
block_key-rfc_key block hash key = ground arith

-- For a hash that is no longer than a block, hmacCore computes HMAC.
pub hmac_core-reference :
    (block : ℕ) (hash : List ℕ → List ℕ) (key text : List ℕ)
    → length (hash key) ≤ block
    → hmac_core block hash key text ≡ ok (reference block hash key text)
unfolding hmac_core
hmac_core-reference block hash key text h =
    let k = rfc_key block hash key in
    let copied : copy_loop k 0 (replicate block 0) ≡ ok (full_key block hash key) =
      copy_loop-fill k [] (replicate block 0) (
        subst (λ n. length k ≤ n) (sym (length-replicate {A = ℕ} block 0))
          (rfc_key_fits block hash key h))
      ∙ ap (λ t. ok (k ++ t)) (drop-replicate (length k) block 0) in
    rw
      (
        block_key-rfc_key block hash key,
        copied,
        xor_loop-map 92 (full_key block hash key),
        xor_loop-map 54 (full_key block hash key),
      )
      refl

-- SumMD5, SumSHA1 and SumSHA256 never fail, and give HMAC as RFC 2104 defines it over md5, sha1 and
-- sha256 with blocks of 64 bytes: a key of more than 64 bytes is hashed, one of up to 64 bytes is not.
pub hmac-reference :
    (key text : List ℕ)
    → (sum_md5 key text ≡ ok (reference 64 Md5.sum_of key text))
      × (sum_sha1 key text ≡ ok (reference 64 Sha1.sum_of key text))
      × (sum_sha256 key text ≡ ok (reference 64 Sha256.sum_of key text))
unfolding sum_md5 sum_sha1 sum_sha256
hmac-reference key text =
    let (short_md5, short_sha1, short_sha256) = length-sums key in
    (
      hmac_core-reference 64 Md5.sum_of key text (omega (arith, short_md5)),
      hmac_core-reference 64 Sha1.sum_of key text (omega (arith, short_sha1)),
      hmac_core-reference 64 Sha256.sum_of key text (omega (arith, short_sha256)),
    )
