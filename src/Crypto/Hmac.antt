-- ===== src/Crypto/Hmac.antt =====
-- stdlib/crypto/hmac/hmac.go.
pub mod Laws
use wasigoc.Common.{
  ℕ, zero, suc, ◌+◌, List, [], ◌∷◌, ◌++◌, Bool, true, false, ◌==◌, ltb, not, if◌then◌else◌, bit_xor,
}
use wasigoc.Common.{length, replicate}
use wasigoc.Common.Outcome.{Outcome, ok, ◌>>=◌}
use wasigoc.Common.Slices.{store}
use wasigoc.Crypto.Md5
use wasigoc.Crypto.Sha1
use wasigoc.Crypto.Sha256

-- `padded[i] = k[i]`, from `i` on.
pub copy_loop : List ℕ → ℕ → List ℕ → Outcome (List ℕ)
copy_loop [] i padded = ok padded
copy_loop (x ∷ k) i padded = store padded i x >>= λ padded'. copy_loop k (suc i) padded'

-- One of the two loops `ipad[i] = padded[i] ^ 0x36`.
pub xor_loop : ℕ → List ℕ → List ℕ
xor_loop c [] = []
xor_loop c (x ∷ padded) = bit_xor x c ∷ xor_loop c padded

-- A key that is longer than a block is hashed.
pub block_key : ℕ → (List ℕ → List ℕ) → List ℕ → List ℕ
block_key block_size hash_fn key = if ltb block_size (length key) then hash_fn key else key

pub hmac_core : ℕ → (List ℕ → List ℕ) → List ℕ → List ℕ → Outcome (List ℕ)
hmac_core block_size hash_fn key message =
    copy_loop (block_key block_size hash_fn key) 0 (replicate block_size 0) >>= λ padded.
    ok (hash_fn (xor_loop 92 padded ++ hash_fn (xor_loop 54 padded ++ message)))

pub sum_md5 : List ℕ → List ℕ → Outcome (List ℕ)
sum_md5 key message = hmac_core 64 Md5.sum_of key message

pub sum_sha1 : List ℕ → List ℕ → Outcome (List ℕ)
sum_sha1 key message = hmac_core 64 Sha1.sum_of key message

pub sum_sha256 : List ℕ → List ℕ → Outcome (List ℕ)
sum_sha256 key message = hmac_core 64 Sha256.sum_of key message

pub equal_loop : List ℕ → List ℕ → Bool
equal_loop [] mac2 = true
equal_loop (x ∷ mac1) [] = false
equal_loop (x ∷ mac1) (y ∷ mac2) = if not (x == y) then false else equal_loop mac1 mac2

pub equal : List ℕ → List ℕ → Bool
equal mac1 mac2 = if not (length mac1 == length mac2) then false else equal_loop mac1 mac2
