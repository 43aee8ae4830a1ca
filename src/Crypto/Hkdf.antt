-- ===== src/Crypto/Hkdf.antt =====
-- stdlib/crypto/hkdf/hkdf.go. A length is an int of Go, which may be negative.
pub mod Laws
use wasigoc.Common.{
  ℕ, zero, suc, ◌+◌, List, [], ◌∷◌, ◌++◌, ◌==◌, ltb, if◌then◌else◌, length, take, replicate,
}
use wasigoc.Common.Int.{ℤ, pos, negsuc}
use wasigoc.Common.Outcome.{Outcome, ok, panic, ◌>>=◌}
use wasigoc.Common.Bits.{u8}
use wasigoc.Crypto.Hmac.{sum_sha256}

pub extract : List ℕ → List ℕ → Outcome (List ℕ)
extract salt ikm = sum_sha256 (if length salt == 0 then replicate 32 0 else salt) ikm

-- The loop of Expand on fuel, until there are `n` bytes.
pub expand_loop : ℕ → List ℕ → List ℕ → ℕ → List ℕ → List ℕ → ℕ → Outcome (List ℕ)
expand_loop zero prk info n out prev i = panic
expand_loop (suc fuel) prk info n out prev i =
    let longer : Outcome (List ℕ) = sum_sha256 prk ((prev ++ info) ++ i ∷ []) >>= λ prev'.
    expand_loop fuel prk info n (out ++ prev') prev' (u8 (i + 1)) in
    if ltb (length out) n then longer else ok out

-- `out[0:length]`: behind the loop `out` has at least that many bytes, so its capacity never matters.
pub up_to : List ℕ → ℤ → Outcome (List ℕ)
up_to out (pos n) = if ltb (length out) n then panic else ok (take n out)
up_to out (negsuc n) = panic

-- A round adds bytes: `n` rounds and one more are enough for `n` bytes. For a negative length no
-- round runs.
pub expand : List ℕ → List ℕ → ℤ → Outcome (List ℕ)
expand prk info (pos n) = expand_loop (n + 1) prk info n [] [] 1 >>= λ out. up_to out (pos n)
expand prk info (negsuc n) = up_to [] (negsuc n)

pub sum : List ℕ → List ℕ → List ℕ → ℤ → Outcome (List ℕ)
sum secret salt info n = extract salt secret >>= λ prk. expand prk info n
