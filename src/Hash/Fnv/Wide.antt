-- ===== src/Hash/Fnv/Wide.antt =====
-- fnv.go at 64 bits: a digest of bytes stays in its width, may be fed in parts, and tells two messages apart
-- that differ in one byte.
use wasigoc.Common.{
  ℕ, ◌*◌, ◌^◌, ◌<◌, ◌≡◌, ◌≢◌, refl, sym, ◌∙◌, ap, arith, List, [], ◌∷◌, ◌++◌, All, bit_xor,
}
use wasigoc.Common.{length-append}
use wasigoc.Common.Bits.{IsByte, u64, bit_xor-lt, xor_right_injective, xor_left_injective}
use wasigoc.Hash.Interface.{Hash, IsHash, append_eight_shape}
use wasigoc.Hash.Fnv.{
  prime64, Digest64, absorb64, write64, reset64, sum64, Digest64a, absorb64a, write64a, reset64a,
  sum64a,
}

-- The prime is odd, so a multiplication modulo 2^64 can be undone.
undo64 : (x : ℕ) → x < 2 ^ 64 → u64 (u64 (x * prime64) * 14886173955864302971) ≡ x
undo64 x h = omega arith

mul64_injective :
    (x y : ℕ) → x < 2 ^ 64 → y < 2 ^ 64 → u64 (x * prime64) ≡ u64 (y * prime64) → x ≡ y
mul64_injective x y h k e =
    sym (undo64 x h) ∙ ap (λ (t : ℕ). u64 (t * 14886173955864302971)) e ∙ undo64 y k

round64-lt : (h x : ℕ) → IsByte x → bit_xor (u64 (h * prime64)) x < 2 ^ 64
round64-lt h x l = bit_xor-lt 64 (u64 (h * prime64)) x (omega arith) (omega arith)

absorb64_injective :
    (h k : ℕ) (p : List ℕ)
    → h < 2 ^ 64
    → k < 2 ^ 64
    → All IsByte p
    → absorb64 h p ≡ absorb64 k p
    → h ≡ k
unfolding absorb64
absorb64_injective h k [] hh hk b e = e
absorb64_injective h k (x ∷ p) hh hk b e = mul64_injective h k hh hk (
    xor_right_injective _ _ x (
      absorb64_injective (bit_xor (u64 (h * prime64)) x) (bit_xor (u64 (k * prime64)) x) p
        (round64-lt h x b.0) (round64-lt k x b.0) b.1 e))

-- From any state of 64 bits, two messages of bytes that differ in exactly one byte leave different
-- states of the FNV-1 digest of 64 bits.
pub fnv64_detects :
    (h x y : ℕ) (p q : List ℕ)
    → h < 2 ^ 64
    → All IsByte p
    → All IsByte q
    → IsByte x
    → IsByte y
    → x ≢ y
    → absorb64 h (p ++ x ∷ q) ≢ absorb64 h (p ++ y ∷ q)
unfolding absorb64
fnv64_detects h x y [] q hh hp hq hx hy ne e = ne (
    xor_left_injective x y _ (
      absorb64_injective (bit_xor (u64 (h * prime64)) x) (bit_xor (u64 (h * prime64)) y) q
        (round64-lt h x hx) (round64-lt h y hy) hq e))
fnv64_detects h x y (z ∷ p) q hh hp hq hx hy ne e =
    fnv64_detects (bit_xor (u64 (h * prime64)) z) x y p q (round64-lt h z hp.0) hp.1 hq hx hy ne e

absorb64-append : (h : ℕ) (p q : List ℕ) → absorb64 h (p ++ q) ≡ absorb64 (absorb64 h p) q
unfolding absorb64
absorb64-append h [] q = refl
absorb64-append h (x ∷ p) q = absorb64-append (bit_xor (u64 (h * prime64)) x) p q

abbrev pub hash64 : Hash
hash64 = record {
  State = Digest64;
  write = write64;
  sum = sum64;
  reset = reset64;
  size = λ s. 8;
  block_size = λ s. 1;
}

-- The FNV-1 digest of 64 bits meets the interface of hash.go in every state: a write never fails
-- and may be cut anywhere, `Sum` appends its 8 bytes, `Reset` forgets the data.
pub fnv64-IsHash : IsHash hash64 (λ s. Unit)
unfolding write64 reset64 sum64
fnv64-IsHash = record {
  write_total = λ s p v h. (_, refl, tt, refl);
  write-append = λ s p q. rw (length-append p q, absorb64-append s.hash p q);
  sum_shape = λ s b. append_eight_shape b s.hash;
  reset-IsValid = λ s v. tt;
}

round64a-lt : (h x : ℕ) → IsByte x → u64 (bit_xor h x * prime64) < 2 ^ 64
round64a-lt h x l = omega arith

absorb64a_injective :
    (h k : ℕ) (p : List ℕ)
    → h < 2 ^ 64
    → k < 2 ^ 64
    → All IsByte p
    → absorb64a h p ≡ absorb64a k p
    → h ≡ k
unfolding absorb64a
absorb64a_injective h k [] hh hk b e = e
absorb64a_injective h k (x ∷ p) hh hk b e = xor_right_injective h k x (
    mul64_injective _ _ (bit_xor-lt 64 h x hh (omega arith)) (bit_xor-lt 64 k x hk (omega arith)) (
      absorb64a_injective (u64 (bit_xor h x * prime64)) (u64 (bit_xor k x * prime64)) p
        (round64a-lt h x b.0) (round64a-lt k x b.0) b.1 e))

-- From any state of 64 bits, two messages of bytes that differ in exactly one byte leave different
-- states of the FNV-1a digest of 64 bits.
pub fnv64a_detects :
    (h x y : ℕ) (p q : List ℕ)
    → h < 2 ^ 64
    → All IsByte p
    → All IsByte q
    → IsByte x
    → IsByte y
    → x ≢ y
    → absorb64a h (p ++ x ∷ q) ≢ absorb64a h (p ++ y ∷ q)
unfolding absorb64a
fnv64a_detects h x y [] q hh hp hq hx hy ne e = ne (
    xor_left_injective x y h (
      mul64_injective _ _ (bit_xor-lt 64 h x hh (omega arith)) (bit_xor-lt 64 h y hh (omega arith))
        (absorb64a_injective (u64 (bit_xor h x * prime64)) (u64 (bit_xor h y * prime64)) q
          (round64a-lt h x hx) (round64a-lt h y hy) hq e)))
fnv64a_detects h x y (z ∷ p) q hh hp hq hx hy ne e =
    fnv64a_detects (u64 (bit_xor h z * prime64)) x y p q (round64a-lt h z hp.0) hp.1 hq hx hy ne e

absorb64a-append : (h : ℕ) (p q : List ℕ) → absorb64a h (p ++ q) ≡ absorb64a (absorb64a h p) q
unfolding absorb64a
absorb64a-append h [] q = refl
absorb64a-append h (x ∷ p) q = absorb64a-append (u64 (bit_xor h x * prime64)) p q

abbrev pub hash64a : Hash
hash64a = record {
  State = Digest64a;
  write = write64a;
  sum = sum64a;
  reset = reset64a;
  size = λ s. 8;
  block_size = λ s. 1;
}

-- The FNV-1a digest of 64 bits meets the interface of hash.go in every state: a write never fails
-- and may be cut anywhere, `Sum` appends its 8 bytes, `Reset` forgets the data.
pub fnv64a-IsHash : IsHash hash64a (λ s. Unit)
unfolding write64a reset64a sum64a
fnv64a-IsHash = record {
  write_total = λ s p v h. (_, refl, tt, refl);
  write-append = λ s p q. rw (length-append p q, absorb64a-append s.hash p q);
  sum_shape = λ s b. append_eight_shape b s.hash;
  reset-IsValid = λ s v. tt;
}
