-- ===== src/Hash/Fnv/Narrow.antt =====
-- fnv.go at 32 bits: a digest of bytes stays in its width, may be fed in parts, and tells two messages apart
-- that differ in one byte.
use wasigoc.Common.{
  ℕ, ◌*◌, ◌^◌, ◌<◌, ◌≡◌, ◌≢◌, refl, sym, ◌∙◌, ap, arith, List, [], ◌∷◌, ◌++◌, All, bit_xor,
}
use wasigoc.Common.{length-append}
use wasigoc.Common.Bits.{IsByte, u32, bit_xor-lt, xor_right_injective, xor_left_injective}
use wasigoc.Hash.Interface.{Hash, IsHash, append_four_shape}
use wasigoc.Hash.Fnv.{
  prime32, Digest32, absorb32, write32, reset32, sum32, Digest32a, absorb32a, write32a, reset32a,
  sum32a,
}

-- The prime is odd, so a multiplication modulo 2^32 can be undone.
undo32 : (x : ℕ) → x < 2 ^ 32 → u32 (u32 (x * prime32) * 899433627) ≡ x
undo32 x h = omega arith

mul32_injective :
    (x y : ℕ) → x < 2 ^ 32 → y < 2 ^ 32 → u32 (x * prime32) ≡ u32 (y * prime32) → x ≡ y
mul32_injective x y h k e = sym (undo32 x h) ∙ ap (λ (t : ℕ). u32 (t * 899433627)) e ∙ undo32 y k

round32-lt : (h x : ℕ) → IsByte x → bit_xor (u32 (h * prime32)) x < 2 ^ 32
round32-lt h x l = bit_xor-lt 32 (u32 (h * prime32)) x (omega arith) (omega arith)

absorb32_injective :
    (h k : ℕ) (p : List ℕ)
    → h < 2 ^ 32
    → k < 2 ^ 32
    → All IsByte p
    → absorb32 h p ≡ absorb32 k p
    → h ≡ k
unfolding absorb32
absorb32_injective h k [] hh hk b e = e
absorb32_injective h k (x ∷ p) hh hk b e = mul32_injective h k hh hk (
    xor_right_injective _ _ x (
      absorb32_injective (bit_xor (u32 (h * prime32)) x) (bit_xor (u32 (k * prime32)) x) p
        (round32-lt h x b.0) (round32-lt k x b.0) b.1 e))

-- From any state of 32 bits, two messages of bytes that differ in exactly one byte leave different
-- states of the FNV-1 digest of 32 bits.
pub fnv32_detects :
    (h x y : ℕ) (p q : List ℕ)
    → h < 2 ^ 32
    → All IsByte p
    → All IsByte q
    → IsByte x
    → IsByte y
    → x ≢ y
    → absorb32 h (p ++ x ∷ q) ≢ absorb32 h (p ++ y ∷ q)
unfolding absorb32
fnv32_detects h x y [] q hh hp hq hx hy ne e = ne (
    xor_left_injective x y _ (
      absorb32_injective (bit_xor (u32 (h * prime32)) x) (bit_xor (u32 (h * prime32)) y) q
        (round32-lt h x hx) (round32-lt h y hy) hq e))
fnv32_detects h x y (z ∷ p) q hh hp hq hx hy ne e =
    fnv32_detects (bit_xor (u32 (h * prime32)) z) x y p q (round32-lt h z hp.0) hp.1 hq hx hy ne e

absorb32-append : (h : ℕ) (p q : List ℕ) → absorb32 h (p ++ q) ≡ absorb32 (absorb32 h p) q
unfolding absorb32
absorb32-append h [] q = refl
absorb32-append h (x ∷ p) q = absorb32-append (bit_xor (u32 (h * prime32)) x) p q

abbrev pub hash32 : Hash
hash32 = record {
  State = Digest32;
  write = write32;
  sum = sum32;
  reset = reset32;
  size = λ s. 4;
  block_size = λ s. 1;
}

-- The FNV-1 digest of 32 bits meets the interface of hash.go in every state: a write never fails
-- and may be cut anywhere, `Sum` appends its 4 bytes, `Reset` forgets the data.
pub fnv32-IsHash : IsHash hash32 (λ s. Unit)
unfolding write32 reset32 sum32
fnv32-IsHash = record {
  write_total = λ s p v h. (_, refl, tt, refl);
  write-append = λ s p q. rw (length-append p q, absorb32-append s.hash p q);
  sum_shape = λ s b. append_four_shape b s.hash;
  reset-IsValid = λ s v. tt;
}

round32a-lt : (h x : ℕ) → IsByte x → u32 (bit_xor h x * prime32) < 2 ^ 32
round32a-lt h x l = omega arith

absorb32a_injective :
    (h k : ℕ) (p : List ℕ)
    → h < 2 ^ 32
    → k < 2 ^ 32
    → All IsByte p
    → absorb32a h p ≡ absorb32a k p
    → h ≡ k
unfolding absorb32a
absorb32a_injective h k [] hh hk b e = e
absorb32a_injective h k (x ∷ p) hh hk b e = xor_right_injective h k x (
    mul32_injective _ _ (bit_xor-lt 32 h x hh (omega arith)) (bit_xor-lt 32 k x hk (omega arith)) (
      absorb32a_injective (u32 (bit_xor h x * prime32)) (u32 (bit_xor k x * prime32)) p
        (round32a-lt h x b.0) (round32a-lt k x b.0) b.1 e))

-- From any state of 32 bits, two messages of bytes that differ in exactly one byte leave different
-- states of the FNV-1a digest of 32 bits.
pub fnv32a_detects :
    (h x y : ℕ) (p q : List ℕ)
    → h < 2 ^ 32
    → All IsByte p
    → All IsByte q
    → IsByte x
    → IsByte y
    → x ≢ y
    → absorb32a h (p ++ x ∷ q) ≢ absorb32a h (p ++ y ∷ q)
unfolding absorb32a
fnv32a_detects h x y [] q hh hp hq hx hy ne e = ne (
    xor_left_injective x y h (
      mul32_injective _ _ (bit_xor-lt 32 h x hh (omega arith)) (bit_xor-lt 32 h y hh (omega arith))
        (absorb32a_injective (u32 (bit_xor h x * prime32)) (u32 (bit_xor h y * prime32)) q
          (round32a-lt h x hx) (round32a-lt h y hy) hq e)))
fnv32a_detects h x y (z ∷ p) q hh hp hq hx hy ne e =
    fnv32a_detects (u32 (bit_xor h z * prime32)) x y p q (round32a-lt h z hp.0) hp.1 hq hx hy ne e

absorb32a-append : (h : ℕ) (p q : List ℕ) → absorb32a h (p ++ q) ≡ absorb32a (absorb32a h p) q
unfolding absorb32a
absorb32a-append h [] q = refl
absorb32a-append h (x ∷ p) q = absorb32a-append (u32 (bit_xor h x * prime32)) p q

abbrev pub hash32a : Hash
hash32a = record {
  State = Digest32a;
  write = write32a;
  sum = sum32a;
  reset = reset32a;
  size = λ s. 4;
  block_size = λ s. 1;
}

-- The FNV-1a digest of 32 bits meets the interface of hash.go in every state: a write never fails
-- and may be cut anywhere, `Sum` appends its 4 bytes, `Reset` forgets the data.
pub fnv32a-IsHash : IsHash hash32a (λ s. Unit)
unfolding write32a reset32a sum32a
fnv32a-IsHash = record {
  write_total = λ s p v h. (_, refl, tt, refl);
  write-append = λ s p q. rw (length-append p q, absorb32a-append s.hash p q);
  sum_shape = λ s b. append_four_shape b s.hash;
  reset-IsValid = λ s v. tt;
}
