-- ===== src/Rc4.antt =====
-- stdlib/crypto/rc4/rc4.go. Bytes are numbers, and additions of bytes wrap around at 256.
pub mod Laws
use wasigoc.Common.{
  bit_xor, ℕ, zero, suc, ◌+◌, ◌%◌, List, [], ◌∷◌, ◌++◌, Bool, ltb, ◌||◌, if◌then◌else◌, length,
  replicate,
}
use wasigoc.Common.Outcome.{Outcome, ok, err, panic, ◌>>=◌, or_panic}
use wasigoc.Common.Slices.{load, store}
use wasigoc.Common.Bits.{u8}

pub record Cipher : Type 0 where
  pub s : List ℕ
  pub i : ℕ
  pub j : ℕ

-- `s[i], s[j] = s[j], s[i]`
unfoldable pub swap : List ℕ → ℕ → ℕ → Outcome (List ℕ)
swap s i j = load s i >>= λ a. load s j >>= λ b. store s i b >>= λ s'. store s' j a

-- The loop that fills the table with the bytes in order, with `k` rounds left.
unfoldable pub identity_loop : ℕ → ℕ → List ℕ → Outcome (List ℕ)
identity_loop zero i s = ok s
identity_loop (suc k) i s = store s i (u8 i) >>= λ s'. identity_loop k (i + 1) s'

-- The loop that mixes the key in, with `k` rounds left.
unfoldable pub schedule_loop : ℕ → ℕ → ℕ → List ℕ → List ℕ → Outcome (List ℕ)
schedule_loop zero i j s key = ok s
schedule_loop (suc k) i j s key = load s i >>= λ a. load key (i % length key) >>= λ b.
    (let j' = u8 (u8 (j + a) + b) in swap s i j' >>= λ s'. schedule_loop k (i + 1) j' s' key)

unfoldable pub new_cipher : List ℕ → Outcome Cipher
new_cipher key =
    if ltb (length key) 1 || ltb 256 (length key)
    then err "crypto/rc4: invalid key size"
    else (identity_loop 256 0 (replicate 256 0) >>= λ s.
        schedule_loop 256 0 0 s key >>= λ s'. ok (record { s = s'; i = 0; j = 0 }))

-- The part of a round of XORKeyStream that makes the next byte of the stream.
unfoldable pub next : Cipher → Outcome (ℕ × Cipher)
next c =
    let i' = u8 (c.i + 1) in
    load (c.s) i' >>= λ a.
    (let j' = u8 (c.j + a) in
      swap (c.s) i' j' >>= λ s'. load s' i' >>= λ x. load s' j' >>= λ y.
      load s' (u8 (x + y)) >>= λ key. ok (key, record { s = s'; i = i'; j = j' }))

-- The loop of XORKeyStream over the bytes of `src` that are left.
unfoldable pub xor_loop : Cipher → ℕ → List ℕ → List ℕ → Outcome (List ℕ × Cipher)
xor_loop c k dst [] = ok (dst, c)
xor_loop c k dst (x ∷ src) =
    next c >>= λ (key, c'). store dst k (bit_xor x key) >>= λ dst'. xor_loop c' (k + 1) dst' src

unfoldable pub xor_key_stream : Cipher → List ℕ → List ℕ → Outcome (List ℕ × Cipher)
xor_key_stream c dst src = xor_loop c 0 dst src

unfoldable pub reset : Cipher → Cipher
reset c = record { s = replicate (length (c.s)) 0; i = 0; j = 0 }
