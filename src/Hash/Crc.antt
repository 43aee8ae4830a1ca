-- ===== src/Hash/Crc.antt =====
-- What hash/crc32 and hash/crc64 share: the table of a reflected polynomial and the loop that
-- takes one byte a round. The polynomial and the table are arguments.
pub mod Reference
pub mod Detect
use wasigoc.Common.{
  ℕ, zero, suc, ◌+◌, ◌/◌, ◌%◌, List, [], ◌∷◌, ◌++◌, ◌≡◌, refl, bit_and, bit_xor, ◌==◌,
}
use wasigoc.Common.{if◌then◌else◌, get_elem?, set, replicate}
use wasigoc.Common.Bits.{u8}
use wasigoc.Common.Outcome.{Outcome, ok, err, panic, ◌>>=◌, or_panic}

-- The body of the inner loop: one bit.
pub round : ℕ → ℕ → ℕ
round poly crc = if bit_and crc 1 == 1 then bit_xor (crc / 2) poly else crc / 2

-- `n` rounds of the inner loop.
pub rounds : ℕ → ℕ → ℕ → ℕ
rounds poly zero crc = crc
rounds poly (suc n) crc = rounds poly n (round poly crc)

-- The outer loop, with `n` entries left from `i` on.
pub fill : ℕ → ℕ → ℕ → List ℕ → List ℕ
fill poly zero i t = t
fill poly (suc n) i t = fill poly n (i + 1) (set t i (rounds poly 8 i))

pub make_table : ℕ → List ℕ
make_table poly = fill poly 256 0 (replicate 256 0)

-- `crc = tab[byte(crc)^b] ^ (crc >> 8)`
pub update : List ℕ → ℕ → ℕ → Outcome ℕ
update tab crc b = do e ← or_panic (get_elem? tab (bit_xor (u8 crc) b)); ok (bit_xor e (crc / 256))

pub absorb : List ℕ → ℕ → List ℕ → Outcome ℕ
absorb tab crc [] = ok crc
absorb tab crc (b ∷ rest) = do next ← update tab crc b; absorb tab next rest

-- A run over two parts is a run over the first, and one over the second from there.
pub absorb-append :
    (tab : List ℕ) (crc : ℕ) (p q : List ℕ)
    → absorb tab crc (p ++ q) ≡ (absorb tab crc p >>= λ next. absorb tab next q)
unfolding absorb
absorb-append tab crc [] q = refl
absorb-append tab crc (b ∷ p) q = step (update tab crc b) (λ next. absorb-append tab next p q)
  where
    step :
        (r : Outcome ℕ)
        → ((next : ℕ) → absorb tab next (p ++ q) ≡ (absorb tab next p >>= λ c. absorb tab c q))
        → (r >>= λ next. absorb tab next (p ++ q))
          ≡ (r >>= (λ next. absorb tab next p) >>= λ c. absorb tab c q)
    step (ok a) ih = ih a
    step (err e) ih = refl
    step panic ih = refl
