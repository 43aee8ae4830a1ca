-- ===== src/Crypto/Aes/Inverse.antt =====
-- A block that is encrypted and decrypted under a key.
use wasigoc.Common.{
  ℕ, zero, suc, ◌+◌, ◌-◌, ◌*◌, ◌/◌, ◌%◌, ◌≡◌, ◌≤◌, refl, sym, ap, ◌∙◌, arith, true, ◌==◌, List, [],
  ◌∷◌, ◌++◌,
}
use wasigoc.Common.{
  length, get_or, take, drop, All, All-append, Bool-cases, inl, inr, length-append, length-take,
  take-length_append,
}
use wasigoc.Common.Bits.{IsByte, bit_xor-lt}
use wasigoc.Common.Outcome.{ok, ◌>>=◌}
use wasigoc.Crypto.Aes.{
  rcon, sub_word, join_word, last_word, expand_loop, expand_key, new_cipher, encrypt_block,
  decrypt_block, on_block, encrypt, decrypt,
}
use wasigoc.Crypto.Aes.Laws.{
  IsState, get_or-IsByte, sbox-IsByte, decrypt_block-encrypt_block, length-encrypt_block,
}

pub All-take : (P : ℕ → Type 0) (n : ℕ) (s : List ℕ) → All P s → All P (take n s)
All-take P zero s good = tt
All-take P (suc n) [] good = tt
All-take P (suc n) (x ∷ s) (h, good) = (h, All-take P n s good)

join_word-IsByte :
    (w : List ℕ) (from : ℕ) (word : List ℕ)
    → All IsByte w
    → All IsByte word
    → All IsByte (join_word w from word)
unfolding join_word
join_word-IsByte w from [] good words = tt
join_word-IsByte w from (t ∷ word) good (h, words) = (
  bit_xor-lt 8 (get_or w from 0) t (get_or-IsByte w from good) h,
  join_word-IsByte w (from + 1) word good words,
)

sub_word-IsByte : (round t0 t1 t2 t3 : ℕ) → All IsByte (sub_word round t0 t1 t2 t3)
sub_word-IsByte round t0 t1 t2 t3 = (
  bit_xor-lt 8 _ _ (sbox-IsByte t1) (get_or-IsByte rcon round rcon-IsByte),
  (sbox-IsByte t2, (sbox-IsByte t3, (sbox-IsByte t0, tt))),
)
  where
    rcon-IsByte : All IsByte rcon
    rcon-IsByte = omega arith

last_word-IsByte : (w : List ℕ) (i : ℕ) → All IsByte w → All IsByte (last_word w i)
last_word-IsByte w i good = elim (Bool-cases (i % 4 == 0)) [
  | inl first ↦ rw first (sub_word-IsByte (i / 4 - 1) _ _ _ _)
  | inr other ↦ rw other (
    get_or-IsByte w ((i - 1) * 4) good,
    (
      get_or-IsByte w ((i - 1) * 4 + 1) good,
      (get_or-IsByte w ((i - 1) * 4 + 2) good, (get_or-IsByte w ((i - 1) * 4 + 3) good, tt)),
    ),
  )
]

expand_loop-IsByte : (count i : ℕ) (w : List ℕ) → All IsByte w → All IsByte (expand_loop count i w)
unfolding expand_loop
expand_loop-IsByte zero i w good = good
expand_loop-IsByte (suc count) i w good = expand_loop-IsByte count (i + 1) _ (
    All-append IsByte w (join_word w ((i - 4) * 4) (last_word w i)) good
      (join_word-IsByte w ((i - 4) * 4) (last_word w i) good (last_word-IsByte w i good)))

expand_key-IsByte : (key : List ℕ) → All IsByte key → All IsByte (expand_key key)
unfolding expand_key
expand_key-IsByte key good = expand_loop-IsByte 40 4 (take 16 key) (All-take IsByte 16 key good)

on_block-ok :
    (f : List ℕ → List ℕ) (dst src : List ℕ)
    → 16 ≤ length src
    → 16 ≤ length dst
    → on_block f dst src ≡ ok (f (take 16 src) ++ drop 16 dst)
unfolding on_block
on_block-ok f dst src h k = ground (arith, h, k)

-- Decrypt takes back what Encrypt does under the cipher of a key of 16 bytes, where the source, the
-- destination and that of Decrypt have 16 bytes at least: it gives the first 16 bytes of the source,
-- and leaves what stands behind 16 bytes in its destination.
pub decrypt-encrypt :
    (key dst plain back : List ℕ)
    → IsState key
    → All IsByte plain
    → 16 ≤ length plain
    → 16 ≤ length dst
    → 16 ≤ length back
    → (new_cipher key >>= λ cipher. encrypt cipher dst plain >>= λ coded. decrypt cipher back coded)
      ≡ ok (take 16 plain ++ drop 16 back)
unfolding new_cipher encrypt decrypt
decrypt-encrypt key dst plain back (len, good) bytes h k l =
    let keys = expand_key key in
    let good_keys = expand_key-IsByte key good in
    let whole : (length key == 16) ≡ true = ground (arith, len) in
    let block = take 16 plain in
    let coded = encrypt_block keys block in
    let size : length coded ≡ 16 = length-encrypt_block keys good_keys block in
    let first : take 16 (coded ++ drop 16 dst) ≡ coded =
      ap (λ n. take n (coded ++ drop 16 dst)) (sym size) ∙ take-length_append coded (drop 16 dst) in
    let state : IsState block =
      (omega (arith, length-take 16 plain, h), All-take IsByte 16 plain bytes) in
    rw (whole, on_block-ok (encrypt_block keys) dst plain h k)
      (on_block-ok (decrypt_block keys) back (coded ++ drop 16 dst)
          (omega (arith, size, length-append coded (drop 16 dst))) l
        ∙ rw first (rw (decrypt_block-encrypt_block keys good_keys block state) refl))
