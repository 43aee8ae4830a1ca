-- ===== src/Crypto/Des/Inverse.antt =====
-- Blocks as bytes and as numbers, and a block that is encrypted and decrypted under a key.
use native.Mathlib.Nat.{
  pow-suc, one-le-pow, div-one, div-div-eq-div-mul, mul_comm, div-add-mod, mod-lt, mul-le-mul_right,
  mul-le-mul_left, div-eq_of_lt-le,
}
use mathlib.Core.List.{append-nil}
use wasigoc.Crypto.Aes.Inverse.{All-take}
use wasigoc.Common.{
  ℕ, zero, suc, ◌+◌, ◌*◌, ◌/◌, ◌%◌, ◌^◌, ◌≡◌, ◌≤◌, ◌<◌, refl, sym, ap, ◌∙◌, subst, arith, true,
  ◌==◌, List, [], ◌∷◌, ◌++◌, foldl, dec_lt,
}
use wasigoc.Common.{length, take, drop, All, length-append, length-take, take-length_append}
use wasigoc.Common.Bits.{u8, u64, IsByte, bit_or_fields}
use wasigoc.Common.Outcome.{ok, ◌>>=◌}
use wasigoc.Crypto.Des.{
  subkeys, new_cipher, des_crypt, shift_in, bytes_to_block, block_to_bytes, on_block, encrypt,
  decrypt, reversed,
}
use wasigoc.Crypto.Des.Laws.{des_crypt-des_crypt, des_crypt-lt}

-- The number of the bytes behind `v`, without a wrap.
abbrev joined : ℕ → List ℕ → ℕ
joined v [] = v
joined v (b ∷ bytes) = joined (v * 256 + b) bytes

joined-div : (v : ℕ) (bytes : List ℕ) → All IsByte bytes → joined v bytes / 256 ^ length bytes ≡ v
joined-div v [] good = div-one v
joined-div v (b ∷ bytes) (h, good) =
    let all = joined (v * 256 + b) bytes in
    ap (λ w. all / w) (pow-suc 256 (length bytes))
    ∙ sym (div-div-eq-div-mul all (256 ^ length bytes) 256)
    ∙ ap (λ q. q / 256) (joined-div (v * 256 + b) bytes good)
    ∙ omega (arith, h)

room :
    (v b width total : ℕ)
    → b < 256
    → 1 ≤ width
    → (v + 1) * (width * 256) ≤ total
    → ((v * 256 + b + 1) * width ≤ total) × (v * 256 + 256 ≤ total)
room v b width total h k fits =
    let inner : (v * 256 + b + 1) * width ≤ (v * 256 + 256) * width =
      mul-le-mul_right width (omega (arith, h)) in
    (omega (arith, fits, inner), omega (arith, k, fits, mul-le-mul_left (v + 1) k))

foldl-joined :
    (v : ℕ) (bytes : List ℕ)
    → All IsByte bytes
    → (v + 1) * 256 ^ length bytes ≤ 2 ^ 64
    → foldl shift_in v bytes ≡ joined v bytes
foldl-joined v [] good fits = refl
foldl-joined v (b ∷ bytes) (h, good) fits =
    let (fits', less) =
      room v b (256 ^ length bytes) (2 ^ 64) h (one-le-pow (length bytes) 256 (omega arith))
        (subst (λ w. (v + 1) * w ≤ 2 ^ 64) (pow-suc 256 (length bytes)) fits) in
    let whole : u64 (v * 2 ^ 8) ≡ v * 2 ^ 8 = omega (arith, less) in
    let next : shift_in v b ≡ v * 256 + b = rw whole (bit_or_fields 8 v b h) in
    ap (λ w. foldl shift_in w bytes) next ∙ foldl-joined (v * 256 + b) bytes good fits'

block_to_bytes-suc :
    (n v : ℕ) (out : List ℕ)
    → block_to_bytes (suc n) v out ≡ u8 (v / 256 ^ n) ∷ block_to_bytes n v out
unfolding block_to_bytes
block_to_bytes-suc zero v out = rw (div-one v) refl
block_to_bytes-suc (suc n) v out =
    let width : v / 256 / 256 ^ n ≡ v / 256 ^ suc n =
      div-div-eq-div-mul v 256 (256 ^ n)
      ∙ ap (λ w. v / w) (mul_comm 256 (256 ^ n) ∙ sym (pow-suc 256 n)) in
    block_to_bytes-suc n (v / 256) (u8 v ∷ out)
    ∙ ap (λ q. u8 q ∷ block_to_bytes (suc n) v out) width

-- The bytes come back from their number.
block_to_bytes-joined :
    (v : ℕ) (bytes out : List ℕ)
    → All IsByte bytes
    → block_to_bytes (length bytes) (joined v bytes) out ≡ bytes ++ out
unfolding block_to_bytes
block_to_bytes-joined v [] out good = refl
block_to_bytes-joined v (b ∷ bytes) out (h, good) =
    let top : u8 (joined (v * 256 + b) bytes / 256 ^ length bytes) ≡ b =
      ap u8 (joined-div (v * 256 + b) bytes good) ∙ omega (arith, h) in
    block_to_bytes-suc (length bytes) (joined (v * 256 + b) bytes) out
    ∙ rw top (ap (λ rest. b ∷ rest) (block_to_bytes-joined (v * 256 + b) bytes out good))

digit_out :
    (a width t low r w : ℕ)
    → w ≡ width * 256
    → width * t + low ≡ r
    → a * w + r ≡ (a * 256 + t) * width + low
digit_out a width t low r w grows split = rw grows (omega (arith, split))

top_digit : (width t low r w : ℕ) → w ≡ width * 256 → width * t + low ≡ r → r < w → t < 256
top_digit width t low r w grows split h = elim (dec_lt t 256) [
  | yes small ↦ small
  | no big ↦
      absurd (
        omega
          (arith, grows, split, h, mul-le-mul_left {m = 256} {n = t} width (omega (arith, big))))
]

-- The number comes back from its last bytes.
joined-block_to_bytes :
    (n v a r : ℕ) → r < 256 ^ n → joined v (block_to_bytes n (a * 256 ^ n + r) []) ≡ v * 256 ^ n + r
unfolding block_to_bytes
joined-block_to_bytes zero v a r h = omega (arith, h)
joined-block_to_bytes (suc n) v a r h =
    let width = 256 ^ n in
    let grows : 256 ^ suc n ≡ width * 256 = pow-suc 256 n in
    let t = r / width in
    let split : width * t + r % width ≡ r = div-add-mod r width in
    let positive = one-le-pow n 256 (omega arith) in
    let small : r % width < width = mod-lt r positive in
    let number : a * 256 ^ suc n + r ≡ (a * 256 + t) * width + r % width =
      digit_out a width t (r % width) r _ grows split in
    let quotient : ((a * 256 + t) * width + r % width) / width ≡ a * 256 + t =
      div-eq_of_lt-le width (omega arith) (omega (arith, small)) in
    let top : u8 (((a * 256 + t) * width + r % width) / width) ≡ t =
      ap u8 quotient ∙ omega (arith, top_digit width t (r % width) r _ grows split h) in
    ap (λ w. joined v (block_to_bytes (suc n) w [])) number
    ∙ ap (joined v) (block_to_bytes-suc n ((a * 256 + t) * width + r % width) [])
    ∙ ap (λ b. joined (v * 256 + b) (block_to_bytes n ((a * 256 + t) * width + r % width) [])) top
    ∙ joined-block_to_bytes n (v * 256 + t) (a * 256 + t) (r % width) small
    ∙ sym (digit_out v width t (r % width) r _ grows split)

length-block_to_bytes : (n v : ℕ) (out : List ℕ) → length (block_to_bytes n v out) ≡ n + length out
unfolding block_to_bytes
length-block_to_bytes zero v out = omega arith
length-block_to_bytes (suc n) v out =
    omega (arith, length-block_to_bytes n (v / 2 ^ 8) (u8 v ∷ out))

block_to_bytes-IsByte :
    (n v : ℕ) (out : List ℕ) → All IsByte out → All IsByte (block_to_bytes n v out)
unfolding block_to_bytes
block_to_bytes-IsByte zero v out good = good
block_to_bytes-IsByte (suc n) v out good =
    block_to_bytes-IsByte n (v / 2 ^ 8) (u8 v ∷ out) (omega arith, good)

module _ (plain rest : List ℕ) where
  bytes_to_block-block_to_bytes :
      (v : ℕ) → v < 2 ^ 64 → bytes_to_block (block_to_bytes 8 v [] ++ rest) ≡ v
  unfolding bytes_to_block
  bytes_to_block-block_to_bytes v h =
      let bytes = block_to_bytes 8 v [] in
      let size : length bytes ≡ 8 = length-block_to_bytes 8 v [] in
      let first : take 8 (bytes ++ rest) ≡ bytes =
        ap (λ n. take n (bytes ++ rest)) (sym size) ∙ take-length_append bytes rest in
      let same : 0 * 256 ^ 8 + v ≡ v = omega arith in
      ap (foldl shift_in 0) first
      ∙ foldl-joined 0 bytes (block_to_bytes-IsByte 8 v [] tt) (rw size (omega arith))
      ∙ ap (λ w. joined 0 (block_to_bytes 8 w [])) (sym same)
      ∙ joined-block_to_bytes 8 0 0 v h
      ∙ same

  block_to_bytes-bytes_to_block :
      All IsByte plain
      → 8 ≤ length plain
      → block_to_bytes 8 (bytes_to_block plain) [] ≡ take 8 plain
  unfolding bytes_to_block
  block_to_bytes-bytes_to_block good h =
      let bytes = take 8 plain in
      let good' = All-take IsByte 8 plain good in
      let size : length bytes ≡ 8 = omega (arith, length-take 8 plain, h) in
      ap (λ v. block_to_bytes 8 v []) (foldl-joined 0 bytes good' (rw size (omega arith)))
      ∙ ap (λ n. block_to_bytes n (joined 0 bytes) []) (sym size)
      ∙ block_to_bytes-joined 0 bytes [] good'
      ∙ append-nil bytes

  bytes_to_block-lt : All IsByte plain → 8 ≤ length plain → bytes_to_block plain < 2 ^ 64
  unfolding bytes_to_block
  bytes_to_block-lt good h =
      let bytes = take 8 plain in
      let good' = All-take IsByte 8 plain good in
      let size : length bytes ≡ 8 = omega (arith, length-take 8 plain, h) in
      let above : joined 0 bytes / 256 ^ 8 ≡ 0 =
        ap (λ n. joined 0 bytes / 256 ^ n) (sym size) ∙ joined-div 0 bytes good' in
      subst (λ v. v < 2 ^ 64) (sym (foldl-joined 0 bytes good' (rw size (omega arith))))
        (omega (arith, above))

on_block-ok :
    (f : ℕ → ℕ) (dst src : List ℕ)
    → 8 ≤ length src
    → 8 ≤ length dst
    → on_block f dst src ≡ ok (block_to_bytes 8 (f (bytes_to_block src)) [] ++ drop 8 dst)
unfolding on_block
on_block-ok f dst src h k = ground (arith, h, k)

-- Decrypt takes back what Encrypt does under the cipher of a key of length 8, where the source is
-- bytes and it, the destination and that of Decrypt have length 8 at least: it gives the first 8 bytes
-- of the source, and leaves what stands behind 8 bytes in its destination.
pub des_decrypt-des_encrypt :
    (key dst plain back : List ℕ)
    → length key ≡ 8
    → All IsByte plain
    → 8 ≤ length plain
    → 8 ≤ length dst
    → 8 ≤ length back
    → (new_cipher key >>= λ cipher. encrypt cipher dst plain >>= λ coded. decrypt cipher back coded)
      ≡ ok (take 8 plain ++ drop 8 back)
unfolding new_cipher encrypt decrypt
des_decrypt-des_encrypt key dst plain back len bytes h k l =
    let keys = subkeys key in
    let whole : (length key == 8) ≡ true = ground (arith, len) in
    let block = bytes_to_block plain in
    let coded = block_to_bytes 8 (des_crypt block keys) [] ++ drop 8 dst in
    let size : 8 ≤ length coded = omega (
      arith,
      length-append (block_to_bytes 8 (des_crypt block keys) []) (drop 8 dst),
      length-block_to_bytes 8 (des_crypt block keys) [],
    ) in
    rw (whole, on_block-ok (λ v. des_crypt v keys) dst plain h k)
      (on_block-ok (λ v. des_crypt v (reversed keys)) back coded size l
        ∙ rw
            (
              bytes_to_block-block_to_bytes plain (drop 8 dst) (des_crypt block keys)
                  (des_crypt-lt block keys),
              des_crypt-des_crypt block keys (bytes_to_block-lt plain [] bytes h),
              block_to_bytes-bytes_to_block plain [] bytes h,
            )
            refl)
