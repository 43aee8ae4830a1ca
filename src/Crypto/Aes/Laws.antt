-- ===== src/Crypto/Aes/Laws.antt =====
-- Decrypt takes back what Encrypt does.
use wasigoc.Common.{
  ℕ, zero, suc, ◌+◌, ◌*◌, ◌≡◌, ◌<◌, refl, sym, ap, ◌∙◌, arith, Bool, true, false, ltb,
  if◌then◌else◌, List, [], ◌∷◌,
}
use wasigoc.Common.{length, get_or, All, length-map}
use wasigoc.Common.Bits.{IsByte, bit_xor-lt, bit_xor_cancel}
use wasigoc.Common.Tables.{agree_below, agree_below→eq}
use wasigoc.Crypto.Aes.{
  sbox, inv_sbox, add_keys, add_round_key, sub_bytes, shift_rows, inv_shift_rows, mix_columns,
  encrypt_rounds, encrypt_block, decrypt_rounds, decrypt_block,
}
use wasigoc.Crypto.Aes.Columns.{inv_mix_columns-mix_columns, mix_columns-IsByte}

-- A state of 16 bytes.
abbrev pub IsState : List ℕ → Type 0
IsState s = (length s ≡ 16) × All IsByte s

pub get_or-IsByte : (s : List ℕ) (i : ℕ) → All IsByte s → get_or s i 0 < 256
get_or-IsByte [] i good = omega arith
get_or-IsByte (x ∷ s) zero (h, good) = h
get_or-IsByte (x ∷ s) (suc i) (h, good) = get_or-IsByte s i good

abbrev all_bytes : List ℕ → Bool
all_bytes [] = true
all_bytes (x ∷ s) = if ltb x 256 then all_bytes s else false

all_bytes-All : (s : List ℕ) → all_bytes s ≡ true → All IsByte s
all_bytes-All [] h = tt
all_bytes-All (x ∷ s) h = (ground (arith, h), all_bytes-All s (ground (arith, h)))

pub sbox-IsByte : (x : ℕ) → get_or sbox x 0 < 256
unfolding sbox
sbox-IsByte x = get_or-IsByte sbox x (all_bytes-All sbox refl)

inv_sbox-sbox : (x : ℕ) → x < 256 → get_or inv_sbox (get_or sbox x 0) 0 ≡ x
unfolding sbox inv_sbox agree_below
inv_sbox-sbox x h = agree_below→eq (λ x. get_or inv_sbox (get_or sbox x 0) 0) (λ x. x) 256 refl x h

sub_bytes-sub_bytes : (s : List ℕ) → All IsByte s → sub_bytes inv_sbox (sub_bytes sbox s) ≡ s
unfolding sub_bytes
sub_bytes-sub_bytes [] good = refl
sub_bytes-sub_bytes (x ∷ s) (h, good) = rw (inv_sbox-sbox x h, sub_bytes-sub_bytes s good) refl

sub_bytes-IsByte : (s : List ℕ) → All IsByte (sub_bytes sbox s)
unfolding sub_bytes
sub_bytes-IsByte [] = tt
sub_bytes-IsByte (x ∷ s) = (sbox-IsByte x, sub_bytes-IsByte s)

length-sub_bytes : (box s : List ℕ) → length (sub_bytes box s) ≡ length s
unfolding sub_bytes
length-sub_bytes box s = length-map (λ x. get_or box x 0) s

abbrev tabulate : ℕ → (ℕ → ℕ) → List ℕ
tabulate zero f = []
tabulate (suc n) f = f 0 ∷ tabulate n (λ k. f (suc k))

tabulate-get_or : (s : List ℕ) → tabulate (length s) (λ k. get_or s k 0) ≡ s
tabulate-get_or [] = refl
tabulate-get_or (x ∷ s) = ap (λ rest. x ∷ rest) (tabulate-get_or s)

inv_shift_rows-shift_rows : (s : List ℕ) → length s ≡ 16 → inv_shift_rows (shift_rows s) ≡ s
unfolding inv_shift_rows shift_rows
inv_shift_rows-shift_rows s h = ap (λ n. tabulate n (λ k. get_or s k 0)) (sym h) ∙ tabulate-get_or s

shift_rows-IsState : (s : List ℕ) → All IsByte s → IsState (shift_rows s)
unfolding shift_rows
shift_rows-IsState s good =
    let g = λ (k : ℕ). get_or-IsByte s k good in
    (
      refl,
      (
        g 0,
        (
          g 5,
          (
            g 10,
            (
              g 15,
              (
                g 4,
                (g 9, (g 14, (g 3, (g 8, (g 13, (g 2, (g 7, (g 12, (g 1, (g 6, (g 11, tt))))))))))),
              ),
            ),
          ),
        ),
      ),
    )

length-mix_columns : (s : List ℕ) → length (mix_columns s) ≡ length s
unfolding mix_columns
length-mix_columns [] = refl
length-mix_columns (a ∷ []) = refl
length-mix_columns (a ∷ b ∷ []) = refl
length-mix_columns (a ∷ b ∷ c ∷ []) = refl
length-mix_columns (a ∷ b ∷ c ∷ d ∷ s) = rw (length-mix_columns s) refl

add_keys-add_keys :
    (keys : List ℕ) (from : ℕ) (s : List ℕ) → add_keys keys from (add_keys keys from s) ≡ s
unfolding add_keys
add_keys-add_keys keys from [] = refl
add_keys-add_keys keys from (x ∷ s) =
    rw (bit_xor_cancel x (get_or keys from 0), add_keys-add_keys keys (from + 1) s) refl

length-add_keys : (keys : List ℕ) (from : ℕ) (s : List ℕ) → length (add_keys keys from s) ≡ length s
unfolding add_keys
length-add_keys keys from [] = refl
length-add_keys keys from (x ∷ s) = rw (length-add_keys keys (from + 1) s) refl

module _ (keys : List ℕ) (good_keys : All IsByte keys) where
  add_keys-IsByte : (from : ℕ) (s : List ℕ) → All IsByte s → All IsByte (add_keys keys from s)
  unfolding add_keys
  add_keys-IsByte from [] good = tt
  add_keys-IsByte from (x ∷ s) (h, good) = (
    bit_xor-lt 8 x (get_or keys from 0) h (get_or-IsByte keys from good_keys),
    add_keys-IsByte (from + 1) s good,
  )

  add_round_key-IsState :
      (round : ℕ) (s : List ℕ) → IsState s → IsState (add_round_key keys round s)
  add_round_key-IsState round s (len, good) =
      (length-add_keys keys (round * 16) s ∙ len, add_keys-IsByte (round * 16) s good)

  encrypt_rounds-IsState : (n : ℕ) (s : List ℕ) → IsState s → IsState (encrypt_rounds keys n s)
  unfolding encrypt_rounds
  encrypt_rounds-IsState zero s good = good
  encrypt_rounds-IsState (suc n) s good =
      let before = sub_bytes sbox (encrypt_rounds keys n s) in
      let (len, shifted) = shift_rows-IsState before (sub_bytes-IsByte (encrypt_rounds keys n s)) in
      add_round_key-IsState (suc n) (mix_columns (shift_rows before)) (
        length-mix_columns (shift_rows before) ∙ len,
        mix_columns-IsByte (shift_rows before) shifted,
      )

  unsub-unshift :
      (s : List ℕ)
      → IsState s
      → sub_bytes inv_sbox (inv_shift_rows (shift_rows (sub_bytes sbox s))) ≡ s
  unsub-unshift s (len, good) =
      rw (inv_shift_rows-shift_rows (sub_bytes sbox s) (length-sub_bytes sbox s ∙ len))
        (sub_bytes-sub_bytes s good)

  -- The last rounds of Decrypt take back the first ones of Encrypt.
  decrypt_rounds-encrypt_rounds :
      (n : ℕ) (s : List ℕ)
      → IsState s
      → decrypt_rounds keys n (shift_rows (sub_bytes sbox (encrypt_rounds keys n s)))
        ≡ shift_rows (sub_bytes sbox s)
  unfolding decrypt_rounds encrypt_rounds
  decrypt_rounds-encrypt_rounds zero s good = refl
  decrypt_rounds-encrypt_rounds (suc n) s good =
      let before = encrypt_rounds keys n s in
      let shifted = shift_rows (sub_bytes sbox before) in
      let (len, bytes) = shift_rows-IsState (sub_bytes sbox before) (sub_bytes-IsByte before) in
      rw
        (
          unsub-unshift (add_round_key keys (suc n) (mix_columns shifted))
              (encrypt_rounds-IsState (suc n) s good),
          add_keys-add_keys keys (suc n * 16) (mix_columns shifted),
          inv_mix_columns-mix_columns shifted bytes,
        )
        (decrypt_rounds-encrypt_rounds n s good)

  pub decrypt_block-encrypt_block :
      (s : List ℕ) → IsState s → decrypt_block keys (encrypt_block keys s) ≡ s
  unfolding decrypt_block encrypt_block
  decrypt_block-encrypt_block s good =
      let first = add_round_key keys 0 s in
      let good_first = add_round_key-IsState 0 s good in
      rw
        (
          add_keys-add_keys keys 160 (shift_rows (sub_bytes sbox (encrypt_rounds keys 9 first))),
          decrypt_rounds-encrypt_rounds 9 first good_first,
          unsub-unshift first good_first,
        )
        (add_keys-add_keys keys 0 s)

  pub length-encrypt_block : (s : List ℕ) → length (encrypt_block keys s) ≡ 16
  unfolding encrypt_block
  length-encrypt_block s =
      let mixed = encrypt_rounds keys 9 (add_round_key keys 0 s) in
      let (len, x) = shift_rows-IsState (sub_bytes sbox mixed) (sub_bytes-IsByte mixed) in
      length-add_keys keys 160 (shift_rows (sub_bytes sbox mixed)) ∙ len
