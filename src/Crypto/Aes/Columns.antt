-- ===== src/Crypto/Aes/Columns.antt =====
-- InvMixColumns takes back what mixColumns does.
use wasigoc.Common.{ℕ, ◌≡◌, ◌<◌, refl, ap, ◌∙◌, List, [], ◌∷◌, bit_xor}
use wasigoc.Common.{All}
use wasigoc.Common.Bits.{IsByte, bit_xor-zero, zero-bit_xor, bit_xor-lt}
use wasigoc.Common.Tables.{agree_below, agree_below→eq}
use wasigoc.Crypto.Aes.{
  double, gmul_loop, gmul, row, mix0, mix1, mix2, mix3, mix_columns, inv_mix_columns,
}
use wasigoc.Crypto.Aes.Mix.{xor_swap4, gmul-bit_xor, gmul-IsByte}

abbrev xor4 : ℕ → ℕ → ℕ → ℕ → ℕ
xor4 w x y z = bit_xor (bit_xor (bit_xor w x) y) z

xor4-lt : (w x y z : ℕ) → w < 256 → x < 256 → y < 256 → z < 256 → xor4 w x y z < 256
xor4-lt w x y z a b c d =
    bit_xor-lt 8 (bit_xor (bit_xor w x) y) z (bit_xor-lt 8 (bit_xor w x) y (bit_xor-lt 8 w x a b) c)
      d

xor4-bit_xor :
    (a b c d w x y z : ℕ)
    → bit_xor (xor4 a b c d) (xor4 w x y z)
      ≡ xor4 (bit_xor a w) (bit_xor b x) (bit_xor c y) (bit_xor d z)
xor4-bit_xor a b c d w x y z =
    xor_swap4 (bit_xor (bit_xor a b) c) d (bit_xor (bit_xor w x) y) z
    ∙ ap (λ t. bit_xor t (bit_xor d z))
        (xor_swap4 (bit_xor a b) c (bit_xor w x) y
          ∙ ap (λ t. bit_xor t (bit_xor c y)) (xor_swap4 a b w x))

xor4-xor4 :
    (a0 a1 a2 a3 b0 b1 b2 b3 c0 c1 c2 c3 d0 d1 d2 d3 : ℕ)
    → xor4 (xor4 a0 a1 a2 a3) (xor4 b0 b1 b2 b3) (xor4 c0 c1 c2 c3) (xor4 d0 d1 d2 d3)
      ≡ xor4 (xor4 a0 b0 c0 d0) (xor4 a1 b1 c1 d1) (xor4 a2 b2 c2 d2) (xor4 a3 b3 c3 d3)
xor4-xor4 a0 a1 a2 a3 b0 b1 b2 b3 c0 c1 c2 c3 d0 d1 d2 d3 =
    ap (λ t. bit_xor (bit_xor t (xor4 c0 c1 c2 c3)) (xor4 d0 d1 d2 d3))
      (xor4-bit_xor a0 a1 a2 a3 b0 b1 b2 b3)
    ∙ ap (λ t. bit_xor t (xor4 d0 d1 d2 d3))
        (xor4-bit_xor (bit_xor a0 b0) (bit_xor a1 b1) (bit_xor a2 b2) (bit_xor a3 b3) c0 c1 c2 c3)
    ∙ xor4-bit_xor (bit_xor (bit_xor a0 b0) c0) (bit_xor (bit_xor a1 b1) c1)
        (bit_xor (bit_xor a2 b2) c2) (bit_xor (bit_xor a3 b3) c3) d0 d1 d2 d3

gmul-xor4 :
    (w x y z k : ℕ)
    → w < 256
    → x < 256
    → y < 256
    → z < 256
    → gmul (xor4 w x y z) k ≡ xor4 (gmul w k) (gmul x k) (gmul y k) (gmul z k)
gmul-xor4 w x y z k a b c d =
    gmul-bit_xor (bit_xor (bit_xor w x) y) z k
      (bit_xor-lt 8 (bit_xor w x) y (bit_xor-lt 8 w x a b) c) d
    ∙ ap (λ t. bit_xor t (gmul z k))
        (gmul-bit_xor (bit_xor w x) y k (bit_xor-lt 8 w x a b) c
          ∙ ap (λ t. bit_xor t (gmul y k)) (gmul-bit_xor w x k a b))

-- The sums of what each byte of a column adds to a byte of the result.
sum0 : ℕ → ℕ → ℕ → ℕ → ℕ → ℕ
sum0 k0 k1 k2 k3 a = xor4 (gmul (gmul a 2) k0) (gmul a k1) (gmul a k2) (gmul (gmul a 3) k3)

sum1 : ℕ → ℕ → ℕ → ℕ → ℕ → ℕ
sum1 k0 k1 k2 k3 a = xor4 (gmul (gmul a 3) k0) (gmul (gmul a 2) k1) (gmul a k2) (gmul a k3)

sum2 : ℕ → ℕ → ℕ → ℕ → ℕ → ℕ
sum2 k0 k1 k2 k3 a = xor4 (gmul a k0) (gmul (gmul a 3) k1) (gmul (gmul a 2) k2) (gmul a k3)

sum3 : ℕ → ℕ → ℕ → ℕ → ℕ → ℕ
sum3 k0 k1 k2 k3 a = xor4 (gmul a k0) (gmul a k1) (gmul (gmul a 3) k2) (gmul (gmul a 2) k3)

xor4_of0 : {a b0 b1 b2 b3 : ℕ} → b0 ≡ a → b1 ≡ 0 → b2 ≡ 0 → b3 ≡ 0 → xor4 b0 b1 b2 b3 ≡ a
xor4_of0 {a} e0 e1 e2 e3 =
    rw (e0, e1, e2, e3)
      (bit_xor-zero (bit_xor (bit_xor a 0) 0) ∙ bit_xor-zero (bit_xor a 0) ∙ bit_xor-zero a)

xor4_of1 : {a b0 b1 b2 b3 : ℕ} → b0 ≡ 0 → b1 ≡ a → b2 ≡ 0 → b3 ≡ 0 → xor4 b0 b1 b2 b3 ≡ a
xor4_of1 {a} e0 e1 e2 e3 =
    rw (e0, e1, e2, e3)
      (bit_xor-zero (bit_xor (bit_xor 0 a) 0) ∙ bit_xor-zero (bit_xor 0 a) ∙ zero-bit_xor a)

xor4_of2 : {a b0 b1 b2 b3 : ℕ} → b0 ≡ 0 → b1 ≡ 0 → b2 ≡ a → b3 ≡ 0 → xor4 b0 b1 b2 b3 ≡ a
xor4_of2 {a} e0 e1 e2 e3 = rw (e0, e1, e2, e3) (bit_xor-zero (bit_xor 0 a) ∙ zero-bit_xor a)

xor4_of3 : {a b0 b1 b2 b3 : ℕ} → b0 ≡ 0 → b1 ≡ 0 → b2 ≡ 0 → b3 ≡ a → xor4 b0 b1 b2 b3 ≡ a
xor4_of3 {a} e0 e1 e2 e3 = rw (e0, e1, e2, e3) (zero-bit_xor a)

module _ (a0 a1 a2 a3 : ℕ) (h0 : a0 < 256) (h1 : a1 < 256) (h2 : a2 < 256) (h3 : a3 < 256) where
  row-mix :
      (k0 k1 k2 k3 : ℕ)
      → row k0 k1 k2 k3 (mix0 a0 a1 a2 a3) (mix1 a0 a1 a2 a3) (mix2 a0 a1 a2 a3) (mix3 a0 a1 a2 a3)
        ≡ xor4
            (sum0 k0 k1 k2 k3 a0)
            (sum1 k0 k1 k2 k3 a1)
            (sum2 k0 k1 k2 k3 a2)
            (sum3 k0 k1 k2 k3 a3)
  unfolding mix0 mix1 mix2 mix3 sum0 sum1 sum2 sum3
  row-mix k0 k1 k2 k3 =
      rw
        (
          gmul-xor4 (gmul a0 2) (gmul a1 3) a2 a3 k0 (gmul-IsByte a0 2 h0) (gmul-IsByte a1 3 h1) h2
              h3,
          gmul-xor4 a0 (gmul a1 2) (gmul a2 3) a3 k1 h0 (gmul-IsByte a1 2 h1) (gmul-IsByte a2 3 h2)
              h3,
          gmul-xor4 a0 a1 (gmul a2 2) (gmul a3 3) k2 h0 h1 (gmul-IsByte a2 2 h2)
              (gmul-IsByte a3 3 h3),
          gmul-xor4 (gmul a0 3) a1 a2 (gmul a3 2) k3 (gmul-IsByte a0 3 h0) h1 h2
              (gmul-IsByte a3 2 h3),
        )
        (xor4-xor4 _ _ _ _ _ _ _ _ _ _ _ _ _ _ _ _)

  row-mix0 :
      row 14 11 13 9 (mix0 a0 a1 a2 a3) (mix1 a0 a1 a2 a3) (mix2 a0 a1 a2 a3) (mix3 a0 a1 a2 a3)
      ≡ a0
  unfolding agree_below sum0 sum1 sum2 sum3 gmul gmul_loop double
  row-mix0 =
      row-mix 14 11 13 9
      ∙ xor4_of0 (agree_below→eq (sum0 14 11 13 9) (λ a. a) 256 refl a0 h0)
          (agree_below→eq (sum1 14 11 13 9) (λ a. 0) 256 refl a1 h1)
          (agree_below→eq (sum2 14 11 13 9) (λ a. 0) 256 refl a2 h2)
          (agree_below→eq (sum3 14 11 13 9) (λ a. 0) 256 refl a3 h3)

  row-mix1 :
      row 9 14 11 13 (mix0 a0 a1 a2 a3) (mix1 a0 a1 a2 a3) (mix2 a0 a1 a2 a3) (mix3 a0 a1 a2 a3)
      ≡ a1
  unfolding agree_below sum0 sum1 sum2 sum3 gmul gmul_loop double
  row-mix1 =
      row-mix 9 14 11 13
      ∙ xor4_of1 (agree_below→eq (sum0 9 14 11 13) (λ a. 0) 256 refl a0 h0)
          (agree_below→eq (sum1 9 14 11 13) (λ a. a) 256 refl a1 h1)
          (agree_below→eq (sum2 9 14 11 13) (λ a. 0) 256 refl a2 h2)
          (agree_below→eq (sum3 9 14 11 13) (λ a. 0) 256 refl a3 h3)

  row-mix2 :
      row 13 9 14 11 (mix0 a0 a1 a2 a3) (mix1 a0 a1 a2 a3) (mix2 a0 a1 a2 a3) (mix3 a0 a1 a2 a3)
      ≡ a2
  unfolding agree_below sum0 sum1 sum2 sum3 gmul gmul_loop double
  row-mix2 =
      row-mix 13 9 14 11
      ∙ xor4_of2 (agree_below→eq (sum0 13 9 14 11) (λ a. 0) 256 refl a0 h0)
          (agree_below→eq (sum1 13 9 14 11) (λ a. 0) 256 refl a1 h1)
          (agree_below→eq (sum2 13 9 14 11) (λ a. a) 256 refl a2 h2)
          (agree_below→eq (sum3 13 9 14 11) (λ a. 0) 256 refl a3 h3)

  row-mix3 :
      row 11 13 9 14 (mix0 a0 a1 a2 a3) (mix1 a0 a1 a2 a3) (mix2 a0 a1 a2 a3) (mix3 a0 a1 a2 a3)
      ≡ a3
  unfolding agree_below sum0 sum1 sum2 sum3 gmul gmul_loop double
  row-mix3 =
      row-mix 11 13 9 14
      ∙ xor4_of3 (agree_below→eq (sum0 11 13 9 14) (λ a. 0) 256 refl a0 h0)
          (agree_below→eq (sum1 11 13 9 14) (λ a. 0) 256 refl a1 h1)
          (agree_below→eq (sum2 11 13 9 14) (λ a. 0) 256 refl a2 h2)
          (agree_below→eq (sum3 11 13 9 14) (λ a. a) 256 refl a3 h3)

-- The columns of a state of bytes come back.
pub inv_mix_columns-mix_columns :
    (state : List ℕ) → All IsByte state → inv_mix_columns (mix_columns state) ≡ state
unfolding mix_columns inv_mix_columns
inv_mix_columns-mix_columns [] good = refl
inv_mix_columns-mix_columns (a0 ∷ []) good = refl
inv_mix_columns-mix_columns (a0 ∷ a1 ∷ []) good = refl
inv_mix_columns-mix_columns (a0 ∷ a1 ∷ a2 ∷ []) good = refl
inv_mix_columns-mix_columns (a0 ∷ a1 ∷ a2 ∷ a3 ∷ state) (h0, (h1, (h2, (h3, good)))) =
    rw
      (
        row-mix0 a0 a1 a2 a3 h0 h1 h2 h3,
        row-mix1 a0 a1 a2 a3 h0 h1 h2 h3,
        row-mix2 a0 a1 a2 a3 h0 h1 h2 h3,
        row-mix3 a0 a1 a2 a3 h0 h1 h2 h3,
        inv_mix_columns-mix_columns state good,
      )
      refl

pub mix_columns-IsByte : (state : List ℕ) → All IsByte state → All IsByte (mix_columns state)
unfolding mix_columns mix0 mix1 mix2 mix3
mix_columns-IsByte [] good = good
mix_columns-IsByte (a0 ∷ []) good = good
mix_columns-IsByte (a0 ∷ a1 ∷ []) good = good
mix_columns-IsByte (a0 ∷ a1 ∷ a2 ∷ []) good = good
mix_columns-IsByte (a0 ∷ a1 ∷ a2 ∷ a3 ∷ state) (h0, (h1, (h2, (h3, good)))) = (
  xor4-lt (gmul a0 2) (gmul a1 3) a2 a3 (gmul-IsByte a0 2 h0) (gmul-IsByte a1 3 h1) h2 h3,
  (
    xor4-lt a0 (gmul a1 2) (gmul a2 3) a3 h0 (gmul-IsByte a1 2 h1) (gmul-IsByte a2 3 h2) h3,
    (
      xor4-lt a0 a1 (gmul a2 2) (gmul a3 3) h0 h1 (gmul-IsByte a2 2 h2) (gmul-IsByte a3 3 h3),
      (
        xor4-lt (gmul a0 3) a1 a2 (gmul a3 2) (gmul-IsByte a0 3 h0) h1 h2 (gmul-IsByte a3 2 h3),
        mix_columns-IsByte state good,
      ),
    ),
  ),
)
