-- ===== src/Crypto/Blocks/Padding.antt =====
-- The padding fills the last block.
use mathlib.Core.List.{append_assoc, append-nil}
use wasigoc.Common.{ℕ, zero, suc, ◌+◌, ◌%◌, ◌<◌, ◌≤◌, ◌≡◌, sym, ap, ◌∙◌, arith}
use wasigoc.Common.{
  length-replicate, List, [], ◌∷◌, ◌++◌, true, ◌==◌, length, length-append, replicate, Bool-cases,
  inl, inr,
}
use wasigoc.Crypto.Blocks.{Scheme, zeros_loop, pad_block}

module _ {H : Type 0} (f : Scheme H) where
  -- What the padding relies on: the length field fills up the block, and zeros can be put before it.
  pub record IsPadded : Type 0 where
    pub fill : (n : ℕ) → (k : ℕ) × (k < f.block) × ((n + k) % f.block ≡ f.room)
    pub field :
        (n bits : ℕ) → n % f.block ≡ f.room → (n + length (f.length_field bits)) % f.block ≡ 0

  zeros_loop-zeros :
      (fuel k : ℕ) (out : List ℕ)
      → k ≤ fuel
      → (length out + k) % f.block ≡ f.room
      → (j : ℕ) × (j ≤ k)
        × (zeros_loop f fuel out ≡ out ++ replicate j 0)
        × ((length out + j) % f.block ≡ f.room)
  unfolding zeros_loop
  zeros_loop-zeros zero zero out enough fits = (0, omega arith, sym (append-nil out), fits)
  zeros_loop-zeros zero (suc k) out enough fits = absurd (omega (arith, enough))
  zeros_loop-zeros (suc fuel) zero out enough fits =
      let here : length out % f.block ≡ f.room = ap (λ n. n % f.block) (omega arith) ∙ fits in
      let done : (length out % f.block == f.room) ≡ true = ground (arith, here) in
      (0, omega arith, rw done (sym (append-nil out)), fits)
  zeros_loop-zeros (suc fuel) (suc k) out enough fits =
      elim (Bool-cases (length out % f.block == f.room)) [
        | inl done ↦
            let here : length out % f.block ≡ f.room = ground (arith, done) in
            let same : length out + 0 ≡ length out = omega arith in
            (0, omega arith, rw done (sym (append-nil out)), ap (λ n. n % f.block) same ∙ here)
        | inr more ↦
            let moved : length (out ++ 0 ∷ []) + k ≡ length out + suc k =
              omega (arith, length-append out (0 ∷ [])) in
            let (j, below, eq, fills) =
              zeros_loop-zeros fuel k (out ++ 0 ∷ []) (omega (arith, enough))
                (ap (λ n. n % f.block) moved ∙ fits) in
            let moved' : length out + suc j ≡ length (out ++ 0 ∷ []) + j =
              omega (arith, length-append out (0 ∷ [])) in
            (
              suc j,
              omega (arith, below),
              rw more (eq ∙ append_assoc out (0 ∷ []) (replicate j 0)),
              ap (λ n. n % f.block) moved' ∙ fills,
            )
      ]

  -- padBlock appends the byte 128, fewer zeros than a block has bytes, and the length field; the
  -- result is a number of whole blocks.
  pub pad_block-blocks :
      IsPadded
      → (tail : List ℕ) (bits : ℕ)
      → (k : ℕ) × (k < f.block)
        × (pad_block f tail bits ≡ tail ++ 128 ∷ (replicate k 0 ++ f.length_field bits))
        × (length (pad_block f tail bits) % f.block ≡ 0)
  unfolding pad_block
  pad_block-blocks padded tail bits =
      let start = tail ++ 128 ∷ [] in
      let (k0, small, fits) = padded.fill (length start) in
      let (k, below, eq, fills) = zeros_loop-zeros (f.block) k0 start (omega (arith, small)) fits in
      let long : length (start ++ replicate k 0) ≡ length start + k =
        omega (arith, length-append start (replicate k 0), length-replicate {A = ℕ} k 0) in
      (
        k,
        omega (arith, below, small),
        ap (λ t. t ++ f.length_field bits) eq
            ∙ append_assoc start (replicate k 0) (f.length_field bits)
            ∙ append_assoc tail (128 ∷ []) (replicate k 0 ++ f.length_field bits),
        ap (λ t. length (t ++ f.length_field bits) % f.block) eq
            ∙ ap (λ n. n % f.block) (length-append (start ++ replicate k 0) (f.length_field bits))
            ∙ padded.field (length (start ++ replicate k 0)) bits
                (ap (λ n. n % f.block) long ∙ fills),
      )
