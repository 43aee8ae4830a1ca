-- ===== src/Mime/Quoted/Decode.antt =====
-- What decodeAll reads behind one another.
use mathlib.Core.List.{append_assoc}
use wasigoc.Common.{
  ℕ, zero, suc, ◌*◌, ◌/◌, ◌^◌, ◌≡◌, ◌≤◌, ◌<◌, refl, sym, ap, ◌∙◌, arith, false, ◌&&◌, ◌||◌, ◌==◌,
  if◌then◌else◌, List, [], ◌∷◌, ◌++◌, bit_and, bit_or,
}
use wasigoc.Common.{length, get_or, drop, length-drop, Bool-cases, inl, inr}
use wasigoc.Common.Bits.{u8}
use wasigoc.Common.Tables.{agree_below, agree_below→eq}
use wasigoc.Mime.Quoted.{
  hex_digits, is_hex_digit, hex_val, escape, decode_step, decode_loop, decode_all,
}

escape-positive : (rest : List ℕ) → 0 < (escape rest).1
unfolding escape
escape-positive [] = omega arith
escape-positive (a ∷ []) = ground arith
escape-positive (a ∷ b ∷ rest) = ground arith

decode_step-positive : (b : ℕ) (rest : List ℕ) → 0 < (decode_step b rest).1
unfolding decode_step
decode_step-positive b rest = elim (Bool-cases (b == 61)) [
  | inl mark ↦ rw mark (escape-positive rest)
  | inr plain ↦ rw plain (omega arith)
]

-- More fuel than bytes changes nothing.
decode_loop-fuel :
    (f g : ℕ) (raw : List ℕ)
    → length raw ≤ f
    → length raw ≤ g
    → decode_loop f raw ≡ decode_loop g raw
unfolding decode_loop
decode_loop-fuel zero zero raw h k = refl
decode_loop-fuel zero (suc g) [] h k = refl
decode_loop-fuel zero (suc g) (b ∷ rest) h k = absurd (omega (arith, h))
decode_loop-fuel (suc f) zero [] h k = refl
decode_loop-fuel (suc f) zero (b ∷ rest) h k = absurd (omega (arith, k))
decode_loop-fuel (suc f) (suc g) [] h k = refl
decode_loop-fuel (suc f) (suc g) (b ∷ rest) h k =
    let read : List ℕ × ℕ = decode_step b rest in
    let left = length-drop (read.1) (b ∷ rest) in
    let some_read = decode_step-positive b rest in
    ap (λ more. read.0 ++ more)
      (decode_loop-fuel f g (drop (read.1) (b ∷ rest)) (omega (arith, left, some_read, h))
        (omega (arith, left, some_read, k)))

decode_all-step :
    (b : ℕ) (rest : List ℕ)
    → decode_all (b ∷ rest)
      ≡ (decode_step b rest).0 ++ decode_all (drop ((decode_step b rest).1) (b ∷ rest))
unfolding decode_all decode_loop
decode_all-step b rest =
    let read : List ℕ × ℕ = decode_step b rest in
    let left = length-drop (read.1) (b ∷ rest) in
    let some_read = decode_step-positive b rest in
    ap (λ more. read.0 ++ more)
      (decode_loop-fuel (length rest) (length (drop (read.1) (b ∷ rest))) (drop (read.1) (b ∷ rest))
        (omega (arith, left, some_read)) (omega arith))

-- The bytes stand for the text, whatever follows them.
abbrev pub Codes : List ℕ → List ℕ → Type 0
Codes raw text = (rest : List ℕ) → decode_all (raw ++ rest) ≡ text ++ decode_all rest

pub Codes-append :
    (raw more text next : List ℕ)
    → Codes raw text
    → Codes more next
    → Codes (raw ++ more) (text ++ next)
Codes-append raw more text next first second rest =
    ap decode_all (append_assoc raw more rest)
    ∙ first (more ++ rest)
    ∙ ap (λ t. text ++ t) (second rest)
    ∙ sym (append_assoc text next (decode_all rest))

pub Codes-byte : (b : ℕ) → (b == 61) ≡ false → Codes (b ∷ []) (b ∷ [])
unfolding decode_step
Codes-byte b plain rest = decode_all-step b rest ∙ rw plain refl

pub Codes-break : Codes (61 ∷ 13 ∷ 10 ∷ []) []
unfolding decode_step escape
Codes-break rest = decode_all-step 61 (13 ∷ 10 ∷ rest)

abbrev high : ℕ → ℕ
high b = get_or hex_digits (b / 2 ^ 4) 0

abbrev low : ℕ → ℕ
low b = get_or hex_digits (bit_and b 15) 0

-- What two digits read as, and 256 if they are no digits.
reads_as : ℕ → ℕ → ℕ
reads_as x y =
    if (x == 13) || (x == 10)
    then 256
    else if is_hex_digit x && is_hex_digit y
    then bit_or (u8 (hex_val x * 2 ^ 4)) (hex_val y)
    else 256

reads_as-digits : (b : ℕ) → b < 256 → reads_as (high b) (low b) ≡ b
unfolding reads_as hex_digits is_hex_digit hex_val agree_below
reads_as-digits b h = agree_below→eq (λ b. reads_as (high b) (low b)) (λ b. b) 256 refl b h

escape-reads_as :
    (x y b : ℕ) (rest : List ℕ) → b < 256 → reads_as x y ≡ b → escape (x ∷ y ∷ rest) ≡ (b ∷ [], 3)
unfolding escape reads_as
escape-reads_as x y b rest h e = elim (Bool-cases ((x == 13) || (x == 10))) [
  | inl line_end ↦
      let none_read : reads_as x y ≡ 256 = rw line_end refl in
      absurd (omega (arith, e, none_read, h))
  | inr other ↦
      let no_cr : (x == 13) ≡ false = ground (arith, other) in
      let no_lf : (x == 10) ≡ false = ground (arith, other) in
      elim (Bool-cases (is_hex_digit x && is_hex_digit y)) [
        | inl digits ↦
            let value : reads_as x y ≡ bit_or (u8 (hex_val x * 2 ^ 4)) (hex_val y) =
              rw (no_cr, no_lf, digits) refl in
            rw (no_cr, no_lf, digits) (ap (λ v. (v ∷ [], 3)) (sym value ∙ e))
        | inr bad ↦
            let none_read : reads_as x y ≡ 256 = rw (no_cr, no_lf, bad) refl in
            absurd (omega (arith, e, none_read, h))
      ]
]

pub Codes-escape : (b : ℕ) → b < 256 → Codes (61 ∷ high b ∷ low b ∷ []) (b ∷ [])
unfolding decode_step
Codes-escape b h rest =
    let same = escape-reads_as (high b) (low b) b rest h (reads_as-digits b h) in
    decode_all-step 61 (high b ∷ low b ∷ rest) ∙ rw same refl
