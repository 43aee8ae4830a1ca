-- ===== src/Strconv/Laws.antt =====
-- ParseUint reads back what FormatUint writes.
use native.Mathlib.Nat.{
  mod-lt, div-add-mod', div-lt_iff_lt-mul, div-le_self, pow-suc, mul-le-mul_left,
}
use wasigoc.Common.{Option-cases}
use mathlib.Core.List.{append_assoc, append-nil}
use wasigoc.Common.{
  ℕ, zero, suc, ◌+◌, ◌*◌, ◌/◌, ◌%◌, ◌^◌, ◌≤◌, ◌<◌, ◌≡◌, refl, sym, ap, ◌∙◌, arith, List, [], ◌∷◌,
  ◌++◌,
}
use wasigoc.Common.{
  false, ◌==◌, leb, length, get_or, Bool-cases, inl, inr, some, none, ◌&&◌, not, if◌then◌else◌,
  codes,
}
use wasigoc.Common.Outcome.{ok}
use wasigoc.Common.Slices.{load}
use wasigoc.Common.Tables.{agree_below, agree_below→eq, load-get_or}
use wasigoc.Common.Bits.{u64}
use wasigoc.Text.Find.{same_text}
use wasigoc.Strconv.{
  digits, format_loop, reversed, format_uint, digit_val, has0x_prefix, has_base_prefix, choose_base,
  parse_loop, parse_uint,
}

-- The character of a digit.
digit : ℕ → ℕ
digit d = get_or digits d 0

-- 1 for a character that is read as the digit `d` and is not the underscore.
reads : ℕ → ℕ → ℕ
reads d c = elim (digit_val c) [ none ↦ 0 | some e ↦ if e == d && not (c == 95) then 1 else 0 ]

reads-eq : (d c : ℕ) → reads d c ≡ 1 → (digit_val c ≡ some d) × ((c == 95) ≡ false)
unfolding reads
reads-eq d c e = elim (Option-cases (digit_val c)) [
  | inl n ↦ absurd (omega (arith, rw (n, reads) at e))
  | inr (v, s) ↦
      let h : (if v == d && not (c == 95) then 1 else 0) ≡ 1 = rw (s, reads) at e in
      let q : v ≡ d = ground (arith, h) in (s ∙ ap some q, ground (arith, h))
]

digit_reads : (d : ℕ) → d < 36 → (digit_val (digit d) ≡ some d) × ((digit d == 95) ≡ false)
unfolding digit_val digit reads agree_below
digit_reads d h =
    reads-eq d (digit d) (agree_below→eq (λ k. reads k (digit k)) (λ k. 1) 36 refl d h)

-- The digits of a number, the lowest first.
low_first : ℕ → ℕ → ℕ → List ℕ
low_first zero n base = []
low_first (suc fuel) n base =
    let rest = low_first fuel (n / base) base in if n == 0 then [] else digit (n % base) ∷ rest

-- A base that has a character for each digit.
IsBase : ℕ → Type 0
IsBase base = (2 ≤ base) × (base ≤ 36)

two-le_pos : (b : ℕ) → 2 ≤ b → 0 < b
two-le_pos b h = omega arith

mod_base-lt : (base n : ℕ) → 2 ≤ base → n % base < base
mod_base-lt base n h = mod-lt n (two-le_pos base h)

digit_at : (base n : ℕ) → IsBase base → load digits (n % base) ≡ ok (digit (n % base))
unfolding IsBase digit
digit_at base n (lo, hi) =
    load-get_or digits (n % base) 0 (omega (arith, mod_base-lt base n lo, hi))

format_loop-low_first :
    (fuel : ℕ) (rev : List ℕ) (n base : ℕ)
    → IsBase base
    → format_loop fuel rev n base ≡ ok (rev ++ low_first fuel n base)
unfolding format_loop low_first IsBase
format_loop-low_first zero rev n base b = ap ok (sym (append-nil rev))
format_loop-low_first (suc fuel) rev n base b = elim (Bool-cases (n == 0)) [
  | inl z ↦ rw (z, format_loop, low_first) (ap ok (sym (append-nil rev)))
  | inr nz ↦
      let two = b.0 in
      let pos : (base == 0) ≡ false = ground (arith, two) in
      let c = digit (n % base) in
      rw (nz, pos, format_loop, low_first, digit_at base n b)
        (format_loop-low_first fuel (rev ++ c ∷ []) (n / base) base b
          ∙ ap ok (append_assoc rev (c ∷ []) (low_first fuel (n / base) base)))
]

parse_loop-digit :
    (b m d : ℕ) (rest : List ℕ)
    → d < b
    → IsBase b
    → m * b + d < 2 ^ 64
    → parse_loop b m (digit d ∷ rest) ≡ parse_loop b (m * b + d) rest
unfolding parse_loop IsBase
parse_loop-digit b m d rest h (lo, hi) fits =
    let (v, under) = digit_reads d (omega (arith, hi)) in
    let small : leb b d ≡ false = ground (arith, h) in
    let w : u64 (u64 (m * b) + d) ≡ m * b + d = omega (arith, fits) in
    rw (under, v, small) (ap (λ k. parse_loop b k rest) w)

-- The digits, the highest first.
high_first : ℕ → ℕ → ℕ → List ℕ
high_first zero n base = []
high_first (suc fuel) n base =
    let rest = high_first fuel (n / base) base in
    if n == 0 then [] else rest ++ digit (n % base) ∷ []

div_base-lt : (fuel n b : ℕ) → 2 ≤ b → n < 2 ^ suc fuel → n / b < 2 ^ fuel
div_base-lt fuel n b two h =
    (div-lt_iff_lt-mul {k = b} {x = n} {y = 2 ^ fuel} (two-le_pos b two)).1
      (omega (arith, h, pow-suc 2 fuel, mul-le-mul_left (2 ^ fuel) two))

parse_loop-high_first :
    (fuel n b : ℕ) (rest : List ℕ)
    → IsBase b
    → n < 2 ^ fuel
    → n < 2 ^ 64
    → parse_loop b 0 (high_first fuel n b ++ rest) ≡ parse_loop b n rest
unfolding high_first IsBase
parse_loop-high_first zero n b rest base h fits = ap (λ k. parse_loop b k rest) (the_zero n h)
  where
    the_zero : (n : ℕ) → n < 2 ^ 0 → 0 ≡ n
    the_zero n h = omega arith
parse_loop-high_first (suc fuel) n b rest base h fits = elim (Bool-cases (n == 0)) [
  | inl z ↦
      let e : 0 ≡ n = ground (arith, z) in rw (z, high_first) (ap (λ k. parse_loop b k rest) e)
  | inr nz ↦
      let c = digit (n % b) in
      let high = high_first fuel (n / b) b in
      let whole : n / b * b + n % b ≡ n = div-add-mod' n b in
      rw (nz, high_first)
        (ap (parse_loop b 0) (append_assoc high (c ∷ []) rest)
          ∙ parse_loop-high_first fuel (n / b) b (c ∷ rest) base (div_base-lt fuel n b (base.0) h)
              (omega (arith, fits, div-le_self n b))
          ∙ parse_loop-digit b (n / b) (n % b) rest (mod_base-lt b n (base.0)) base
              (omega (arith, whole, fits))
          ∙ ap (λ k. parse_loop b k rest) whole)
]

reversed-suc : (k d : ℕ) (ds : List ℕ) → reversed (suc k) (d ∷ ds) ≡ reversed k ds ++ d ∷ []
unfolding reversed
reversed-suc zero d ds = refl
reversed-suc (suc k) d ds = ap (◌∷◌ (get_or ds k 0)) (reversed-suc k d ds)

reversed-low_first :
    (fuel n b : ℕ)
    → reversed (length (low_first fuel n b)) (low_first fuel n b) ≡ high_first fuel n b
unfolding low_first high_first
reversed-low_first zero n b = unfold reversed in refl
reversed-low_first (suc fuel) n b = elim (Bool-cases (n == 0)) [
  | inl z ↦ rw (z, low_first, high_first) (unfold reversed in refl)
  | inr nz ↦
      rw (nz, low_first, high_first)
        (reversed-suc (length (low_first fuel (n / b) b)) (digit (n % b)) (low_first fuel (n / b) b)
          ∙ ap (λ t. t ++ digit (n % b) ∷ []) (reversed-low_first fuel (n / b) b))
]

-- The highest digit of a number that is not zero is not 0.
high_first-head :
    (fuel n b : ℕ)
    → IsBase b
    → 0 < n
    → n < 2 ^ fuel
    → (d : ℕ) × (rest : List ℕ) × (0 < d) × (d < 36) × (high_first fuel n b ≡ digit d ∷ rest)
unfolding high_first IsBase
high_first-head zero n b base pos h = absurd (omega arith)
high_first-head (suc fuel) n b base pos h =
    let nz : (n == 0) ≡ false = ground (arith, pos) in
    let lt = mod_base-lt b n (base.0) in
    let hi = base.1 in
    elim (Bool-cases (n / b == 0)) [
      | inl z ↦
          let e : n / b ≡ 0 = ground (arith, z) in
          let m : n % b ≡ n = omega (arith, ap (λ q. q * b) e, div-add-mod' n b) in
          (
            n % b,
            [],
            omega (arith, m, pos),
            omega (arith, lt, hi),
            rw (nz, e) (ap (λ t. t ++ digit (n % b) ∷ []) (high_first-zero fuel b)),
          )
      | inr more ↦
          let pos' : 0 < n / b = ground (arith, more) in
          let (d, rest, dpos, dlt, e) =
            high_first-head fuel (n / b) b base pos' (div_base-lt fuel n b (base.0) h) in
          (d, rest ++ digit (n % b) ∷ [], dpos, dlt, rw nz (ap (λ t. t ++ digit (n % b) ∷ []) e))
    ]
  where
    high_first-zero : (fuel b : ℕ) → high_first fuel 0 b ≡ []
    high_first-zero zero b = refl
    high_first-zero (suc fuel) b = refl

-- No prefix is read off a text that does not start with the character 0, and none off "0".
has0x_prefix-none : (c : ℕ) (rest : List ℕ) → (c == 48) ≡ false → has0x_prefix (c ∷ rest) ≡ false
unfolding has0x_prefix has_base_prefix same_text
has0x_prefix-none c rest nz = ground (arith, nz)

choose_base-plain : (b : ℕ) (s : List ℕ) → 2 ≤ b → has0x_prefix s ≡ false → choose_base s b ≡ (b, s)
unfolding choose_base
choose_base-plain b s two none' =
    let pos : (b == 0) ≡ false = ground (arith, two) in
    elim (Bool-cases (b == 16)) [
      | inl e ↦ rw (pos, none', e) refl
      | inr e ↦ rw (pos, none', e) refl
    ]

parse_uint-plain :
    (b c m : ℕ) (rest : List ℕ)
    → choose_base (c ∷ rest) b ≡ (b, c ∷ rest)
    → parse_loop b 0 (c ∷ rest) ≡ ok m
    → parse_uint (c ∷ rest) b ≡ ok m
unfolding parse_uint
parse_uint-plain b c m rest e run =
    let some_left : (length (c ∷ rest) == 0) ≡ false = ground arith in rw (e, some_left) run

one_at : ℕ → ℕ
one_at k = if k == 0 then 1 else if digit k == 48 then 0 else 1

digit_nonzero : (d : ℕ) → 0 < d → d < 36 → (digit d == 48) ≡ false
unfolding one_at digit agree_below
digit_nonzero d pos lt = from_one (agree_below→eq one_at (λ k. 1) 36 refl d lt)
  where
    from_one : one_at d ≡ 1 → (digit d == 48) ≡ false
    from_one e = ground (arith, e, pos)

format_uint-high_first :
    (i base : ℕ) → IsBase base → 0 < i → format_uint i base ≡ ok (high_first 64 i base)
unfolding format_uint
format_uint-high_first i base b pos =
    let nz : (i == 0) ≡ false = ground (arith, pos) in
    rw (nz, format_loop-low_first 64 [] i base b) (ap ok (reversed-low_first 64 i base))

-- ParseUint reads back what FormatUint writes: for every base from 2 to 36 and every number below
-- 2 ^ 64, FormatUint returns a text, which ParseUint in the same base reads as the number.
pub parse_uint-format_uint :
    (i base : ℕ)
    → 2 ≤ base
    → base ≤ 36
    → i < 2 ^ 64
    → (t : List ℕ) × (format_uint i base ≡ ok t) × (parse_uint t base ≡ ok i)
unfolding IsBase digit
parse_uint-format_uint i base lo hi fits = elim (Bool-cases (i == 0)) [
  | inl z ↦
      let e : i ≡ 0 = ground (arith, z) in
      (
        codes "0",
        unfold format_uint in rw z refl,
        parse_uint-plain base 48 i []
            (choose_base-plain base (codes "0") lo
              (unfold has0x_prefix in unfold has_base_prefix in refl))
            (parse_loop-digit base 0 0 [] (omega (arith, lo)) (lo, hi) (omega arith)
              ∙ unfold parse_loop in ap ok (omega (arith, e))),
      )
  | inr nz ↦
      let pos : 0 < i = ground (arith, nz) in
      let (d, rest, dpos, dlt, e) = high_first-head 64 i base (lo, hi) pos fits in
      let run = parse_loop-high_first 64 i base [] (lo, hi) fits fits in
      let parsed : parse_loop base 0 (digit d ∷ rest) ≡ ok i =
        sym (ap (parse_loop base 0) (append-nil (high_first 64 i base) ∙ e)) ∙ run ∙ done i in
      (
        high_first 64 i base,
        format_uint-high_first i base (lo, hi) pos,
        ap (λ t. parse_uint t base) e
            ∙ parse_uint-plain base (digit d) i rest
                (choose_base-plain base (digit d ∷ rest) lo
                  (has0x_prefix-none (digit d) rest (digit_nonzero d dpos dlt)))
                parsed,
      )
]
  where
    done : (n : ℕ) → parse_loop base n [] ≡ ok n
    done n = unfold parse_loop in refl
