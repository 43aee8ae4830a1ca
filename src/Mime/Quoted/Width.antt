-- ===== src/Mime/Quoted/Width.antt =====
-- How long the lines are that the writer writes.
use wasigoc.Common.{
  ℕ, ◌+◌, ◌/◌, ◌^◌, ◌≡◌, ◌≤◌, ◌<◌, refl, sym, ap, ◌∙◌, subst, arith, Bool, true, false, ◌||◌, ◌==◌,
  ltb, if◌then◌else◌, List, [], ◌∷◌, ◌++◌, foldl, bit_and,
}
use wasigoc.Common.{get_or, Bool-cases, inl, inr, All, All-append}
use wasigoc.Common.Bits.{IsByte, bit_and_mask}
use wasigoc.Common.Tables.{agree_below, agree_below→eq}
use wasigoc.Mime.Quoted.RoundTrip.{
  emit_literal-pending, emit_encoded-pending, flush_literal-empty, flush_encoded-empty,
}
use wasigoc.Mime.Quoted.{
  hex_digits, Writer, new_writer, put, soft_break_if_needed, emit_literal, emit_encoded,
  encode_each, literal_each, flush_pending_as_encoded, flush_pending_as_literal, is_qp_literal,
  write_byte, write, close,
}

-- The length of the line behind a byte: a line end is no part of it.
next_column : ℕ → ℕ → ℕ
next_column column b = if b == 10 then 0 else if b == 13 then column else column + 1

-- No line is longer than 77 bytes, where `column` bytes of the first one stand before the text.
pub Narrow : ℕ → List ℕ → Type 0
Narrow column [] = Unit
Narrow column (b ∷ raw) = (next_column column b ≤ 77) × Narrow (next_column column b) raw

Narrow-append :
    (column : ℕ) (raw more : List ℕ)
    → Narrow column raw
    → Narrow (foldl next_column column raw) more
    → Narrow column (raw ++ more)
unfolding Narrow
Narrow-append column [] more first second = second
Narrow-append column (b ∷ raw) more (h, first) second =
    (h, Narrow-append (next_column column b) raw more first second)

foldl-append :
    (column : ℕ) (raw more : List ℕ)
    → foldl next_column column (raw ++ more) ≡ foldl next_column (foldl next_column column raw) more
foldl-append column [] more = refl
foldl-append column (b ∷ raw) more = foldl-append (next_column column b) raw more

-- The writer knows the length of the line, which has room for the `=` of a soft line break.
abbrev Neat : Writer → Type 0
Neat w = Narrow 0 (w.taken) × (foldl next_column 0 (w.taken) ≡ w.line_len) × (w.line_len ≤ 76)

put-Neat :
    (bytes : List ℕ) (line_len : ℕ) (w : Writer)
    → Neat w
    → Narrow (w.line_len) bytes
    → foldl next_column (w.line_len) bytes ≡ line_len
    → line_len ≤ 76
    → Neat (put bytes line_len w)
put-Neat bytes line_len w (narrow, knows, room) narrow' e fits = (
  Narrow-append 0 (w.taken) bytes narrow (subst (λ c. Narrow c bytes) (sym knows) narrow'),
  foldl-append 0 (w.taken) bytes ∙ ap (λ c. foldl next_column c bytes) knows ∙ e,
  fits,
)

next_column-suc :
    (column b : ℕ) → ((b == 10) || (b == 13)) ≡ false → next_column column b ≡ column + 1
unfolding next_column
next_column-suc column b h = ground (arith, h)

-- Behind a soft line break there is room.
soft_break-Neat :
    (width : ℕ) (w : Writer)
    → width ≤ 76
    → Neat w
    → Neat (soft_break_if_needed width w) × ((soft_break_if_needed width w).line_len + width ≤ 76)
unfolding soft_break_if_needed Narrow next_column
soft_break-Neat width w small (narrow, knows, room) =
    elim (Bool-cases (ltb 76 (w.line_len + width))) [
      | inl full ↦ rw full (
        put-Neat (61 ∷ 13 ∷ 10 ∷ []) 0 w (narrow, knows, room)
            (omega (arith, room), (omega (arith, room), (omega arith, tt))) refl (omega arith),
        omega (arith, small),
      )
      | inr fits ↦ rw fits ((narrow, knows, room), ground (arith, fits))
    ]

emit_literal-Neat :
    (b : ℕ) (w : Writer) → ((b == 10) || (b == 13)) ≡ false → Neat w → Neat (emit_literal b w)
unfolding emit_literal Narrow
emit_literal-Neat b w plain neat =
    let w' = soft_break_if_needed 1 w in
    let (neat', room) = soft_break-Neat 1 w (omega arith) neat in
    let longer = next_column-suc (w'.line_len) b plain in
    put-Neat (b ∷ []) (w'.line_len + 1) w' neat' (omega (arith, longer, room), tt) longer room

abbrev indicator : Bool → ℕ
indicator b = if b then 1 else 0

one_or_zero : (b : Bool) → indicator b ≡ 0 → b ≡ false
one_or_zero true h = absurd (omega (arith, h))
one_or_zero false h = refl

abbrev ends : ℕ → Bool
ends d = (get_or hex_digits d 0 == 10) || (get_or hex_digits d 0 == 13)

digit-plain :
    (d : ℕ) → d < 16 → ((get_or hex_digits d 0 == 10) || (get_or hex_digits d 0 == 13)) ≡ false
unfolding hex_digits agree_below
digit-plain d h =
    one_or_zero (ends d) (agree_below→eq (λ d. indicator (ends d)) (λ d. 0) 16 refl d h)

emit_encoded-Neat : (b : ℕ) (w : Writer) → b < 256 → Neat w → Neat (emit_encoded b w)
unfolding emit_encoded Narrow
emit_encoded-Neat b w h neat =
    let w' = soft_break_if_needed 3 w in
    let (neat', room) = soft_break-Neat 3 w (omega arith) neat in
    let x = get_or hex_digits (b / 2 ^ 4) 0 in
    let y = get_or hex_digits (bit_and b 15) 0 in
    let mark = next_column-suc (w'.line_len) 61 refl in
    let first = next_column-suc (w'.line_len + 1) x (digit-plain (b / 2 ^ 4) (omega (arith, h))) in
    let second =
      next_column-suc (w'.line_len + 1 + 1) y
        (digit-plain (bit_and b 15) (omega (arith, bit_and_mask 4 b))) in
    put-Neat (61 ∷ x ∷ y ∷ []) (w'.line_len + 3) w' neat'
      (rw (mark, first, second)
        (omega (arith, room), (omega (arith, room), (omega (arith, room), tt))))
      (rw (mark, first, second) (omega arith)) room

-- A byte that ends no line.
abbrev Inside : ℕ → Type 0
Inside b = (((b == 10) || (b == 13)) ≡ false) × (b < 256)

encode_each-Neat :
    (pending : List ℕ) (w : Writer) → All Inside pending → Neat w → Neat (encode_each pending w)
unfolding encode_each
encode_each-Neat [] w good neat = neat
encode_each-Neat (b ∷ pending) w ((plain, h), good) neat =
    encode_each-Neat pending (emit_encoded b w) good (emit_encoded-Neat b w h neat)

literal_each-Neat :
    (pending : List ℕ) (w : Writer) → All Inside pending → Neat w → Neat (literal_each pending w)
unfolding literal_each
literal_each-Neat [] w good neat = neat
literal_each-Neat (b ∷ pending) w ((plain, h), good) neat =
    literal_each-Neat pending (emit_literal b w) good (emit_literal-Neat b w plain neat)

abbrev Tidy : Writer → Type 0
Tidy w = Neat w × All Inside (w.pending_ws)

flush_encoded-Neat : (w : Writer) → Tidy w → Neat (flush_pending_as_encoded w)
unfolding flush_pending_as_encoded
flush_encoded-Neat w (neat, good) = encode_each-Neat (w.pending_ws) w good neat

flush_literal-Neat : (w : Writer) → Tidy w → Neat (flush_pending_as_literal w)
unfolding flush_pending_as_literal
flush_literal-Neat w (neat, good) = literal_each-Neat (w.pending_ws) w good neat

pending-Inside : (w' : Writer) → w'.pending_ws ≡ [] → All Inside (w'.pending_ws)
pending-Inside w' none_waits = subst (All Inside) (sym none_waits) tt

-- A line ends.
put-line_end : (w : Writer) → Neat w → Neat (put (13 ∷ 10 ∷ []) 0 w)
unfolding Narrow next_column
put-line_end w neat =
    put-Neat (13 ∷ 10 ∷ []) 0 w neat (omega (arith, neat.2), (omega arith, tt)) refl (omega arith)

write_byte-Tidy : (w : Writer) (b : ℕ) → b < 256 → Tidy w → Tidy (write_byte w b)
unfolding write_byte
write_byte-Tidy w b h (neat, good) = elim (Bool-cases (b == 10)) [
  | inl lf ↦ rw lf (
    put-line_end (flush_pending_as_encoded w) (flush_encoded-Neat w (neat, good)),
    pending-Inside (flush_pending_as_encoded w) (flush_encoded-empty w),
  )
  | inr no_lf ↦ elim (Bool-cases (b == 13)) [
    | inl cr ↦ rw (no_lf, cr) (neat, good)
    | inr no_cr ↦
        let plain : ((b == 10) || (b == 13)) ≡ false = rw (no_lf, no_cr) refl in
        elim (Bool-cases ((b == 32) || (b == 9))) [
          | inl blank ↦
              rw (no_lf, no_cr, blank)
                (neat, All-append Inside (w.pending_ws) (b ∷ []) good ((plain, h), tt))
          | inr other ↦
              rw (no_lf, no_cr, other)
                (elim (Bool-cases (is_qp_literal b)) [
                  | inl literal ↦ rw literal (
                    emit_literal-Neat b (flush_pending_as_literal w) plain
                        (flush_literal-Neat w (neat, good)),
                    pending-Inside (emit_literal b (flush_pending_as_literal w)) (
                        emit_literal-pending b (flush_pending_as_literal w)
                        ∙ flush_literal-empty w),
                  )
                  | inr coded ↦ rw coded (
                    emit_encoded-Neat b (flush_pending_as_literal w) h
                        (flush_literal-Neat w (neat, good)),
                    pending-Inside (emit_encoded b (flush_pending_as_literal w)) (
                        emit_encoded-pending b (flush_pending_as_literal w)
                        ∙ flush_literal-empty w),
                  )
                ])
        ]
  ]
]

write-Tidy : (p : List ℕ) (w : Writer) → All IsByte p → Tidy w → Tidy (write w p)
unfolding write
write-Tidy [] w good tidy = tidy
write-Tidy (b ∷ p) w (h, good) tidy =
    write-Tidy p (write_byte w b) good (write_byte-Tidy w b h tidy)

-- No line of what the writer writes of bytes and closes is longer than 77 bytes without its line end.
pub write-Narrow : (p : List ℕ) → All IsByte p → Narrow 0 ((close (write new_writer p)).taken)
unfolding new_writer Narrow
write-Narrow p good =
    let start : Tidy new_writer = ((tt, refl, omega arith), tt) in
    (flush_encoded-Neat (write new_writer p) (write-Tidy p new_writer good start)).0
