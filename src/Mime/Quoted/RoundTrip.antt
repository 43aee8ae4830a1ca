-- ===== src/Mime/Quoted/RoundTrip.antt =====
-- What the writer writes, the reader reads.
use mathlib.Core.List.{append_assoc, append-nil}
use wasigoc.Common.{
  ℕ, ◌+◌, ◌≡◌, ◌<◌, refl, sym, ap, ◌∙◌, subst, arith, true, false, ◌||◌, ◌==◌, ltb, if◌then◌else◌,
  List, [], ◌∷◌, ◌++◌,
}
use wasigoc.Common.{Bool-cases, inl, inr, All, All-append}
use wasigoc.Common.Bits.{IsByte}
use wasigoc.Mime.Quoted.{
  Writer, new_writer, put, decode_loop, soft_break_if_needed, emit_literal, emit_encoded, keep_ws,
  encode_each, literal_each, flush_pending_as_encoded, flush_pending_as_literal, is_qp_literal,
  write_byte, write, close, decode_all,
}
use wasigoc.Mime.Quoted.Decode.{Codes, Codes-append, Codes-byte, Codes-break, Codes-escape}

-- What is read of a byte that is written: a line ends in `\r\n`, and a `\r` that is written is left out.
abbrev pub line_byte : ℕ → List ℕ
line_byte b = if b == 10 then 13 ∷ 10 ∷ [] else if b == 13 then [] else b ∷ []

abbrev pub line_text : List ℕ → List ℕ
line_text [] = []
line_text (b ∷ p) = line_byte b ++ line_text p

-- The blanks that wait are blanks, and they may be written as they are.
abbrev Blank : ℕ → Type 0
Blank b = (b == 61 ≡ false) × (b < 256)

soft_break-Codes :
    (width : ℕ) (w : Writer) (text : List ℕ)
    → Codes (w.taken) text
    → Codes ((soft_break_if_needed width w).taken) text
unfolding soft_break_if_needed
soft_break-Codes width w text says = elim (Bool-cases (ltb 76 (w.line_len + width))) [
  | inl full ↦ rw full (
      subst (Codes (w.taken ++ 61 ∷ 13 ∷ 10 ∷ [])) (append-nil text)
        (Codes-append (w.taken) (61 ∷ 13 ∷ 10 ∷ []) text [] says Codes-break))
  | inr room ↦ rw room says
]

emit_literal-Codes :
    (b : ℕ) (w : Writer) (text : List ℕ)
    → (b == 61) ≡ false
    → Codes (w.taken) text
    → Codes ((emit_literal b w).taken) (text ++ b ∷ [])
unfolding emit_literal
emit_literal-Codes b w text plain says =
    Codes-append ((soft_break_if_needed 1 w).taken) (b ∷ []) text (b ∷ [])
      (soft_break-Codes 1 w text says) (Codes-byte b plain)

emit_encoded-Codes :
    (b : ℕ) (w : Writer) (text : List ℕ)
    → b < 256
    → Codes (w.taken) text
    → Codes ((emit_encoded b w).taken) (text ++ b ∷ [])
unfolding emit_encoded
emit_encoded-Codes b w text h says =
    Codes-append ((soft_break_if_needed 3 w).taken) _ text (b ∷ []) (soft_break-Codes 3 w text says)
      (Codes-escape b h)

encode_each-Codes :
    (pending : List ℕ) (w : Writer) (text : List ℕ)
    → All Blank pending
    → Codes (w.taken) text
    → Codes ((encode_each pending w).taken) (text ++ pending)
unfolding encode_each
encode_each-Codes [] w text good says = subst (Codes (w.taken)) (sym (append-nil text)) says
encode_each-Codes (b ∷ pending) w text ((plain, h), good) says =
    subst (Codes ((encode_each pending (emit_encoded b w)).taken))
      (append_assoc text (b ∷ []) pending)
      (encode_each-Codes pending (emit_encoded b w) (text ++ b ∷ []) good
        (emit_encoded-Codes b w text h says))

literal_each-Codes :
    (pending : List ℕ) (w : Writer) (text : List ℕ)
    → All Blank pending
    → Codes (w.taken) text
    → Codes ((literal_each pending w).taken) (text ++ pending)
unfolding literal_each
literal_each-Codes [] w text good says = subst (Codes (w.taken)) (sym (append-nil text)) says
literal_each-Codes (b ∷ pending) w text ((plain, h), good) says =
    subst (Codes ((literal_each pending (emit_literal b w)).taken))
      (append_assoc text (b ∷ []) pending)
      (literal_each-Codes pending (emit_literal b w) (text ++ b ∷ []) good
        (emit_literal-Codes b w text plain says))

-- The writer has taken what stands for the start of the text, and the rest of the text waits.
abbrev Says : Writer → List ℕ → Type 0
Says w text =
    (said : List ℕ) × Codes (w.taken) said
    × All Blank (w.pending_ws)
    × (said ++ w.pending_ws ≡ text)

flush_encoded-Says :
    (w : Writer) (text : List ℕ) → Says w text → Codes ((flush_pending_as_encoded w).taken) text
unfolding flush_pending_as_encoded
flush_encoded-Says w text (said, says, good, whole) =
    subst (Codes ((encode_each (w.pending_ws) w).taken)) whole
      (encode_each-Codes (w.pending_ws) w said good says)

flush_literal-Says :
    (w : Writer) (text : List ℕ) → Says w text → Codes ((flush_pending_as_literal w).taken) text
unfolding flush_pending_as_literal
flush_literal-Says w text (said, says, good, whole) =
    subst (Codes ((literal_each (w.pending_ws) w).taken)) whole
      (literal_each-Codes (w.pending_ws) w said good says)

-- Nothing waits.
taken-Says : (w : Writer) (text : List ℕ) → Codes (w.taken) text → w.pending_ws ≡ [] → Says w text
taken-Says w text says none_waits = (
  text,
  says,
  subst (All Blank) (sym none_waits) tt,
  ap (λ p. text ++ p) none_waits ∙ append-nil text,
)

pub emit_literal-pending : (b : ℕ) (w : Writer) → (emit_literal b w).pending_ws ≡ w.pending_ws
unfolding emit_literal soft_break_if_needed
emit_literal-pending b w = elim (Bool-cases (ltb 76 (w.line_len + 1))) [
  | inl full ↦ rw full refl
  | inr room ↦ rw room refl
]

pub emit_encoded-pending : (b : ℕ) (w : Writer) → (emit_encoded b w).pending_ws ≡ w.pending_ws
unfolding emit_encoded soft_break_if_needed
emit_encoded-pending b w = elim (Bool-cases (ltb 76 (w.line_len + 3))) [
  | inl full ↦ rw full refl
  | inr room ↦ rw room refl
]

pub flush_literal-empty : (w : Writer) → (flush_pending_as_literal w).pending_ws ≡ []
unfolding flush_pending_as_literal
flush_literal-empty w = refl

pub flush_encoded-empty : (w : Writer) → (flush_pending_as_encoded w).pending_ws ≡ []
unfolding flush_pending_as_encoded
flush_encoded-empty w = refl

Codes-line_end : Codes (13 ∷ 10 ∷ []) (13 ∷ 10 ∷ [])
Codes-line_end =
    Codes-append (13 ∷ []) (10 ∷ []) (13 ∷ []) (10 ∷ []) (Codes-byte 13 refl) (Codes-byte 10 refl)

literal-plain : (b : ℕ) → is_qp_literal b ≡ true → (b == 61) ≡ false
unfolding is_qp_literal
literal-plain b h = ground (arith, h)

-- A byte that is no blank and ends no line.
write_other :
    (w : Writer) (b : ℕ) (text : List ℕ)
    → b < 256
    → Says w text
    → Says
        (if is_qp_literal b
          then emit_literal b (flush_pending_as_literal w)
          else emit_encoded b (flush_pending_as_literal w))
        (text ++ b ∷ [])
write_other w b text h says =
    let w' = flush_pending_as_literal w in
    let flushed = flush_literal-Says w text says in
    elim (Bool-cases (is_qp_literal b)) [
      | inl literal ↦ rw literal (
          taken-Says (emit_literal b w') (text ++ b ∷ [])
            (emit_literal-Codes b w' text (literal-plain b literal) flushed)
            (emit_literal-pending b w' ∙ flush_literal-empty w))
      | inr coded ↦ rw coded (
          taken-Says (emit_encoded b w') (text ++ b ∷ []) (emit_encoded-Codes b w' text h flushed)
            (emit_encoded-pending b w' ∙ flush_literal-empty w))
    ]

keep_ws-Says :
    (w : Writer) (b : ℕ) (text : List ℕ)
    → Blank b
    → Says w text
    → Says (keep_ws (w.pending_ws ++ b ∷ []) w) (text ++ b ∷ [])
keep_ws-Says w b text blank (said, says, good, whole) = (
  said,
  says,
  All-append Blank (w.pending_ws) (b ∷ []) good (blank, tt),
  sym (append_assoc said (w.pending_ws) (b ∷ [])) ∙ ap (λ t. t ++ b ∷ []) whole,
)

write_byte-Says :
    (w : Writer) (b : ℕ) (text : List ℕ)
    → b < 256
    → Says w text
    → Says (write_byte w b) (text ++ line_byte b)
unfolding write_byte
write_byte-Says w b text h says = elim (Bool-cases (b == 10)) [
  | inl lf ↦ rw lf (
      let w' = flush_pending_as_encoded w in
      taken-Says (put (13 ∷ 10 ∷ []) 0 w') (text ++ 13 ∷ 10 ∷ [])
        (Codes-append (w'.taken) (13 ∷ 10 ∷ []) text (13 ∷ 10 ∷ []) (flush_encoded-Says w text says)
          Codes-line_end)
        (flush_encoded-empty w))
  | inr no_lf ↦ elim (Bool-cases (b == 13)) [
    | inl cr ↦ rw (no_lf, cr) (subst (Says w) (sym (append-nil text)) says)
    | inr no_cr ↦ elim (Bool-cases ((b == 32) || (b == 9))) [
      | inl blank ↦ rw (no_lf, no_cr, blank) (keep_ws-Says w b text (ground (arith, blank), h) says)
      | inr other ↦ rw (no_lf, no_cr, other) (write_other w b text h says)
    ]
  ]
]

write-Says :
    (p : List ℕ) (w : Writer) (text : List ℕ)
    → All IsByte p
    → Says w text
    → Says (write w p) (text ++ line_text p)
unfolding write
write-Says [] w text good says = subst (Says w) (sym (append-nil text)) says
write-Says (b ∷ p) w text (h, good) says =
    subst (Says (write (write_byte w b) p)) (append_assoc text (line_byte b) (line_text p))
      (write-Says p (write_byte w b) (text ++ line_byte b) good (write_byte-Says w b text h says))

-- decodeAll reads back what the writer has written of a text and closed: the text with `\r\n` at the
-- end of its lines and no other `\r`; soft line breaks and escapes leave no trace.
pub decode_all-write :
    (p : List ℕ) → All IsByte p → decode_all ((close (write new_writer p)).taken) ≡ line_text p
unfolding new_writer decode_all decode_loop
decode_all-write p good =
    let says = write-Says p new_writer [] good ([], (λ rest. refl), tt, refl) in
    let raw = (close (write new_writer p)).taken in
    ap decode_all (sym (append-nil raw))
    ∙ flush_encoded-Says (write new_writer p) (line_text p) says []
    ∙ append-nil (line_text p)
