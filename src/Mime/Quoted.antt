-- ===== src/Mime/Quoted.antt =====
-- stdlib/mime/quotedprintable/quotedprintable.go. What the writer below has taken is a list of bytes:
-- the code never reads the result of a write to it.
pub mod Decode
pub mod RoundTrip
pub mod Width
use wasigoc.Common.{
  ℕ, zero, suc, ◌+◌, ◌-◌, ◌*◌, ◌/◌, ◌%◌, ◌^◌, Bool, true, false, not, ◌&&◌, ◌||◌, ◌==◌, ltb, leb,
  if◌then◌else◌, List, [], ◌∷◌, ◌++◌, foldl, codes, Option, none, some, bit_and, bit_or,
}
use wasigoc.Common.{length, get_or, take, drop}
use wasigoc.Common.Bits.{u8}

unfoldable pub hex_digits : List ℕ
hex_digits = codes "0123456789ABCDEF"

unfoldable pub is_qp_literal : ℕ → Bool
is_qp_literal b = leb 33 b && leb b 126 && not (b == 61)

pub record Writer : Type 0 where
  pub taken : List ℕ
  pub pending_ws : List ℕ
  pub line_len : ℕ

pub new_writer : Writer
new_writer = record { taken = []; pending_ws = []; line_len = 0 }

-- The write of some bytes, and the new length of the line.
abbrev pub put : List ℕ → ℕ → Writer → Writer
put bytes line_len w = record {
  taken = w.taken ++ bytes;
  pending_ws = w.pending_ws;
  line_len = line_len;
}

unfoldable pub soft_break_if_needed : ℕ → Writer → Writer
soft_break_if_needed width w =
    if ltb 76 (w.line_len + width) then put (61 ∷ 13 ∷ 10 ∷ []) 0 w else w

unfoldable pub emit_literal : ℕ → Writer → Writer
emit_literal b w = let w' = soft_break_if_needed 1 w in put (b ∷ []) (w'.line_len + 1) w'

unfoldable pub emit_encoded : ℕ → Writer → Writer
emit_encoded b w =
    let w' = soft_break_if_needed 3 w in
    put (61 ∷ get_or hex_digits (b / 2 ^ 4) 0 ∷ get_or hex_digits (bit_and b 15) 0 ∷ [])
      (w'.line_len + 3) w'

abbrev pub keep_ws : List ℕ → Writer → Writer
keep_ws pending w = record { taken = w.taken; pending_ws = pending; line_len = w.line_len }

-- The loops over the blanks that wait.
pub encode_each : List ℕ → Writer → Writer
encode_each [] w = w
encode_each (b ∷ pending) w = encode_each pending (emit_encoded b w)

pub literal_each : List ℕ → Writer → Writer
literal_each [] w = w
literal_each (b ∷ pending) w = literal_each pending (emit_literal b w)

unfoldable pub flush_pending_as_encoded : Writer → Writer
flush_pending_as_encoded w = keep_ws [] (encode_each (w.pending_ws) w)

unfoldable pub flush_pending_as_literal : Writer → Writer
flush_pending_as_literal w = keep_ws [] (literal_each (w.pending_ws) w)

-- A round of Write.
unfoldable pub write_byte : Writer → ℕ → Writer
write_byte w b =
    if b == 10
    then put (13 ∷ 10 ∷ []) 0 (flush_pending_as_encoded w)
    else if b == 13
    then w
    else if (b == 32) || (b == 9)
    then keep_ws (w.pending_ws ++ b ∷ []) w
    else if is_qp_literal b
    then emit_literal b (flush_pending_as_literal w)
    else emit_encoded b (flush_pending_as_literal w)

pub write : Writer → List ℕ → Writer
write w [] = w
write w (b ∷ p) = write (write_byte w b) p

abbrev pub close : Writer → Writer
close w = flush_pending_as_encoded w

unfoldable pub is_hex_digit : ℕ → Bool
is_hex_digit b = (leb 48 b && leb b 57) || (leb 65 b && leb b 70) || (leb 97 b && leb b 102)

unfoldable pub hex_val : ℕ → ℕ
hex_val b =
    if leb 48 b && leb b 57
    then b - 48
    else if leb 65 b && leb b 70
    then b - 65 + 10
    else b - 97 + 10

-- The bytes behind `=`: what they stand for, and how many are read with it.
unfoldable pub escape : List ℕ → List ℕ × ℕ
escape [] = (61 ∷ [], 1)
escape (a ∷ []) = if a == 10 then ([], 2) else (61 ∷ [], 1)
escape (a ∷ b ∷ rest) =
    if (a == 13) && (b == 10)
    then ([], 3)
    else if a == 10
    then ([], 2)
    else if is_hex_digit a && is_hex_digit b
    then (bit_or (u8 (hex_val a * 2 ^ 4)) (hex_val b) ∷ [], 3)
    else (61 ∷ [], 1)

-- A round of decodeAll at the first byte of what is left.
unfoldable pub decode_step : ℕ → List ℕ → List ℕ × ℕ
decode_step b rest = if b == 61 then escape rest else (b ∷ [], 1)

-- The loop of decodeAll on fuel: a round reads a byte at least.
pub decode_loop : ℕ → List ℕ → List ℕ
decode_loop zero raw = []
decode_loop (suc fuel) [] = []
decode_loop (suc fuel) (b ∷ rest) =
    let read : List ℕ × ℕ = decode_step b rest in
    read.0 ++ decode_loop fuel (drop (read.1) (b ∷ rest))

pub decode_all : List ℕ → List ℕ
decode_all raw = decode_loop (length raw) raw

pub record Reader : Type 0 where
  pub out : List ℕ
  pub pos : ℕ

pub new_reader : List ℕ → Reader
new_reader raw = record { out = decode_all raw; pos = 0 }

-- `none` is io.EOF; else the bytes that are copied into a slice of `n` bytes.
pub read : Reader → ℕ → Option (List ℕ) × Reader
read r n =
    if leb (length (r.out)) (r.pos)
    then (none, r)
    else (let copied = take n (drop (r.pos) (r.out)) in
        (some copied, record { out = r.out; pos = r.pos + length copied }))
