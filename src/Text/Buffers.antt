-- ===== src/Text/Buffers.antt =====
-- strings.Builder, bytes.Buffer and the readers of both packages. A text is the list of its bytes;
-- a read that fills a buffer returns the number of bytes, the buffer and the new state.
pub mod Laws
use wasigoc.Common.{
  ℕ, zero, suc, ◌+◌, ◌-◌, ◌≤◌, ◌<◌, min, ◌≡◌, refl, sym, ap, ◌∙◌, arith, List, [], ◌∷◌, ◌++◌,
}
use wasigoc.Common.{Bool, true, false, ◌==◌, ◌&&◌, ltb, leb, if◌then◌else◌, length, take, drop}
use wasigoc.Common.Outcome.{Outcome, ok, err, panic, ◌>>=◌, or_panic}
use wasigoc.Common.{length-append, length-take, length-drop, take-append-drop, Bool-cases, inl, inr}
use wasigoc.Common.Slices.{load}
use wasigoc.Text.Find.{drop-drop}

pub record Builder : Type 0 where
  pub buf : List ℕ

-- `copy(p, s)`
pub copy : List ℕ → List ℕ → ℕ × List ℕ
copy p s = let n = min (length p) (length s) in (n, take n s ++ drop n p)

write_string : Builder → List ℕ → ℕ × Builder
write_string b s = (length s, record { buf = b.buf ++ s })

write : Builder → List ℕ → ℕ × Builder
write b p = (length p, record { buf = b.buf ++ p })

write_byte : Builder → ℕ → Builder
write_byte b c = record { buf = b.buf ++ c ∷ [] }

string : Builder → List ℕ
string b = b.buf

builder_len : Builder → ℕ
builder_len b = length (b.buf)

builder_reset : Builder → Builder
builder_reset b = record { buf = [] }

-- Buffer.Read takes what it copies off the front.
buffer_read : Builder → List ℕ → Outcome (ℕ × List ℕ × Builder)
buffer_read b p =
    if length (b.buf) == 0 && ltb 0 (length p)
    then err "EOF"
    else (let (n, p') = copy p (b.buf) in ok (n, p', record { buf = drop n (b.buf) }))

pub record Reader : Type 0 where
  pub s : List ℕ
  pub i : ℕ

new_reader : List ℕ → Reader
new_reader s = record { s = s; i = 0 }

reader_len : Reader → ℕ
reader_len r = if ltb (length (r.s)) (r.i) then 0 else length (r.s) - r.i

reader_size : Reader → ℕ
reader_size r = length (r.s)

pub read : Reader → List ℕ → Outcome (ℕ × List ℕ × Reader)
read r p =
    if leb (length (r.s)) (r.i)
    then if length p == 0 then ok (0, p, r) else err "EOF"
    else (let (n, p') = copy p (drop (r.i) (r.s)) in ok (n, p', record { s = r.s; i = r.i + n }))

read_byte : Reader → Outcome (ℕ × Reader)
read_byte r =
    if leb (length (r.s)) (r.i)
    then err "EOF"
    else load (r.s) (r.i) >>= λ b. ok (b, record { s = r.s; i = r.i + 1 })

-- What is still to be read.
unfoldable pub unread : Reader → List ℕ
unread r = drop (r.i) (r.s)

abbrev pub IsRead : Reader → List ℕ → Outcome (ℕ × List ℕ × Reader) → Type 0
IsRead r p (ok (n, p', r')) =
    (length p' ≡ length p)
    × (n ≡ min (length p) (length (unread r)))
    × (take n p' ++ unread r' ≡ unread r)
    × (drop n p' ≡ drop n p)
IsRead r p (err e) = (unread r ≡ []) × (0 < length p)
IsRead r p panic = ⊥
