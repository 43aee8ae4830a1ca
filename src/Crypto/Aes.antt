-- ===== src/Crypto/Aes.antt =====
-- stdlib/crypto/aes/aes.go. A state is the list of its 16 bytes, the columns one behind the other.
pub mod Laws
pub mod Inverse
pub mod Mix
pub mod Columns
use wasigoc.Common.{
  ℕ, zero, suc, ◌+◌, ◌-◌, ◌*◌, ◌/◌, ◌%◌, Bool, ◌==◌, ltb, if◌then◌else◌, List, [], ◌∷◌, ◌++◌, map,
  foldl, bit_and, bit_xor,
}
use wasigoc.Common.{length, get_or, set, take, drop, replicate}
use wasigoc.Common.Bits.{u8}
use wasigoc.Common.Outcome.{Outcome, ok, err, panic, ◌>>=◌}

unfoldable pub sbox : List ℕ
sbox =
    99 ∷ 124 ∷ 119 ∷ 123 ∷ 242 ∷ 107 ∷ 111 ∷ 197 ∷ 48 ∷ 1 ∷ 103 ∷ 43 ∷ 254 ∷ 215 ∷ 171 ∷ 118 ∷ 202
    ∷ 130 ∷ 201 ∷ 125 ∷ 250 ∷ 89 ∷ 71 ∷ 240 ∷ 173 ∷ 212 ∷ 162 ∷ 175 ∷ 156 ∷ 164 ∷ 114 ∷ 192 ∷ 183
    ∷ 253 ∷ 147 ∷ 38 ∷ 54 ∷ 63 ∷ 247 ∷ 204 ∷ 52 ∷ 165 ∷ 229 ∷ 241 ∷ 113 ∷ 216 ∷ 49 ∷ 21 ∷ 4 ∷ 199
    ∷ 35 ∷ 195 ∷ 24 ∷ 150 ∷ 5 ∷ 154 ∷ 7 ∷ 18 ∷ 128 ∷ 226 ∷ 235 ∷ 39 ∷ 178 ∷ 117 ∷ 9 ∷ 131 ∷ 44 ∷ 26
    ∷ 27 ∷ 110 ∷ 90 ∷ 160 ∷ 82 ∷ 59 ∷ 214 ∷ 179 ∷ 41 ∷ 227 ∷ 47 ∷ 132 ∷ 83 ∷ 209 ∷ 0 ∷ 237 ∷ 32
    ∷ 252 ∷ 177 ∷ 91 ∷ 106 ∷ 203 ∷ 190 ∷ 57 ∷ 74 ∷ 76 ∷ 88 ∷ 207 ∷ 208 ∷ 239 ∷ 170 ∷ 251 ∷ 67 ∷ 77
    ∷ 51 ∷ 133 ∷ 69 ∷ 249 ∷ 2 ∷ 127 ∷ 80 ∷ 60 ∷ 159 ∷ 168 ∷ 81 ∷ 163 ∷ 64 ∷ 143 ∷ 146 ∷ 157 ∷ 56
    ∷ 245 ∷ 188 ∷ 182 ∷ 218 ∷ 33 ∷ 16 ∷ 255 ∷ 243 ∷ 210 ∷ 205 ∷ 12 ∷ 19 ∷ 236 ∷ 95 ∷ 151 ∷ 68 ∷ 23
    ∷ 196 ∷ 167 ∷ 126 ∷ 61 ∷ 100 ∷ 93 ∷ 25 ∷ 115 ∷ 96 ∷ 129 ∷ 79 ∷ 220 ∷ 34 ∷ 42 ∷ 144 ∷ 136 ∷ 70
    ∷ 238 ∷ 184 ∷ 20 ∷ 222 ∷ 94 ∷ 11 ∷ 219 ∷ 224 ∷ 50 ∷ 58 ∷ 10 ∷ 73 ∷ 6 ∷ 36 ∷ 92 ∷ 194 ∷ 211 ∷ 172
    ∷ 98 ∷ 145 ∷ 149 ∷ 228 ∷ 121 ∷ 231 ∷ 200 ∷ 55 ∷ 109 ∷ 141 ∷ 213 ∷ 78 ∷ 169 ∷ 108 ∷ 86 ∷ 244
    ∷ 234 ∷ 101 ∷ 122 ∷ 174 ∷ 8 ∷ 186 ∷ 120 ∷ 37 ∷ 46 ∷ 28 ∷ 166 ∷ 180 ∷ 198 ∷ 232 ∷ 221 ∷ 116 ∷ 31
    ∷ 75 ∷ 189 ∷ 139 ∷ 138 ∷ 112 ∷ 62 ∷ 181 ∷ 102 ∷ 72 ∷ 3 ∷ 246 ∷ 14 ∷ 97 ∷ 53 ∷ 87 ∷ 185 ∷ 134
    ∷ 193 ∷ 29 ∷ 158 ∷ 225 ∷ 248 ∷ 152 ∷ 17 ∷ 105 ∷ 217 ∷ 142 ∷ 148 ∷ 155 ∷ 30 ∷ 135 ∷ 233 ∷ 206
    ∷ 85 ∷ 40 ∷ 223 ∷ 140 ∷ 161 ∷ 137 ∷ 13 ∷ 191 ∷ 230 ∷ 66 ∷ 104 ∷ 65 ∷ 153 ∷ 45 ∷ 15 ∷ 176 ∷ 84
    ∷ 187 ∷ 22 ∷ []

unfoldable pub inv_sbox : List ℕ
inv_sbox =
    82 ∷ 9 ∷ 106 ∷ 213 ∷ 48 ∷ 54 ∷ 165 ∷ 56 ∷ 191 ∷ 64 ∷ 163 ∷ 158 ∷ 129 ∷ 243 ∷ 215 ∷ 251 ∷ 124
    ∷ 227 ∷ 57 ∷ 130 ∷ 155 ∷ 47 ∷ 255 ∷ 135 ∷ 52 ∷ 142 ∷ 67 ∷ 68 ∷ 196 ∷ 222 ∷ 233 ∷ 203 ∷ 84 ∷ 123
    ∷ 148 ∷ 50 ∷ 166 ∷ 194 ∷ 35 ∷ 61 ∷ 238 ∷ 76 ∷ 149 ∷ 11 ∷ 66 ∷ 250 ∷ 195 ∷ 78 ∷ 8 ∷ 46 ∷ 161
    ∷ 102 ∷ 40 ∷ 217 ∷ 36 ∷ 178 ∷ 118 ∷ 91 ∷ 162 ∷ 73 ∷ 109 ∷ 139 ∷ 209 ∷ 37 ∷ 114 ∷ 248 ∷ 246 ∷ 100
    ∷ 134 ∷ 104 ∷ 152 ∷ 22 ∷ 212 ∷ 164 ∷ 92 ∷ 204 ∷ 93 ∷ 101 ∷ 182 ∷ 146 ∷ 108 ∷ 112 ∷ 72 ∷ 80 ∷ 253
    ∷ 237 ∷ 185 ∷ 218 ∷ 94 ∷ 21 ∷ 70 ∷ 87 ∷ 167 ∷ 141 ∷ 157 ∷ 132 ∷ 144 ∷ 216 ∷ 171 ∷ 0 ∷ 140 ∷ 188
    ∷ 211 ∷ 10 ∷ 247 ∷ 228 ∷ 88 ∷ 5 ∷ 184 ∷ 179 ∷ 69 ∷ 6 ∷ 208 ∷ 44 ∷ 30 ∷ 143 ∷ 202 ∷ 63 ∷ 15 ∷ 2
    ∷ 193 ∷ 175 ∷ 189 ∷ 3 ∷ 1 ∷ 19 ∷ 138 ∷ 107 ∷ 58 ∷ 145 ∷ 17 ∷ 65 ∷ 79 ∷ 103 ∷ 220 ∷ 234 ∷ 151
    ∷ 242 ∷ 207 ∷ 206 ∷ 240 ∷ 180 ∷ 230 ∷ 115 ∷ 150 ∷ 172 ∷ 116 ∷ 34 ∷ 231 ∷ 173 ∷ 53 ∷ 133 ∷ 226
    ∷ 249 ∷ 55 ∷ 232 ∷ 28 ∷ 117 ∷ 223 ∷ 110 ∷ 71 ∷ 241 ∷ 26 ∷ 113 ∷ 29 ∷ 41 ∷ 197 ∷ 137 ∷ 111 ∷ 183
    ∷ 98 ∷ 14 ∷ 170 ∷ 24 ∷ 190 ∷ 27 ∷ 252 ∷ 86 ∷ 62 ∷ 75 ∷ 198 ∷ 210 ∷ 121 ∷ 32 ∷ 154 ∷ 219 ∷ 192
    ∷ 254 ∷ 120 ∷ 205 ∷ 90 ∷ 244 ∷ 31 ∷ 221 ∷ 168 ∷ 51 ∷ 136 ∷ 7 ∷ 199 ∷ 49 ∷ 177 ∷ 18 ∷ 16 ∷ 89
    ∷ 39 ∷ 128 ∷ 236 ∷ 95 ∷ 96 ∷ 81 ∷ 127 ∷ 169 ∷ 25 ∷ 181 ∷ 74 ∷ 13 ∷ 45 ∷ 229 ∷ 122 ∷ 159 ∷ 147
    ∷ 201 ∷ 156 ∷ 239 ∷ 160 ∷ 224 ∷ 59 ∷ 77 ∷ 174 ∷ 42 ∷ 245 ∷ 176 ∷ 200 ∷ 235 ∷ 187 ∷ 60 ∷ 131 ∷ 83
    ∷ 153 ∷ 97 ∷ 23 ∷ 43 ∷ 4 ∷ 126 ∷ 186 ∷ 119 ∷ 214 ∷ 38 ∷ 225 ∷ 105 ∷ 20 ∷ 99 ∷ 85 ∷ 33 ∷ 12 ∷ 125
    ∷ []

abbrev pub rcon : List ℕ
rcon = 1 ∷ 2 ∷ 4 ∷ 8 ∷ 16 ∷ 32 ∷ 64 ∷ 128 ∷ 27 ∷ 54 ∷ []

-- A round of gmul doubles `a`.
unfoldable pub double : ℕ → ℕ
double a = if bit_and a 128 == 0 then u8 (a * 2) else bit_xor (u8 (a * 2)) 27

-- The loop of gmul.
pub gmul_loop : ℕ → ℕ → ℕ → ℕ → ℕ
gmul_loop zero a b p = p
gmul_loop (suc count) a b p =
    gmul_loop count (double a) (b / 2) (if bit_and b 1 == 0 then p else bit_xor p a)

unfoldable pub gmul : ℕ → ℕ → ℕ
gmul a b = gmul_loop 8 a b 0

-- The first word of four that a new word is made of.
abbrev pub sub_word : ℕ → ℕ → ℕ → ℕ → ℕ → List ℕ
sub_word round t0 t1 t2 t3 =
    bit_xor (get_or sbox t1 0) (get_or rcon round 0)
    ∷ get_or sbox t2 0
    ∷ get_or sbox t3 0
    ∷ get_or sbox t0 0
    ∷ []

-- The bytes of the list from an index on are joined to those of a word.
pub join_word : List ℕ → ℕ → List ℕ → List ℕ
join_word w from [] = []
join_word w from (t ∷ word) = bit_xor (get_or w from 0) t ∷ join_word w (from + 1) word

abbrev pub last_word : List ℕ → ℕ → List ℕ
last_word w i =
    let t0 = get_or w ((i - 1) * 4) 0 in
    let t1 = get_or w ((i - 1) * 4 + 1) 0 in
    let t2 = get_or w ((i - 1) * 4 + 2) 0 in
    let t3 = get_or w ((i - 1) * 4 + 3) 0 in
    if i % 4 == 0 then sub_word (i / 4 - 1) t0 t1 t2 t3 else t0 ∷ t1 ∷ t2 ∷ t3 ∷ []

-- The loop of expandKey from word `i` on, where `w` are the words before it.
pub expand_loop : ℕ → ℕ → List ℕ → List ℕ
expand_loop zero i w = w
expand_loop (suc count) i w =
    expand_loop count (i + 1) (w ++ join_word w ((i - 4) * 4) (last_word w i))

pub expand_key : List ℕ → List ℕ
expand_key key = expand_loop 40 4 (take 16 key)

pub new_cipher : List ℕ → Outcome (List ℕ)
new_cipher key =
    if length key == 16
    then ok (expand_key key)
    else err "crypto/aes: invalid key size, only AES-128 (16-byte key) is supported"

-- The bytes of the state are joined to the keys from an index on.
pub add_keys : List ℕ → ℕ → List ℕ → List ℕ
add_keys round_keys from [] = []
add_keys round_keys from (x ∷ state) =
    bit_xor x (get_or round_keys from 0) ∷ add_keys round_keys (from + 1) state

abbrev pub add_round_key : List ℕ → ℕ → List ℕ → List ℕ
add_round_key round_keys round state = add_keys round_keys (round * 16) state

unfoldable pub sub_bytes : List ℕ → List ℕ → List ℕ
sub_bytes box state = map (λ x. get_or box x 0) state

-- The pairs of a row and a column, in the order of the loops.
abbrev places : List (ℕ × ℕ)
places =
    (0, 0)
    ∷ (0, 1)
    ∷ (0, 2)
    ∷ (0, 3)
    ∷ (1, 0)
    ∷ (1, 1)
    ∷ (1, 2)
    ∷ (1, 3)
    ∷ (2, 0)
    ∷ (2, 1)
    ∷ (2, 2)
    ∷ (2, 3)
    ∷ (3, 0)
    ∷ (3, 1)
    ∷ (3, 2)
    ∷ (3, 3)
    ∷ []

abbrev shift_one : List ℕ → List ℕ → ℕ × ℕ → List ℕ
shift_one state out (r, c) = set out (r + 4 * c) (get_or state (r + 4 * ((c + r) % 4)) 0)

pub shift_rows : List ℕ → List ℕ
shift_rows state = foldl (shift_one state) (replicate 16 0) places

abbrev unshift_one : List ℕ → List ℕ → ℕ × ℕ → List ℕ
unshift_one state out (r, c) = set out (r + 4 * ((c + r) % 4)) (get_or state (r + 4 * c) 0)

pub inv_shift_rows : List ℕ → List ℕ
inv_shift_rows state = foldl (unshift_one state) (replicate 16 0) places

-- `gmul(a0, k0) ^ gmul(a1, k1) ^ gmul(a2, k2) ^ gmul(a3, k3)`
abbrev pub row : ℕ → ℕ → ℕ → ℕ → ℕ → ℕ → ℕ → ℕ → ℕ
row k0 k1 k2 k3 a0 a1 a2 a3 =
    bit_xor (bit_xor (bit_xor (gmul a0 k0) (gmul a1 k1)) (gmul a2 k2)) (gmul a3 k3)

unfoldable pub mix0 : ℕ → ℕ → ℕ → ℕ → ℕ
mix0 a0 a1 a2 a3 = bit_xor (bit_xor (bit_xor (gmul a0 2) (gmul a1 3)) a2) a3

unfoldable pub mix1 : ℕ → ℕ → ℕ → ℕ → ℕ
mix1 a0 a1 a2 a3 = bit_xor (bit_xor (bit_xor a0 (gmul a1 2)) (gmul a2 3)) a3

unfoldable pub mix2 : ℕ → ℕ → ℕ → ℕ → ℕ
mix2 a0 a1 a2 a3 = bit_xor (bit_xor (bit_xor a0 a1) (gmul a2 2)) (gmul a3 3)

unfoldable pub mix3 : ℕ → ℕ → ℕ → ℕ → ℕ
mix3 a0 a1 a2 a3 = bit_xor (bit_xor (bit_xor (gmul a0 3) a1) a2) (gmul a3 2)

pub mix_columns : List ℕ → List ℕ
mix_columns (a0 ∷ a1 ∷ a2 ∷ a3 ∷ state) =
    mix0 a0 a1 a2 a3 ∷ mix1 a0 a1 a2 a3 ∷ mix2 a0 a1 a2 a3 ∷ mix3 a0 a1 a2 a3 ∷ mix_columns state
mix_columns state = state

pub inv_mix_columns : List ℕ → List ℕ
inv_mix_columns (a0 ∷ a1 ∷ a2 ∷ a3 ∷ state) =
    row 14 11 13 9 a0 a1 a2 a3
    ∷ row 9 14 11 13 a0 a1 a2 a3
    ∷ row 13 9 14 11 a0 a1 a2 a3
    ∷ row 11 13 9 14 a0 a1 a2 a3
    ∷ inv_mix_columns state
inv_mix_columns state = state

-- The rounds from 1 to `n` of Encrypt.
pub encrypt_rounds : List ℕ → ℕ → List ℕ → List ℕ
encrypt_rounds round_keys zero state = state
encrypt_rounds round_keys (suc n) state =
    add_round_key round_keys (suc n)
      (mix_columns (shift_rows (sub_bytes sbox (encrypt_rounds round_keys n state))))

pub encrypt_block : List ℕ → List ℕ → List ℕ
encrypt_block round_keys state =
    let mixed = encrypt_rounds round_keys 9 (add_round_key round_keys 0 state) in
    add_round_key round_keys 10 (shift_rows (sub_bytes sbox mixed))

-- The rounds from `n` down to 1 of Decrypt.
pub decrypt_rounds : List ℕ → ℕ → List ℕ → List ℕ
decrypt_rounds round_keys zero state = state
decrypt_rounds round_keys (suc n) state =
    decrypt_rounds round_keys n (
      inv_mix_columns
        (add_round_key round_keys (suc n) (sub_bytes inv_sbox (inv_shift_rows state))))

pub decrypt_block : List ℕ → List ℕ → List ℕ
decrypt_block round_keys state =
    let mixed = decrypt_rounds round_keys 9 (add_round_key round_keys 10 state) in
    add_round_key round_keys 0 (sub_bytes inv_sbox (inv_shift_rows mixed))

-- A block is read from the start of `src` and written to the start of `dst`; both panic out of range.
unfoldable pub on_block : (List ℕ → List ℕ) → List ℕ → List ℕ → Outcome (List ℕ)
on_block f dst src =
    if ltb (length src) 16
    then panic
    else if ltb (length dst) 16
    then panic
    else ok (f (take 16 src) ++ drop 16 dst)

pub encrypt : List ℕ → List ℕ → List ℕ → Outcome (List ℕ)
encrypt round_keys dst src = on_block (encrypt_block round_keys) dst src

pub decrypt : List ℕ → List ℕ → List ℕ → Outcome (List ℕ)
decrypt round_keys dst src = on_block (decrypt_block round_keys) dst src
