-- ===== src/Big/Magnitude.antt =====
-- The functions of big.go on magnitudes. A magnitude is the list of its limbs, the lowest first.
-- Where a loop runs from the highest limb down, the recursion on the higher limbs stands for the
-- rounds before.
pub mod Value
pub mod Sum
pub mod Product
pub mod Quotient
use Prim.Native.Nat.{compare, Ordering, lt, eq, gt}
use wasigoc.Common.{ℕ, zero, suc, ◌+◌, ◌-◌, ◌*◌, ◌/◌, ◌%◌, ◌^◌, List, [], ◌∷◌, Bool, true, false}
use wasigoc.Common.{◌==◌, ltb, leb, ◌||◌, not, if◌then◌else◌, length, replicate}
use wasigoc.Common.Bits.{u32, u64}

abbrev pub limb_base : ℕ
limb_base = 1000000

-- The limbs without the zeros on top.
pub push_limb : ℕ → List ℕ → List ℕ
push_limb x [] = if x == 0 then [] else x ∷ []
push_limb x (y ∷ higher) = x ∷ y ∷ higher

pub normalize : List ℕ → List ℕ
normalize [] = []
normalize (x ∷ limbs) = push_limb x (normalize limbs)

-- -1, 0 and 1 are `lt`, `eq` and `gt`. The loop is on limbs of one length.
pub below : Ordering → ℕ → ℕ → Ordering
below lt x y = lt
below gt x y = gt
below eq x y = compare x y

pub cmp_loop : List ℕ → List ℕ → Ordering
cmp_loop [] b = eq
cmp_loop (x ∷ a) [] = gt
cmp_loop (x ∷ a) (y ∷ b) = below (cmp_loop a b) x y

pub cmp_mag : List ℕ → List ℕ → Ordering
cmp_mag a b =
    if not (length a == length b)
    then (if ltb (length a) (length b) then lt else gt)
    else cmp_loop a b

-- The lowest limb, 0 if there is none (`if i < len(b) { bv = b[i] }`), and the limbs above.
pub low : List ℕ → ℕ
low [] = 0
low (y ∷ b) = y

pub higher : List ℕ → List ℕ
higher [] = []
higher (y ∷ b) = b

-- The loop of addMag, with the last carry on top.
pub add_loop : ℕ → List ℕ → List ℕ → List ℕ
add_loop carry [] b = carry ∷ []
add_loop carry (x ∷ a) b =
    let sum = u32 (u32 (x + low b) + carry) in
    (if leb limb_base sum then sum - limb_base else sum)
    ∷ add_loop (if leb limb_base sum then 1 else 0) a (higher b)

pub add_mag : List ℕ → List ℕ → List ℕ
add_mag a b = normalize (if ltb (length a) (length b) then add_loop 0 b a else add_loop 0 a b)

-- The loop of subMag; limbs are below 2^31, so that `d < 0` says that what is taken off is larger.
pub sub_loop : ℕ → List ℕ → List ℕ → List ℕ
sub_loop borrow [] b = []
sub_loop borrow (x ∷ a) b =
    let off = low b + borrow in
    (if ltb x off then x + limb_base - off else x - off)
    ∷ sub_loop (if ltb x off then 1 else 0) a (higher b)

pub sub_mag : List ℕ → List ℕ → List ℕ
sub_mag a b = normalize (sub_loop 0 a b)

-- The inner loop of mulMag: `acc[i+j] = acc[i+j] + a[i]*b[j]`, from `acc[i]` on.
pub add_row : ℕ → List ℕ → List ℕ → List ℕ
add_row x [] acc = acc
add_row x (y ∷ b) [] = []
add_row x (y ∷ b) (c ∷ acc) = u64 (c + u64 (x * y)) ∷ add_row x b acc

-- The outer loop, from `acc[i]` on.
pub add_rows : List ℕ → List ℕ → List ℕ → List ℕ
add_rows [] b acc = acc
add_rows (x ∷ a) b acc = let row = add_row x b acc in low row ∷ add_rows a b (higher row)

pub carry_loop : ℕ → List ℕ → List ℕ
carry_loop carry [] = []
carry_loop carry (c ∷ acc) =
    let v = u64 (c + carry) in u32 (v % limb_base) ∷ carry_loop (v / limb_base) acc

pub mul_mag : List ℕ → List ℕ → List ℕ
mul_mag a b =
    if length a == 0 || length b == 0
    then []
    else normalize (carry_loop 0 (add_rows a b (replicate (length a + length b) 0)))

pub small_loop : ℕ → List ℕ → ℕ → List ℕ
small_loop carry [] m = u32 carry ∷ []
small_loop carry (x ∷ a) m =
    let v = u64 (u64 (x * m) + carry) in u32 (v % limb_base) ∷ small_loop (v / limb_base) a m

pub mul_mag_small : List ℕ → ℕ → List ℕ
mul_mag_small a m = if m == 0 || length a == 0 then [] else normalize (small_loop 0 a m)

-- `c <= 0` and `c < 0` on what cmpMag returns
pub at_most : Ordering → Bool
at_most lt = true
at_most eq = true
at_most gt = false

pub is_less : Ordering → Bool
is_less lt = true
is_less eq = false
is_less gt = false

-- `cmpMag(prod, rem) <= 0`
pub fits : List ℕ → ℕ → List ℕ → Bool
fits b mid rem = at_most (cmp_mag (mul_mag_small b mid) rem)

-- The binary search for a digit, on fuel; `top` is `hi + 1`, so that the loop goes on at `lo < top`.
pub digit_loop : ℕ → ℕ → ℕ → ℕ → List ℕ → List ℕ → ℕ
digit_loop zero lo top q b rem = q
digit_loop (suc fuel) lo top q b rem =
    let mid = (lo + (top - 1)) / 2 in
    let up = digit_loop fuel (mid + 1) top mid b rem in
    let down = digit_loop fuel lo mid q b rem in
    if ltb lo top then (if fits b mid rem then up else down) else q

-- One round of the long division: the next limb `x` comes down below the remainder.
pub div_round : ℕ → List ℕ → List ℕ × List ℕ → List ℕ × List ℕ
div_round x b (quotient, rem) =
    let shifted = normalize (x ∷ rem) in
    let q = digit_loop 20 0 limb_base 0 b shifted in
    (q ∷ quotient, sub_mag shifted (mul_mag_small b q))

pub div_loop : List ℕ → List ℕ → List ℕ × List ℕ
div_loop [] b = ([], [])
div_loop (x ∷ a) b = div_round x b (div_loop a b)

pub div_mod_mag : List ℕ → List ℕ → List ℕ × List ℕ
div_mod_mag a b =
    let (quotient, rem) = div_loop a b in
    if is_less (cmp_mag a b) then ([], a) else (normalize quotient, rem)
