-- ===== src/Crypto/Des/Permute.antt =====
-- What permute does to the bits, and that the first and the last permutation undo each other.
use native.Mathlib.Nat.{pow-suc, one-le-pow, div-one, div-div-eq-div-mul, mul-le-mul_left}
use wasigoc.Common.{
  ℕ, zero, suc, ◌+◌, ◌-◌, ◌*◌, ◌/◌, ◌%◌, ◌^◌, ◌≡◌, ◌≤◌, ◌<◌, refl, sym, ap, subst, ◌∙◌, arith, Bool,
  true, false, ◌&&◌, leb, if◌then◌else◌, List, [], ◌∷◌, map, bit_or,
}
use wasigoc.Common.{length, get_or, All}
use wasigoc.Common.Bits.{u64, bit_or_fields, bit_and_mask}
use wasigoc.Crypto.Des.{ip_table, fp_table, get_bit, permute_loop, permute}

-- The number whose further binary digits `f` gives at the places.
abbrev gather : (ℕ → ℕ) → List ℕ → ℕ → ℕ
gather f [] out = out
gather f (p ∷ table) out = gather f table (out * 2 + f p)

get_bit-mod : (v n p : ℕ) → get_bit v n p ≡ v / 2 ^ (n - p) % 2
unfolding get_bit
get_bit-mod v n p = bit_and_mask 1 (v / 2 ^ (n - p))

get_bit-lt : (v n p : ℕ) → get_bit v n p < 2
get_bit-lt v n p = rw (get_bit-mod v n p) (omega arith)

room :
    (out bit width total : ℕ)
    → bit < 2
    → 1 ≤ width
    → (out + 1) * (width * 2) ≤ total
    → ((out * 2 + bit + 1) * width ≤ total) × (out * 2 + 2 ≤ total)
room out zero width total h k fits =
    (omega (arith, fits), omega (arith, k, fits, mul-le-mul_left (out + 1) k))
room out (suc zero) width total h k fits =
    (omega (arith, fits), omega (arith, k, fits, mul-le-mul_left (out + 1) k))
room out (suc (suc bit)) width total h k fits = absurd (omega (arith, h))

permute_loop-gather :
    (v n : ℕ) (table : List ℕ) (out : ℕ)
    → (out + 1) * 2 ^ length table ≤ 2 ^ 64
    → permute_loop v n table out ≡ gather (get_bit v n) table out
unfolding permute_loop
permute_loop-gather v n [] out fits = refl
permute_loop-gather v n (p ∷ table) out fits =
    let width = 2 ^ length table in
    let grows : 2 ^ length (p ∷ table) ≡ width * 2 = pow-suc 2 (length table) in
    let bit = get_bit-lt v n p in
    let (fits', less) =
      room out (get_bit v n p) width (2 ^ 64) bit (one-le-pow (length table) 2 (omega arith))
        (subst (λ w. (out + 1) * w ≤ 2 ^ 64) grows fits) in
    let whole : u64 (out * 2) ≡ out * 2 = omega (arith, less) in
    let joined : bit_or (u64 (out * 2)) (get_bit v n p) ≡ out * 2 + get_bit v n p =
      rw whole (bit_or_fields 1 out (get_bit v n p) bit) in
    rw joined (permute_loop-gather v n table (out * 2 + get_bit v n p) fits')

-- The digits of the number that is gathered.
module _ (f : ℕ → ℕ) (digits : (p : ℕ) → f p < 2) where
  gather-div : (table : List ℕ) (out : ℕ) → gather f table out / 2 ^ length table ≡ out
  gather-div [] out = div-one out
  gather-div (p ∷ table) out =
      let more = gather f table (out * 2 + f p) in
      ap (λ w. more / w) (pow-suc 2 (length table))
      ∙ sym (div-div-eq-div-mul more (2 ^ length table) 2)
      ∙ ap (λ q. q / 2) (gather-div table (out * 2 + f p))
      ∙ omega (arith, digits p)

  -- The digit at place `k`, the highest one at place 0.
  gather-digit :
      (table : List ℕ) (out k : ℕ)
      → k < length table
      → gather f table out / 2 ^ (length table - suc k) % 2 ≡ f (get_or table k 0)
  gather-digit [] out k h = absurd (omega (arith, h))
  gather-digit (p ∷ table) out zero h =
      let width : length (p ∷ table) - 1 ≡ length table = omega arith in
      rw (width, gather-div table (out * 2 + f p)) (omega (arith, digits p))
  gather-digit (p ∷ table) out (suc k) h =
      let width : length (p ∷ table) - suc (suc k) ≡ length table - suc k = omega arith in
      rw width (gather-digit table (out * 2 + f p) k (omega (arith, h)))

  gather-lt :
      (table : List ℕ) (out w : ℕ) → (out + 1) * 2 ^ length table ≤ w → gather f table out < w
  gather-lt [] out w h = omega (arith, h)
  gather-lt (p ∷ table) out w h =
      let grows : 2 ^ length (p ∷ table) ≡ 2 ^ length table * 2 = pow-suc 2 (length table) in
      let (fits, x) =
        room out (f p) (2 ^ length table) w (digits p) (one-le-pow (length table) 2 (omega arith))
          (subst (λ v. (out + 1) * v ≤ w) grows h) in
      gather-lt table (out * 2 + f p) w fits

gather-map :
    (f g h : ℕ → ℕ) (table : List ℕ) (out : ℕ)
    → All (λ p. f p ≡ g (h p)) table
    → gather f table out ≡ gather g (map h table) out
gather-map f g h [] out same = refl
gather-map f g h (p ∷ table) out (e, same) = rw e (gather-map f g h table (out * 2 + g (h p)) same)

abbrev places : ℕ → ℕ → List ℕ
places i zero = []
places i (suc count) = i ∷ places (suc i) count

-- The places in their order give the number itself.
gather-places :
    (v i count n : ℕ)
    → i + count ≡ suc n
    → gather (get_bit v n) (places i count) (v / 2 ^ count) ≡ v
gather-places v i zero n h = div-one v
gather-places v i (suc count) n h =
    let shift : n - i ≡ count = omega (arith, h) in
    let high : v / 2 ^ suc count ≡ v / 2 ^ count / 2 =
      ap (λ w. v / w) (pow-suc 2 count) ∙ sym (div-div-eq-div-mul v (2 ^ count) 2) in
    let joined : v / 2 ^ suc count * 2 + get_bit v n i ≡ v / 2 ^ count =
      rw (high, get_bit-mod v n i, shift) (omega arith) in
    ap (gather (get_bit v n) (places (suc i) count)) joined
    ∙ gather-places v (suc i) count n (omega (arith, h))

-- A place of a table of 64 bits.
abbrev in_block : ℕ → Bool
in_block p = leb 1 p && leb p 64

abbrev all_in_block : List ℕ → Bool
all_in_block [] = true
all_in_block (p ∷ table) = if in_block p then all_in_block table else false

module _ (first : List ℕ) (size : length first ≡ 64) (v : ℕ) where
  permute-gather : permute v 64 first ≡ gather (get_bit v 64) first 0
  unfolding permute
  permute-gather = permute_loop-gather v 64 first 0 (rw size (omega arith))

  permute-lt : permute v 64 first < 2 ^ 64
  permute-lt =
      rw permute-gather
        (gather-lt (get_bit v 64) (get_bit-lt v 64) first 0 (2 ^ 64) (rw size (omega arith)))

  get_bit-permute :
      (p : ℕ)
      → in_block p ≡ true
      → get_bit (permute v 64 first) 64 p ≡ get_bit v 64 (get_or first (p - 1) 0)
  get_bit-permute p h =
      let inside : p - 1 < length first = rw size (ground (arith, h)) in
      let shift : 64 - p ≡ length first - suc (p - 1) = rw size (ground (arith, h)) in
      get_bit-mod (permute v 64 first) 64 p
      ∙ rw (shift, permute-gather)
          (gather-digit (get_bit v 64) (get_bit-lt v 64) first 0 (p - 1) inside)

  get_bits-permute :
      (second : List ℕ)
      → all_in_block second ≡ true
      → All (λ p. get_bit (permute v 64 first) 64 p ≡ get_bit v 64 (get_or first (p - 1) 0)) second
  get_bits-permute [] h = tt
  get_bits-permute (p ∷ second) h =
      (get_bit-permute p (ground (arith, h)), get_bits-permute second (ground (arith, h)))

-- The second table finds at its places those that the first one has taken, in their order.
permute-permute :
    (first second : List ℕ) (v : ℕ)
    → length first ≡ 64
    → length second ≡ 64
    → all_in_block second ≡ true
    → map (λ p. get_or first (p - 1) 0) second ≡ places 1 64
    → v < 2 ^ 64
    → permute (permute v 64 first) 64 second ≡ v
permute-permute first second v size size' inside order h =
    let none_left : 0 ≡ v / 2 ^ 64 = omega (arith, h) in
    permute-gather second size' (permute v 64 first)
    ∙ gather-map (get_bit (permute v 64 first) 64) (get_bit v 64) (λ p. get_or first (p - 1) 0)
        second 0 (get_bits-permute first size v second inside)
    ∙ ap (λ table. gather (get_bit v 64) table 0) order
    ∙ ap (gather (get_bit v 64) (places 1 64)) none_left
    ∙ gather-places v 1 64 64 refl

pub permute_fp-permute_ip : (v : ℕ) → v < 2 ^ 64 → permute (permute v 64 ip_table) 64 fp_table ≡ v
unfolding ip_table fp_table
permute_fp-permute_ip v h = permute-permute ip_table fp_table v refl refl refl refl h

pub permute_ip-permute_fp : (v : ℕ) → v < 2 ^ 64 → permute (permute v 64 fp_table) 64 ip_table ≡ v
unfolding ip_table fp_table
permute_ip-permute_fp v h = permute-permute fp_table ip_table v refl refl refl refl h

pub permute_ip-lt : (v : ℕ) → permute v 64 ip_table < 2 ^ 64
unfolding ip_table
permute_ip-lt v = permute-lt ip_table refl v

pub permute_fp-lt : (v : ℕ) → permute v 64 fp_table < 2 ^ 64
unfolding fp_table
permute_fp-lt v = permute-lt fp_table refl v
