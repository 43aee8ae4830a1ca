-- ===== src/Common/Slices.antt =====
-- Reads and writes of a slice by index, which panic out of range, and where they land.
use Prim.Native.Nat.{ℕ, zero, suc, ◌+◌, ◌<◌}
use mathlib.Core.Path.{◌≡◌, refl, ap}
use mathlib.Core.List.{List, [], ◌∷◌, ◌++◌}
use mathlib.Core.Option.{some}
use native.Mathlib.Omega.{arith}
use wasigoc.Common.Tests.{ltb, if◌then◌else◌}
use wasigoc.Common.Lists.{length, get_elem?, set}
use wasigoc.Common.Outcome.{Outcome, ok, panic, or_panic}

module _ {ℓ} {A : Type ℓ} where
  -- `s[i]`
  unfoldable pub load : List A → ℕ → Outcome A
  load s i = or_panic (get_elem? s i)

  -- `s[i] = v`
  unfoldable pub store : List A → ℕ → A → Outcome (List A)
  store s i v = if ltb i (length s) then ok (set s i v) else panic

  pub get_elem?-length_append :
      (p : List A) (x : A) (q : List A) → get_elem? (p ++ x ∷ q) (length p) ≡ some x
  get_elem?-length_append [] x q = refl
  get_elem?-length_append (y ∷ p) x q = get_elem?-length_append p x q

  pub get_elem?-append_left :
      (p q : List A) (i : ℕ) → i < length p → get_elem? (p ++ q) i ≡ get_elem? p i
  get_elem?-append_left [] q i h = absurd (omega arith)
  get_elem?-append_left (x ∷ p) q zero h = refl
  get_elem?-append_left (x ∷ p) q (suc i) h = get_elem?-append_left p q i (omega arith)

  pub set-length_append :
      (p : List A) (x v : A) (q : List A) → set (p ++ x ∷ q) (length p) v ≡ p ++ v ∷ q
  set-length_append [] x v q = refl
  set-length_append (y ∷ p) x v q = ap (◌∷◌ y) (set-length_append p x v q)

  -- The read or write behind a prefix of known length.
  pub load_at :
      (i : ℕ) (p : List A) (x : A) (q : List A) → i ≡ length p → load (p ++ x ∷ q) i ≡ ok x
  unfolding load
  load_at i p x q e = rw (e, get_elem?-length_append p x q)

  length_lt : (p : List A) (x : A) (q : List A) → length p < length (p ++ x ∷ q)
  length_lt [] x q = omega arith
  length_lt (y ∷ p) x q = omega (arith, length_lt p x q)

  pub store_at :
      (i : ℕ) (p : List A) (x v : A) (q : List A)
      → i ≡ length p
      → store (p ++ x ∷ q) i v ≡ ok (p ++ v ∷ q)
  unfolding store
  store_at i p x v q e = rw e (ground (arith, length_lt p x q, set-length_append p x v q))

  get_elem?-suc-length :
      (p : List A) (x y : A) (q : List A) → get_elem? (p ++ x ∷ y ∷ q) (suc (length p)) ≡ some y
  get_elem?-suc-length [] x y q = refl
  get_elem?-suc-length (z ∷ p) x y q = get_elem?-suc-length p x y q

  -- The read of the second element behind a prefix.
  pub load_next :
      (i : ℕ) (p : List A) (x y : A) (q : List A)
      → i ≡ length p + 1
      → load (p ++ x ∷ y ∷ q) i ≡ ok y
  unfolding load
  load_next i p x y q e =
      let e' : i ≡ suc (length p) = omega arith in rw (e', get_elem?-suc-length p x y q)
