-- ===== src/Base/Counts.antt =====
-- Positions in a list, and sums of weights over it: what a write at one position changes.
use Prim.Native.Nat.{ℕ, zero, suc, ◌+◌, ◌≤◌}
use mathlib.Core.Path.{◌≡◌, refl}
use mathlib.Core.List.{List, [], ◌∷◌, ◌++◌}
use mathlib.Core.Option.{Option, none, some}
use native.Mathlib.Omega.{arith}

module _ {ℓ} {A : Type ℓ} where
  abbrev pub get_elem? : List A → ℕ → Option A
  get_elem? [] i = none
  get_elem? (x ∷ xs) zero = some x
  get_elem? (x ∷ xs) (suc i) = get_elem? xs i

  -- A write out of bounds changes nothing.
  abbrev pub set : List A → ℕ → A → List A
  set [] i v = []
  set (x ∷ xs) zero v = v ∷ xs
  set (x ∷ xs) (suc i) v = x ∷ set xs i v

  abbrev pub replicate : ℕ → A → List A
  replicate zero a = []
  replicate (suc n) a = a ∷ replicate n a

  abbrev pub total : (A → ℕ) → List A → ℕ
  total w [] = 0
  total w (x ∷ xs) = w x + total w xs

  pub total-set :
      (w : A → ℕ) (xs : List A) (i : ℕ) (old new : A)
      → get_elem? xs i ≡ some old
      → total w (set xs i new) + w old ≡ total w xs + w new
  total-set w [] i old new h = cc
  total-set w (x ∷ xs) zero old new h = ground arith
  total-set w (x ∷ xs) (suc i) old new h = omega (arith, total-set w xs i old new h)

  pub total-append : (w : A → ℕ) (xs ys : List A) → total w (xs ++ ys) ≡ total w xs + total w ys
  total-append w [] ys = omega arith
  total-append w (x ∷ xs) ys = omega (arith, total-append w xs ys)

  pub total-replicate : (w : A → ℕ) (n : ℕ) (a : A) → w a ≡ 0 → total w (replicate n a) ≡ 0
  total-replicate w zero a h = refl
  total-replicate w (suc n) a h = omega (arith, total-replicate w n a h)

  pub total-replicate_one : (w : A → ℕ) (n : ℕ) (a : A) → w a ≡ 1 → total w (replicate n a) ≡ n
  total-replicate_one w zero a h = refl
  total-replicate_one w (suc n) a h = omega (arith, total-replicate_one w n a h)

  pub le-total_of_get_elem? :
      (w : A → ℕ) (xs : List A) (i : ℕ) (a : A) → get_elem? xs i ≡ some a → w a ≤ total w xs
  le-total_of_get_elem? w [] i a h = cc
  le-total_of_get_elem? w (x ∷ xs) zero a h = ground arith
  le-total_of_get_elem? w (x ∷ xs) (suc i) a h = omega (arith, le-total_of_get_elem? w xs i a h)

  pub get_elem?-set_self :
      (xs : List A) (i : ℕ) (old new : A)
      → get_elem? xs i ≡ some old
      → get_elem? (set xs i new) i ≡ some new
  get_elem?-set_self [] i old new h = cc
  get_elem?-set_self (x ∷ xs) zero old new h = refl
  get_elem?-set_self (x ∷ xs) (suc i) old new h = get_elem?-set_self xs i old new h

  pub total-add-le :
      (w u z : A → ℕ) (xs : List A)
      → ((a : A) → w a + u a ≤ z a)
      → total w xs + total u xs ≤ total z xs
  total-add-le w u z [] h = omega arith
  total-add-le w u z (x ∷ xs) h = omega (arith, h x, total-add-le w u z xs h)

  -- The list without the item at a position.
  abbrev pub remove_at : List A → ℕ → List A
  remove_at [] i = []
  remove_at (x ∷ xs) zero = xs
  remove_at (x ∷ xs) (suc i) = x ∷ remove_at xs i

  pub total-remove_at :
      (w : A → ℕ) (xs : List A) (i : ℕ) (a : A)
      → get_elem? xs i ≡ some a
      → total w (remove_at xs i) + w a ≡ total w xs
  total-remove_at w [] i a h = cc
  total-remove_at w (x ∷ xs) zero a h = ground arith
  total-remove_at w (x ∷ xs) (suc i) a h = omega (arith, total-remove_at w xs i a h)
