-- ===== src/Base/Dict.antt =====
-- Python's dict as an association list in insertion order: an update keeps a key's place, a new
-- key goes to the end.
use Prim.Native.Nat.{ℕ, ◌+◌}
use mathlib.Core.Path.{◌≡◌, refl}
use mathlib.Core.Option.{Option, none, some}
use mathlib.Core.List.{List, [], ◌∷◌, map}
use native.Mathlib.Omega.{arith}
use new_pycloud.Base.Tests.{if◌then◌else◌}
use new_pycloud.Base.Equality.{Eq, ◌==◌, beq_refl}
use new_pycloud.Base.Lists.{All}
use new_pycloud.Base.Counts.{total}

module _ {ℓ κ} {K : Type ℓ} {V : Type κ} where
  abbrev pub values : List (K × V) → List V
  values = map λ p. p.1

  abbrev pub keys : List (K × V) → List K
  keys = map λ p. p.0

module _ {ℓ κ} {K : Type ℓ} {V : Type κ} ⦃e : Eq K⦄ where
  unfoldable pub get : K → List (K × V) → Option V
  get k [] = none
  get k ((j, v) ∷ m) = if j == k then some v else get k m

  unfoldable pub insert : K → V → List (K × V) → List (K × V)
  insert k v [] = (k, v) ∷ []
  insert k v ((j, w) ∷ m) = if j == k then (j, v) ∷ m else (j, w) ∷ insert k v m

  -- `d.pop(k, None)`: the dict that is left.
  unfoldable pub erase : K → List (K × V) → List (K × V)
  erase k [] = []
  erase k ((j, v) ∷ m) = let rest = erase k m in if j == k then rest else (j, v) ∷ rest

  pub get-insert :
      (k j : K) (v : V) (m : List (K × V))
      → get j (insert k v m) ≡ (if k == j then some v else get j m)
  unfolding get insert
  get-insert k j v [] = refl
  get-insert k j v ((i, w) ∷ m) =
      ground (arith, e.equal_iff k j, e.equal_iff i k, e.equal_iff i j, get-insert k j v m)

  pub get-erase :
      (k j : K) (m : List (K × V)) → get j (erase k m) ≡ (if k == j then none else get j m)
  unfolding get erase
  get-erase k j [] = ground arith
  get-erase k j ((i, w) ∷ m) =
      ground (arith, e.equal_iff k j, e.equal_iff i k, e.equal_iff i j, get-erase k j m)

  pub get-insert_self : (k : K) (v : V) (m : List (K × V)) → get k (insert k v m) ≡ some v
  get-insert_self k v m = rw (get-insert k k v m, beq_refl k)

  pub get-erase_self : (k : K) (m : List (K × V)) → get k (erase k m) ≡ none
  get-erase_self k m = rw (get-erase k k m, beq_refl k)

module _ {ℓ κ μ} {K : Type ℓ} {V : Type κ} ⦃e : Eq K⦄ (P : V → Type μ) where
  -- A predicate on every value of the dict.
  abbrev pub AllValues : List (K × V) → Type μ
  AllValues = All λ p. P p.1

  pub insert-AllValues :
      (k : K) (v : V) (m : List (K × V)) → P v → AllValues m → AllValues (insert k v m)
  unfolding insert
  insert-AllValues k v [] h hs = (h, tt)
  insert-AllValues k v ((j, w) ∷ m) h hs = ground (arith, insert-AllValues k v m h hs.1)

  pub erase-AllValues : (k : K) (m : List (K × V)) → AllValues m → AllValues (erase k m)
  unfolding erase
  erase-AllValues k [] hs = tt
  erase-AllValues k ((j, w) ∷ m) hs = ground (arith, erase-AllValues k m hs.1)

  pub get-AllValues : (k : K) (m : List (K × V)) (v : V) → AllValues m → get k m ≡ some v → P v
  unfolding get
  get-AllValues k [] v hs h = cc
  get-AllValues k ((j, w) ∷ m) v hs h = ground (arith, get-AllValues k m v hs.1)

-- Every key stands once, as in a dict; sums over the values.
module _ {ℓ κ} {K : Type ℓ} {V : Type κ} ⦃e : Eq K⦄ where
  abbrev pub HasUniqueKeys : List (K × V) → Type κ
  HasUniqueKeys [] = Unit
  HasUniqueKeys ((k, v) ∷ m) = (get k m ≡ none) × HasUniqueKeys m

  pub insert-HasUniqueKeys :
      (k : K) (v : V) (m : List (K × V)) → HasUniqueKeys m → HasUniqueKeys (insert k v m)
  unfolding get insert
  insert-HasUniqueKeys k v [] h = (refl, tt)
  insert-HasUniqueKeys k v ((j, w) ∷ m) h =
      ground (
        arith,
        get-insert k j v m,
        e.equal_iff k j,
        e.equal_iff j k,
        insert-HasUniqueKeys k v m h.1,
      )

  pub erase-HasUniqueKeys : (k : K) (m : List (K × V)) → HasUniqueKeys m → HasUniqueKeys (erase k m)
  unfolding erase
  erase-HasUniqueKeys k [] h = tt
  erase-HasUniqueKeys k ((j, w) ∷ m) h =
      ground (arith, get-erase k j m, erase-HasUniqueKeys k m h.1)

  -- The weight of what stands under a key.
  abbrev pub weight_at : (V → ℕ) → K → List (K × V) → ℕ
  weight_at w k m = elim (get k m) [ none ↦ 0 | some v ↦ w v ]

  abbrev pub total_values : (V → ℕ) → List (K × V) → ℕ
  total_values w = total λ p. w p.1

  pub total_values-insert :
      (w : V → ℕ) (k : K) (v : V) (m : List (K × V))
      → total_values w (insert k v m) + weight_at w k m ≡ total_values w m + w v
  unfolding get insert
  total_values-insert w k v [] = ground arith
  total_values-insert w k v ((j, x) ∷ m) = ground (arith, total_values-insert w k v m)

  pub erase_of_absent : (k : K) (m : List (K × V)) → get k m ≡ none → erase k m ≡ m
  unfolding get erase
  erase_of_absent k [] h = refl
  erase_of_absent k ((j, x) ∷ m) h = ground (arith, erase_of_absent k m)

  pub total_values-erase :
      (w : V → ℕ) (k : K) (m : List (K × V))
      → HasUniqueKeys m
      → total_values w (erase k m) + weight_at w k m ≡ total_values w m
  unfolding get erase
  total_values-erase w k [] h = refl
  total_values-erase w k ((j, x) ∷ m) h =
      ground (arith, e.equal_iff j k, erase_of_absent k m, total_values-erase w k m h.1)
