-- ===== src/Base/Sets.antt =====
-- Python's set as a list: `in`, `add` and `discard`.
use Prim.Native.Nat.{◌+◌, ◌≤◌}
use mathlib.Core.Path.{◌≡◌}
use mathlib.Core.Bool.{Bool, true, false, ◌||◌}
use mathlib.Core.List.{List, [], ◌∷◌, ◌++◌}
use native.Mathlib.Omega.{arith}
use new_pycloud.Base.Tests.{if◌then◌else◌}
use new_pycloud.Base.Equality.{Eq, ◌==◌}
use new_pycloud.Base.Lists.{length, length-append}

module _ {ℓ} {K : Type ℓ} ⦃e : Eq K⦄ where
  unfoldable pub member : K → List K → Bool
  member k [] = false
  member k (x ∷ xs) = x == k || member k xs

  unfoldable pub discard : K → List K → List K
  discard k [] = []
  discard k (x ∷ xs) = let rest = discard k xs in if x == k then rest else x ∷ rest

  unfoldable pub add : K → List K → List K
  unfolding member
  add k xs = if member k xs then xs else xs ++ k ∷ []

  pub member-discard :
      (k j : K) (xs : List K) → member k (discard j xs) ≡ (if j == k then false else member k xs)
  unfolding member discard
  member-discard k j [] = ground arith
  member-discard k j (x ∷ xs) =
      ground (arith, e.equal_iff x j, e.equal_iff x k, e.equal_iff j k, member-discard k j xs)

  pub member-append : (k j : K) (xs : List K) → member k (xs ++ j ∷ []) ≡ (member k xs || j == k)
  unfolding member
  member-append k j [] = ground arith
  member-append k j (x ∷ xs) = ground (arith, member-append k j xs)

  pub member-add : (k j : K) (xs : List K) → member k (add j xs) ≡ (j == k || member k xs)
  unfolding add
  member-add k j xs = ground (arith, member-append k j xs, e.equal_iff j k)

  pub length-add-le : (k : K) (xs : List K) → length (add k xs) ≤ length xs + 1
  unfolding add
  length-add-le k xs = ground (arith, length-append xs (k ∷ []))

  pub length-discard-le : (k : K) (xs : List K) → length (discard k xs) ≤ length xs
  unfolding discard
  length-discard-le k [] = omega arith
  length-discard-le k (x ∷ xs) = ground (arith, length-discard-le k xs)

  pub length-discard-lt :
      (k : K) (xs : List K) → member k xs ≡ true → length (discard k xs) + 1 ≤ length xs
  unfolding member discard
  length-discard-lt k [] h = cc
  length-discard-lt k (x ∷ xs) h = ground (arith, length-discard-le k xs, length-discard-lt k xs)
