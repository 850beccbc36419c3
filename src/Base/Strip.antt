-- ===== src/Base/Strip.antt =====
-- `strip` leaves a stripped text as it is: ids and names are stripped more than once on their way.
use mathlib.Core.Path.{◌≡◌, refl}
use mathlib.Core.Bool.{false}
use mathlib.Core.List.{[], ◌∷◌, ◌++◌, reverse, reverse-append, reverse-reverse, reverse-cons}
use mathlib.Core.Logic.{inl, inr}
use Prim.Native.Nat.{ℕ}
use new_pycloud.Base.Tests.{Bool-cases}
use new_pycloud.Base.Text.{Text, is_space, lstrip, strip}

-- A text that is empty or begins with no space.
abbrev IsStripped : Text → Type 0
IsStripped [] = Unit
IsStripped (c ∷ s) = is_space c ≡ false

lstrip-IsStripped : (s : Text) → IsStripped (lstrip s)
unfolding lstrip
lstrip-IsStripped [] = tt
lstrip-IsStripped (c ∷ s) = elim (Bool-cases (is_space c)) [
  | inl h ↦ rw h (lstrip-IsStripped s)
  | inr h ↦ rw h h
]

lstrip_of_stripped : (s : Text) → IsStripped s → lstrip s ≡ s
unfolding lstrip
lstrip_of_stripped [] h = refl
lstrip_of_stripped (c ∷ s) h = rw h

lstrip-append :
    (c : ℕ) (s : Text) → is_space c ≡ false → (t : Text) × (lstrip (s ++ c ∷ []) ≡ t ++ c ∷ [])
unfolding lstrip
lstrip-append c [] h = ([], rw h)
lstrip-append c (d ∷ s) h = elim (Bool-cases (is_space d)) [
  | inl e ↦ rw e (lstrip-append c s h)
  | inr e ↦ (d ∷ s, rw e)
]

-- Stripping the end of such a text leaves its beginning.
end-IsStripped : (s : Text) → IsStripped s → IsStripped (reverse (lstrip (reverse s)))
unfolding lstrip
end-IsStripped [] h = tt
end-IsStripped (c ∷ s) h =
    let (t, e) = lstrip-append c (reverse s) h in
    rw (reverse-cons c s, e, reverse-append t (c ∷ [])) h

pub strip-strip : (s : Text) → strip (strip s) ≡ strip s
unfolding strip
strip-strip s =
    let kept = end-IsStripped (lstrip s) (lstrip-IsStripped s) in
    let back = lstrip (reverse (lstrip s)) in
    rw (
      lstrip_of_stripped (reverse back) kept,
      reverse-reverse back,
      lstrip_of_stripped back (lstrip-IsStripped (reverse (lstrip s))),
    )
