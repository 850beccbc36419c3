-- ===== src/Signals/Paging.antt =====
-- Reading the store page by page.
use new_pycloud.Base.{
  ℕ, zero, suc, ◌≤◌, ◌<◌, ◌≡◌, refl, sym, subst, ap, ◌∙◌, max, List, [], ◌∷◌, ◌++◌, take, drop,
  keep, All, take-append-drop, arith,
}
use new_pycloud.Base.Dict.{values}
use new_pycloud.Signals.{
  ResourceSignal, ResourceSignalStore, sort_by_seq, items_since, or_number, since,
}
use new_pycloud.Signals.Sorting.{
  newer, IsIncreasing, IsDistinct, keep-sort_by_seq, sort-IsIncreasing, keep-IsIncreasing,
}

-- What a reader takes as its next cursor: the number of the last signal it got, or the cursor it had.
abbrev pub next_cursor : ℕ → List ResourceSignal → ℕ
next_cursor c [] = c
next_cursor c (s ∷ ss) = next_cursor s.seq ss

le-next_cursor :
    (c n : ℕ) (ss : List ResourceSignal)
    → All (λ s. c < s.seq) ss
    → IsIncreasing ss
    → c ≤ next_cursor c (take n ss)
le-next_cursor c zero ss h inc = omega arith
le-next_cursor c (suc n) [] h inc = omega arith
le-next_cursor c (suc n) (s ∷ ss) h inc = omega (arith, le-next_cursor s.seq n ss inc.0 inc.1, h.0)

keep-All : (c : ℕ) (ss : List ResourceSignal) → All (λ s. c < s.seq) ss → keep (newer c) ss ≡ ss
unfolding keep
keep-All c [] h = refl
keep-All c (s ∷ ss) h = ground (arith, h.0, keep-All c ss h.1)

keep-next_cursor :
    (c n : ℕ) (ss : List ResourceSignal)
    → All (λ s. c < s.seq) ss
    → IsIncreasing ss
    → keep (newer (next_cursor c (take n ss))) ss ≡ drop n ss
unfolding keep
keep-next_cursor c zero ss h inc = keep-All c ss h
keep-next_cursor c (suc n) [] h inc = refl
keep-next_cursor c (suc n) (s ∷ ss) h inc =
    ground (arith, le-next_cursor s.seq n ss inc.0 inc.1, keep-next_cursor s.seq n ss inc.0 inc.1)

keep-twice :
    (c d : ℕ) (ss : List ResourceSignal)
    → c ≤ d
    → keep (newer d) (keep (newer c) ss) ≡ keep (newer d) ss
unfolding keep
keep-twice c d [] h = refl
keep-twice c d (s ∷ ss) h = ground (arith, h, keep-twice c d ss h)

kept-newer : (c : ℕ) (ss : List ResourceSignal) → All (λ s. c < s.seq) (keep (newer c) ss)
unfolding keep
kept-newer c [] = tt
kept-newer c (s ∷ ss) = ground (arith, kept-newer c ss)

abbrev pub stored : ResourceSignalStore → List ResourceSignal
stored r = r.signals ++ values r.coalesced_index

items_since-keep :
    (c : ℕ) (r : ResourceSignalStore) → items_since c r ≡ keep (newer c) (sort_by_seq (stored r))
unfolding items_since
items_since-keep c r = keep-sort_by_seq c (stored r)

-- A page and what is stored behind its last signal are together what is stored behind the cursor.
pub page-items :
    (c limit : ℕ) (r : ResourceSignalStore)
    → IsDistinct (stored r)
    → items_since c r ≡ since c limit r ++ items_since (next_cursor c (since c limit r)) r
unfolding since
page-items c limit r distinct =
    let n = max 1 (or_number limit 100) in
    let sorted = sort_by_seq (stored r) in
    let page = keep (newer c) sorted in
    let inc : IsIncreasing page =
      keep-IsIncreasing (newer c) sorted (sort-IsIncreasing (stored r) distinct) in
    let above : All (λ s. c < s.seq) page = kept-newer c sorted in
    let d = next_cursor c (take n page) in
    let rest : keep (newer d) sorted ≡ drop n page =
      sym (keep-twice c d sorted (le-next_cursor c n page above inc))
      ∙ keep-next_cursor c n page above inc in
    let whole : page ≡ take n page ++ keep (newer d) sorted =
      sym (take-append-drop n page) ∙ ap (take n page ++◌) (sym rest) in
    subst (λ x. x ≡ take n x ++ items_since (next_cursor c (take n x)) r)
      (sym (items_since-keep c r)) (whole ∙ ap (take n page ++◌) (sym (items_since-keep d r)))
