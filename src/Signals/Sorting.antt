-- ===== src/Signals/Sorting.antt =====
-- Sorting by sequence numbers: it keeps every signal, and what is behind a cursor stays behind it.
use new_pycloud.Base.{
  ℕ, ◌+◌, ◌≤◌, ◌<◌, ◌≡◌, refl, Bool, false, ltb, leb, List, [], ◌∷◌, if◌then◌else◌, keep, All,
  All-keep, All-map, total, arith, ◌==◌, if-holds, nat_eq,
}
use new_pycloud.Signals.{ResourceSignal, insert_by_seq, sort_by_seq}

-- Whether a signal has a sequence number, as a number to be added up.
abbrev pub has_seq : ℕ → ResourceSignal → ℕ
has_seq n s = if s.seq == n then 1 else 0

abbrev pub newer : ℕ → ResourceSignal → Bool
newer cursor s = ltb cursor s.seq

-- Each signal has a greater number than those before it.
abbrev pub IsIncreasing : List ResourceSignal → Type 0
IsIncreasing [] = Unit
IsIncreasing (s ∷ ss) = All (λ o. s.seq < o.seq) ss × IsIncreasing ss

total-insert_by_seq :
    (w : ResourceSignal → ℕ) (s : ResourceSignal) (ss : List ResourceSignal)
    → total w (insert_by_seq s ss) ≡ w s + total w ss
unfolding insert_by_seq
total-insert_by_seq w s [] = refl
total-insert_by_seq w s (o ∷ os) = ground (arith, total-insert_by_seq w s os)

pub total-sort_by_seq :
    (w : ResourceSignal → ℕ) (ss : List ResourceSignal) → total w (sort_by_seq ss) ≡ total w ss
unfolding sort_by_seq
total-sort_by_seq w [] = refl
total-sort_by_seq w (s ∷ ss) =
    omega (arith, total-insert_by_seq w s (sort_by_seq ss), total-sort_by_seq w ss)

keep-insert_by_seq :
    (c : ℕ) (s : ResourceSignal) (ss : List ResourceSignal)
    → keep (newer c) (insert_by_seq s ss)
      ≡ (if newer c s then insert_by_seq s (keep (newer c) ss) else keep (newer c) ss)
unfolding keep insert_by_seq
keep-insert_by_seq c s [] = refl
keep-insert_by_seq c s (o ∷ os) = ground (arith, keep-insert_by_seq c s os)

-- It makes no difference whether a cursor is applied before or behind the sorting.
pub keep-sort_by_seq :
    (c : ℕ) (ss : List ResourceSignal)
    → sort_by_seq (keep (newer c) ss) ≡ keep (newer c) (sort_by_seq ss)
unfolding keep sort_by_seq
keep-sort_by_seq c [] = refl
keep-sort_by_seq c (s ∷ ss) =
    ground (arith, keep-insert_by_seq c s (sort_by_seq ss), keep-sort_by_seq c ss)

-- No number stands twice.
abbrev pub IsDistinct : List ResourceSignal → Type 0
IsDistinct ss = (n : ℕ) → total (has_seq n) ss ≤ 1

All-insert_by_seq :
    (P : ResourceSignal → Type 0) (s : ResourceSignal) (ss : List ResourceSignal)
    → P s
    → All P ss
    → All P (insert_by_seq s ss)
unfolding insert_by_seq
All-insert_by_seq P s [] h hs = (h, tt)
All-insert_by_seq P s (o ∷ os) h hs = ground (arith, All-insert_by_seq P s os h hs.1)

-- Numbers that are counted nowhere in a list are no number of it.
absent-All :
    (n : ℕ) (ss : List ResourceSignal)
    → total (has_seq n) ss ≡ 0
    → All (λ o. (o.seq == n) ≡ false) ss
absent-All n [] h = tt
absent-All n (o ∷ os) h = (ground (arith, h), absent-All n os (ground arith))

insert-IsIncreasing :
    (s : ResourceSignal) (ss : List ResourceSignal)
    → All (λ o. (o.seq == s.seq) ≡ false) ss
    → IsIncreasing ss
    → IsIncreasing (insert_by_seq s ss)
unfolding insert_by_seq
insert-IsIncreasing s [] apart h = (tt, tt)
insert-IsIncreasing s (o ∷ os) apart h =
    if-holds IsIncreasing (leb s.seq o.seq) _ _
      (λ before.
        let less : s.seq < o.seq = ground (arith, before, apart.0) in
        (
          (
            less,
            All-map (λ x. o.seq < x.seq) (λ x. s.seq < x.seq) os
                (λ x later. omega (arith, later, less)) h.0,
          ),
          h,
        ))
      λ behind. (
        All-insert_by_seq (λ x. o.seq < x.seq) s os (ground (arith, behind)) h.0,
        insert-IsIncreasing s os apart.1 h.1,
      )

pub sort-IsIncreasing : (ss : List ResourceSignal) → IsDistinct ss → IsIncreasing (sort_by_seq ss)
unfolding sort_by_seq
sort-IsIncreasing [] d = tt
sort-IsIncreasing (s ∷ ss) d =
    insert-IsIncreasing s (sort_by_seq ss)
      (absent-All s.seq (sort_by_seq ss)
        (ground (arith, d s.seq, total-sort_by_seq (has_seq s.seq) ss)))
      (sort-IsIncreasing ss λ n. ground (arith, d n))

pub keep-IsIncreasing :
    (p : ResourceSignal → Bool) (ss : List ResourceSignal)
    → IsIncreasing ss
    → IsIncreasing (keep p ss)
unfolding keep
keep-IsIncreasing p [] h = tt
keep-IsIncreasing p (s ∷ ss) h =
    ground (arith, All-keep (λ o. s.seq < o.seq) p ss h.0, keep-IsIncreasing p ss h.1)
