-- ===== src/Signals/Invariant.antt =====
-- What holds of the store after every history.
use new_pycloud.Base.{
  ℕ, zero, suc, ◌+◌, ◌-◌, ◌≤◌, ◌<◌, ◌≡◌, refl, leb, List, [], ◌∷◌, ◌++◌, length, take, drop, All,
  All-map, All-append, total, total-append, arith, if-holds, nat_eq, list_eq, pair_eq,
}
use new_pycloud.Base.Dict.{
  insert, erase, values, HasUniqueKeys, insert-HasUniqueKeys, erase-HasUniqueKeys, total_values,
  total_values-insert, total_values-erase,
}
use new_pycloud.Base.Text.{Text}
use new_pycloud.Signals.{
  ResourceSignal, ResourceOperation, Resource, ResourceSignalStore, is_coalesced, is_retained,
  with_seq, store_signal, sort_entries, erase_entries, trim, publish, upsert_operation,
}
use new_pycloud.Signals.Sorting.{has_seq, IsIncreasing, IsDistinct}
use new_pycloud.Signals.Paging.{stored}
use new_pycloud.Signals.Steps.{Reach, begins, publishes, upserts}

abbrev pub Entry : Type 0
Entry = (Resource × Text) × ResourceSignal

-- How many stored signals have a number.
abbrev pub seq_count : ℕ → ResourceSignalStore → ℕ
seq_count n r = total (has_seq n) r.signals + total_values (has_seq n) r.coalesced_index

-- Up to the lengths: the numbers of the log increase, no number stands twice, and none is above the
-- counter.
pub record IsNumbered (r : ResourceSignalStore) : Type 0 where
  pub increasing : IsIncreasing r.signals
  pub below : All (λ s. s.seq ≤ r.seq) r.signals
  pub once : (n : ℕ) → seq_count n r ≤ 1
  pub unused : (n : ℕ) → r.seq < n → seq_count n r ≡ 0
  pub unique : HasUniqueKeys r.coalesced_index

total-drop-le :
    (w : ResourceSignal → ℕ) (n : ℕ) (ss : List ResourceSignal) → total w (drop n ss) ≤ total w ss
total-drop-le w zero ss = omega arith
total-drop-le w (suc n) [] = omega arith
total-drop-le w (suc n) (s ∷ ss) = omega (arith, total-drop-le w n ss)

drop-IsIncreasing : (n : ℕ) (ss : List ResourceSignal) → IsIncreasing ss → IsIncreasing (drop n ss)
drop-IsIncreasing zero ss h = h
drop-IsIncreasing (suc n) [] h = tt
drop-IsIncreasing (suc n) (s ∷ ss) h = drop-IsIncreasing n ss h.1

drop-All :
    (P : ResourceSignal → Type 0) (n : ℕ) (ss : List ResourceSignal) → All P ss → All P (drop n ss)
drop-All P zero ss h = h
drop-All P (suc n) [] h = tt
drop-All P (suc n) (s ∷ ss) h = drop-All P n ss h.1

total_values-erase_entries-le :
    (w : ResourceSignal → ℕ) (es m : List Entry)
    → HasUniqueKeys m
    → total_values w (erase_entries es m) ≤ total_values w m
unfolding erase_entries
total_values-erase_entries-le w [] m u = omega arith
total_values-erase_entries-le w ((k, x) ∷ es) m u = omega (
  arith,
  total_values-erase_entries-le w es (erase k m) (erase-HasUniqueKeys k m u),
  total_values-erase w k m u,
)

erase_entries-HasUniqueKeys :
    (es m : List Entry) → HasUniqueKeys m → HasUniqueKeys (erase_entries es m)
unfolding erase_entries
erase_entries-HasUniqueKeys [] m u = u
erase_entries-HasUniqueKeys ((k, x) ∷ es) m u =
    erase_entries-HasUniqueKeys es (erase k m) (erase-HasUniqueKeys k m u)

-- Trimming only takes signals away.
trimmed-le :
    (n : ℕ) (r : ResourceSignalStore)
    → HasUniqueKeys r.coalesced_index
    → seq_count n (trim r) ≤ seq_count n r
unfolding trim
trimmed-le n r u = ground (
  arith,
  total-drop-le (has_seq n) (length r.signals - r.maxlen) r.signals,
  total_values-erase_entries-le (has_seq n)
      (take (length r.coalesced_index - r.maxlen) (sort_entries r.coalesced_index))
      r.coalesced_index u,
)

trim-IsNumbered : (r : ResourceSignalStore) → IsNumbered r → IsNumbered (trim r)
unfolding trim
trim-IsNumbered r v = record {
  increasing = drop-IsIncreasing (length r.signals - r.maxlen) r.signals v.increasing;
  below = drop-All (λ s. s.seq ≤ r.seq) (length r.signals - r.maxlen) r.signals v.below;
  once = λ n. omega (arith, trimmed-le n r v.unique, v.once n);
  unused = λ n above. omega (arith, trimmed-le n r v.unique, v.unused n above);
  unique =
      if-holds HasUniqueKeys (leb (length r.coalesced_index) r.maxlen) _ _ (λ _. v.unique)
        λ _.
          erase_entries-HasUniqueKeys
            (take (length r.coalesced_index - r.maxlen) (sort_entries r.coalesced_index))
            r.coalesced_index v.unique;
}

append-IsIncreasing :
    (s : ResourceSignal) (ss : List ResourceSignal)
    → All (λ o. o.seq < s.seq) ss
    → IsIncreasing ss
    → IsIncreasing (ss ++ s ∷ [])
append-IsIncreasing s [] h inc = (tt, tt)
append-IsIncreasing s (o ∷ os) h inc = (
  All-append (λ x. o.seq < x.seq) os (s ∷ []) inc.0 (h.0, tt),
  append-IsIncreasing s os h.1 inc.1,
)

module _ (s : ResourceSignal) (r : ResourceSignalStore) (e : s.seq ≡ r.seq + 1)
    (v : IsNumbered r) where
  raised : All (λ o. o.seq ≤ s.seq) r.signals
  raised =
      All-map (λ o. o.seq ≤ r.seq) (λ o. o.seq ≤ s.seq) r.signals (λ o le. omega (arith, e, le))
        v.below

  All-older : All (λ o. o.seq < s.seq) r.signals
  All-older =
      All-map (λ o. o.seq ≤ r.seq) (λ o. o.seq < s.seq) r.signals (λ o le. omega (arith, e, le))
        v.below

  coalesced-IsNumbered :
      (k : Resource × Text) (m : List (Resource × ResourceSignal))
      → IsNumbered
          (record r { seq = s.seq; latest = m; coalesced_index = insert k s r.coalesced_index })
  coalesced-IsNumbered k m = record {
    increasing = v.increasing;
    below = raised;
    once = λ n.
        ground
          (arith, total_values-insert (has_seq n) k s r.coalesced_index, v.once n, v.unused n, e);
    unused = λ n above.
        ground (arith, total_values-insert (has_seq n) k s r.coalesced_index, v.unused n, e);
    unique = insert-HasUniqueKeys k s r.coalesced_index v.unique;
  }

  retained-IsNumbered :
      (m : List (Resource × ResourceSignal))
      → IsNumbered (record r { seq = s.seq; latest = m; signals = r.signals ++ s ∷ [] })
  retained-IsNumbered m = record {
    increasing = append-IsIncreasing s r.signals All-older v.increasing;
    below = All-append (λ o. o.seq ≤ s.seq) r.signals (s ∷ []) raised (omega arith, tt);
    once =
        λ n. ground (arith, total-append (has_seq n) r.signals (s ∷ []), v.once n, v.unused n, e);
    unused = λ n above. ground (arith, total-append (has_seq n) r.signals (s ∷ []), v.unused n, e);
    unique = v.unique;
  }

  ignored-IsNumbered :
      (m : List (Resource × ResourceSignal)) → IsNumbered (record r { seq = s.seq; latest = m })
  ignored-IsNumbered m = record {
    increasing = v.increasing;
    below = raised;
    once = v.once;
    unused = λ n above. v.unused n (omega (arith, above, e));
    unique = v.unique;
  }

  pub store_signal-IsNumbered : IsNumbered (store_signal s r)
  store_signal-IsNumbered =
      let m = insert (s.resource_kind, s.resource_id) s r.latest in
      if-holds IsNumbered (is_coalesced s.signal_type) _ _
        (λ _. coalesced-IsNumbered ((s.resource_kind, s.resource_id), s.signal_type) m)
        λ _.
          if-holds IsNumbered (is_retained s.signal_type) _ _ (λ _. retained-IsNumbered m)
            λ _. ignored-IsNumbered m

publish-IsNumbered :
    (now : ℕ) (s : ResourceSignal) (r : ResourceSignalStore)
    → IsNumbered r
    → IsNumbered (publish now s r)
unfolding publish
publish-IsNumbered now s r v =
    trim-IsNumbered _ (store_signal-IsNumbered (with_seq (r.seq + 1) now s) r refl v)

upsert-IsNumbered :
    (o : ResourceOperation) (r : ResourceSignalStore)
    → IsNumbered r
    → IsNumbered (upsert_operation o r)
unfolding upsert_operation
upsert-IsNumbered o r v = record {
  increasing = v.increasing;
  below = v.below;
  once = v.once;
  unused = v.unused;
  unique = v.unique;
}

-- After every history the log is in the order of publication, no number is stored twice, and none
-- is above the counter.
pub Reach-IsNumbered : {maxlen : ℕ} {r : ResourceSignalStore} → Reach maxlen r → IsNumbered r
Reach-IsNumbered begins = record {
  increasing = tt;
  below = tt;
  once = λ n. omega arith;
  unused = λ n above. refl;
  unique = tt;
}
Reach-IsNumbered (publishes {r} now s h) = publish-IsNumbered now s r (Reach-IsNumbered h)
Reach-IsNumbered (upserts {r} o h) = upsert-IsNumbered o r (Reach-IsNumbered h)

total-values : (w : ResourceSignal → ℕ) (m : List Entry) → total w (values m) ≡ total_values w m
total-values w [] = refl
total-values w ((k, x) ∷ m) = omega (arith, total-values w m)

pub stored-IsDistinct : (r : ResourceSignalStore) → IsNumbered r → IsDistinct (stored r)
stored-IsDistinct r v n = omega (
  arith,
  total-append (has_seq n) r.signals (values r.coalesced_index),
  total-values (has_seq n) r.coalesced_index,
  v.once n,
)
