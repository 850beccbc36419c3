-- ===== src/Signals/Bounds.antt =====
-- The store is bounded.
use new_pycloud.Base.{
  ℕ, zero, suc, ◌+◌, ◌-◌, ◌≤◌, ◌≡◌, refl, subst, Bool, true, false, leb, List, Eq, [], ◌∷◌, ◌++◌,
  none, some, length, take, drop, All, All-map, arith, if-holds, nat_eq, list_eq, pair_eq, beq_refl,
  length-append, Option-cases, inl, inr,
}
use new_pycloud.Base.Dict.{get, insert, erase, HasUniqueKeys, total_values, total_values-erase}
use new_pycloud.Base.Text.{Text}
use new_pycloud.Signals.{
  ResourceSignal, ResourceOperation, ResourceSignalStore, with_seq, store_signal, insert_entry,
  sort_entries, erase_entries, trim, publish, upsert_into, upsert_operation, merge_operation,
}
use new_pycloud.Signals.Steps.{Reach, begins, publishes, upserts}
use new_pycloud.Signals.Invariant.{Entry, IsNumbered, store_signal-IsNumbered, Reach-IsNumbered}

length-drop : {A : Type 0} (n : ℕ) (xs : List A) → length (drop n xs) ≡ length xs - n
length-drop zero xs = omega arith
length-drop (suc n) [] = omega arith
length-drop (suc n) (x ∷ xs) = omega (arith, length-drop n xs)

length-total : {K V : Type 0} ⦃e : Eq K⦄ (m : List (K × V)) → total_values (λ _. 1) m ≡ length m
length-total [] = refl
length-total (x ∷ m) = omega (arith, length-total m)

-- A dict has the keys of its entries.
abbrev has_key : List Entry → Entry → Bool
has_key m (k, _) = elim (get k m) [ none ↦ false | some _ ↦ true ]

All-has_key : (m : List Entry) → All (λ e. has_key m e ≡ true) m
unfolding get
All-has_key [] = tt
All-has_key ((k, x) ∷ m) = (
  ground (arith, beq_refl k),
  All-map (λ e. has_key m e ≡ true) (λ e. has_key ((k, x) ∷ m) e ≡ true) m (λ e h. ground arith)
      (All-has_key m),
)

All-insert_entry :
    (P : Entry → Type 0) (e : Entry) (es : List Entry) → P e → All P es → All P (insert_entry e es)
unfolding insert_entry
All-insert_entry P e [] h hs = (h, tt)
All-insert_entry P e (f ∷ fs) h hs =
    if-holds (All P) (leb (e.1).seq (f.1).seq) _ _ (λ _. (h, hs))
      λ _. (hs.0, All-insert_entry P e fs h hs.1)

All-sort_entries : (P : Entry → Type 0) (es : List Entry) → All P es → All P (sort_entries es)
unfolding sort_entries
All-sort_entries P [] h = tt
All-sort_entries P (e ∷ es) h =
    All-insert_entry P e (sort_entries es) h.0 (All-sort_entries P es h.1)

length-insert_entry : (e : Entry) (es : List Entry) → length (insert_entry e es) ≡ suc (length es)
unfolding insert_entry
length-insert_entry e [] = refl
length-insert_entry e (f ∷ fs) = ground (arith, length-insert_entry e fs)

length-sort_entries : (es : List Entry) → length (sort_entries es) ≡ length es
unfolding sort_entries
length-sort_entries [] = refl
length-sort_entries (e ∷ es) =
    omega (arith, length-insert_entry e (sort_entries es), length-sort_entries es)

-- The oldest entry of an index is one of its entries: without it the index is shorter.
erase_oldest-le :
    (m es : List Entry)
    → HasUniqueKeys m
    → All (λ e. has_key m e ≡ true) es
    → 1 ≤ length es
    → length (erase_entries (take 1 es) m) + 1 ≤ length m
unfolding erase_entries
erase_oldest-le m [] u h some_there = omega (arith, some_there)
erase_oldest-le m ((k, x) ∷ es) u h some_there =
    ground (arith, total_values-erase (λ _. 1) k m u, length-total (erase k m), length-total m, h.0)

-- At most one entry more than allowed is dropped.
one_over-le :
    (limit : ℕ) (m : List Entry)
    → HasUniqueKeys m
    → length m ≡ limit + 1
    → length (erase_entries (take (length m - limit) (sort_entries m)) m) ≤ limit
one_over-le limit m u e =
    let one : 1 ≡ length m - limit = omega (arith, e) in
    let less : length (erase_entries (take 1 (sort_entries m)) m) + 1 ≤ length m =
      erase_oldest-le m (sort_entries m) u
        (All-sort_entries (λ x. has_key m x ≡ true) m (All-has_key m))
        (omega (arith, e, length-sort_entries m)) in
    subst (λ n. length (erase_entries (take n (sort_entries m)) m) ≤ limit) one
      (omega (arith, e, less))

pub record IsBounded (r : ResourceSignalStore) : Type 0 where
  pub positive : 1 ≤ r.maxlen
  pub few_signals : length r.signals ≤ r.maxlen
  pub few_states : length r.coalesced_index ≤ r.maxlen
  pub few_operations : length r.operations ≤ r.maxlen

trim-IsBounded :
    (r : ResourceSignalStore)
    → 1 ≤ r.maxlen
    → HasUniqueKeys r.coalesced_index
    → length r.coalesced_index ≤ r.maxlen + 1
    → length r.operations ≤ r.maxlen
    → IsBounded (trim r)
unfolding trim
trim-IsBounded r positive u few few_ops = record {
  positive = positive;
  few_signals = omega (arith, length-drop (length r.signals - r.maxlen) r.signals);
  few_states =
      if-holds (λ m. length m ≤ r.maxlen) (leb (length r.coalesced_index) r.maxlen)
        r.coalesced_index
        (erase_entries (take (length r.coalesced_index - r.maxlen) (sort_entries r.coalesced_index))
          r.coalesced_index)
        (λ fits. ground (arith, fits))
        λ over. one_over-le r.maxlen r.coalesced_index u (ground (arith, over, few));
  few_operations = few_ops;
}

length-insert-le :
    {K V : Type 0} ⦃e : Eq K⦄ (k : K) (v : V) (m : List (K × V))
    → length (insert k v m) ≤ length m + 1
unfolding insert
length-insert-le k v [] = omega arith
length-insert-le k v ((j, w) ∷ m) = ground (arith, length-insert-le k v m)

publish-IsBounded :
    (now : ℕ) (s : ResourceSignal) (r : ResourceSignalStore)
    → IsNumbered r
    → IsNumbered (store_signal (with_seq (r.seq + 1) now s) r)
    → IsBounded r
    → IsBounded (publish now s r)
unfolding publish
publish-IsBounded now s r v v' b =
    let s' = with_seq (r.seq + 1) now s in
    trim-IsBounded (store_signal s' r) (ground (arith, b.positive)) v'.unique
      (ground (
        arith,
        b.few_states,
        length-insert-le ((s.resource_kind, s.resource_id), s.signal_type) s' r.coalesced_index,
      ))
      (ground (arith, b.few_operations))

length-erase-le : {V : Type 0} (k : Text) (m : List (Text × V)) → length (erase k m) ≤ length m
unfolding erase
length-erase-le k [] = omega arith
length-erase-le k ((j, w) ∷ m) = ground (arith, length-erase-le k m)

length-erase :
    {V : Type 0} (k : Text) (m : List (Text × V)) (v : V)
    → get k m ≡ some v
    → length (erase k m) + 1 ≤ length m
unfolding get erase
length-erase k [] v h = cc
length-erase k ((j, w) ∷ m) v h = ground (arith, length-erase k m v, length-erase-le k m)

upsert_into-le :
    (o : ResourceOperation) (limit : ℕ) (m : List (Text × ResourceOperation))
    → length m ≤ limit
    → length (upsert_into o limit m) ≤ limit
unfolding upsert_into
upsert_into-le o limit m few = elim (Option-cases (get o.op_id m)) [
  | inl absent ↦
      let added = m ++ (o.op_id, o) ∷ [] in ground (arith, length-drop (length added - limit) added)
  | inr (old, at) ↦ ground (
    arith,
    length-append (erase o.op_id m) ((o.op_id, merge_operation o old) ∷ []),
    length-erase o.op_id m old at,
  )
]

upsert-IsBounded :
    (o : ResourceOperation) (r : ResourceSignalStore)
    → IsBounded r
    → IsBounded (upsert_operation o r)
unfolding upsert_operation
upsert-IsBounded o r b = record {
  positive = b.positive;
  few_signals = b.few_signals;
  few_states = b.few_states;
  few_operations = upsert_into-le o r.maxlen r.operations b.few_operations;
}

-- After every history the log, the index of states and the operations have each at most as many
-- entries as the store was made for.
pub Reach-IsBounded : {maxlen : ℕ} {r : ResourceSignalStore} → Reach maxlen r → IsBounded r
Reach-IsBounded {maxlen} begins = record {
  positive = omega arith;
  few_signals = omega arith;
  few_states = omega arith;
  few_operations = omega arith;
}
Reach-IsBounded (publishes {r} now s h) =
    publish-IsBounded now s r (Reach-IsNumbered h)
      (store_signal-IsNumbered (with_seq (r.seq + 1) now s) r refl (Reach-IsNumbered h))
      (Reach-IsBounded h)
Reach-IsBounded (upserts {r} o h) = upsert-IsBounded o r (Reach-IsBounded h)
