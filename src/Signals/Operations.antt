-- ===== src/Signals/Operations.antt =====
-- What a report leaves behind for those who ask.
use new_pycloud.Base.{
  ℕ, zero, suc, ◌+◌, ◌-◌, ◌≤◌, ◌≡◌, ap, ◌∙◌, Bool, List, [], ◌∷◌, ◌++◌, none, some, if◌then◌else◌,
  length, drop, arith, ◌==◌, nat_eq, list_eq, pair_eq, beq_refl, length-append, Option-cases, inl,
  inr,
}
use new_pycloud.Base.Dict.{get, insert, erase, get-insert, get-erase_self}
use new_pycloud.Base.Text.{Text}
use new_pycloud.Signals.{
  ResourceSignal, ResourceOperation, Resource, ResourceSignalStore, with_seq, trim, publish,
  latest_of, upsert_into, upsert_operation, merge_operation, get_operation,
}
use new_pycloud.Signals.{items_since, since}
use new_pycloud.Signals.Steps.{Reach}
use new_pycloud.Signals.Paging.{next_cursor, page-items}
use new_pycloud.Signals.Invariant.{Reach-IsNumbered, stored-IsDistinct}
use new_pycloud.Signals.Bounds.{Reach-IsBounded}

abbrev pub is_same_resource : Resource → Resource → Bool
is_same_resource a b = a == b

published_latest :
    (now : ℕ) (s : ResourceSignal) (r : ResourceSignalStore)
    → (publish now s r).latest
      ≡ insert (s.resource_kind, s.resource_id) (with_seq (r.seq + 1) now s) r.latest
unfolding publish trim
published_latest now s r = ground arith

-- A published signal, of whatever type, is the latest one of its resource, with the next number and
-- the time of the call; the latest ones of other resources stay what they are.
pub latest_of-publish :
    (now : ℕ) (s : ResourceSignal) (kind id : Text) (r : ResourceSignalStore)
    → latest_of kind id (publish now s r) ≡ (
        if is_same_resource (s.resource_kind, s.resource_id) (kind, id)
        then some (with_seq (r.seq + 1) now s)
        else latest_of kind id r)
unfolding latest_of
latest_of-publish now s kind id r =
    ap (get (kind, id)) (published_latest now s r)
    ∙ get-insert (s.resource_kind, s.resource_id) (kind, id) (with_seq (r.seq + 1) now s) r.latest

get-drop-append :
    (k : Text) (v : ResourceOperation) (n : ℕ) (m : List (Text × ResourceOperation))
    → get k m ≡ none
    → n ≤ length m
    → get k (drop n (m ++ (k, v) ∷ [])) ≡ some v
unfolding get
get-drop-append k v zero [] h le = ground (arith, beq_refl k)
get-drop-append k v zero ((j, w) ∷ m) h le =
    ground (arith, get-drop-append k v zero m (ground arith) (omega arith))
get-drop-append k v (suc n) [] h le = ground (arith, le)
get-drop-append k v (suc n) ((j, w) ∷ m) h le =
    get-drop-append k v n m (ground arith) (omega (arith, le))

get-upsert_into :
    (o : ResourceOperation) (limit : ℕ) (m : List (Text × ResourceOperation))
    → 1 ≤ limit
    → get o.op_id (upsert_into o limit m)
      ≡ some (elim (get o.op_id m) [ none ↦ o | some old ↦ merge_operation o old ])
unfolding upsert_into
get-upsert_into o limit m positive = elim (Option-cases (get o.op_id m)) [
  | inl absent ↦
      let added = m ++ (o.op_id, o) ∷ [] in
      ground (
        arith,
        length-append m ((o.op_id, o) ∷ []),
        get-drop-append o.op_id o (length added - limit) m absent
            (omega (arith, positive, length-append m ((o.op_id, o) ∷ []))),
      )
  | inr (old, at) ↦ ground (
    arith,
    get-drop-append o.op_id (merge_operation o old) 0 (erase o.op_id m) (get-erase_self o.op_id m)
        (omega arith),
  )
]

-- After every history a report of an operation is found again under its id: as it is, if the
-- operation was unknown, and otherwise merged with what was known, whatever had to be dropped.
pub get_operation-upsert :
    {maxlen : ℕ} (o : ResourceOperation) (r : ResourceSignalStore)
    → Reach maxlen r
    → get_operation o.op_id (upsert_operation o r)
      ≡ some (elim (get_operation o.op_id r) [ none ↦ o | some old ↦ merge_operation o old ])
unfolding get_operation upsert_operation
get_operation-upsert o r h = get-upsert_into o r.maxlen r.operations (Reach-IsBounded h).positive

-- After every history a page and what is stored behind its last signal are together, in this order,
-- what is stored behind the cursor: a reader that goes on from the last signal of each page misses
-- none of those stored and gets none twice.
pub since-items :
    {maxlen : ℕ} (c limit : ℕ) (r : ResourceSignalStore)
    → Reach maxlen r
    → items_since c r ≡ since c limit r ++ items_since (next_cursor c (since c limit r)) r
since-items c limit r h = page-items c limit r (stored-IsDistinct r (Reach-IsNumbered h))
