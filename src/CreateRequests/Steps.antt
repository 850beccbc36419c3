-- ===== src/CreateRequests/Steps.antt =====
-- The histories of a table: calls in any order, each with its own view of which resources stand.
use new_pycloud.Base.{
  ℕ, suc, ◌+◌, ◌≤◌, Bool, true, not, ◌&&◌, [], ◌∷◌, if_either, elim_either, ◌==◌, nat_eq, list_eq,
  length, length-keep-le, arith,
}
use new_pycloud.Base.Dict.{get, insert, HasUniqueKeys, insert-HasUniqueKeys}
use new_pycloud.Base.Text.{Text, strip, is_nonempty}
use new_pycloud.CreateRequests.{
  CreateRequestRecord, Table, failed, max_records, is_creating, is_succeeded, is_stale, drop_oldest,
  prune_create_requests, Begun, new_record, begin_create_request, finish_create_request,
  accept_create_request, fail_create_request, drop_create_requests_for_resource,
}
use new_pycloud.CreateRequests.Bounded.{
  chosen, chosen-HasUniqueKeys, drop_oldest-HasUniqueKeys, length-prune_create_requests-le,
}
use new_pycloud.CreateRequests.Owner.{table_of}

pub data Step (m : Table) : Table → Type 0 where
  begins_one :
      (exists : Text → Bool) (now : ℕ) (id fingerprint : Text)
      → Step m (table_of (begin_create_request exists now id fingerprint m))
  accepts :
      (exists : Text → Bool) (now : ℕ) (id fingerprint resource_id : Text)
      → Step m (accept_create_request exists now id fingerprint resource_id m)
  finishes :
      (exists : Text → Bool) (now : ℕ) (id fingerprint resource_id : Text)
      → Step m (finish_create_request exists now id fingerprint resource_id m)
  fails :
      (exists : Text → Bool) (now : ℕ) (id error : Text)
      → Step m (fail_create_request exists now id error m)
  stops : (resource_id : Text) → Step m (drop_create_requests_for_resource resource_id m)

pub data Reach : Table → Type 0 where
  empty : Reach []
  later : {m n : Table} → Reach m → Step m n → Reach n

-- One record more than the limit: the one that was just begun.
abbrev pub IsLimited : Table → Type 0
IsLimited m = HasUniqueKeys m × (length m ≤ max_records + 1)

prune_create_requests-HasUniqueKeys :
    (exists : Text → Bool) (m : Table)
    → HasUniqueKeys m
    → HasUniqueKeys (prune_create_requests exists m)
unfolding prune_create_requests
prune_create_requests-HasUniqueKeys exists m u =
    let live = chosen (λ r. not (is_stale exists r)) m in
    let v = chosen-HasUniqueKeys (λ r. not (is_stale exists r)) m u in
    let w = drop_oldest-HasUniqueKeys (λ r. not (is_creating r)) live v in
    drop_oldest-HasUniqueKeys (λ r. true) (drop_oldest (λ r. not (is_creating r)) live) w

prune_create_requests-IsLimited :
    (exists : Text → Bool) (m : Table)
    → HasUniqueKeys m
    → IsLimited (prune_create_requests exists m)
prune_create_requests-IsLimited exists m u = (
  prune_create_requests-HasUniqueKeys exists m u,
  omega (arith, length-prune_create_requests-le exists m u),
)

length-insert-le :
    (id : Text) (r : CreateRequestRecord) (m : Table) → length (insert id r m) ≤ suc (length m)
unfolding insert
length-insert-le id r [] = omega arith
length-insert-le id r ((k, s) ∷ m) = ground (arith, length-insert-le id r m)

-- A record is written and the table is pruned.
written-IsLimited :
    (exists : Text → Bool) (id : Text) (r : CreateRequestRecord) (m : Table)
    → HasUniqueKeys m
    → IsLimited (prune_create_requests exists (insert id r m))
written-IsLimited exists id r m u =
    prune_create_requests-IsLimited exists (insert id r m) (insert-HasUniqueKeys id r m u)

begin-IsLimited :
    (exists : Text → Bool) (now : ℕ) (id fingerprint : Text) (m : Table)
    → IsLimited m
    → IsLimited (table_of (begin_create_request exists now id fingerprint m))
unfolding begin_create_request
begin-IsLimited exists now request_id fingerprint m h =
    let P : Begun → Type 0 = λ b. IsLimited (table_of b) in
    let pruned = prune_create_requests exists m in
    let ok = prune_create_requests-IsLimited exists m h.0 in
    let fresh = new_record now fingerprint in
    if_either P (not (is_nonempty (strip request_id))) h (
      elim_either P (get (strip request_id) pruned)
        (
          insert-HasUniqueKeys (strip request_id) fresh pruned ok.0,
          omega (
            arith,
            length-insert-le (strip request_id) fresh pruned,
            length-prune_create_requests-le exists m h.0,
          ),
        )
        (λ r. if_either P (r.fingerprint == fingerprint) ok ok))

Step-IsLimited : {m n : Table} → IsLimited m → Step m n → IsLimited n
unfolding accept_create_request finish_create_request fail_create_request
    drop_create_requests_for_resource
Step-IsLimited {m} h (begins_one exists now id fingerprint) =
    begin-IsLimited exists now id fingerprint m h
Step-IsLimited {m} h (accepts exists now id fingerprint resource_id) =
    if_either IsLimited (is_nonempty (strip id)) (written-IsLimited exists (strip id) _ m h.0) h
Step-IsLimited {m} h (finishes exists now id fingerprint resource_id) =
    if_either IsLimited (is_nonempty (strip id)) (written-IsLimited exists (strip id) _ m h.0) h
Step-IsLimited {m} h (fails exists now id error) = elim_either IsLimited (get (strip id) m) h (λ r.
    if_either IsLimited (not (is_nonempty (strip id))) h (
      if_either IsLimited (is_succeeded r) h (
        written-IsLimited exists (strip id)
          (record r { status = failed; error = error; updated_at = now }) m h.0)))
Step-IsLimited {m} h (stops resource_id) =
    let other : CreateRequestRecord → Bool =
      λ r. not (is_succeeded r && strip r.resource_id == strip resource_id) in
    if_either IsLimited (is_nonempty (strip resource_id))
      (
        chosen-HasUniqueKeys other m h.0,
        omega (arith, h.1, length-keep-le (λ (e : Text × CreateRequestRecord). other e.1) m),
      )
      h

-- After every history a table has one record of each id, and at most one more than the limit.
pub Reach-IsLimited : {m : Table} → Reach m → IsLimited m
Reach-IsLimited empty = (tt, omega arith)
Reach-IsLimited (later r step) = Step-IsLimited (Reach-IsLimited r) step
