-- ===== src/CreateRequests.antt =====
-- The records of creation requests of NodeControlState in controlplane/nodecontrol_state.py, by
-- which a client that repeats a request gets the resource of the first one. A table is one of the
-- two for services and task pools; whether a resource still stands, and a clock in microseconds,
-- are arguments. The wait for the first caller is not modelled, only what it finds each time.
pub mod Pruned
pub mod Bounded
pub mod Owner
pub mod Steps
mod Samples
use new_pycloud.Base.{
  ℕ, ◌-◌, ◌⊎◌, inl, inr, Bool, true, false, not, ◌&&◌, ltb, leb, List, [], ◌∷◌, Option, none, some,
  if◌then◌else◌, nat_beq, ◌==◌, nat_eq, list_eq, length, take, keep,
}
use new_pycloud.Base.Dict.{get, insert, erase, keys}
use new_pycloud.Base.Text.{Text, strip, is_nonempty}

pub data CreateStatus : Type 0 where
  creating succeeded failed : CreateStatus

pub record CreateRequestRecord : Type 0 where
  pub fingerprint : Text
  pub status : CreateStatus
  pub resource_id : Text
  pub error : Text
  pub created_at : ℕ
  pub updated_at : ℕ

abbrev pub Table : Type 0
Table = List (Text × CreateRequestRecord)

abbrev pub max_records : ℕ
max_records = 200

abbrev pub is_creating : CreateRequestRecord → Bool
is_creating r = elim r.status [ creating ↦ true | _ ↦ false ]

abbrev pub is_succeeded : CreateRequestRecord → Bool
is_succeeded r = elim r.status [ succeeded ↦ true | _ ↦ false ]

-- `updated_at_monotonic or created_at_monotonic`.
abbrev pub age_key : CreateRequestRecord → ℕ
age_key r = if nat_beq r.updated_at 0 then r.created_at else r.updated_at

-- `sorted` by age, which is stable.
unfoldable pub insert_by_age : Text → CreateRequestRecord → Table → Table
insert_by_age id r [] = (id, r) ∷ []
insert_by_age id r ((k, s) ∷ m) =
    let rest = insert_by_age id r m in
    if leb (age_key r) (age_key s) then (id, r) ∷ (k, s) ∷ m else (k, s) ∷ rest

unfoldable pub by_age : Table → Table
by_age [] = []
by_age ((id, r) ∷ m) = insert_by_age id r (by_age m)

unfoldable pub erase_all : List Text → Table → Table
erase_all [] m = m
erase_all (id ∷ ids) m = erase_all ids (erase id m)

-- The oldest records beyond the limit, among those of a choice, are popped.
unfoldable pub drop_oldest : (CreateRequestRecord → Bool) → Table → Table
drop_oldest choice m =
    erase_all
      (take (length m - max_records)
        (keys (by_age (keep (λ (e : Text × CreateRequestRecord). choice e.1) m))))
      m

-- Whether the caller is to create the resource; the second error is a collision of ids.
pub data Begun : Type 0 where
  begun : Bool → Table → Begun
  collision : Table → Begun

abbrev pub new_record : ℕ → Text → CreateRequestRecord
new_record now fingerprint = record {
  fingerprint = fingerprint;
  status = creating;
  resource_id = [];
  error = [];
  created_at = now;
  updated_at = now;
}

abbrev pub record_at : ℕ → Text → Text → Table → CreateRequestRecord
record_at now id fingerprint m = elim (get id m) [ none ↦ new_record now fingerprint | some r ↦ r ]

module _ (exists : Text → Bool) where
  abbrev pub is_stale : CreateRequestRecord → Bool
  is_stale r = is_succeeded r && not (exists r.resource_id)

  -- The records of resources that are gone, then the oldest that are over, then the oldest.
  unfoldable pub prune_create_requests : Table → Table
  prune_create_requests m =
      drop_oldest (λ r. true)
        (drop_oldest (λ r. not (is_creating r))
          (keep (λ (e : Text × CreateRequestRecord). not (is_stale e.1)) m))

  unfoldable pub begin_create_request : ℕ → Text → Text → Table → Begun
  begin_create_request now request_id fingerprint m =
      let id = strip request_id in
      let pruned = prune_create_requests m in
      if not (is_nonempty id) then begun true m else elim (get id pruned) [
        | none ↦ begun true (insert id (new_record now fingerprint) pruned)
        | some r ↦ if r.fingerprint == fingerprint then begun false pruned else collision pruned
      ]

  unfoldable pub finish_create_request : ℕ → Text → Text → Text → Table → Table
  finish_create_request now request_id fingerprint resource_id m =
      let id = strip request_id in
      if is_nonempty id
      then prune_create_requests (
          insert id
            (record (record_at now id fingerprint m) {
              status = succeeded;
              resource_id = resource_id;
              error = [];
              updated_at = now;
            })
            m)
      else m

  unfoldable pub accept_create_request : ℕ → Text → Text → Text → Table → Table
  accept_create_request now request_id fingerprint resource_id m =
      let id = strip request_id in
      if is_nonempty id
      then prune_create_requests (
          insert id
            (record (record_at now id fingerprint m) {
              status = creating;
              resource_id = resource_id;
              error = [];
              updated_at = now;
            })
            m)
      else m

  unfoldable pub fail_create_request : ℕ → Text → Text → Table → Table
  fail_create_request now request_id error m = elim (get (strip request_id) m) [
    | none ↦ m
    | some r ↦
        if not (is_nonempty (strip request_id))
        then m
        else (if is_succeeded r
            then m
            else prune_create_requests (
                insert (strip request_id)
                  (record r { status = failed; error = error; updated_at = now }) m))
  ]

-- Called when the resource is stopped.
unfoldable pub drop_create_requests_for_resource : Text → Table → Table
drop_create_requests_for_resource resource_id m =
    if is_nonempty (strip resource_id)
    then keep
        (λ (e : Text × CreateRequestRecord).
          not (is_succeeded e.1 && strip e.1.resource_id == strip resource_id))
        m
    else m
