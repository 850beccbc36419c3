-- ===== src/NodeControl/Submit.antt =====
-- `submit_pool_tasks` of controlplane/nodecontrol_state.py, a block under the lock after another.
-- Decoding a payload, building the execution and the executor are outside: whether they fail is
-- which block follows. An item is its task id as it was sent.
use new_pycloud.Base.{
  ℕ, ◌+◌, ◌⊎◌, inl, inr, Bool, true, false, not, ◌&&◌, leb, List, [], ◌∷◌, ◌++◌, Option, none, some,
  if◌then◌else◌, ◌==◌, nat_eq, list_eq,
}
use new_pycloud.Base.Dict.{get, insert, erase}
use new_pycloud.Base.Sets.{member, add, discard}
use new_pycloud.Base.Text.{Text, codes, strip, lower, is_nonempty}
use new_pycloud.NodeControl.{
  running, TaskState, TaskPoolState, NodeControlState, node_queue_occupancy, has_pool_token,
}

-- KeyError, PermissionError and the four RuntimeErrors.
pub data Refusal : Type 0 where
  pool_not_found token_mismatch pool_not_running pool_not_ready artifact_missing host_unavailable :
      Refusal

-- Without a reason to refuse: the pool.
unfoldable pub submission_check : Text → Text → NodeControlState → Refusal ⊎ TaskPoolState
submission_check pool_id token n = elim (get (strip pool_id) n.task_pools) [
  | none ↦ inl pool_not_found
  | some p ↦
      if not (has_pool_token token p n)
      then inl token_mismatch
      else (if not (p.status == codes "RUNNING")
          then inl pool_not_running
          else (if is_nonempty (strip p.readiness)
                && not (lower (strip p.readiness) == codes "ready")
              then inl pool_not_ready
              else (if not (member p.code_version n.codes)
                  then inl artifact_missing
                  else (if n.executor_host then inr p else inl host_unavailable))))
]

pub data RejectCode : Type 0 where
  duplicate_task queue_full internal_error : RejectCode

-- Where the loop over the items stands.
pub record Reserving : Type 0 where
  pub reserved : List Text
  pub items : List Text
  pub rejected : List (Text × RejectCode)
  pub occupancy : ℕ

abbrev pub is_known : List (Text × TaskState) → List Text → Text → Bool
is_known tasks reserved id = elim (get id tasks) [ none ↦ member id reserved | some t ↦ true ]

unfoldable pub reserve_item : ℕ → List (Text × TaskState) → Text → Reserving → Reserving
reserve_item capacity tasks item r =
    let id = strip item in
    if is_known tasks r.reserved id
    then record r { rejected = r.rejected ++ (id, duplicate_task) ∷ [] }
    else (if leb capacity r.occupancy
        then record r { rejected = r.rejected ++ (id, queue_full) ∷ [] }
        else record {
          reserved = add id r.reserved;
          items = r.items ++ id ∷ [];
          rejected = r.rejected;
          occupancy = r.occupancy + 1;
        })

unfoldable pub reserve_items : ℕ → List (Text × TaskState) → List Text → Reserving → Reserving
reserve_items capacity tasks [] r = r
reserve_items capacity tasks (item ∷ items) r =
    reserve_items capacity tasks items (reserve_item capacity tasks item r)

unfoldable pub reserving : ℕ → NodeControlState → Reserving
reserving service_inflight n = record {
  reserved = n.pool_task_reserved_ids;
  items = [];
  rejected = [];
  occupancy = node_queue_occupancy service_inflight n;
}

-- The first block, behind its checks: the ids that are reserved, and the rejections.
unfoldable pub reserve :
    ℕ → List Text → NodeControlState → NodeControlState × (List Text × List (Text × RejectCode))
unfolding reserving
reserve service_inflight items n =
    let r = reserve_items n.queue_capacity n.pool_tasks items (reserving service_inflight n) in
    (record n { pool_task_reserved_ids = r.reserved }, (r.items, r.rejected))

abbrev pub new_task : ℕ → Text → Text → Text → ℕ → TaskState
new_task now id pool_id job_id lease = record {
  task_id = id;
  client_id = pool_id;
  job_id = strip job_id;
  status = running;
  attempt = 1;
  lease_id = lease;
  started_at = some now;
  finished_at = none;
  last_heartbeat_at = some now;
  cancel_requested = false;
  error_type = [];
  error_message = [];
}

abbrev pub release : Text → NodeControlState → NodeControlState
release id n = record n { pool_task_reserved_ids = discard id n.pool_task_reserved_ids }

-- The second block, for an item whose payload was decoded: with the lease of the task that it
-- stores, or `none` when the pool is gone or stopped. Then the item is rejected. `client_id` is the
-- `pool_id` of the pool that the first block found.
unfoldable pub commit :
    ℕ → Text → Text → Text → Text → NodeControlState → Option ℕ × NodeControlState
commit now pool_id client_id job_id id n = elim (get (strip pool_id) n.task_pools) [
  | none ↦ (none, release id n)
  | some p ↦
      if p.status == codes "RUNNING"
      then (
        some n.next_lease,
        record n {
          pool_task_reserved_ids = discard id n.pool_task_reserved_ids;
          pool_tasks = insert id (new_task now id client_id job_id n.next_lease) n.pool_tasks;
          active_pool_task_ids = add id n.active_pool_task_ids;
          next_lease = n.next_lease + 1;
        },
      )
      else (none, release id n)
]

-- The handler of a payload that could not be decoded: no task was stored for it.
unfoldable pub prepare_failed : Text → NodeControlState → NodeControlState
prepare_failed = release

-- The handler of an executor that refused the task: the record goes, if it is still the same.
unfoldable pub withdraw : Text → ℕ → NodeControlState → NodeControlState
withdraw id lease n = elim (get id n.pool_tasks) [
  | none ↦ n
  | some t ↦
      if t.lease_id == lease
      then record n {
        pool_tasks = erase id n.pool_tasks;
        active_pool_task_ids = discard id n.active_pool_task_ids;
      }
      else n
]

-- The last block, for a task that the executor took.
unfoldable pub count_task : Text → NodeControlState → NodeControlState
count_task pool_id n = elim (get (strip pool_id) n.task_pools) [
  | none ↦ n
  | some p ↦ record n {
    task_pools = insert (strip pool_id) (record p { task_count = p.task_count + 1 }) n.task_pools;
  }
]
