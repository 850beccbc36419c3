-- ===== src/NodeControl/Stop.antt =====
-- What stops a task pool in controlplane/nodecontrol_state.py: `_fail_task_pool_tasks_locked`,
-- `_stop_task_pool_resource_locked`, `close_task_pool`, `_handle_task_pool_resource_health_locked`
-- and `_prune_inactive_resource_history_locked`. A loop over the tasks that changes some of them,
-- discards their ids and pushes their results is here one function for each of the three. What
-- `_drop_create_requests_for_resource_locked` does is not part of this state.
use new_pycloud.Base.{
  ℕ, ◌+◌, ◌-◌, ◌⊎◌, inl, inr, Bool, false, not, ◌&&◌, ltb, List, [], ◌∷◌, ◌++◌, none, some,
  if◌then◌else◌, ◌==◌, nat_eq, list_eq, length, max, take, map, keep,
}
use new_pycloud.Base.Dict.{get, insert, erase}
use new_pycloud.Base.Sets.{member, discard}
use new_pycloud.Base.Text.{Text, codes, strip, lower, is_nonempty}
use new_pycloud.NodeControl.{
  failed_infra, TaskState, TaskResult, as_result, TaskPoolState, is_running, PoolSignal,
  NodeControlState, is_terminal_status, has_pool_token, text_or, microseconds,
}

abbrev pub Tasks : Type 0
Tasks = List (Text × TaskState)

-- The tasks that a loop chooses, changed.
unfoldable pub change_where : (TaskState → Bool) → (TaskState → TaskState) → Tasks → Tasks
change_where p f [] = []
change_where p f ((id, t) ∷ m) = (id, if p t then f t else t) ∷ change_where p f m

-- The ids of the chosen tasks, discarded from a set.
unfoldable pub discard_where : (TaskState → Bool) → Tasks → List Text → List Text
discard_where p [] ids = ids
discard_where p ((id, t) ∷ m) ids =
    discard_where p m (if p t then discard (strip t.task_id) ids else ids)

unfoldable pub chosen_tasks : (TaskState → Bool) → Tasks → List TaskState
chosen_tasks p [] = []
chosen_tasks p ((id, t) ∷ m) = let rest = chosen_tasks p m in if p t then t ∷ rest else rest

abbrev pub pushed : Text → (TaskState → TaskState) → List TaskState → List (Text × TaskResult)
pushed pool_id f = map λ t. (pool_id, as_result (f t))

abbrev pub is_unfinished_of : Text → TaskState → Bool
is_unfinished_of pool_id t = strip t.client_id == pool_id && not (is_terminal_status t.status)

abbrev pub stopped_task : ℕ → Text → TaskState → TaskState
stopped_task now reason t = record t {
  status = failed_infra;
  finished_at = some now;
  last_heartbeat_at = some now;
  error_type = codes "TaskPoolStopped";
  error_message = if is_nonempty reason then reason else codes "task pool stopped";
}

-- The pool's unfinished tasks, failed; with their number.
unfoldable pub fail_task_pool_tasks :
    ℕ → Text → TaskPoolState → NodeControlState → ℕ × NodeControlState
fail_task_pool_tasks now reason p n =
    let id = strip p.pool_id in
    let chosen = chosen_tasks (is_unfinished_of id) n.pool_tasks in
    if is_nonempty id
    then (
      length chosen,
      record n {
        pool_tasks = change_where (is_unfinished_of id) (stopped_task now reason) n.pool_tasks;
        active_pool_task_ids =
            discard_where (is_unfinished_of id) n.pool_tasks n.active_pool_task_ids;
        results = n.results ++ pushed id (stopped_task now reason) chosen;
      },
    )
    else (0, n)

abbrev pub owner_requested : Text
owner_requested = codes "owner requested"

abbrev pub owner_timeout : Text
owner_timeout = codes "owner heartbeat timeout"

-- The pool of a stop, with the number of tasks that it failed counted as returned.
unfoldable pub stopped_pool : ℕ → Text → ℕ → TaskPoolState → TaskPoolState
stopped_pool now reason failed p = record p {
  executor_ready = false;
  alive_workers = 0;
  degraded = false;
  readiness = codes "stopped";
  readiness_reason = text_or reason owner_requested;
  status = codes "STOPPED";
  stop_reason = text_or reason owner_requested;
  failure_at = some now;
  lease_expire_at = now;
  returned_count = p.returned_count + failed;
}

abbrev pub stop_signal : TaskPoolState → Text → PoolSignal
stop_signal p reason = record {
  resource_id = p.pool_id;
  signal_type = if reason == owner_timeout then codes "failure" else codes "stop";
  reason = reason;
}

-- The pool `p` stands in the dict under `key`. The executor host is told to stop it at once, or by
-- the caller behind the lock.
unfoldable pub stop_task_pool_resource :
    ℕ → Text → Text → TaskPoolState → NodeControlState → NodeControlState
unfolding stopped_pool
stop_task_pool_resource now reason key p n =
    let why = text_or reason owner_requested in
    let failed = fail_task_pool_tasks now why p n in
    let m = failed.1 in
    record m {
      task_pools = insert key (stopped_pool now reason failed.0 p) m.task_pools;
      signals = m.signals ++ stop_signal p why ∷ [];
      stops = if n.executor_host && p.executor_ready then m.stops ++ p.pool_id ∷ [] else m.stops;
    }

pub data CloseError : Type 0 where
  pool_missing owner_mismatch token_refused : CloseError

abbrev pub close_reason : Text → TaskPoolState → Text
close_reason reason p =
    if not (is_running p) && is_nonempty (strip p.stop_reason)
    then strip p.stop_reason
    else text_or reason owner_requested

unfoldable pub close_task_pool :
    ℕ → Text → Text → Text → Text → NodeControlState → CloseError ⊎ NodeControlState
unfolding stop_task_pool_resource
close_task_pool now owner pool_id token reason n = elim (get (strip pool_id) n.task_pools) [
  | none ↦ inl pool_missing
  | some p ↦
      if not (p.owner_client_id == strip owner)
      then inl owner_mismatch
      else (if has_pool_token token p n
          then inr (stop_task_pool_resource now (close_reason reason p) (strip pool_id) p n)
          else inl token_refused)
]

abbrev pub is_create_in_progress : TaskPoolState → Bool
is_create_in_progress p = member (lower (strip p.create_stage)) (
    codes "accepted"
    ∷ codes "artifact_prepare"
    ∷ codes "executor_create"
    ∷ codes "globals_warmup"
    ∷ [])

abbrev pub refreshed_lease : ℕ → TaskPoolState → TaskPoolState
refreshed_lease now p = record p {
  last_heartbeat_at = now;
  lease_expire_at = now + microseconds (max 1 p.heartbeat_timeout_sec);
}

-- A pool that is being created keeps its lease; a running one is stopped when its lease is over.
unfoldable pub handle_task_pool_resource_health :
    ℕ → Text → TaskPoolState → NodeControlState → NodeControlState
unfolding stop_task_pool_resource
handle_task_pool_resource_health now key p n =
    if is_create_in_progress p
    then (if ltb p.lease_expire_at now
        then record n { task_pools = insert key (refreshed_lease now p) n.task_pools }
        else n)
    else (if not (is_running p)
        then n
        else (if ltb p.lease_expire_at now
            then stop_task_pool_resource now owner_timeout key p n
            else (if ltb 0 p.alive_workers
                then record n {
                  task_pools = insert key (record p { degraded = false }) n.task_pools;
                }
                else n)))

abbrev pub is_of : Text → TaskState → Bool
is_of pool_id t = strip t.client_id == pool_id

-- The pops of the ids of the chosen tasks.
unfoldable pub erase_where : (TaskState → Bool) → Tasks → Tasks
erase_where p [] = []
erase_where p ((id, t) ∷ m) = let rest = erase_where p m in if p t then rest else (id, t) ∷ rest

unfoldable pub discard_keys_where : (TaskState → Bool) → Tasks → List Text → List Text
discard_keys_where p [] ids = ids
discard_keys_where p ((id, t) ∷ m) ids =
    discard_keys_where p m (if p t then discard id ids else ids)

-- `clear_client` of the result hook.
abbrev pub clear_client : Text → List (Text × TaskResult) → List (Text × TaskResult)
clear_client pool_id = keep λ r. not (r.0 == pool_id)

unfoldable pub forget_pool : Text → NodeControlState → NodeControlState
forget_pool id n = record n {
  task_pools = erase id n.task_pools;
  results = clear_client id n.results;
  pool_tasks = erase_where (is_of (strip id)) n.pool_tasks;
  active_pool_task_ids = discard_keys_where (is_of (strip id)) n.pool_tasks n.active_pool_task_ids;
}

unfoldable pub forget_pools : List Text → NodeControlState → NodeControlState
forget_pools [] n = n
forget_pools (id ∷ ids) n = forget_pools ids (forget_pool id n)

unfoldable pub stopped_pool_ids : List (Text × TaskPoolState) → List Text
stopped_pool_ids [] = []
stopped_pool_ids ((id, p) ∷ m) =
    let rest = stopped_pool_ids m in if is_running p then rest else id ∷ rest

-- The stopped pools beyond the limit, the oldest first. The services of the history are not part of
-- this state.
unfoldable pub prune_inactive_resource_history : ℕ → NodeControlState → NodeControlState
prune_inactive_resource_history limit n =
    let stopped = stopped_pool_ids n.task_pools in
    forget_pools (take (length stopped - limit) stopped) n
