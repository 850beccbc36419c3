-- ===== src/NodeControl/Events.antt =====
-- What `_drain_executor_events` of controlplane/nodecontrol_state.py does with `pool_task_done`, with
-- `normalize_invoke_error` of runtime/errors.py and `_mark_task_pool_dependency_failure_locked`.
-- Whether a result can be serialised and the text of a dependency failure are parameters.
use new_pycloud.Base.{
  ℕ, ◌+◌, Bool, true, false, not, ◌&&◌, ◌||◌, [], ◌∷◌, ◌++◌, Option, none, some, if◌then◌else◌,
  ◌==◌, nat_beq, nat_eq, list_eq,
}
use new_pycloud.Base.Dict.{get, insert}
use new_pycloud.Base.Sets.{discard}
use new_pycloud.Base.Text.{Text, codes, strip, upper, is_nonempty}
use new_pycloud.NodeControl.{
  succeeded, failed_user, failed_infra, TaskState, as_result, TaskPoolState, NodeControlState,
  is_terminal_status,
}
use new_pycloud.NodeControl.Stop.{fail_task_pool_tasks}

abbrev pub nonempty_or : Text → Text → Text
nonempty_or text default = if is_nonempty text then text else default

-- Whether the call worked, and the type and the message of its error.
unfoldable pub normalize_invoke_error : Text → Text → Text → Text → Text → Bool × (Text × Text)
normalize_invoke_error status error_type message user_fallback infra_fallback =
    let s = upper (strip status) in
    if s == codes "FAILED_USER"
    then (false, (nonempty_or error_type (codes "UserError"), nonempty_or message user_fallback))
    else (if s == codes "FAILED_DEPENDENCY"
        then (
          false,
          (nonempty_or error_type (codes "DependencyError"), nonempty_or message infra_fallback),
        )
        else (if s == codes "FAILED_INFRA"
            then (
              false,
              (nonempty_or error_type (codes "InfraError"), nonempty_or message infra_fallback),
            )
            else (true, ([], []))))

-- A `pool_task_done` event, its texts with their defaults.
pub record TaskDone : Type 0 where
  pub pool_id : Text
  pub task_id : Text
  pub attempt : ℕ
  pub status_text : Text
  pub err_type : Text
  pub err_message : Text

abbrev pub is_dependency_failure : TaskDone → Bool
is_dependency_failure e = e.status_text == codes "FAILED_DEPENDENCY"

abbrev pub event_error : TaskDone → Text × Text
event_error e =
    (normalize_invoke_error e.status_text e.err_type e.err_message (codes "user function failed")
      (codes "infra failure")).1

unfoldable pub finished_task : ℕ → TaskDone → TaskState → TaskState
unfolding normalize_invoke_error
finished_task now e t =
    let over : TaskState = record t { finished_at = some now; last_heartbeat_at = some now } in
    if e.status_text == codes "FAILED_USER"
    then record over {
      status = failed_user;
      error_type = (event_error e).0;
      error_message = (event_error e).1;
    }
    else (if e.status_text == codes "FAILED_INFRA" || is_dependency_failure e
        then record over {
          status = failed_infra;
          error_type = (event_error e).0;
          error_message = (event_error e).1;
        }
        else record over { status = succeeded; error_type = []; error_message = [] })

unfoldable pub failed_pool : ℕ → Text → ℕ → TaskPoolState → TaskPoolState
failed_pool now reason failed p = record p {
  executor_ready = false;
  alive_workers = 0;
  degraded = false;
  status = codes "STOPPED";
  readiness = codes "failed";
  readiness_reason = reason;
  stop_reason = reason;
  failure_at = some now;
  lease_expire_at = now;
  returned_count = p.returned_count + failed;
}

-- `_mark_task_pool_dependency_failure_locked`, for a pool under `key`; without the failures by
-- method.
unfoldable pub mark_task_pool_dependency_failure :
    ℕ → Text → Text → TaskPoolState → NodeControlState → NodeControlState
unfolding failed_pool
mark_task_pool_dependency_failure now reason key p n =
    let failed = fail_task_pool_tasks now reason p n in
    let m = failed.1 in
    if upper p.status == codes "STOPPED" && strip p.stop_reason == reason then n else record m {
      task_pools = insert key (failed_pool now reason failed.0 p) m.task_pools;
      signals =
          m.signals
          ++ record { resource_id = p.pool_id; signal_type = codes "failure"; reason = reason }
            ∷ [];
      stops = if n.executor_host && p.executor_ready then m.stops ++ p.pool_id ∷ [] else m.stops;
    }

-- The task that an event finishes: the first block leaves everything else alone.
unfoldable pub event_task : TaskDone → NodeControlState → Option (TaskState × TaskPoolState)
event_task e n = elim (get e.task_id n.pool_tasks) [
  | none ↦ none
  | some t ↦ elim (get e.pool_id n.task_pools) [
    | none ↦ none
    | some p ↦
        if nat_beq t.attempt e.attempt
          && (not (is_terminal_status t.status) && strip t.client_id == e.pool_id)
        then some (t, p)
        else none
  ]
]

-- The first block of the event, with the snapshot whose result the second block pushes.
unfoldable pub task_done :
    (TaskDone → Text) → ℕ → TaskDone → NodeControlState → Option TaskState × NodeControlState
unfolding finished_task
task_done dependency_reason now e n = elim (event_task e n) [
  | none ↦ (none, n)
  | some (t, p) ↦
      let done = finished_task now e t in
      let q : TaskPoolState = record p { returned_count = p.returned_count + 1 } in
      let m : NodeControlState = record n {
        pool_tasks = insert e.task_id done n.pool_tasks;
        active_pool_task_ids = discard e.task_id n.active_pool_task_ids;
        task_pools = insert e.pool_id q n.task_pools;
      } in
      (
        some done,
        (if is_dependency_failure e
            then mark_task_pool_dependency_failure now (dependency_reason e) e.pool_id q m
            else m),
      )
]

-- `as_result` raises if the result cannot be serialised: then the message of the exception.
abbrev pub snapshot_result : Option Text → TaskState → TaskState
snapshot_result none t = t
snapshot_result (some message) t = record t {
  status = failed_infra;
  error_type = codes "SerializationError";
  error_message = message;
}

-- The second block: the result is pushed if the task still stands.
unfoldable pub push_result : Text → Option Text → TaskState → NodeControlState → NodeControlState
push_result pool_id raised snapshot n = elim (get snapshot.task_id n.pool_tasks) [
  | none ↦ n
  | some t ↦
      let s = snapshot_result raised snapshot in
      if nat_beq t.lease_id snapshot.lease_id && nat_beq t.attempt snapshot.attempt
      then record n {
        pool_tasks =
            insert snapshot.task_id
              (record t {
                status = s.status;
                error_type = s.error_type;
                error_message = s.error_message;
              })
              n.pool_tasks;
        results = n.results ++ (pool_id, as_result s) ∷ [];
      }
      else n
]
