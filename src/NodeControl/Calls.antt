-- ===== src/NodeControl/Calls.antt =====
-- The other calls of controlplane/nodecontrol_state.py that change the tasks of task pools:
-- `pull_pool_results`, `cancel_pool_job` and `heartbeat_task_pool`. The results that a pull returns
-- come from the result hook.
use new_pycloud.Base.{
  ℕ, ◌+◌, ◌⊎◌, inl, inr, Bool, true, false, not, ◌&&◌, ltb, List, [], ◌∷◌, ◌++◌, none, some,
  if◌then◌else◌, ◌==◌, nat_beq, nat_eq, list_eq, length,
}
use new_pycloud.Base.Dict.{get, insert, erase}
use new_pycloud.Base.Sets.{discard}
use new_pycloud.Base.Text.{Text, codes, strip, is_nonempty}
use new_pycloud.NodeControl.{
  TaskStatus, queued, running, cancelled, TaskState, TaskResult, TaskPoolState, NodeControlState,
  is_terminal_status, has_pool_token, microseconds,
}
use new_pycloud.NodeControl.Stop.{Tasks, change_where, discard_where, chosen_tasks, pushed}

-- Takes the finished tasks of the results that a pull returns out.
unfoldable pub forget_result : Text → NodeControlState → NodeControlState
forget_result id n = elim (get id n.pool_tasks) [
  | none ↦ n
  | some t ↦
      if is_nonempty id && is_terminal_status t.status
      then record n {
        pool_tasks = erase id n.pool_tasks;
        active_pool_task_ids = discard id n.active_pool_task_ids;
      }
      else n
]

unfoldable pub forget_results : List TaskResult → NodeControlState → NodeControlState
unfolding forget_result
forget_results [] n = n
forget_results (r ∷ rs) n = forget_results rs (forget_result (strip r.task_id) n)

abbrev pub is_queued : TaskStatus → Bool
is_queued queued = true
is_queued _ = false

abbrev pub is_running_status : TaskStatus → Bool
is_running_status running = true
is_running_status _ = false

abbrev pub is_job_task : Text → Text → TaskState → Bool
is_job_task pool_id job_id t = t.client_id == pool_id && t.job_id == job_id

abbrev pub is_open_job_task : Text → Text → TaskState → Bool
is_open_job_task pool_id job_id t =
    is_job_task pool_id job_id t && not (is_terminal_status t.status)

-- A task of the job that waits is cancelled; one that runs only has the request noted.
abbrev pub cancel_task : ℕ → Text → TaskState → TaskState
cancel_task now message t =
    let asked : TaskState = record t { cancel_requested = true } in
    if is_queued t.status
    then record asked {
      status = cancelled;
      finished_at = some now;
      error_type = codes "Cancelled";
      error_message = message;
    }
    else asked

abbrev pub is_queued_job_task : Text → Text → TaskState → Bool
is_queued_job_task pool_id job_id t = is_job_task pool_id job_id t && is_queued t.status

abbrev pub cancel_message : Text → Text → Text
cancel_message reason job_id =
    if is_nonempty reason then reason else codes "cancelled by pool job_id=" ++ job_id

pub data CancelError : Type 0 where
  job_id_required unknown_pool token_denied : CancelError

-- How many tasks were cancelled, only marked, or over already; and whether there were none.
pub record CancelCounts : Type 0 where
  pub queued_cancelled : ℕ
  pub running_marked : ℕ
  pub already_done : ℕ
  pub not_found : ℕ

abbrev pub count_where : (TaskState → Bool) → Tasks → ℕ
count_where p m = length (chosen_tasks p m)

unfoldable pub cancelled_job : ℕ → Text → Text → Text → NodeControlState → NodeControlState
cancelled_job now pool_id job_id message n =
    let chosen = chosen_tasks (is_queued_job_task pool_id job_id) n.pool_tasks in
    record n {
      pool_tasks =
          change_where (is_open_job_task pool_id job_id) (cancel_task now message) n.pool_tasks;
      active_pool_task_ids =
          discard_where (is_queued_job_task pool_id job_id) n.pool_tasks n.active_pool_task_ids;
      results = n.results ++ pushed pool_id (cancel_task now message) chosen;
    }

unfoldable pub cancel_counts : Text → Text → Tasks → CancelCounts
cancel_counts pool_id job_id m = record {
  queued_cancelled = count_where (is_queued_job_task pool_id job_id) m;
  running_marked = count_where (λ t. is_job_task pool_id job_id t && is_running_status t.status) m;
  already_done = count_where (λ t. is_job_task pool_id job_id t && is_terminal_status t.status) m;
  not_found = if nat_beq (count_where (is_job_task pool_id job_id) m) 0 then 1 else 0;
}

unfoldable pub cancel_pool_job :
    ℕ
    → Text
    → Text
    → Text
    → Text
    → NodeControlState
    → CancelError ⊎ (CancelCounts × NodeControlState)
unfolding cancelled_job cancel_counts
cancel_pool_job now pool_id token job_id reason n =
    let pool = strip pool_id in
    let job = strip job_id in
    if not (is_nonempty job) then inl job_id_required else elim (get pool n.task_pools) [
      | none ↦ inl unknown_pool
      | some p ↦
          let m = cancelled_job now pool job (cancel_message reason job) n in
          let counts = cancel_counts pool job n.pool_tasks in
          if has_pool_token token p n
          then inr (
            counts,
            record m {
              task_pools =
                  insert pool
                    (record p { returned_count = p.returned_count + counts.queued_cancelled })
                    m.task_pools;
            },
          )
          else inl token_denied
    ]

pub data HeartbeatError : Type 0 where
  no_such_pool not_the_owner wrong_token pool_stopped : HeartbeatError

unfoldable pub beaten_pool : ℕ → TaskPoolState → TaskPoolState
beaten_pool now p = record p {
  last_heartbeat_at = now;
  lease_expire_at = now + microseconds p.heartbeat_timeout_sec;
  stop_reason = [];
  failure_at = none;
  degraded = if ltb 0 p.alive_workers then false else p.degraded;
}

unfoldable pub heartbeat_task_pool :
    ℕ → Text → Text → Text → NodeControlState → HeartbeatError ⊎ NodeControlState
unfolding beaten_pool
heartbeat_task_pool now owner pool_id token n = elim (get (strip pool_id) n.task_pools) [
  | none ↦ inl no_such_pool
  | some p ↦
      if not (p.owner_client_id == strip owner)
      then inl not_the_owner
      else (if not (has_pool_token token p n)
          then inl wrong_token
          else (if p.status == codes "RUNNING"
              then inr (record n {
                task_pools = insert (strip pool_id) (beaten_pool now p) n.task_pools;
              })
              else inl pool_stopped))
]
