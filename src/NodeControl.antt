-- ===== src/NodeControl.antt =====
-- NodeControlState of controlplane/nodecontrol_state.py as far as the tasks of task pools go, with
-- TaskState and TaskPoolState of controlplane/node/models.py. A task is here without its payload, its
-- result and its timings; a pool without its managed globals and its metrics. A clock is in
-- microseconds. `lease_id`, which is a fresh uuid of every task, is a number that is counted up; it
-- also tells two task objects apart (`current is record`).
pub mod Submit
pub mod Stop
pub mod Calls
pub mod Events
pub mod Sweep
pub mod Reserve
pub mod Steps
pub mod Consistent
pub mod Changes
pub mod Keeps
pub mod Finished
pub mod Invariant
pub mod Committed
pub mod Always
pub mod Safety
pub mod Answers
mod Samples
use new_pycloud.Base.{
  ℕ, ◌+◌, ◌*◌, Bool, true, false, ◌&&◌, ◌||◌, not, List, Option, length, ◌==◌, nat_eq, list_eq,
  if◌then◌else◌,
}
use new_pycloud.Base.Text.{Text, codes, strip, upper, is_nonempty}

pub data TaskStatus : Type 0 where
  status_unspecified queued running succeeded failed_user failed_infra cancelled : TaskStatus

pub record TaskState : Type 0 where
  pub task_id : Text
  pub client_id : Text
  pub job_id : Text
  pub status : TaskStatus
  pub attempt : ℕ
  pub lease_id : ℕ
  pub started_at : Option ℕ
  pub finished_at : Option ℕ
  pub last_heartbeat_at : Option ℕ
  pub cancel_requested : Bool
  pub error_type : Text
  pub error_message : Text

pub record TaskResult : Type 0 where
  pub task_id : Text
  pub job_id : Text
  pub status : TaskStatus
  pub attempt : ℕ
  pub error_type : Text
  pub error_message : Text

abbrev pub as_result : TaskState → TaskResult
as_result t = record {
  task_id = t.task_id;
  job_id = t.job_id;
  status = t.status;
  attempt = t.attempt;
  error_type = t.error_type;
  error_message = t.error_message;
}

pub record TaskPoolState : Type 0 where
  pub pool_id : Text
  pub owner_client_id : Text
  pub code_version : Text
  pub heartbeat_timeout_sec : ℕ
  pub pool_token : Text
  pub token_node_instance_id : Text
  pub status : Text
  pub last_heartbeat_at : ℕ
  pub lease_expire_at : ℕ
  pub executor_ready : Bool
  pub alive_workers : ℕ
  pub degraded : Bool
  pub readiness : Text
  pub readiness_reason : Text
  pub create_stage : Text
  pub task_count : ℕ
  pub returned_count : ℕ
  pub stop_reason : Text
  pub failure_at : Option ℕ

abbrev pub is_running : TaskPoolState → Bool
is_running p = upper (strip p.status) == codes "RUNNING"

pub record PoolSignal : Type 0 where
  pub resource_id : Text
  pub signal_type : Text
  pub reason : Text

-- `results` is what was pushed to the result hook; `stops` are the pools that the executor host was
-- told to stop; `signals` are those published.
pub record NodeControlState : Type 0 where
  pub node_instance_id : Text
  pub queue_capacity : ℕ
  pub codes : List Text
  pub executor_host : Bool
  pub task_pools : List (Text × TaskPoolState)
  pub pool_tasks : List (Text × TaskState)
  pub active_pool_task_ids : List Text
  pub pool_task_reserved_ids : List Text
  pub results : List (Text × TaskResult)
  pub stops : List Text
  pub signals : List PoolSignal
  pub next_lease : ℕ

abbrev pub is_terminal_status : TaskStatus → Bool
is_terminal_status status_unspecified = false
is_terminal_status queued = false
is_terminal_status running = false
is_terminal_status succeeded = true
is_terminal_status failed_user = true
is_terminal_status failed_infra = true
is_terminal_status cancelled = true

-- The calls in flight of the services are not part of this state.
abbrev pub node_queue_occupancy : ℕ → NodeControlState → ℕ
node_queue_occupancy service_inflight n =
    service_inflight + length n.active_pool_task_ids + length n.pool_task_reserved_ids

abbrev pub has_pool_token : Text → TaskPoolState → NodeControlState → Bool
has_pool_token token p n =
    p.pool_token == strip token
    && (not (is_nonempty (strip p.token_node_instance_id))
        || strip p.token_node_instance_id == strip n.node_instance_id)

abbrev pub microseconds : ℕ → ℕ
microseconds s = s * 1000000

-- `str(text or default).strip() or default`, for a default without spaces around it.
abbrev pub text_or : Text → Text → Text
text_or text default = if is_nonempty (strip text) then strip text else default
