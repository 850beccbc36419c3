-- ===== src/InfoCenter/Nodes/Reports.antt =====
-- What a node reports of itself, in `register_node_record` and `heartbeat_record` of
-- controlplane/infocenter_state.py, and the times of failures that `_with_failure_timestamps` puts
-- into the reports.
use new_pycloud.Base.{
  ℕ, min, max, Bool, true, false, List, [], ◌∷◌, Option, none, some, if◌then◌else◌, ◌==◌, nat_eq,
  list_eq,
}
use new_pycloud.Base.Dict.{get}
use new_pycloud.Base.Text.{Text, strip, is_nonempty}
use new_pycloud.Base.Int.{ℤ, pos, pos_part}
use new_pycloud.InfoCenter.Nodes.{NodeMetricsState, NodeServiceState, NodeTaskPoolInfo, NodeState}
use new_pycloud.InfoCenter.Nodes.Profiles.{nonempty_or}

-- When a failure began that is still reported for the same reason.
abbrev pub failure_time : ℕ → Text → Option ℕ → Text → Option ℕ → Option ℕ
failure_time now reason reported previous_reason previous =
    if is_nonempty reason
    then (elim reported [
      | some t ↦ some t
      | none ↦
          if previous_reason == reason
          then (elim previous [ none ↦ some now | some t ↦ some t ])
          else some now
    ])
    else none

abbrev pub first_of : Option ℕ → Option ℕ → Option ℕ
first_of none b = b
first_of (some t) b = some t

unfoldable pub stamp_service : ℕ → Option NodeServiceState → NodeServiceState → NodeServiceState
stamp_service now none svc = record svc {
  failure_at = failure_time now (strip svc.stop_reason) svc.failure_at [] none;
}
stamp_service now (some old) svc = record svc {
  created_at = first_of svc.created_at old.created_at;
  failure_at =
      failure_time now (strip svc.stop_reason) svc.failure_at (strip old.stop_reason)
        old.failure_at;
}

unfoldable pub stamp_services :
    ℕ
    → List (Text × NodeServiceState)
    → List (Text × NodeServiceState)
    → List (Text × NodeServiceState)
unfolding stamp_service
stamp_services now previous [] = []
stamp_services now previous ((id, svc) ∷ m) =
    (id, stamp_service now (get id previous) svc) ∷ stamp_services now previous m

abbrev pub pool_reason : NodeTaskPoolInfo → Text
pool_reason p = strip (nonempty_or p.stop_reason p.failure_reason)

unfoldable pub stamp_pool : ℕ → Option NodeTaskPoolInfo → NodeTaskPoolInfo → NodeTaskPoolInfo
stamp_pool now old p =
    let (old_reason, old_time) : Text × Option ℕ = elim old [
      | none ↦ ([], none)
      | some o ↦ (pool_reason o, o.failure_at)
    ] in
    record p {
      stop_reason = pool_reason p;
      failure_reason = pool_reason p;
      failure_at = failure_time now (pool_reason p) p.failure_at old_reason old_time;
    }

unfoldable pub stamp_pools :
    ℕ
    → List (Text × NodeTaskPoolInfo)
    → List (Text × NodeTaskPoolInfo)
    → List (Text × NodeTaskPoolInfo)
unfolding stamp_pool
stamp_pools now previous [] = []
stamp_pools now previous ((id, p) ∷ m) =
    (id, stamp_pool now (get id previous) p) ∷ stamp_pools now previous m

abbrev pub no_metrics : NodeMetricsState
no_metrics = record { queued = 0; inflight = 0; running = 0; credit = pos 0 }

abbrev pub new_node : ℕ → Text → Text → Text → ℕ → ℕ → Text → NodeState
new_node now id node_id control_addr capacity queue_capacity python_version = record {
  node_instance_id = id;
  node_id = node_id;
  control_addr = control_addr;
  capacity = capacity;
  queue_capacity = queue_capacity;
  tags = [];
  profile_key = [];
  managed_tags = [];
  capability_tags = [];
  legacy_node_tags = [];
  profile_enabled = true;
  profile_notes = [];
  python_version = python_version;
  metadata = [];
  healthy = true;
  last_seen_at = now;
  metrics = no_metrics;
  services = [];
  task_pools = [];
  service_worker_capacity = 0;
  service_worker_used = 0;
  task_pool_worker_capacity = 0;
  task_pool_worker_used = 0;
  accept_service_deploy = true;
  schedulable = true;
  drain = false;
  reason = [];
}

-- `max(0, min(used, capacity or used))`
abbrev pub worker_used : ℤ → ℕ → ℕ
worker_used used capacity = if capacity == 0 then pos_part used else min (pos_part used) capacity

-- The arguments of `register_node_record`.
pub record Registration : Type 0 where
  pub node_instance_id : Text
  pub node_id : Text
  pub control_addr : Text
  pub capacity : ℤ
  pub queue_capacity : ℤ
  pub tags : List Text
  pub metadata : List (Text × Text)
  pub services : List (Text × NodeServiceState)
  pub task_pools : List (Text × NodeTaskPoolInfo)
  pub service_worker_capacity : ℤ
  pub service_worker_used : ℤ
  pub task_pool_worker_capacity : ℤ
  pub task_pool_worker_used : ℤ
  pub accept_service_deploy : Bool
  pub python_version : Text

abbrev pub registration_id : Registration → Text
registration_id r = strip (nonempty_or r.node_instance_id r.node_id)

-- The arguments of `heartbeat_record`.
pub record Heartbeat : Type 0 where
  pub node_instance_id : Text
  pub node_id : Text
  pub healthy : Bool
  pub metrics : Option NodeMetricsState
  pub metadata : Option (List (Text × Text))
  pub services : Option (List (Text × NodeServiceState))
  pub task_pools : Option (List (Text × NodeTaskPoolInfo))
  pub service_worker_capacity : ℤ
  pub service_worker_used : ℤ
  pub task_pool_worker_capacity : ℤ
  pub task_pool_worker_used : ℤ
  pub accept_service_deploy : Option Bool
  pub python_version : Text

abbrev pub heartbeat_id : Heartbeat → Text
heartbeat_id h = strip (nonempty_or h.node_instance_id h.node_id)

-- The state of a node as a registration fills it in, up to the profile.
unfoldable pub registered : ℕ → Registration → NodeState → NodeState
unfolding stamp_services stamp_pools
registered now r s = record s {
  node_instance_id = registration_id r;
  node_id = nonempty_or (strip (nonempty_or r.node_id s.node_id)) (registration_id r);
  control_addr = r.control_addr;
  capacity = max 1 (pos_part r.capacity);
  queue_capacity = max 1 (pos_part r.queue_capacity);
  python_version = strip (nonempty_or r.python_version s.python_version);
  metadata = r.metadata;
  healthy = true;
  last_seen_at = now;
  services = stamp_services now s.services r.services;
  task_pools = stamp_pools now s.task_pools r.task_pools;
  service_worker_capacity = pos_part r.service_worker_capacity;
  service_worker_used = worker_used r.service_worker_used (pos_part r.service_worker_capacity);
  task_pool_worker_capacity = pos_part r.task_pool_worker_capacity;
  task_pool_worker_used =
      worker_used r.task_pool_worker_used (pos_part r.task_pool_worker_capacity);
  accept_service_deploy = r.accept_service_deploy;
}

-- A node without credit gets as much as its queue holds.
abbrev pub with_credit : NodeState → NodeState
with_credit s = elim s.metrics.credit [
  | pos n ↦
      if n == 0
      then record s { metrics = record s.metrics { credit = pos s.queue_capacity } }
      else s
  | _ ↦ s
]
