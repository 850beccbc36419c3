-- ===== src/InfoCenter/Nodes.antt =====
-- The nodes that InfoCenterState of controlplane/infocenter_state.py knows, with their services and
-- task pools, the index of nodes by the names of their services, and the profiles that operators
-- keep for nodes: the state. The records are those of controlplane/infocenter/models.py. Times are
-- whole microseconds. What the state only hands on is left out of the records: of a service its
-- policy, code, entry, serialization, pids, progress of creation and the time of its child calls;
-- of a task pool its owner, code and counts; of a node its version, active runtimes, percentages of
-- load and capability.
pub mod Index
pub mod Profiles
pub mod Startup
pub mod Reports
pub mod Calls
pub mod Routes
pub mod Listing
pub mod Consistent
pub mod Kept
pub mod Invariant
pub mod Registered
pub mod Profiled
pub mod Steps
pub mod Complete
pub mod Sound
pub mod Refused
pub mod Cordon
pub mod Samples
use new_pycloud.Base.{
  ℕ, ◌+◌, ◌*◌, max, Bool, true, not, ◌&&◌, ltb, List, [], Option, ◌==◌, nat_eq, list_eq,
}
use new_pycloud.Base.Text.{Text}
use new_pycloud.Base.Int.{ℤ}

pub record NodeMetricsState : Type 0 where
  pub queued : ℕ
  pub inflight : ℕ
  pub running : ℕ
  pub credit : ℤ

pub record NodeServiceState : Type 0 where
  pub service_name : Text
  pub service_id : Text
  pub status : ℕ
  pub status_text : Text
  pub resource_health : Text
  pub degraded : Bool
  pub worker_count : ℕ
  pub alive_workers : ℕ
  pub in_flight : ℕ
  pub received_count : ℕ
  pub returned_count : ℕ
  pub created_at : Option ℕ
  pub lease_expire_at : ℕ
  pub http_base_url : Text
  pub stop_reason : Text
  pub failure_at : Option ℕ
  pub readiness : Text
  pub readiness_reason : Text
  pub method_failures : List (Text × Text)

pub record NodeTaskPoolInfo : Type 0 where
  pub pool_id : Text
  pub stop_reason : Text
  pub failure_reason : Text
  pub failure_at : Option ℕ

pub record NodeProfile : Type 0 where
  pub profile_key : Text
  pub managed_tags : List Text
  pub enabled : Bool
  pub drain : Bool
  pub notes : Text

pub record NodeState : Type 0 where
  pub node_instance_id : Text
  pub node_id : Text
  pub control_addr : Text
  pub capacity : ℕ
  pub queue_capacity : ℕ
  pub tags : List Text
  pub profile_key : Text
  pub managed_tags : List Text
  pub capability_tags : List Text
  pub legacy_node_tags : List Text
  pub profile_enabled : Bool
  pub profile_notes : Text
  pub python_version : Text
  pub metadata : List (Text × Text)
  pub healthy : Bool
  pub last_seen_at : ℕ
  pub metrics : NodeMetricsState
  pub services : List (Text × NodeServiceState)
  pub task_pools : List (Text × NodeTaskPoolInfo)
  pub service_worker_capacity : ℕ
  pub service_worker_used : ℕ
  pub task_pool_worker_capacity : ℕ
  pub task_pool_worker_used : ℕ
  pub accept_service_deploy : Bool
  pub schedulable : Bool
  pub drain : Bool
  pub reason : Text

pub record InfoCenterState : Type 0 where
  pub lease_ttl_sec : ℕ
  pub nodes : List (Text × NodeState)
  pub services_by_name : List (Text × List Text)
  pub profiles : List (Text × NodeProfile)

abbrev pub second : ℕ
second = 1000000

-- `_node_is_stale_locked`: no sign of life for longer than the lease.
unfoldable pub node_is_stale : ℕ → InfoCenterState → NodeState → Bool
node_is_stale now m s = ltb (s.last_seen_at + m.lease_ttl_sec * second) now

unfoldable pub node_is_healthy : ℕ → InfoCenterState → NodeState → Bool
unfolding node_is_stale
node_is_healthy now m s = s.healthy && not (node_is_stale now m s)
