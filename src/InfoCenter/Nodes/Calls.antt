-- ===== src/InfoCenter/Nodes/Calls.antt =====
-- The calls of InfoCenterState in controlplane/infocenter_state.py that change nodes, each one block
-- under the lock. `_with_failure_timestamps` changes the reports of services in place, so that a
-- heartbeat which carries task pools alone also stamps the services that are stored.
-- `_fence_instance_locked` does nothing.
use new_pycloud.Base.{
  ℕ, ◌+◌, ◌-◌, ◌*◌, Bool, true, false, ◌||◌, ltb, List, [], ◌∷◌, Option, none, some, if◌then◌else◌,
  nat_eq, list_eq, max,
}
use new_pycloud.Base.Dict.{get, insert}
use new_pycloud.Base.Text.{Text, codes, strip, is_nonempty}
use new_pycloud.Base.Int.{ℤ, pos_part}
use new_pycloud.Scheduling.{unspecified}
use new_pycloud.InfoCenter.Nodes.{
  NodeServiceState, NodeTaskPoolInfo, NodeState, InfoCenterState, second,
}
use new_pycloud.InfoCenter.Nodes.Index.{service_names, reindex_node_services}
use new_pycloud.InfoCenter.Nodes.Profiles.{nonempty_or, or_old, apply_profile}
use new_pycloud.InfoCenter.Nodes.Startup.{prune_replaced_nodes, validate_startup_service_names}
use new_pycloud.InfoCenter.Nodes.Reports.{
  first_of, stamp_services, stamp_pools, new_node, worker_used, Registration, registration_id,
  Heartbeat, heartbeat_id, registered, with_credit,
}

-- Stores a node under its key, and its services in the index in place of the previous names.
unfoldable pub store_node : NodeState → List Text → InfoCenterState → InfoCenterState
store_node s previous m = record m {
  nodes = insert s.node_instance_id s m.nodes;
  services_by_name = reindex_node_services s previous m.services_by_name;
}

abbrev pub registering_node : ℕ → Registration → InfoCenterState → NodeState
registering_node now r m = or_old (get (registration_id r) m.nodes) (
    new_node now (registration_id r) r.node_id r.control_addr (max 1 (pos_part r.capacity))
      (max 1 (pos_part r.queue_capacity)) (strip r.python_version))

abbrev pub heartbeat_node : ℕ → Heartbeat → InfoCenterState → NodeState
heartbeat_node now h m =
    or_old (get (heartbeat_id h) m.nodes)
      (new_node now (heartbeat_id h) h.node_id [] 1 1 (strip h.python_version))

abbrev pub positive_or : ℤ → ℕ → ℕ
positive_or new old = if ltb 0 (pos_part new) then pos_part new else old

abbrev pub is_given {ℓ} : {A : Type ℓ} → Option A → Bool
is_given none = false
is_given (some a) = true

abbrev pub inventory_updated : Heartbeat → Bool
inventory_updated h = is_given h.services || is_given h.task_pools

-- The services after a heartbeat: those reported, or the stored ones stamped again.
unfoldable pub heartbeat_services : ℕ → Heartbeat → NodeState → List (Text × NodeServiceState)
heartbeat_services now h s =
    if inventory_updated h
    then stamp_services now s.services (or_old h.services s.services)
    else s.services

unfoldable pub heartbeat_pools : ℕ → Heartbeat → NodeState → List (Text × NodeTaskPoolInfo)
heartbeat_pools now h s =
    if inventory_updated h
    then stamp_pools now s.task_pools (or_old h.task_pools s.task_pools)
    else s.task_pools

abbrev pub used_after : Bool → ℤ → ℕ → ℕ → ℕ
used_after updated used capacity old = if updated then worker_used used capacity else old

abbrev pub capacity_after : Bool → ℤ → ℕ → ℕ
capacity_after updated capacity old = if updated then positive_or capacity old else old

-- The state of a node as a heartbeat fills it in, up to the profile.
unfoldable pub beaten : ℕ → Heartbeat → NodeState → NodeState
unfolding heartbeat_services heartbeat_pools
beaten now h s =
    let services_cap =
      capacity_after (inventory_updated h) h.service_worker_capacity s.service_worker_capacity in
    let pools_cap =
      capacity_after (inventory_updated h) h.task_pool_worker_capacity
        s.task_pool_worker_capacity in
    record s {
      node_instance_id = heartbeat_id h;
      node_id = nonempty_or (strip (nonempty_or h.node_id s.node_id)) (heartbeat_id h);
      healthy = h.healthy;
      last_seen_at = now;
      metrics = or_old h.metrics s.metrics;
      metadata = or_old h.metadata s.metadata;
      services = heartbeat_services now h s;
      task_pools = heartbeat_pools now h s;
      python_version =
          if is_nonempty h.python_version then strip h.python_version else s.python_version;
      service_worker_capacity = services_cap;
      service_worker_used =
          used_after (inventory_updated h) h.service_worker_used services_cap s.service_worker_used;
      task_pool_worker_capacity = pools_cap;
      task_pool_worker_used =
          used_after (inventory_updated h) h.task_pool_worker_used pools_cap
            s.task_pool_worker_used;
      accept_service_deploy = or_old h.accept_service_deploy s.accept_service_deploy;
    }

-- A lost node's service keeps its identity, and none of its work.
unfoldable pub degraded_service : ℕ → Text → NodeServiceState → NodeServiceState
degraded_service now reason svc = record {
  service_name = svc.service_name;
  service_id = svc.service_id;
  status = unspecified;
  status_text = [];
  resource_health = [];
  degraded = false;
  worker_count = svc.worker_count;
  alive_workers = 0;
  in_flight = 0;
  received_count = 0;
  returned_count = 0;
  created_at = none;
  lease_expire_at = now;
  http_base_url = svc.http_base_url;
  stop_reason = nonempty_or svc.stop_reason (nonempty_or reason (codes "node lost"));
  failure_at = first_of svc.failure_at (some now);
  readiness = [];
  readiness_reason = [];
  method_failures = [];
}

unfoldable pub degraded_services :
    ℕ → Text → List (Text × NodeServiceState) → List (Text × NodeServiceState)
unfolding degraded_service
degraded_services now reason [] = []
degraded_services now reason ((id, svc) ∷ m) =
    (id, degraded_service now reason svc) ∷ degraded_services now reason m

-- The clock is later than the lease is long.
unfoldable pub lost : ℕ → ℕ → Text → NodeState → NodeState
unfolding degraded_services
lost now lease_ttl_sec reason s =
    let why = nonempty_or reason (nonempty_or s.reason (codes "node lost")) in
    record s {
      healthy = false;
      schedulable = false;
      last_seen_at = now - (lease_ttl_sec + 1) * second;
      reason = why;
      services = degraded_services now why s.services;
    }

-- `KeyError` is `none`.
unfoldable pub mark_node_lost :
    ℕ → Text → Text → InfoCenterState → Option NodeState × InfoCenterState
unfolding lost
mark_node_lost now id reason m = elim (get id m.nodes) [
  | none ↦ (none, m)
  | some s ↦
      let s' = lost now m.lease_ttl_sec reason s in
      (
        some s',
        record m {
          nodes = insert id s' m.nodes;
          services_by_name = reindex_node_services s' (service_names s.services) m.services_by_name;
        },
      )
]

module _ (endpoint : Text → Text × ℕ) where
  -- `none` stands for ValueError; the nodes that the registration replaces are gone by then.
  unfoldable pub register_node_record :
      ℕ → Registration → InfoCenterState → Option NodeState × InfoCenterState
  unfolding store_node
  register_node_record now r m =
      let pruned = prune_replaced_nodes endpoint (registration_id r) r.control_addr m in
      if is_nonempty (registration_id r)
      then (elim (validate_startup_service_names endpoint now (registration_id r) r.control_addr
          r.metadata r.services pruned) [
            | none ↦ (none, pruned)
            | some valid ↦
                let s = registering_node now r valid in
                let s' =
                  with_credit
                    (apply_profile endpoint valid.profiles (some r.tags) (registered now r s)) in
                (some s', store_node s' (service_names s.services) valid)
          ])
      else (none, m)

  unfoldable pub heartbeat_record :
      ℕ → Heartbeat → InfoCenterState → Option NodeState × InfoCenterState
  unfolding beaten
  heartbeat_record now h m =
      let s = heartbeat_node now h m in
      let s' = apply_profile endpoint m.profiles none (beaten now h s) in
      if is_nonempty (heartbeat_id h)
      then (
        some s',
        record m {
          nodes = insert (heartbeat_id h) s' m.nodes;
          services_by_name =
              if is_given h.services
              then reindex_node_services s' (service_names s.services) m.services_by_name
              else m.services_by_name;
        },
      )
      else (none, m)

  unfoldable pub update_node_schedule_state :
      Text
      → Option Bool
      → Option Bool
      → Option Text
      → InfoCenterState
      → Option NodeState × InfoCenterState
  update_node_schedule_state id schedulable drain reason m = elim (get id m.nodes) [
    | none ↦ (none, m)
    | some s ↦
        let s' = apply_profile endpoint m.profiles none (record s {
          schedulable = or_old schedulable s.schedulable;
          drain = or_old drain s.drain;
          reason = or_old reason s.reason;
        }) in
        (some s', record m { nodes = insert id s' m.nodes })
  ]
