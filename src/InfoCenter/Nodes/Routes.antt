-- ===== src/InfoCenter/Nodes/Routes.antt =====
-- The routes to services that InfoCenterState of controlplane/infocenter_state.py lists:
-- `list_service_routes` and what it calls. The order of routes, whose key has a floating-point score
-- of load, is a parameter; so a route is without that score.
use new_pycloud.Base.{
  ℕ, ◌-◌, Bool, true, false, not, ◌&&◌, ◌||◌, ltb, List, [], ◌∷◌, ◌++◌, Option, if◌then◌else◌, ◌==◌,
  nat_eq, list_eq,
}
use new_pycloud.Base.Dict.{get}
use new_pycloud.Base.Text.{Text, codes, strip, lower, upper, is_nonempty, starts_with}
use new_pycloud.Scheduling.{
  unspecified, running, stopped, is_call_route, is_owner_target, is_conflict_scope,
}
use new_pycloud.InfoCenter.Nodes.{NodeServiceState, NodeState, InfoCenterState, node_is_stale}
use new_pycloud.InfoCenter.Nodes.Profiles.{nonempty_or}
use new_pycloud.InfoCenter.Nodes.Startup.{is_one_of}
use new_pycloud.InfoCenter.Nodes.Calls.{is_given}

-- `_fence_if_stale_locked`: looking at a node that is stale cordons it.
unfoldable pub fence_if_stale : ℕ → InfoCenterState → NodeState → NodeState
fence_if_stale now m s =
    if node_is_stale now m s
    then record s {
      healthy = false;
      schedulable = false;
      reason = nonempty_or s.reason (codes "node heartbeat timeout");
    }
    else s

pub record EffectiveState : Type 0 where
  pub status : ℕ
  pub alive_workers : ℕ
  pub in_flight : ℕ
  pub lease_expire_at : ℕ
  pub stale : Bool
  pub status_text : Text

unfoldable pub effective_service_state : ℕ → Bool → NodeServiceState → EffectiveState
effective_service_state now true svc = record {
  status = svc.status;
  alive_workers = svc.alive_workers;
  in_flight = svc.in_flight;
  lease_expire_at = svc.lease_expire_at;
  stale = false;
  status_text = [];
}
effective_service_state now false svc = record {
  status = unspecified;
  alive_workers = 0;
  in_flight = 0;
  lease_expire_at = now;
  stale = true;
  status_text = codes "LOST";
}

-- The codes of the reasons.
pub data Exclusion : Type 0 where
  node_unhealthy node_drain resource_not_running resource_degraded method_blocked not_ready :
      Exclusion

abbrev pub reason_if : Bool → Exclusion → List Exclusion
reason_if true e = e ∷ []
reason_if false e = []

abbrev pub has_method_failures : NodeServiceState → Bool
has_method_failures svc = elim svc.method_failures [ [] ↦ false | _ ∷ _ ↦ true ]

unfoldable pub is_explicitly_degraded : NodeServiceState → Bool
is_explicitly_degraded svc =
    let health = lower (strip svc.resource_health) in
    let method_only =
      has_method_failures svc
      && (not (is_nonempty (strip svc.stop_reason)) && health == codes "degraded") in
    is_one_of health (codes "failed" ∷ codes "stopped" ∷ codes "node_lost" ∷ [])
    || (upper (strip svc.status_text) == codes "DEGRADED" && not (has_method_failures svc))
    || (svc.degraded && (not method_only && not (has_method_failures svc)))
    || is_nonempty (strip svc.stop_reason)

unfoldable pub is_unready : NodeServiceState → Bool
is_unready svc =
    let readiness = lower (strip svc.readiness) in
    is_nonempty readiness
    && (not (readiness == codes "ready")
        && not (
            has_method_failures svc
            && starts_with (codes "method dependency failure") (strip svc.readiness_reason)))

unfoldable pub call_route_exclusions :
    Bool → NodeState → NodeServiceState → ℕ → Text → List Exclusion
unfolding is_explicitly_degraded is_unready
call_route_exclusions healthy s svc status method =
    (if is_call_route healthy status s.drain
      then []
      else reason_if (not healthy) node_unhealthy
        ++ (reason_if s.drain node_drain
            ++ reason_if (not (status == running)) resource_not_running))
    ++ (reason_if (is_explicitly_degraded svc) resource_degraded
        ++ (reason_if (is_nonempty method && is_given (get method svc.method_failures))
              method_blocked
            ++ reason_if (is_unready svc) not_ready))

abbrev pub is_empty : List Exclusion → Bool
is_empty [] = true
is_empty (e ∷ es) = false

-- Whether a route is listed among the healthy ones of a scope.
unfoldable pub in_scope : Text → Text → Bool → NodeState → NodeServiceState → ℕ → Bool
unfolding call_route_exclusions
in_scope scope method healthy s svc status =
    if scope == codes "call"
    then is_empty (call_route_exclusions healthy s svc status method)
    else (if scope == codes "owner_command"
        then is_owner_target healthy status
        else (if scope == codes "exclusive_check"
            then is_conflict_scope healthy status
            else is_call_route healthy status false))

pub record Route : Type 0 where
  pub service_name : Text
  pub service_id : Text
  pub status : ℕ
  pub status_text : Text
  pub resource_health : Text
  pub readiness : Text
  pub readiness_reason : Text
  pub method_failures : List (Text × Text)
  pub stop_reason : Text
  pub failure_at : Option ℕ
  pub node_instance_id : Text
  pub node_id : Text
  pub control_addr : Text
  pub node_healthy : Bool
  pub node_schedulable : Bool
  pub node_drain : Bool
  pub accept_service_deploy : Bool
  pub stale : Bool
  pub worker_count : ℕ
  pub alive_workers : ℕ
  pub in_flight : ℕ
  pub reported_in_flight : ℕ
  pub received_count : ℕ
  pub returned_count : ℕ
  pub lease_expire_at : ℕ
  pub http_base_url : Text

-- The calls in flight: by the counts of a service that has counted any, or as reported.
abbrev pub computed_inflight : NodeServiceState → EffectiveState → ℕ
computed_inflight svc e =
    if ltb 0 svc.received_count || ltb 0 svc.returned_count
    then svc.received_count - svc.returned_count
    else e.in_flight

unfoldable pub route_of : ℕ → Bool → NodeState → NodeServiceState → Route
unfolding effective_service_state
route_of now healthy s svc =
    let e = effective_service_state now healthy svc in
    record {
      service_name = svc.service_name;
      service_id = svc.service_id;
      status = e.status;
      status_text = nonempty_or svc.status_text e.status_text;
      resource_health =
          nonempty_or svc.resource_health
            (if e.status == stopped then codes "stopped" else codes "running");
      readiness = svc.readiness;
      readiness_reason = svc.readiness_reason;
      method_failures = svc.method_failures;
      stop_reason = svc.stop_reason;
      failure_at = svc.failure_at;
      node_instance_id = s.node_instance_id;
      node_id = s.node_id;
      control_addr = s.control_addr;
      node_healthy = healthy;
      node_schedulable = s.schedulable;
      node_drain = s.drain;
      accept_service_deploy = s.accept_service_deploy;
      stale = e.stale;
      worker_count = svc.worker_count;
      alive_workers = e.alive_workers;
      in_flight = if healthy then computed_inflight svc e else 0;
      reported_in_flight = svc.in_flight;
      received_count = svc.received_count;
      returned_count = svc.returned_count;
      lease_expire_at = e.lease_expire_at;
      http_base_url = svc.http_base_url;
    }
