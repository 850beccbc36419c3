-- ===== src/InfoCenter/Nodes/Samples.antt =====
-- A registry of two nodes, one of which offers a service, on which the theorems are evaluated.
use new_pycloud.Base.{
  ℕ, ◌+◌, ◌≡◌, refl, true, false, List, [], ◌∷◌, none, some, All, Contains, nat_eq, list_eq, arith,
}
use new_pycloud.Base.Dict.{get, insert, erase}
use new_pycloud.Base.Text.{Text, codes, strip, lower, upper, lstrip}
use new_pycloud.Base.Int.{pos}
use new_pycloud.InfoCenter.Nodes.{
  NodeServiceState, NodeState, InfoCenterState, node_is_healthy, node_is_stale,
}
use new_pycloud.Base.Sets.{add, member}
use new_pycloud.InfoCenter.Nodes.Index.{
  service_names, reindex_node_services, remove_node_services_index, remove_names, add_names,
}
use new_pycloud.InfoCenter.Nodes.Profiles.{profile_key_of, tagged, with_profile, apply_profile}
use new_pycloud.InfoCenter.Nodes.Startup.{
  drop_node, drop_nodes, is_replaced, replaced_keys, prune_replaced_nodes, incoming_names,
  meet_services, meet_nodes, validate_startup_service_names,
}
use new_pycloud.InfoCenter.Nodes.Reports.{
  Registration, Heartbeat, new_node, registered, stamp_service, stamp_services,
}
use new_pycloud.InfoCenter.Nodes.Calls.{store_node, register_node_record}
use new_pycloud.InfoCenter.Nodes.Routes.{
  fence_if_stale, Route, route_of, effective_service_state, is_explicitly_degraded, is_unready,
  call_route_exclusions, in_scope,
}
use new_pycloud.InfoCenter.Nodes.Listing.{
  Query, candidates, is_listed, service_routes, list_service_routes, all_routes, fence_node,
}
use new_pycloud.InfoCenter.Nodes.Consistent.{IsConsistent}
use new_pycloud.InfoCenter.Nodes.Steps.{new_state, Step, Reach, Reach-IsConsistent}
use new_pycloud.InfoCenter.Nodes.Complete.{list_service_routes_complete}
use new_pycloud.InfoCenter.Nodes.Sound.{IsCallable, list_service_routes-IsCallable}
use new_pycloud.InfoCenter.Nodes.Refused.{register_node_record-refused}
use new_pycloud.InfoCenter.Nodes.Cordon.{beat_all, stale_stays_cordoned}

-- No address has a host and a port.
abbrev no_endpoint : Text → Text × ℕ
no_endpoint addr = ([], 0)

abbrev unsorted : List Route → List Route
unsorted rs = rs

abbrev service : NodeServiceState
service = record {
  service_name = codes "echo";
  service_id = codes "s1";
  status = 2;
  status_text = [];
  resource_health = [];
  degraded = false;
  worker_count = 1;
  alive_workers = 1;
  in_flight = 0;
  received_count = 3;
  returned_count = 1;
  created_at = none;
  lease_expire_at = 900;
  http_base_url = [];
  stop_reason = [];
  failure_at = none;
  readiness = [];
  readiness_reason = [];
  method_failures = [];
}

abbrev registration : Registration
registration = record {
  node_instance_id = codes " n1";
  node_id = codes "node";
  control_addr = codes "a";
  capacity = pos 4;
  queue_capacity = pos 8;
  tags = [];
  metadata = [];
  services = (codes "s1", service) ∷ [];
  task_pools = [];
  service_worker_capacity = pos 2;
  service_worker_used = pos 1;
  task_pool_worker_capacity = pos 0;
  task_pool_worker_used = pos 0;
  accept_service_deploy = true;
  python_version = codes "3.12";
}

abbrev registry : InfoCenterState
registry = (register_node_record no_endpoint 5 registration (new_state 90 [])).1

registry-Reach : Reach no_endpoint unsorted registry
registry-Reach = Reach.next (Reach.starts 90 []) (Step.registers 5 registration (new_state 90 []))

Reach-IsConsistent_example : IsConsistent registry
Reach-IsConsistent_example = Reach-IsConsistent no_endpoint unsorted registry-Reach

abbrev query : Query
query = record {
  service_name = codes "echo ";
  healthy_only = true;
  limit = pos 10;
  route_scope = codes "call";
  method = [];
}

list_service_routes-IsCallable_example :
    All IsCallable (list_service_routes unsorted 7 query registry).0
unfolding strip lower
list_service_routes-IsCallable_example =
    list_service_routes-IsCallable unsorted 7 query registry (λ rs h. h) refl refl

abbrev node : NodeState
node = elim (get (codes "n1") registry.nodes) as (λ _. NodeState) [
  | none ↦ new_node 5 [] [] [] 1 1 []
  | some s ↦ s
]

list_service_routes_complete_example :
    Contains (route_of 7 true node service) (list_service_routes unsorted 7 query registry).0
unfolding register_node_record prune_replaced_nodes replaced_keys drop_nodes
    validate_startup_service_names apply_profile with_profile tagged profile_key_of registered
    stamp_services stamp_service store_node reindex_node_services remove_node_services_index
    remove_names service_names add_names add member get insert strip lstrip lower node_is_healthy
    node_is_stale is_listed in_scope call_route_exclusions is_explicitly_degraded is_unready
    effective_service_state all_routes service_routes candidates upper fence_if_stale
list_service_routes_complete_example =
    list_service_routes_complete no_endpoint unsorted 7 query (codes "n1") (codes "s1") node service
      registry-Reach (λ r rs h. h) refl refl refl refl (omega arith)

-- Its last sign of life is at 5 microseconds, and its lease of 90 seconds is over.
abbrev late : ℕ
late = 90000006

abbrev registered_only : InfoCenterState
registered_only = record (new_state 90 []) {
  nodes =
      (
        codes "n1",
        record (new_node 5 (codes "n1") [] (codes "a") 1 1 []) {
          services = (codes "s1", service) ∷ [];
        },
      )
      ∷ [];
}

abbrev heartbeat : Heartbeat
heartbeat = record {
  node_instance_id = codes "n1";
  node_id = [];
  healthy = true;
  metrics = none;
  metadata = none;
  services = none;
  task_pools = none;
  service_worker_capacity = pos 0;
  service_worker_used = pos 0;
  task_pool_worker_capacity = pos 0;
  task_pool_worker_used = pos 0;
  accept_service_deploy = none;
  python_version = [];
}

stale_stays_cordoned_example :
    (t : NodeState) × (get
        (codes "n1")
        (beat_all no_endpoint
          ((late + 1, heartbeat) ∷ [])
          (fence_node late (codes "n1") registered_only)).nodes
      ≡ some t)
    × (t.schedulable ≡ false)
unfolding get node_is_stale
stale_stays_cordoned_example =
    stale_stays_cordoned no_endpoint (codes "n1") late
      (record (new_node 5 (codes "n1") [] (codes "a") 1 1 []) {
        services = (codes "s1", service) ∷ [];
      })
      ((late + 1, heartbeat) ∷ []) registered_only refl refl refl

-- A startup service that takes the name of another node's service is refused; the address is that
-- of a third node, which is gone.
abbrev crowded : InfoCenterState
crowded = record (new_state 90 []) {
  nodes =
      (
        codes "n1",
        record (new_node 5 (codes "n1") [] (codes "a") 1 1 []) {
          services = (codes "s1", service) ∷ [];
        },
      )
      ∷ (codes "n2", new_node 5 (codes "n2") [] (codes "b") 1 1 [])
      ∷ [];
}

abbrev intruder : Registration
intruder = record registration {
  node_instance_id = codes "n3";
  control_addr = codes "b";
  metadata = (codes "startup_service", codes "true") ∷ [];
}

register_node_record-refused_example :
    get (codes "n2") (register_node_record no_endpoint 7 intruder crowded).1.nodes ≡ none
unfolding register_node_record prune_replaced_nodes replaced_keys is_replaced drop_nodes drop_node
    validate_startup_service_names incoming_names meet_nodes meet_services profile_key_of
    remove_node_services_index remove_names service_names get insert erase strip lstrip lower
    node_is_healthy node_is_stale
register_node_record-refused_example =
    register_node_record-refused no_endpoint 7 intruder (codes "n2")
      (new_node 5 (codes "n2") [] (codes "b") 1 1 []) crowded refl refl refl refl refl
