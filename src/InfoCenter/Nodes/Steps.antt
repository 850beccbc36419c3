-- ===== src/InfoCenter/Nodes/Steps.antt =====
-- The histories of the info center's nodes: any calls on nodes of controlplane/infocenter_state.py,
-- one after the other, since each holds the lock. After every history the index tells which nodes
-- offer a service.
use new_pycloud.Base.{ℕ, max, refl, Bool, List, [], Option, nat_eq, list_eq}
use new_pycloud.Base.Dict.{get}
use new_pycloud.Base.Text.{Text}
use new_pycloud.InfoCenter.Nodes.{NodeProfile, InfoCenterState}
use new_pycloud.Base.Sets.{member}
use new_pycloud.InfoCenter.Nodes.Index.{is_indexed}
use new_pycloud.InfoCenter.Nodes.Profiles.{ProfileUpdate, update_node_profile}
use new_pycloud.InfoCenter.Nodes.Reports.{Registration, Heartbeat}
use new_pycloud.InfoCenter.Nodes.Calls.{
  register_node_record, heartbeat_record, mark_node_lost, update_node_schedule_state,
}
use new_pycloud.InfoCenter.Nodes.Routes.{Route}
use new_pycloud.InfoCenter.Nodes.Listing.{Query, candidates, list_service_routes}
use new_pycloud.InfoCenter.Nodes.Consistent.{IsConsistent, offers}
use new_pycloud.InfoCenter.Nodes.Invariant.{
  mark_node_lost-IsConsistent, update_node_schedule_state-IsConsistent,
  heartbeat_record-IsConsistent, fence_nodes-IsConsistent,
}
use new_pycloud.InfoCenter.Nodes.Profiled.{update_node_profile-IsConsistent}
use new_pycloud.InfoCenter.Nodes.Registered.{register_node_record-IsConsistent}

-- A new info center, with the profiles that it loads.
abbrev pub new_state : ℕ → List (Text × NodeProfile) → InfoCenterState
new_state lease_ttl_sec profiles = record {
  lease_ttl_sec = max 1 lease_ttl_sec;
  nodes = [];
  services_by_name = [];
  profiles = profiles;
}

new_state-IsConsistent :
    (ttl : ℕ) (profiles : List (Text × NodeProfile)) → IsConsistent (new_state ttl profiles)
unfolding is_indexed offers get member
new_state-IsConsistent ttl profiles = record { keyed = λ k s at. cc; indexed = λ k n. refl }

module _ (endpoint : Text → Text × ℕ) (in_order : List Route → List Route) where
  pub data Step : InfoCenterState → InfoCenterState → Type 0 where
    registers :
        (now : ℕ) (r : Registration) (m : InfoCenterState)
        → Step m (register_node_record endpoint now r m).1
    beats :
        (now : ℕ) (h : Heartbeat) (m : InfoCenterState)
        → Step m (heartbeat_record endpoint now h m).1
    loses :
        (now : ℕ) (id reason : Text) (m : InfoCenterState)
        → Step m (mark_node_lost now id reason m).1
    schedules :
        (id : Text) (schedulable drain : Option Bool) (reason : Option Text) (m : InfoCenterState)
        → Step m (update_node_schedule_state endpoint id schedulable drain reason m).1
    updates_profile :
        (addr : Text) (u : ProfileUpdate) (m : InfoCenterState)
        → Step m (update_node_profile endpoint addr u m).1
    lists :
        (now : ℕ) (q : Query) (m : InfoCenterState)
        → Step m (list_service_routes in_order now q m).1

  pub data Reach : InfoCenterState → Type 0 where
    starts : (ttl : ℕ) (profiles : List (Text × NodeProfile)) → Reach (new_state ttl profiles)
    next : {m m' : InfoCenterState} → Reach m → Step m m' → Reach m'

  Step-IsConsistent : {m m' : InfoCenterState} → Step m m' → IsConsistent m → IsConsistent m'
  unfolding list_service_routes
  Step-IsConsistent (registers now r m) c = register_node_record-IsConsistent endpoint now r c
  Step-IsConsistent (beats now h m) c = heartbeat_record-IsConsistent endpoint now h c
  Step-IsConsistent (loses now id reason m) c = mark_node_lost-IsConsistent now id reason c
  Step-IsConsistent (schedules id schedulable drain reason m) c =
      update_node_schedule_state-IsConsistent endpoint id schedulable drain reason c
  Step-IsConsistent (updates_profile addr u m) c =
      update_node_profile-IsConsistent endpoint addr u c
  Step-IsConsistent (lists now q m) c = fence_nodes-IsConsistent now (candidates q m) c

  pub Reach-IsConsistent : {m : InfoCenterState} → Reach m → IsConsistent m
  Reach-IsConsistent (starts ttl profiles) = new_state-IsConsistent ttl profiles
  Reach-IsConsistent (next r st) = Step-IsConsistent st (Reach-IsConsistent r)
