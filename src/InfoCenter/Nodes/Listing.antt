-- ===== src/InfoCenter/Nodes/Listing.antt =====
-- `list_service_routes` of controlplane/infocenter_state.py. The nodes that it looks at are fenced
-- if they are stale, which changes the state. The call is one step here; the source holds the lock
-- for the copy of the nodes only, fences and reads each of them afterwards, and another thread may
-- change a node in between.
use new_pycloud.Base.{
  ℕ, max, Bool, not, ◌&&◌, ◌||◌, List, [], ◌∷◌, ◌++◌, Option, none, some, if◌then◌else◌, ◌==◌,
  nat_eq, list_eq, take,
}
use new_pycloud.Base.Dict.{get, insert, keys}
use new_pycloud.Base.Text.{Text, codes, strip, lower, is_nonempty}
use new_pycloud.Base.Int.{ℤ, pos_part}
use new_pycloud.InfoCenter.Nodes.{NodeServiceState, NodeState, InfoCenterState, node_is_healthy}
use new_pycloud.InfoCenter.Nodes.Index.{members_of}
use new_pycloud.InfoCenter.Nodes.Profiles.{nonempty_or}
use new_pycloud.InfoCenter.Nodes.Routes.{
  fence_if_stale, effective_service_state, in_scope, Route, route_of,
}

-- What is asked for, with its texts stripped.
pub record Query : Type 0 where
  pub service_name : Text
  pub healthy_only : Bool
  pub limit : ℤ
  pub route_scope : Text
  pub method : Text

abbrev pub scope_of : Query → Text
scope_of q = lower (strip (nonempty_or q.route_scope (codes "call")))

-- `candidate_node_ids`
unfoldable pub candidates : Query → InfoCenterState → List Text
candidates q m =
    if is_nonempty (strip q.service_name)
    then members_of (strip q.service_name) m.services_by_name
    else keys m.nodes

-- Whether a service of a node, fenced and judged, is listed.
unfoldable pub is_listed : Query → ℕ → Bool → NodeState → NodeServiceState → Bool
is_listed q now healthy s svc =
    (not (is_nonempty (strip q.service_name)) || svc.service_name == strip q.service_name)
    && (not q.healthy_only
        || (healthy
            && in_scope (scope_of q) (strip q.method) healthy s svc
                (effective_service_state now healthy svc).status))

unfoldable pub service_routes :
    Query → ℕ → Bool → NodeState → List (Text × NodeServiceState) → List Route
unfolding is_listed
service_routes q now healthy s [] = []
service_routes q now healthy s ((_, svc) ∷ m) =
    let rest = service_routes q now healthy s m in
    if is_listed q now healthy s svc then route_of now healthy s svc ∷ rest else rest

unfoldable pub fence_node : ℕ → Text → InfoCenterState → InfoCenterState
fence_node now k m = elim (get k m.nodes) [
  | none ↦ m
  | some s ↦ record m { nodes = insert k (fence_if_stale now m s) m.nodes }
]

unfoldable pub fence_nodes : ℕ → List Text → InfoCenterState → InfoCenterState
unfolding fence_node
fence_nodes now [] m = m
fence_nodes now (k ∷ ks) m = fence_nodes now ks (fence_node now k m)

abbrev pub node_routes : Query → ℕ → InfoCenterState → Option NodeState → List Route
node_routes q now m none = []
node_routes q now m (some s) =
    let s' = fence_if_stale now m s in
    service_routes q now (node_is_healthy now m s') s' s'.services

unfoldable pub all_routes : Query → ℕ → List Text → InfoCenterState → List Route
unfolding service_routes fence_node
all_routes q now [] m = []
all_routes q now (k ∷ ks) m =
    node_routes q now m (get k m.nodes) ++ all_routes q now ks (fence_node now k m)

unfoldable pub list_service_routes :
    (List Route → List Route) → ℕ → Query → InfoCenterState → List Route × InfoCenterState
unfolding candidates all_routes fence_nodes
list_service_routes in_order now q m = (
  take (max 1 (pos_part q.limit)) (in_order (all_routes q now (candidates q m) m)),
  fence_nodes now (candidates q m) m,
)
