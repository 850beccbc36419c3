-- ===== src/InfoCenter/Nodes/Sound.antt =====
-- No call is sent where none may go: what `list_service_routes` lists as healthy routes for calls.
use new_pycloud.Base.{
  ℕ, max, ◌≡◌, refl, subst, Bool, true, false, not, ◌&&◌, ◌||◌, List, [], ◌∷◌, ◌++◌, Option, none,
  some, if◌then◌else◌, All, All-append, take, ◌==◌, nat_eq, list_eq, nat_beq_iff, arith, if-holds,
  zero, suc,
}
use new_pycloud.Base.Dict.{get}
use new_pycloud.Base.Text.{Text, codes, strip, is_nonempty}
use new_pycloud.Base.Int.{pos_part}
use new_pycloud.Scheduling.{running}
use new_pycloud.InfoCenter.Nodes.{NodeServiceState, NodeState, InfoCenterState}
use new_pycloud.InfoCenter.Nodes.Routes.{
  fence_if_stale, Route, route_of, effective_service_state, call_route_exclusions, in_scope,
  is_explicitly_degraded, is_unready, Exclusion, node_drain, resource_not_running,
  resource_degraded, method_blocked, not_ready, reason_if, is_empty,
}
use new_pycloud.InfoCenter.Nodes.Calls.{is_given}
use new_pycloud.InfoCenter.Nodes.Listing.{
  Query, scope_of, candidates, is_listed, service_routes, fence_node, node_routes, all_routes,
  list_service_routes,
}

or_false : (a b : Bool) → (a || b) ≡ false → b ≡ false
or_false true b h = cc
or_false false b h = h

-- A route that may be called.
pub record IsCallable (r : Route) : Type 0 where
  pub healthy : r.node_healthy ≡ true
  pub fresh : r.stale ≡ false
  pub undrained : r.node_drain ≡ false
  pub is_running : r.status ≡ running
  pub unstopped : is_nonempty (strip r.stop_reason) ≡ false

is_empty-eq : (es : List Exclusion) → is_empty es ≡ true → es ≡ []
is_empty-eq [] h = refl
is_empty-eq (e ∷ es) h = cc

none_left :
    (up drained degraded blocked unready : Bool)
    → (if up && not drained
          then []
          else reason_if drained node_drain ++ reason_if (not up) resource_not_running)
        ++ (reason_if degraded resource_degraded
            ++ (reason_if blocked method_blocked ++ reason_if unready not_ready))
      ≡ []
    → (up ≡ true) × (drained ≡ false) × (degraded ≡ false)
none_left true false false blocked unready h = (refl, refl, refl)
none_left true false true blocked unready h = cc
none_left true true degraded blocked unready h = cc
none_left false true degraded blocked unready h = cc
none_left false false degraded blocked unready h = cc

degraded_of_stopped :
    (svc : NodeServiceState)
    → is_explicitly_degraded svc ≡ false
    → is_nonempty (strip svc.stop_reason) ≡ false
unfolding is_explicitly_degraded
degraded_of_stopped svc h = or_false _ _ h

unexcluded :
    (s : NodeState) (svc : NodeServiceState) (method : Text)
    → call_route_exclusions true s svc svc.status method ≡ []
    → (svc.status ≡ running) × (s.drain ≡ false) × (is_nonempty (strip svc.stop_reason) ≡ false)
unfolding call_route_exclusions
unexcluded s svc method none_found =
    let (up, undrained, sound) =
      none_left (svc.status == running) s.drain (is_explicitly_degraded svc)
        (is_nonempty method && is_given (get method svc.method_failures)) (is_unready svc)
        none_found in
    ((nat_beq_iff svc.status running).0 up, undrained, degraded_of_stopped svc sound)

in_call_scope :
    (scope method : Text) (now : ℕ) (healthy : Bool) (s : NodeState) (svc : NodeServiceState)
    → scope ≡ codes "call"
    → healthy ≡ true
    → in_scope scope method healthy s svc (effective_service_state now healthy svc).status ≡ true
    → call_route_exclusions true s svc svc.status method ≡ []
unfolding in_scope effective_service_state
in_call_scope scope method now false s svc call up h = cc
in_call_scope scope method now true s svc call up h =
    is_empty-eq _ (subst (λ (t : Text). in_scope t method true s svc svc.status ≡ true) call h)

asked :
    (named only healthy inside : Bool)
    → (named && (not only || (healthy && inside))) ≡ true
    → only ≡ true
    → (healthy ≡ true) × (inside ≡ true)
asked named only healthy inside h k = ground arith

-- What the test of a query says of a service, if only healthy routes for calls are asked for.
listed_call :
    (q : Query) (now : ℕ) (healthy : Bool) (s : NodeState) (svc : NodeServiceState)
    → q.healthy_only ≡ true
    → scope_of q ≡ codes "call"
    → is_listed q now healthy s svc ≡ true
    → (healthy ≡ true) × (call_route_exclusions true s svc svc.status (strip q.method) ≡ [])
unfolding is_listed
listed_call q now healthy s svc only call listed =
    let inside =
      in_scope (scope_of q) (strip q.method) healthy s svc
        (effective_service_state now healthy svc).status in
    let (up, h) =
      asked (not (is_nonempty (strip q.service_name)) || svc.service_name == strip q.service_name)
        q.healthy_only healthy inside listed only in
    (up, in_call_scope (scope_of q) (strip q.method) now healthy s svc call up h)

route_of-IsCallable :
    (now : ℕ) (healthy : Bool) (s : NodeState) (svc : NodeServiceState)
    → healthy ≡ true
    → svc.status ≡ running
    → s.drain ≡ false
    → is_nonempty (strip svc.stop_reason) ≡ false
    → IsCallable (route_of now healthy s svc)
unfolding route_of effective_service_state
route_of-IsCallable now false s svc up is_running undrained unstopped = cc
route_of-IsCallable now true s svc up is_running undrained unstopped = record {
  healthy = refl;
  fresh = refl;
  undrained = undrained;
  is_running = is_running;
  unstopped = unstopped;
}

service_routes-IsCallable :
    (q : Query) (now : ℕ) (healthy : Bool) (s : NodeState) (m : List (Text × NodeServiceState))
    → q.healthy_only ≡ true
    → scope_of q ≡ codes "call"
    → All IsCallable (service_routes q now healthy s m)
unfolding service_routes
service_routes-IsCallable q now healthy s [] only call = tt
service_routes-IsCallable q now healthy s ((_, svc) ∷ m) only call =
    let rest = service_routes-IsCallable q now healthy s m only call in
    if-holds (All IsCallable) (is_listed q now healthy s svc)
      (route_of now healthy s svc ∷ service_routes q now healthy s m) _
      (λ listed.
        let (up, open_route) = listed_call q now healthy s svc only call listed in
        let (is_running, undrained, unstopped) = unexcluded s svc (strip q.method) open_route in
        (route_of-IsCallable now healthy s svc up is_running undrained unstopped, rest))
      (λ _. rest)

node_routes-IsCallable :
    (q : Query) (now : ℕ) (m : InfoCenterState) (o : Option NodeState)
    → q.healthy_only ≡ true
    → scope_of q ≡ codes "call"
    → All IsCallable (node_routes q now m o)
node_routes-IsCallable q now m none only call = tt
node_routes-IsCallable q now m (some s) only call =
    service_routes-IsCallable q now _ (fence_if_stale now m s) _ only call

all_routes-IsCallable :
    (q : Query) (now : ℕ) (ks : List Text) (m : InfoCenterState)
    → q.healthy_only ≡ true
    → scope_of q ≡ codes "call"
    → All IsCallable (all_routes q now ks m)
unfolding all_routes
all_routes-IsCallable q now [] m only call = tt
all_routes-IsCallable q now (k ∷ ks) m only call =
    All-append IsCallable (node_routes q now m (get k m.nodes)) _
      (node_routes-IsCallable q now m (get k m.nodes) only call)
      (all_routes-IsCallable q now ks (fence_node now k m) only call)

All-take {ℓ κ} : {A : Type ℓ} (P : A → Type κ) (n : ℕ) (xs : List A) → All P xs → All P (take n xs)
All-take P zero xs h = tt
All-take P (suc n) [] h = tt
All-take P (suc n) (x ∷ xs) h = (h.0, All-take P n xs h.1)

-- Every route that `list_service_routes` lists among the healthy ones for calls is one that may be
-- called: its node is healthy and not draining, its service is running and has no reason to stop, if
-- the order of routes adds none.
pub list_service_routes-IsCallable :
    (in_order : List Route → List Route) (now : ℕ) (q : Query) (m : InfoCenterState)
    → ((rs : List Route) → All IsCallable rs → All IsCallable (in_order rs))
    → q.healthy_only ≡ true
    → scope_of q ≡ codes "call"
    → All IsCallable (list_service_routes in_order now q m).0
unfolding list_service_routes
list_service_routes-IsCallable in_order now q m kept only call =
    All-take IsCallable (max 1 (pos_part q.limit)) _
      (kept _ (all_routes-IsCallable q now (candidates q m) m only call))
