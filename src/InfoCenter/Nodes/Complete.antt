-- ===== src/InfoCenter/Nodes/Complete.antt =====
-- No route is missed: `list_service_routes` goes through the index of names, and lists every service
-- that a walk through all nodes would find.
use new_pycloud.Base.{
  ℕ, zero, suc, max, ◌≤◌, ◌≡◌, refl, subst, ap, ◌∙◌, ◌⊎◌, inl, inr, Bool, true, false, List, [],
  ◌∷◌, ◌++◌, some, if◌then◌else◌, length, take, ◌==◌, nat_eq, list_eq, list_beq_iff, list_beq_refl,
  arith, Bool-cases, Option-cases, Contains, if-holds, strip-strip,
}
use new_pycloud.Base.Dict.{get, keys, get-insert}
use new_pycloud.Base.Text.{Text, strip, is_nonempty}
use new_pycloud.Base.Int.{pos_part}
use new_pycloud.InfoCenter.Nodes.{
  NodeServiceState, NodeState, InfoCenterState, node_is_stale, node_is_healthy,
}
use new_pycloud.Base.Sets.{member}
use new_pycloud.InfoCenter.Nodes.Index.{service_names, is_indexed}
use new_pycloud.InfoCenter.Nodes.Routes.{fence_if_stale, Route, route_of}
use new_pycloud.InfoCenter.Nodes.Listing.{
  Query, candidates, is_listed, service_routes, fence_node, node_routes, all_routes,
  list_service_routes,
}
use new_pycloud.InfoCenter.Nodes.Consistent.{IsConsistent, offers}
use new_pycloud.InfoCenter.Nodes.Steps.{Reach, Reach-IsConsistent}

append-Contains :
    (r : Route) (xs ys : List Route) → Contains r xs ⊎ Contains r ys → Contains r (xs ++ ys)
append-Contains r [] ys (inl h) = absurd h
append-Contains r [] ys (inr h) = h
append-Contains r (x ∷ xs) ys (inl (inl h)) = inl h
append-Contains r (x ∷ xs) ys (inl (inr h)) = inr (append-Contains r xs ys (inl h))
append-Contains r (x ∷ xs) ys (inr h) = inr (append-Contains r xs ys (inr h))

take_all {ℓ} : {A : Type ℓ} (n : ℕ) (xs : List A) → length xs ≤ n → take n xs ≡ xs
take_all zero [] h = refl
take_all (suc n) [] h = refl
take_all zero (x ∷ xs) h = absurd (omega arith)
take_all (suc n) (x ∷ xs) h = ap (x ∷◌) (take_all n xs (omega arith))

service_routes-Contains :
    (q : Query) (now : ℕ) (s : NodeState) (m : List (Text × NodeServiceState)) (id : Text)
    (svc : NodeServiceState)
    → get id m ≡ some svc
    → is_listed q now true s svc ≡ true
    → Contains (route_of now true s svc) (service_routes q now true s m)
unfolding get service_routes
service_routes-Contains q now s [] id svc at listed = cc
service_routes-Contains q now s ((j, t) ∷ m) id svc at listed = elim (Bool-cases (j == id)) [
  | inl here ↦
      let found : t ≡ svc = ground arith in
      rw (ap (is_listed q now true s) found ∙ listed) (inl (ap (route_of now true s) found))
  | inr there ↦
      let rest =
        service_routes-Contains q now s m id svc
          (subst (λ (b : Bool). (if b then some t else get id m) ≡ some svc) there at) listed in
      if-holds (Contains (route_of now true s svc)) (is_listed q now true s t) _ _ (λ _. inr rest)
        (λ _. rest)
]

fresh_enough :
    (now : ℕ) (m : InfoCenterState) (s : NodeState)
    → node_is_healthy now m s ≡ true
    → fence_if_stale now m s ≡ s
unfolding fence_if_stale node_is_healthy
fresh_enough now m s healthy = ground arith

fence_node-others :
    (now : ℕ) (j k : Text) (m : InfoCenterState) (s : NodeState)
    → (j == k) ≡ false
    → get k m.nodes ≡ some s
    → get k (fence_node now j m).nodes ≡ some s
unfolding fence_node
fence_node-others now j k m s other at = elim (Option-cases (get j m.nodes)) [
  | inl absent ↦ rw (absent, fence_node) at
  | inr (t, found) ↦
      rw (found, fence_node) (get-insert j k (fence_if_stale now m t) m.nodes ∙ (rw other at))
]

fence_node-lease :
    (now : ℕ) (j : Text) (m : InfoCenterState)
    → (fence_node now j m).lease_ttl_sec ≡ m.lease_ttl_sec
unfolding fence_node
fence_node-lease now j m = elim (Option-cases (get j m.nodes)) [
  | inl absent ↦ rw (absent, fence_node) refl
  | inr (t, found) ↦ rw (found, fence_node) refl
]

healthy_in :
    (now : ℕ) (m m' : InfoCenterState) (s : NodeState)
    → m'.lease_ttl_sec ≡ m.lease_ttl_sec
    → node_is_healthy now m' s ≡ node_is_healthy now m s
unfolding node_is_healthy node_is_stale
healthy_in now m m' s same = rw same

keys-member :
    (k : Text) (s : NodeState) (m : List (Text × NodeState))
    → get k m ≡ some s
    → member k (keys m) ≡ true
unfolding get member
keys-member k s [] at = cc
keys-member k s ((j, t) ∷ m) at = ground (arith, keys-member k s m)

service_names-member :
    (id : Text) (svc : NodeServiceState) (m : List (Text × NodeServiceState))
    → get id m ≡ some svc
    → is_nonempty (strip svc.service_name) ≡ true
    → member (strip svc.service_name) (service_names m) ≡ true
unfolding get member service_names
service_names-member id svc [] at filled = cc
service_names-member id svc ((j, t) ∷ m) at filled =
    ground (arith, service_names-member id svc m, list_beq_refl (strip svc.service_name))

all_routes-Contains :
    (q : Query) (now : ℕ) (k id : Text) (s : NodeState) (svc : NodeServiceState) (ks : List Text)
    (m : InfoCenterState)
    → member k ks ≡ true
    → get k m.nodes ≡ some s
    → get id s.services ≡ some svc
    → node_is_healthy now m s ≡ true
    → is_listed q now true s svc ≡ true
    → Contains (route_of now true s svc) (all_routes q now ks m)
unfolding all_routes member
all_routes-Contains q now k id s svc [] m in_ks at sat healthy listed = cc
all_routes-Contains q now k id s svc (j ∷ js) m in_ks at sat healthy listed =
    append-Contains (route_of now true s svc) (node_routes q now m (get j m.nodes))
      (all_routes q now js (fence_node now j m))
      (elim (Bool-cases (j == k)) [
        | inl here ↦
            let same : get j m.nodes ≡ some s =
              ap (λ (x : Text). get x m.nodes) ((list_beq_iff j k).0 here) ∙ at in
            inl (
              rw (same, fresh_enough now m s healthy, healthy)
                (service_routes-Contains q now s s.services id svc sat listed))
        | inr there ↦ inr (
            all_routes-Contains q now k id s svc js (fence_node now j m) (ground arith)
              (fence_node-others now j k m s there at) sat
              (healthy_in now m (fence_node now j m) s (fence_node-lease now j m) ∙ healthy) listed)
      ])

listed_name :
    (q : Query) (now : ℕ) (s : NodeState) (svc : NodeServiceState)
    → is_nonempty (strip q.service_name) ≡ true
    → is_listed q now true s svc ≡ true
    → svc.service_name ≡ strip q.service_name
unfolding is_listed
listed_name q now s svc filled listed =
    (list_beq_iff svc.service_name (strip q.service_name)).0 (ground arith)

offers_found :
    (k id : Text) (s : NodeState) (svc : NodeServiceState) (n : Text) (m : InfoCenterState)
    → get k m.nodes ≡ some s
    → get id s.services ≡ some svc
    → strip svc.service_name ≡ n
    → is_nonempty n ≡ true
    → offers k n m.nodes ≡ true
unfolding offers
offers_found k id s svc n m at sat named filled =
    rw (at, ← named) (service_names-member id svc s.services sat (ap is_nonempty named ∙ filled))

-- The candidates of a query include the node of every service that it lists.
candidates-member :
    (q : Query) (now : ℕ) (k id : Text) (s : NodeState) (svc : NodeServiceState)
    (m : InfoCenterState)
    → IsConsistent m
    → get k m.nodes ≡ some s
    → get id s.services ≡ some svc
    → is_listed q now true s svc ≡ true
    → member k (candidates q m) ≡ true
unfolding candidates is_indexed
candidates-member q now k id s svc m c at sat listed =
    if-holds (λ (ks : List Text). member k ks ≡ true) (is_nonempty (strip q.service_name)) _ _
      (λ filled.
        let named = listed_name q now s svc filled listed in
        let stripped : strip svc.service_name ≡ strip q.service_name =
          ap strip named ∙ strip-strip q.service_name in
        c.indexed k (strip q.service_name)
        ∙ offers_found k id s svc (strip q.service_name) m at sat stripped filled)
      (λ _. keys-member k s m.nodes at)

module _ (endpoint : Text → Text × ℕ) (in_order : List Route → List Route) where
  -- After every history `list_service_routes` lists each service that its query asks for, of each
  -- node that is healthy, if the order of routes loses none and the limit cuts none off.
  pub list_service_routes_complete :
      (now : ℕ) (q : Query) (k id : Text) (s : NodeState) (svc : NodeServiceState)
      {m : InfoCenterState}
      → Reach endpoint in_order m
      → ((r : Route) (rs : List Route) → Contains r rs → Contains r (in_order rs))
      → get k m.nodes ≡ some s
      → get id s.services ≡ some svc
      → node_is_healthy now m s ≡ true
      → is_listed q now true s svc ≡ true
      → length (in_order (all_routes q now (candidates q m) m)) ≤ max 1 (pos_part q.limit)
      → Contains (route_of now true s svc) (list_service_routes in_order now q m).0
  unfolding list_service_routes
  list_service_routes_complete now q k id s svc {m} reach kept at sat healthy listed uncut =
      let c = Reach-IsConsistent endpoint in_order reach in
      rw (take_all _ _ uncut) (
        kept _ _ (
          all_routes-Contains q now k id s svc (candidates q m) m
            (candidates-member q now k id s svc m c at sat listed) at sat healthy listed))
