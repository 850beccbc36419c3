-- ===== src/InfoCenter/Nodes/Invariant.antt =====
-- Each call of InfoCenterState on nodes keeps the state consistent, whether it returns or raises.
use new_pycloud.Base.{
  ℕ, ◌≡◌, refl, sym, subst, ap, ◌∙◌, inl, inr, Bool, true, false, List, [], ◌∷◌, Option, none, some,
  if◌then◌else◌, nat_eq, list_eq, Option-cases, strip-strip, if-holds,
}
use new_pycloud.Base.Dict.{get, insert}
use new_pycloud.Base.Text.{Text, is_nonempty}
use new_pycloud.InfoCenter.Nodes.{NodeServiceState, NodeState, InfoCenterState}
use new_pycloud.InfoCenter.Nodes.Index.{service_names, reindex_node_services}
use new_pycloud.InfoCenter.Nodes.Profiles.{or_old, apply_profile}
use new_pycloud.InfoCenter.Nodes.Reports.{Heartbeat, heartbeat_id, stamp_services}
use new_pycloud.InfoCenter.Nodes.Calls.{
  heartbeat_node, heartbeat_record, beaten, heartbeat_services, inventory_updated, is_given, lost,
  mark_node_lost, update_node_schedule_state,
}
use new_pycloud.InfoCenter.Nodes.Listing.{fence_node, fence_nodes}
use new_pycloud.InfoCenter.Nodes.Routes.{fence_if_stale}
use new_pycloud.InfoCenter.Nodes.Consistent.{
  same_names-IsConsistent, IsConsistent, IsKey, stored-IsConsistent, renewed-IsConsistent, names_of,
  names_at,
}
use new_pycloud.InfoCenter.Nodes.Kept.{
  apply_profile-IsSameNode, service_names-stamp_services, fence_if_stale-IsSameNode,
}

-- A node is stored in place of one that has the names `previous`.
pub store_as-IsConsistent :
    (k : Text) (s : NodeState) (previous : List Text) {m : InfoCenterState}
    → IsConsistent m
    → IsKey k s
    → previous ≡ names_at k m.nodes
    → IsConsistent (record m {
      nodes = insert k s m.nodes;
      services_by_name = reindex_node_services s previous m.services_by_name;
    })
store_as-IsConsistent k s previous {m} c key same =
    subst
      (λ (names : List Text). IsConsistent (record m {
        nodes = insert k s m.nodes;
        services_by_name = reindex_node_services s names m.services_by_name;
      }))
      (sym same) (stored-IsConsistent k s c key)

pub mark_node_lost-IsConsistent :
    (now : ℕ) (id reason : Text) {m : InfoCenterState}
    → IsConsistent m
    → IsConsistent (mark_node_lost now id reason m).1
unfolding mark_node_lost lost
mark_node_lost-IsConsistent now id reason {m} c = elim (Option-cases (get id m.nodes)) [
  | inl absent ↦ rw (absent, mark_node_lost) c
  | inr (s, at) ↦
      rw (at, mark_node_lost)
        (store_as-IsConsistent id (lost now m.lease_ttl_sec reason s) (service_names s.services) c
          (c.keyed id s at) (rw at))
]

-- The names of a node that is known, or that is new.
pub known_names :
    (o : Option NodeState) (s : NodeState)
    → s.services ≡ []
    → service_names (or_old o s).services ≡ names_of o
unfolding service_names
known_names none s h = rw h
known_names (some t) s h = refl

fence_node-IsConsistent :
    (now : ℕ) (k : Text) {m : InfoCenterState} → IsConsistent m → IsConsistent (fence_node now k m)
unfolding fence_node
fence_node-IsConsistent now k {m} c = elim (Option-cases (get k m.nodes)) [
  | inl absent ↦ rw (absent, fence_node) c
  | inr (s, at) ↦
      let kept = fence_if_stale-IsSameNode now m s in
      rw (at, fence_node)
        (renewed-IsConsistent k s (fence_if_stale now m s) c at kept.id
          (ap service_names kept.services))
]

pub fence_nodes-IsConsistent :
    (now : ℕ) (ks : List Text) {m : InfoCenterState}
    → IsConsistent m
    → IsConsistent (fence_nodes now ks m)
unfolding fence_nodes
fence_nodes-IsConsistent now [] c = c
fence_nodes-IsConsistent now (k ∷ ks) c =
    fence_nodes-IsConsistent now ks (fence_node-IsConsistent now k c)

stamped_again :
    (now : ℕ) (reported : Option (List (Text × NodeServiceState)))
    (services : List (Text × NodeServiceState))
    → is_given reported ≡ false
    → service_names (stamp_services now services (or_old reported services))
      ≡ service_names services
stamped_again now none services absent = service_names-stamp_services now services services
stamped_again now (some m) services absent = cc

-- A heartbeat stores the node; it is indexed anew where services are reported.
beat-IsConsistent :
    (k : Text) (reported : Bool) (s s' : NodeState) {m : InfoCenterState}
    → IsConsistent m
    → IsKey k s'
    → service_names s.services ≡ names_at k m.nodes
    → (reported ≡ false → service_names s'.services ≡ names_at k m.nodes)
    → IsConsistent (record m {
      nodes = insert k s' m.nodes;
      services_by_name =
          if reported
          then reindex_node_services s' (service_names s.services) m.services_by_name
          else m.services_by_name;
    })
beat-IsConsistent k true s s' c key known same =
    store_as-IsConsistent k s' (service_names s.services) c key known
beat-IsConsistent k false s s' c key known same = same_names-IsConsistent k s' c key (same refl)

module _ (endpoint : Text → Text × ℕ) where
  pub update_node_schedule_state-IsConsistent :
      (id : Text) (schedulable drain : Option Bool) (reason : Option Text) {m : InfoCenterState}
      → IsConsistent m
      → IsConsistent (update_node_schedule_state endpoint id schedulable drain reason m).1
  unfolding update_node_schedule_state
  update_node_schedule_state-IsConsistent id schedulable drain reason {m} c =
      elim (Option-cases (get id m.nodes)) [
        | inl absent ↦ rw (absent, update_node_schedule_state) c
        | inr (s, at) ↦
            let t = record s {
              schedulable = or_old schedulable s.schedulable;
              drain = or_old drain s.drain;
              reason = or_old reason s.reason;
            } in
            let kept = apply_profile-IsSameNode endpoint m.profiles none t in
            rw (at, update_node_schedule_state)
              (renewed-IsConsistent id s (apply_profile endpoint m.profiles none t) c at kept.id
                (ap service_names kept.services))
      ]

  -- A heartbeat without services leaves a node the names of its services.
  beaten_names :
      (now : ℕ) (h : Heartbeat) (s : NodeState) (m : InfoCenterState)
      → is_given h.services ≡ false
      → service_names (apply_profile endpoint m.profiles none (beaten now h s)).services
        ≡ service_names s.services
  unfolding beaten heartbeat_services
  beaten_names now h s m absent =
      ap service_names (apply_profile-IsSameNode endpoint m.profiles none (beaten now h s)).services
      ∙ if-holds
          (λ (services : List (Text × NodeServiceState)).
            service_names services ≡ service_names s.services)
          (inventory_updated h) _ s.services (λ _. stamped_again now h.services s.services absent)
          (λ _. refl)

  beaten-IsKey :
      (now : ℕ) (h : Heartbeat) (s : NodeState) (m : InfoCenterState)
      → is_nonempty (heartbeat_id h) ≡ true
      → IsKey (heartbeat_id h) (apply_profile endpoint m.profiles none (beaten now h s))
  unfolding beaten
  beaten-IsKey now h s m filled =
      let kept = apply_profile-IsSameNode endpoint m.profiles none (beaten now h s) in
      (kept.id, strip-strip _, filled)

  pub heartbeat_record-IsConsistent :
      (now : ℕ) (h : Heartbeat) {m : InfoCenterState}
      → IsConsistent m
      → IsConsistent (heartbeat_record endpoint now h m).1
  unfolding heartbeat_record
  heartbeat_record-IsConsistent now h {m} c =
      let s = heartbeat_node now h m in
      let s' = apply_profile endpoint m.profiles none (beaten now h s) in
      if-holds (λ (p : Option NodeState × InfoCenterState). IsConsistent p.1)
        (is_nonempty (heartbeat_id h)) _ _
        (λ filled.
          beat-IsConsistent (heartbeat_id h) (is_given h.services) s s' c
            (beaten-IsKey now h s m filled) (known_names (get (heartbeat_id h) m.nodes) _ refl)
            (λ absent.
              beaten_names now h s m absent ∙ known_names (get (heartbeat_id h) m.nodes) _ refl))
        (λ _. c)
