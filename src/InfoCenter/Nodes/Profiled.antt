-- ===== src/InfoCenter/Nodes/Profiled.antt =====
-- A change of a profile, which reaches every node that has it, keeps the state consistent.
use mathlib.Core.Option
use new_pycloud.Base.{
  ℕ, ◌&&◌, Bool-cases, ◌≡◌, refl, sym, ap, ◌∙◌, Bool, true, false, List, [], ◌∷◌, Option, none,
  some, if◌then◌else◌, ◌==◌, nat_eq, list_eq, if-holds, inl, inr,
}
use new_pycloud.Base.Dict.{get, insert}
use new_pycloud.Base.Text.{Text, is_nonempty}
use new_pycloud.InfoCenter.Nodes.{NodeProfile, NodeState, InfoCenterState}
use new_pycloud.Base.Sets.{member}
use new_pycloud.InfoCenter.Nodes.Index.{service_names}
use new_pycloud.InfoCenter.Nodes.Profiles.{
  disabled_reason, or_old, profile_key_of, reenabled, apply_profile, ProfileUpdate, updated_profile,
  new_profile, update_nodes, update_node_profile,
}
use new_pycloud.InfoCenter.Nodes.Consistent.{IsConsistent, IsKey, names_of, offers}
use new_pycloud.InfoCenter.Nodes.Kept.{IsSameNode, apply_profile-IsSameNode}

reenabled-IsSameNode : (p : NodeProfile) (s : NodeState) → IsSameNode s (reenabled p s)
reenabled-IsSameNode p s =
    if-holds (IsSameNode s) (p.enabled && s.reason == disabled_reason) _ _
      (λ _. record { id = refl; services = refl }) (λ _. record { id = refl; services = refl })

module _ (endpoint : Text → Text × ℕ) (key : Text) (p : NodeProfile)
    (known : List (Text × NodeProfile)) where
  -- A node after the change, whether it has the profile or not.
  abbrev profiled : NodeState → NodeState
  profiled s =
      if profile_key_of endpoint s.control_addr == key
      then apply_profile endpoint known none (reenabled p s)
      else s

  profiled-IsSameNode : (s : NodeState) → IsSameNode s (profiled s)
  profiled-IsSameNode s =
      let first = reenabled-IsSameNode p s in
      let then_applied = apply_profile-IsSameNode endpoint known none (reenabled p s) in
      if-holds (IsSameNode s) (profile_key_of endpoint s.control_addr == key) _ s
        (λ _. record {
          id = then_applied.id ∙ first.id;
          services = then_applied.services ∙ first.services;
        })
        (λ _. record { id = refl; services = refl })

  update_nodes-cons :
      (k : Text) (s : NodeState) (m : List (Text × NodeState))
      → update_nodes endpoint key p known ((k, s) ∷ m)
        ≡ (k, profiled s) ∷ update_nodes endpoint key p known m
  unfolding update_nodes
  update_nodes-cons k s m = elim (Bool-cases (profile_key_of endpoint s.control_addr == key)) [
    | inl has ↦ rw has
    | inr has_not ↦ rw has_not
  ]

  found_profiled :
      (here : Bool) (s : NodeState) (o o' : Option NodeState)
      → o' ≡ Option.map profiled o
      → (if here then some (profiled s) else o') ≡ Option.map profiled (if here then some s else o)
  found_profiled true s o o' h = refl
  found_profiled false s o o' h = h

  get-update_nodes :
      (j : Text) (m : List (Text × NodeState))
      → get j (update_nodes endpoint key p known m) ≡ Option.map profiled (get j m)
  unfolding get update_nodes
  get-update_nodes j [] = refl
  get-update_nodes j ((k, s) ∷ m) =
      ap (get j) (update_nodes-cons k s m)
      ∙ found_profiled (k == j) s (get j m) _ (get-update_nodes j m)

  profiled_names : (o : Option NodeState) → names_of (Option.map profiled o) ≡ names_of o
  profiled_names none = refl
  profiled_names (some s) = ap service_names (profiled-IsSameNode s).services

  profiled_keys :
      (k : Text) (o : Option NodeState) (t : NodeState)
      → ((s : NodeState) → o ≡ some s → IsKey k s)
      → Option.map profiled o ≡ some t
      → IsKey k t
  profiled_keys k none t keyed at = cc
  profiled_keys k (some s) t keyed at =
      let (same, stripped, filled) = keyed s refl in
      let found : t ≡ profiled s = cc in
      (
        ap (λ (u : NodeState). u.node_instance_id) found ∙ ((profiled-IsSameNode s).id ∙ same),
        stripped,
        filled,
      )

module _ (endpoint : Text → Text × ℕ) where
  pub update_node_profile-IsConsistent :
      (addr : Text) (u : ProfileUpdate) {m : InfoCenterState}
      → IsConsistent m
      → IsConsistent (update_node_profile endpoint addr u m).1
  unfolding update_node_profile offers
  update_node_profile-IsConsistent addr u {m} c =
      let key = profile_key_of endpoint addr in
      let p = updated_profile u (or_old (get key m.profiles) (new_profile key)) in
      let known = insert key p m.profiles in
      if-holds (λ (r : Option NodeProfile × InfoCenterState). IsConsistent r.1) (is_nonempty key) _
        _
        (λ _. record {
          keyed = λ k t at.
              profiled_keys endpoint key p known k (get k m.nodes) t (c.keyed k)
                (sym (get-update_nodes endpoint key p known k m.nodes) ∙ at);
          indexed = λ k n.
              c.indexed k n
              ∙ ap (member n) (
                  sym (
                    ap names_of (get-update_nodes endpoint key p known k m.nodes)
                    ∙ profiled_names endpoint key p known (get k m.nodes)));
        })
        (λ _. c)
