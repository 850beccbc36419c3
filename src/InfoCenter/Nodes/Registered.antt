-- ===== src/InfoCenter/Nodes/Registered.antt =====
-- A registration keeps the state of the info center consistent, whether it returns or raises.
use new_pycloud.Base.{
  ℕ, ◌≡◌, refl, sym, subst, ap, ◌∙◌, inl, inr, true, not, ◌&&◌, List, [], ◌∷◌, Option, none, some,
  nat_eq, list_eq, Option-cases, strip-strip, if-holds,
}
use new_pycloud.Base.Dict.{get}
use new_pycloud.Base.Text.{Text, strip, is_nonempty}
use new_pycloud.InfoCenter.Nodes.{NodeServiceState, NodeState, InfoCenterState}
use new_pycloud.InfoCenter.Nodes.Index.{service_names}
use new_pycloud.InfoCenter.Nodes.Profiles.{apply_profile}
use new_pycloud.InfoCenter.Nodes.Startup.{
  drop_nodes, is_startup, incoming_names, meet_nodes, replaced_keys, prune_replaced_nodes,
  validate_startup_service_names,
}
use new_pycloud.InfoCenter.Nodes.Reports.{Registration, registration_id, registered, with_credit}
use new_pycloud.InfoCenter.Nodes.Calls.{store_node, registering_node, register_node_record}
use new_pycloud.InfoCenter.Nodes.Consistent.{IsConsistent, IsKey, drop_nodes-IsConsistent, names_at}
use new_pycloud.InfoCenter.Nodes.Kept.{apply_profile-IsSameNode, with_credit-IsSameNode}
use new_pycloud.InfoCenter.Nodes.Invariant.{known_names, store_as-IsConsistent}

-- What holds of the state that is returned, if one is.
abbrev AllSome {ℓ κ} : {A : Type ℓ} → (A → Type κ) → Option A → Type κ
AllSome P none = Unit
AllSome P (some a) = P a

met-IsConsistent :
    (o : Option (List Text)) {m : InfoCenterState}
    → IsConsistent m
    → AllSome IsConsistent (elim o as (λ _. Option InfoCenterState) [
      | none ↦ none
      | some keys ↦ some (drop_nodes keys m)
    ])
met-IsConsistent none c = tt
met-IsConsistent (some keys) c = drop_nodes-IsConsistent keys c

named-IsConsistent :
    (o : Option (List (Text × NodeServiceState)))
    (meet : List (Text × NodeServiceState) → Option (List Text)) {m : InfoCenterState}
    → IsConsistent m
    → AllSome IsConsistent (elim o as (λ _. Option InfoCenterState) [
      | none ↦ none
      | some [] ↦ some m
      | some (p ∷ incoming) ↦ elim (meet (p ∷ incoming)) as (λ _. Option InfoCenterState) [
        | none ↦ none
        | some keys ↦ some (drop_nodes keys m)
      ]
    ])
named-IsConsistent none meet c = tt
named-IsConsistent (some []) meet c = c
named-IsConsistent (some (p ∷ incoming)) meet c = met-IsConsistent (meet (p ∷ incoming)) c

store_node-IsConsistent :
    (k : Text) (s : NodeState) (previous : List Text) {m : InfoCenterState}
    → IsConsistent m
    → IsKey k s
    → previous ≡ names_at k m.nodes
    → IsConsistent (store_node s previous m)
unfolding store_node
store_node-IsConsistent k s previous {m} c (same, stripped, filled) known =
    store_as-IsConsistent s.node_instance_id s previous c
      (refl, ap strip same ∙ (stripped ∙ sym same), ap is_nonempty same ∙ filled)
      (known ∙ ap (λ (j : Text). names_at j m.nodes) (sym same))

module _ (endpoint : Text → Text × ℕ) where
  prune_replaced_nodes-IsConsistent :
      (id addr : Text) {m : InfoCenterState}
      → IsConsistent m
      → IsConsistent (prune_replaced_nodes endpoint id addr m)
  unfolding prune_replaced_nodes
  prune_replaced_nodes-IsConsistent id addr {m} c =
      if-holds IsConsistent (is_nonempty (strip id) && is_nonempty (strip addr)) _ m
        (λ _. drop_nodes-IsConsistent (replaced_keys endpoint (strip id) (strip addr) m.nodes) c)
        (λ _. c)

  validated-IsConsistent :
      (now : ℕ) (id addr : Text) (metadata : List (Text × Text))
      (services : List (Text × NodeServiceState)) {m : InfoCenterState}
      → IsConsistent m
      → AllSome IsConsistent
          (validate_startup_service_names endpoint now id addr metadata services m)
  unfolding validate_startup_service_names
  validated-IsConsistent now id addr metadata services {m} c =
      if-holds (AllSome IsConsistent) (not (is_startup metadata)) _ _ (λ _. c)
        (λ _.
          named-IsConsistent (incoming_names services [])
            (λ incoming. meet_nodes endpoint now id addr incoming m m.nodes) c)

  registered-IsConsistent :
      (now : ℕ) (r : Registration) {m : InfoCenterState}
      → IsConsistent m
      → is_nonempty (registration_id r) ≡ true
      → let s = registering_node now r m in
        IsConsistent (
          store_node
            (with_credit (apply_profile endpoint m.profiles (some r.tags) (registered now r s)))
            (service_names s.services)
            m)
  unfolding registered
  registered-IsConsistent now r {m} c filled =
      let s = registered now r (registering_node now r m) in
      let t = apply_profile endpoint m.profiles (some r.tags) s in
      let id =
        (with_credit-IsSameNode t).id
        ∙ (apply_profile-IsSameNode endpoint m.profiles (some r.tags) s).id in
      store_node-IsConsistent (registration_id r) (with_credit t) _ c (id, strip-strip _, filled)
        (known_names (get (registration_id r) m.nodes) _ refl)

  pub register_node_record-IsConsistent :
      (now : ℕ) (r : Registration) {m : InfoCenterState}
      → IsConsistent m
      → IsConsistent (register_node_record endpoint now r m).1
  unfolding register_node_record
  register_node_record-IsConsistent now r {m} c =
      let pruned = prune_replaced_nodes endpoint (registration_id r) r.control_addr m in
      let kept = prune_replaced_nodes-IsConsistent (registration_id r) r.control_addr c in
      if-holds (λ (p : Option NodeState × InfoCenterState). IsConsistent p.1)
        (is_nonempty (registration_id r)) _ _
        (λ filled.
          let valid =
            validate_startup_service_names endpoint now (registration_id r) r.control_addr
              r.metadata r.services pruned in
          elim (Option-cases valid) [
            | inl raised ↦ rw raised kept
            | inr (v, ok) ↦ rw ok (
                registered-IsConsistent now r
                  (subst (AllSome IsConsistent) ok (
                    validated-IsConsistent now (registration_id r) r.control_addr r.metadata
                      r.services kept))
                  filled)
          ])
        (λ _. c)
