-- ===== src/InfoCenter/Nodes/Refused.antt =====
-- A registration of controlplane/infocenter_state.py that is refused has already dropped the nodes at
-- its control address.
use new_pycloud.Base.{
  ℕ, ◌≡◌, refl, sym, subst, ap, ◌∙◌, Bool, true, List, [], ◌∷◌, Option, none, some, if◌then◌else◌,
  ◌==◌, nat_eq, list_eq, list_beq_iff, arith, Option-cases, Bool-cases, if-holds, strip-strip, inl,
  inr,
}
use new_pycloud.Base.Dict.{get, get-erase}
use new_pycloud.Base.Text.{Text, strip, is_nonempty}
use new_pycloud.InfoCenter.Nodes.{NodeState, InfoCenterState}
use new_pycloud.Base.Sets.{member}
use new_pycloud.InfoCenter.Nodes.Startup.{
  drop_node, drop_nodes, is_replaced, replaced_keys, prune_replaced_nodes,
  validate_startup_service_names,
}
use new_pycloud.InfoCenter.Nodes.Profiles.{nonempty_or}
use new_pycloud.InfoCenter.Nodes.Reports.{Registration, registration_id}
use new_pycloud.InfoCenter.Nodes.Calls.{register_node_record}

get-drop_node :
    (j k : Text) (m : InfoCenterState)
    → get j (drop_node k m).nodes ≡ (if k == j then none else get j m.nodes)
unfolding drop_node
get-drop_node j k m = elim (Option-cases (get k m.nodes)) [
  | inl absent ↦
      rw (absent, drop_node)
        (if-holds (λ (o : Option NodeState). get j m.nodes ≡ o) (k == j) none (get j m.nodes)
          (λ here. ap (λ (x : Text). get x m.nodes) (sym ((list_beq_iff k j).0 here)) ∙ absent)
          (λ _. refl))
  | inr (s, at) ↦ rw (at, drop_node) (get-erase k j m.nodes)
]

drop_nodes-absent :
    (j : Text) (ks : List Text) (m : InfoCenterState)
    → get j m.nodes ≡ none
    → get j (drop_nodes ks m).nodes ≡ none
unfolding drop_nodes
drop_nodes-absent j [] m h = h
drop_nodes-absent j (k ∷ ks) m h =
    drop_nodes-absent j ks (drop_node k m) (ground (arith, get-drop_node j k m))

get-drop_nodes :
    (j : Text) (ks : List Text) (m : InfoCenterState)
    → member j ks ≡ true
    → get j (drop_nodes ks m).nodes ≡ none
unfolding drop_nodes member
get-drop_nodes j [] m h = cc
get-drop_nodes j (k ∷ ks) m h = elim (Bool-cases (k == j)) [
  | inl here ↦ drop_nodes-absent j ks (drop_node k m) (get-drop_node j k m ∙ (rw here))
  | inr there ↦ get-drop_nodes j ks (drop_node k m) (ground arith)
]

module _ (endpoint : Text → Text × ℕ) where
  replaced_keys-member :
      (id addr j : Text) (s : NodeState) (m : List (Text × NodeState))
      → get j m ≡ some s
      → is_replaced endpoint id addr j s ≡ true
      → member j (replaced_keys endpoint id addr m) ≡ true
  unfolding get member replaced_keys
  replaced_keys-member id addr j s [] at replaced = cc
  replaced_keys-member id addr j s ((k, t) ∷ m) at replaced =
      let rest = replaced_keys-member id addr j s m in
      elim (Bool-cases (k == j)) [
        | inl here ↦
            let found : t ≡ s = ground arith in
            let same : k ≡ j = (list_beq_iff k j).0 here in
            let kept : is_replaced endpoint id addr k t ≡ true =
              ap (λ (x : Text). is_replaced endpoint id addr x t) same
              ∙ (ap (is_replaced endpoint id addr j) found ∙ replaced) in
            rw (kept, here) refl
        | inr there ↦
            let later =
              rest (subst (λ (b : Bool). (if b then some t else get j m) ≡ some s) there at)
                replaced in
            if-holds (λ (ks : List Text). member j ks ≡ true) (is_replaced endpoint id addr k t) _ _
              (λ _. rw (there, later)) (λ _. later)
      ]

  get-prune_replaced_nodes :
      (id addr j : Text) (s : NodeState) (m : InfoCenterState)
      → get j m.nodes ≡ some s
      → is_replaced endpoint (strip id) (strip addr) j s ≡ true
      → is_nonempty (strip id) ≡ true
      → is_nonempty (strip addr) ≡ true
      → get j (prune_replaced_nodes endpoint id addr m).nodes ≡ none
  unfolding prune_replaced_nodes
  get-prune_replaced_nodes id addr j s m at replaced filled addressed =
      rw (filled, addressed)
        (get-drop_nodes j (replaced_keys endpoint (strip id) (strip addr) m.nodes) m
          (replaced_keys-member (strip id) (strip addr) j s m.nodes at replaced))

  -- A registration with an id and a control address that are not empty that raises ValueError, for a
  -- name that another node has, leaves none of the nodes that it replaces: those that stand at its
  -- control address under another id.
  pub register_node_record-refused :
      (now : ℕ) (r : Registration) (j : Text) (s : NodeState) (m : InfoCenterState)
      → get j m.nodes ≡ some s
      → is_replaced endpoint (strip (registration_id r)) (strip r.control_addr) j s ≡ true
      → is_nonempty (strip r.control_addr) ≡ true
      → is_nonempty (registration_id r) ≡ true
      → (register_node_record endpoint now r m).0 ≡ none
      → get j (register_node_record endpoint now r m).1.nodes ≡ none
  unfolding register_node_record
  register_node_record-refused now r j s m at replaced addressed filled refused =
      let pruned = prune_replaced_nodes endpoint (registration_id r) r.control_addr m in
      let valid =
        validate_startup_service_names endpoint now (registration_id r) r.control_addr r.metadata
          r.services pruned in
      let gone =
        get-prune_replaced_nodes (registration_id r) r.control_addr j s m at replaced
          (ap is_nonempty (strip-strip (nonempty_or r.node_instance_id r.node_id)) ∙ filled)
          addressed in
      if-holds (λ (p : Option NodeState × InfoCenterState). p.0 ≡ none → get j p.1.nodes ≡ none)
        (is_nonempty (registration_id r)) _ _
        (λ _. elim (Option-cases valid) [
          | inl raised ↦ rw raised (λ _. gone)
          | inr (v, ok) ↦ rw ok (λ returned. cc)
        ])
        (λ empty. cc) refused
