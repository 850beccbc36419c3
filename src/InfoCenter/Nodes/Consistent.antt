-- ===== src/InfoCenter/Nodes/Consistent.antt =====
-- Consistent states: each node stands under its stripped id, and the index has a node under exactly
-- the names of its services. What it takes to keep this when one node is stored or dropped.
use new_pycloud.Base.{
  ◌≡◌, sym, subst, ap, ◌∙◌, Bool, true, List, [], ◌∷◌, Option, none, some, if◌then◌else◌, ◌==◌,
  nat_eq, list_eq, list_beq_iff, arith, Option-cases, inl, inr,
}
use new_pycloud.Base.Dict.{get, insert, erase, get-insert, get-erase}
use new_pycloud.Base.Text.{Text, strip, is_nonempty}
use new_pycloud.InfoCenter.Nodes.{NodeState, InfoCenterState}
use new_pycloud.Base.Sets.{member}
use new_pycloud.InfoCenter.Nodes.Index.{
  service_names, service_names-AreNames, is_indexed, remove_node_services_index,
  reindex_node_services, is_indexed-reindex_node_services, is_indexed-remove_node_services_index,
  AreNames,
}
use new_pycloud.InfoCenter.Nodes.Startup.{drop_node, drop_nodes}

-- The names under which a node offers services, by the nodes themselves.
abbrev pub names_of : Option NodeState → List Text
names_of none = []
names_of (some s) = service_names s.services

abbrev pub names_at : Text → List (Text × NodeState) → List Text
names_at k nodes = names_of (get k nodes)

unfoldable pub offers : Text → Text → List (Text × NodeState) → Bool
offers k n nodes = member n (names_at k nodes)

abbrev pub IsKey : Text → NodeState → Type 0
IsKey k s = (s.node_instance_id ≡ k) × (strip k ≡ k) × (is_nonempty k ≡ true)

pub record IsConsistent (m : InfoCenterState) : Type 0 where
  pub keyed : (k : Text) (s : NodeState) → get k m.nodes ≡ some s → IsKey k s
  pub indexed : (k n : Text) → is_indexed k n m.services_by_name ≡ offers k n m.nodes

-- A node is stored under its id, and its names replace those it had.
abbrev pub stored : Text → NodeState → InfoCenterState → InfoCenterState
stored k s m = record m {
  nodes = insert k s m.nodes;
  services_by_name = reindex_node_services s (names_at k m.nodes) m.services_by_name;
}

names_of-AreNames : (o : Option NodeState) → AreNames (names_of o)
names_of-AreNames none = tt
names_of-AreNames (some s) = service_names-AreNames s.services

reindexed :
    (k j n : Text) (s : NodeState) (m : InfoCenterState)
    → IsConsistent m
    → IsKey k s
    → is_indexed j n (reindex_node_services s (names_at k m.nodes) m.services_by_name)
      ≡ (if k == j then member n (service_names s.services) else is_indexed j n m.services_by_name)
unfolding offers
reindexed k j n s m c (same, stripped, filled) =
    is_indexed-reindex_node_services j n s (names_at k m.nodes) m.services_by_name
      (names_of-AreNames (get k m.nodes)) (rw same stripped) (rw same filled)
      (rw same (c.indexed k n))
    ∙ (rw same)

pub stored-IsConsistent :
    (k : Text) (s : NodeState) {m : InfoCenterState}
    → IsConsistent m
    → IsKey k s
    → IsConsistent (stored k s m)
unfolding offers
stored-IsConsistent k s {m} c key = record {
  keyed = λ j t at. ground (arith, get-insert k j s m.nodes, list_beq_iff k j, c.keyed j t);
  indexed =
      λ j n. ground (arith, get-insert k j s m.nodes, reindexed k j n s m c key, c.indexed j n);
}

-- A node is stored that has the names which stand under its key.
pub same_names-IsConsistent :
    (k : Text) (s : NodeState) {m : InfoCenterState}
    → IsConsistent m
    → IsKey k s
    → service_names s.services ≡ names_at k m.nodes
    → IsConsistent (record m { nodes = insert k s m.nodes })
unfolding offers
same_names-IsConsistent k s {m} c key names = record {
  keyed = λ j t at. ground (arith, get-insert k j s m.nodes, list_beq_iff k j, c.keyed j t);
  indexed = λ j n. ground (arith, get-insert k j s m.nodes, list_beq_iff k j, c.indexed j n);
}

-- A node is stored in place of one with its id and its names.
pub renewed-IsConsistent :
    (k : Text) (s s' : NodeState) {m : InfoCenterState}
    → IsConsistent m
    → get k m.nodes ≡ some s
    → s'.node_instance_id ≡ s.node_instance_id
    → service_names s'.services ≡ service_names s.services
    → IsConsistent (record m { nodes = insert k s' m.nodes })
renewed-IsConsistent k s s' {m} c at same names =
    let (id, stripped, filled) = c.keyed k s at in
    same_names-IsConsistent k s' c (same ∙ id, stripped, filled) (names ∙ sym (ap names_of at))

abbrev dropped : Text → NodeState → InfoCenterState → InfoCenterState
dropped k s m = record m {
  nodes = erase k m.nodes;
  services_by_name =
      remove_node_services_index s.node_instance_id (service_names s.services) m.services_by_name;
}

drop_node_absent : (k : Text) (m : InfoCenterState) → get k m.nodes ≡ none → drop_node k m ≡ m
unfolding drop_node
drop_node_absent k m at = ground arith

drop_node_found :
    (k : Text) (s : NodeState) (m : InfoCenterState)
    → get k m.nodes ≡ some s
    → drop_node k m ≡ dropped k s m
unfolding drop_node
drop_node_found k s m at = ground arith

dropped_index :
    (k j n : Text) (s : NodeState) {m : InfoCenterState}
    → IsConsistent m
    → get k m.nodes ≡ some s
    → is_indexed j n (dropped k s m).services_by_name ≡ offers j n (dropped k s m).nodes
unfolding offers member
dropped_index k j n s {m} c at =
    let (same, stripped, filled) = c.keyed k s at in
    ground (
      arith,
      is_indexed-remove_node_services_index j n s.node_instance_id (service_names s.services)
          m.services_by_name (service_names-AreNames s.services),
      get-erase k j m.nodes,
      list_beq_iff k j,
      c.indexed j n,
      same,
      stripped,
      filled,
    )

pub drop_node-IsConsistent :
    (k : Text) {m : InfoCenterState} → IsConsistent m → IsConsistent (drop_node k m)
drop_node-IsConsistent k {m} c = elim (Option-cases (get k m.nodes)) [
  | inl absent ↦ subst IsConsistent (sym (drop_node_absent k m absent)) c
  | inr (s, at) ↦
      let (same, stripped, filled) = c.keyed k s at in
      subst IsConsistent (sym (drop_node_found k s m at)) (record {
        keyed = λ j t found. ground (arith, get-erase k j m.nodes, c.keyed j t);
        indexed = λ j n. dropped_index k j n s c at;
      })
]

pub drop_nodes-IsConsistent :
    (ks : List Text) {m : InfoCenterState} → IsConsistent m → IsConsistent (drop_nodes ks m)
unfolding drop_nodes
drop_nodes-IsConsistent [] c = c
drop_nodes-IsConsistent (k ∷ ks) c = drop_nodes-IsConsistent ks (drop_node-IsConsistent k c)
