-- ===== src/InfoCenter/Nodes/Index.antt =====
-- The index of nodes by the names of their services in controlplane/infocenter_state.py:
-- `_reindex_node_services_locked` and `_remove_node_services_index_locked`. A set of node keys is a
-- list in which each stands once.
use new_pycloud.Base.{
  ◌≡◌, Bool, true, false, ◌&&◌, ◌||◌, List, [], ◌∷◌, none, some, if◌then◌else◌, ◌==◌, nat_eq,
  list_eq, list_beq_iff, arith, Option-cases, inl, inr, All, strip-strip,
}
use new_pycloud.Base.Sets.{member, discard, add, member-discard, member-add}
use new_pycloud.Base.Dict.{get, insert, erase, get-insert, get-erase}
use new_pycloud.Base.Text.{Text, strip, is_nonempty}
use new_pycloud.InfoCenter.Nodes.{NodeServiceState, NodeState}

abbrev pub ServiceIndex : Type 0
ServiceIndex = List (Text × List Text)

-- The names of a node's services, stripped and without the empty ones.
unfoldable pub service_names : List (Text × NodeServiceState) → List Text
service_names [] = []
service_names ((_, svc) ∷ m) =
    let rest = service_names m in
    if is_nonempty (strip svc.service_name) then strip svc.service_name ∷ rest else rest

-- `self._services_by_name.get(name, ())`
abbrev pub members_of : Text → ServiceIndex → List Text
members_of n idx = elim (get n idx) [ none ↦ [] | some ks ↦ ks ]

abbrev pub store_members : Text → List Text → ServiceIndex → ServiceIndex
store_members n [] idx = erase n idx
store_members n (k ∷ ks) idx = insert n (k ∷ ks) idx

-- One round of the loop that removes a node from the sets of names; an empty set goes.
unfoldable pub remove_name : Text → Text → ServiceIndex → ServiceIndex
unfolding discard
remove_name key n idx =
    if is_nonempty (strip n)
    then (elim (get (strip n) idx) [
      | none ↦ idx
      | some ks ↦ store_members (strip n) (discard key ks) idx
    ])
    else idx

unfoldable pub remove_names : Text → List Text → ServiceIndex → ServiceIndex
remove_names key [] idx = idx
remove_names key (n ∷ ns) idx = remove_names key ns (remove_name key n idx)

-- `_remove_node_services_index_locked`, with the names that are given or the node's own.
unfoldable pub remove_node_services_index : Text → List Text → ServiceIndex → ServiceIndex
remove_node_services_index node_instance_id names idx =
    if is_nonempty (strip node_instance_id)
    then remove_names (strip node_instance_id) names idx
    else idx

unfoldable pub add_names : Text → List Text → ServiceIndex → ServiceIndex
add_names key [] idx = idx
add_names key (n ∷ ns) idx = add_names key ns (insert n (add key (members_of n idx)) idx)

unfoldable pub reindex_node_services : NodeState → List Text → ServiceIndex → ServiceIndex
unfolding remove_node_services_index add_names service_names
reindex_node_services s previous idx =
    if is_nonempty (strip s.node_instance_id)
    then add_names (strip s.node_instance_id) (service_names s.services)
        (remove_node_services_index s.node_instance_id previous idx)
    else idx

-- Whether the index has a node under a name.
unfoldable pub is_indexed : Text → Text → ServiceIndex → Bool
is_indexed k n idx = member k (members_of n idx)

is_indexed-store :
    (k n j : Text) (ks : List Text) (idx : ServiceIndex)
    → is_indexed k n (store_members j ks idx) ≡ (if j == n then member k ks else is_indexed k n idx)
unfolding is_indexed member
is_indexed-store k n j [] idx = ground (arith, get-erase j n idx)
is_indexed-store k n j (x ∷ xs) idx = ground (arith, get-insert j n (x ∷ xs) idx)

is_indexed-insert :
    (k n key j : Text) (idx : ServiceIndex)
    → is_indexed k n (insert j (add key (members_of j idx)) idx)
      ≡ ((key == k && j == n) || is_indexed k n idx)
unfolding is_indexed
is_indexed-insert k n key j idx = ground (
  arith,
  get-insert j n (add key (members_of j idx)) idx,
  member-add k key (members_of j idx),
  list_beq_iff j n,
)

is_indexed-remove_name :
    (k n key j : Text) (idx : ServiceIndex)
    → is_indexed k n (remove_name key j idx)
      ≡ (if is_nonempty (strip j) && (strip j == n && key == k) then false else is_indexed k n idx)
unfolding remove_name is_indexed member
is_indexed-remove_name k n key j idx = elim (Option-cases (get (strip j) idx)) [
  | inl absent ↦ ground (arith, list_beq_iff (strip j) n)
  | inr (ks, at) ↦ ground (
    arith,
    list_beq_iff (strip j) n,
    is_indexed-store k n (strip j) (discard key ks) idx,
    member-discard k key ks,
  )
]

-- Names as `service_names` gives them.
abbrev pub AreNames : List Text → Type 0
AreNames = All λ n. (strip n ≡ n) × (is_nonempty n ≡ true)

pub service_names-AreNames : (m : List (Text × NodeServiceState)) → AreNames (service_names m)
unfolding service_names
service_names-AreNames [] = tt
service_names-AreNames ((_, svc) ∷ m) =
    ground (arith, service_names-AreNames m, strip-strip svc.service_name)

is_indexed-remove_names :
    (k n key : Text) (names : List Text) (idx : ServiceIndex)
    → AreNames names
    → is_indexed k n (remove_names key names idx)
      ≡ (if key == k && member n names then false else is_indexed k n idx)
unfolding remove_names member
is_indexed-remove_names k n key [] idx h = ground arith
is_indexed-remove_names k n key (j ∷ names) idx h = ground (
  arith,
  is_indexed-remove_names k n key names (remove_name key j idx) h.1,
  is_indexed-remove_name k n key j idx,
)

is_indexed-add_names :
    (k n key : Text) (names : List Text) (idx : ServiceIndex)
    → is_indexed k n (add_names key names idx)
      ≡ ((key == k && member n names) || is_indexed k n idx)
unfolding add_names member
is_indexed-add_names k n key [] idx = ground arith
is_indexed-add_names k n key (j ∷ names) idx = ground (
  arith,
  is_indexed-add_names k n key names (insert j (add key (members_of j idx)) idx),
  is_indexed-insert k n key j idx,
)

-- Removing a node takes its key out of the sets of the names that are given, and out of no other.
pub is_indexed-remove_node_services_index :
    (k n key : Text) (names : List Text) (idx : ServiceIndex)
    → AreNames names
    → strip key ≡ key
    → is_nonempty key ≡ true
    → is_indexed k n (remove_node_services_index key names idx)
      ≡ (if key == k && member n names then false else is_indexed k n idx)
unfolding remove_node_services_index
is_indexed-remove_node_services_index k n key names idx h stripped filled =
    ground (arith, is_indexed-remove_names k n key names idx h)

-- A node that was under exactly its previous names is under exactly its names of now.
pub is_indexed-reindex_node_services :
    (k n : Text) (s : NodeState) (previous : List Text) (idx : ServiceIndex)
    → AreNames previous
    → strip s.node_instance_id ≡ s.node_instance_id
    → is_nonempty s.node_instance_id ≡ true
    → is_indexed s.node_instance_id n idx ≡ member n previous
    → is_indexed k n (reindex_node_services s previous idx) ≡ (
        if s.node_instance_id == k then member n (service_names s.services) else is_indexed k n idx)
unfolding reindex_node_services
is_indexed-reindex_node_services k n s previous idx h stripped filled old = ground (
  arith,
  is_indexed-add_names k n s.node_instance_id (service_names s.services)
      (remove_node_services_index s.node_instance_id previous idx),
  is_indexed-remove_node_services_index k n s.node_instance_id previous idx h stripped filled,
  list_beq_iff s.node_instance_id k,
)
