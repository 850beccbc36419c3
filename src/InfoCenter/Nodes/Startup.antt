-- ===== src/InfoCenter/Nodes/Startup.antt =====
-- What a registration does to other nodes in controlplane/infocenter_state.py: it drops the nodes
-- that it replaces (`_prune_replaced_nodes_locked`), and a startup service may keep another node's
-- name only at the same endpoint (`_validate_startup_service_names_locked`). `endpoint` is what
-- `_endpoint_from_url_or_addr` reads from an address; that it raises ValueError for an address whose
-- port is no number is left out.
use new_pycloud.Base.{
  ℕ, Bool, true, false, not, ◌&&◌, ◌||◌, ltb, List, [], ◌∷◌, Option, none, some, if◌then◌else◌,
  ◌==◌, nat_eq, list_eq,
}
use new_pycloud.Base.Dict.{get, insert, erase}
use new_pycloud.Base.Text.{Text, codes, strip, lower, is_nonempty}
use new_pycloud.Scheduling.{is_conflict_scope}
use new_pycloud.InfoCenter.Nodes.{NodeServiceState, NodeState, InfoCenterState, node_is_healthy}
use new_pycloud.InfoCenter.Nodes.Index.{service_names, remove_node_services_index}
use new_pycloud.InfoCenter.Nodes.Profiles.{profile_key_of}

abbrev pub is_one_of : Text → List Text → Bool
is_one_of t [] = false
is_one_of t (u ∷ us) = t == u || is_one_of t us

-- `_coerce_bool` of a text of the metadata, or of None.
abbrev pub coerce_bool : Option Text → Bool → Bool
coerce_bool none default = default
coerce_bool (some value) default =
    let text = lower (strip value) in
    if is_one_of text (codes "1" ∷ codes "true" ∷ codes "yes" ∷ codes "y" ∷ codes "on" ∷ [])
    then true
    else (if is_one_of text (codes "0" ∷ codes "false" ∷ codes "no" ∷ codes "n" ∷ codes "off" ∷ [])
        then false
        else default)

abbrev pub is_startup : List (Text × Text) → Bool
is_startup metadata = coerce_bool (get (codes "startup_service") metadata) false

-- Pops nodes by their keys, each with its names in the index.
unfoldable pub drop_node : Text → InfoCenterState → InfoCenterState
drop_node key m = elim (get key m.nodes) [
  | none ↦ m
  | some s ↦ record m {
    nodes = erase key m.nodes;
    services_by_name =
        remove_node_services_index s.node_instance_id (service_names s.services) m.services_by_name;
  }
]

unfoldable pub drop_nodes : List Text → InfoCenterState → InfoCenterState
drop_nodes [] m = m
drop_nodes (key ∷ keys) m = drop_nodes keys (drop_node key m)

-- The services of a registration by name, in conflict scope; `none` if two have one name.
unfoldable pub incoming_names :
    List (Text × NodeServiceState)
    → List (Text × NodeServiceState)
    → Option (List (Text × NodeServiceState))
incoming_names [] seen = some seen
incoming_names ((_, svc) ∷ m) seen =
    let name = strip svc.service_name in
    let skipped = incoming_names m seen in
    let taken = incoming_names m (insert name svc seen) in
    if not (is_conflict_scope true svc.status) || not (is_nonempty name)
    then skipped
    else (elim (get name seen) [
      | none ↦ taken
      | some old ↦ if strip old.service_id == strip svc.service_id then taken else none
    ])

-- What the services of another node mean for the registration.
pub data Meeting : Type 0 where
  apart replaced conflict : Meeting

abbrev pub is_wildcard : Text → Bool
is_wildcard host = is_one_of host (codes "" ∷ codes "0.0.0.0" ∷ codes "::" ∷ codes "[::]" ∷ [])

abbrev pub endpoint_matches : Text × ℕ → Text × ℕ → Bool
endpoint_matches (left_host, left_port) (right_host, right_port) =
    if not (ltb 0 left_port) || (not (ltb 0 right_port) || not (left_port == right_port))
    then false
    else is_wildcard left_host || is_wildcard right_host || left_host == right_host

module _ (endpoint : Text → Text × ℕ) where
  unfoldable pub is_replaced : Text → Text → Text → NodeState → Bool
  is_replaced id addr key s =
      not (key == id)
      && (strip s.control_addr == addr
          || (is_nonempty (profile_key_of endpoint addr)
              && profile_key_of endpoint s.control_addr == profile_key_of endpoint addr))

  unfoldable pub replaced_keys : Text → Text → List (Text × NodeState) → List Text
  unfolding is_replaced
  replaced_keys id addr [] = []
  replaced_keys id addr ((key, s) ∷ m) =
      let rest = replaced_keys id addr m in if is_replaced id addr key s then key ∷ rest else rest

  unfoldable pub prune_replaced_nodes : Text → Text → InfoCenterState → InfoCenterState
  unfolding replaced_keys drop_nodes
  prune_replaced_nodes id control_addr m =
      if is_nonempty (strip id) && is_nonempty (strip control_addr)
      then drop_nodes (replaced_keys (strip id) (strip control_addr) m.nodes) m
      else m

  -- The endpoint of a startup service: its own URL's, or its node's.
  abbrev pub startup_service_endpoint : Text → NodeServiceState → Text × ℕ
  startup_service_endpoint control_addr svc =
      let own = endpoint svc.http_base_url in if ltb 0 own.1 then own else endpoint control_addr

  unfoldable pub meet_services :
      Text → List (Text × NodeServiceState) → NodeState → List (Text × NodeServiceState) → Meeting
  meet_services control_addr incoming s [] = apart
  meet_services control_addr incoming s ((_, svc) ∷ m) =
      let rest = meet_services control_addr incoming s m in
      if not (is_conflict_scope true svc.status)
      then rest
      else (elim (get (strip svc.service_name) incoming) [
        | none ↦ rest
        | some new ↦
            if not (is_startup s.metadata)
            then conflict
            else (if endpoint_matches (startup_service_endpoint control_addr new)
                  (startup_service_endpoint s.control_addr svc)
                then replaced
                else conflict)
      ])

  -- The keys of the nodes whose startup services are replaced; `none` on a conflict.
  unfoldable pub meet_nodes :
      ℕ
      → Text
      → Text
      → List (Text × NodeServiceState)
      → InfoCenterState
      → List (Text × NodeState)
      → Option (List Text)
  unfolding meet_services node_is_healthy
  meet_nodes now id control_addr incoming m [] = some []
  meet_nodes now id control_addr incoming m ((key, s) ∷ nodes) =
      let rest = meet_nodes now id control_addr incoming m nodes in
      if key == id || not (node_is_healthy now m s)
      then rest
      else (elim (meet_services control_addr incoming s s.services) [
        | apart ↦ rest
        | replaced ↦ elim rest [ none ↦ none | some keys ↦ some (key ∷ keys) ]
        | conflict ↦ none
      ])

  -- `none` stands for ValueError; otherwise the state without the nodes that were replaced.
  unfoldable pub validate_startup_service_names :
      ℕ
      → Text
      → Text
      → List (Text × Text)
      → List (Text × NodeServiceState)
      → InfoCenterState
      → Option InfoCenterState
  unfolding incoming_names meet_nodes drop_nodes
  validate_startup_service_names now id control_addr metadata services m =
      if not (is_startup metadata) then some m else (elim (incoming_names services []) [
        | none ↦ none
        | some [] ↦ some m
        | some (p ∷ incoming) ↦ elim (meet_nodes now id control_addr (p ∷ incoming) m m.nodes) [
          | none ↦ none
          | some keys ↦ some (drop_nodes keys m)
        ]
      ])
