-- ===== src/InfoCenter/Nodes/Kept.antt =====
-- What the calls on a node leave as it is: its id and, up to new reports, the names of its services.
use new_pycloud.Base.{ℕ, ◌≡◌, refl, List, [], ◌∷◌, Option, none, some, nat_eq, list_eq, arith}
use new_pycloud.Base.Dict.{get}
use new_pycloud.Base.Text.{Text}
use new_pycloud.InfoCenter.Nodes.{NodeServiceState, NodeProfile, NodeState, InfoCenterState}
use new_pycloud.InfoCenter.Nodes.Index.{service_names}
use new_pycloud.InfoCenter.Nodes.Profiles.{
  profile_key_of, profile_of, tagged, with_profile, apply_profile,
}
use new_pycloud.InfoCenter.Nodes.Reports.{stamp_service, stamp_services, with_credit}
use new_pycloud.InfoCenter.Nodes.Routes.{fence_if_stale}

-- A node with the id and the services of another.
pub record IsSameNode (s t : NodeState) : Type 0 where
  pub id : t.node_instance_id ≡ s.node_instance_id
  pub services : t.services ≡ s.services

with_profile-IsSameNode : (p : Option NodeProfile) (s : NodeState) → IsSameNode s (with_profile p s)
unfolding with_profile
with_profile-IsSameNode none s = record { id = refl; services = refl }
with_profile-IsSameNode (some p) s = ground arith

module _ (endpoint : Text → Text × ℕ) where
  pub apply_profile-IsSameNode :
      (profiles : List (Text × NodeProfile)) (tags : Option (List Text)) (s : NodeState)
      → IsSameNode s (apply_profile endpoint profiles tags s)
  unfolding apply_profile tagged
  apply_profile-IsSameNode profiles tags s =
      let profile = profile_of endpoint (profile_key_of endpoint s.control_addr) profiles in
      let kept = with_profile-IsSameNode profile (tagged endpoint profile tags s) in
      record { id = kept.id; services = kept.services }

pub with_credit-IsSameNode : (s : NodeState) → IsSameNode s (with_credit s)
with_credit-IsSameNode s = ground arith

stamp_service-name :
    (now : ℕ) (o : Option NodeServiceState) (svc : NodeServiceState)
    → (stamp_service now o svc).service_name ≡ svc.service_name
unfolding stamp_service
stamp_service-name now none svc = refl
stamp_service-name now (some old) svc = refl

pub service_names-stamp_services :
    (now : ℕ) (previous m : List (Text × NodeServiceState))
    → service_names (stamp_services now previous m) ≡ service_names m
unfolding service_names stamp_services
service_names-stamp_services now previous [] = refl
service_names-stamp_services now previous ((id, svc) ∷ m) =
    rw (stamp_service-name now (get id previous) svc, service_names-stamp_services now previous m)

pub fence_if_stale-IsSameNode :
    (now : ℕ) (m : InfoCenterState) (s : NodeState) → IsSameNode s (fence_if_stale now m s)
unfolding fence_if_stale
fence_if_stale-IsSameNode now m s = ground arith
