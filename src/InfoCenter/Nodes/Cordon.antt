-- ===== src/InfoCenter/Nodes/Cordon.antt =====
-- A node whose heartbeats were late is cordoned as soon as it is looked at, and heartbeats do not
-- take that back: `_fence_if_stale_locked` and `heartbeat_record` of
-- controlplane/infocenter_state.py.
use new_pycloud.Base.{
  ℕ, ◌≡◌, refl, ap, ◌∙◌, true, false, List, [], ◌∷◌, Option, none, some, ◌==◌, nat_eq, list_eq,
  list_beq_iff, arith, Bool-cases, if-holds, inl, inr,
}
use new_pycloud.Base.Dict.{get, insert, get-insert, get-insert_self}
use new_pycloud.Base.Text.{Text, codes, is_nonempty}
use new_pycloud.InfoCenter.Nodes.{NodeProfile, NodeState, InfoCenterState, node_is_stale}
use new_pycloud.InfoCenter.Nodes.Profiles.{
  nonempty_or, disabled_reason, profile_key_of, profile_of, tagged, with_profile, apply_profile,
  or_old,
}
use new_pycloud.InfoCenter.Nodes.Reports.{Heartbeat, heartbeat_id}
use new_pycloud.InfoCenter.Nodes.Calls.{heartbeat_node, heartbeat_record, beaten}
use new_pycloud.InfoCenter.Nodes.Routes.{fence_if_stale}
use new_pycloud.InfoCenter.Nodes.Listing.{fence_node}

-- Not schedulable, for a reason that is not its profile.
abbrev pub IsCordoned : NodeState → Type 0
IsCordoned s =
    (s.schedulable ≡ false)
    × (is_nonempty s.reason ≡ true)
    × ((s.reason == disabled_reason) ≡ false)

with_profile-IsCordoned :
    (p : Option NodeProfile) (s : NodeState) → IsCordoned s → IsCordoned (with_profile p s)
unfolding with_profile
with_profile-IsCordoned none s h = h
with_profile-IsCordoned (some p) s h = ground arith

fenced_reason :
    (reason : Text)
    → (reason == disabled_reason) ≡ false
    → let why = nonempty_or reason (codes "node heartbeat timeout") in
      (is_nonempty why ≡ true) × ((why == disabled_reason) ≡ false)
fenced_reason [] own = (refl, refl)
fenced_reason (c ∷ s) own = (refl, own)

fence_if_stale-IsCordoned :
    (now : ℕ) (m : InfoCenterState) (s : NodeState)
    → node_is_stale now m s ≡ true
    → (s.reason == disabled_reason) ≡ false
    → IsCordoned (fence_if_stale now m s)
unfolding fence_if_stale
fence_if_stale-IsCordoned now m s stale own =
    let why = fenced_reason s.reason own in rw (stale, fence_if_stale) (refl, why.0, why.1)

-- The heartbeats of any nodes, one after the other.
abbrev pub beat_all : (Text → Text × ℕ) → List (ℕ × Heartbeat) → InfoCenterState → InfoCenterState
beat_all endpoint [] m = m
beat_all endpoint ((now, h) ∷ hs) m = beat_all endpoint hs (heartbeat_record endpoint now h m).1

abbrev pub CordonedAt : Text → InfoCenterState → Type 0
CordonedAt k m = (s : NodeState) × (get k m.nodes ≡ some s) × IsCordoned s

known-IsCordoned :
    (o : Option NodeState) (s new : NodeState)
    → o ≡ some s
    → IsCordoned s
    → IsCordoned (or_old o new)
known-IsCordoned none s new at h = cc
known-IsCordoned (some t) s new at h = ground arith

module _ (endpoint : Text → Text × ℕ) where
  apply_profile-IsCordoned :
      (profiles : List (Text × NodeProfile)) (tags : Option (List Text)) (s : NodeState)
      → IsCordoned s
      → IsCordoned (apply_profile endpoint profiles tags s)
  unfolding apply_profile tagged
  apply_profile-IsCordoned profiles tags s h =
      let profile = profile_of endpoint (profile_key_of endpoint s.control_addr) profiles in
      with_profile-IsCordoned profile (tagged endpoint profile tags s) h

  beat-CordonedAt :
      (k : Text) (now : ℕ) (h : Heartbeat) (s : NodeState) (m : InfoCenterState)
      → get k m.nodes ≡ some s
      → IsCordoned s
      → let t = apply_profile endpoint m.profiles none (beaten now h (heartbeat_node now h m)) in
        (u : NodeState) × (get k (insert (heartbeat_id h) t m.nodes) ≡ some u) × IsCordoned u
  unfolding beaten
  beat-CordonedAt k now h s m at cordoned =
      let t = apply_profile endpoint m.profiles none (beaten now h (heartbeat_node now h m)) in
      elim (Bool-cases (heartbeat_id h == k)) [
        | inl own ↦
            let same : get (heartbeat_id h) m.nodes ≡ some s =
              ap (λ (x : Text). get x m.nodes) ((list_beq_iff (heartbeat_id h) k).0 own) ∙ at in
            (
              t,
              get-insert (heartbeat_id h) k t m.nodes ∙ (rw own),
              apply_profile-IsCordoned m.profiles none (beaten now h (heartbeat_node now h m))
                  (known-IsCordoned (get (heartbeat_id h) m.nodes) s _ same cordoned),
            )
        | inr other ↦ (s, get-insert (heartbeat_id h) k t m.nodes ∙ (rw other at), cordoned)
      ]

  heartbeat_record-CordonedAt :
      (k : Text) (now : ℕ) (h : Heartbeat) (m : InfoCenterState)
      → CordonedAt k m
      → CordonedAt k (heartbeat_record endpoint now h m).1
  unfolding heartbeat_record
  heartbeat_record-CordonedAt k now h m (s, at, cordoned) =
      if-holds (λ (p : Option NodeState × InfoCenterState). CordonedAt k p.1)
        (is_nonempty (heartbeat_id h)) _ _ (λ _. beat-CordonedAt k now h s m at cordoned)
        (λ _. (s, at, cordoned))

  beat_all-CordonedAt :
      (k : Text) (hs : List (ℕ × Heartbeat)) (m : InfoCenterState)
      → CordonedAt k m
      → CordonedAt k (beat_all endpoint hs m)
  beat_all-CordonedAt k [] m c = c
  beat_all-CordonedAt k ((now, h) ∷ hs) m c =
      beat_all-CordonedAt k hs (heartbeat_record endpoint now h m).1
        (heartbeat_record-CordonedAt k now h m c)

  -- A node that is looked at once while it is stale stays out of scheduling through all heartbeats,
  -- its own included, if it was not cordoned by its profile.
  pub stale_stays_cordoned :
      (k : Text) (now : ℕ) (s : NodeState) (hs : List (ℕ × Heartbeat)) (m : InfoCenterState)
      → get k m.nodes ≡ some s
      → node_is_stale now m s ≡ true
      → (s.reason == disabled_reason) ≡ false
      → (t : NodeState) × (get k (beat_all endpoint hs (fence_node now k m)).nodes ≡ some t)
        × (t.schedulable ≡ false)
  unfolding fence_node
  stale_stays_cordoned k now s hs m at stale own =
      let t = fence_if_stale now m s in
      let (u, found, cordoned) = beat_all-CordonedAt k hs (fence_node now k m) (
        t,
        rw (at, fence_node) (get-insert_self k t m.nodes),
        fence_if_stale-IsCordoned now m s stale own,
      ) in
      (u, found, cordoned.0)
