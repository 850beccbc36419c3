-- ===== src/InfoCenter/Nodes/Profiles.antt =====
-- Tags and profiles of nodes in controlplane/infocenter_state.py: `_normalize_tags`,
-- `_capability_tags_for_state`, `_apply_profile_locked`, `normalize_node_profile_key` and
-- `update_node_profile`. The host and port of an address, which `_endpoint_from_url_or_addr` takes
-- from it by the URL parser, is a parameter; the port is 0 if there is none. Digits of a Python
-- version are those of ASCII. Profiles are not written to a file.
use new_pycloud.Base.{
  ℕ, zero, suc, ◌+◌, ◌/◌, ◌%◌, Bool, true, false, not, ◌&&◌, ◌||◌, ltb, leb, List, [], ◌∷◌, ◌++◌,
  Option, none, some, if◌then◌else◌, ◌==◌, nat_eq, list_eq,
}
use new_pycloud.Base.Dict.{get, insert}
use new_pycloud.Base.Text.{Text, codes, strip, is_nonempty}
use new_pycloud.InfoCenter.Nodes.{NodeProfile, NodeState, InfoCenterState}

-- `<` on texts, by their code points.
unfoldable pub text_ltb : Text → Text → Bool
text_ltb [] [] = false
text_ltb [] (d ∷ t) = true
text_ltb (c ∷ s) [] = false
text_ltb (c ∷ s) (d ∷ t) = ltb c d || (c == d && text_ltb s t)

-- Adds a tag to a sorted list in which each stands once.
unfoldable pub insert_tag : Text → List Text → List Text
unfolding text_ltb
insert_tag t [] = t ∷ []
insert_tag t (u ∷ us) =
    let rest = insert_tag t us in
    if t == u then u ∷ us else (if text_ltb t u then t ∷ u ∷ us else u ∷ rest)

-- `sorted({tag.strip() for tag in tags if tag.strip()})`
unfoldable pub normalize_tags : List Text → List Text
unfolding insert_tag
normalize_tags [] = []
normalize_tags (t ∷ ts) =
    let rest = normalize_tags ts in
    if is_nonempty (strip t) then insert_tag (strip t) rest else rest

unfoldable pub has_tag : Text → List Text → Bool
has_tag t [] = false
has_tag t (u ∷ us) = t == u || has_tag t us

-- `tags.difference_update(removed)`
unfoldable pub without_tags : List Text → List Text → List Text
unfolding has_tag
without_tags removed [] = []
without_tags removed (t ∷ ts) =
    let rest = without_tags removed ts in if has_tag t removed then rest else t ∷ rest

-- `text.split(".", 1)[0]`
unfoldable pub before_dot : Text → Text
before_dot [] = []
before_dot (c ∷ s) = let rest = before_dot s in if c == b'.' then [] else c ∷ rest

abbrev pub all_digits : Text → Bool
all_digits [] = true
all_digits (c ∷ s) = leb b'0' c && leb c b'9' && all_digits s

abbrev pub is_digits : Text → Bool
is_digits s = is_nonempty s && all_digits s

abbrev pub text_at : Text → List (Text × Text) → Text
text_at k m = elim (get k m) [ none ↦ [] | some t ↦ t ]

unfoldable pub capability_tags : NodeState → List Text
unfolding before_dot normalize_tags
capability_tags s =
    let major = before_dot (strip s.python_version) in
    normalize_tags (
      codes "runtime:py3"
      ∷ (if is_digits major then codes "python:" ++ (major ++ codes ".x") else codes "python:3.x")
      ∷ (if strip (text_at (codes "component") s.metadata) == codes "job-orchestrator"
            || not s.accept_service_deploy
          then codes "role:job"
          else codes "role:compute")
      ∷ [])

abbrev pub disabled_reason : Text
disabled_reason = codes "disabled by managed node profile"

-- The digits of a number, with fuel above it.
unfoldable pub digits : ℕ → ℕ → Text → Text
digits zero n acc = acc
digits (suc fuel) n acc =
    let rest = digits fuel (n / 10) ((b'0' + n % 10) ∷ acc) in
    if ltb n 10 then (b'0' + n) ∷ acc else rest

abbrev pub nonempty_or : Text → Text → Text
nonempty_or s d = if is_nonempty s then s else d

-- What a profile decides of a node's drain, cordon and reason.
unfoldable pub with_profile : Option NodeProfile → NodeState → NodeState
with_profile none s = s
with_profile (some p) s =
    if not p.enabled
    then record s {
      drain = p.drain;
      schedulable = false;
      reason = nonempty_or s.reason disabled_reason;
    }
    else (if s.reason == disabled_reason
        then record s { drain = p.drain; schedulable = true; reason = [] }
        else record s { drain = p.drain })

-- `registration_tags`, where a registration gives them.
abbrev pub legacy_tags : Option (List Text) → NodeState → List Text
unfolding normalize_tags
legacy_tags none s = s.legacy_node_tags
legacy_tags (some tags) s = normalize_tags tags

-- The arguments of `update_node_profile`.
pub record ProfileUpdate : Type 0 where
  pub managed_tags : Option (List Text)
  pub add_tags : List Text
  pub remove_tags : List Text
  pub enabled : Option Bool
  pub drain : Option Bool
  pub notes : Option Text

abbrev pub or_old {ℓ} : {A : Type ℓ} → Option A → A → A
or_old none old = old
or_old (some new) old = new

unfoldable pub insert_all : List Text → List Text → List Text
unfolding insert_tag
insert_all [] us = us
insert_all (t ∷ ts) us = insert_tag t (insert_all ts us)

unfoldable pub updated_profile : ProfileUpdate → NodeProfile → NodeProfile
unfolding insert_all normalize_tags without_tags
updated_profile u p = record p {
  managed_tags = without_tags (normalize_tags u.remove_tags) (
      insert_all (normalize_tags u.add_tags)
        (elim u.managed_tags [ none ↦ p.managed_tags | some tags ↦ normalize_tags tags ]));
  enabled = or_old u.enabled p.enabled;
  drain = or_old u.drain p.drain;
  notes = or_old u.notes p.notes;
}

abbrev pub new_profile : Text → NodeProfile
new_profile key = record {
  profile_key = key;
  managed_tags = [];
  enabled = true;
  drain = false;
  notes = [];
}

-- A node whose profile is enabled is no longer cordoned by it.
abbrev pub reenabled : NodeProfile → NodeState → NodeState
reenabled p s =
    if p.enabled && s.reason == disabled_reason
    then record s { schedulable = true; reason = [] }
    else s

module _ (endpoint : Text → Text × ℕ) where
  unfoldable pub profile_key_of : Text → Text
  unfolding digits
  profile_key_of addr =
      let (host, port) = endpoint addr in
      if is_nonempty host && ltb 0 port then host ++ (b':' ∷ digits (suc port) port []) else []

  abbrev pub profile_of : Text → List (Text × NodeProfile) → Option NodeProfile
  profile_of key profiles = if is_nonempty key then get key profiles else none

  -- The tags and flags that the profile gives, before it decides of drain and cordon.
  unfoldable pub tagged : Option NodeProfile → Option (List Text) → NodeState → NodeState
  unfolding profile_key_of capability_tags
  tagged profile registration s =
      let managed : List Text = elim profile [ none ↦ [] | some p ↦ p.managed_tags ] in
      let legacy = legacy_tags registration s in
      record s {
        profile_key = profile_key_of s.control_addr;
        legacy_node_tags = legacy;
        managed_tags = managed;
        profile_enabled = elim profile [ none ↦ true | some p ↦ p.enabled ];
        profile_notes = elim profile [ none ↦ [] | some p ↦ p.notes ];
        capability_tags = capability_tags s;
        tags = normalize_tags (capability_tags s ++ (managed ++ legacy));
      }

  unfoldable pub apply_profile :
      List (Text × NodeProfile) → Option (List Text) → NodeState → NodeState
  unfolding tagged with_profile
  apply_profile profiles registration s =
      let profile = profile_of (profile_key_of s.control_addr) profiles in
      with_profile profile (tagged profile registration s)

  unfoldable pub update_nodes :
      Text
      → NodeProfile
      → List (Text × NodeProfile)
      → List (Text × NodeState)
      → List (Text × NodeState)
  unfolding apply_profile
  update_nodes key p profiles [] = []
  update_nodes key p profiles ((k, s) ∷ m) =
      let rest = update_nodes key p profiles m in
      if profile_key_of s.control_addr == key
      then (k, apply_profile profiles none (reenabled p s)) ∷ rest
      else (k, s) ∷ rest

  -- `none` stands for ValueError.
  unfoldable pub update_node_profile :
      Text → ProfileUpdate → InfoCenterState → Option NodeProfile × InfoCenterState
  unfolding updated_profile update_nodes
  update_node_profile addr u m =
      let key = profile_key_of addr in
      let p = updated_profile u (or_old (get key m.profiles) (new_profile key)) in
      let profiles = insert key p m.profiles in
      if is_nonempty key
      then (some p, record m { profiles = profiles; nodes = update_nodes key p profiles m.nodes })
      else (none, m)
