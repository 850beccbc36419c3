-- ===== src/RouteCache.antt =====
-- What _DiscoveryRouteCache of controlplane/discovery_route_cache.py keeps of the routes of a
-- service: the calls in flight on each, and its breaker. Times are whole microseconds. The refresh
-- of the routes by the info center, and the choice among those available, are not modelled.
pub mod Inflight
pub mod Available
use new_pycloud.Base.{
  ℕ, suc, ◌+◌, ◌-◌, max, Bool, true, false, not, ◌&&◌, ◌||◌, leb, List, [], ◌∷◌, Option, none, some,
  if◌then◌else◌, ◌==◌, nat_eq, list_eq, pair_eq,
}
use new_pycloud.Base.Dict.{get, insert, erase}
use new_pycloud.Base.Text.{Text, strip, is_nonempty}
use new_pycloud.Failover.Breaker.{
  CandidateBreakerState, Settings, fresh, Outcome, returned, overflow_error, min_cooldown,
  mark_candidate_success, mark_candidate_failure, candidate_allowed, before_probe,
}
use new_pycloud.Failover.Classify.{route_unavailable}

-- service_name and service_id.
abbrev pub Route : Type 0
Route = Text × Text

pub record RouteCache : Type 0 where
  pub open_sec : ℕ
  pub local_state : List (Route × CandidateBreakerState)
  pub local_inflight : List (Route × ℕ)

abbrev pub new_cache : ℕ → RouteCache
new_cache open_sec = record {
  open_sec = max min_cooldown open_sec;
  local_state = [];
  local_inflight = [];
}

abbrev pub route_key : Route → Route
route_key (name, id) = (strip name, strip id)

abbrev pub is_complete : Route → Bool
is_complete (name, id) = is_nonempty name && is_nonempty id

-- `_local_inflight.get(key, 0)`
abbrev pub inflight_count : Route → RouteCache → ℕ
inflight_count key c = elim (get key c.local_inflight) [ none ↦ 0 | some n ↦ n ]

-- `_reserve_route`
pub reserve_route : Route → RouteCache → RouteCache
reserve_route route c =
    if is_complete (route_key route)
    then (record c {
      local_inflight =
          insert (route_key route) (inflight_count (route_key route) c + 1) c.local_inflight;
    })
    else c

-- `_release_route`
pub release_route : Route → RouteCache → RouteCache
release_route route c =
    let key = route_key route in
    if is_complete key
    then (record c {
      local_inflight =
          if leb (inflight_count key c) 1
          then erase key c.local_inflight
          else insert key (inflight_count key c - 1) c.local_inflight;
    })
    else c

-- `_route_available_locked`, which may make an open breaker half-open.
pub route_available : ℕ → Route → RouteCache → RouteCache × Bool
route_available now key c = elim (get key c.local_state) [
  | none ↦ (c, true)
  | some s ↦
      let (s', _, allowed) = candidate_allowed now s in
      (record c { local_state = insert key s' c.local_state }, allowed)
]

abbrev pub state_of : Route → RouteCache → CandidateBreakerState
state_of key c = elim (get key c.local_state) [ none ↦ fresh | some s ↦ s ]

-- `_before_probe_locked`
pub probe_route : ℕ → Route → RouteCache → RouteCache × Bool
probe_route now key c =
    let (s', allowed) = before_probe now (state_of key c) in
    (record c { local_state = insert key s' c.local_state }, allowed)

pub mark_success : Route → RouteCache → RouteCache
unfolding release_route
mark_success route c = release_route route (elim (get route c.local_state) [
  | none ↦ c
  | some s ↦ record c { local_state = insert route (mark_candidate_success s) c.local_state }
])

-- A first failure opens the breaker, always for the same time.
abbrev pub failure_settings : RouteCache → Settings
failure_settings c = record {
  failure_threshold = 1;
  cooldown_sec = c.open_sec;
  max_cooldown_sec = c.open_sec;
}

-- The call releases the route only if the breaker does not raise.
pub mark_failure : ℕ → Route → Text → RouteCache → RouteCache × Outcome
unfolding release_route
mark_failure now route error c =
    let (s', outcome) =
      mark_candidate_failure (failure_settings c) route_unavailable error now (state_of route c) in
    let c' : RouteCache = record c { local_state = insert route s' c.local_state } in
    (elim outcome [ returned ↦ release_route route c' | overflow_error ↦ c' ], outcome)
