-- ===== src/RouteCache/Available.antt =====
-- For how long a failure takes a route out of the choice.
use new_pycloud.Base.{
  ℕ, ◌+◌, leb, ◌≤◌, ◌≡◌, refl, ap, ◌∙◌, none, some, nat_eq, list_eq, pair_eq, arith,
}
use new_pycloud.Base.Dict.{get, insert, get-insert_self}
use new_pycloud.Base.Text.{Text}
use new_pycloud.Failover.Breaker.{CandidateBreakerState, fresh, opened, returned, min_cooldown}
use new_pycloud.Failover.Classify.{route_unavailable}
use new_pycloud.RouteCache.{
  Route, RouteCache, route_available, mark_failure, release_route, failure_settings,
}
use new_pycloud.Failover.Breaker.Admission.{first_failure, opened-allowed}

-- The breaker that a first failure opens.
abbrev tripped : ℕ → Text → ℕ → CandidateBreakerState
tripped now error open_sec = record fresh {
  state = opened;
  consecutive_failures = 1;
  open_count = 1;
  disabled_until_monotonic = now + open_sec;
  last_error = error;
  last_failure_kind = route_unavailable;
}

release_route-local_state :
    (route : Route) (c : RouteCache) → (release_route route c).local_state ≡ c.local_state
unfolding release_route
release_route-local_state route c = ground arith

first_mark_failure :
    (now : ℕ) (route : Route) (error : Text) (c : RouteCache)
    → min_cooldown ≤ c.open_sec
    → get route c.local_state ≡ none
    → mark_failure now route error c ≡ (
      release_route route
          (record c { local_state = insert route (tripped now error c.open_sec) c.local_state }),
      returned,
    )
unfolding mark_failure
first_mark_failure now route error c enough unknown = ground (
  arith,
  unknown,
  first_failure (failure_settings c) route_unavailable error now c.open_sec refl refl refl enough,
)

route_available-allowed :
    (later : ℕ) (route : Route) (s : CandidateBreakerState) (c : RouteCache)
    → get route c.local_state ≡ some s
    → s.state ≡ opened
    → (route_available later route c).1 ≡ leb s.disabled_until_monotonic later
unfolding route_available
route_available-allowed later route s c at e = ground (arith, at, opened-allowed later s e)

-- The first failure that is reported of a route takes it out of the choice for exactly the time that
-- the cache was made for, and lets it in again from then on; the report does not raise.
pub route_available-mark_failure :
    (now later : ℕ) (route : Route) (error : Text) (c : RouteCache)
    → min_cooldown ≤ c.open_sec
    → get route c.local_state ≡ none
    → ((mark_failure now route error c).1 ≡ returned)
      × ((route_available later route (mark_failure now route error c).0).1
          ≡ leb (now + c.open_sec) later)
route_available-mark_failure now later route error c enough unknown =
    let s = tripped now error c.open_sec in
    let put : RouteCache = record c { local_state = insert route s c.local_state } in
    let made = first_mark_failure now route error c enough unknown in
    let at : get route (release_route route put).local_state ≡ some s =
      ap (get route) (release_route-local_state route put)
      ∙ get-insert_self route s c.local_state in
    (
      ap (λ r. r.1) made,
      ap (λ r. (route_available later route r.0).1) made
          ∙ route_available-allowed later route s (release_route route put) at refl,
    )
