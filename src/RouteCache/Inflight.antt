-- ===== src/RouteCache/Inflight.antt =====
-- The calls in flight on a route.
use new_pycloud.Base.{
  ◌+◌, ◌-◌, ◌≡◌, Bool, true, if◌then◌else◌, ◌==◌, nat_eq, list_eq, pair_eq, pair_beq_iff, arith,
  Bool-cases, inl, inr, ◌∙◌,
}
use new_pycloud.Base.Dict.{get-insert, get-erase}
use new_pycloud.RouteCache.{
  Route, RouteCache, route_key, is_complete, inflight_count, reserve_route, release_route,
}

abbrev pub is_route : Route → Route → Bool
is_route key j = key == j

-- A reservation counts one call more on its route, and on no other.
pub inflight_count-reserve :
    (route j : Route) (c : RouteCache)
    → is_complete (route_key route) ≡ true
    → inflight_count j (reserve_route route c)
      ≡ (if is_route (route_key route) j then inflight_count j c + 1 else inflight_count j c)
unfolding reserve_route
inflight_count-reserve route j c complete = ground (
  arith,
  complete,
  pair_beq_iff (route_key route) j,
  get-insert (route_key route) j (inflight_count (route_key route) c + 1) c.local_inflight,
)

-- A release counts one call less on its route, if there is one, and leaves the others alone.
pub inflight_count-release :
    (route j : Route) (c : RouteCache)
    → is_complete (route_key route) ≡ true
    → inflight_count j (release_route route c)
      ≡ (if is_route (route_key route) j then inflight_count j c - 1 else inflight_count j c)
unfolding release_route
inflight_count-release route j c complete = ground (
  arith,
  complete,
  pair_beq_iff (route_key route) j,
  get-erase (route_key route) j c.local_inflight,
  get-insert (route_key route) j (inflight_count (route_key route) c - 1) c.local_inflight,
)

-- What is reserved and released leaves the count of every route as it was.
pub release-reserve :
    (route j : Route) (c : RouteCache)
    → inflight_count j (release_route route (reserve_route route c)) ≡ inflight_count j c
unfolding reserve_route release_route
release-reserve route j c = elim (Bool-cases (is_complete (route_key route))) [
  | inr incomplete ↦ ground (arith, incomplete)
  | inl complete ↦
      inflight_count-release route j (reserve_route route c) complete
      ∙ ground (arith, inflight_count-reserve route j c complete)
]
