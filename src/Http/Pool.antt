-- ===== src/Http/Pool.antt =====
-- HttpConnectionPool: the pool that the threads share, one round of `_acquire`'s loop under the
-- lock, `_release` and `close`. Times are whole microseconds; a connection is the identity of its
-- object, and what is sent over it is not modelled.
pub mod Request
pub mod Steps
pub mod Counting
pub mod Consistent
pub mod Acquire
pub mod Release
pub mod Invariant
pub mod Limits
pub mod Scenarios
use new_pycloud.Base.{
  ℕ, zero, suc, ◌+◌, ◌-◌, min, max, Bool, true, false, not, ◌&&◌, ◌||◌, List, [], ◌∷◌, ◌++◌, Option,
  none, some, if◌then◌else◌, ltb, leb, nat_beq, nat_eq, list_eq, pair_eq, length, map,
}
use new_pycloud.Base.Dict.{get, insert, erase}
use new_pycloud.Base.Int.{ℤ, pos, negsuc}
use new_pycloud.Base.Text.{Text}

-- Scheme, host and port.
abbrev pub Origin : Type 0
Origin = Text × (Text × ℕ)

-- `idle` is the deque, its left end first: a connection and when it became idle.
pub record OriginState : Type 0 where
  pub connection_count : ℕ
  pub idle : List (ℕ × ℕ)

abbrev pub new_origin : OriginState
new_origin = record { connection_count = 0; idle = [] }

pub record HttpConnectionPool : Type 0 where
  pub max_connections_per_origin : ℕ
  pub max_idle_connections_per_origin : ℕ
  pub idle_ttl_sec : ℕ
  pub origins : List (Origin × OriginState)
  pub closed : Bool

abbrev pub min_idle_ttl : ℕ
min_idle_ttl = 100000

-- `none` is a ValueError.
pub init : ℤ → ℤ → ℕ → Option HttpConnectionPool
init (negsuc n) idle_limit ttl = none
init (pos zero) idle_limit ttl = none
init (pos (suc n)) (negsuc m) ttl = none
init (pos (suc n)) (pos m) ttl = some (record {
  max_connections_per_origin = suc n;
  max_idle_connections_per_origin = min (suc n) m;
  idle_ttl_sec = max min_idle_ttl ttl;
  origins = [];
  closed = false;
})

-- The `while` that takes connections off the left end: those that have been idle for `ttl`.
pub expired : ℕ → ℕ → List (ℕ × ℕ) → List (ℕ × ℕ)
expired ttl now [] = []
expired ttl now ((c, at) ∷ idle) =
    let rest = expired ttl now idle in if leb (at + ttl) now then (c, at) ∷ rest else []

pub unexpired : ℕ → ℕ → List (ℕ × ℕ) → List (ℕ × ℕ)
unexpired ttl now [] = []
unexpired ttl now ((c, at) ∷ idle) =
    let rest = unexpired ttl now idle in if leb (at + ttl) now then rest else (c, at) ∷ idle

-- `deque.pop`: the right end, and what stays.
pub pop_right : List (ℕ × ℕ) → Option (ℕ × List (ℕ × ℕ))
pop_right [] = none
pop_right ((c, at) ∷ idle) = elim (pop_right idle) [
  | none ↦ some (c, [])
  | some (d, rest) ↦ some (d, (c, at) ∷ rest)
]

-- `deque.popleft`, where a fresh connection is required: the entry dropped, and what stays.
pub drop_for_fresh : Bool → List (ℕ × ℕ) → List (ℕ × ℕ) × List (ℕ × ℕ)
drop_for_fresh false idle = ([], idle)
drop_for_fresh true [] = ([], [])
drop_for_fresh true (e ∷ idle) = (e ∷ [], idle)

-- How a round ends: with an idle connection, with a new one, by the exception of a constructor that
-- refuses the host, by waiting for a notification, or by one of the pool's two exceptions.
pub data Round : Type 0 where
  reused : (connection : ℕ) → Round
  created : Round
  not_created : Round
  waits : Round
  timed_out : Round
  pool_closed : Round

pub record Acquired : Type 0 where
  pub pool : HttpConnectionPool
  pub round : Round
  -- The connections that the round took out of the pool to close them.
  pub stale : List ℕ

abbrev pub store : Origin → OriginState → HttpConnectionPool → HttpConnectionPool
store origin state p = record p { origins = insert origin state p.origins }

abbrev pub connections : List (ℕ × ℕ) → List ℕ
connections = map λ e. e.0

-- A new connection if the origin has room for it, and the wait otherwise. `constructs` is whether
-- `_new_connection` returns: the constructors of http.client raise for a host they do not accept, and
-- the count has been raised by then.
pub make_connection : Origin → Bool → ℕ → ℕ → List ℕ → OriginState → HttpConnectionPool → Acquired
make_connection origin constructs now deadline stale state p =
    if ltb state.connection_count p.max_connections_per_origin
    then (record {
      pool = store origin (record state { connection_count = state.connection_count + 1 }) p;
      round = if constructs then created else not_created;
      stale = stale;
    })
    else (record {
      pool = store origin state p;
      round = if leb deadline now then timed_out else waits;
      stale = stale;
    })

-- Behind the removal of stale connections: `state` has its remaining ones.
pub choose_connection :
    Origin → Bool → Bool → ℕ → ℕ → List ℕ → OriginState → HttpConnectionPool → Acquired
unfolding make_connection
choose_connection origin require_fresh constructs now deadline stale state p =
    elim (if require_fresh then none else pop_right state.idle) [
      | some (c, idle) ↦ record {
        pool = store origin (record state { idle = idle }) p;
        round = reused c;
        stale = stale;
      }
      | none ↦ make_connection origin constructs now deadline stale state p
    ]

-- `self._origins.setdefault(origin, _OriginState())`
pub origin_state : Origin → HttpConnectionPool → OriginState
origin_state origin p = elim (get origin p.origins) [ none ↦ new_origin | some state ↦ state ]

-- A round on a pool that is not closed.
pub open_round : Origin → Bool → Bool → ℕ → ℕ → HttpConnectionPool → Acquired
unfolding choose_connection origin_state expired unexpired drop_for_fresh
open_round origin require_fresh constructs now deadline p =
    let state = origin_state origin p in
    let old = expired p.idle_ttl_sec now state.idle in
    let (dropped, idle) = drop_for_fresh require_fresh (unexpired p.idle_ttl_sec now state.idle) in
    let stale = connections (old ++ dropped) in
    choose_connection origin require_fresh constructs now deadline stale
      (record { connection_count = state.connection_count - length stale; idle = idle }) p

pub acquire_round : Origin → Bool → Bool → ℕ → ℕ → HttpConnectionPool → Acquired
unfolding open_round pop_right
acquire_round origin require_fresh constructs now deadline p =
    if p.closed
    then (record { pool = p; round = pool_closed; stale = [] })
    else open_round origin require_fresh constructs now deadline p

-- One connection less for the origin, which is forgotten if nothing is left of it.
abbrev pub forget_one : Origin → OriginState → HttpConnectionPool → HttpConnectionPool
forget_one origin state p =
    if nat_beq (state.connection_count - 1) 0 && nat_beq (length state.idle) 0
    then record p { origins = erase origin p.origins }
    else store origin (record state { connection_count = state.connection_count - 1 }) p

-- The pool, and whether the connection is closed.
pub release : Origin → ℕ → Bool → ℕ → HttpConnectionPool → HttpConnectionPool × Bool
release origin connection reusable now p = elim (get origin p.origins) [
  | none ↦ (p, true)
  | some state ↦
      if p.closed || not reusable
      then (forget_one origin state p, not reusable)
      else if ltb (length state.idle) p.max_idle_connections_per_origin
      then (store origin (record state { idle = state.idle ++ (connection, now) ∷ [] }) p, false)
      else (forget_one origin state p, true)
]

-- All idle connections, which `close` closes.
abbrev pub all_idle : List (Origin × OriginState) → List ℕ
all_idle [] = []
all_idle ((_, state) ∷ m) = connections state.idle ++ all_idle m

pub close : HttpConnectionPool → HttpConnectionPool × List ℕ
close p =
    if p.closed then (p, []) else (record p { closed = true; origins = [] }, all_idle p.origins)
