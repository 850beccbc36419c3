-- ===== src/Http/Pool/Scenarios.antt =====
-- A pool of one connection for each origin: it is lent, given back, reused, grows stale, and is
-- replaced; then the pool is closed while the new one is lent.
use new_pycloud.Base.{◌+◌, ◌≡◌, ◌≢◌, refl, true, false, [], ◌∷◌, inl, nat_eq, list_eq, pair_eq}
use new_pycloud.Base.Int.{pos}
use new_pycloud.Base.Dict.{get, insert, erase}
use new_pycloud.Base.Text.{codes}
use new_pycloud.Http.Pool.{Origin, HttpConnectionPool, reused, init, acquire_round, release, close}
use new_pycloud.Http.Pool.Steps.{
  System, acquires, releases, closes, Reach, starts, later, after_acquire, after_release,
  after_close,
}
use new_pycloud.Http.Pool.Consistent.{Inv, lent_at, leaked_at}
use new_pycloud.Http.Pool.Invariant.{Reach-Inv}
use new_pycloud.Http.Pool.Limits.{acquire_round-blocked, acquire_round-fresh}

abbrev node : Origin
node = (codes "http", (codes "node", 8080))

abbrev empty_pool : HttpConnectionPool
empty_pool = record {
  max_connections_per_origin = 1;
  max_idle_connections_per_origin = 1;
  idle_ttl_sec = 250000;
  origins = [];
  closed = false;
}

-- Connection 0 is lent.
abbrev busy : System
busy = record {
  pool = record empty_pool { origins = (node, record { connection_count = 1; idle = [] }) ∷ [] };
  lent = (node, 0) ∷ [];
  closed_connections = [];
  leaked = [];
  lost = [];
  created_count = 1;
}

-- It has been given back and used again, has grown stale, and connection 1 is lent in its place.
abbrev used_again : System
used_again = record busy { lent = (node, 1) ∷ []; closed_connections = 0 ∷ []; created_count = 2 }

abbrev shut : System
shut = record used_again {
  pool = record empty_pool { closed = true };
  lent = [];
  closed_connections = 1 ∷ 0 ∷ [];
}

busy-Reach : Reach (pos 1) (pos 8) 250000 busy
unfolding init acquire_round insert get after_acquire
busy-Reach = later (starts refl) (acquires node false true 0 1000000)

used_again-Reach : Reach (pos 1) (pos 8) 250000 used_again
unfolding acquire_round release insert get erase after_acquire after_release
used_again-Reach =
    later
      (later
        (later (later busy-Reach (releases 0 node 0 true 100 refl))
          (acquires node false true 200 1000200))
        (releases 0 node 0 true 300 refl))
      (acquires node false true 250300 1250300)

shut-Reach : Reach (pos 1) (pos 8) 250000 shut
unfolding close release get after_close after_release
shut-Reach = later (later used_again-Reach closes) (releases 0 node 1 true 260000 refl)

-- The constructor raised for the first connection: nothing is lent, and no connection can be made.
abbrev refused : System
refused = record busy { lent = []; leaked = node ∷ []; created_count = 0 }

refused-Reach : Reach (pos 1) (pos 8) 250000 refused
unfolding init acquire_round insert get after_acquire
refused-Reach = later (starts refl) (acquires node false false 0 1000000)

Reach-Inv_example : Inv shut
Reach-Inv_example = Reach-Inv shut-Reach

acquire_round-blocked_example : lent_at node refused.lent + leaked_at node refused.leaked ≡ 1
unfolding acquire_round insert get
acquire_round-blocked_example = acquire_round-blocked node false true 10 20 refused-Reach (inl refl)

acquire_round-fresh_example : (acquire_round node true true 10 20 used_again.pool).round ≢ reused 0
acquire_round-fresh_example = acquire_round-fresh node true 10 20 0 used_again.pool
