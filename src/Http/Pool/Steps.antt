-- ===== src/Http/Pool/Steps.antt =====
-- The threads that share the pool: who holds which connection, which ones have been closed, and
-- what one round of a thread does to that. Every new connection is the next number.
use new_pycloud.Base.{
  ℕ, ◌+◌, ◌≡◌, Bool, List, [], ◌∷◌, ◌++◌, some, if◌then◌else◌, get_elem?, remove_at,
}
use new_pycloud.Base.Int.{ℤ}
use new_pycloud.Http.Pool.{
  Origin, HttpConnectionPool, reused, created, not_created, Acquired, init, acquire_round, release,
  close,
}

pub record System : Type 0 where
  pub pool : HttpConnectionPool
  -- Handed to a thread and not yet released.
  pub lent : List (Origin × ℕ)
  pub closed_connections : List ℕ
  -- The origins whose count was raised for a connection that was not constructed, once for each.
  pub leaked : List Origin
  -- Taken out of the pool by a round that did not return a connection: nobody closes them.
  pub lost : List ℕ
  pub created_count : ℕ

-- After the round, the lock is released; the stale connections are closed if it got a connection.
unfoldable pub after_acquire : Origin → Acquired → System → System
after_acquire origin a s = elim a.round [
  | reused c ↦ record s {
    pool = a.pool;
    lent = (origin, c) ∷ s.lent;
    closed_connections = a.stale ++ s.closed_connections;
  }
  | created ↦ record s {
    pool = a.pool;
    lent = (origin, s.created_count) ∷ s.lent;
    closed_connections = a.stale ++ s.closed_connections;
    created_count = s.created_count + 1;
  }
  | not_created ↦ record s { pool = a.pool; leaked = origin ∷ s.leaked; lost = a.stale ++ s.lost }
  | _ ↦ record s { pool = a.pool; lost = a.stale ++ s.lost }
]

unfoldable pub after_release : ℕ → Origin → ℕ → Bool → ℕ → System → System
after_release i origin c reusable now s =
    let (pool, close_connection) = release origin c reusable now s.pool in
    record s {
      pool = pool;
      lent = remove_at s.lent i;
      closed_connections =
          if close_connection then c ∷ s.closed_connections else s.closed_connections;
    }

unfoldable pub after_close : System → System
after_close s =
    let (pool, idle) = close s.pool in
    record s { pool = pool; closed_connections = idle ++ s.closed_connections }

pub data Step (s : System) : System → Type 0 where
  acquires :
      (origin : Origin) (require_fresh constructs : Bool) (now deadline : ℕ)
      → Step s (
          after_acquire origin
            (acquire_round origin require_fresh constructs now deadline s.pool)
            s)
  releases :
      (i : ℕ) (origin : Origin) (c : ℕ) (reusable : Bool) (now : ℕ)
      → get_elem? s.lent i ≡ some (origin, c)
      → Step s (after_release i origin c reusable now s)
  closes : Step s (after_close s)

abbrev pub start : HttpConnectionPool → System
start p = record {
  pool = p;
  lent = [];
  closed_connections = [];
  leaked = [];
  lost = [];
  created_count = 0;
}

pub data Reach (limit idle_limit : ℤ) (ttl : ℕ) : System → Type 0 where
  starts :
      {p : HttpConnectionPool}
      → init limit idle_limit ttl ≡ some p
      → Reach limit idle_limit ttl (start p)
  later : {s t : System} → Reach limit idle_limit ttl s → Step s t → Reach limit idle_limit ttl t
