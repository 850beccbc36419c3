-- ===== src/Http/Pool/Acquire.antt =====
-- A round of `_acquire` keeps the pool and its users in agreement.
use new_pycloud.Base.{
  ℕ, suc, ◌+◌, ◌-◌, ◌≤◌, ◌<◌, ◌≡◌, refl, sym, subst, Bool, true, false, List, [], ◌∷◌, ◌++◌, arith,
  nat_eq, list_eq, pair_eq, length, total, total-append, ◌⊎◌, inl, inr, Bool-cases,
}
use new_pycloud.Base.Dict.{insert-HasUniqueKeys}
use new_pycloud.Http.Pool.{
  Origin, OriginState, HttpConnectionPool, Round, reused, created, not_created, waits, timed_out,
  pool_closed, expired, unexpired, drop_for_fresh, open_round, acquire_round, connections,
  origin_state, store,
}
use new_pycloud.Http.Pool.Steps.{System, after_acquire}
use new_pycloud.Http.Pool.Counting.{weigh, origin_state-store, idle_weight-store, origin_eq}
use new_pycloud.Http.Pool.Consistent.{Inv, is, trimmed, choose_connection_cases}

pub nil_of_length : {A : Type 0} (xs : List A) → length xs ≡ 0 → xs ≡ []
nil_of_length [] h = refl
nil_of_length (x ∷ xs) h = absurd (omega arith)

-- An open pool whose origin `o` is left with `rest` idle connections, `stale` having been dropped.
module _ (s : System) (o : Origin) (v : Inv s) (is_open : s.pool.closed ≡ false) (stale : List ℕ)
    (rest : List (ℕ × ℕ)) (sizes : length (origin_state o s.pool).idle ≡ length stale + length rest)
    (weights : (w : ℕ → ℕ)
      → weigh w (origin_state o s.pool).idle ≡ total w stale + weigh w rest) where
  abbrev left : OriginState
  left = record {
    connection_count = (origin_state o s.pool).connection_count - length stale;
    idle = rest;
  }

  reused-Inv :
      (c : ℕ) (idle : List (ℕ × ℕ))
      → length rest ≡ suc (length idle)
      → ((w : ℕ → ℕ) → weigh w rest ≡ w c + weigh w idle)
      → Inv (
          after_acquire o
            (record {
              pool = store o (record left { idle = idle }) s.pool;
              round = reused c;
              stale = stale;
            })
            s)
  unfolding after_acquire
  reused-Inv c idle shorter lighter = record {
    unique = insert-HasUniqueKeys o _ s.pool.origins v.unique;
    counted = λ j _. ground (
      arith,
      v.counted j is_open,
      v.counted o is_open,
      origin_state-store o j (record left { idle = idle }) s.pool,
      origin_eq.equal_iff o j,
    );
    limited = λ j. ground (
      arith,
      v.limited j,
      v.limited o,
      origin_state-store o j (record left { idle = idle }) s.pool,
    );
    forgotten = λ closed. cc;
    placed = λ x. omega (
      arith,
      v.placed x,
      weights (is x),
      lighter (is x),
      idle_weight-store (is x) o (record left { idle = idle }) s.pool,
      total-append (is x) stale s.closed_connections,
    );
    kept = v.kept;
  }

  created_pool :
      left.connection_count < s.pool.max_connections_per_origin
      → Inv (record s {
        pool = store o (record left { connection_count = left.connection_count + 1 }) s.pool;
        lent = (o, s.created_count) ∷ s.lent;
        closed_connections = stale ++ s.closed_connections;
        created_count = s.created_count + 1;
      })
  created_pool room = record {
    unique = insert-HasUniqueKeys o _ s.pool.origins v.unique;
    counted = λ j _. ground (
      arith,
      v.counted j is_open,
      v.counted o is_open,
      origin_state-store o j (record left { connection_count = left.connection_count + 1 }) s.pool,
      origin_eq.equal_iff o j,
    );
    limited = λ j. ground (
      arith,
      v.limited j,
      v.limited o,
      origin_state-store o j (record left { connection_count = left.connection_count + 1 }) s.pool,
    );
    forgotten = λ closed. cc;
    placed = λ x. ground (
      arith,
      v.placed x,
      weights (is x),
      idle_weight-store (is x) o (record left { connection_count = left.connection_count + 1 })
          s.pool,
      total-append (is x) stale s.closed_connections,
    );
    kept = v.kept;
  }

  not_created_pool :
      left.connection_count < s.pool.max_connections_per_origin
      → Inv (record s {
        pool = store o (record left { connection_count = left.connection_count + 1 }) s.pool;
        leaked = o ∷ s.leaked;
        lost = stale ++ s.lost;
      })
  not_created_pool room = record {
    unique = insert-HasUniqueKeys o _ s.pool.origins v.unique;
    counted = λ j _. ground (
      arith,
      v.counted j is_open,
      v.counted o is_open,
      origin_state-store o j (record left { connection_count = left.connection_count + 1 }) s.pool,
      origin_eq.equal_iff o j,
    );
    limited = λ j. ground (
      arith,
      v.limited j,
      v.limited o,
      origin_state-store o j (record left { connection_count = left.connection_count + 1 }) s.pool,
    );
    forgotten = λ closed. cc;
    placed = λ x. omega (
      arith,
      v.placed x,
      weights (is x),
      idle_weight-store (is x) o (record left { connection_count = left.connection_count + 1 })
          s.pool,
      total-append (is x) stale s.lost,
    );
    kept = λ none_leaked. cc;
  }

  created-Inv :
      (r : Round)
      → left.connection_count < s.pool.max_connections_per_origin
      → (r ≡ created) ⊎ (r ≡ not_created)
      → Inv (
          after_acquire o
            (record {
              pool = store o (record left { connection_count = left.connection_count + 1 }) s.pool;
              round = r;
              stale = stale;
            })
            s)
  unfolding after_acquire
  created-Inv r room (inl e) = rw (e, after_acquire) (created_pool room)
  created-Inv r room (inr e) = rw (e, after_acquire) (not_created_pool room)

  -- A full origin has lost nothing in this round, so there is nothing to close.
  none_dropped : s.pool.max_connections_per_origin ≤ left.connection_count → stale ≡ []
  none_dropped crowded = nil_of_length stale (omega (arith, v.counted o is_open, v.limited o))

  blocked_pool :
      s.pool.max_connections_per_origin ≤ left.connection_count
      → Inv (record s { pool = store o left s.pool; lost = stale ++ s.lost })
  blocked_pool crowded = record {
    unique = insert-HasUniqueKeys o _ s.pool.origins v.unique;
    counted = λ j _. ground (
      arith,
      v.counted j is_open,
      v.counted o is_open,
      origin_state-store o j left s.pool,
      origin_eq.equal_iff o j,
    );
    limited = λ j. ground (arith, v.limited j, v.limited o, origin_state-store o j left s.pool);
    forgotten = λ closed. cc;
    placed = λ x. omega (
      arith,
      v.placed x,
      weights (is x),
      weights (is x),
      total-append (is x) stale s.lost,
      idle_weight-store (is x) o left s.pool,
    );
    kept = λ none_leaked. rw (none_dropped crowded) (v.kept none_leaked);
  }

  blocked-Inv :
      (r : Round)
      → s.pool.max_connections_per_origin ≤ left.connection_count
      → (r ≡ timed_out) ⊎ (r ≡ waits)
      → Inv (after_acquire o (record { pool = store o left s.pool; round = r; stale = stale }) s)
  unfolding after_acquire
  blocked-Inv r crowded (inl e) = rw (e, after_acquire) (blocked_pool crowded)
  blocked-Inv r crowded (inr e) = rw (e, after_acquire) (blocked_pool crowded)

open_round-Inv :
    (s : System) (o : Origin) (fresh constructs : Bool) (now deadline : ℕ)
    → Inv s
    → s.pool.closed ≡ false
    → Inv (after_acquire o (open_round o fresh constructs now deadline s.pool) s)
unfolding open_round
open_round-Inv s o fresh constructs now deadline v is_open =
    choose_connection_cases o constructs now deadline stale (left s o v is_open stale rest t.0 t.1)
      s.pool (λ a. Inv (after_acquire o a s)) (created-Inv s o v is_open stale rest t.0 t.1)
      (blocked-Inv s o v is_open stale rest t.0 t.1) fresh
      (reused-Inv s o v is_open stale rest t.0 t.1)
  where
    idle : List (ℕ × ℕ)
    idle = (origin_state o s.pool).idle

    rest : List (ℕ × ℕ)
    rest = (drop_for_fresh fresh (unexpired s.pool.idle_ttl_sec now idle)).1

    stale : List ℕ
    stale = connections (
        expired s.pool.idle_ttl_sec now idle
        ++ (drop_for_fresh fresh (unexpired s.pool.idle_ttl_sec now idle)).0)

    t :
        (length idle ≡ length stale + length rest)
        × ((w : ℕ → ℕ) → weigh w idle ≡ total w stale + weigh w rest)
    t = trimmed fresh s.pool.idle_ttl_sec now idle

pub acquire_round-closed :
    (p : HttpConnectionPool) (o : Origin) (fresh constructs : Bool) (now deadline : ℕ)
    → p.closed ≡ true
    → acquire_round o fresh constructs now deadline p
      ≡ record { pool = p; round = pool_closed; stale = [] }
unfolding acquire_round
acquire_round-closed p o fresh constructs now deadline closed = ground arith

pub acquire_round-open :
    (p : HttpConnectionPool) (o : Origin) (fresh constructs : Bool) (now deadline : ℕ)
    → p.closed ≡ false
    → acquire_round o fresh constructs now deadline p ≡ open_round o fresh constructs now deadline p
unfolding acquire_round
acquire_round-open p o fresh constructs now deadline is_open = ground arith

-- One round of `_acquire`, at any time and for any origin, keeps the agreement.
pub acquire_round-Inv :
    (s : System) (o : Origin) (fresh constructs : Bool) (now deadline : ℕ)
    → Inv s
    → Inv (after_acquire o (acquire_round o fresh constructs now deadline s.pool) s)
unfolding after_acquire
acquire_round-Inv s o fresh constructs now deadline v = elim (Bool-cases s.pool.closed) [
  | inl closed ↦
      subst (λ a. Inv (after_acquire o a s))
        (sym (acquire_round-closed s.pool o fresh constructs now deadline closed)) v
  | inr is_open ↦
      rw (acquire_round-open s.pool o fresh constructs now deadline is_open)
        (open_round-Inv s o fresh constructs now deadline v is_open)
]
