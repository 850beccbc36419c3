-- ===== src/Http/Pool/Release.antt =====
-- `_release` and `close` keep the pool and its users in agreement.
use new_pycloud.Base.{
  ℕ, ◌+◌, ◌-◌, ◌<◌, ◌≡◌, ◌≢◌, refl, Bool, true, false, [], ◌∷◌, ◌++◌, none, some, arith,
  if◌then◌else◌, ◌==◌, nat_eq, list_eq, pair_eq, length, length-append, total-append, ◌⊎◌, inl, inr,
  Bool-cases, get_elem?, remove_at, total-remove_at, Option-cases,
}
use new_pycloud.Base.Dict.{get, insert-HasUniqueKeys, erase-HasUniqueKeys}
use new_pycloud.Http.Pool.{
  Origin, OriginState, HttpConnectionPool, release, close, origin_state, store, forget_one,
  all_idle,
}
use new_pycloud.Http.Pool.Steps.{System, after_release, after_close}
use new_pycloud.Http.Pool.Counting.{
  weigh-append, origin_state-store, origin_state-forget_one, idle_weight-store,
  idle_weight-forget_one, origin_eq, total-all_idle,
}
use new_pycloud.Http.Pool.Consistent.{Inv, is, lent_at, lent_as}

-- A thread gives back connection `c` of origin `o`, which stands at `i` in the list of lent ones.
module _ (s : System) (v : Inv s) (i : ℕ) (o : Origin) (c : ℕ)
    (at_i : get_elem? s.lent i ≡ some (o, c)) where
  lent_at_less :
      (j : Origin) → lent_at j (remove_at s.lent i) + (if o == j then 1 else 0) ≡ lent_at j s.lent
  lent_at_less j = total-remove_at (λ e. if e.0 == j then 1 else 0) s.lent i (o, c) at_i

  lent_as_less : (x : ℕ) → lent_as x (remove_at s.lent i) + is x c ≡ lent_as x s.lent
  lent_as_less x = total-remove_at (λ e. is x e.1) s.lent i (o, c) at_i

  -- The connection is closed, and its origin has one less.
  forget_one-Inv :
      s.pool.closed ≡ false
      → Inv (record s {
        pool = forget_one o (origin_state o s.pool) s.pool;
        lent = remove_at s.lent i;
        closed_connections = c ∷ s.closed_connections;
      })
  forget_one-Inv is_open = record {
    unique = ground (
      arith,
      insert-HasUniqueKeys o
          (record (origin_state o s.pool) {
            connection_count = (origin_state o s.pool).connection_count - 1;
          })
          s.pool.origins v.unique,
      erase-HasUniqueKeys o s.pool.origins v.unique,
    );
    counted = λ j _. ground (
      arith,
      v.counted j is_open,
      v.counted o is_open,
      lent_at_less j,
      lent_at_less o,
      origin_state-forget_one o j (origin_state o s.pool) s.pool,
      origin_eq.equal_iff o j,
      origin_eq.equal_iff o o,
    );
    limited = λ j. ground (
      arith,
      v.limited j,
      v.limited o,
      origin_state-forget_one o j (origin_state o s.pool) s.pool,
    );
    forgotten = λ closed. ground arith;
    placed = λ x. ground (
      arith,
      v.placed x,
      lent_as_less x,
      idle_weight-forget_one (is x) o (origin_state o s.pool) s.pool v.unique,
    );
    kept = v.kept;
  }

  -- The connection goes to the right end of the deque.
  park-Inv :
      (now : ℕ)
      → s.pool.closed ≡ false
      → length (origin_state o s.pool).idle < s.pool.max_idle_connections_per_origin
      → Inv (record s {
        pool =
            store o
              (record (origin_state o s.pool) {
                idle = (origin_state o s.pool).idle ++ (c, now) ∷ [];
              })
              s.pool;
        lent = remove_at s.lent i;
      })
  park-Inv now is_open room =
      let parked : OriginState = record (origin_state o s.pool) {
        idle = (origin_state o s.pool).idle ++ (c, now) ∷ [];
      } in
      let longer = length-append (origin_state o s.pool).idle ((c, now) ∷ []) in
      record {
        unique = insert-HasUniqueKeys o parked s.pool.origins v.unique;
        counted = λ j _. ground (
          arith,
          v.counted j is_open,
          v.counted o is_open,
          lent_at_less j,
          longer,
          origin_state-store o j parked s.pool,
          origin_eq.equal_iff o j,
        );
        limited = λ j.
            ground (arith, v.limited j, v.limited o, longer, origin_state-store o j parked s.pool);
        forgotten = λ closed. cc;
        placed = λ x. omega (
          arith,
          v.placed x,
          lent_as_less x,
          weigh-append (is x) (origin_state o s.pool).idle ((c, now) ∷ []),
          idle_weight-store (is x) o parked s.pool,
        );
        kept = v.kept;
      }

  -- The pool has been closed in the meantime: the connection is closed too.
  closed-Inv :
      s.pool.closed ≡ true
      → Inv (record s { lent = remove_at s.lent i; closed_connections = c ∷ s.closed_connections })
  closed-Inv closed = record {
    unique = v.unique;
    counted = λ j is_open. cc;
    limited = v.limited;
    forgotten = v.forgotten;
    placed = λ x. omega (arith, v.placed x, lent_as_less x);
    kept = v.kept;
  }

  known_origin : s.pool.closed ≡ false → get o s.pool.origins ≢ none
  unfolding origin_state
  known_origin is_open absent =
      ground (arith, v.counted o is_open, lent_at_less o, origin_eq.equal_iff o o)

release-closed :
    (p : HttpConnectionPool) (o : Origin) (c : ℕ) (reusable : Bool) (now : ℕ)
    → p.origins ≡ []
    → release o c reusable now p ≡ (p, true)
unfolding release get
release-closed p o c reusable now e = ground arith

release-open :
    (p : HttpConnectionPool) (o : Origin) (c : ℕ) (reusable : Bool) (now : ℕ)
    → p.closed ≡ false
    → get o p.origins ≢ none
    → (release o c reusable now p ≡ (forget_one o (origin_state o p) p, true))
      ⊎ ((length (origin_state o p).idle < p.max_idle_connections_per_origin)
          × (release o c reusable now p ≡ (
            store o
                (record (origin_state o p) { idle = (origin_state o p).idle ++ (c, now) ∷ [] })
                p,
            false,
          )))
unfolding release origin_state
release-open p o c reusable now is_open known = elim (Option-cases (get o p.origins)) [
  | inl absent ↦ absurd (known absent)
  | inr (st, e) ↦ ground arith
]

-- A release, of any connection that is lent, at any time and in any state of the pool, keeps the
-- agreement.
pub release-Inv :
    (s : System) (i : ℕ) (o : Origin) (c : ℕ) (reusable : Bool) (now : ℕ)
    → get_elem? s.lent i ≡ some (o, c)
    → Inv s
    → Inv (after_release i o c reusable now s)
unfolding after_release
release-Inv s i o c reusable now at_i v = elim (Bool-cases s.pool.closed) [
  | inl closed ↦
      rw (release-closed s.pool o c reusable now (v.forgotten closed))
        (closed-Inv s v i o c at_i closed)
  | inr is_open ↦
      elim (release-open s.pool o c reusable now is_open (known_origin s v i o c at_i is_open)) [
        | inl e ↦ rw e (forget_one-Inv s v i o c at_i is_open)
        | inr (room, e) ↦ rw e (park-Inv s v i o c at_i now is_open room)
      ]
]

close-open :
    (p : HttpConnectionPool)
    → p.closed ≡ false
    → close p ≡ (record p { closed = true; origins = [] }, all_idle p.origins)
unfolding close
close-open p is_open = ground arith

close-closed : (p : HttpConnectionPool) → p.closed ≡ true → close p ≡ (p, [])
unfolding close
close-closed p closed = ground arith

-- `close` keeps the agreement: what was idle is closed, and what is lent will be.
pub close-Inv : (s : System) → Inv s → Inv (after_close s)
unfolding after_close origin_state get
close-Inv s v = elim (Bool-cases s.pool.closed) [
  | inl closed ↦ rw (close-closed s.pool closed) v
  | inr is_open ↦ rw (close-open s.pool is_open) (record {
    unique = tt;
    counted = λ j is_open'. cc;
    limited = λ j. omega arith;
    forgotten = λ _. refl;
    placed = λ x. omega (
      arith,
      v.placed x,
      total-append (is x) (all_idle s.pool.origins) s.closed_connections,
      total-all_idle (is x) s.pool.origins,
    );
    kept = v.kept;
  })
]
