-- ===== src/Http/Pool/Consistent.antt =====
-- When the pool and the threads that hold its connections agree, and the case rules for a round.
use new_pycloud.Base.{
  ℕ, suc, ◌+◌, ◌≤◌, ◌<◌, ◌≡◌, refl, ap, Bool, true, false, List, [], ◌∷◌, ◌++◌, arith,
  if◌then◌else◌, ◌==◌, nat_beq, nat_eq, list_eq, pair_eq, length, length-append, total, ◌⊎◌, inl,
  inr, ltb, ltb→lt, Bool-cases,
}
use new_pycloud.Base.Dict.{HasUniqueKeys}
use new_pycloud.Http.Pool.{
  Origin, OriginState, HttpConnectionPool, Acquired, Round, reused, created, not_created, waits,
  timed_out, expired, unexpired, drop_for_fresh, make_connection, choose_connection, connections,
  origin_state, store,
}
use new_pycloud.Http.Pool.Steps.{System}
use new_pycloud.Http.Pool.Counting.{
  expired-append-unexpired, drop_for_fresh-append, weigh, weigh-append, pop_right_cases,
  idle_weight,
}

abbrev pub is : ℕ → ℕ → ℕ
is c x = if nat_beq x c then 1 else 0

-- The connections of an origin that are lent, and the times that a connection is.
abbrev pub lent_at : Origin → List (Origin × ℕ) → ℕ
lent_at o = total λ e. if e.0 == o then 1 else 0

-- How often the count of an origin was raised for nothing.
abbrev pub leaked_at : Origin → List Origin → ℕ
leaked_at o = total λ j. if j == o then 1 else 0

abbrev pub lent_as : ℕ → List (Origin × ℕ) → ℕ
lent_as c = total λ e. is c e.1

pub record Inv (s : System) : Type 0 where
  pub unique : HasUniqueKeys s.pool.origins
  pub counted :
      (o : Origin)
      → s.pool.closed ≡ false
      → (origin_state o s.pool).connection_count
        ≡ length (origin_state o s.pool).idle + lent_at o s.lent + leaked_at o s.leaked
  pub limited :
      (o : Origin)
      → ((origin_state o s.pool).connection_count ≤ s.pool.max_connections_per_origin)
        × (length (origin_state o s.pool).idle ≤ s.pool.max_idle_connections_per_origin)
  pub forgotten : s.pool.closed ≡ true → s.pool.origins ≡ []
  pub placed :
      (c : ℕ)
      → idle_weight (is c) s.pool
          + lent_as c s.lent
          + total (is c) s.closed_connections
          + total (is c) s.lost
        ≡ (if ltb c s.created_count then 1 else 0)
  pub kept : s.leaked ≡ [] → s.lost ≡ []

length-connections : (idle : List (ℕ × ℕ)) → length (connections idle) ≡ length idle
length-connections [] = refl
length-connections (x ∷ xs) = ap suc (length-connections xs)

-- The parts of a round, as numbers: what was there, what is dropped and what stays.
pub trimmed :
    (fresh : Bool) (ttl now : ℕ) (idle : List (ℕ × ℕ))
    → let old = expired ttl now idle in
      let (dropped, rest) = drop_for_fresh fresh (unexpired ttl now idle) in
      (length idle ≡ length (connections (old ++ dropped)) + length rest)
      × ((w : ℕ → ℕ) → weigh w idle ≡ weigh w (old ++ dropped) + weigh w rest)
trimmed fresh ttl now idle =
    let old = expired ttl now idle in
    let dropped = (drop_for_fresh fresh (unexpired ttl now idle)).0 in
    let rest = (drop_for_fresh fresh (unexpired ttl now idle)).1 in
    let whole = expired-append-unexpired ttl now idle in
    let split = drop_for_fresh-append fresh (unexpired ttl now idle) in
    (
      omega (
        arith,
        ap length whole,
        ap length split,
        length-connections (old ++ dropped),
        length-append old dropped,
        length-append old (unexpired ttl now idle),
        length-append dropped rest,
      ),
      λ w. omega (
        arith,
        ap (weigh w) whole,
        ap (weigh w) split,
        weigh-append w old (unexpired ttl now idle),
        weigh-append w old dropped,
        weigh-append w dropped rest,
      ),
    )

module _ (o : Origin) (constructs : Bool) (now deadline : ℕ) (stale : List ℕ) (st : OriginState)
    (p : HttpConnectionPool) (P : Acquired → Type 0)
    (makes : (r : Round)
      → st.connection_count < p.max_connections_per_origin
      → (r ≡ created) ⊎ (r ≡ not_created)
      → P (record {
        pool = store o (record st { connection_count = st.connection_count + 1 }) p;
        round = r;
        stale = stale;
      }))
    (blocks : (r : Round)
      → p.max_connections_per_origin ≤ st.connection_count
      → (r ≡ timed_out) ⊎ (r ≡ waits)
      → P (record { pool = store o st p; round = r; stale = stale })) where
  make_connection_cases : P (make_connection o constructs now deadline stale st p)
  unfolding make_connection
  make_connection_cases = elim (Bool-cases (ltb st.connection_count p.max_connections_per_origin)) [
    | inl room ↦ rw room (makes _ (ltb→lt _ _ room) (ground arith))
    | inr crowded ↦ rw crowded (blocks _ (ground arith) (ground arith))
  ]

  -- The ways in which a round ends behind the removal of stale connections.
  pub choose_connection_cases :
      (fresh : Bool)
      → ((c : ℕ) (rest : List (ℕ × ℕ))
          → length st.idle ≡ suc (length rest)
          → ((w : ℕ → ℕ) → weigh w st.idle ≡ w c + weigh w rest)
          → P (record {
            pool = store o (record st { idle = rest }) p;
            round = reused c;
            stale = stale;
          }))
      → P (choose_connection o fresh constructs now deadline stale st p)
  unfolding choose_connection
  choose_connection_cases true picks = make_connection_cases
  choose_connection_cases false picks = elim (pop_right_cases st.idle) [
    | inl (_, e) ↦ rw (e, choose_connection) make_connection_cases
    | inr (c, rest, e, l, t) ↦ rw (e, choose_connection) (picks c rest l t)
  ]
