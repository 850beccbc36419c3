-- ===== src/Http/Pool/Limits.antt =====
-- When a thread has to wait, and what a fresh connection is.
use new_pycloud.Base.{
  ℕ, ◌+◌, ◌-◌, ◌≤◌, ◌≡◌, ◌≢◌, refl, ap, Bool, true, false, List, [], ◌∷◌, ◌++◌, none, arith, ◌⊎◌,
  inl, inr, length, Bool-cases, subst,
}
use new_pycloud.Base.Int.{ℤ}
use new_pycloud.Http.Pool.{
  Origin, OriginState, HttpConnectionPool, Round, reused, waits, timed_out, pool_closed,
  choose_connection, make_connection, open_round, acquire_round, pop_right, expired, unexpired,
  drop_for_fresh, connections, origin_state,
}
use new_pycloud.Http.Pool.Steps.{System, Reach}
use new_pycloud.Http.Pool.Counting.{pop_right_cases}
use new_pycloud.Http.Pool.Consistent.{Inv, lent_at, leaked_at, trimmed}
use new_pycloud.Http.Pool.Acquire.{acquire_round-open, acquire_round-closed, nil_of_length}
use new_pycloud.Http.Pool.Invariant.{Reach-Inv}

-- The round got no connection from an open pool.
abbrev pub IsBlocked : Round → Type 0
IsBlocked r = (r ≡ waits) ⊎ (r ≡ timed_out)

choose_connection-blocked :
    (o : Origin) (fresh constructs : Bool) (now deadline : ℕ) (stale : List ℕ) (st : OriginState)
    (p : HttpConnectionPool)
    → IsBlocked (choose_connection o fresh constructs now deadline stale st p).round
    → (p.max_connections_per_origin ≤ st.connection_count)
      × (fresh ≡ false → pop_right st.idle ≡ none)
unfolding choose_connection make_connection
choose_connection-blocked o fresh constructs now deadline stale st p b = ground arith

drop_for_fresh-nil :
    (idle : List (ℕ × ℕ)) → (drop_for_fresh true idle).0 ≡ [] → (drop_for_fresh true idle).1 ≡ []
unfolding drop_for_fresh
drop_for_fresh-nil [] h = refl
drop_for_fresh-nil (e ∷ idle) h = cc

right_of_no_connections : (xs ys : List (ℕ × ℕ)) → connections (xs ++ ys) ≡ [] → ys ≡ []
right_of_no_connections [] [] h = refl
right_of_no_connections [] (y ∷ ys) h = cc
right_of_no_connections (x ∷ xs) ys h = cc

nil_of_pop_right : (idle : List (ℕ × ℕ)) → pop_right idle ≡ none → idle ≡ []
nil_of_pop_right idle h = elim (pop_right_cases idle) [
  | inl (e, _) ↦ e
  | inr (c, rest, e, _, _) ↦ cc
]

-- Nothing idle is left in an origin whose round dropped nothing and chose nothing.
nothing_idle :
    (fresh : Bool) (old idle : List (ℕ × ℕ))
    → connections (old ++ (drop_for_fresh fresh idle).0) ≡ []
    → (fresh ≡ false → pop_right (drop_for_fresh fresh idle).1 ≡ none)
    → (drop_for_fresh fresh idle).1 ≡ []
nothing_idle true old idle h p = drop_for_fresh-nil idle (right_of_no_connections old _ h)
nothing_idle false old idle h p = nil_of_pop_right _ (p refl)

open_round-blocked :
    (s : System) (o : Origin) (fresh constructs : Bool) (now deadline : ℕ)
    → Inv s
    → s.pool.closed ≡ false
    → IsBlocked (open_round o fresh constructs now deadline s.pool).round
    → s.pool.max_connections_per_origin ≤ lent_at o s.lent + leaked_at o s.leaked
unfolding open_round
open_round-blocked s o fresh constructs now deadline v is_open b =
    let idle : List (ℕ × ℕ) = (origin_state o s.pool).idle in
    let old : List (ℕ × ℕ) = expired s.pool.idle_ttl_sec now idle in
    let young : List (ℕ × ℕ) = unexpired s.pool.idle_ttl_sec now idle in
    let stale : List ℕ = connections (old ++ (drop_for_fresh fresh young).0) in
    let t = trimmed fresh s.pool.idle_ttl_sec now idle in
    let left : OriginState = record {
      connection_count = (origin_state o s.pool).connection_count - length stale;
      idle = (drop_for_fresh fresh young).1;
    } in
    let (crowded, unchosen) =
      choose_connection-blocked o fresh constructs now deadline stale left s.pool b in
    let nothing_stale : stale ≡ [] =
      nil_of_length stale (omega (arith, v.counted o is_open, v.limited o, t.0)) in
    omega (
      arith,
      v.counted o is_open,
      t.0,
      ap length nothing_stale,
      ap length (nothing_idle fresh old young nothing_stale unchosen),
    )

pool_closed-not-IsBlocked : ¬ IsBlocked pool_closed
pool_closed-not-IsBlocked (inl e) = cc
pool_closed-not-IsBlocked (inr e) = cc

-- In every reachable open pool, a thread waits for a connection of an origin, or times out, only
-- if the connections of that origin that are lent to threads and the constructions for it that raised
-- are together as many as the pool allows: never while one is idle or the count leaves room.
pub acquire_round-blocked :
    {limit idle_limit : ℤ} {ttl : ℕ} {s : System} (o : Origin) (fresh constructs : Bool)
    (now deadline : ℕ)
    → Reach limit idle_limit ttl s
    → IsBlocked (acquire_round o fresh constructs now deadline s.pool).round
    → lent_at o s.lent + leaked_at o s.leaked ≡ s.pool.max_connections_per_origin
acquire_round-blocked {s} o fresh constructs now deadline r b =
    let v = Reach-Inv r in
    elim (Bool-cases s.pool.closed) [
      | inl closed ↦ absurd (
          pool_closed-not-IsBlocked (
            subst (λ a. IsBlocked a.round)
              (acquire_round-closed s.pool o fresh constructs now deadline closed) b))
      | inr is_open ↦ omega (
        arith,
        v.counted o is_open,
        v.limited o,
        open_round-blocked s o fresh constructs now deadline v is_open (
            subst (λ a. IsBlocked a.round)
              (acquire_round-open s.pool o fresh constructs now deadline is_open) b),
      )
    ]

-- Where a fresh connection is required, a round never hands out an idle one, in any pool.
pub acquire_round-fresh :
    (o : Origin) (constructs : Bool) (now deadline c : ℕ) (p : HttpConnectionPool)
    → (acquire_round o true constructs now deadline p).round ≢ reused c
unfolding acquire_round choose_connection make_connection
acquire_round-fresh o constructs now deadline c p = ground arith
