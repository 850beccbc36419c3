-- ===== src/Http/Pool/Invariant.antt =====
-- The agreement after any interleaving of the pool's users.
use new_pycloud.Base.{ℕ, zero, suc, ◌≡◌, refl, false, [], some, arith}
use new_pycloud.Base.Int.{ℤ, pos, negsuc}
use new_pycloud.Base.Dict.{get}
use new_pycloud.Http.Pool.{HttpConnectionPool, init, origin_state}
use new_pycloud.Http.Pool.Steps.{
  System, Step, acquires, releases, closes, start, Reach, starts, later,
}
use new_pycloud.Http.Pool.Consistent.{Inv}
use new_pycloud.Http.Pool.Acquire.{acquire_round-Inv}
use new_pycloud.Http.Pool.Release.{release-Inv, close-Inv}

empty_pool-Inv : (p : HttpConnectionPool) → p.closed ≡ false → p.origins ≡ [] → Inv (start p)
unfolding origin_state get
empty_pool-Inv p is_open none_yet = record {
  unique = ground arith;
  counted = λ o _. ground arith;
  limited = λ o. ground arith;
  forgotten = λ _. none_yet;
  placed = λ c. ground arith;
  kept = λ _. refl;
}

init-Inv :
    (limit idle_limit : ℤ) (ttl : ℕ) (p : HttpConnectionPool)
    → init limit idle_limit ttl ≡ some p
    → Inv (start p)
unfolding init
init-Inv (negsuc n) idle_limit ttl p e = cc
init-Inv (pos zero) idle_limit ttl p e = cc
init-Inv (pos (suc n)) (negsuc m) ttl p e = cc
init-Inv (pos (suc n)) (pos m) ttl p e = empty_pool-Inv p (ground arith) (ground arith)

Step-Inv : {s t : System} → Step s t → Inv s → Inv t
Step-Inv {s} (acquires o fresh constructs now deadline) v =
    acquire_round-Inv s o fresh constructs now deadline v
Step-Inv {s} (releases i o c reusable now at_i) v = release-Inv s i o c reusable now at_i v
Step-Inv {s} closes v = close-Inv s v

-- Whatever the order in which threads acquire, release and close, whatever the clock says, and
-- whichever constructions raise: while the pool is open, an origin counts exactly its idle and its
-- lent connections and the constructions for it that raised, never more than its limits, and once it
-- is closed it holds none; every connection that was ever created is in exactly one place, idle,
-- lent, closed once, or taken out of the pool and never closed; and the last happens only once a
-- construction has raised.
pub Reach-Inv : {limit idle_limit : ℤ} {ttl : ℕ} {s : System} → Reach limit idle_limit ttl s → Inv s
Reach-Inv {limit} {idle_limit} {ttl} (starts {p} e) = init-Inv limit idle_limit ttl p e
Reach-Inv (later r st) = Step-Inv st (Reach-Inv r)
