-- ===== src/Http/Pool/Request/Attempts.antt =====
-- How often a request is tried, and that it keeps no connection.
use new_pycloud.Base.{
  ℕ, zero, suc, ◌+◌, ◌≤◌, ◌≡◌, refl, Bool, true, ltb, List, [], ◌∷◌, Option, if◌then◌else◌, nat_eq,
  list_eq, arith,
}
use new_pycloud.Base.Text.{Text}
use new_pycloud.Base.Int.{ℤ}
use new_pycloud.Http.Pool.Request.{
  Attempt, raised_connection_error, PoolEvent, acquires, releases, retry_allowed, request_from,
  attempts, request,
}

-- Each connection acquired is the next thing that is released; only the first attempt, number
-- `first`, may take a connection that was used before; and only the last release may be of a
-- connection that is used again.
abbrev pub IsPaired : ℕ → List PoolEvent → Type 0
IsPaired attempt [] = Unit
IsPaired attempt (acquires c fresh ∷ releases d reusable ∷ events) =
    (c ≡ d)
    × (fresh ≡ ltb 0 attempt)
    × (reusable ≡ true → events ≡ [])
    × IsPaired (attempt + 1) events
IsPaired attempt _ = ⊥

abbrev pub acquire_count : List PoolEvent → ℕ
acquire_count [] = 0
acquire_count (acquires c fresh ∷ events) = suc (acquire_count events)
acquire_count (releases c reusable ∷ events) = acquire_count events

request_from-IsPaired :
    (limit : Option ℤ) (world : ℕ → Attempt) (attempt left : ℕ)
    → IsPaired attempt (request_from limit world attempt left).1
unfolding request_from
request_from-IsPaired limit world attempt zero = tt
request_from-IsPaired limit world attempt (suc left) =
    ground (arith, request_from-IsPaired limit world (attempt + 1) left)

request_from-le :
    (limit : Option ℤ) (world : ℕ → Attempt) (attempt left : ℕ)
    → acquire_count (request_from limit world attempt left).1 ≤ left
unfolding request_from
request_from-le limit world attempt zero = omega arith
request_from-le limit world attempt (suc left) =
    ground (arith, request_from-le limit world (attempt + 1) left)

request_from-all :
    (limit : Option ℤ) (world : ℕ → Attempt) (attempt left : ℕ)
    → (request_from limit world attempt left).0 ≡ raised_connection_error
    → acquire_count (request_from limit world attempt left).1 ≡ left
unfolding request_from
request_from-all limit world attempt zero e = refl
request_from-all limit world attempt (suc left) e =
    ground (arith, request_from-all limit world (attempt + 1) left)

-- However the other side behaves, a request releases every connection that it acquires before it
-- goes on, and its second attempt is on a fresh connection; it makes at most two attempts, and only
-- one if a retry is not allowed; and it ends with a connection error only after all of them.
pub request-IsPaired :
    (method : Text) (retry : Option Bool) (limit : Option ℤ) (world : ℕ → Attempt)
    → IsPaired 0 (request method retry limit world).1
      × (acquire_count (request method retry limit world).1
          ≤ (if retry_allowed method retry then 2 else 1))
      × ((request method retry limit world).0 ≡ raised_connection_error
          → acquire_count (request method retry limit world).1
            ≡ (if retry_allowed method retry then 2 else 1))
unfolding request
request-IsPaired method retry limit world = (
  request_from-IsPaired limit world 0 (attempts method retry),
  request_from-le limit world 0 (attempts method retry),
  request_from-all limit world 0 (attempts method retry),
)
