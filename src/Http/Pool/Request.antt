-- ===== src/Http/Pool/Request.antt =====
-- `HttpConnectionPool.request`: the attempts, and what it does with their connections. What the
-- other side does in an attempt is an argument.
pub mod Attempts
pub mod Samples
use new_pycloud.Base.{
  ℕ, zero, suc, ◌+◌, min, Bool, true, false, not, ◌&&◌, ◌||◌, ltb, leb, List, [], ◌∷◌, Option, none,
  some, if◌then◌else◌, ◌==◌, nat_eq, list_eq,
}
use new_pycloud.Base.Text.{Text, codes, lower, upper}
use new_pycloud.Base.Int.{ℤ, pos, negsuc, pos_part}

-- A response, with the length of its whole body.
pub record Response : Type 0 where
  pub status : ℕ
  pub will_close : Bool
  pub connection_header : Text
  pub body_length : ℕ

-- How the exchange over a connection ends: with a response, with an OSError or HTTPException, or
-- with another exception.
pub data Exchange : Type 0 where
  responded : (response : Response) → Exchange
  connection_error : Exchange
  other_error : Exchange

-- `_acquire` of an attempt, which returns a connection or raises, and the exchange over it.
pub record Attempt : Type 0 where
  pub acquired : Option ℕ
  pub exchange : Exchange

pub data Ending : Type 0 where
  returned : (response : Response) → Ending
  not_acquired : Ending
  raised_connection_error : Ending
  raised_other_error : Ending

-- What the pool is asked for, in order.
pub data PoolEvent : Type 0 where
  acquires : (connection : ℕ) (require_fresh : Bool) → PoolEvent
  releases : (connection : ℕ) (reusable : Bool) → PoolEvent

pub retry_allowed : Text → Option Bool → Bool
retry_allowed method none =
    upper method == codes "GET" || (upper method == codes "HEAD" || upper method == codes "OPTIONS")
retry_allowed method (some retry) = retry

-- How much of the body is read, and whether it is within the limit.
abbrev pub body_read : Option ℤ → ℕ → ℕ
body_read none n = n
body_read (some limit) n = min (pos_part limit + 1) n

abbrev pub within_limit : Option ℤ → ℕ → Bool
within_limit none n = true
within_limit (some (pos limit)) n = leb n limit
within_limit (some (negsuc limit)) n = false

pub is_reusable : Option ℤ → Response → Bool
is_reusable limit r =
    within_limit limit (body_read limit r.body_length)
    && (ltb r.status 400 && (not r.will_close && not (lower r.connection_header == codes "close")))

-- The loop from an attempt on, of which so many are left.
pub request_from : Option ℤ → (ℕ → Attempt) → ℕ → ℕ → Ending × List PoolEvent
unfolding is_reusable
request_from limit world attempt zero = (raised_connection_error, [])
request_from limit world attempt (suc left) =
    let rest = request_from limit world (attempt + 1) left in
    elim (world attempt).acquired [
      | none ↦ (not_acquired, [])
      | some c ↦
          let start : PoolEvent = acquires c (ltb 0 attempt) in
          elim (world attempt).exchange [
            | responded r ↦ (returned r, start ∷ releases c (is_reusable limit r) ∷ [])
            | other_error ↦ (raised_other_error, start ∷ releases c false ∷ [])
            | connection_error ↦
                if left == 0
                then (raised_connection_error, start ∷ releases c false ∷ [])
                else (rest.0, start ∷ releases c false ∷ rest.1)
          ]
    ]

abbrev pub attempts : Text → Option Bool → ℕ
attempts method retry = if retry_allowed method retry then 2 else 1

pub request : Text → Option Bool → Option ℤ → (ℕ → Attempt) → Ending × List PoolEvent
unfolding request_from retry_allowed
request method retry limit world = request_from limit world 0 (attempts method retry)
