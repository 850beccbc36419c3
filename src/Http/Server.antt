-- ===== src/Http/Server.antt =====
-- BoundedThreadPoolHTTPServer: the state that its threads share, and what each of them does to it
-- between two points at which another thread may run. A request is the identity of its socket.
-- What is written to a socket, and the waiting, are not modelled.
pub mod Steps
pub mod Invariant
pub mod Shutdown
pub mod Scenarios
use new_pycloud.Base.{
  ℕ, zero, suc, ◌+◌, max, Bool, true, false, not, ◌||◌, List, [], ◌∷◌, ◌++◌, Option, none, some,
  if◌then◌else◌, ltb, nat_beq, keep, set, replicate,
}
use new_pycloud.Base.Int.{ℤ, pos, negsuc}

-- A worker thread waits in `_request_queue.get`, runs `finish_request`, has left the set of active
-- requests but not yet released its slot, or has returned.
pub data Worker : Type 0 where
  waiting : Worker
  serving : (request : ℕ) → Worker
  leaving : Worker
  exited : Worker

-- The thread in `server_close`: not there yet, emptying the queue, or behind that.
pub data Closer : Type 0 where
  not_closing draining drained : Closer

pub record Server : Type 0 where
  pub max_workers : ℕ
  pub queue_capacity : ℕ
  pub request_queue_size : ℕ
  pub request_slots : ℕ
  pub active_requests : List ℕ
  pub workers_closed : Bool
  pub rejected_requests : ℕ
  -- `none` tells a worker to return.
  pub request_queue : List (Option ℕ)
  pub worker_threads : List Worker
  pub closer : Closer

pub init : ℤ → ℤ → Option Server
init (negsuc w) q = none
init (pos zero) q = none
init (pos (suc w)) (negsuc q) = none
init (pos (suc w)) (pos q) = some (record {
  max_workers = suc w;
  queue_capacity = q;
  request_queue_size = max 1 (suc w + q);
  request_slots = suc w + q;
  active_requests = [];
  workers_closed = false;
  rejected_requests = 0;
  request_queue = [];
  worker_threads = replicate (suc w) waiting;
  closer = not_closing;
})

-- `BoundedSemaphore.acquire(blocking=False)`: the slots left, if there was one.
pub acquire_slot : ℕ → Option ℕ
acquire_slot zero = none
acquire_slot (suc n) = some n

-- `BoundedSemaphore.release`: `none` is the ValueError of a release too many.
pub release_slot : Server → Option Server
release_slot s =
    if ltb s.request_slots (s.max_workers + s.queue_capacity)
    then some (record s { request_slots = s.request_slots + 1 })
    else none

reject : Server → Server
reject s = record s { rejected_requests = s.rejected_requests + 1 }

pub process_request : ℕ → Server → Server
unfolding acquire_slot reject
process_request request s =
    if s.workers_closed then reject s else elim (acquire_slot s.request_slots) [
      | none ↦ reject s
      | some left ↦ record s {
        request_slots = left;
        active_requests = request ∷ s.active_requests;
        request_queue = s.request_queue ++ some request ∷ [];
      }
    ]

-- `set.discard`
abbrev pub discard : ℕ → List ℕ → List ℕ
discard request = keep λ r. not (nat_beq r request)

-- `_worker_loop`, thread i: the item that `get` returns.
pub get_item : ℕ → Option ℕ → List (Option ℕ) → Server → Server
get_item i none rest s = record s {
  request_queue = rest;
  worker_threads = set s.worker_threads i exited;
}
get_item i (some request) rest s = record s {
  request_queue = rest;
  worker_threads = set s.worker_threads i (serving request);
}

-- `_process_request`, behind `finish_request` and its error handler.
pub finish_request : ℕ → ℕ → Server → Server
finish_request i request s = record s {
  active_requests = discard request s.active_requests;
  worker_threads = set s.worker_threads i leaving;
}

pub leave_request : ℕ → Server → Option Server
unfolding release_slot
leave_request i s = release_slot (record s { worker_threads = set s.worker_threads i waiting })

-- `server_close`: its first block, one round of its loop, and the `None` for each worker.
pub begin_close : Server → Server
begin_close s =
    if s.workers_closed then s else record s { workers_closed = true; closer = draining }

pub drain_round : Server → Option Server
unfolding release_slot
drain_round s = elim s.request_queue [
  | [] ↦ some (record s { request_queue = replicate s.max_workers none; closer = drained })
  | none ∷ rest ↦ some (record s { request_queue = rest })
  | some request ∷ rest ↦
      release_slot
        (record s { request_queue = rest; active_requests = discard request s.active_requests })
]
