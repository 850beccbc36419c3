-- ===== src/Http/Server/Shutdown.antt =====
-- What follows for every reachable server: admission is exact, no release is one too many, and no
-- worker is left behind without its `None`.
use new_pycloud.Base.{
  ℕ, ◌+◌, ◌-◌, ◌⊎◌, total-add-le, get_elem?-set_self, ◌≤◌, ◌<◌, ◌≡◌, refl, ap, ◌↔◌, true, false,
  List, [], ◌∷◌, ◌++◌, Option, none, some, arith, set, get_elem?, total, le-total_of_get_elem?, inl,
  inr, replicate,
}
use new_pycloud.Base.Int.{ℤ}
use new_pycloud.Http.Server.{
  Server, Worker, waiting, serving, leaving, exited, draining, drained, process_request, discard,
  get_item, leave_request, drain_round,
}
use new_pycloud.Http.Server.Steps.{Reach}
use new_pycloud.Http.Server.Invariant.{
  Inv, Reach-Consistent, capacity, is_request, is_sentinel, is_busy, is_exited,
}

-- The connections that hold a slot: queued, or with a worker.
abbrev pub held : Server → ℕ
held s = total is_request s.request_queue + total is_busy s.worker_threads

process_request_cases :
    (r : ℕ) (s : Server)
    → Inv s
    → ((s.workers_closed ≡ false)
        × (held s < capacity s)
        × (process_request r s ≡ record s {
          request_slots = s.request_slots - 1;
          active_requests = r ∷ s.active_requests;
          request_queue = s.request_queue ++ some r ∷ [];
        }))
      ⊎ (((s.workers_closed ≡ true) ⊎ (held s ≡ capacity s))
          × (process_request r s ≡ record s { rejected_requests = s.rejected_requests + 1 }))
unfolding process_request
process_request_cases r s v = ground (arith, v.slots)

-- In every reachable server, a connection is queued and listed as active exactly when the server is
-- not closed and fewer than max_workers + queue_capacity connections hold a slot; any other one is
-- counted as rejected and changes nothing else. The slots held never exceed that bound.
pub process_request_admits :
    {w q : ℤ} {s : Server} (r : ℕ)
    → Reach w q s
    → (held s ≤ capacity s)
      × (((s.workers_closed ≡ false) × (held s < capacity s)) ↔ (
          process_request r s ≡ record s {
            request_slots = s.request_slots - 1;
            active_requests = r ∷ s.active_requests;
            request_queue = s.request_queue ++ some r ∷ [];
          }))
      × ((¬ ((s.workers_closed ≡ false) × (held s < capacity s)))
          → process_request r s ≡ record s { rejected_requests = s.rejected_requests + 1 })
process_request_admits {s} r reach =
    let v = Reach-Consistent reach in
    let cases = process_request_cases r s v in
    (omega (arith, v.slots), ground (arith, cases), ground (arith, cases))

-- In every reachable server, neither a worker that is done with a request nor the closing thread
-- releases a slot that nobody holds: the semaphore raises no ValueError.
pub release_never_raises :
    {w q : ℤ} {s : Server}
    → Reach w q s
    → ((i : ℕ)
        → get_elem? s.worker_threads i ≡ some leaving
        → (t : Server) × (leave_request i s ≡ some t))
      × (s.closer ≡ draining → (t : Server) × (drain_round s ≡ some t))
unfolding leave_request drain_round
release_never_raises {s} reach = (left, drain s.request_queue refl)
  where
    v : Inv s
    v = Reach-Consistent reach

    left :
        (i : ℕ)
        → get_elem? s.worker_threads i ≡ some leaving
        → (t : Server) × (leave_request i s ≡ some t)
    left i at_i = (
      record s {
        worker_threads = set s.worker_threads i waiting;
        request_slots = s.request_slots + 1;
      },
      ground (arith, v.slots, le-total_of_get_elem? is_busy s.worker_threads i leaving at_i),
    )

    drain :
        (queue : List (Option ℕ))
        → s.request_queue ≡ queue
        → s.closer ≡ draining
        → (t : Server) × (drain_round s ≡ some t)
    drain [] e d =
        (record s { request_queue = replicate s.max_workers none; closer = drained }, ground arith)
    drain (none ∷ rest) e d = (record s { request_queue = rest }, ground arith)
    drain (some r ∷ rest) e d = (
      record s {
        request_queue = rest;
        active_requests = discard r s.active_requests;
        request_slots = s.request_slots + 1;
      },
      ground (arith, v.slots),
    )

abbrev is_waiting : Worker → ℕ
is_waiting waiting = 1
is_waiting _ = 0

only_sentinels :
    (queue : List (Option ℕ))
    → total is_request queue ≡ 0
    → ((total is_sentinel queue ≡ 0) × (queue ≡ []))
      ⊎ ((rest : List (Option ℕ)) × (queue ≡ none ∷ rest))
only_sentinels [] h = inl (refl, refl)
only_sentinels (none ∷ rest) h = inr (rest, refl)
only_sentinels (some r ∷ rest) h = absurd (omega arith)

waiting_or_exited : (a : Worker) → is_waiting a + is_exited a ≤ 1
waiting_or_exited waiting = omega arith
waiting_or_exited (serving r) = omega arith
waiting_or_exited leaving = omega arith
waiting_or_exited exited = omega arith

-- In every reachable server whose queue has been emptied by the closing thread, a worker that waits
-- finds a `None` and returns next; and when all workers have returned, nothing is left in the queue.
pub drained_workers_return :
    {w q : ℤ} {s : Server}
    → Reach w q s
    → s.closer ≡ drained
    → ((i : ℕ)
        → get_elem? s.worker_threads i ≡ some waiting
        → (rest : List (Option ℕ)) × (s.request_queue ≡ none ∷ rest)
          × (get_elem? (get_item i none rest s).worker_threads i ≡ some exited))
      × (total is_exited s.worker_threads ≡ s.max_workers → s.request_queue ≡ [])
unfolding get_item
drained_workers_return {s} reach closed = (find, empty)
  where
    v : Inv s
    v = Reach-Consistent reach

    find :
        (i : ℕ)
        → get_elem? s.worker_threads i ≡ some waiting
        → (rest : List (Option ℕ)) × (s.request_queue ≡ none ∷ rest)
          × (get_elem? (get_item i none rest s).worker_threads i ≡ some exited)
    find i at_i = elim (only_sentinels s.request_queue (v.closed_queue closed).0) [
      | inl (none_left, _) ↦ absurd (
          omega (
            arith,
            none_left,
            (v.closed_queue closed).1,
            v.staffed,
            le-total_of_get_elem? is_waiting s.worker_threads i waiting at_i,
            total-add-le is_waiting is_exited (λ _. 1) s.worker_threads waiting_or_exited,
          ))
      | inr (rest, e) ↦ (rest, e, get_elem?-set_self s.worker_threads i waiting exited at_i)
    ]

    empty : total is_exited s.worker_threads ≡ s.max_workers → s.request_queue ≡ []
    empty all_gone = elim (only_sentinels s.request_queue (v.closed_queue closed).0) [
      | inl (_, e) ↦ e
      | inr (rest, e) ↦
          absurd (omega (arith, ap (total is_sentinel) e, (v.closed_queue closed).1, all_gone))
    ]
