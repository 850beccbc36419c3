-- ===== src/Http/Server/Scenarios.antt =====
-- One worker and a queue of one: three connections, and a close while one is served.
use new_pycloud.Base.{
  ℕ, ◌-◌, ◌≤◌, ◌<◌, ◌≡◌, refl, ◌↔◌, true, false, List, [], ◌∷◌, Option, none, some, get_elem?,
  total, keep,
}
use new_pycloud.Base.Int.{pos}
use new_pycloud.Http.Server.{
  Server, waiting, serving, leaving, exited, not_closing, draining, drained, init, process_request,
  get_item, finish_request, leave_request, begin_close, drain_round,
}
use new_pycloud.Http.Server.Steps.{
  accepts, gets, finishes, leaves, closes, drains, Reach, starts, later,
}
use new_pycloud.Http.Server.Invariant.{Inv, Reach-Consistent, capacity, is_exited}
use new_pycloud.Http.Server.Shutdown.{held, process_request_admits, drained_workers_return}

abbrev idle : Server
idle = record {
  max_workers = 1;
  queue_capacity = 1;
  request_queue_size = 2;
  request_slots = 2;
  active_requests = [];
  workers_closed = false;
  rejected_requests = 0;
  request_queue = [];
  worker_threads = waiting ∷ [];
  closer = not_closing;
}

-- Request 7 is with the worker, 8 waits, and 9 was turned away.
abbrev full : Server
full = record idle {
  request_slots = 0;
  active_requests = 8 ∷ 7 ∷ [];
  rejected_requests = 1;
  request_queue = some 8 ∷ [];
  worker_threads = serving 7 ∷ [];
}

-- The server is closed, 8 was thrown out, and the worker is done with 7.
abbrev emptied : Server
emptied = record full {
  request_slots = 2;
  active_requests = [];
  workers_closed = true;
  request_queue = none ∷ [];
  worker_threads = waiting ∷ [];
  closer = drained;
}

abbrev worker_left : Server
worker_left = record full { active_requests = 8 ∷ []; worker_threads = leaving ∷ [] }

idle-Reach : Reach (pos 1) (pos 1) idle
unfolding init
idle-Reach = starts refl

full-Reach : Reach (pos 1) (pos 1) full
unfolding process_request get_item
full-Reach =
    later
      (later (later (later idle-Reach (accepts 7 refl)) (gets 0 (some 7) [] refl refl))
        (accepts 8 refl))
      (accepts 9 refl)

worker_left-Reach : Reach (pos 1) (pos 1) worker_left
unfolding finish_request keep
worker_left-Reach = later full-Reach (finishes 0 7 refl)

abbrev closing : Server
closing = record worker_left { workers_closed = true; closer = draining }

closing-Reach : Reach (pos 1) (pos 1) closing
unfolding begin_close
closing-Reach = later worker_left-Reach closes

emptied-Reach : Reach (pos 1) (pos 1) emptied
unfolding drain_round leave_request keep
emptied-Reach =
    later (later (later closing-Reach (drains refl refl)) (leaves 0 refl refl)) (drains refl refl)

Reach-Consistent_example : Inv full
Reach-Consistent_example = Reach-Consistent full-Reach

process_request_admits_example :
    (held full ≤ capacity full)
    × (((false ≡ false) × (held full < capacity full)) ↔ (
        process_request 10 full ≡ record full {
          request_slots = 0 - 1;
          active_requests = 10 ∷ 8 ∷ 7 ∷ [];
          request_queue = some 8 ∷ some 10 ∷ [];
        }))
    × ((¬ ((false ≡ false) × (held full < capacity full)))
        → process_request 10 full ≡ record full { rejected_requests = 2 })
process_request_admits_example = process_request_admits 10 full-Reach

drained_workers_return_example :
    ((i : ℕ)
      → get_elem? emptied.worker_threads i ≡ some waiting
      → (rest : List (Option ℕ)) × (emptied.request_queue ≡ none ∷ rest)
        × (get_elem? (get_item i none rest emptied).worker_threads i ≡ some exited))
    × (total is_exited emptied.worker_threads ≡ 1 → emptied.request_queue ≡ [])
drained_workers_return_example = drained_workers_return emptied-Reach refl
