-- ===== src/Http/Server/Invariant.antt =====
-- What every interleaving keeps: the slots add up, the set of active requests is what is queued or
-- served, and there is one `None` for each worker that is left once the queue has been emptied.
use new_pycloud.Base.{
  ℕ, zero, suc, ◌+◌, ◌≤◌, ◌≡◌, ◌≢◌, refl, true, false, List, [], ◌∷◌, Option, none, some, arith,
  if◌then◌else◌, nat_beq, keep, get_elem?, total, total-set, total-append, total-replicate,
  total-replicate_one,
}
use new_pycloud.Base.Int.{ℤ, pos, negsuc}
use new_pycloud.Http.Server.{
  Server, Worker, waiting, serving, leaving, exited, not_closing, draining, drained, init,
  process_request, discard, get_item, finish_request, leave_request, begin_close, drain_round,
}
use new_pycloud.Http.Server.Steps.{
  count, Step, accepts, gets, finishes, leaves, closes, drains, Reach, starts, later,
}

-- Weights: the requests and the `None`s of the queue, the workers that hold a slot or have returned.
abbrev pub is_request : Option ℕ → ℕ
is_request none = 0
is_request (some r) = 1

abbrev pub is_sentinel : Option ℕ → ℕ
is_sentinel none = 1
is_sentinel (some r) = 0

abbrev pub is_busy : Worker → ℕ
is_busy waiting = 0
is_busy (serving r) = 1
is_busy leaving = 1
is_busy exited = 0

abbrev pub is_exited : Worker → ℕ
is_exited exited = 1
is_exited _ = 0

abbrev queues : ℕ → Option ℕ → ℕ
queues r none = 0
queues r (some x) = if nat_beq x r then 1 else 0

abbrev serves : ℕ → Worker → ℕ
serves r waiting = 0
serves r (serving x) = if nat_beq x r then 1 else 0
serves r leaving = 0
serves r exited = 0

abbrev pub capacity : Server → ℕ
capacity s = s.max_workers + s.queue_capacity

pub record Inv (s : Server) : Type 0 where
  pub slots :
      s.request_slots + total is_request s.request_queue + total is_busy s.worker_threads
      ≡ capacity s
  pub tracked :
      (r : ℕ)
      → count r s.active_requests
        ≡ total (queues r) s.request_queue + total (serves r) s.worker_threads
  pub once : (r : ℕ) → count r s.active_requests ≤ 1
  pub staffed : total (λ _. 1) s.worker_threads ≡ s.max_workers
  pub flagged : s.closer ≡ not_closing → s.workers_closed ≡ false
  pub unflagged : s.closer ≢ not_closing → s.workers_closed ≡ true
  pub open_queue :
      s.closer ≢ drained
      → (total is_sentinel s.request_queue ≡ 0) × (total is_exited s.worker_threads ≡ 0)
  pub closed_queue :
      s.closer ≡ drained
      → (total is_request s.request_queue ≡ 0)
        × (total is_sentinel s.request_queue + total is_exited s.worker_threads ≡ s.max_workers)

count-discard :
    (r x : ℕ) (xs : List ℕ) → count r (discard x xs) ≡ (if nat_beq x r then 0 else count r xs)
unfolding keep
count-discard r x [] = ground arith
count-discard r x (y ∷ ys) = ground (arith, count-discard r x ys)

process_request-Inv :
    (r : ℕ) (s : Server) → count r s.active_requests ≡ 0 → Inv s → Inv (process_request r s)
unfolding process_request
process_request-Inv r s fresh v = record {
  slots = ground (arith, v.slots, total-append is_request s.request_queue (some r ∷ []));
  tracked = λ x. ground (arith, v.tracked x, total-append (queues x) s.request_queue (some r ∷ []));
  once = λ x. ground (arith, v.once x, fresh);
  staffed = ground (arith, v.staffed);
  flagged = ground (arith, v.flagged);
  unflagged = ground (arith, v.unflagged);
  open_queue = ground (arith, v, total-append is_sentinel s.request_queue (some r ∷ []));
  closed_queue = ground (arith, v);
}

get_item-Inv :
    (i : ℕ) (item : Option ℕ) (rest : List (Option ℕ)) (s : Server)
    → get_elem? s.worker_threads i ≡ some waiting
    → s.request_queue ≡ item ∷ rest
    → Inv s
    → Inv (get_item i item rest s)
unfolding get_item
get_item-Inv i none rest s at_i queue v = record {
  slots = ground (arith, v, total-set is_busy s.worker_threads i waiting exited);
  tracked =
      λ x. ground (arith, v.tracked x, total-set (serves x) s.worker_threads i waiting exited);
  once = v.once;
  staffed = ground (arith, v, total-set (λ _. 1) s.worker_threads i waiting exited);
  flagged = v.flagged;
  unflagged = v.unflagged;
  open_queue = ground (arith, v.open_queue);
  closed_queue = ground (arith, v, total-set is_exited s.worker_threads i waiting exited);
}
get_item-Inv i (some r) rest s at_i queue v = record {
  slots = ground (arith, v, total-set is_busy s.worker_threads i waiting (serving r));
  tracked =
      λ x. ground (arith, v.tracked x, total-set (serves x) s.worker_threads i waiting (serving r));
  once = v.once;
  staffed = ground (arith, v, total-set (λ _. 1) s.worker_threads i waiting (serving r));
  flagged = v.flagged;
  unflagged = v.unflagged;
  open_queue = ground (arith, v, total-set is_exited s.worker_threads i waiting (serving r));
  closed_queue = ground (arith, v, total-set is_exited s.worker_threads i waiting (serving r));
}

finish_request-Inv :
    (i r : ℕ) (s : Server)
    → get_elem? s.worker_threads i ≡ some (serving r)
    → Inv s
    → Inv (finish_request i r s)
unfolding finish_request
finish_request-Inv i r s at_i v = record {
  slots = ground (arith, v, total-set is_busy s.worker_threads i (serving r) leaving);
  tracked = λ x. ground (
    arith,
    v.tracked x,
    v.once x,
    count-discard x r s.active_requests,
    total-set (serves x) s.worker_threads i (serving r) leaving,
  );
  once = λ x. ground (arith, v.once x, count-discard x r s.active_requests);
  staffed = ground (arith, v, total-set (λ _. 1) s.worker_threads i (serving r) leaving);
  flagged = v.flagged;
  unflagged = v.unflagged;
  open_queue = ground (arith, v, total-set is_exited s.worker_threads i (serving r) leaving);
  closed_queue = ground (arith, v, total-set is_exited s.worker_threads i (serving r) leaving);
}

leave_request-Inv :
    (i : ℕ) (s t : Server)
    → get_elem? s.worker_threads i ≡ some leaving
    → leave_request i s ≡ some t
    → Inv s
    → Inv t
unfolding leave_request
leave_request-Inv i s t at_i e v = record {
  slots = ground (arith, v, total-set is_busy s.worker_threads i leaving waiting);
  tracked =
      λ x. ground (arith, v.tracked x, total-set (serves x) s.worker_threads i leaving waiting);
  once = λ x. ground (arith, v.once x);
  staffed = ground (arith, v, total-set (λ _. 1) s.worker_threads i leaving waiting);
  flagged = ground (arith, v.flagged);
  unflagged = ground (arith, v.unflagged);
  open_queue = ground (arith, v, total-set is_exited s.worker_threads i leaving waiting);
  closed_queue = ground (arith, v, total-set is_exited s.worker_threads i leaving waiting);
}

begin_close-Inv : (s : Server) → Inv s → Inv (begin_close s)
unfolding begin_close
begin_close-Inv s v = record {
  slots = ground (arith, v.slots);
  tracked = λ x. ground (arith, v.tracked x);
  once = λ x. ground (arith, v.once x);
  staffed = ground (arith, v.staffed);
  flagged = ground (arith, v);
  unflagged = ground (arith, v);
  open_queue = ground (arith, v);
  closed_queue = ground (arith, v);
}

drain_round-Inv :
    (s t : Server) (q : List (Option ℕ))
    → s.request_queue ≡ q
    → s.closer ≡ draining
    → drain_round s ≡ some t
    → Inv s
    → Inv t
unfolding drain_round
drain_round-Inv s t [] e d f v = record {
  slots = ground (arith, v, total-replicate is_request s.max_workers none refl);
  tracked = λ x. ground (arith, v.tracked x, total-replicate (queues x) s.max_workers none refl);
  once = λ x. ground (arith, v.once x);
  staffed = ground (arith, v);
  flagged = ground (arith, v);
  unflagged = ground (arith, v);
  open_queue = ground (arith, v);
  closed_queue = ground (
    arith,
    v,
    total-replicate is_request s.max_workers none refl,
    total-replicate_one is_sentinel s.max_workers none refl,
  );
}
drain_round-Inv s t (none ∷ rest) e d f v = absurd (ground (arith, v.open_queue))
drain_round-Inv s t (some r ∷ rest) e d f v = record {
  slots = ground (arith, v);
  tracked = λ x. ground (arith, v.tracked x, v.once x, count-discard x r s.active_requests);
  once = λ x. ground (arith, v.once x, count-discard x r s.active_requests);
  staffed = ground (arith, v);
  flagged = ground (arith, v);
  unflagged = ground (arith, v);
  open_queue = ground (arith, v);
  closed_queue = ground (arith, v);
}

init-Inv : (w q : ℤ) (s : Server) → init w q ≡ some s → Inv s
unfolding init
init-Inv (negsuc w) q s e = cc
init-Inv (pos zero) q s e = cc
init-Inv (pos (suc w)) (negsuc q) s e = cc
init-Inv (pos (suc w)) (pos q) s e = record {
  slots = ground (arith, total-replicate is_busy w waiting refl);
  tracked = λ x. ground (arith, total-replicate (serves x) w waiting refl);
  once = λ x. ground arith;
  staffed = ground (arith, total-replicate_one (λ _. 1) w waiting refl);
  flagged = ground arith;
  unflagged = ground arith;
  open_queue = ground (arith, total-replicate is_exited w waiting refl);
  closed_queue = ground arith;
}

Step-Inv : {s t : Server} → Step s t → Inv s → Inv t
Step-Inv {s} (accepts r new) v = process_request-Inv r s new v
Step-Inv {s} (gets i item rest at_i e) v = get_item-Inv i item rest s at_i e v
Step-Inv {s} (finishes i r at_i) v = finish_request-Inv i r s at_i v
Step-Inv {s} (leaves i {t} at_i e) v = leave_request-Inv i s t at_i e v
Step-Inv {s} closes v = begin_close-Inv s v
Step-Inv {s} (drains {t} d e) v = drain_round-Inv s t s.request_queue refl d e v

-- Whatever the order in which the accepting thread, the workers and the closing thread run: the
-- free slots, the queued requests and the busy workers add up to max_workers + queue_capacity; the
-- active requests are those queued or served, each once; no worker has returned before the closing
-- thread has emptied the queue, and from then on no request is queued and the `None`s left are as
-- many as the workers that have not returned.
pub Reach-Consistent : {w q : ℤ} {s : Server} → Reach w q s → Inv s
Reach-Consistent {w} {q} {s} (starts e) = init-Inv w q s e
Reach-Consistent (later r st) = Step-Inv st (Reach-Consistent r)
