-- ===== src/Http/Server/Steps.antt =====
-- The interleavings of the accepting thread, the workers and the thread that closes.
use new_pycloud.Base.{ℕ, ◌≡◌, List, ◌∷◌, Option, some, get_elem?, total, nat_beq, if◌then◌else◌}
use new_pycloud.Base.Int.{ℤ}
use new_pycloud.Http.Server.{
  Server, waiting, serving, leaving, draining, init, process_request, get_item, finish_request,
  leave_request, begin_close, drain_round,
}

-- How often a request stands in a list of requests.
abbrev pub count : ℕ → List ℕ → ℕ
count r = total λ x. if nat_beq x r then 1 else 0

-- A request that comes in is a new socket, so it is not among the active ones.
pub data Step (s : Server) : Server → Type 0 where
  accepts : (r : ℕ) → count r s.active_requests ≡ 0 → Step s (process_request r s)
  gets :
      (i : ℕ) (item : Option ℕ) (rest : List (Option ℕ))
      → get_elem? s.worker_threads i ≡ some waiting
      → s.request_queue ≡ item ∷ rest
      → Step s (get_item i item rest s)
  finishes :
      (i r : ℕ) → get_elem? s.worker_threads i ≡ some (serving r) → Step s (finish_request i r s)
  leaves :
      (i : ℕ) {t : Server}
      → get_elem? s.worker_threads i ≡ some leaving
      → leave_request i s ≡ some t
      → Step s t
  closes : Step s (begin_close s)
  drains : {t : Server} → s.closer ≡ draining → drain_round s ≡ some t → Step s t

pub data Reach (w q : ℤ) : Server → Type 0 where
  starts : {s : Server} → init w q ≡ some s → Reach w q s
  later : {s t : Server} → Reach w q s → Step s t → Reach w q t
