-- ===== src/JobQueue.antt =====
-- JobQueueManager of controlplane/job_queue.py: its jobs, and the order in which they wait. Times
-- are whole microseconds. Payloads, results, checkpoints, previews, timings and the cached summary
-- are left out, and so are the data references of a job and what touches and releases them.
pub mod Calls
pub mod TaskPool
pub mod Loop
pub mod Order
pub mod Waiting
pub mod Steps
pub mod Stands
pub mod Orphans
pub mod Invariant
pub mod Pick
pub mod Blocked
pub mod Final
pub mod Clients
pub mod Samples
use new_pycloud.Base.{
  ℕ, ltb, Bool, true, false, not, ◌&&◌, ◌||◌, List, [], ◌∷◌, Option, none, some, if◌then◌else◌,
  keep, map, ◌==◌, nat_eq, list_eq,
}
use new_pycloud.Base.Dict.{get, values}
use new_pycloud.Base.Text.{text_lt, Text}

pub data Status : Type 0 where
  waiting running succeeded failed cancelled : Status

-- `status in {"SUCCEEDED", "FAILED", "CANCELLED"}`
abbrev pub is_terminal : Status → Bool
is_terminal waiting = false
is_terminal running = false
is_terminal _ = true

abbrev pub is_waiting : Status → Bool
is_waiting waiting = true
is_waiting _ = false

pub record JobState : Type 0 where
  pub job_id : Text
  pub client_id : Text
  pub priority : ℕ
  pub status : Status
  pub submitted_at : ℕ
  pub started_at : Option ℕ
  pub finished_at : Option ℕ
  pub cancel_requested : Bool
  pub error : Text
  pub enqueue_seq : ℕ
  pub owner_token_digest : Text
  pub owner_token_expires_at : Option ℕ

pub record SharedPool : Type 0 where
  pub executor : ℕ
  pub artifact_key : Text
  pub current_mode : Text
  pub last_used_at : ℕ

-- The scheduler thread: not started, before a round of its loop, in `_run_job`, behind it but
-- before the last block of the round, or ended, by a return or an exception.
pub data Thread : Type 0 where
  no_thread : Thread
  at_top : Thread
  in_run : (job_id : Text) → Thread
  behind_run : (job_id : Text) → Thread
  ended : Thread

pub record Manager : Type 0 where
  pub jobs : List (Text × JobState)
  pub waiting_order : List Text
  pub enqueue_seq : ℕ
  -- The empty text if no job is running.
  pub running_job_id : Text
  pub current_executor : Option ℕ
  pub shared_pool : Option SharedPool
  pub controlplane_target : Text
  pub stop : Bool
  pub started : Bool
  pub thread : Thread
  pub retention_sec : ℕ
  pub pool_idle_ttl_sec : ℕ

-- The comparison of the keys `(-priority, submitted_at, enqueue_seq, job_id)`.
pub key_lt : JobState → JobState → Bool
key_lt s o =
    ltb o.priority s.priority
    || (s.priority == o.priority
        && (ltb s.submitted_at o.submitted_at
            || (s.submitted_at == o.submitted_at
                && (ltb s.enqueue_seq o.enqueue_seq
                    || (s.enqueue_seq == o.enqueue_seq && text_lt s.job_id o.job_id)))))

-- `status == "WAITING" and not cancel_requested`
abbrev pub is_pickable : JobState → Bool
is_pickable s = is_waiting s.status && not s.cancel_requested

abbrev pub pickable_at : Text → List (Text × JobState) → Bool
pickable_at id jobs = elim (get id jobs) [ none ↦ false | some s ↦ is_pickable s ]

abbrev pub mem : Text → List Text → Bool
mem id [] = false
mem id (j ∷ ids) = j == id || mem id ids

-- `_prune_waiting_order_locked`, behind the ids that it has seen.
pub prune_from : List Text → List (Text × JobState) → List Text → List Text
prune_from seen jobs [] = []
prune_from seen jobs (id ∷ ids) =
    let rest = prune_from (id ∷ seen) jobs ids in
    if mem id seen || not (pickable_at id jobs) then rest else id ∷ rest

abbrev pub prune_waiting_order : List (Text × JobState) → List Text → List Text
prune_waiting_order = prune_from []

-- `_remove_waiting_job_locked`; the id is not empty.
abbrev pub remove_waiting_job : Text → List Text → List Text
remove_waiting_job id = keep λ j. not (j == id)

-- `_insert_waiting_job_locked`, behind the pruning: before the first job with a greater key.
pub insert_by_key : List (Text × JobState) → JobState → List Text → List Text
insert_by_key jobs s [] = s.job_id ∷ []
insert_by_key jobs s (id ∷ ids) =
    let rest = insert_by_key jobs s ids in
    elim (get id jobs) [
      | none ↦ id ∷ rest
      | some other ↦ if key_lt s other then s.job_id ∷ id ∷ ids else id ∷ rest
    ]

pub insert_waiting_job : List (Text × JobState) → JobState → List Text → List Text
unfolding insert_by_key prune_from
insert_waiting_job jobs s order = insert_by_key jobs s (prune_waiting_order jobs order)

-- The loop of `_pick_next_job_locked`.
pub first_pickable : List (Text × JobState) → List Text → Option JobState
first_pickable jobs [] = none
first_pickable jobs (id ∷ ids) =
    let rest = first_pickable jobs ids in
    elim (get id jobs) [ none ↦ rest | some s ↦ if is_pickable s then some s else rest ]

-- `list.sort` by the key, which is stable.
pub insert_sorted : JobState → List JobState → List JobState
insert_sorted s [] = s ∷ []
insert_sorted s (o ∷ os) =
    let rest = insert_sorted s os in if key_lt o s then o ∷ rest else s ∷ o ∷ os

pub sort_by_key : List JobState → List JobState
unfolding insert_sorted
sort_by_key [] = []
sort_by_key (s ∷ ss) = insert_sorted s (sort_by_key ss)

-- The jobs that wait although the order does not name them.
pub pick_unordered : Manager → Manager × Option JobState
unfolding sort_by_key
pick_unordered m = elim (sort_by_key (keep is_pickable (values m.jobs))) [
  | [] ↦ (m, none)
  | s ∷ ss ↦ (record m { waiting_order = map (λ o. o.job_id) (s ∷ ss) }, some s)
]

-- `_pick_next_job_locked` behind the pruning, for the pruned order.
pub pick_from : List Text → Manager → Manager × Option JobState
unfolding pick_unordered first_pickable
pick_from order m =
    let pruned : Manager = record m { waiting_order = order } in
    elim (first_pickable m.jobs order) [ some s ↦ (pruned, some s) | none ↦ pick_unordered pruned ]

pub pick_next_job : Manager → Manager × Option JobState
unfolding pick_from prune_from
pick_next_job m = pick_from (prune_waiting_order m.jobs m.waiting_order) m
