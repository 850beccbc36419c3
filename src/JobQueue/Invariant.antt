-- ===== src/JobQueue/Invariant.antt =====
-- What holds of every job whatever the order of the calls and the rounds.
pub mod Calls
pub mod Rounds
pub mod Always
use new_pycloud.Base.{
  ℕ, ◌≡◌, refl, sym, ◌∙◌, Bool, true, false, not, ◌&&◌, ◌||◌, List, [], ◌∷◌, Option, none, some,
  ◌==◌, nat_eq, list_eq, list_beq_iff, beq_refl, arith, if◌then◌else◌, inl, inr, Option-cases,
  Bool-cases,
}
use new_pycloud.Base.Dict.{
  get, insert, erase, HasUniqueKeys, get-insert, get-erase, insert-HasUniqueKeys,
  erase-HasUniqueKeys,
}
use new_pycloud.Base.Text.{Text, is_nonempty, strip}
use new_pycloud.JobQueue.{
  Status, waiting, running, cancelled, is_terminal, is_waiting, JobState, Thread, no_thread, at_top,
  in_run, behind_run, ended, Manager, mem, is_pickable, pickable_at, prune_waiting_order,
  remove_waiting_job, insert_waiting_job,
}
use new_pycloud.JobQueue.Calls.{
  is_alive, running_is_stale, detach_stale_running, ensure_scheduler_thread, start, enqueue,
  get_job, any_pickable,
}
use new_pycloud.JobQueue.Waiting.{mem-prune, mem-remove, mem-insert_waiting}

abbrev pub is_some : Option ℕ → Bool
is_some none = false
is_some (some n) = true

-- Whether the thread's place allows a job to have the status RUNNING.
abbrev pub may_run : Thread → Text → Bool
may_run (in_run r) id = r == id
may_run (behind_run r) id = false
may_run _ id = true

-- A job stands under its id, has a time of its end exactly if it is terminal, is in the order and
-- not cancelled while it waits, and is the job that the manager names while it runs.
abbrev pub JobOk : List Text → Text → Thread → Text → JobState → Type 0
JobOk order run thread id s =
    (s.job_id ≡ id)
    × (is_nonempty id ≡ true)
    × (is_some s.finished_at ≡ is_terminal s.status)
    × (s.status ≡ waiting → (s.cancel_requested ≡ false) × (mem id order ≡ true))
    × (s.status ≡ running → (run ≡ id) × (may_run thread id ≡ true))

pub record Inv (m : Manager) : Type 0 where
  pub unique : HasUniqueKeys m.jobs
  pub ok :
      (id : Text) (s : JobState)
      → get id m.jobs ≡ some s
      → JobOk m.waiting_order m.running_job_id m.thread id s

pub start-Inv : (target : Text) (m : Manager) → Inv m → Inv (start target m)
unfolding start
start-Inv target m v = record {
  unique = ground (arith, v.unique);
  ok = λ id s at. ground (arith, v.ok id s (ground arith));
}

pub ensure-Inv : (m : Manager) → Inv m → Inv (ensure_scheduler_thread m)
unfolding ensure_scheduler_thread
ensure-Inv m v = record {
  unique = ground (arith, v.unique);
  ok = λ id s at. ground (arith, v.ok id s (ground arith));
}

pub detach-Inv : (m : Manager) → Inv m → Inv (detach_stale_running m).0
unfolding detach_stale_running
detach-Inv m v = record {
  unique = ground (arith, v.unique);
  ok = λ id s at. ground (arith, v.ok id s (ground arith));
}

enqueue_put-Inv :
    (s : JobState) (m : Manager)
    → s.status ≡ waiting
    → s.finished_at ≡ none
    → s.cancel_requested ≡ false
    → is_nonempty s.job_id ≡ true
    → Inv m
    → Inv (record m {
      enqueue_seq = s.enqueue_seq;
      jobs = insert s.job_id s m.jobs;
      waiting_order = insert_waiting_job (insert s.job_id s m.jobs) s m.waiting_order;
    })
enqueue_put-Inv s m waits unfinished kept named v = record {
  unique = insert-HasUniqueKeys s.job_id s m.jobs v.unique;
  ok = λ id x at. ground (
    arith,
    mem-insert_waiting id (insert s.job_id s m.jobs) s m.waiting_order,
    get-insert s.job_id id s m.jobs,
    list_beq_iff s.job_id id,
    v.ok id x,
  );
}

pub enqueue-Inv :
    (s : JobState) (m : Manager)
    → s.status ≡ waiting
    → s.finished_at ≡ none
    → s.cancel_requested ≡ false
    → is_nonempty s.job_id ≡ true
    → Inv m
    → Inv (enqueue s m)
unfolding enqueue
enqueue-Inv s m waits unfinished kept named v =
    ensure-Inv _ (enqueue_put-Inv s m waits unfinished kept named v)

pub get_job-Inv : (id : Text) (m : Manager) → Inv m → Inv (get_job id m).0
unfolding get_job
get_job-Inv id m v = elim (Bool-cases (any_pickable (detach_stale_running m).0.jobs)) [
  | inl some_wait ↦ rw some_wait (ensure-Inv _ (detach-Inv m v))
  | inr none_waits ↦ rw none_waits (detach-Inv m v)
]

-- A call that only looks does not stop the thread.
pub get_job-thread :
    (id : Text) (m : Manager) → is_alive m.thread ≡ true → (get_job id m).0.thread ≡ m.thread
unfolding get_job detach_stale_running ensure_scheduler_thread
get_job-thread id m alive = ground arith
