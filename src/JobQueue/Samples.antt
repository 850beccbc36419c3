-- ===== src/JobQueue/Samples.antt =====
-- Concrete runs of the queue, on which its theorems are evaluated.
use new_pycloud.Base.{
  ◌≤◌, ℕ, ◌≡◌, refl, ◌⊎◌, ◌+◌, subst, sym, true, false, List, [], ◌∷◌, ◌++◌, none, some, nat_eq,
  list_eq, arith, keep,
}
use new_pycloud.Base.Dict.{get, insert}
use new_pycloud.Base.Text.{Text, codes, strip, lstrip}
use new_pycloud.Base.Int.{pos}
use new_pycloud.JobQueue.{
  waiting, running, succeeded, JobState, at_top, in_run, behind_run, ended, Manager, is_pickable,
  pickable_at, key_lt, prune_from, prune_waiting_order, first_pickable, pick_from, pick_next_job,
}
use new_pycloud.JobQueue.Calls.{
  Environment, Submission, submitted, start, submit_job, new_job, enqueue, detach_stale_running,
  ensure_scheduler_thread, cancel_waiting,
}
use new_pycloud.JobQueue.Loop.{
  loop_round, start_next, start_picked, cleanup_jobs, run_job, finish_state, escaped, hooks_done,
}
use new_pycloud.JobQueue.Steps.{
  new_manager, starts, submits, loops, Reach, begins, later, Later, stays, next,
}
use new_pycloud.JobQueue.Invariant.Always.{Reach-Inv}
use new_pycloud.JobQueue.Pick.{pick_next_job-cases}
use new_pycloud.JobQueue.Order.{IsSorted, pick_next_job-least}
use new_pycloud.JobQueue.Blocked.{runs_at, escaped_blocks}
use new_pycloud.JobQueue.Clients.{resubmitted_never_starts}

abbrev pub env : Environment
env = record { sha256_hex = λ token. codes "#" ++ token; auth_ttl_sec = 60000000 }

abbrev pub a : Text
a = codes "a"

abbrev pub b : Text
b = codes "b"

abbrev secret : Text
secret = codes "secret"

abbrev pub submission : Text → ℕ → Submission
submission id priority = record {
  job_id = id;
  client_id = codes "me";
  priority = pos priority;
  names_policy = false;
  uses_job_hooks = true;
  auth_token = secret;
}

abbrev pub job : Text → ℕ → ℕ → ℕ → JobState
job id priority now seq = record {
  job_id = id;
  client_id = codes "me";
  priority = priority;
  status = waiting;
  submitted_at = now;
  started_at = none;
  finished_at = none;
  cancel_requested = false;
  error = [];
  enqueue_seq = seq;
  owner_token_digest = codes "#secret";
  owner_token_expires_at = some (now + 60000000);
}

abbrev pub running_job : JobState
running_job = record (job a 1 10 1) { status = running; started_at = some 20 }

abbrev pub idle : Manager
idle = record (new_manager 3600 300) {
  controlplane_target = codes "local";
  started = true;
  thread = at_top;
}

abbrev pub queued : Manager
queued = record idle { jobs = (a, job a 1 10 1) ∷ []; waiting_order = a ∷ []; enqueue_seq = 1 }

abbrev both_queued : Manager
both_queued = record queued {
  jobs = (a, job a 1 10 1) ∷ (b, job b 5 15 2) ∷ [];
  waiting_order = b ∷ a ∷ [];
  enqueue_seq = 2;
}

abbrev pub busy : Manager
busy = record queued {
  jobs = (a, running_job) ∷ [];
  waiting_order = [];
  running_job_id = a;
  thread = in_run a;
}

abbrev done_job : JobState
done_job = record running_job { status = succeeded; finished_at = some 30 }

abbrev done : Manager
done = record busy { jobs = (a, done_job) ∷ []; thread = behind_run a }

-- The scheduler has died in job a; job b was submitted then.
abbrev blocked : Manager
blocked = record busy {
  jobs = (a, running_job) ∷ (b, job b 5 40 2) ∷ [];
  waiting_order = b ∷ [];
  enqueue_seq = 2;
  thread = at_top;
}

idle-Reach : Reach 3600 300 idle
unfolding start strip lstrip
idle-Reach = later begins (starts (codes "local"))

queued_lem : submit_job env b b 10 (submission a 1) idle ≡ submitted queued (job a 1 10 1)
unfolding submit_job new_job enqueue detach_stale_running ensure_scheduler_thread strip insert get
queued_lem = refl

both_queued_lem :
    submit_job env b b 15 (submission b 5) queued ≡ submitted both_queued (job b 5 15 2)
unfolding submit_job new_job enqueue detach_stale_running ensure_scheduler_thread strip insert get
    key_lt
both_queued_lem = refl

queued-Reach : Reach 3600 300 queued
queued-Reach =
    later idle-Reach (submits env b b 10 (submission a 1) queued (job a 1 10 1) refl queued_lem)

both_queued-Reach : Reach 3600 300 both_queued
both_queued-Reach =
    later queued-Reach
      (submits env b b 15 (submission b 5) both_queued (job b 5 15 2) refl both_queued_lem)

busy_lem : loop_round 20 queued ≡ busy
unfolding loop_round start_next start_picked cleanup_jobs pick_next_job insert get keep
busy_lem = refl

busy-Reach : Reach 3600 300 busy
busy-Reach = subst (Reach 3600 300) busy_lem (later queued-Reach (loops 20 refl))

-- Job a is done, and the scheduler is at its next round.
abbrev over : Manager
over = record done { running_job_id = []; thread = at_top }

pick_next_job-cases_example :
    (((id : Text) → pickable_at id both_queued.jobs ≡ false)
      × (pick_next_job both_queued ≡ (record both_queued { waiting_order = [] }, none)))
    ⊎ ((id : Text) × (s : JobState) × (rest : List Text) × (prune_waiting_order both_queued.jobs
            both_queued.waiting_order
          ≡ id ∷ rest)
        × (get id both_queued.jobs ≡ some s)
        × (is_pickable s ≡ true)
        × (pick_next_job both_queued ≡ (record both_queued { waiting_order = id ∷ rest }, some s)))
pick_next_job-cases_example = pick_next_job-cases both_queued (Reach-Inv both_queued-Reach)

both_queued-IsSorted : IsSorted both_queued.jobs both_queued.waiting_order
unfolding get key_lt
both_queued-IsSorted = (((λ s t at_s at_t. ground arith), tt), (tt, tt))

pick_next_job-least_example :
    let a_job = job a 1 10 1 in
    let b_job = job b 5 15 2 in
    (a_job.priority ≤ b_job.priority)
    × (a_job.priority ≡ b_job.priority → b_job.submitted_at ≤ a_job.submitted_at)
unfolding pick_next_job pick_from first_pickable prune_from get
pick_next_job-least_example =
    pick_next_job-least both_queued both_queued (job b 5 15 2) (Reach-Inv both_queued-Reach)
      both_queued-IsSorted refl a (job a 1 10 1) refl refl

abbrev dead : Manager
dead = record busy { thread = ended }

dead_lem : run_job escaped 30 a busy ≡ dead
unfolding run_job finish_state insert get
dead_lem = refl

blocked_lem : submit_job env b b 40 (submission b 5) dead ≡ submitted blocked (job b 5 40 2)
unfolding submit_job new_job enqueue detach_stale_running ensure_scheduler_thread strip insert get
    key_lt
blocked_lem = refl

blocked-Later : Later a dead (loop_round 50 blocked)
blocked-Later =
    next
      (next stays (submits env b b 40 (submission b 5) blocked (job b 5 40 2) refl blocked_lem)
        refl)
      (loops 50 refl) tt

escaped_blocks_example :
    (runs_at a (loop_round 50 blocked).jobs ≡ true)
    × ((j : Text) (t : JobState)
        → get j (loop_round 50 blocked).jobs ≡ some t
        → t.status ≡ running
        → j ≡ a)
unfolding get
escaped_blocks_example =
    escaped_blocks a 30 running_job busy-Reach refl refl refl
      (subst (λ x. Later a x (loop_round 50 blocked)) (sym dead_lem) blocked-Later)

abbrev cancelled_queue : Manager
cancelled_queue = record queued {
  jobs = (a, cancel_waiting 25 (job a 1 10 1)) ∷ [];
  waiting_order = [];
}

abbrev resubmitted : Manager
resubmitted = record busy { jobs = (a, job a 2 25 2) ∷ []; waiting_order = a ∷ []; enqueue_seq = 2 }

resubmitted_never_starts_example :
    (resubmitted.thread ≡ in_run a)
    × ((job a 2 25 2).started_at ≡ none)
    × (get a (run_job hooks_done 30 a resubmitted).jobs
        ≡ some (record (job a 2 25 2) { status = succeeded; finished_at = some 30 }))
    × (pickable_at a (run_job hooks_done 30 a resubmitted).jobs ≡ false)
unfolding submit_job new_job enqueue detach_stale_running ensure_scheduler_thread strip insert get
resubmitted_never_starts_example =
    resubmitted_never_starts env b b 25 30 (submission a 2) busy resubmitted (job a 2 25 2) refl
      refl
