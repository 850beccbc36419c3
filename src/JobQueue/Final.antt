-- ===== src/JobQueue/Final.antt =====
-- What happens to a job that is SUCCEEDED, FAILED or CANCELLED.
use new_pycloud.Base.{
  ℕ, ◌≡◌, sym, ap, ◌⊎◌, ◌∙◌, Bool, true, false, not, List, Option, none, some, ◌==◌, nat_eq,
  list_eq, arith,
}
use new_pycloud.Base.Dict.{get, insert}
use new_pycloud.Base.Text.{Text}
use new_pycloud.JobQueue.{Status, is_terminal, JobState, Thread, in_run, Manager}
use new_pycloud.JobQueue.Calls.{
  Environment, Submission, submitted, submit_job, detach_stale_running, ensure_scheduler_thread,
  start, enqueue, get_job, reorder_job,
}

-- What a client is told of a job: its status, the time of its end and the error.
abbrev pub outcome : JobState → Status × Option ℕ × Text
outcome s = (s.status, s.finished_at, s.error)

abbrev pub outcome_at : Text → List (Text × JobState) → Option (Status × Option ℕ × Text)
outcome_at id jobs = elim (get id jobs) [ none ↦ none | some s ↦ some (outcome s) ]

abbrev pub is_over : Text → List (Text × JobState) → Bool
is_over id jobs = elim (get id jobs) [ none ↦ false | some s ↦ is_terminal s.status ]

-- The job is gone, or its outcome is the one that it had.
abbrev pub Keeps : Text → List (Text × JobState) → List (Text × JobState) → Type 0
Keeps id jobs jobs' = (get id jobs' ≡ none) ⊎ (outcome_at id jobs' ≡ outcome_at id jobs)

-- The thread runs no job, or another one.
abbrev pub runs_other : Text → Thread → Bool
runs_other id (in_run r) = not (r == id)
runs_other id _ = true

pub get_job-jobs : (j : Text) (m : Manager) → (get_job j m).0.jobs ≡ m.jobs
unfolding get_job detach_stale_running ensure_scheduler_thread
get_job-jobs j m = ground arith

pub start-jobs : (target : Text) (m : Manager) → (start target m).jobs ≡ m.jobs
unfolding start
start-jobs target m = ground arith

pub detach-jobs : (m : Manager) → (detach_stale_running m).0.jobs ≡ m.jobs
unfolding detach_stale_running
detach-jobs m = ground arith

enqueue-jobs : (s : JobState) (m : Manager) → (enqueue s m).jobs ≡ insert s.job_id s m.jobs
unfolding enqueue ensure_scheduler_thread
enqueue-jobs s m = ground arith

pub submit_job-jobs :
    (env : Environment) (fresh_job fresh_client : Text) (now : ℕ) (sub : Submission)
    (m m' : Manager) (s : JobState)
    → submit_job env fresh_job fresh_client now sub m ≡ submitted m' s
    → m'.jobs ≡ insert s.job_id s m.jobs
unfolding submit_job
submit_job-jobs env fresh_job fresh_client now sub m m' s e =
    let made : enqueue s (detach_stale_running m).0 ≡ m' = ground (arith, e) in
    sym (ap (λ x. x.jobs) made)
    ∙ (enqueue-jobs s (detach_stale_running m).0 ∙ ap (insert s.job_id s) (detach-jobs m))

pub reorder_job-jobs :
    (job_id direction : Text) (m : Manager) → (reorder_job job_id direction m).0.jobs ≡ m.jobs
unfolding reorder_job
reorder_job-jobs job_id direction m = ground arith
