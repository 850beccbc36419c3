-- ===== src/JobQueue/Orphans/Samples.antt =====
-- A manager that is closed while job a runs, the join timing out, and started again: job b is
-- RUNNING beside what the forgotten thread does.
use new_pycloud.Base.{◌≢◌, ◌⊎◌, ◌≡◌, refl, true, [], ◌∷◌, some, nat_eq, list_eq, keep}
use new_pycloud.Base.Dict.{get, insert}
use new_pycloud.Base.Text.{codes, strip, lstrip}
use new_pycloud.JobQueue.{
  running, cancelled, JobState, at_top, in_run, behind_run, Manager, key_lt, pick_next_job,
}
use new_pycloud.JobQueue.Calls.{
  start, submitted, submit_job, new_job, enqueue, detach_stale_running, ensure_scheduler_thread,
  get_job, begin_close,
}
use new_pycloud.JobQueue.Loop.{
  loop_round, start_next, start_picked, cleanup_jobs, run_job, finish_state, hooks_done,
}
use new_pycloud.JobQueue.Steps.{starts, submits, closes, loops}
use new_pycloud.JobQueue.Stands.{JobStands}
use new_pycloud.JobQueue.Samples.{env, a, b, submission, job, running_job, idle, queued, busy}
use new_pycloud.JobQueue.Orphans.{
  World, manages, gives_up, orphan_runs, orphan_ends, ReachWorld, opens, goes_on,
  ReachWorld-JobStands, IsNamed,
}

abbrev alone : Manager → World
alone m = record { manager = m; orphans = [] }

queued_again : submit_job env b b 10 (submission a 1) idle ≡ submitted queued (job a 1 10 1)
unfolding submit_job new_job enqueue detach_stale_running ensure_scheduler_thread strip insert get
queued_again = refl

busy-ReachWorld : ReachWorld 3600 300 (alone busy)
unfolding start strip lstrip loop_round start_next start_picked cleanup_jobs pick_next_job insert
    get keep
busy-ReachWorld =
    goes_on
      (goes_on (goes_on opens (manages (starts (codes "local"))))
        (manages (submits env b b 10 (submission a 1) queued (job a 1 10 1) refl queued_again)))
      (manages (loops 20 refl))

abbrev closing_job : JobState
closing_job = record running_job { cancel_requested = true }

-- The thread in job a has been forgotten, and another one waits for its end.
abbrev restarted : Manager
restarted = record busy { jobs = (a, closing_job) ∷ []; thread = at_top }

restarted-ReachWorld : ReachWorld 3600 300 (record { manager = restarted; orphans = in_run a ∷ [] })
unfolding begin_close start strip lstrip insert get
restarted-ReachWorld =
    goes_on (goes_on (goes_on busy-ReachWorld (manages (closes 30))) (gives_up refl))
      (manages (starts (codes "local")))

abbrev both : Manager
both = record restarted {
  jobs = (a, closing_job) ∷ (b, job b 5 40 2) ∷ [];
  waiting_order = b ∷ [];
  enqueue_seq = 2;
}

both_lem : submit_job env b b 40 (submission b 5) restarted ≡ submitted both (job b 5 40 2)
unfolding submit_job new_job enqueue detach_stale_running ensure_scheduler_thread strip insert get
    key_lt
both_lem = refl

-- Job a has ended in the forgotten thread, and the new one has started job b.
abbrev b_runs : Manager
b_runs = record both {
  jobs =
      (a, record closing_job { status = cancelled; finished_at = some 45 })
      ∷ (b, record (job b 5 40 2) { status = running; started_at = some 50 })
      ∷ [];
  waiting_order = [];
  running_job_id = b;
  thread = in_run b;
}

b_runs-ReachWorld : ReachWorld 3600 300 (record { manager = b_runs; orphans = behind_run a ∷ [] })
unfolding loop_round start_next start_picked cleanup_jobs pick_next_job run_job finish_state insert
    get keep
b_runs-ReachWorld =
    goes_on
      (goes_on
        (goes_on restarted-ReachWorld
          (manages (submits env b b 40 (submission b 5) both (job b 5 40 2) refl both_lem)))
        (orphan_runs 0 hooks_done 45 a refl))
      (manages (loops 50 refl))

-- The end of the forgotten thread's round: job b is RUNNING, and the manager names no job.
unnamed-ReachWorld :
    ReachWorld 3600 300
      (record { manager = record b_runs { running_job_id = [] }; orphans = at_top ∷ [] })
unfolding get_job detach_stale_running get
unnamed-ReachWorld = goes_on b_runs-ReachWorld (orphan_ends 0 55 a refl)

ReachWorld-JobStands_example :
    let w : World = record { manager = b_runs; orphans = behind_run a ∷ [] } in
    let s : JobState = record (job b 5 40 2) { status = running; started_at = some 50 } in
    JobStands w.manager.waiting_order b s × (IsNamed w.manager b s ⊎ (w.orphans ≢ []))
unfolding get
ReachWorld-JobStands_example =
    ReachWorld-JobStands b (record (job b 5 40 2) { status = running; started_at = some 50 })
      b_runs-ReachWorld refl
