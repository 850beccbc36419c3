-- ===== src/JobQueue/Loop.antt =====
-- The scheduler thread: one round of `_loop` under the lock, the outcomes of `_run_job`, and the
-- block behind it.
use new_pycloud.Base.{
  ℕ, ◌+◌, ◌*◌, ltb, leb, Bool, not, ◌&&◌, List, [], ◌∷◌, Option, none, some, if◌then◌else◌, nat_beq,
  list_eq, nat_eq,
}
use new_pycloud.Base.Dict.{get, insert, erase}
use new_pycloud.Base.Text.{Text, codes, is_nonempty}
use new_pycloud.JobQueue.{
  running, succeeded, failed, cancelled, is_terminal, JobState, SharedPool, Thread, at_top, in_run,
  behind_run, ended, Manager, remove_waiting_job, pick_next_job,
}
use new_pycloud.JobQueue.Calls.{running_is_stale, get_job}

abbrev pub second : ℕ
second = 1000000

-- `_cleanup_jobs_locked` drops terminal jobs behind their retention.
abbrev pub is_old : ℕ → ℕ → JobState → Bool
is_old retention now s =
    is_terminal s.status
    && ltb (elim s.finished_at [ none ↦ s.submitted_at | some at ↦ at ] + retention) now

unfoldable pub old_ids : ℕ → ℕ → List (Text × JobState) → List Text
old_ids retention now [] = []
old_ids retention now ((id, s) ∷ jobs) =
    let rest = old_ids retention now jobs in if is_old retention now s then id ∷ rest else rest

unfoldable pub drop_jobs : List Text → Manager → Manager
drop_jobs [] m = m
drop_jobs (id ∷ ids) m =
    drop_jobs ids
      (record m { waiting_order = remove_waiting_job id m.waiting_order; jobs = erase id m.jobs })

unfoldable pub cleanup_jobs : ℕ → Manager → Manager
unfolding drop_jobs old_ids
cleanup_jobs now m =
    if nat_beq m.retention_sec 0
    then m
    else drop_jobs (old_ids (m.retention_sec * second) now m.jobs) m

abbrev pub touch_pool : ℕ → Option SharedPool → Option SharedPool
touch_pool now none = none
touch_pool now (some p) = some (record p { last_used_at = now })

-- No job runs any more; the shared pool was used until now.
abbrev pub clear_running : ℕ → Manager → Manager
clear_running now m = record m {
  shared_pool = touch_pool now m.shared_pool;
  running_job_id = [];
  current_executor = none;
}

-- `_shared_pool_idle_expired_locked`, and the pool that is left.
abbrev pub expire_pool : ℕ → Manager → Option SharedPool
expire_pool now m = elim m.shared_pool [
  | none ↦ none
  | some p ↦
      if not (is_nonempty m.running_job_id)
        && not (nat_beq m.pool_idle_ttl_sec 0)
        && leb (p.last_used_at + m.pool_idle_ttl_sec * second) now
      then none
      else some p
]

abbrev pub start_job : ℕ → JobState → Manager → Manager
start_job now s m = record m {
  jobs = insert s.job_id (record s { status = running; started_at = some now }) m.jobs;
  waiting_order = remove_waiting_job s.job_id m.waiting_order;
  running_job_id = s.job_id;
  thread = in_run s.job_id;
}

unfoldable pub start_picked : ℕ → Manager × Option JobState → Manager
start_picked now (picked, none) = record picked { shared_pool = expire_pool now picked }
start_picked now (picked, some s) = start_job now s picked

-- The round behind the wait for a running job.
unfoldable pub start_next : ℕ → Manager → Manager
unfolding pick_next_job cleanup_jobs start_picked
start_next now m = start_picked now (pick_next_job (cleanup_jobs now m))

-- A round that finds a job running waits, and the thread stays where it is.
unfoldable pub loop_round : ℕ → Manager → Manager
unfolding start_next
loop_round now m =
    if m.stop
    then record m { thread = ended }
    else if is_nonempty m.running_job_id
    then (if running_is_stale m then start_next now (clear_running now m) else m)
    else start_next now m

-- How `_run_job` ends: the data references cannot be resolved; the payload has no hooks; there is
-- no blob; the hooks have run, or raise; or an exception is raised outside of every `try`, by the
-- blob's decoding, reading or download, and ends the thread.
pub data Outcome : Type 0 where
  refs_unresolved : (error : Text) → Outcome
  hooks_missing : Outcome
  blob_missing : Outcome
  hooks_done : Outcome
  hooks_raised : (error : Text) → Outcome
  escaped : Outcome

abbrev pub fail_job : ℕ → Text → JobState → JobState
fail_job now error s = record s { status = failed; finished_at = some now; error = error }

unfoldable pub finish_state : Outcome → ℕ → JobState → JobState
finish_state (refs_unresolved e) now s = fail_job now e s
finish_state hooks_missing now s = fail_job now (codes "job submit requires hook mode") s
finish_state blob_missing now s = fail_job now (codes "job hook mode requires blob_b64/blob_ref") s
finish_state hooks_done now s = record s {
  finished_at = some now;
  status = if s.cancel_requested then cancelled else succeeded;
}
finish_state (hooks_raised e) now s = fail_job now e s
finish_state escaped now s = s

abbrev pub thread_behind : Outcome → Text → Thread
thread_behind escaped id = ended
thread_behind _ id = behind_run id

-- The write of the outcome to the job that stands under the id.
unfoldable pub run_job : Outcome → ℕ → Text → Manager → Manager
unfolding finish_state
run_job o now id m = elim (get id m.jobs) [
  | none ↦ record m { thread = behind_run id }
  | some s ↦ record m {
    jobs = insert id (finish_state o now s) m.jobs;
    thread = thread_behind o id;
  }
]

-- The end of the round.
unfoldable pub end_round : ℕ → Text → Manager → Manager
unfolding get_job
end_round now id m = record (clear_running now (get_job id m).0) { thread = at_top }
