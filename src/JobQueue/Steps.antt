-- ===== src/JobQueue/Steps.antt =====
-- The interleavings of the clients' calls with the scheduler thread, a block under the lock being
-- one step. `close` is its three blocks, the last two at any later time; here the thread that it
-- forgets has ended, so that there is one scheduler thread at most. Orphans has the histories in
-- which the join of `close` has timed out and the forgotten thread goes on.
use new_pycloud.Base.{ℕ, ◌≡◌, true, false, [], none, ◌==◌, nat_eq, list_eq}
use new_pycloud.Base.Text.{Text, is_nonempty}
use new_pycloud.JobQueue.{JobState, no_thread, at_top, in_run, behind_run, Manager}
use new_pycloud.JobQueue.Calls.{
  Environment, Submission, submitted, accepted, start, submit_job, get_job, cancel_job, reorder_job,
  begin_close, is_alive, forget_thread, drop_shared_pool,
}
use new_pycloud.JobQueue.TaskPool.{PoolRequest, Answers, prepare_shared_pool}
use new_pycloud.JobQueue.Loop.{Outcome, loop_round, run_job, end_round}

abbrev pub new_manager : ℕ → ℕ → Manager
new_manager retention idle_ttl = record {
  jobs = [];
  waiting_order = [];
  enqueue_seq = 0;
  running_job_id = [];
  current_executor = none;
  shared_pool = none;
  controlplane_target = [];
  stop = false;
  started = false;
  thread = no_thread;
  retention_sec = retention;
  pool_idle_ttl_sec = idle_ttl;
}

pub data Step (m : Manager) : Manager → Type 0 where
  starts : (target : Text) → Step m (start target m)
  submits :
      (env : Environment) (fresh_job fresh_client : Text) (now : ℕ) (sub : Submission)
      (m' : Manager) (s : JobState)
      → is_nonempty fresh_job ≡ true
      → submit_job env fresh_job fresh_client now sub m ≡ submitted m' s
      → Step m m'
  asks : (job_id : Text) → Step m (get_job job_id m).0
  cancels :
      (env : Environment) (now : ℕ) (job_id token : Text) (m' : Manager)
      → cancel_job env now job_id token m ≡ accepted m'
      → Step m m'
  reorders : (job_id direction : Text) → Step m (reorder_job job_id direction m).0
  closes : (now : ℕ) → Step m (begin_close now m)
  forgets : is_alive m.thread ≡ false → Step m (forget_thread m)
  drops_pool : Step m (drop_shared_pool m)
  loops : (now : ℕ) → m.thread ≡ at_top → Step m (loop_round now m)
  prepares :
      (q : PoolRequest) (answers : Answers) (now : ℕ) (id : Text)
      → m.thread ≡ in_run id
      → Step m (prepare_shared_pool q answers now m)
  runs : (o : Outcome) (now : ℕ) (id : Text) → m.thread ≡ in_run id → Step m (run_job o now id m)
  ends : (now : ℕ) (id : Text) → m.thread ≡ behind_run id → Step m (end_round now id m)

pub data Reach (retention idle_ttl : ℕ) : Manager → Type 0 where
  begins : Reach retention idle_ttl (new_manager retention idle_ttl)
  later : {m n : Manager} → Reach retention idle_ttl m → Step m n → Reach retention idle_ttl n

-- A step that does not submit the id again.
abbrev pub SubmitsOther : (id : Text) {m n : Manager} → Step m n → Type 0
SubmitsOther id (submits env fresh_job fresh_client now sub n s named e) = (s.job_id == id) ≡ false
SubmitsOther id _ = Unit

-- What follows on a state while the id is not submitted again.
pub data Later (id : Text) (m : Manager) : Manager → Type 0 where
  stays : Later id m m
  next : {n p : Manager} → Later id m n → (st : Step n p) → SubmitsOther id st → Later id m p
