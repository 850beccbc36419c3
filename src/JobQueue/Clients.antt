-- ===== src/JobQueue/Clients.antt =====
-- What a client's call achieves: cancellation by the owner, and the submission of an id again.
use new_pycloud.Base.{
  ℕ, ◌≡◌, subst, ap, ◌∙◌, true, false, none, some, nat_eq, list_eq, list_beq_iff, beq_refl, arith,
}
use new_pycloud.Base.Dict.{get, insert, get-insert_self}
use new_pycloud.Base.Text.{Text, is_nonempty, strip}
use new_pycloud.JobQueue.{
  waiting, succeeded, JobState, in_run, Manager, mem, pickable_at, remove_waiting_job,
}
use new_pycloud.JobQueue.Calls.{
  Environment, Submission, submitted, accepted, auth_token_digest, is_expired, submit_job, new_job,
  detach_stale_running, enqueue, ensure_scheduler_thread, cancel_job, cancel_authorised,
  cancel_waiting,
}
use new_pycloud.JobQueue.Loop.{hooks_done, run_job, finish_state}
use new_pycloud.JobQueue.Waiting.{mem-remove}
use new_pycloud.JobQueue.Final.{submit_job-jobs}

-- A cancellation that is accepted for a job with an owner carries a token with the owner's digest,
-- and comes before the token's expiry.
pub cancel_job-owner :
    (env : Environment) (now : ℕ) (job_id token : Text) (m m' : Manager) (s : JobState)
    → get (strip job_id) m.jobs ≡ some s
    → is_nonempty s.owner_token_digest ≡ true
    → cancel_job env now job_id token m ≡ accepted m'
    → (auth_token_digest env token ≡ s.owner_token_digest)
      × (is_expired s.owner_token_expires_at now ≡ false)
unfolding cancel_job
cancel_job-owner env now job_id token m m' s at owned e =
    ground (arith, list_beq_iff (auth_token_digest env token) s.owner_token_digest)

cancel_job-accepted :
    (env : Environment) (now : ℕ) (job_id token : Text) (m m' : Manager) (s : JobState)
    → get (strip job_id) m.jobs ≡ some s
    → cancel_job env now job_id token m ≡ accepted m'
    → cancel_authorised now (strip job_id) s m ≡ m'
unfolding cancel_job
cancel_job-accepted env now job_id token m m' s at e = ground arith

-- A job that waits is CANCELLED by a call that is accepted, has the time of the call as its end, and
-- is out of the order of waiting jobs.
pub cancel_job_waiting :
    (env : Environment) (now : ℕ) (job_id token : Text) (m m' : Manager) (s : JobState)
    → get (strip job_id) m.jobs ≡ some s
    → s.job_id ≡ strip job_id
    → s.status ≡ waiting
    → cancel_job env now job_id token m ≡ accepted m'
    → (get (strip job_id) m'.jobs ≡ some (cancel_waiting now s))
      × (mem (strip job_id) m'.waiting_order ≡ false)
unfolding cancel_authorised
cancel_job_waiting env now job_id token m m' s at named waits e =
    let id = strip job_id in
    let taken : Manager = record m {
      jobs = insert id (cancel_waiting now s) m.jobs;
      waiting_order = remove_waiting_job s.job_id m.waiting_order;
    } in
    let made : taken ≡ m' =
      ground (arith, waits, cancel_job-accepted env now job_id token m m' s at e) in
    (
      subst (λ (x : Manager). get id x.jobs ≡ some (cancel_waiting now s)) made
          (get-insert_self id (cancel_waiting now s) m.jobs),
      subst (λ (x : Manager). mem id x.waiting_order ≡ false) made
          (mem-remove id s.job_id m.waiting_order ∙ ground (arith, beq_refl id, named)),
    )

submitted-new :
    (env : Environment) (fresh_job fresh_client : Text) (now : ℕ) (sub : Submission)
    (m m' : Manager) (s : JobState)
    → submit_job env fresh_job fresh_client now sub m ≡ submitted m' s
    → (s.cancel_requested ≡ false) × (s.started_at ≡ none)
unfolding submit_job new_job
submitted-new env fresh_job fresh_client now sub m m' s e = ground arith

submitted-thread :
    (env : Environment) (fresh_job fresh_client : Text) (now : ℕ) (sub : Submission)
    (m m' : Manager) (s : JobState) (id : Text)
    → submit_job env fresh_job fresh_client now sub m ≡ submitted m' s
    → m.thread ≡ in_run id
    → m'.thread ≡ in_run id
unfolding submit_job enqueue ensure_scheduler_thread detach_stale_running
submitted-thread env fresh_job fresh_client now sub m m' s id e inside = ground arith

-- A submission of an id that the scheduler runs leaves the run going and replaces the job, and the
-- end of the run is then written to the new job: it is SUCCEEDED although it was never started, and
-- cannot be started any more.
pub resubmitted_never_starts :
    (env : Environment) (fresh_job fresh_client : Text) (now later : ℕ) (sub : Submission)
    (m m' : Manager) (s : JobState)
    → submit_job env fresh_job fresh_client now sub m ≡ submitted m' s
    → m.thread ≡ in_run s.job_id
    → (m'.thread ≡ in_run s.job_id)
      × (s.started_at ≡ none)
      × (get s.job_id (run_job hooks_done later s.job_id m').jobs
          ≡ some (record s { status = succeeded; finished_at = some later }))
      × (pickable_at s.job_id (run_job hooks_done later s.job_id m').jobs ≡ false)
unfolding run_job finish_state
resubmitted_never_starts env fresh_job fresh_client now later sub m m' s e inside =
    let done : JobState = record s { status = succeeded; finished_at = some later } in
    let (kept, unstarted) = submitted-new env fresh_job fresh_client now sub m m' s e in
    let at : get s.job_id m'.jobs ≡ some s =
      ap (get s.job_id) (submit_job-jobs env fresh_job fresh_client now sub m m' s e)
      ∙ get-insert_self s.job_id s m.jobs in
    let written : get s.job_id (run_job hooks_done later s.job_id m').jobs ≡ some done =
      ground (arith, get-insert_self s.job_id done m'.jobs) in
    (
      submitted-thread env fresh_job fresh_client now sub m m' s s.job_id e inside,
      unstarted,
      written,
      ground (arith, written),
    )
