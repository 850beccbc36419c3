-- ===== src/JobQueue/Stands.antt =====
-- What the calls and the rounds keep of the jobs and their order however many scheduler threads
-- there are: all of JobOk but the name of the running job.
pub mod Rounds
use new_pycloud.Base.{
  ℕ, ◌*◌, ◌+◌, ◌≡◌, refl, sym, subst, ap, ◌∙◌, true, false, List, [], ◌∷◌, none, some, ◌==◌, nat_eq,
  list_eq, list_beq_iff, beq_refl, arith, inl, inr, if-holds, Option-cases, Bool-cases,
}
use new_pycloud.Base.Dict.{
  get, insert, erase, HasUniqueKeys, get-insert, get-erase, insert-HasUniqueKeys,
  erase-HasUniqueKeys,
}
use new_pycloud.Base.Text.{Text, is_nonempty, strip}
use new_pycloud.JobQueue.{
  Status, waiting, running, cancelled, is_terminal, is_waiting, JobState, at_top, behind_run, ended,
  Manager, mem, pickable_at, prune_waiting_order, remove_waiting_job, insert_waiting_job,
}
use new_pycloud.JobQueue.Calls.{
  running_is_stale, Environment, Submission, submitted, accepted, start, submit_job, new_job,
  enqueue, ensure_scheduler_thread, detach_stale_running, get_job, cancel_job, cancel_authorised,
  cancel_waiting, reorder_job, begin_close, close_state, close_states,
}
use new_pycloud.JobQueue.TaskPool.{PoolRequest, Answers, prepare_shared_pool}
use new_pycloud.JobQueue.Loop.{
  drop_jobs, old_ids, cleanup_jobs, clear_running, start_picked, start_next, loop_round, Outcome,
  finish_state, thread_behind, run_job, end_round, second,
}
use new_pycloud.JobQueue.Steps.{
  Step, starts, submits, asks, cancels, reorders, closes, forgets, drops_pool, loops, prepares,
  runs, ends,
}
use new_pycloud.JobQueue.Waiting.{mem-prune, mem-remove, mem-insert_waiting}
use new_pycloud.JobQueue.Pick.{pick-PickCases, HasWaiting}
use new_pycloud.JobQueue.Invariant.{is_some}
use new_pycloud.JobQueue.Invariant.Calls.{
  or_text-nonempty, reorder_job_cases, get-close_states, close_states-HasUniqueKeys,
}
use new_pycloud.JobQueue.Final.{get_job-jobs, start-jobs, detach-jobs, submit_job-jobs}

-- A job stands under its id, has a time of its end exactly if it is terminal, and is in the order
-- and not cancelled while it waits.
abbrev pub JobStands : List Text → Text → JobState → Type 0
JobStands order id s =
    (s.job_id ≡ id)
    × (is_nonempty id ≡ true)
    × (is_some s.finished_at ≡ is_terminal s.status)
    × (s.status ≡ waiting → (s.cancel_requested ≡ false) × (mem id order ≡ true))

pub record Stands (jobs : List (Text × JobState)) (order : List Text) : Type 0 where
  pub unique : HasUniqueKeys jobs
  pub ok : (id : Text) (s : JobState) → get id jobs ≡ some s → JobStands order id s

-- The job `s` is put under `id`; the order keeps the others.
pub put-Stands :
    (id : Text) (s : JobState) (jobs : List (Text × JobState)) (order order' : List Text)
    → JobStands order' id s
    → ((j : Text)
        → (id == j) ≡ false
        → pickable_at j (insert id s jobs) ≡ true
        → mem j order ≡ true
        → mem j order' ≡ true)
    → Stands jobs order
    → Stands (insert id s jobs) order'
put-Stands id s jobs order order' fits kept v = record {
  unique = insert-HasUniqueKeys id s jobs v.unique;
  ok = λ j x at. ground (arith, get-insert id j s jobs, list_beq_iff id j, v.ok j x, fits, kept j);
}

pub reorder-Stands :
    (jobs : List (Text × JobState)) (order order' : List Text)
    → ((j : Text) → pickable_at j jobs ≡ true → mem j order ≡ true → mem j order' ≡ true)
    → Stands jobs order
    → Stands jobs order'
reorder-Stands jobs order order' kept v = record {
  unique = v.unique;
  ok = λ j x at. ground (arith, v.ok j x at, kept j);
}

pub erase-Stands :
    (id : Text) (jobs : List (Text × JobState)) (order : List Text)
    → Stands jobs order
    → Stands (erase id jobs) (remove_waiting_job id order)
erase-Stands id jobs order v = record {
  unique = erase-HasUniqueKeys id jobs v.unique;
  ok = λ j s at. ground (
    arith,
    get-erase id j jobs,
    mem-remove j id order,
    list_beq_iff j id,
    list_beq_iff id j,
    v.ok j s,
  );
}

closed-Stands :
    (now : ℕ) (jobs : List (Text × JobState)) (order : List Text)
    → Stands jobs order
    → Stands (close_states now jobs) order
closed-Stands now jobs order v = record {
  unique = close_states-HasUniqueKeys now jobs v.unique;
  ok = λ id s at. elim (Option-cases (get id jobs)) [
    | inl absent ↦ ground (arith, get-close_states now id jobs)
    | inr (old, at_old) ↦ ground (arith, get-close_states now id jobs, v.ok id old at_old)
  ];
}

abbrev pub Standing : Manager → Type 0
Standing m = Stands m.jobs m.waiting_order

same-Standing :
    (m n : Manager) → n.jobs ≡ m.jobs → n.waiting_order ≡ m.waiting_order → Standing m → Standing n
same-Standing m n jobs order v =
    subst (λ x. Stands x n.waiting_order) (sym jobs) (subst (λ x. Stands m.jobs x) (sym order) v)

pub start-Standing : (target : Text) (m : Manager) → Standing m → Standing (start target m)
unfolding start
start-Standing target m = same-Standing m (start target m) (ground arith) (ground arith)

pub get_job-Standing : (id : Text) (m : Manager) → Standing m → Standing (get_job id m).0
unfolding get_job detach_stale_running ensure_scheduler_thread
get_job-Standing id m = same-Standing m (get_job id m).0 (ground arith) (ground arith)

submit_job-order :
    (env : Environment) (fresh_job fresh_client : Text) (now : ℕ) (sub : Submission)
    (m m' : Manager) (s : JobState)
    → submit_job env fresh_job fresh_client now sub m ≡ submitted m' s
    → m'.waiting_order ≡ insert_waiting_job (insert s.job_id s m.jobs) s m.waiting_order
unfolding submit_job enqueue ensure_scheduler_thread detach_stale_running
submit_job-order env fresh_job fresh_client now sub m m' s e = ground (arith, e)

submitted_lem :
    (env : Environment) (fresh_job fresh_client : Text) (now : ℕ) (sub : Submission)
    (m m' : Manager) (s : JobState)
    → is_nonempty fresh_job ≡ true
    → submit_job env fresh_job fresh_client now sub m ≡ submitted m' s
    → (is_nonempty s.job_id ≡ true)
      × (s.status ≡ waiting)
      × (s.finished_at ≡ none)
      × (s.cancel_requested ≡ false)
unfolding submit_job new_job
submitted_lem env fresh_job fresh_client now sub m m' s named e =
    ground (arith, or_text-nonempty (strip sub.job_id) fresh_job named)

pub submit_job-Standing :
    (env : Environment) (fresh_job fresh_client : Text) (now : ℕ) (sub : Submission)
    (m m' : Manager) (s : JobState)
    → is_nonempty fresh_job ≡ true
    → submit_job env fresh_job fresh_client now sub m ≡ submitted m' s
    → Standing m
    → Standing m'
submit_job-Standing env fresh_job fresh_client now sub m m' s named e v =
    let (filled, waits, unfinished, kept) =
      submitted_lem env fresh_job fresh_client now sub m m' s named e in
    let order = insert_waiting_job (insert s.job_id s m.jobs) s m.waiting_order in
    let there = mem-insert_waiting s.job_id (insert s.job_id s m.jobs) s m.waiting_order in
    subst (λ x. Stands x m'.waiting_order)
      (sym (submit_job-jobs env fresh_job fresh_client now sub m m' s e))
      (subst (λ x. Stands (insert s.job_id s m.jobs) x)
        (sym (submit_job-order env fresh_job fresh_client now sub m m' s e))
        (put-Stands s.job_id s m.jobs m.waiting_order order
          (refl, filled, ground arith, λ w. (kept, ground (arith, there, beq_refl s.job_id)))
          (λ j other pickable stood.
            ground (arith, mem-insert_waiting j (insert s.job_id s m.jobs) s m.waiting_order))
          v))

-- A job that does not wait is marked as cancelled.
flagged-Stands :
    (id : Text) (s : JobState) (jobs : List (Text × JobState)) (order : List Text)
    → get id jobs ≡ some s
    → is_waiting s.status ≡ false
    → Stands jobs order
    → Stands (insert id (record s { cancel_requested = true }) jobs) order
flagged-Stands id s jobs order at apart v =
    let held = v.ok id s at in
    put-Stands id (record s { cancel_requested = true }) jobs order order
      (held.0, held.1, held.2, λ w. ground arith) (λ j other pickable stood. stood) v

cancelled-Stands :
    (now : ℕ) (id : Text) (s : JobState) (jobs : List (Text × JobState)) (order : List Text)
    → get id jobs ≡ some s
    → Stands jobs order
    → Stands (insert id (cancel_waiting now s) jobs) (remove_waiting_job s.job_id order)
cancelled-Stands now id s jobs order at v =
    let held = v.ok id s at in
    put-Stands id (cancel_waiting now s) jobs order (remove_waiting_job s.job_id order)
      (held.0, held.1, refl, λ w. ground arith)
      (λ j other pickable stood.
        ground
          (arith, mem-remove j s.job_id order, list_beq_iff j s.job_id, list_beq_iff id j, held.0))
      v

cancel_authorised-Standing :
    (now : ℕ) (id : Text) (s : JobState) (m : Manager)
    → get id m.jobs ≡ some s
    → Standing m
    → Standing (cancel_authorised now id s m)
unfolding cancel_authorised
cancel_authorised-Standing now id s m at v = go s.status refl
  where
    kept : m ≡ cancel_authorised now id s m → Standing (cancel_authorised now id s m)
    kept same = subst Standing same v

    go : (w : Status) → s.status ≡ w → Standing (cancel_authorised now id s m)
    go waiting e =
        let made : record m {
          jobs = insert id (cancel_waiting now s) m.jobs;
          waiting_order = remove_waiting_job s.job_id m.waiting_order;
        }
            ≡ cancel_authorised now id s m =
          ground arith in
        subst Standing made (cancelled-Stands now id s m.jobs m.waiting_order at v)
    go running e =
        let made : record m { jobs = insert id (record s { cancel_requested = true }) m.jobs }
            ≡ cancel_authorised now id s m =
          ground arith in
        subst Standing made (flagged-Stands id s m.jobs m.waiting_order at (ground arith) v)
    go Status.succeeded e = kept (ground arith)
    go Status.failed e = kept (ground arith)
    go cancelled e = kept (ground arith)

pub cancel_job-Standing :
    (env : Environment) (now : ℕ) (job_id token : Text) (m m' : Manager)
    → cancel_job env now job_id token m ≡ accepted m'
    → Standing m
    → Standing m'
unfolding cancel_job
cancel_job-Standing env now job_id token m m' e v =
    elim (Option-cases (get (strip job_id) m.jobs)) [
      | inl absent ↦ ground arith
      | inr (s, at) ↦
          let made : cancel_authorised now (strip job_id) s m ≡ m' = ground arith in
          subst Standing made (cancel_authorised-Standing now (strip job_id) s m at v)
    ]

pub reorder_job-Standing :
    (job_id direction : Text) (m : Manager)
    → Standing m
    → Standing (reorder_job job_id direction m).0
reorder_job-Standing job_id direction m v =
    reorder_job_cases Standing job_id direction m v
      λ order kept. reorder-Stands m.jobs m.waiting_order order kept v

pub begin_close-Standing : (now : ℕ) (m : Manager) → Standing m → Standing (begin_close now m)
unfolding begin_close
begin_close-Standing now m v =
    let closed = closed-Stands now m.jobs m.waiting_order v in
    elim (Bool-cases (is_nonempty m.running_job_id)) [
      | inr idle ↦ rw idle closed
      | inl busy ↦ elim (Option-cases (get m.running_job_id (close_states now m.jobs))) [
        | inl absent ↦ rw (busy, absent) closed
        | inr (s, at) ↦
            rw (busy, at)
              (flagged-Stands m.running_job_id s (close_states now m.jobs) m.waiting_order at
                (ground (arith, get-close_states now m.running_job_id m.jobs)) closed)
      ]
    ]
