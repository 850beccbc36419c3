-- ===== src/JobQueue/Blocked.antt =====
-- An exception that escapes from `_run_job`: what it leaves behind, and for how long.
use new_pycloud.Base.{
  ℕ, ◌≡◌, refl, sym, subst, Bool, true, false, List, none, some, ◌==◌, nat_eq, list_eq,
  list_beq_iff, beq_refl, arith, inl, inr, Option-cases, if-holds,
}
use new_pycloud.Base.Dict.{get, insert, get-insert}
use new_pycloud.Base.Text.{Text, is_nonempty, strip}
use new_pycloud.JobQueue.{
  Status, waiting, running, cancelled, JobState, Thread, in_run, behind_run, Manager,
  remove_waiting_job, insert_waiting_job,
}
use new_pycloud.JobQueue.Calls.{
  Environment, Submission, submitted, accepted, submit_job, running_is_stale, detach_stale_running,
  ensure_scheduler_thread, start, enqueue, get_job, any_pickable, cancel_job, cancel_authorised,
  cancel_waiting, reorder_job, begin_close, close_state, close_states,
}
use new_pycloud.JobQueue.Loop.{loop_round, escaped, run_job, finish_state}
use new_pycloud.JobQueue.Steps.{
  Step, starts, submits, asks, cancels, reorders, closes, forgets, drops_pool, loops, prepares,
  runs, ends, Reach, Later, stays, next, SubmitsOther,
}
use new_pycloud.JobQueue.Invariant.{Inv}
use new_pycloud.JobQueue.Invariant.Calls.{get-close_states}
use new_pycloud.JobQueue.Invariant.Always.{Step-Inv, Reach-Inv}

abbrev pub is_running : Status → Bool
is_running running = true
is_running _ = false

-- Whether the job under an id is RUNNING.
abbrev pub runs_at : Text → List (Text × JobState) → Bool
runs_at id jobs = elim (get id jobs) [ none ↦ false | some s ↦ is_running s.status ]

-- The thread is outside of `_run_job`.
abbrev pub is_outside : Thread → Bool
is_outside (in_run id) = false
is_outside (behind_run id) = false
is_outside _ = true

-- The manager names a job that is RUNNING while no thread runs it.
pub record IsBlocked (id : Text) (m : Manager) : Type 0 where
  pub named : is_nonempty id ≡ true
  pub held : m.running_job_id ≡ id
  pub unfinished : runs_at id m.jobs ≡ true
  pub outside : is_outside m.thread ≡ true

ensure-IsBlocked :
    (id : Text) (m : Manager) → IsBlocked id m → IsBlocked id (ensure_scheduler_thread m)
unfolding ensure_scheduler_thread
ensure-IsBlocked id m b = record {
  named = b.named;
  held = ground (arith, b.held);
  unfinished = ground (arith, b.unfinished);
  outside = ground (arith, b.outside);
}

-- A blocked manager's job is not stale.
detach_blocked : (id : Text) (m : Manager) → IsBlocked id m → (detach_stale_running m).0 ≡ m
unfolding detach_stale_running
detach_blocked id m b = ground (arith, b.unfinished, b.held)

put-IsBlocked :
    (id j : Text) (s : JobState) (order : List Text) (seq : ℕ) (m : Manager)
    → IsBlocked id m
    → ((j == id) ≡ true → is_running s.status ≡ true)
    → IsBlocked id (record m { jobs = insert j s m.jobs; waiting_order = order; enqueue_seq = seq })
put-IsBlocked id j s order seq m b still = record {
  named = b.named;
  held = b.held;
  unfinished = ground (arith, get-insert j id s m.jobs, b.unfinished, still);
  outside = b.outside;
}

get_job-IsBlocked : (id j : Text) (m : Manager) → IsBlocked id m → IsBlocked id (get_job j m).0
unfolding get_job
get_job-IsBlocked id j m b =
    let still : IsBlocked id (detach_stale_running m).0 =
      subst (IsBlocked id) (sym (detach_blocked id m b)) b in
    if-holds (IsBlocked id) (any_pickable (detach_stale_running m).0.jobs) _ _
      (λ _. ensure-IsBlocked id _ still) λ _. still

start-IsBlocked : (id target : Text) (m : Manager) → IsBlocked id m → IsBlocked id (start target m)
unfolding start
start-IsBlocked id target m b = record {
  named = b.named;
  held = ground (arith, b.held);
  unfinished = ground (arith, b.unfinished);
  outside = ground (arith, b.outside);
}

submit_job-IsBlocked :
    (id : Text) (env : Environment) (fresh_job fresh_client : Text) (now : ℕ) (sub : Submission)
    (m m' : Manager) (s : JobState)
    → submit_job env fresh_job fresh_client now sub m ≡ submitted m' s
    → (s.job_id == id) ≡ false
    → IsBlocked id m
    → IsBlocked id m'
unfolding submit_job enqueue
submit_job-IsBlocked id env fresh_job fresh_client now sub m m' s e other b =
    let d = (detach_stale_running m).0 in
    let still : IsBlocked id d = subst (IsBlocked id) (sym (detach_blocked id m b)) b in
    let made : enqueue s d ≡ m' = ground (arith, e) in
    subst (IsBlocked id) made (
      ensure-IsBlocked id _ (
        put-IsBlocked id s.job_id s
          (insert_waiting_job (insert s.job_id s d.jobs) s d.waiting_order) s.enqueue_seq d still
          λ same. ground arith))

cancel_authorised-IsBlocked :
    (id : Text) (now : ℕ) (j : Text) (s : JobState) (m : Manager)
    → get j m.jobs ≡ some s
    → IsBlocked id m
    → IsBlocked id (cancel_authorised now j s m)
unfolding cancel_authorised
cancel_authorised-IsBlocked id now j s m at b = go s.status refl
  where
    go : (w : Status) → s.status ≡ w → IsBlocked id (cancel_authorised now j s m)
    go waiting e = subst (IsBlocked id) (ground arith) (
        put-IsBlocked id j (cancel_waiting now s) (remove_waiting_job s.job_id m.waiting_order)
          m.enqueue_seq m b λ same. ground (arith, list_beq_iff j id, b.unfinished))
    go running e = subst (IsBlocked id) (ground arith) (
        put-IsBlocked id j (record s { cancel_requested = true }) m.waiting_order m.enqueue_seq m b
          λ same. ground arith)
    go Status.succeeded e = subst (IsBlocked id) (ground arith) b
    go Status.failed e = subst (IsBlocked id) (ground arith) b
    go cancelled e = subst (IsBlocked id) (ground arith) b

cancel_job-IsBlocked :
    (id : Text) (env : Environment) (now : ℕ) (job_id token : Text) (m m' : Manager)
    → cancel_job env now job_id token m ≡ accepted m'
    → IsBlocked id m
    → IsBlocked id m'
unfolding cancel_job
cancel_job-IsBlocked id env now job_id token m m' e b =
    elim (Option-cases (get (strip job_id) m.jobs)) [
      | inl absent ↦ ground arith
      | inr (s, at) ↦
          subst (IsBlocked id) (ground arith)
            (cancel_authorised-IsBlocked id now (strip job_id) s m at b)
    ]

reorder_job-IsBlocked :
    (id job_id direction : Text) (m : Manager)
    → IsBlocked id m
    → IsBlocked id (reorder_job job_id direction m).0
unfolding reorder_job
reorder_job-IsBlocked id job_id direction m b = record {
  named = b.named;
  held = ground (arith, b.held);
  unfinished = ground (arith, b.unfinished);
  outside = ground (arith, b.outside);
}

begin_close-IsBlocked :
    (id : Text) (now : ℕ) (m : Manager) → IsBlocked id m → IsBlocked id (begin_close now m)
unfolding begin_close
begin_close-IsBlocked id now m b = record {
  named = b.named;
  held = ground (arith, b.held);
  unfinished = elim (Option-cases (get id m.jobs)) [
    | inl absent ↦ ground (arith, b.unfinished)
    | inr (s, at) ↦ ground (
      arith,
      get-close_states now id m.jobs,
      b.unfinished,
      b.held,
      beq_refl id,
      get-insert id id (record (close_state now s) { cancel_requested = true })
          (close_states now m.jobs),
    )
  ];
  outside = ground (arith, b.outside);
}

loop_round-IsBlocked :
    (id : Text) (now : ℕ) (m : Manager) → IsBlocked id m → IsBlocked id (loop_round now m)
unfolding loop_round
loop_round-IsBlocked id now m b =
    if-holds (IsBlocked id) m.stop _ _
      (λ _. record { named = b.named; held = b.held; unfinished = b.unfinished; outside = refl })
      λ _.
        if-holds (IsBlocked id) (is_nonempty m.running_job_id) _ _
          (λ _.
            if-holds (IsBlocked id) (running_is_stale m) _ _
              (λ stale. ground (arith, b.held, b.unfinished)) λ _. b)
          λ idle. ground (arith, b.held, b.named)

Step-IsBlocked :
    (id : Text) {m n : Manager} (st : Step m n)
    → SubmitsOther id st
    → IsBlocked id m
    → IsBlocked id n
Step-IsBlocked id {m} (starts target) other b = start-IsBlocked id target m b
Step-IsBlocked id {m} {n} (submits env fj fc now sub _ s named e) other b =
    submit_job-IsBlocked id env fj fc now sub m n s e other b
Step-IsBlocked id {m} (asks j) other b = get_job-IsBlocked id j m b
Step-IsBlocked id {m} {n} (cancels env now j token _ e) other b =
    cancel_job-IsBlocked id env now j token m n e b
Step-IsBlocked id {m} (reorders j direction) other b = reorder_job-IsBlocked id j direction m b
Step-IsBlocked id {m} (closes now) other b = begin_close-IsBlocked id now m b
Step-IsBlocked id {m} (forgets over) other b = record {
  named = b.named;
  held = b.held;
  unfinished = b.unfinished;
  outside = refl;
}
Step-IsBlocked id {m} drops_pool other b = record {
  named = b.named;
  held = b.held;
  unfinished = b.unfinished;
  outside = b.outside;
}
Step-IsBlocked id {m} (loops now top) other b = loop_round-IsBlocked id now m b
Step-IsBlocked id {m} (prepares q answers now j inside) other b = ground (arith, b.outside)
Step-IsBlocked id {m} (runs o now j inside) other b = ground (arith, b.outside)
Step-IsBlocked id {m} (ends now j behind) other b = ground (arith, b.outside)

Later-IsBlocked : (id : Text) {m n : Manager} → Later id m n → IsBlocked id m → IsBlocked id n
Later-IsBlocked id stays b = b
Later-IsBlocked id (next l st other) b = Step-IsBlocked id st other (Later-IsBlocked id l b)

Later-Inv : (id : Text) {m n : Manager} → Later id m n → Inv m → Inv n
Later-Inv id stays v = v
Later-Inv id (next l st other) v = Step-Inv st (Later-Inv id l v)

escaped-IsBlocked :
    (id : Text) (now : ℕ) (m : Manager) (s : JobState)
    → Inv m
    → get id m.jobs ≡ some s
    → s.status ≡ running
    → IsBlocked id (run_job escaped now id m)
unfolding run_job finish_state
escaped-IsBlocked id now m s v at runs_now = record {
  named = ground (arith, v.ok id s at);
  held = ground (arith, v.ok id s at);
  unfinished = ground (arith, get-insert id id s m.jobs, beq_refl id);
  outside = ground arith;
}

-- As long as no `close` gives up a live thread: an exception that escapes from `_run_job` in a
-- reachable state leaves its job RUNNING, and in every later state before which the id was not
-- submitted again, whatever else the clients call and however often the scheduler is restarted, the
-- job is RUNNING still and no other job is: no job that waits is ever started.
pub escaped_blocks :
    {retention idle_ttl : ℕ} (id : Text) (now : ℕ) {m n : Manager} (s : JobState)
    → Reach retention idle_ttl m
    → m.thread ≡ in_run id
    → get id m.jobs ≡ some s
    → s.status ≡ running
    → Later id (run_job escaped now id m) n
    → (runs_at id n.jobs ≡ true)
      × ((j : Text) (t : JobState) → get j n.jobs ≡ some t → t.status ≡ running → j ≡ id)
escaped_blocks id now {m} {n} s r inside at runs_now l =
    let blocked : IsBlocked id n =
      Later-IsBlocked id l (escaped-IsBlocked id now m s (Reach-Inv r) at runs_now) in
    let v : Inv n = Later-Inv id l (Step-Inv (runs escaped now id inside) (Reach-Inv r)) in
    (blocked.unfinished, λ j t at_j runs_j. ground (arith, v.ok j t at_j, blocked.held))
