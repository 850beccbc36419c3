-- ===== src/JobQueue/Stands/Rounds.antt =====
-- The rounds of a scheduler thread, and every step of the calls and rounds.
use new_pycloud.Base.{
  ℕ, ◌*◌, ◌≡◌, refl, sym, subst, false, List, [], ◌∷◌, some, ◌==◌, nat_eq, list_eq, list_beq_iff,
  arith, inl, inr, if-holds, Option-cases,
}
use new_pycloud.Base.Dict.{get, insert, erase, get-insert}
use new_pycloud.Base.Text.{Text, is_nonempty}
use new_pycloud.JobQueue.{running, JobState, Manager, prune_waiting_order, remove_waiting_job}
use new_pycloud.JobQueue.Calls.{running_is_stale}
use new_pycloud.JobQueue.TaskPool.{PoolRequest, Answers, prepare_shared_pool}
use new_pycloud.JobQueue.Loop.{
  drop_jobs, old_ids, cleanup_jobs, clear_running, start_picked, start_next, loop_round, Outcome,
  finish_state, run_job, end_round, second,
}
use new_pycloud.JobQueue.Steps.{
  Step, starts, submits, asks, cancels, reorders, closes, forgets, drops_pool, loops, prepares,
  runs, ends,
}
use new_pycloud.JobQueue.Waiting.{mem-prune, mem-remove}
use new_pycloud.JobQueue.Pick.{pick-PickCases, HasWaiting}
use new_pycloud.JobQueue.Invariant.{is_some}
use new_pycloud.JobQueue.Stands.{
  reorder-Stands, put-Stands, erase-Stands, Stands, Standing, start-Standing, get_job-Standing,
  submit_job-Standing, cancel_job-Standing, reorder_job-Standing, begin_close-Standing,
}

drop_jobs-Standing : (ids : List Text) (m : Manager) → Standing m → Standing (drop_jobs ids m)
unfolding drop_jobs
drop_jobs-Standing [] m v = v
drop_jobs-Standing (id ∷ ids) m v =
    drop_jobs-Standing ids
      (record m { waiting_order = remove_waiting_job id m.waiting_order; jobs = erase id m.jobs })
      (erase-Stands id m.jobs m.waiting_order v)

cleanup-Standing : (now : ℕ) (m : Manager) → Standing m → Standing (cleanup_jobs now m)
unfolding cleanup_jobs
cleanup-Standing now m v =
    if-holds Standing (m.retention_sec == 0) _ _ (λ _. v)
      λ _. drop_jobs-Standing (old_ids (m.retention_sec * second) now m.jobs) m v

Standing-HasWaiting : (m : Manager) → Standing m → HasWaiting m
Standing-HasWaiting m v id h = elim (Option-cases (get id m.jobs)) [
  | inl absent ↦ ground arith
  | inr (s, at) ↦ ground (arith, v.ok id s at)
]

started-Stands :
    (now : ℕ) (id : Text) (s : JobState) (rest : List Text) (jobs : List (Text × JobState))
    (order : List Text)
    → prune_waiting_order jobs order ≡ id ∷ rest
    → get id jobs ≡ some s
    → Stands jobs order
    → is_some s.finished_at ≡ false
    → Stands
        (insert s.job_id (record s { status = running; started_at = some now }) jobs)
        (remove_waiting_job s.job_id (id ∷ rest))
started-Stands now id s rest jobs order e at v unfinished =
    let held = v.ok id s at in
    let started : JobState = record s { status = running; started_at = some now } in
    put-Stands s.job_id started jobs order (remove_waiting_job s.job_id (id ∷ rest))
      (refl, ground (arith, held), unfinished, λ w. ground arith)
      (λ j other pickable stood. ground (
        arith,
        get-insert s.job_id j started jobs,
        mem-prune j jobs order,
        e,
        mem-remove j s.job_id (id ∷ rest),
        list_beq_iff j s.job_id,
        list_beq_iff s.job_id j,
      ))
      v

start_next-Standing : (now : ℕ) (m : Manager) → Standing m → Standing (start_next now m)
unfolding start_next start_picked
start_next-Standing now m v =
    let cleaned = cleanup_jobs now m in
    let kept : Standing cleaned = cleanup-Standing now m v in
    elim (pick-PickCases cleaned (Standing-HasWaiting cleaned kept) kept.unique) [
      | inl (none_waits, e) ↦
          subst (λ p. Standing (start_picked now p)) (sym e)
            (reorder-Stands cleaned.jobs cleaned.waiting_order []
              (λ j pickable stood. ground (arith, none_waits j)) kept)
      | inr (id, s, rest, order, at, pickable, e) ↦
          subst (λ p. Standing (start_picked now p)) (sym e)
            (started-Stands now id s rest cleaned.jobs cleaned.waiting_order order at kept
              (ground (arith, kept.ok id s at)))
    ]

pub loop_round-Standing : (now : ℕ) (m : Manager) → Standing m → Standing (loop_round now m)
unfolding loop_round
loop_round-Standing now m v =
    if-holds Standing m.stop _ _ (λ _. v)
      λ _.
        if-holds Standing (is_nonempty m.running_job_id) _ _
          (λ _.
            if-holds Standing (running_is_stale m) _ _
              (λ _. start_next-Standing now (clear_running now m) v) λ _. v)
          λ _. start_next-Standing now m v

finished-Stands :
    (o : Outcome) (now : ℕ) (id : Text) (s : JobState) (jobs : List (Text × JobState))
    (order : List Text)
    → get id jobs ≡ some s
    → Stands jobs order
    → Stands (insert id (finish_state o now s) jobs) order
unfolding finish_state
finished-Stands o now id s jobs order at v =
    put-Stands id (finish_state o now s) jobs order order (ground (arith, v.ok id s at))
      (λ j other pickable stood. stood) v

pub run_job-Standing :
    (o : Outcome) (now : ℕ) (id : Text) (m : Manager) → Standing m → Standing (run_job o now id m)
unfolding run_job
run_job-Standing o now id m v = elim (Option-cases (get id m.jobs)) [
  | inl absent ↦ rw (run_job, absent) v
  | inr (s, at) ↦ rw (run_job, at) (finished-Stands o now id s m.jobs m.waiting_order at v)
]

end_round-Standing :
    (now : ℕ) (id : Text) (m : Manager) → Standing m → Standing (end_round now id m)
unfolding end_round
end_round-Standing now id m v = get_job-Standing id m v

pub prepare_shared_pool-Standing :
    (q : PoolRequest) (answers : Answers) (now : ℕ) (m : Manager)
    → Standing m
    → Standing (prepare_shared_pool q answers now m)
unfolding prepare_shared_pool
prepare_shared_pool-Standing q answers now m v = v

-- Every step of the one scheduler keeps it.
pub Step-Standing : {m n : Manager} → Step m n → Standing m → Standing n
Step-Standing {m} (starts target) v = start-Standing target m v
Step-Standing {m} {n} (submits env fresh_job fresh_client now sub _ s named e) v =
    submit_job-Standing env fresh_job fresh_client now sub m n s named e v
Step-Standing {m} (asks id) v = get_job-Standing id m v
Step-Standing {m} {n} (cancels env now id token _ e) v =
    cancel_job-Standing env now id token m n e v
Step-Standing {m} (reorders id direction) v = reorder_job-Standing id direction m v
Step-Standing {m} (closes now) v = begin_close-Standing now m v
Step-Standing (forgets over) v = v
Step-Standing drops_pool v = v
Step-Standing {m} (loops now top) v = loop_round-Standing now m v
Step-Standing {m} (prepares q answers now id inside) v =
    prepare_shared_pool-Standing q answers now m v
Step-Standing {m} (runs o now id inside) v = run_job-Standing o now id m v
Step-Standing {m} (ends now id behind) v = end_round-Standing now id m v
