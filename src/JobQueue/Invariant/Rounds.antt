-- ===== src/JobQueue/Invariant/Rounds.antt =====
-- The rounds of the scheduler thread keep the invariant.
use new_pycloud.Base.{
  ℕ, ◌*◌, ◌≡◌, refl, sym, subst, ◌∙◌, true, false, ◌||◌, List, [], ◌∷◌, Option, none, some, ◌==◌,
  nat_eq, list_eq, list_beq_iff, beq_refl, arith, inl, inr, if-holds, Option-cases, Bool-cases,
}
use new_pycloud.Base.Dict.{
  get, insert, erase, get-insert, get-erase, insert-HasUniqueKeys, erase-HasUniqueKeys,
}
use new_pycloud.Base.Text.{Text, is_nonempty}
use new_pycloud.JobQueue.{
  running, is_terminal, is_waiting, JobState, SharedPool, at_top, in_run, behind_run, ended,
  Manager, pickable_at, prune_waiting_order, remove_waiting_job,
}
use new_pycloud.JobQueue.Calls.{running_is_stale, get_job}
use new_pycloud.JobQueue.TaskPool.{PoolRequest, Answers, prepare_shared_pool}
use new_pycloud.JobQueue.Loop.{
  drop_jobs, old_ids, cleanup_jobs, clear_running, expire_pool, start_job, start_picked, start_next,
  loop_round, Outcome, finish_state, thread_behind, run_job, end_round, second,
}
use new_pycloud.JobQueue.Waiting.{mem-prune, mem-remove}
use new_pycloud.JobQueue.Pick.{pick_next_job-cases}
use new_pycloud.JobQueue.Invariant.{Inv, get_job-Inv, get_job-thread}

drop_one-Inv :
    (id : Text) (m : Manager)
    → Inv m
    → Inv
        (record m { waiting_order = remove_waiting_job id m.waiting_order; jobs = erase id m.jobs })
drop_one-Inv id m v = record {
  unique = erase-HasUniqueKeys id m.jobs v.unique;
  ok = λ j s at. ground (
    arith,
    get-erase id j m.jobs,
    mem-remove j id m.waiting_order,
    list_beq_iff j id,
    list_beq_iff id j,
    v.ok j s,
  );
}

drop_jobs-Inv : (ids : List Text) (m : Manager) → Inv m → Inv (drop_jobs ids m)
unfolding drop_jobs
drop_jobs-Inv [] m v = v
drop_jobs-Inv (id ∷ ids) m v = drop_jobs-Inv ids _ (drop_one-Inv id m v)

drop_jobs-running :
    (ids : List Text) (m : Manager) → (drop_jobs ids m).running_job_id ≡ m.running_job_id
unfolding drop_jobs
drop_jobs-running [] m = refl
drop_jobs-running (id ∷ ids) m = drop_jobs-running ids _

pub cleanup-Inv : (now : ℕ) (m : Manager) → Inv m → Inv (cleanup_jobs now m)
unfolding cleanup_jobs
cleanup-Inv now m v = elim (Bool-cases (m.retention_sec == 0)) [
  | inl forever ↦ rw forever v
  | inr limited ↦ rw limited (drop_jobs-Inv (old_ids (m.retention_sec * second) now m.jobs) m v)
]

cleanup-running : (now : ℕ) (m : Manager) → (cleanup_jobs now m).running_job_id ≡ m.running_job_id
unfolding cleanup_jobs
cleanup-running now m =
    ground (arith, drop_jobs-running (old_ids (m.retention_sec * second) now m.jobs) m)

pub clear-Inv :
    (now : ℕ) (m : Manager)
    → ((id : Text) (s : JobState)
        → get id m.jobs ≡ some s
        → is_terminal s.status || is_waiting s.status ≡ true)
    → Inv m
    → Inv (clear_running now m)
clear-Inv now m none_runs v = record {
  unique = v.unique;
  ok = λ id s at. ground (arith, none_runs id s at, v.ok id s at);
}

started-Inv :
    (now : ℕ) (m : Manager) (id : Text) (s : JobState) (rest : List Text)
    → m.running_job_id ≡ []
    → prune_waiting_order m.jobs m.waiting_order ≡ id ∷ rest
    → get id m.jobs ≡ some s
    → Inv m
    → s.job_id ≡ id
    → Inv (start_job now s (record m { waiting_order = id ∷ rest }))
started-Inv now m id s rest idle e at v named = record {
  unique = insert-HasUniqueKeys s.job_id _ m.jobs v.unique;
  ok = λ j x at_j. ground (
    arith,
    get-insert s.job_id j (record s { status = running; started_at = some now }) m.jobs,
    list_beq_iff s.job_id j,
    list_beq_iff j s.job_id,
    mem-prune j m.jobs m.waiting_order,
    e,
    mem-remove j s.job_id (id ∷ rest),
    v.ok j x,
    v.ok id s at,
    beq_refl s.job_id,
  );
}

none_runs_of_idle :
    (m : Manager)
    → m.running_job_id ≡ []
    → Inv m
    → (id : Text) (s : JobState) → get id m.jobs ≡ some s
    → is_terminal s.status || is_waiting s.status ≡ true
none_runs_of_idle m idle v id s at = ground (arith, v.ok id s at)

pub none_runs_of_stale :
    (m : Manager)
    → running_is_stale m ≡ true
    → Inv m
    → (id : Text) (s : JobState) → get id m.jobs ≡ some s
    → is_terminal s.status || is_waiting s.status ≡ true
none_runs_of_stale m stale v id s at = ground (arith, v.ok id s at)

idled-Inv :
    (m : Manager) (pool : Option SharedPool)
    → ((id : Text) → pickable_at id m.jobs ≡ false)
    → Inv m
    → Inv (record m { waiting_order = []; shared_pool = pool })
idled-Inv m pool none_waits v = record {
  unique = v.unique;
  ok = λ id s at. ground (arith, v.ok id s at, none_waits id);
}

pub start_next-Inv :
    (now : ℕ) (m : Manager) → m.running_job_id ≡ [] → Inv m → Inv (start_next now m)
unfolding start_next start_picked
start_next-Inv now m idle v =
    let cleaned = cleanup_jobs now m in
    let kept : Inv cleaned = cleanup-Inv now m v in
    let still_idle : cleaned.running_job_id ≡ [] = cleanup-running now m ∙ idle in
    elim (pick_next_job-cases cleaned kept) [
      | inl (none_waits, e) ↦
          subst (λ p. Inv (start_picked now p)) (sym e)
            (idled-Inv cleaned (expire_pool now (record cleaned { waiting_order = [] })) none_waits
              kept)
      | inr (id, s, rest, order, at, pickable, e) ↦
          subst (λ p. Inv (start_picked now p)) (sym e)
            (started-Inv now cleaned id s rest still_idle order at kept (kept.ok id s at).0)
    ]

ended-Inv : (m : Manager) → Inv m → Inv (record m { thread = ended })
ended-Inv m v = record { unique = v.unique; ok = λ id s at. ground (arith, v.ok id s at) }

pub loop_round-Inv : (now : ℕ) (m : Manager) → m.thread ≡ at_top → Inv m → Inv (loop_round now m)
unfolding loop_round
loop_round-Inv now m top v =
    if-holds Inv m.stop _ _ (λ stops. ended-Inv m v)
      λ goes_on.
        if-holds Inv (is_nonempty m.running_job_id) _ _
          (λ busy.
            if-holds Inv (running_is_stale m) _ _
              (λ stale.
                start_next-Inv now (clear_running now m) refl
                  (clear-Inv now m (none_runs_of_stale m stale v) v))
              λ fresh. v)
          λ idle. start_next-Inv now m (ground arith) v

not_run-Inv :
    (id : Text) (m : Manager)
    → m.thread ≡ in_run id
    → get id m.jobs ≡ none
    → Inv m
    → Inv (record m { thread = behind_run id })
not_run-Inv id m inside absent v = record {
  unique = v.unique;
  ok = λ j s at. ground (arith, v.ok j s at, list_beq_iff id j);
}

finished-Inv :
    (o : Outcome) (now : ℕ) (id : Text) (s : JobState) (m : Manager)
    → m.thread ≡ in_run id
    → get id m.jobs ≡ some s
    → Inv m
    → Inv (record m { jobs = insert id (finish_state o now s) m.jobs; thread = thread_behind o id })
unfolding finish_state
finished-Inv o now id s m inside at v = record {
  unique = insert-HasUniqueKeys id (finish_state o now s) m.jobs v.unique;
  ok = λ j x at_j. ground (
    arith,
    get-insert id j (finish_state o now s) m.jobs,
    list_beq_iff id j,
    v.ok j x,
    v.ok id s at,
  );
}

pub run_job-Inv :
    (o : Outcome) (now : ℕ) (id : Text) (m : Manager)
    → m.thread ≡ in_run id
    → Inv m
    → Inv (run_job o now id m)
unfolding run_job
run_job-Inv o now id m inside v = elim (Option-cases (get id m.jobs)) [
  | inl absent ↦ rw (run_job, absent) (not_run-Inv id m inside absent v)
  | inr (s, at) ↦ rw (run_job, at) (finished-Inv o now id s m inside at v)
]

ended_round-Inv :
    (now : ℕ) (id : Text) (m : Manager)
    → m.thread ≡ behind_run id
    → Inv m
    → Inv (record (clear_running now m) { thread = at_top })
ended_round-Inv now id m behind v = record {
  unique = v.unique;
  ok = λ j s at. ground (arith, v.ok j s at);
}

pub end_round-Inv :
    (now : ℕ) (id : Text) (m : Manager)
    → m.thread ≡ behind_run id
    → Inv m
    → Inv (end_round now id m)
unfolding end_round
end_round-Inv now id m behind v =
    ended_round-Inv now id (get_job id m).0 (ground (arith, get_job-thread id m))
      (get_job-Inv id m v)

pub prepare_shared_pool-Inv :
    (q : PoolRequest) (answers : Answers) (now : ℕ) (m : Manager)
    → Inv m
    → Inv (prepare_shared_pool q answers now m)
unfolding prepare_shared_pool
prepare_shared_pool-Inv q answers now m v = record {
  unique = v.unique;
  ok = λ id s at. v.ok id s at;
}
