-- ===== src/JobQueue/Invariant/Calls.antt =====
-- The calls of clients keep the invariant.
use new_pycloud.Base.{
  ℕ, ◌≡◌, refl, subst, ◌+◌, true, false, List, [], ◌∷◌, none, some, nat_eq, list_eq, list_beq_iff,
  arith, inl, inr, Option-cases, Bool-cases,
}
use new_pycloud.Base.Dict.{get, insert, HasUniqueKeys, get-insert, insert-HasUniqueKeys}
use new_pycloud.Base.Text.{Text, is_nonempty, strip, lower}
use new_pycloud.JobQueue.{
  Status, waiting, running, cancelled, is_waiting, JobState, Manager, mem, is_pickable, pickable_at,
  prune_waiting_order, remove_waiting_job,
}
use new_pycloud.JobQueue.Calls.{
  Environment, Submission, submitted, accepted, submit_job, new_job, or_text, cancel_job,
  cancel_authorised, cancel_waiting, reorder_job, begin_close, close_state, close_states, move,
  order_with, detach_stale_running,
}
use new_pycloud.JobQueue.Waiting.{
  mem-prune, mem-remove, mem-move_up, mem-move_down, mem-insert_waiting,
}
use new_pycloud.JobQueue.Invariant.{Inv, enqueue-Inv, detach-Inv}

pub or_text-nonempty : (s d : Text) → is_nonempty d ≡ true → is_nonempty (or_text s d) ≡ true
or_text-nonempty s d h = ground arith

pub submit_job-Inv :
    (env : Environment) (fresh_job fresh_client : Text) (now : ℕ) (sub : Submission)
    (m m' : Manager) (s : JobState)
    → is_nonempty fresh_job ≡ true
    → submit_job env fresh_job fresh_client now sub m ≡ submitted m' s
    → Inv m
    → Inv m'
unfolding submit_job new_job
submit_job-Inv env fresh_job fresh_client now sub m m' s named e v = subst Inv (ground arith) (
    enqueue-Inv
      (new_job env fresh_job fresh_client now ((detach_stale_running m).0.enqueue_seq + 1) sub)
      (detach_stale_running m).0 refl refl refl
      (or_text-nonempty (strip sub.job_id) fresh_job named) (detach-Inv m v))

cancelled-Inv :
    (now : ℕ) (id : Text) (s : JobState) (m : Manager)
    → get id m.jobs ≡ some s
    → Inv m
    → Inv (record m {
      jobs = insert id (cancel_waiting now s) m.jobs;
      waiting_order = remove_waiting_job s.job_id m.waiting_order;
    })
cancelled-Inv now id s m at v = record {
  unique = insert-HasUniqueKeys id (cancel_waiting now s) m.jobs v.unique;
  ok = λ j x at_j. ground (
    arith,
    mem-remove j s.job_id m.waiting_order,
    get-insert id j (cancel_waiting now s) m.jobs,
    list_beq_iff id j,
    list_beq_iff j s.job_id,
    v.ok j x,
    v.ok id s at,
  );
}

flagged-Inv :
    (id : Text) (s : JobState) (m : Manager)
    → get id m.jobs ≡ some s
    → is_waiting s.status ≡ false
    → Inv m
    → Inv (record m { jobs = insert id (record s { cancel_requested = true }) m.jobs })
flagged-Inv id s m at not_waiting v = record {
  unique = insert-HasUniqueKeys id (record s { cancel_requested = true }) m.jobs v.unique;
  ok = λ j x at_j. ground (
    arith,
    get-insert id j (record s { cancel_requested = true }) m.jobs,
    list_beq_iff id j,
    v.ok j x,
    v.ok id s at,
  );
}

cancel_authorised-Inv :
    (now : ℕ) (id : Text) (s : JobState) (m : Manager)
    → get id m.jobs ≡ some s
    → Inv m
    → Inv (cancel_authorised now id s m)
unfolding cancel_authorised
cancel_authorised-Inv now id s m at v = go s.status refl
  where
    go : (w : Status) → s.status ≡ w → Inv (cancel_authorised now id s m)
    go waiting e = subst Inv (ground arith) (cancelled-Inv now id s m at v)
    go running e = subst Inv (ground arith) (flagged-Inv id s m at (ground arith) v)
    go Status.succeeded e = subst Inv (ground arith) v
    go Status.failed e = subst Inv (ground arith) v
    go cancelled e = subst Inv (ground arith) v

pub cancel_job-Inv :
    (env : Environment) (now : ℕ) (job_id token : Text) (m m' : Manager)
    → cancel_job env now job_id token m ≡ accepted m'
    → Inv m
    → Inv m'
unfolding cancel_job
cancel_job-Inv env now job_id token m m' e v = elim (Option-cases (get (strip job_id) m.jobs)) [
  | inl absent ↦ ground arith
  | inr (s, at) ↦ subst Inv (ground arith) (cancel_authorised-Inv now (strip job_id) s m at v)
]

-- An order that still has the jobs that may be started.
abbrev pub KeepsWaiting : Manager → List Text → Type 0
KeepsWaiting m order =
    (id : Text) → pickable_at id m.jobs ≡ true → mem id m.waiting_order ≡ true → mem id order ≡ true

reordered-Inv :
    (m : Manager) (order : List Text)
    → KeepsWaiting m order
    → Inv m
    → Inv (record m { waiting_order = order })
reordered-Inv m order kept v = record {
  unique = v.unique;
  ok = λ id s at. ground (arith, v.ok id s at, kept id);
}

order_with-KeepsWaiting :
    (m : Manager) (s : JobState) (id : Text)
    → KeepsWaiting m (order_with m.jobs s id (prune_waiting_order m.jobs m.waiting_order))
order_with-KeepsWaiting m s id j pickable there = ground (
  arith,
  mem-prune j m.jobs m.waiting_order,
  mem-insert_waiting j m.jobs s (prune_waiting_order m.jobs m.waiting_order),
)

move-KeepsWaiting :
    (m : Manager) (id direction : Text) (order moved : List Text)
    → move id direction order ≡ some moved
    → KeepsWaiting m order
    → KeepsWaiting m moved
unfolding move
move-KeepsWaiting m id direction order moved e kept j pickable there =
    ground (arith, kept j, mem-move_up j id order, mem-move_down j id order)

-- What a call of reorder_job may leave: the manager as it was, or with an order that keeps the jobs.
pub reorder_job_cases :
    (P : Manager → Type 0) (job_id direction : Text) (m : Manager)
    → P m
    → ((order : List Text) → KeepsWaiting m order → P (record m { waiting_order = order }))
    → P (reorder_job job_id direction m).0
unfolding reorder_job
reorder_job_cases P job_id direction m same changed =
    elim (Option-cases (get (strip job_id) m.jobs)) [
      | inl absent ↦ rw (reorder_job, absent) same
      | inr (s, at) ↦ elim (Bool-cases (is_pickable s)) [
        | inr stays ↦ rw (reorder_job, at, stays) same
        | inl pickable ↦
            let order =
              order_with m.jobs s (strip job_id) (prune_waiting_order m.jobs m.waiting_order) in
            let kept = order_with-KeepsWaiting m s (strip job_id) in
            elim (Option-cases (move (strip job_id) (lower (strip direction)) order)) [
              | inl wrong ↦ rw (reorder_job, at, pickable, wrong) (changed order kept)
              | inr (moved, e) ↦
                  rw (reorder_job, at, pickable, e)
                    (changed moved (
                      move-KeepsWaiting m (strip job_id) (lower (strip direction)) order moved e
                        kept))
            ]
      ]
    ]

pub reorder_job-Inv :
    (job_id direction : Text) (m : Manager) → Inv m → Inv (reorder_job job_id direction m).0
reorder_job-Inv job_id direction m v =
    reorder_job_cases Inv job_id direction m v λ order kept. reordered-Inv m order kept v

pub get-close_states :
    (now : ℕ) (id : Text) (jobs : List (Text × JobState))
    → get id (close_states now jobs)
      ≡ (elim (get id jobs) [ none ↦ none | some s ↦ some (close_state now s) ])
unfolding get
get-close_states now id [] = refl
get-close_states now id ((j, s) ∷ jobs) = ground (arith, get-close_states now id jobs)

pub close_states-HasUniqueKeys :
    (now : ℕ) (jobs : List (Text × JobState))
    → HasUniqueKeys jobs
    → HasUniqueKeys (close_states now jobs)
close_states-HasUniqueKeys now [] h = tt
close_states-HasUniqueKeys now ((id, s) ∷ jobs) h =
    ground (arith, get-close_states now id jobs, close_states-HasUniqueKeys now jobs h.1)

closed-Inv :
    (now : ℕ) (m : Manager)
    → Inv m
    → Inv (record m { stop = true; started = false; jobs = close_states now m.jobs })
closed-Inv now m v = record {
  unique = close_states-HasUniqueKeys now m.jobs v.unique;
  ok = λ id s at. elim (Option-cases (get id m.jobs)) [
    | inl absent ↦ ground (arith, get-close_states now id m.jobs)
    | inr (old, at_old) ↦ ground (arith, get-close_states now id m.jobs, v.ok id old at_old)
  ];
}

pub begin_close-Inv : (now : ℕ) (m : Manager) → Inv m → Inv (begin_close now m)
unfolding begin_close
begin_close-Inv now m v = elim (Bool-cases (is_nonempty m.running_job_id)) [
  | inr idle ↦ rw idle (closed-Inv now m v)
  | inl runs ↦ elim (Option-cases (get m.running_job_id (close_states now m.jobs))) [
    | inl absent ↦ rw (runs, absent) (closed-Inv now m v)
    | inr (s, at) ↦
        rw (runs, at)
          (flagged-Inv m.running_job_id s
            (record m { stop = true; started = false; jobs = close_states now m.jobs }) at
            (ground (arith, get-close_states now m.running_job_id m.jobs)) (closed-Inv now m v))
  ]
]
