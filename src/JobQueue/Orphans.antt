-- ===== src/JobQueue/Orphans.antt =====
-- `close` of controlplane/job_queue.py whose join times out: the manager forgets a scheduler thread
-- that goes on, and `start` begins another one beside it. The threads share the manager, and
-- `self._thread` is the newest of them.
pub mod Samples
use new_pycloud.Base.{
  ℕ, zero, suc, ◌≡◌, ◌≢◌, ◌⊎◌, inl, inr, List-cases, refl, true, List, [], ◌∷◌, some, get_elem?,
  set, nat_eq, list_eq, arith,
}
use new_pycloud.Base.Dict.{get}
use new_pycloud.Base.Text.{Text}
use new_pycloud.JobQueue.{running, JobState, Thread, at_top, in_run, behind_run, Manager}
use new_pycloud.JobQueue.Calls.{is_alive, forget_thread, get_job}
use new_pycloud.JobQueue.TaskPool.{PoolRequest, Answers, prepare_shared_pool}
use new_pycloud.JobQueue.Loop.{Outcome, loop_round, run_job, clear_running}
use new_pycloud.JobQueue.Steps.{Step, new_manager}
use new_pycloud.JobQueue.Invariant.{may_run, Inv}
use new_pycloud.JobQueue.Stands.{JobStands, Standing, get_job-Standing}
use new_pycloud.JobQueue.Stands.Rounds.{
  loop_round-Standing, run_job-Standing, prepare_shared_pool-Standing, Step-Standing,
}
use new_pycloud.JobQueue.Invariant.Always.{Step-Inv, new_manager-Inv}

-- `orphans` are the places of the threads that a `close` has forgotten while they were alive; they
-- stay in the list when they end.
pub record World : Type 0 where
  pub manager : Manager
  pub orphans : List Thread

abbrev pub give_up : World → World
give_up w = record { manager = forget_thread w.manager; orphans = w.manager.thread ∷ w.orphans }

-- An orphan at `place` does what the scheduler thread does there.
abbrev pub orphan_moves : ℕ → Thread → (Manager → Manager) → World → World
orphan_moves i place f w =
    let n = f (record w.manager { thread = place }) in
    record { manager = record n { thread = w.manager.thread }; orphans = set w.orphans i n.thread }

-- The end of an orphan's round, whose get_job looks at `self._thread`.
abbrev pub end_orphan_round : ℕ → ℕ → Text → World → World
end_orphan_round i now id w = record {
  manager = clear_running now (get_job id w.manager).0;
  orphans = set w.orphans i at_top;
}

pub data WorldStep (w : World) : World → Type 0 where
  manages : {n : Manager} → Step w.manager n → WorldStep w (record w { manager = n })
  gives_up : is_alive w.manager.thread ≡ true → WorldStep w (give_up w)
  orphan_loops :
      (i now : ℕ)
      → get_elem? w.orphans i ≡ some at_top
      → WorldStep w (orphan_moves i at_top (loop_round now) w)
  orphan_prepares :
      (i : ℕ) (q : PoolRequest) (answers : Answers) (now : ℕ) (id : Text)
      → get_elem? w.orphans i ≡ some (in_run id)
      → WorldStep w (orphan_moves i (in_run id) (prepare_shared_pool q answers now) w)
  orphan_runs :
      (i : ℕ) (o : Outcome) (now : ℕ) (id : Text)
      → get_elem? w.orphans i ≡ some (in_run id)
      → WorldStep w (orphan_moves i (in_run id) (run_job o now id) w)
  orphan_ends :
      (i now : ℕ) (id : Text)
      → get_elem? w.orphans i ≡ some (behind_run id)
      → WorldStep w (end_orphan_round i now id w)

pub data ReachWorld (retention idle_ttl : ℕ) : World → Type 0 where
  opens :
      ReachWorld retention idle_ttl
        (record { manager = new_manager retention idle_ttl; orphans = [] })
  goes_on :
      {v w : World}
      → ReachWorld retention idle_ttl v
      → WorldStep v w
      → ReachWorld retention idle_ttl w

nil_of_set : (xs : List Thread) (i : ℕ) (t : Thread) → set xs i t ≡ [] → xs ≡ []
nil_of_set [] i t e = refl
nil_of_set (x ∷ xs) zero t e = cc
nil_of_set (x ∷ xs) (suc i) t e = cc

-- The jobs are in order, and while there is no orphan the running one is named.
IsSound : World → Type 0
IsSound w = Standing w.manager × (w.orphans ≡ [] → Inv w.manager)

-- An orphan that moves was there before.
moved-IsSound :
    (w : World) (i : ℕ) (old new : Thread) (m : Manager)
    → get_elem? w.orphans i ≡ some old
    → Standing m
    → IsSound (record { manager = m; orphans = set w.orphans i new })
unfolding IsSound
moved-IsSound w i old new m at v =
    (v, λ none_left. absurd (ground (arith, at, nil_of_set w.orphans i new none_left)))

WorldStep-IsSound : {w u : World} → WorldStep w u → IsSound w → IsSound u
unfolding IsSound
WorldStep-IsSound (manages st) (v, sound) = (Step-Standing st v, λ none. Step-Inv st (sound none))
WorldStep-IsSound (gives_up alive) (v, sound) = (v, λ none. cc)
WorldStep-IsSound {w} (orphan_loops i now at) (v, sound) =
    moved-IsSound w i at_top _ _ at
      (loop_round-Standing now (record w.manager { thread = at_top }) v)
WorldStep-IsSound {w} (orphan_prepares i q answers now id at) (v, sound) =
    moved-IsSound w i (in_run id) _ _ at
      (prepare_shared_pool-Standing q answers now (record w.manager { thread = in_run id }) v)
WorldStep-IsSound {w} (orphan_runs i o now id at) (v, sound) =
    moved-IsSound w i (in_run id) _ _ at
      (run_job-Standing o now id (record w.manager { thread = in_run id }) v)
WorldStep-IsSound {w} (orphan_ends i now id at) (v, sound) =
    moved-IsSound w i (behind_run id) _ _ at (get_job-Standing id w.manager v)

new_manager-Standing : (retention idle_ttl : ℕ) → Standing (new_manager retention idle_ttl)
unfolding get
new_manager-Standing retention idle_ttl = record { unique = tt; ok = λ id s at. ground arith }

ReachWorld-IsSound :
    {retention idle_ttl : ℕ} {w : World} → ReachWorld retention idle_ttl w → IsSound w
unfolding IsSound
ReachWorld-IsSound {retention} {idle_ttl} opens =
    (new_manager-Standing retention idle_ttl, λ none. new_manager-Inv retention idle_ttl)
ReachWorld-IsSound (goes_on r st) = WorldStep-IsSound st (ReachWorld-IsSound r)

-- If the job is RUNNING, it is the one that the manager names.
abbrev pub IsNamed : Manager → Text → JobState → Type 0
IsNamed m id s = s.status ≡ running → (m.running_job_id ≡ id) × (may_run m.thread id ≡ true)

-- Whatever the order of the clients' calls and of the scheduler's rounds, outcomes and restarts, and
-- however many threads `close` has given up: each job stands under its own id; it has a time of its
-- end exactly if its status is terminal; while it waits it is in the order of waiting jobs and not
-- marked as cancelled, so that no waiting job is forgotten; and either it is, while it is RUNNING,
-- the one job that the manager names as running, or some `close` has given up a thread that was
-- alive.
pub ReachWorld-JobStands :
    {retention idle_ttl : ℕ} {w : World} (id : Text) (s : JobState)
    → ReachWorld retention idle_ttl w
    → get id w.manager.jobs ≡ some s
    → JobStands w.manager.waiting_order id s × (IsNamed w.manager id s ⊎ (w.orphans ≢ []))
unfolding IsSound
ReachWorld-JobStands {w} id s r at =
    let (v, sound) = ReachWorld-IsSound r in
    (
      v.ok id s at,
      elim (List-cases w.orphans) [
        | inl none ↦ inl ((sound none).ok id s at).4
        | inr (t, ts, e) ↦ inr (λ none. cc)
      ],
    )
