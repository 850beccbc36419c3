-- ===== src/JobQueue/Invariant/Always.antt =====
-- Every interleaving keeps the invariant.
use new_pycloud.Base.{ℕ, ◌≡◌, some, arith, nat_eq, list_eq}
use new_pycloud.Base.Dict.{get}
use new_pycloud.Base.Text.{Text}
use new_pycloud.JobQueue.{running, JobState, Manager}
use new_pycloud.JobQueue.Calls.{forget_thread, drop_shared_pool}
use new_pycloud.JobQueue.Steps.{
  Step, starts, submits, asks, cancels, reorders, closes, forgets, drops_pool, loops, prepares,
  runs, ends, new_manager, Reach, begins, later,
}
use new_pycloud.JobQueue.Invariant.{JobOk, Inv, start-Inv, get_job-Inv}
use new_pycloud.JobQueue.Invariant.Calls.{
  submit_job-Inv, cancel_job-Inv, reorder_job-Inv, begin_close-Inv,
}
use new_pycloud.JobQueue.Invariant.Rounds.{
  loop_round-Inv, run_job-Inv, end_round-Inv, prepare_shared_pool-Inv,
}

pub new_manager-Inv : (retention idle_ttl : ℕ) → Inv (new_manager retention idle_ttl)
unfolding get
new_manager-Inv retention idle_ttl = record { unique = tt; ok = λ id s at. ground arith }

forget_thread-Inv : (m : Manager) → Inv m → Inv (forget_thread m)
forget_thread-Inv m v = record { unique = v.unique; ok = λ id s at. ground (arith, v.ok id s at) }

drop_shared_pool-Inv : (m : Manager) → Inv m → Inv (drop_shared_pool m)
drop_shared_pool-Inv m v = record { unique = v.unique; ok = v.ok }

pub Step-Inv : {m n : Manager} → Step m n → Inv m → Inv n
Step-Inv {m} (starts target) v = start-Inv target m v
Step-Inv {m} {n} (submits env fresh_job fresh_client now sub _ s named e) v =
    submit_job-Inv env fresh_job fresh_client now sub m n s named e v
Step-Inv {m} (asks id) v = get_job-Inv id m v
Step-Inv {m} {n} (cancels env now id token _ e) v = cancel_job-Inv env now id token m n e v
Step-Inv {m} (reorders id direction) v = reorder_job-Inv id direction m v
Step-Inv {m} (closes now) v = begin_close-Inv now m v
Step-Inv {m} (forgets over) v = forget_thread-Inv m v
Step-Inv {m} drops_pool v = drop_shared_pool-Inv m v
Step-Inv {m} (loops now top) v = loop_round-Inv now m top v
Step-Inv {m} (prepares q answers now id inside) v = prepare_shared_pool-Inv q answers now m v
Step-Inv {m} (runs o now id inside) v = run_job-Inv o now id m inside v
Step-Inv {m} (ends now id behind) v = end_round-Inv now id m behind v

pub Reach-Inv : {retention idle_ttl : ℕ} {m : Manager} → Reach retention idle_ttl m → Inv m
Reach-Inv {retention} {idle_ttl} begins = new_manager-Inv retention idle_ttl
Reach-Inv (later r st) = Step-Inv st (Reach-Inv r)

-- With one scheduler thread at most, JobOk holds of every job in every reachable state.
pub Reach-JobOk :
    {retention idle_ttl : ℕ} {m : Manager} (id : Text) (s : JobState)
    → Reach retention idle_ttl m
    → get id m.jobs ≡ some s
    → JobOk m.waiting_order m.running_job_id m.thread id s
Reach-JobOk id s r at = (Reach-Inv r).ok id s at

-- In a reachable state with one scheduler thread at most, at most one job is RUNNING.
pub at_most_one_runs :
    {retention idle_ttl : ℕ} {m : Manager} (i j : Text) (s t : JobState)
    → Reach retention idle_ttl m
    → get i m.jobs ≡ some s
    → get j m.jobs ≡ some t
    → s.status ≡ running
    → t.status ≡ running
    → i ≡ j
at_most_one_runs i j s t r at_i at_j runs_i runs_j =
    ground (arith, Reach-JobOk i s r at_i, Reach-JobOk j t r at_j)
