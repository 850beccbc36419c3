-- ===== src/NodeControl/Steps.antt =====
-- The interleavings of the calls of Submit, Stop and Calls: a block under the lock is one step. What
-- other code of the node does to its pools is one step that puts any pools in place of them.
use new_pycloud.Base.{
  ℕ, ◌≡◌, true, List, [], ◌∷◌, Option, none, some, inr, get_elem?, set, remove_at,
}
use new_pycloud.Base.Text.{Text}
use new_pycloud.NodeControl.{TaskState, TaskResult, TaskPoolState, NodeControlState}
use new_pycloud.NodeControl.Submit.{
  submission_check, reserve, prepare_failed, commit, withdraw, count_task,
}
use new_pycloud.NodeControl.Stop.{
  close_task_pool, handle_task_pool_resource_health, prune_inactive_resource_history,
}
use new_pycloud.NodeControl.Calls.{
  forget_results, CancelCounts, cancel_pool_job, heartbeat_task_pool,
}
use new_pycloud.NodeControl.Events.{TaskDone, task_done, push_result}

-- A call of `submit_pool_tasks` behind its first block: the ids it has still to commit, and the task
-- that it is handing to the executor.
pub record Submission : Type 0 where
  pub pool_id : Text
  pub client_id : Text
  pub job_id : Text
  pub todo : List Text
  pub dispatching : Option (Text × ℕ)

-- `snapshots` are the finished tasks between the two blocks of their events.
pub record World : Type 0 where
  pub node : NodeControlState
  pub submissions : List Submission
  pub snapshots : List (Text × TaskState)

abbrev pub with_snapshot :
    Text → Option TaskState → List (Text × TaskState) → List (Text × TaskState)
with_snapshot pool_id none snapshots = snapshots
with_snapshot pool_id (some t) snapshots = (pool_id, t) ∷ snapshots

abbrev pub dispatched : Text → Option ℕ → Option (Text × ℕ)
dispatched id none = none
dispatched id (some lease) = some (id, lease)

pub data Step (w : World) : World → Type 0 where
  submits :
      (service_inflight : ℕ) (pool_id token job_id : Text) (items : List Text) (p : TaskPoolState)
      → submission_check pool_id token w.node ≡ inr p
      → Step w (record w {
        node = (reserve service_inflight items w.node).0;
        submissions =
            record {
              pool_id = pool_id;
              client_id = p.pool_id;
              job_id = job_id;
              todo = (reserve service_inflight items w.node).1.0;
              dispatching = none;
            }
            ∷ w.submissions;
      })
  fails_to_prepare :
      (i : ℕ) (s : Submission) (id : Text) (rest : List Text)
      → get_elem? w.submissions i ≡ some s
      → s.dispatching ≡ none
      → s.todo ≡ id ∷ rest
      → Step w (record w {
        node = prepare_failed id w.node;
        submissions = set w.submissions i (record s { todo = rest });
      })
  commits :
      (i now : ℕ) (s : Submission) (id : Text) (rest : List Text)
      → get_elem? w.submissions i ≡ some s
      → s.dispatching ≡ none
      → s.todo ≡ id ∷ rest
      → Step w (record w {
        node = (commit now s.pool_id s.client_id s.job_id id w.node).1;
        submissions = set w.submissions i (record s {
          todo = rest;
          dispatching = dispatched id (commit now s.pool_id s.client_id s.job_id id w.node).0;
        });
      })
  is_refused :
      (i : ℕ) (s : Submission) (id : Text) (lease : ℕ)
      → get_elem? w.submissions i ≡ some s
      → s.dispatching ≡ some (id, lease)
      → Step w (record w {
        node = withdraw id lease w.node;
        submissions = set w.submissions i (record s { dispatching = none });
      })
  is_taken :
      (i : ℕ) (s : Submission) (id : Text) (lease : ℕ)
      → get_elem? w.submissions i ≡ some s
      → s.dispatching ≡ some (id, lease)
      → Step w (record w {
        node = count_task s.pool_id w.node;
        submissions = set w.submissions i (record s { dispatching = none });
      })
  pulls : (results : List TaskResult) → Step w (record w { node = forget_results results w.node })
  closes :
      (now : ℕ) (owner pool_id token reason : Text) (n : NodeControlState)
      → close_task_pool now owner pool_id token reason w.node ≡ inr n
      → Step w (record w { node = n })
  cancels :
      (now : ℕ) (pool_id token job_id reason : Text) (counts : CancelCounts) (n : NodeControlState)
      → cancel_pool_job now pool_id token job_id reason w.node ≡ inr (counts, n)
      → Step w (record w { node = n })
  beats :
      (now : ℕ) (owner pool_id token : Text) (n : NodeControlState)
      → heartbeat_task_pool now owner pool_id token w.node ≡ inr n
      → Step w (record w { node = n })
  checks_health :
      (now : ℕ) (key : Text) (p : TaskPoolState)
      → Step w (record w { node = handle_task_pool_resource_health now key p w.node })
  prunes : (limit : ℕ) → Step w (record w { node = prune_inactive_resource_history limit w.node })
  finishes :
      (dependency_reason : TaskDone → Text) (now : ℕ) (e : TaskDone)
      → Step w (record w {
        node = (task_done dependency_reason now e w.node).1;
        snapshots =
            with_snapshot e.pool_id (task_done dependency_reason now e w.node).0 w.snapshots;
      })
  delivers :
      (i : ℕ) (pool_id : Text) (raised : Option Text) (snapshot : TaskState)
      → get_elem? w.snapshots i ≡ some (pool_id, snapshot)
      → Step w (record w {
        node = push_result pool_id raised snapshot w.node;
        snapshots = remove_at w.snapshots i;
      })
  changes_pools :
      (pools : List (Text × TaskPoolState))
      → Step w (record w { node = record w.node { task_pools = pools } })

abbrev pub new_node : Text → ℕ → List Text → NodeControlState
new_node instance capacity codes = record {
  node_instance_id = instance;
  queue_capacity = capacity;
  codes = codes;
  executor_host = true;
  task_pools = [];
  pool_tasks = [];
  active_pool_task_ids = [];
  pool_task_reserved_ids = [];
  results = [];
  stops = [];
  signals = [];
  next_lease = 0;
}

abbrev pub new_world : NodeControlState → World
new_world n = record { node = n; submissions = []; snapshots = [] }

pub data Reach (instance : Text) (capacity : ℕ) (codes : List Text) : World → Type 0 where
  begins : Reach instance capacity codes (new_world (new_node instance capacity codes))
  later :
      {w v : World} → Reach instance capacity codes w → Step w v → Reach instance capacity codes v
