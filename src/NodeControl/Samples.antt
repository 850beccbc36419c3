-- ===== src/NodeControl/Samples.antt =====
-- A node whose queue has room for two tasks, with one pool.
use new_pycloud.Base.{
  ℕ, ◌+◌, ◌-◌, ◌≡◌, ◌≤◌, refl, true, false, List, [], ◌∷◌, Option, none, some, inl, inr, length,
  ◌⊎◌, if◌then◌else◌, ◌==◌, nat_eq, list_eq, take, keep, map, All,
}
use new_pycloud.Base.Dict.{get, insert}
use new_pycloud.Base.Sets.{member, add, discard}
use new_pycloud.Base.Text.{Text, codes, strip, lstrip, lower, is_nonempty}
use new_pycloud.NodeControl.{TaskState, TaskPoolState, NodeControlState, node_queue_occupancy}
use new_pycloud.NodeControl.Submit.{
  Refusal, submission_check, reserve, reserving, reserve_items, reserve_item, commit, new_task,
  prepare_failed, count_task,
}
use new_pycloud.NodeControl.Stop.{
  stop_task_pool_resource, fail_task_pool_tasks, is_unfinished_of, stopped_task, change_where,
  discard_where, chosen_tasks,
}
use new_pycloud.NodeControl.Calls.{
  cancel_pool_job, cancelled_job, cancel_counts, CancelCounts, count_where,
}
use new_pycloud.NodeControl.Reserve.{distinct, is_fresh, reserve-items, occurrences}
use new_pycloud.NodeControl.Steps.{
  Submission, World, submits, commits, is_taken, fails_to_prepare, changes_pools, new_node,
  new_world, Reach, begins, later,
}
use new_pycloud.NodeControl.Consistent.{open_at, is_open}
use new_pycloud.NodeControl.Answers.{
  ItemOutcome, refused, taken, SubmitAnswers, submit_pool_tasks, submit_pool_tasks-answered,
  rejected_ids,
}
use new_pycloud.NodeControl.Safety.{
  Reach-capacity, Reach-active, Reach-reserved, CancelsNothing, cancel_pool_job-nothing,
  stop_task_pool_resource-tasks,
}

abbrev pool : TaskPoolState
pool = record {
  pool_id = codes "p";
  owner_client_id = codes "client";
  code_version = codes "v1";
  heartbeat_timeout_sec = 30;
  pool_token = codes "token";
  token_node_instance_id = [];
  status = codes "RUNNING";
  last_heartbeat_at = 0;
  lease_expire_at = 30000000;
  executor_ready = true;
  alive_workers = 1;
  degraded = false;
  readiness = codes "ready";
  readiness_reason = [];
  create_stage = [];
  task_count = 0;
  returned_count = 0;
  stop_reason = [];
  failure_at = none;
}

abbrev empty_node : NodeControlState
empty_node = record (new_node (codes "node") 2 (codes "v1" ∷ [])) {
  task_pools = (codes "p", pool) ∷ [];
}

abbrev tasks : List Text
tasks = codes "a" ∷ codes " a" ∷ codes "b" ∷ codes "c" ∷ []

abbrev with_pool : World
with_pool = new_world empty_node

with_pool-Reach : Reach (codes "node") 2 (codes "v1" ∷ []) with_pool
with_pool-Reach = later begins (changes_pools ((codes "p", pool) ∷ []))

checked : submission_check (codes "p") (codes "token") empty_node ≡ inr pool
unfolding submission_check get member strip lower lstrip
checked = refl

abbrev submission : List Text → Option (Text × ℕ) → Submission
submission todo dispatching = record {
  pool_id = codes "p";
  client_id = codes "p";
  job_id = codes "job";
  todo = todo;
  dispatching = dispatching;
}

abbrev reserved_world : World
reserved_world = record {
  node = (reserve 0 tasks empty_node).0;
  submissions = submission (reserve 0 tasks empty_node).1.0 none ∷ [];
  snapshots = [];
}

reserved_world-Reach : Reach (codes "node") 2 (codes "v1" ∷ []) reserved_world
reserved_world-Reach =
    later with_pool-Reach (submits 0 (codes "p") (codes "token") (codes "job") tasks pool checked)

-- The id "a" was committed, and "b" is still reserved.
abbrev running_world : World
running_world = record reserved_world {
  node = (commit 5 (codes "p") (codes "p") (codes "job") (codes "a") reserved_world.node).1;
  submissions = submission (codes "b" ∷ []) (some (codes "a", 0)) ∷ [];
}

todo_at_first : (reserve 0 tasks empty_node).1.0 ≡ codes "a" ∷ codes "b" ∷ []
unfolding reserve reserving reserve_items reserve_item get member add strip lstrip
todo_at_first = refl

running_world-Reach : Reach (codes "node") 2 (codes "v1" ∷ []) running_world
unfolding commit reserve reserving reserve_items reserve_item get member add strip lstrip
running_world-Reach = later reserved_world-Reach (
    commits 0 5 (submission (reserve 0 tasks empty_node).1.0 none) (codes "a") (codes "b" ∷ []) refl
      refl todo_at_first)

Reach-active_example :
    member (codes "a") running_world.node.active_pool_task_ids
    ≡ open_at (codes "a") running_world.node.pool_tasks
Reach-active_example =
    Reach-active (codes "node") 2 (codes "v1" ∷ []) running_world (codes "a") running_world-Reach

Reach-capacity_example :
    length running_world.node.active_pool_task_ids
      + length running_world.node.pool_task_reserved_ids
    ≤ 2
Reach-capacity_example =
    Reach-capacity (codes "node") 2 (codes "v1" ∷ []) running_world running_world-Reach

reserve-items_example :
    (reserve 0 tasks empty_node).1.0
    ≡ take
        (2 - node_queue_occupancy 0 empty_node)
        (distinct (keep (is_fresh empty_node.pool_tasks []) (map strip tasks)))
reserve-items_example = reserve-items 0 tasks empty_node

-- The pool was stopped, so that "b" is given up; "a" was taken by the executor before.
abbrev worked_off_world : World
worked_off_world = record {
  node = prepare_failed (codes "b") (count_task (codes "p") running_world.node);
  submissions = submission [] none ∷ [];
  snapshots = [];
}

worked_off_world-Reach : Reach (codes "node") 2 (codes "v1" ∷ []) worked_off_world
worked_off_world-Reach =
    later
      (later running_world-Reach
        (is_taken 0 (submission (codes "b" ∷ []) (some (codes "a", 0))) (codes "a") 0 refl refl))
      (fails_to_prepare 0 (submission (codes "b" ∷ []) none) (codes "b") [] refl refl refl)

Reach-reserved_example : member (codes "b") worked_off_world.node.pool_task_reserved_ids ≡ false
Reach-reserved_example =
    Reach-reserved (codes "node") 2 (codes "v1" ∷ []) worked_off_world (codes "b")
      worked_off_world-Reach (refl, tt)

abbrev cancelled_counts : CancelCounts
cancelled_counts = record {
  queued_cancelled = 0;
  running_marked = 1;
  already_done = 0;
  not_found = 0;
}

abbrev cancelled_node : NodeControlState
cancelled_node =
    elim (cancel_pool_job 9 (codes "p") (codes "token") (codes "job") [] running_world.node) [
      | inl e ↦ running_world.node
      | inr r ↦ r.1
    ]

cancels :
    cancel_pool_job 9 (codes "p") (codes "token") (codes "job") [] running_world.node
    ≡ inr (cancelled_counts, cancelled_node)
unfolding cancel_pool_job cancelled_job cancel_counts commit reserve reserving reserve_items
    reserve_item get insert member add discard strip lstrip chosen_tasks change_where discard_where
cancels = refl

cancel_pool_job-nothing_example :
    CancelsNothing running_world.node (cancelled_counts, cancelled_node)
cancel_pool_job-nothing_example =
    cancel_pool_job-nothing (codes "node") 2 (codes "v1" ∷ []) running_world 9 (codes "p")
      (codes "token") (codes "job") [] cancelled_counts cancelled_node running_world-Reach cancels

abbrev stopped_node : NodeControlState
stopped_node = stop_task_pool_resource 9 (codes "full") (codes "p") pool running_world.node

abbrev stopped_a : TaskState
stopped_a = stopped_task 9 (codes "full") (new_task 5 (codes "a") (codes "p") (codes "job") 0)

stops_a : get (codes "a") stopped_node.pool_tasks ≡ some stopped_a
unfolding stop_task_pool_resource fail_task_pool_tasks commit reserve reserving reserve_items
    reserve_item get insert member add discard strip lstrip change_where
stops_a = refl

pool_named : is_nonempty (strip (codes "p")) ≡ true
unfolding strip lstrip
pool_named = refl

stop_task_pool_resource-tasks_example :
    (is_open stopped_a ≡ false)
    × (length stopped_node.results
        ≡ length running_world.node.results
          + count_where (is_unfinished_of (strip (codes "p"))) running_world.node.pool_tasks)
stop_task_pool_resource-tasks_example =
    stop_task_pool_resource-tasks 9 (codes "full") (codes "p") (codes "a") pool running_world.node
      stopped_a pool_named stops_a refl

abbrev nobody_else : NodeControlState → NodeControlState
nobody_else n = n

-- The executor takes every task but "b".
abbrev takes : Text → ItemOutcome
takes id = if id == codes "b" then refused else taken

abbrev submission_result : Refusal ⊎ SubmitAnswers
submission_result =
    submit_pool_tasks nobody_else takes 5 0 (codes "p") (codes "token") (codes "job") tasks
      empty_node

abbrev answers_of : Refusal ⊎ SubmitAnswers → SubmitAnswers
answers_of (inl e) = record { node = empty_node; accepted = []; rejected = [] }
answers_of (inr a) = a

is_answered : submission_result ≡ inr (answers_of submission_result)
unfolding submit_pool_tasks submission_check get member strip lstrip lower
is_answered = refl

submit_pool_tasks-answered_example :
    (occurrences (codes "b") (answers_of submission_result).accepted
        + occurrences (codes "b") (rejected_ids (answers_of submission_result).rejected)
      ≡ occurrences (codes "b") (map strip tasks))
    × All (λ k. takes k ≡ taken) (answers_of submission_result).accepted
submit_pool_tasks-answered_example =
    submit_pool_tasks-answered nobody_else takes 5 0 (codes "p") (codes "token") (codes "job") tasks
      empty_node (answers_of submission_result) (codes "b") is_answered
