-- ===== src/NodeControl/Finished.antt =====
-- A finished task: the two blocks of its event keep the active ids those of the unfinished tasks.
use new_pycloud.Base.{
  ℕ, ◌+◌, ◌≡◌, ◌<◌, refl, sym, ap, subst, ◌∙◌, true, false, ◌&&◌, List, Option, none, some,
  if_either, if_known, elim_found, ◌==◌, nat_beq, nat_eq, list_eq, list_beq_iff, arith,
}
use new_pycloud.Base.Dict.{get, insert, get-insert_self}
use new_pycloud.Base.Sets.{discard, member-discard, length-discard-le}
use new_pycloud.Base.Text.{Text, codes, strip, upper}
use new_pycloud.NodeControl.{TaskState, TaskPoolState, NodeControlState}
use new_pycloud.NodeControl.Calls.{is_queued}
use new_pycloud.NodeControl.Events.{
  TaskDone, is_dependency_failure, event_task, finished_task, task_done,
  mark_task_pool_dependency_failure, push_result, snapshot_result,
}
use new_pycloud.NodeControl.Sweep.{IsNamed}
use new_pycloud.NodeControl.Consistent.{
  is_open, ended_at, IsTask, HasActiveIds, Settles, Keeps, Keeps-refl, Settles-refl, Settles-trans,
}
use new_pycloud.NodeControl.Changes.{with_tasks, insert-Keeps, others-Keeps, get-All}
use new_pycloud.NodeControl.Keeps.{fail_task_pool_tasks-Keeps}

mark-Keeps :
    (now : ℕ) (reason key : Text) (p : TaskPoolState) (n : NodeControlState)
    → Keeps n (mark_task_pool_dependency_failure now reason key p n)
unfolding mark_task_pool_dependency_failure
mark-Keeps now reason key p n =
    if_either (Keeps n) (upper p.status == codes "STOPPED" && strip p.stop_reason == reason)
      (Keeps-refl n) (others-Keeps _ _ _ _ n _ (fail_task_pool_tasks-Keeps now reason p n))

event_task-found :
    (e : TaskDone) (n : NodeControlState) (t : TaskState) (p : TaskPoolState)
    → event_task e n ≡ some (t, p)
    → (get e.task_id n.pool_tasks ≡ some t) × (is_open t ≡ true)
unfolding event_task
event_task-found e n t p h = ground (arith, h)

abbrev pub IsFinished : TaskState → TaskState → Type 0
IsFinished t s = (s.task_id ≡ t.task_id) × (s.lease_id ≡ t.lease_id) × (is_open s ≡ false)

finished_task-IsFinished :
    (now : ℕ) (e : TaskDone) (t : TaskState) → IsFinished t (finished_task now e t)
unfolding finished_task
finished_task-IsFinished now e t = ground arith

over_not_queued : (t : TaskState) → is_open t ≡ false → is_queued t.status ≡ false
over_not_queued t h = ground (arith, h)

-- Between the two blocks of its event: the task is over, and none with its lease runs.
pub record IsSnapshot (n : NodeControlState) (s : TaskState) : Type 0 where
  pub over : is_open s ≡ false
  pub lease : s.lease_id < n.next_lease
  pub ended : ended_at s.task_id s.lease_id n.pool_tasks ≡ true

abbrev pub OnSnapshot : NodeControlState → Option TaskState → Type 0
OnSnapshot n none = Unit
OnSnapshot n (some s) = IsSnapshot n s

abbrev pub IsDone : NodeControlState → Option TaskState × NodeControlState → Type 0
IsDone n r = (HasActiveIds r.1 × Settles n r.1) × OnSnapshot r.1 r.0

-- A finished task is put in place of the unfinished one.
finished-Keeps :
    (id : Text) (t s : TaskState) (pools : List (Text × TaskPoolState)) (n : NodeControlState)
    → get id n.pool_tasks ≡ some t
    → IsFinished t s
    → HasActiveIds n
    → IsDone n (
      some s,
      record n {
        pool_tasks = insert id s n.pool_tasks;
        active_pool_task_ids = discard id n.active_pool_task_ids;
        task_pools = pools;
      },
    )
finished-Keeps id t s pools n found fin h =
    let named = get-All IsNamed id t n.pool_tasks h.named found in
    let task = get-All (IsTask n.next_lease) id t n.pool_tasks h.tasks found in
    let m = with_tasks (insert id s n.pool_tasks) (discard id n.active_pool_task_ids) n in
    let kept : Keeps n m =
      insert-Keeps id t s (discard id n.active_pool_task_ids) n found
        (fin.0 ∙ named.0, ap strip fin.0 ∙ named.1)
        (ground (arith, fin, task), over_not_queued s fin.2) fin.2
        (length-discard-le id n.active_pool_task_ids)
        (λ k h. ground (arith, member-discard k id n.active_pool_task_ids, h.active k)) in
    (
      others-Keeps pools n.results n.stops n.signals n m kept h,
      record {
        over = fin.2;
        lease = ground (arith, fin, task);
        ended = ground (arith, fin, named.0, get-insert_self id s n.pool_tasks);
      },
    )

IsDone-trans :
    (n m k : NodeControlState) (s : TaskState)
    → IsDone n (some s, m)
    → Keeps m k
    → IsDone n (some s, k)
IsDone-trans n m k s d keeps =
    let after = keeps d.0.0 in
    (
      (after.0, Settles-trans n m k d.0.1 after.1),
      record {
        over = d.1.over;
        lease = subst (λ l. s.lease_id < l) (sym after.1.lease) d.1.lease;
        ended = after.1.ended s.task_id s.lease_id d.1.ended;
      },
    )

pub task_done-IsDone :
    (dependency_reason : TaskDone → Text) (now : ℕ) (e : TaskDone) (n : NodeControlState)
    → HasActiveIds n
    → IsDone n (task_done dependency_reason now e n)
unfolding task_done
task_done-IsDone dependency_reason now e n h =
    elim_found (IsDone n) (event_task e n) ((h, Settles-refl n), tt)
      (λ (t, p) found.
        let q : TaskPoolState = record p { returned_count = p.returned_count + 1 } in
        let m : NodeControlState = record n {
          pool_tasks = insert e.task_id (finished_task now e t) n.pool_tasks;
          active_pool_task_ids = discard e.task_id n.active_pool_task_ids;
          task_pools = insert e.pool_id q n.task_pools;
        } in
        let first : IsDone n (some (finished_task now e t), m) =
          finished-Keeps e.task_id t (finished_task now e t) (insert e.pool_id q n.task_pools) n
            (event_task-found e n t p found).0 (finished_task-IsFinished now e t) h in
        if_either (λ (k : NodeControlState). IsDone n (some (finished_task now e t), k))
          (is_dependency_failure e)
          (IsDone-trans n m _ (finished_task now e t) first
            (mark-Keeps now (dependency_reason e) e.pool_id q m))
          first)

snapshot_result-over :
    (raised : Option Text) (s : TaskState)
    → is_open s ≡ false
    → is_open (snapshot_result raised s) ≡ false
snapshot_result-over none s h = h
snapshot_result-over (some message) s h = refl

pushed-Keeps :
    (pool_id : Text) (raised : Option Text) (s t : TaskState) (n : NodeControlState)
    → IsSnapshot n s
    → get s.task_id n.pool_tasks ≡ some t
    → (nat_beq t.lease_id s.lease_id && nat_beq t.attempt s.attempt) ≡ true
    → HasActiveIds n
    → Keeps n (
        with_tasks
          (insert s.task_id
            (record t {
              status = (snapshot_result raised s).status;
              error_type = (snapshot_result raised s).error_type;
              error_message = (snapshot_result raised s).error_message;
            })
            n.pool_tasks)
          n.active_pool_task_ids
          n)
pushed-Keeps pool_id raised s t n snap found same h =
    let over : is_open t ≡ false = ground (arith, snap.ended, found, same) in
    let new_over = snapshot_result-over raised s snap.over in
    insert-Keeps s.task_id t _ n.active_pool_task_ids n found
      (get-All IsNamed s.task_id t n.pool_tasks h.named found)
      (
        (get-All (IsTask n.next_lease) s.task_id t n.pool_tasks h.tasks found).0,
        over_not_queued (snapshot_result raised s) new_over,
      )
      new_over (omega arith)
      (λ k h. ground (arith, h.active k, list_beq_iff s.task_id k, found, over))

pub push_result-Keeps :
    (pool_id : Text) (raised : Option Text) (s : TaskState) (n : NodeControlState)
    → IsSnapshot n s
    → Keeps n (push_result pool_id raised s n)
unfolding push_result
push_result-Keeps pool_id raised s n snap h =
    elim_found (λ (m : NodeControlState). HasActiveIds m × Settles n m) (get s.task_id n.pool_tasks)
      (h, Settles-refl n)
      (λ t found.
        if_known (λ (m : NodeControlState). HasActiveIds m × Settles n m)
          (nat_beq t.lease_id s.lease_id && nat_beq t.attempt s.attempt)
          (λ same.
            others-Keeps n.task_pools _ n.stops n.signals n _
              (pushed-Keeps pool_id raised s t n snap found same h) h)
          (λ other. (h, Settles-refl n)))
