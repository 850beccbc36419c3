-- ===== src/NodeControl/Safety.antt =====
-- What the invariant of Always gives for the callers of NodeControlState.
use new_pycloud.Base.{
  ℕ, ◌+◌, ◌≡◌, ◌≤◌, refl, ap, ◌∙◌, Bool, true, false, not, List, [], ◌∷◌, ◌++◌, Option, none, some,
  inr, length, length-append, All, if_either, elim_either, list_beq_iff, ◌⊎◌, nat_eq, list_eq,
  arith,
}
use new_pycloud.Base.Dict.{get}
use new_pycloud.Base.Sets.{member}
use new_pycloud.Base.Text.{Text, strip, is_nonempty}
use new_pycloud.NodeControl.{
  TaskStatus, TaskState, TaskPoolState, NodeControlState, has_pool_token, text_or,
}
use new_pycloud.NodeControl.Stop.{
  Tasks, fail_task_pool_tasks, is_unfinished_of, stopped_task, chosen_tasks,
  stop_task_pool_resource, discard_where, pushed, owner_requested,
}
use new_pycloud.NodeControl.Calls.{
  is_queued_job_task, is_open_job_task, cancel_task, count_where, cancel_pool_job, CancelError,
  cancel_message, CancelCounts, cancelled_job, cancel_counts,
}
use new_pycloud.NodeControl.Sweep.{changed, get-change_where}
use new_pycloud.NodeControl.Steps.{Submission, World, Reach}
use new_pycloud.NodeControl.Consistent.{is_open, open_at, IsTask}
use new_pycloud.NodeControl.Changes.{get-All}
use new_pycloud.NodeControl.Keeps.{OnReturn, on_return}
use new_pycloud.NodeControl.Invariant.{holders}
use new_pycloud.NodeControl.Always.{Reach-IsSound}

-- However calls and events are interleaved, the tasks that run and the ids that submissions have
-- reserved are together not more than the capacity of the queue.
pub Reach-capacity :
    (instance_id : Text) (capacity : ℕ) (codes : List Text) (w : World)
    → Reach instance_id capacity codes w
    → length w.node.active_pool_task_ids + length w.node.pool_task_reserved_ids ≤ capacity
Reach-capacity instance_id capacity codes w r = (Reach-IsSound instance_id capacity codes r).room

-- However calls and events are interleaved, the active ids are exactly the ids of the tasks that are
-- not over: no task that runs is forgotten, and no place of the queue stays taken by one that ended.
pub Reach-active :
    (instance_id : Text) (capacity : ℕ) (codes : List Text) (w : World) (id : Text)
    → Reach instance_id capacity codes w
    → member id w.node.active_pool_task_ids ≡ open_at id w.node.pool_tasks
Reach-active instance_id capacity codes w id r =
    (Reach-IsSound instance_id capacity codes r).node.active id

abbrev pub HasNothingToDo : Submission → Type 0
HasNothingToDo s = s.todo ≡ []

no_holders : (id : Text) (subs : List Submission) → All HasNothingToDo subs → holders id subs ≡ 0
no_holders id [] h = refl
no_holders id (s ∷ subs) h = ground (arith, h.0, no_holders id subs h.1)

-- When every submission has worked off its items, whether they were committed or failed, no id stays
-- reserved.
pub Reach-reserved :
    (instance_id : Text) (capacity : ℕ) (codes : List Text) (w : World) (id : Text)
    → Reach instance_id capacity codes w
    → All HasNothingToDo w.submissions
    → member id w.node.pool_task_reserved_ids ≡ false
Reach-reserved instance_id capacity codes w id r h =
    ground
      (arith, (Reach-IsSound instance_id capacity codes r).held id, no_holders id w.submissions h)

none_queued :
    (pool_id job_id : Text) (next : ℕ) (m : Tasks)
    → All (IsTask next) m
    → chosen_tasks (is_queued_job_task pool_id job_id) m ≡ []
unfolding chosen_tasks
none_queued pool_id job_id next [] h = refl
none_queued pool_id job_id next ((k, t) ∷ m) h =
    ground (arith, h.0.1, none_queued pool_id job_id next m h.1)

discard_none :
    (p : TaskState → Bool) (m : Tasks) (ids : List Text)
    → chosen_tasks p m ≡ []
    → discard_where p m ids ≡ ids
unfolding chosen_tasks discard_where
discard_none p [] ids h = refl
discard_none p ((k, t) ∷ m) ids h = ground (arith, h, discard_none p m ids)

append_nil {ℓ} : {A : Type ℓ} (xs : List A) → xs ++ [] ≡ xs
append_nil [] = refl
append_nil (x ∷ xs) = ap (x ∷◌) (append_nil xs)

-- The state of a task, as its client sees it.
abbrev pub status_at : Text → Tasks → Option TaskStatus
status_at id m = elim (get id m) [ none ↦ none | some t ↦ some t.status ]

kept_status :
    (p : TaskState → Bool) (now : ℕ) (message : Text) (next : ℕ) (id : Text) (o : Option TaskState)
    → ((t : TaskState) → o ≡ some t → IsTask next (id, t))
    → elim (changed p (cancel_task now message) o) [ none ↦ none | some t ↦ some t.status ]
      ≡ elim o [ none ↦ none | some t ↦ some t.status ]
kept_status p now message next id none h = refl
kept_status p now message next id (some t) h = ground (arith, (h t refl).1)

-- A cancellation changes nothing that its callers see.
abbrev pub CancelsNothing : NodeControlState → CancelCounts × NodeControlState → Type 0
CancelsNothing n r =
    (r.0.queued_cancelled ≡ 0)
    × (r.1.active_pool_task_ids ≡ n.active_pool_task_ids)
    × (r.1.results ≡ n.results)
    × ((id : Text) → status_at id r.1.pool_tasks ≡ status_at id n.pool_tasks)

cancel_pool_job-CancelsNothing :
    (now : ℕ) (pool_id token job_id reason : Text) (n : NodeControlState)
    → All (IsTask n.next_lease) n.pool_tasks
    → OnReturn (CancelsNothing n) (cancel_pool_job now pool_id token job_id reason n)
unfolding cancel_pool_job cancelled_job cancel_counts
cancel_pool_job-CancelsNothing now pool_id token job_id reason n h =
    let pool = strip pool_id in
    let job = strip job_id in
    let message = cancel_message reason job in
    let P : CancelCounts × NodeControlState → Type 0 = CancelsNothing n in
    let Q : CancelError ⊎ (CancelCounts × NodeControlState) → Type 0 = OnReturn P in
    let chosen = none_queued pool job n.next_lease n.pool_tasks h in
    let queued = is_queued_job_task pool job in
    if_either Q (not (is_nonempty job)) tt (
      elim_either Q (get pool n.task_pools) tt (λ p.
        if_either Q (has_pool_token token p n)
          (
            ap length chosen,
            discard_none queued n.pool_tasks n.active_pool_task_ids chosen,
            ap (λ ts. n.results ++ pushed pool (cancel_task now message) ts) chosen
                ∙ append_nil n.results,
            λ id.
                ap (λ o. elim o [ none ↦ none | some t ↦ some t.status ])
                  (get-change_where (is_open_job_task pool job) (cancel_task now message) id
                    n.pool_tasks)
                ∙ kept_status (is_open_job_task pool job) now message n.next_lease id
                    (get id n.pool_tasks)
                    (λ t found. get-All (IsTask n.next_lease) id t n.pool_tasks h found),
          )
          tt))

-- In every reachable state, a cancellation of a job that returns has cancelled no task: it pushes no
-- result, takes no task off the active ones and leaves the status of every task as it was.
pub cancel_pool_job-nothing :
    (instance_id : Text) (capacity : ℕ) (codes : List Text) (w : World) (now : ℕ)
    (pool_id token job_id reason : Text) (counts : CancelCounts) (n : NodeControlState)
    → Reach instance_id capacity codes w
    → cancel_pool_job now pool_id token job_id reason w.node ≡ inr (counts, n)
    → CancelsNothing w.node (counts, n)
cancel_pool_job-nothing instance_id capacity codes w now pool_id token job_id reason counts n r =
    on_return (CancelsNothing w.node) (
      cancel_pool_job-CancelsNothing now pool_id token job_id reason w.node
        (Reach-IsSound instance_id capacity codes r).node.tasks)

length-pushed :
    (pool_id : Text) (f : TaskState → TaskState) (ts : List TaskState)
    → length (pushed pool_id f ts) ≡ length ts
length-pushed pool_id f [] = refl
length-pushed pool_id f (t ∷ ts) = omega (arith, length-pushed pool_id f ts)

stopped_of :
    (now : ℕ) (reason pool_id : Text) (o : Option TaskState) (t : TaskState)
    → changed (is_unfinished_of pool_id) (stopped_task now reason) o ≡ some t
    → strip t.client_id ≡ pool_id
    → is_open t ≡ false
stopped_of now reason pool_id none t h own = cc
stopped_of now reason pool_id (some s) t h own =
    ground (arith, h, own, list_beq_iff (strip s.client_id) pool_id)

-- Stopping a pool ends all of its tasks: none is left unfinished, and for each that was, the hook of
-- results has one result more.
pub stop_task_pool_resource-tasks :
    (now : ℕ) (reason key id : Text) (p : TaskPoolState) (n : NodeControlState) (t : TaskState)
    → is_nonempty (strip p.pool_id) ≡ true
    → get id (stop_task_pool_resource now reason key p n).pool_tasks ≡ some t
    → strip t.client_id ≡ strip p.pool_id
    → (is_open t ≡ false)
      × (length (stop_task_pool_resource now reason key p n).results
          ≡ length n.results + count_where (is_unfinished_of (strip p.pool_id)) n.pool_tasks)
unfolding stop_task_pool_resource fail_task_pool_tasks
stop_task_pool_resource-tasks now reason key id p n t named found own =
    let pool = strip p.pool_id in
    let f = stopped_task now (text_or reason owner_requested) in
    let chosen = chosen_tasks (is_unfinished_of pool) n.pool_tasks in
    (
      stopped_of now (text_or reason owner_requested) pool (get id n.pool_tasks) t
          (ground (arith, found, named, get-change_where (is_unfinished_of pool) f id n.pool_tasks))
          own,
      ground (
        arith,
        named,
        length-append n.results (pushed pool f chosen),
        length-pushed pool f chosen,
      ),
    )
