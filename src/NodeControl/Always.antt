-- ===== src/NodeControl/Always.antt =====
-- The invariant of Invariant holds in every reachable state.
use new_pycloud.Base.{
  ℕ, zero, suc, ◌≡◌, refl, subst, List, [], ◌∷◌, Option, none, some, All, total-set, get_elem?, set,
  remove_at, arith,
}
use new_pycloud.Base.Sets.{member}
use new_pycloud.Base.Dict.{get}
use new_pycloud.Base.Text.{Text}
use new_pycloud.NodeControl.{TaskState, NodeControlState}
use new_pycloud.NodeControl.Submit.{prepare_failed}
use new_pycloud.NodeControl.Events.{TaskDone, task_done, push_result}
use new_pycloud.NodeControl.Reserve.{occurrences}
use new_pycloud.NodeControl.Steps.{
  Submission, World, with_snapshot, Step, submits, fails_to_prepare, commits, is_refused, is_taken,
  pulls, closes, cancels, beats, checks_health, prunes, finishes, delivers, changes_pools, Reach,
  begins, later,
}
use new_pycloud.NodeControl.Consistent.{Keeps}
use new_pycloud.NodeControl.Changes.{pools-Keeps}
use new_pycloud.NodeControl.Keeps.{
  count_task-Keeps, withdraw-Keeps, forget_results-Keeps, close_task_pool-Keeps,
  heartbeat_task_pool-Keeps, cancel_pool_job-Keeps, handle_task_pool_resource_health-Keeps,
  prune_inactive_resource_history-Keeps,
}
use new_pycloud.NodeControl.Finished.{IsSnapshot, OnSnapshot, task_done-IsDone, push_result-Keeps}
use new_pycloud.NodeControl.Invariant.{IsSound, settled-IsSound, reserved-IsSound}
use new_pycloud.NodeControl.Committed.{released-IsSound, commit-IsSound}

kept-IsSound :
    (capacity : ℕ) (w : World) (m : NodeControlState)
    → Keeps w.node m
    → IsSound capacity w
    → IsSound capacity (record w { node = m })
kept-IsSound capacity w m keeps h =
    settled-IsSound capacity w m w.submissions h (λ id. refl) (keeps h.node)

-- The task that a submission hands to the executor does not count among its ids.
dispatched-IsSound :
    (capacity : ℕ) (w : World) (m : NodeControlState) (i : ℕ) (s : Submission)
    → get_elem? w.submissions i ≡ some s
    → Keeps w.node m
    → IsSound capacity w
    → IsSound capacity
        (record w { node = m; submissions = set w.submissions i (record s { dispatching = none }) })
dispatched-IsSound capacity w m i s at keeps h =
    settled-IsSound capacity w m (set w.submissions i (record s { dispatching = none })) h
      (λ id. omega (
        arith,
        total-set (λ (s : Submission). occurrences id s.todo) w.submissions i s
            (record s { dispatching = none }) at,
      ))
      (keeps h.node)

with_snapshot-All :
    (n : NodeControlState) (pool_id : Text) (o : Option TaskState) (m : List (Text × TaskState))
    → OnSnapshot n o
    → All (λ e. IsSnapshot n e.1) m
    → All (λ e. IsSnapshot n e.1) (with_snapshot pool_id o m)
with_snapshot-All n pool_id none m h hs = hs
with_snapshot-All n pool_id (some s) m h hs = (h, hs)

finished-IsSound :
    (capacity now : ℕ) (reason : TaskDone → Text) (e : TaskDone) (w : World)
    → IsSound capacity w
    → IsSound capacity (record w {
      node = (task_done reason now e w.node).1;
      snapshots = with_snapshot e.pool_id (task_done reason now e w.node).0 w.snapshots;
    })
finished-IsSound capacity now reason e w h =
    let done = task_done-IsDone reason now e w.node h.node in
    let m = (task_done reason now e w.node).1 in
    let k = settled-IsSound capacity w m w.submissions h (λ id. refl) done.0 in
    record {
      node = k.node;
      limit = k.limit;
      room = k.room;
      fresh = k.fresh;
      held = k.held;
      snapshots =
          with_snapshot-All m e.pool_id (task_done reason now e w.node).0 w.snapshots done.1
            k.snapshots;
    }

remove_at-All :
    {A : Type 0} (P : A → Type 0) (xs : List A) (i : ℕ) → All P xs → All P (remove_at xs i)
remove_at-All P [] i h = tt
remove_at-All P (x ∷ xs) zero h = h.1
remove_at-All P (x ∷ xs) (suc i) h = (h.0, remove_at-All P xs i h.1)

get_elem?-All :
    {A : Type 0} (P : A → Type 0) (xs : List A) (i : ℕ) (a : A)
    → All P xs
    → get_elem? xs i ≡ some a
    → P a
get_elem?-All P [] i a h e = cc
get_elem?-All P (x ∷ xs) zero a h e = let this : x ≡ a = cc in subst P this h.0
get_elem?-All P (x ∷ xs) (suc i) a h e = get_elem?-All P xs i a h.1 e

delivered-IsSound :
    (capacity i : ℕ) (pool_id : Text) (raised : Option Text) (s : TaskState) (w : World)
    → get_elem? w.snapshots i ≡ some (pool_id, s)
    → IsSound capacity w
    → IsSound capacity (record w {
      node = push_result pool_id raised s w.node;
      snapshots = remove_at w.snapshots i;
    })
delivered-IsSound capacity i pool_id raised s w at h =
    let snap =
      get_elem?-All (λ (e : Text × TaskState). IsSnapshot w.node e.1) w.snapshots i (pool_id, s)
        h.snapshots at in
    let k =
      kept-IsSound capacity w (push_result pool_id raised s w.node)
        (push_result-Keeps pool_id raised s w.node snap) h in
    record {
      node = k.node;
      limit = k.limit;
      room = k.room;
      fresh = k.fresh;
      held = k.held;
      snapshots = remove_at-All _ w.snapshots i k.snapshots;
    }

Step-IsSound : (capacity : ℕ) {w v : World} → IsSound capacity w → Step w v → IsSound capacity v
unfolding prepare_failed
Step-IsSound capacity {w} h (submits si pool_id token job_id items p e) =
    reserved-IsSound capacity si w pool_id p.pool_id job_id items h
Step-IsSound capacity {w} h (fails_to_prepare i s id rest at none_sent e) =
    released-IsSound capacity w i s (record s { todo = rest }) id h at e
Step-IsSound capacity {w} h (commits i now s id rest at none_sent e) =
    commit-IsSound capacity now w i s id rest h at e
Step-IsSound capacity {w} h (is_refused i s id lease at sent) =
    dispatched-IsSound capacity w _ i s at (withdraw-Keeps id lease w.node) h
Step-IsSound capacity {w} h (is_taken i s id lease at sent) =
    dispatched-IsSound capacity w _ i s at (count_task-Keeps s.pool_id w.node) h
Step-IsSound capacity {w} h (pulls results) =
    kept-IsSound capacity w _ (forget_results-Keeps results w.node) h
Step-IsSound capacity {w} h (closes now owner pool_id token reason n e) =
    kept-IsSound capacity w n (close_task_pool-Keeps now owner pool_id token reason w.node n e) h
Step-IsSound capacity {w} h (cancels now pool_id token job_id reason counts n e) =
    kept-IsSound capacity w n
      (cancel_pool_job-Keeps now pool_id token job_id reason counts w.node n e) h
Step-IsSound capacity {w} h (beats now owner pool_id token n e) =
    kept-IsSound capacity w n (heartbeat_task_pool-Keeps now owner pool_id token w.node n e) h
Step-IsSound capacity {w} h (checks_health now key p) =
    kept-IsSound capacity w _ (handle_task_pool_resource_health-Keeps now key p w.node) h
Step-IsSound capacity {w} h (prunes limit) =
    kept-IsSound capacity w _ (prune_inactive_resource_history-Keeps limit w.node) h
Step-IsSound capacity {w} h (finishes reason now e) = finished-IsSound capacity now reason e w h
Step-IsSound capacity {w} h (delivers i pool_id raised s at) =
    delivered-IsSound capacity i pool_id raised s w at h
Step-IsSound capacity {w} h (changes_pools pools) =
    kept-IsSound capacity w _ (pools-Keeps pools w.node) h

-- In every reachable state the active ids are the ids of the unfinished tasks, the reserved ids have
-- no task, each of them is held by one submission, and the queue has room for all of them.
pub Reach-IsSound :
    (instance_id : Text) (capacity : ℕ) (codes : List Text) {w : World}
    → Reach instance_id capacity codes w
    → IsSound capacity w
unfolding get member
Reach-IsSound instance_id capacity codes begins = record {
  node = record { unique = tt; named = tt; tasks = tt; active = λ id. refl };
  limit = refl;
  room = omega arith;
  fresh = λ id held. cc;
  held = λ id. refl;
  snapshots = tt;
}
Reach-IsSound instance_id capacity codes (later r step) =
    Step-IsSound capacity (Reach-IsSound instance_id capacity codes r) step
