-- ===== src/NodeControl/Committed.antt =====
-- The invariant of Invariant where a submission commits or gives up the next of its reserved ids.
use new_pycloud.Base.{
  ℕ, ◌+◌, ◌≡◌, refl, ap, true, List, ◌∷◌, Option, none, some, if_either, elim_either, ◌==◌, nat_eq,
  list_eq, list_beq_iff, total-set, get_elem?, set, arith,
}
use new_pycloud.Base.Dict.{get, insert, get-insert, insert-HasUniqueKeys}
use new_pycloud.Base.Sets.{
  member, discard, add, member-discard, member-add, length-add-le, length-discard-le,
  length-discard-lt,
}
use new_pycloud.Base.Text.{Text, codes, strip}
use new_pycloud.NodeControl.{TaskState, NodeControlState}
use new_pycloud.NodeControl.Submit.{release, commit, new_task}
use new_pycloud.NodeControl.Sweep.{IsNamed}
use new_pycloud.NodeControl.Reserve.{one_if, occurrences}
use new_pycloud.NodeControl.Steps.{Submission, World, dispatched}
use new_pycloud.NodeControl.Consistent.{IsTask, HasActiveIds}
use new_pycloud.NodeControl.Changes.{insert-All}
use new_pycloud.NodeControl.Finished.{IsSnapshot}
use new_pycloud.NodeControl.Invariant.{holders, IsSound, All-weaken}

-- A submission in its place with its first id taken off.
taken_off :
    (i : ℕ) (s t : Submission) (id : Text) (subs : List Submission)
    → get_elem? subs i ≡ some s
    → s.todo ≡ id ∷ t.todo
    → (k : Text) → holders k (set subs i t) + one_if (id == k) ≡ holders k subs
taken_off i s t id subs at e k =
    let moved = total-set (λ (s : Submission). occurrences k s.todo) subs i s t at in
    let first : occurrences k s.todo ≡ one_if (id == k) + occurrences k t.todo =
      ap (occurrences k) e in
    omega (arith, moved, first)

module _ (capacity : ℕ) (w : World) (i : ℕ) (s t : Submission) (id : Text) (h : IsSound capacity w)
    (at : get_elem? w.submissions i ≡ some s) (e : s.todo ≡ id ∷ t.todo) where
  is_reserved : member id w.node.pool_task_reserved_ids ≡ true
  is_reserved =
      ground (arith, h.held id, taken_off i s t id w.submissions at e id, list_beq_iff id id)

  held_after :
      (k : Text)
      → one_if (member k (discard id w.node.pool_task_reserved_ids))
        ≡ holders k (set w.submissions i t)
  held_after k = ground (
    arith,
    member-discard k id w.node.pool_task_reserved_ids,
    h.held k,
    taken_off i s t id w.submissions at e k,
    is_reserved,
    list_beq_iff id k,
  )

  pub released-IsSound :
      IsSound capacity (record w { node = release id w.node; submissions = set w.submissions i t })
  released-IsSound = record {
    node = record {
      unique = h.node.unique;
      named = h.node.named;
      tasks = h.node.tasks;
      active = h.node.active;
    };
    limit = h.limit;
    room = omega (arith, h.room, length-discard-le id w.node.pool_task_reserved_ids);
    fresh = λ k held.
        ground (arith, member-discard k id w.node.pool_task_reserved_ids, held, h.fresh k);
    held = held_after;
    snapshots =
        All-weaken (λ e. IsSnapshot w.node e.1) _ w.snapshots
          (λ e s. record { over = s.over; lease = s.lease; ended = s.ended }) h.snapshots;
  }

  committed : ℕ → Text → Text → NodeControlState
  committed now pool_id job_id = record w.node {
    pool_task_reserved_ids = discard id w.node.pool_task_reserved_ids;
    pool_tasks = insert id (new_task now id pool_id job_id w.node.next_lease) w.node.pool_tasks;
    active_pool_task_ids = add id w.node.active_pool_task_ids;
    next_lease = w.node.next_lease + 1;
  }

  later_IsTask :
      (e : Text × TaskState) → IsTask w.node.next_lease e → IsTask (w.node.next_lease + 1) e
  later_IsTask e t = (omega (arith, t.0), t.1)

  committed-HasActiveIds :
      (now : ℕ) (pool_id job_id : Text) → HasActiveIds (committed now pool_id job_id)
  unfolding committed
  committed-HasActiveIds now pool_id job_id =
      let task = new_task now id pool_id job_id w.node.next_lease in
      let named = (h.fresh id is_reserved).1 in
      record {
        unique = insert-HasUniqueKeys id task w.node.pool_tasks h.node.unique;
        named = insert-All IsNamed id task w.node.pool_tasks (refl, named) h.node.named;
        tasks =
            insert-All (IsTask (w.node.next_lease + 1)) id task w.node.pool_tasks
              (omega arith, refl)
              (All-weaken (IsTask w.node.next_lease) (IsTask (w.node.next_lease + 1))
                w.node.pool_tasks later_IsTask h.node.tasks);
        active = λ k. ground (
          arith,
          member-add k id w.node.active_pool_task_ids,
          h.node.active k,
          get-insert id k task w.node.pool_tasks,
        );
      }

  committed-IsSnapshot :
      (now : ℕ) (pool_id job_id : Text) (snap : TaskState)
      → IsSnapshot w.node snap
      → IsSnapshot (committed now pool_id job_id) snap
  unfolding committed
  committed-IsSnapshot now pool_id job_id snap s = record {
    over = s.over;
    lease = omega (arith, s.lease);
    ended = ground (
      arith,
      get-insert id snap.task_id (new_task now id pool_id job_id w.node.next_lease)
          w.node.pool_tasks,
      s.ended,
      s.lease,
    );
  }

  committed-IsSound :
      (now : ℕ) (pool_id job_id : Text)
      → IsSound capacity
          (record w { node = committed now pool_id job_id; submissions = set w.submissions i t })
  unfolding committed
  committed-IsSound now pool_id job_id = record {
    node = committed-HasActiveIds now pool_id job_id;
    limit = h.limit;
    room = omega (
      arith,
      h.room,
      length-add-le id w.node.active_pool_task_ids,
      length-discard-lt id w.node.pool_task_reserved_ids is_reserved,
    );
    fresh = λ k held. ground (
      arith,
      member-discard k id w.node.pool_task_reserved_ids,
      held,
      h.fresh k,
      get-insert id k (new_task now id pool_id job_id w.node.next_lease) w.node.pool_tasks,
    );
    held = held_after;
    snapshots =
        All-weaken (λ e. IsSnapshot w.node e.1) _ w.snapshots
          (λ e s. committed-IsSnapshot now pool_id job_id e.1 s) h.snapshots;
  }

pub commit-IsSound :
    (capacity now : ℕ) (w : World) (i : ℕ) (s : Submission) (id : Text) (rest : List Text)
    → IsSound capacity w
    → get_elem? w.submissions i ≡ some s
    → s.todo ≡ id ∷ rest
    → IsSound capacity (record w {
      node = (commit now s.pool_id s.client_id s.job_id id w.node).1;
      submissions = set w.submissions i (record s {
        todo = rest;
        dispatching = dispatched id (commit now s.pool_id s.client_id s.job_id id w.node).0;
      });
    })
unfolding commit committed
commit-IsSound capacity now w i s id rest h at e =
    let P : Option ℕ × NodeControlState → Type 0 = λ r. IsSound capacity (record w {
      node = r.1;
      submissions = set w.submissions i (record s { todo = rest; dispatching = dispatched id r.0 });
    }) in
    let given_up : P (none, release id w.node) =
      released-IsSound capacity w i s (record s { todo = rest; dispatching = none }) id h at e in
    elim_either P (get (strip s.pool_id) w.node.task_pools) given_up (λ p.
      if_either P (p.status == codes "RUNNING")
        (committed-IsSound capacity w i s
          (record s { todo = rest; dispatching = some (id, w.node.next_lease) }) id h at e now
          s.client_id s.job_id)
        given_up)
