-- ===== src/NodeControl/Invariant.antt =====
-- The invariant of the tasks of pools under the interleavings of Steps.
use new_pycloud.Base.{
  ℕ, ◌+◌, ◌≡◌, ◌≤◌, ◌<◌, sym, ap, subst, ◌∙◌, true, List, [], ◌∷◌, none, nat_eq, list_eq, length,
  All, total, arith,
}
use new_pycloud.Base.Dict.{get}
use new_pycloud.Base.Sets.{member}
use new_pycloud.Base.Text.{Text, strip}
use new_pycloud.NodeControl.{TaskState, NodeControlState}
use new_pycloud.NodeControl.Submit.{reserve, reserving}
use new_pycloud.NodeControl.Reserve.{
  one_if, occurrences, reserve_items-HasRoom, reserve_items-IsReservable, reserve_items-IsCounted,
}
use new_pycloud.NodeControl.Steps.{Submission, World}
use new_pycloud.NodeControl.Consistent.{HasActiveIds, Settles}
use new_pycloud.NodeControl.Finished.{IsSnapshot}

-- The submissions that have still to commit the id.
abbrev pub holders : Text → List Submission → ℕ
holders id = total λ s. occurrences id s.todo

pub record IsSound (capacity : ℕ) (w : World) : Type 0 where
  pub node : HasActiveIds w.node
  pub limit : w.node.queue_capacity ≡ capacity
  pub room : length w.node.active_pool_task_ids + length w.node.pool_task_reserved_ids ≤ capacity
  pub fresh :
      (id : Text)
      → member id w.node.pool_task_reserved_ids ≡ true
      → (get id w.node.pool_tasks ≡ none) × (strip id ≡ id)
  pub held :
      (id : Text) → one_if (member id w.node.pool_task_reserved_ids) ≡ holders id w.submissions
  pub snapshots : All (λ e. IsSnapshot w.node e.1) w.snapshots

pub All-weaken :
    {A : Type 0} (P Q : A → Type 0) (xs : List A) → ((a : A) → P a → Q a) → All P xs → All Q xs
All-weaken P Q [] f h = tt
All-weaken P Q (x ∷ xs) f h = (f x h.0, All-weaken P Q xs f h.1)

pub settled-IsSnapshot :
    (n m : NodeControlState) (s : TaskState) → Settles n m → IsSnapshot n s → IsSnapshot m s
settled-IsSnapshot n m s settles h = record {
  over = h.over;
  lease = subst (λ l. s.lease_id < l) (sym settles.lease) h.lease;
  ended = settles.ended s.task_id s.lease_id h.ended;
}

-- A call that neither reserves nor commits.
pub settled-IsSound :
    (capacity : ℕ) (w : World) (m : NodeControlState) (subs : List Submission)
    → IsSound capacity w
    → ((id : Text) → holders id subs ≡ holders id w.submissions)
    → HasActiveIds m × Settles w.node m
    → IsSound capacity (record w { node = m; submissions = subs })
settled-IsSound capacity w m subs h same k = record {
  node = k.0;
  limit = k.1.capacity ∙ h.limit;
  room = omega (arith, h.room, k.1.fewer, ap length k.1.reserved);
  fresh = λ id held.
      let old = h.fresh id (ap (member id) (sym k.1.reserved) ∙ held) in
      (k.1.absent id old.0, old.1);
  held = λ id. ap (λ ids. one_if (member id ids)) k.1.reserved ∙ (h.held id ∙ sym (same id));
  snapshots =
      All-weaken (λ e. IsSnapshot w.node e.1) (λ e. IsSnapshot m e.1) w.snapshots
        (λ e. settled-IsSnapshot w.node m e.1 k.1) h.snapshots;
}

pub reserved-IsSound :
    (capacity service_inflight : ℕ) (w : World) (pool_id client_id job_id : Text)
    (items : List Text)
    → IsSound capacity w
    → IsSound capacity (record w {
      node = (reserve service_inflight items w.node).0;
      submissions =
          record {
            pool_id = pool_id;
            client_id = client_id;
            job_id = job_id;
            todo = (reserve service_inflight items w.node).1.0;
            dispatching = none;
          }
          ∷ w.submissions;
    })
unfolding reserve reserving
reserved-IsSound capacity service_inflight w pool_id client_id job_id items h =
    let n = w.node in
    let r = reserving service_inflight n in
    let room =
      reserve_items-HasRoom n.queue_capacity n.pool_tasks (length n.active_pool_task_ids) items r
        (omega arith, ground (arith, h.room, h.limit)) in
    record {
      node = record {
        unique = h.node.unique;
        named = h.node.named;
        tasks = h.node.tasks;
        active = h.node.active;
      };
      limit = h.limit;
      room = ground (arith, room, h.limit);
      fresh =
          λ id. reserve_items-IsReservable n.queue_capacity n.pool_tasks id items r (h.fresh id);
      held = λ id.
          let counted =
            reserve_items-IsCounted n.queue_capacity n.pool_tasks id (holders id w.submissions)
              items r (omega (arith, h.held id)) in
          omega (arith, counted);
      snapshots =
          All-weaken (λ e. IsSnapshot n e.1) _ w.snapshots
            (λ e s. record { over = s.over; lease = s.lease; ended = s.ended }) h.snapshots;
    }
