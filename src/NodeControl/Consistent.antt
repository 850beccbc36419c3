-- ===== src/NodeControl/Consistent.antt =====
-- What every call keeps of the tasks of pools: the active ids are the ids of the unfinished tasks.
use new_pycloud.Base.{
  ℕ, ◌≡◌, ◌≤◌, ◌<◌, refl, ◌∙◌, Bool, true, false, not, ◌&&◌, Option, none, some, nat_beq, nat_eq,
  list_eq, length, All, arith,
}
use new_pycloud.Base.Dict.{get, HasUniqueKeys}
use new_pycloud.Base.Sets.{member}
use new_pycloud.Base.Text.{Text}
use new_pycloud.NodeControl.{TaskState, NodeControlState, is_terminal_status}
use new_pycloud.NodeControl.Stop.{Tasks}
use new_pycloud.NodeControl.Calls.{is_queued}
use new_pycloud.NodeControl.Sweep.{IsNamed}

abbrev pub is_open : TaskState → Bool
is_open t = not (is_terminal_status t.status)

abbrev pub open_in : Option TaskState → Bool
open_in none = false
open_in (some t) = is_open t

abbrev pub open_at : Text → Tasks → Bool
open_at id m = open_in (get id m)

-- It is no unfinished task with this lease.
abbrev pub ended_in : ℕ → Option TaskState → Bool
ended_in lease none = true
ended_in lease (some t) = not (nat_beq t.lease_id lease && is_open t)

abbrev pub ended_at : Text → ℕ → Tasks → Bool
ended_at id lease m = ended_in lease (get id m)

-- A task has a lease that was given out, and does not wait: tasks are made running.
abbrev pub IsTask : ℕ → Text × TaskState → Type 0
IsTask next e = (e.1.lease_id < next) × (is_queued e.1.status ≡ false)

pub record HasActiveIds (n : NodeControlState) : Type 0 where
  pub unique : HasUniqueKeys n.pool_tasks
  pub named : All IsNamed n.pool_tasks
  pub tasks : All (IsTask n.next_lease) n.pool_tasks
  pub active : (id : Text) → member id n.active_pool_task_ids ≡ open_at id n.pool_tasks

-- What a call that neither reserves nor commits leaves alone.
pub record Settles (n m : NodeControlState) : Type 0 where
  pub reserved : m.pool_task_reserved_ids ≡ n.pool_task_reserved_ids
  pub capacity : m.queue_capacity ≡ n.queue_capacity
  pub lease : m.next_lease ≡ n.next_lease
  pub fewer : length m.active_pool_task_ids ≤ length n.active_pool_task_ids
  pub absent : (id : Text) → get id n.pool_tasks ≡ none → get id m.pool_tasks ≡ none
  pub ended :
      (id : Text) (lease : ℕ)
      → ended_at id lease n.pool_tasks ≡ true
      → ended_at id lease m.pool_tasks ≡ true

abbrev pub Keeps : NodeControlState → NodeControlState → Type 0
Keeps n m = HasActiveIds n → HasActiveIds m × Settles n m

pub Settles-refl : (n : NodeControlState) → Settles n n
Settles-refl n = record {
  reserved = refl;
  capacity = refl;
  lease = refl;
  fewer = omega arith;
  absent = λ id h. h;
  ended = λ id lease h. h;
}

pub Settles-trans : (k n m : NodeControlState) → Settles k n → Settles n m → Settles k m
Settles-trans k n m a b = record {
  reserved = b.reserved ∙ a.reserved;
  capacity = b.capacity ∙ a.capacity;
  lease = b.lease ∙ a.lease;
  fewer = omega (arith, a.fewer, b.fewer);
  absent = λ id h. b.absent id (a.absent id h);
  ended = λ id lease h. b.ended id lease (a.ended id lease h);
}

pub Keeps-refl : (n : NodeControlState) → Keeps n n
Keeps-refl n h = (h, Settles-refl n)

pub Keeps-trans : (k n m : NodeControlState) → Keeps k n → Keeps n m → Keeps k m
Keeps-trans k n m a b h =
    let first = a h in let second = b first.0 in (second.0, Settles-trans k n m first.1 second.1)
