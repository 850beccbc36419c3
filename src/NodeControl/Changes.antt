-- ===== src/NodeControl/Changes.antt =====
-- The changes of the tasks that keep the active ids those of the unfinished tasks: a loop that
-- finishes or forgets some of them, one that is taken out, and one that is finished in its place.
use new_pycloud.Base.{
  ℕ, ◌≡◌, ◌≤◌, refl, ap, subst, ◌∙◌, Bool, true, false, not, ◌&&◌, List, [], ◌∷◌, Option, none,
  some, if◌then◌else◌, ◌==◌, nat_eq, list_eq, list_beq, list_beq_iff, Bool-cases, inl, inr, length,
  All, arith,
}
use new_pycloud.Base.Dict.{
  get, insert, erase, get-insert, get-erase, insert-HasUniqueKeys, erase-HasUniqueKeys,
}
use new_pycloud.Base.Sets.{member, discard, member-discard, length-discard-le}
use new_pycloud.Base.Text.{Text}
use new_pycloud.NodeControl.{TaskState, TaskResult, TaskPoolState, PoolSignal, NodeControlState}
use new_pycloud.NodeControl.Stop.{
  Tasks, change_where, discard_where, erase_where, discard_keys_where,
}
use new_pycloud.NodeControl.Sweep.{
  IsNamed, changed, kept, get-change_where, change_where-HasUniqueKeys, change_where-All,
  member-discard_where, length-discard_where-le, get-erase_where, erase_where-HasUniqueKeys,
  erase_where-All, member-discard_keys_where, length-discard_keys_where-le,
}
use new_pycloud.NodeControl.Consistent.{
  IsTask, HasActiveIds, Keeps, Keeps-refl, open_in, open_at, ended_in, is_open,
}

-- Only the tasks, their active ids and what is given out of leases matter.
abbrev pub with_tasks : Tasks → List Text → NodeControlState → NodeControlState
with_tasks tasks active n = record n { pool_tasks = tasks; active_pool_task_ids = active }

-- A loop that changes tasks: those that it finishes are those whose ids it discards.
pub record Finishes (p done : TaskState → Bool) (f : TaskState → TaskState) : Type 0 where
  pub names : (k : Text) (t : TaskState) → IsNamed (k, t) → IsNamed (k, f t)
  pub good : (next : ℕ) (k : Text) (t : TaskState) → IsTask next (k, t) → IsTask next (k, f t)
  pub opens : (t : TaskState) → is_open (if p t then f t else t) ≡ (is_open t && not (done t))
  pub leases : (t : TaskState) → (f t).lease_id ≡ t.lease_id

module _ (p done : TaskState → Bool) (f : TaskState → TaskState) (how : Finishes p done f) where
  ended_in-changed :
      (lease : ℕ) (o : Option TaskState)
      → ended_in lease o ≡ true
      → ended_in lease (changed p f o) ≡ true
  ended_in-changed lease none h = refl
  ended_in-changed lease (some t) h = ground (arith, h, how.opens t, how.leases t)

  open_in-changed :
      (o : Option TaskState)
      → open_in (changed p f o) ≡ (open_in o && not (elim o [ none ↦ false | some t ↦ done t ]))
  open_in-changed none = refl
  open_in-changed (some t) = ground (arith, how.opens t)

  pub change_where-Keeps :
      (n : NodeControlState)
      → Keeps n (
          with_tasks
            (change_where p f n.pool_tasks)
            (discard_where done n.pool_tasks n.active_pool_task_ids)
            n)
  change_where-Keeps n h = (
    record {
      unique = change_where-HasUniqueKeys p f n.pool_tasks h.unique;
      named = change_where-All IsNamed p f n.pool_tasks how.names h.named;
      tasks =
          change_where-All (IsTask n.next_lease) p f n.pool_tasks (how.good n.next_lease) h.tasks;
      active = λ id. ground (
        arith,
        member-discard_where done id n.pool_tasks n.active_pool_task_ids h.unique h.named,
        h.active id,
        get-change_where p f id n.pool_tasks,
        open_in-changed (get id n.pool_tasks),
      );
    },
    record {
      reserved = refl;
      capacity = refl;
      lease = refl;
      fewer = length-discard_where-le done n.pool_tasks n.active_pool_task_ids;
      absent = λ id none_at. get-change_where p f id n.pool_tasks ∙ ap (changed p f) none_at;
      ended = λ id lease e.
          rw (get-change_where p f id n.pool_tasks)
            (ended_in-changed lease (get id n.pool_tasks) e);
    },
  )

module _ (p : TaskState → Bool) where
  open_in-kept :
      (o : Option TaskState)
      → open_in (kept p o) ≡ (open_in o && not (elim o [ none ↦ false | some t ↦ p t ]))
  open_in-kept none = refl
  open_in-kept (some t) = ground arith

  ended_in-kept :
      (lease : ℕ) (o : Option TaskState)
      → ended_in lease o ≡ true
      → ended_in lease (kept p o) ≡ true
  ended_in-kept lease none h = refl
  ended_in-kept lease (some t) h = ground (arith, h)

  pub erase_where-Keeps :
      (n : NodeControlState)
      → Keeps n (
          with_tasks
            (erase_where p n.pool_tasks)
            (discard_keys_where p n.pool_tasks n.active_pool_task_ids)
            n)
  erase_where-Keeps n h = (
    record {
      unique = erase_where-HasUniqueKeys p n.pool_tasks h.unique;
      named = erase_where-All IsNamed p n.pool_tasks h.named;
      tasks = erase_where-All (IsTask n.next_lease) p n.pool_tasks h.tasks;
      active = λ id. ground (
        arith,
        member-discard_keys_where p id n.pool_tasks n.active_pool_task_ids h.unique,
        h.active id,
        get-erase_where p id n.pool_tasks h.unique,
        open_in-kept (get id n.pool_tasks),
      );
    },
    record {
      reserved = refl;
      capacity = refl;
      lease = refl;
      fewer = length-discard_keys_where-le p n.pool_tasks n.active_pool_task_ids;
      absent = λ id none_at. get-erase_where p id n.pool_tasks h.unique ∙ ap (kept p) none_at;
      ended = λ id lease e.
          rw (get-erase_where p id n.pool_tasks h.unique)
            (ended_in-kept lease (get id n.pool_tasks) e);
    },
  )

erase-All : (P : Text × TaskState → Type 0) (id : Text) (m : Tasks) → All P m → All P (erase id m)
unfolding erase
erase-All P id [] h = tt
erase-All P id ((k, t) ∷ m) h = ground (arith, erase-All P id m h.1)

-- One task is taken out.
pub erase-Keeps :
    (id : Text) (n : NodeControlState)
    → Keeps n (with_tasks (erase id n.pool_tasks) (discard id n.active_pool_task_ids) n)
erase-Keeps id n h = (
  record {
    unique = erase-HasUniqueKeys id n.pool_tasks h.unique;
    named = erase-All IsNamed id n.pool_tasks h.named;
    tasks = erase-All (IsTask n.next_lease) id n.pool_tasks h.tasks;
    active = λ k. ground (
      arith,
      member-discard k id n.active_pool_task_ids,
      h.active k,
      get-erase id k n.pool_tasks,
    );
  },
  record {
    reserved = refl;
    capacity = refl;
    lease = refl;
    fewer = length-discard-le id n.active_pool_task_ids;
    absent = λ k none_at. ground (arith, get-erase id k n.pool_tasks, none_at);
    ended = λ k lease e. ground (arith, get-erase id k n.pool_tasks, e);
  },
)

pub insert-All :
    (P : Text × TaskState → Type 0) (id : Text) (t : TaskState) (m : Tasks)
    → P (id, t)
    → All P m
    → All P (insert id t m)
unfolding insert
insert-All P id t [] h hs = (h, tt)
insert-All P id t ((k, s) ∷ m) h hs = ground (arith, list_beq_iff k id, insert-All P id t m h hs.1)

-- A task that stands is put in place of itself, finished, with its lease.
pub insert-Keeps :
    (id : Text) (old new : TaskState) (active : List Text) (n : NodeControlState)
    → get id n.pool_tasks ≡ some old
    → IsNamed (id, new)
    → IsTask n.next_lease (id, new)
    → is_open new ≡ false
    → length active ≤ length n.active_pool_task_ids
    → ((k : Text)
        → HasActiveIds n
        → member k active ≡ (if id == k then false else open_at k n.pool_tasks))
    → Keeps n (with_tasks (insert id new n.pool_tasks) active n)
insert-Keeps id old new active n found named task over fewer members h = (
  record {
    unique = insert-HasUniqueKeys id new n.pool_tasks h.unique;
    named = insert-All IsNamed id new n.pool_tasks named h.named;
    tasks = insert-All (IsTask n.next_lease) id new n.pool_tasks task h.tasks;
    active = λ k. ground (arith, members k h, get-insert id k new n.pool_tasks, over);
  },
  record {
    reserved = refl;
    capacity = refl;
    lease = refl;
    fewer = fewer;
    absent = λ k none_at.
        ground (arith, get-insert id k new n.pool_tasks, none_at, found, list_beq_iff id k);
    ended = λ k lease e. ground (arith, get-insert id k new n.pool_tasks, e, over);
  },
)

-- What else stands in the state does not matter.
abbrev pub with_others :
    List (Text × TaskPoolState)
    → List (Text × TaskResult)
    → List Text
    → List PoolSignal
    → NodeControlState
    → NodeControlState
with_others pools results stops signals n = record n {
  task_pools = pools;
  results = results;
  stops = stops;
  signals = signals;
}

pub others-Keeps :
    (pools : List (Text × TaskPoolState)) (results : List (Text × TaskResult)) (stops : List Text)
    (signals : List PoolSignal) (n m : NodeControlState)
    → Keeps n m
    → Keeps n (with_others pools results stops signals m)
others-Keeps pools results stops signals n m keeps h =
    let k = keeps h in
    (
      record { unique = k.0.unique; named = k.0.named; tasks = k.0.tasks; active = k.0.active },
      record {
        reserved = k.1.reserved;
        capacity = k.1.capacity;
        lease = k.1.lease;
        fewer = k.1.fewer;
        absent = k.1.absent;
        ended = k.1.ended;
      },
    )

pub pools-Keeps :
    (pools : List (Text × TaskPoolState)) (n : NodeControlState)
    → Keeps n (record n { task_pools = pools })
pools-Keeps pools n = others-Keeps pools n.results n.stops n.signals n n (Keeps-refl n)

pub get-All :
    (P : Text × TaskState → Type 0) (id : Text) (t : TaskState) (m : Tasks)
    → All P m
    → get id m ≡ some t
    → P (id, t)
unfolding get
get-All P id t [] hs h = cc
get-All P id t ((k, s) ∷ m) hs h = elim (Bool-cases (list_beq k id)) [
  | inl same ↦
      let this : s ≡ t = ground (arith, h, same) in
      subst (λ j. P (j, t)) ((list_beq_iff k id).0 same) (subst (λ y. P (k, y)) this hs.0)
  | inr other ↦ get-All P id t m hs.1 (ground (arith, h, other))
]
