-- ===== src/JobQueue/Pick.antt =====
-- Which job the scheduler starts next.
use new_pycloud.Base.{
  ◌≡◌, refl, ◌∙◌, ◌⊎◌, inl, inr, true, false, List, [], ◌∷◌, none, some, nat_eq, list_eq,
  list_beq_iff, beq_refl, arith, Option-cases, List-cases, keep, ap,
}
use new_pycloud.Base.Dict.{get, values, HasUniqueKeys}
use new_pycloud.Base.Text.{Text}
use new_pycloud.JobQueue.{
  JobState, Manager, mem, is_pickable, pickable_at, prune_waiting_order, first_pickable,
  pick_unordered, pick_from, pick_next_job, sort_by_key,
}
use new_pycloud.JobQueue.Waiting.{mem-prune}
use new_pycloud.JobQueue.Invariant.{Inv}

keep-values-empty :
    (jobs : List (Text × JobState))
    → HasUniqueKeys jobs
    → ((id : Text) → pickable_at id jobs ≡ false)
    → keep is_pickable (values jobs) ≡ []
unfolding keep get
keep-values-empty [] u h = refl
keep-values-empty ((id, s) ∷ jobs) u h = ground (
  arith,
  h id,
  beq_refl id,
  keep-values-empty jobs u.1 λ j. ground (arith, h j, list_beq_iff id j),
)

-- Every job that may be started is in the order.
abbrev pub HasWaiting : Manager → Type 0
HasWaiting m = (id : Text) → pickable_at id m.jobs ≡ true → mem id m.waiting_order ≡ true

pickable-mem :
    (m : Manager)
    → Inv m
    → (id : Text) → pickable_at id m.jobs ≡ true
    → mem id m.waiting_order ≡ true
pickable-mem m v id h = elim (Option-cases (get id m.jobs)) [
  | inl absent ↦ ground arith
  | inr (s, at) ↦ ground (arith, v.ok id s at)
]

none_pickable :
    (m : Manager)
    → HasWaiting m
    → prune_waiting_order m.jobs m.waiting_order ≡ []
    → (id : Text) → pickable_at id m.jobs ≡ false
none_pickable m v e id = ground (arith, v id, mem-prune id m.jobs m.waiting_order, e)

pick_from-empty :
    (m : Manager)
    → keep is_pickable (values m.jobs) ≡ []
    → pick_from [] m ≡ (record m { waiting_order = [] }, none)
unfolding pick_from pick_unordered first_pickable sort_by_key
pick_from-empty m e = ground (arith, e)

pick_from-head :
    (m : Manager) (id : Text) (rest : List Text) (s : JobState)
    → get id m.jobs ≡ some s
    → is_pickable s ≡ true
    → pick_from (id ∷ rest) m ≡ (record m { waiting_order = id ∷ rest }, some s)
unfolding pick_from first_pickable
pick_from-head m id rest s at h = ground arith

pick_next-from :
    (m : Manager) (order : List Text)
    → prune_waiting_order m.jobs m.waiting_order ≡ order
    → pick_next_job m ≡ pick_from order m
unfolding pick_next_job
pick_next-from m order e = ap (λ x. pick_from x m) e

head_pickable :
    (m : Manager) (id : Text) (rest : List Text)
    → prune_waiting_order m.jobs m.waiting_order ≡ id ∷ rest
    → pickable_at id m.jobs ≡ true
head_pickable m id rest e = ground (arith, mem-prune id m.jobs m.waiting_order, beq_refl id, e)

-- What the scheduler finds.
abbrev pub PickCases : Manager → Type 0
PickCases m =
    (((id : Text) → pickable_at id m.jobs ≡ false)
      × (pick_next_job m ≡ (record m { waiting_order = [] }, none)))
    ⊎ ((id : Text) × (s : JobState) × (rest : List Text) × (prune_waiting_order m.jobs
            m.waiting_order
          ≡ id ∷ rest)
        × (get id m.jobs ≡ some s)
        × (is_pickable s ≡ true)
        × (pick_next_job m ≡ (record m { waiting_order = id ∷ rest }, some s)))

pub pick-PickCases : (m : Manager) → HasWaiting m → HasUniqueKeys m.jobs → PickCases m
pick-PickCases m v unique = elim (List-cases (prune_waiting_order m.jobs m.waiting_order)) [
  | inl e ↦
      let none_waits = none_pickable m v e in
      inl (
        none_waits,
        pick_next-from m [] e ∙ pick_from-empty m (keep-values-empty m.jobs unique none_waits),
      )
  | inr (id, rest, e) ↦ elim (Option-cases (get id m.jobs)) [
    | inl absent ↦ ground (arith, head_pickable m id rest e)
    | inr (s, at) ↦
        let pickable : is_pickable s ≡ true = ground (arith, head_pickable m id rest e) in
        inr (
          id,
          s,
          rest,
          e,
          at,
          pickable,
          pick_next-from m (id ∷ rest) e ∙ pick_from-head m id rest s at pickable,
        )
  ]
]

-- In a reachable state, with jobs in every state, the scheduler finds none exactly if no job waits,
-- and otherwise takes the first job of the pruned order, which waits and is not cancelled; the
-- search among the jobs that the order does not name is never needed.
pub pick_next_job-cases :
    (m : Manager)
    → Inv m
    → (((id : Text) → pickable_at id m.jobs ≡ false)
        × (pick_next_job m ≡ (record m { waiting_order = [] }, none)))
      ⊎ ((id : Text) × (s : JobState) × (rest : List Text) × (prune_waiting_order m.jobs
              m.waiting_order
            ≡ id ∷ rest)
          × (get id m.jobs ≡ some s)
          × (is_pickable s ≡ true)
          × (pick_next_job m ≡ (record m { waiting_order = id ∷ rest }, some s)))
pick_next_job-cases m v = pick-PickCases m (pickable-mem m v) v.unique
