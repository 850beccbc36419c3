-- ===== src/JobQueue/Waiting.antt =====
-- What stands in the order of waiting jobs behind each of its updates.
use new_pycloud.Base.{
  ◌≡◌, refl, true, false, not, ◌&&◌, ◌||◌, List, [], ◌∷◌, none, some, keep, ◌==◌, nat_eq, list_eq,
  list_beq_iff, beq_refl, Bool-cases, inl, inr, arith,
}
use new_pycloud.Base.Dict.{get}
use new_pycloud.Base.Text.{Text}
use new_pycloud.JobQueue.{
  JobState, is_pickable, pickable_at, mem, prune_from, prune_waiting_order, remove_waiting_job,
  insert_by_key, insert_waiting_job, first_pickable,
}
use new_pycloud.JobQueue.Calls.{move_up, move_down}

mem-prune_from :
    (id : Text) (seen : List Text) (jobs : List (Text × JobState)) (order : List Text)
    → mem id (prune_from seen jobs order)
      ≡ mem id order && (not (mem id seen) && pickable_at id jobs)
unfolding prune_from
mem-prune_from id seen jobs [] = refl
mem-prune_from id seen jobs (j ∷ order) =
    ground (arith, mem-prune_from id (j ∷ seen) jobs order, list_beq_iff j id)

pub mem-prune :
    (id : Text) (jobs : List (Text × JobState)) (order : List Text)
    → mem id (prune_waiting_order jobs order) ≡ mem id order && pickable_at id jobs
mem-prune id jobs order = mem-prune_from id [] jobs order

-- No id stands twice.
abbrev pub IsDistinct : List Text → Type 0
IsDistinct [] = Unit
IsDistinct (id ∷ ids) = (mem id ids ≡ false) × IsDistinct ids

prune_from-IsDistinct :
    (seen : List Text) (jobs : List (Text × JobState)) (order : List Text)
    → IsDistinct (prune_from seen jobs order)
unfolding prune_from
prune_from-IsDistinct seen jobs [] = tt
prune_from-IsDistinct seen jobs (j ∷ order) = ground (
  arith,
  prune_from-IsDistinct (j ∷ seen) jobs order,
  mem-prune_from j (j ∷ seen) jobs order,
  beq_refl j,
)

pub prune-IsDistinct :
    (jobs : List (Text × JobState)) (order : List Text)
    → IsDistinct (prune_waiting_order jobs order)
prune-IsDistinct jobs order = prune_from-IsDistinct [] jobs order

pub mem-remove :
    (id j : Text) (order : List Text)
    → mem id (remove_waiting_job j order) ≡ not (id == j) && mem id order
unfolding keep
mem-remove id j [] = ground arith
mem-remove id j (k ∷ order) =
    ground (arith, mem-remove id j order, list_beq_iff k id, list_beq_iff k j, beq_refl j)

mem-insert_by_key :
    (id : Text) (jobs : List (Text × JobState)) (s : JobState) (order : List Text)
    → mem id (insert_by_key jobs s order) ≡ (s.job_id == id) || mem id order
unfolding insert_by_key
mem-insert_by_key id jobs s [] = ground arith
mem-insert_by_key id jobs s (j ∷ order) = ground (arith, mem-insert_by_key id jobs s order)

pub mem-insert_waiting :
    (id : Text) (jobs : List (Text × JobState)) (s : JobState) (order : List Text)
    → mem id (insert_waiting_job jobs s order)
      ≡ (s.job_id == id) || (mem id order && pickable_at id jobs)
unfolding insert_waiting_job
mem-insert_waiting id jobs s order =
    rw (mem-insert_by_key id jobs s (prune_waiting_order jobs order), mem-prune id jobs order)

pub mem-move_up : (id j : Text) (order : List Text) → mem id (move_up j order) ≡ mem id order
unfolding move_up
mem-move_up id j [] = refl
mem-move_up id j (a ∷ []) = refl
mem-move_up id j (a ∷ b ∷ order) = ground (arith, mem-move_up id j (b ∷ order))

pub mem-move_down : (id j : Text) (order : List Text) → mem id (move_down j order) ≡ mem id order
unfolding move_down
mem-move_down id j [] = refl
mem-move_down id j (a ∷ []) = refl
mem-move_down id j (a ∷ b ∷ order) = ground (arith, mem-move_down id j (b ∷ order))

-- What the loop over the order finds: a job that may be started, if the order has one.
pub first_pickable-some :
    (jobs : List (Text × JobState)) (order : List Text) (s : JobState)
    → first_pickable jobs order ≡ some s
    → (id : Text) × (get id jobs ≡ some s) × (is_pickable s ≡ true) × (mem id order ≡ true)
unfolding first_pickable
first_pickable-some jobs [] s h = cc
first_pickable-some jobs (id ∷ order) s h = elim (Bool-cases (pickable_at id jobs)) [
  | inl good ↦ (id, ground arith, ground arith, ground (arith, beq_refl id))
  | inr bad ↦
      let (j, at_j, pickable, there) = first_pickable-some jobs order s (ground arith) in
      (j, at_j, pickable, ground arith)
]

pub first_pickable-none :
    (jobs : List (Text × JobState)) (order : List Text)
    → first_pickable jobs order ≡ none
    → (id : Text) → mem id order ≡ true
    → pickable_at id jobs ≡ false
unfolding first_pickable
first_pickable-none jobs [] h id i = cc
first_pickable-none jobs (j ∷ order) h id i =
    ground (arith, first_pickable-none jobs order (ground arith) id, list_beq_iff j id)
