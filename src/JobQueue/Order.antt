-- ===== src/JobQueue/Order.antt =====
-- The order of the keys, and what keeps the waiting jobs sorted by it.
use new_pycloud.Base.{
  ◌≤◌, ◌≡◌, refl, sym, subst, ◌⊎◌, true, false, List, [], ◌∷◌, some, ◌==◌, nat_eq, list_eq,
  list_beq_iff, arith, inl, inr, Option-cases, Bool-cases, All, All-map,
}
use new_pycloud.Base.Dict.{get, insert, get-insert, get-insert_self}
use new_pycloud.Base.Text.{text_lt, Text}
use new_pycloud.JobQueue.{
  JobState, Manager, key_lt, mem, is_pickable, prune_from, prune_waiting_order, insert_by_key,
  insert_waiting_job, pick_next_job,
}
use new_pycloud.JobQueue.Waiting.{mem-prune}
use new_pycloud.JobQueue.Invariant.{Inv}
use new_pycloud.JobQueue.Pick.{pick_next_job-cases}

text_lt_trans : (a b c : Text) → text_lt a b ≡ true → text_lt b c ≡ true → text_lt a c ≡ true
text_lt_trans a [] c h k = ground arith
text_lt_trans a (y ∷ b) [] h k = ground arith
text_lt_trans [] (y ∷ b) (z ∷ c) h k = refl
text_lt_trans (x ∷ a) (y ∷ b) (z ∷ c) h k = ground (arith, text_lt_trans a b c)

pub key_lt_trans : (a b c : JobState) → key_lt a b ≡ true → key_lt b c ≡ true → key_lt a c ≡ true
unfolding key_lt
key_lt_trans a b c h k = ground (arith, text_lt_trans a.job_id b.job_id c.job_id)

text_lt_irrefl : (a : Text) → text_lt a a ≡ false
text_lt_irrefl [] = refl
text_lt_irrefl (x ∷ a) = ground (arith, text_lt_irrefl a)

pub key_lt_irrefl : (a : JobState) → key_lt a a ≡ false
unfolding key_lt
key_lt_irrefl a = ground (arith, text_lt_irrefl a.job_id)

-- The job under i, if there is one, does not come behind the one under j.
abbrev pub Precedes : List (Text × JobState) → Text → Text → Type 0
Precedes jobs i j =
    (s t : JobState) → get i jobs ≡ some s → get j jobs ≡ some t → key_lt t s ≡ false

abbrev pub IsSorted : List (Text × JobState) → List Text → Type 0
IsSorted jobs [] = Unit
IsSorted jobs (id ∷ ids) = All (Precedes jobs id) ids × IsSorted jobs ids

-- The head of the order comes behind the new job, or stays before it.
insert_by_key-cases :
    (jobs : List (Text × JobState)) (s : JobState) (j : Text) (order : List Text)
    → ((o : JobState) × (get j jobs ≡ some o)
        × (key_lt s o ≡ true)
        × (insert_by_key jobs s (j ∷ order) ≡ s.job_id ∷ j ∷ order))
      ⊎ (((o : JobState) → get j jobs ≡ some o → key_lt s o ≡ false)
          × (insert_by_key jobs s (j ∷ order) ≡ j ∷ insert_by_key jobs s order))
unfolding insert_by_key
insert_by_key-cases jobs s j order = elim (Option-cases (get j jobs)) [
  | inl absent ↦ inr ((λ o at. ground arith), ground arith)
  | inr (o, at) ↦ elim (Bool-cases (key_lt s o)) [
    | inl before ↦ inl (o, at, before, ground arith)
    | inr behind ↦ inr ((λ x at_x. ground arith), ground arith)
  ]
]

insert_by_key-All :
    (P : Text → Type 0) (jobs : List (Text × JobState)) (s : JobState) (order : List Text)
    → P s.job_id
    → All P order
    → All P (insert_by_key jobs s order)
unfolding insert_by_key
insert_by_key-All P jobs s [] h hs = (h, tt)
insert_by_key-All P jobs s (j ∷ order) h hs = elim (insert_by_key-cases jobs s j order) [
  | inl (o, at, before, e) ↦ subst (All P) (sym e) (h, hs)
  | inr (behind, e) ↦ subst (All P) (sym e) (hs.0, insert_by_key-All P jobs s order h hs.1)
]

-- What comes behind a job that the new one precedes is behind the new one too.
Precedes-insert :
    (jobs : List (Text × JobState)) (s o : JobState) (j : Text) (order : List Text)
    → get s.job_id jobs ≡ some s
    → get j jobs ≡ some o
    → key_lt s o ≡ true
    → All (Precedes jobs j) order
    → All (Precedes jobs s.job_id) order
Precedes-insert jobs s o j order own at before =
    All-map (Precedes jobs j) (Precedes jobs s.job_id) order
      λ k after x t at_s at_k. ground (arith, after o t at at_k, key_lt_trans t s o)

insert_by_key-IsSorted :
    (jobs : List (Text × JobState)) (s : JobState) (order : List Text)
    → get s.job_id jobs ≡ some s
    → IsSorted jobs order
    → IsSorted jobs (insert_by_key jobs s order)
unfolding insert_by_key
insert_by_key-IsSorted jobs s [] own h = (tt, tt)
insert_by_key-IsSorted jobs s (j ∷ order) own h = elim (insert_by_key-cases jobs s j order) [
  | inl (o, at, before, e) ↦ subst (IsSorted jobs) (sym e) (
    (
      (λ x t at_s at_j. ground (arith, key_lt_trans s o s before, key_lt_irrefl s)),
      Precedes-insert jobs s o j order own at before h.0,
    ),
    h,
  )
  | inr (behind, e) ↦ subst (IsSorted jobs) (sym e) (
    insert_by_key-All (Precedes jobs j) jobs s order
        (λ x t at_j at_s. ground (arith, behind x at_j)) h.0,
    insert_by_key-IsSorted jobs s order own h.1,
  )
]

prune_from-All :
    (P : Text → Type 0) (seen : List Text) (jobs : List (Text × JobState)) (order : List Text)
    → All P order
    → All P (prune_from seen jobs order)
unfolding prune_from
prune_from-All P seen jobs [] h = tt
prune_from-All P seen jobs (j ∷ order) h =
    ground (arith, prune_from-All P (j ∷ seen) jobs order h.1)

prune_from-IsSorted :
    (js : List (Text × JobState)) (seen : List Text) (jobs : List (Text × JobState))
    (order : List Text)
    → IsSorted js order
    → IsSorted js (prune_from seen jobs order)
unfolding prune_from
prune_from-IsSorted js seen jobs [] h = tt
prune_from-IsSorted js seen jobs (j ∷ order) h = ground (
  arith,
  prune_from-All (Precedes js j) (j ∷ seen) jobs order h.0,
  prune_from-IsSorted js (j ∷ seen) jobs order h.1,
)

-- A job that is not in the order does not change how the others stand to each other.
put-All :
    (jobs : List (Text × JobState)) (s : JobState) (i : Text) (order : List Text)
    → (s.job_id == i) ≡ false
    → mem s.job_id order ≡ false
    → All (Precedes jobs i) order
    → All (Precedes (insert s.job_id s jobs) i) order
put-All jobs s i [] other out h = tt
put-All jobs s i (j ∷ order) other out h = (
  λ x t at_i at_j. ground (
    arith,
    get-insert s.job_id i s jobs,
    get-insert s.job_id j s jobs,
    list_beq_iff j s.job_id,
    list_beq_iff s.job_id j,
    h.0 x t,
  ),
  put-All jobs s i order other (ground arith) h.1,
)

put-IsSorted :
    (jobs : List (Text × JobState)) (s : JobState) (order : List Text)
    → mem s.job_id order ≡ false
    → IsSorted jobs order
    → IsSorted (insert s.job_id s jobs) order
put-IsSorted jobs s [] out h = tt
put-IsSorted jobs s (j ∷ order) out h = (
  put-All jobs s j order (ground (arith, list_beq_iff j s.job_id, list_beq_iff s.job_id j))
      (ground arith) h.0,
  put-IsSorted jobs s order (ground arith) h.1,
)

-- A submission keeps the waiting jobs sorted by priority, time, number and id, if its id is not in
-- their order.
pub insert_waiting-IsSorted :
    (jobs : List (Text × JobState)) (s : JobState) (order : List Text)
    → mem s.job_id order ≡ false
    → IsSorted jobs order
    → IsSorted (insert s.job_id s jobs) (insert_waiting_job (insert s.job_id s jobs) s order)
unfolding insert_waiting_job
insert_waiting-IsSorted jobs s order out h =
    let jobs' = insert s.job_id s jobs in
    insert_by_key-IsSorted jobs' s (prune_waiting_order jobs' order)
      (get-insert_self s.job_id s jobs)
      (prune_from-IsSorted jobs' [] jobs' order (put-IsSorted jobs s order out h))

-- The first of a sorted order is not behind any other.
head-least :
    (jobs : List (Text × JobState)) (i : Text) (ids : List Text) (s : JobState)
    → IsSorted jobs (i ∷ ids)
    → get i jobs ≡ some s
    → (j : Text) (t : JobState) → get j jobs ≡ some t
    → mem j (i ∷ ids) ≡ true
    → key_lt t s ≡ false
head-least jobs i [] s h at j t at_j there = ground (arith, list_beq_iff i j, key_lt_irrefl s)
head-least jobs i (k ∷ ids) s h at j t at_j there = elim (Bool-cases (k == j)) [
  | inl here ↦ ground (arith, list_beq_iff k j, h.0.0 s t)
  | inr beyond ↦ ground (arith, head-least jobs i ids s ((h.0.1, h.1.1)) at j t at_j)
]

-- No job that waits has a lesser key than the one that is picked.
least_key :
    (m m' : Manager) (s : JobState)
    → Inv m
    → IsSorted m.jobs m.waiting_order
    → pick_next_job m ≡ (m', some s)
    → (j : Text) (t : JobState) → get j m.jobs ≡ some t
    → is_pickable t ≡ true
    → key_lt t s ≡ false
least_key m m' s v sorted e j t at_j pickable = elim (pick_next_job-cases m v) [
  | inl (none_waits, e') ↦ ground (arith, none_waits j)
  | inr (i, x, rest, order, at, _, e') ↦
      let same : x ≡ s = ground (arith, e, e') in
      subst (λ y. key_lt t y ≡ false) same
        (head-least m.jobs i rest x
          (subst (IsSorted m.jobs) order
            (prune_from-IsSorted m.jobs [] m.jobs m.waiting_order sorted))
          at j t at_j (ground (arith, mem-prune j m.jobs m.waiting_order, order, v.ok j t at_j)))
]

-- In a state with the queue's invariant whose waiting jobs are sorted, the scheduler starts a job
-- of the highest priority: no job that waits has a higher one, and none of the same priority was
-- submitted earlier.
pub pick_next_job-least :
    (m m' : Manager) (s : JobState)
    → Inv m
    → IsSorted m.jobs m.waiting_order
    → pick_next_job m ≡ (m', some s)
    → (j : Text) (t : JobState) → get j m.jobs ≡ some t
    → is_pickable t ≡ true
    → (t.priority ≤ s.priority) × (t.priority ≡ s.priority → s.submitted_at ≤ t.submitted_at)
unfolding key_lt
pick_next_job-least m m' s v sorted e j t at_j pickable =
    ground (arith, least_key m m' s v sorted e j t at_j pickable)
