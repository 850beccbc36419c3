-- ===== src/Scheduler.antt =====
-- The choice among candidates in execution/scheduler.py. A score is a float: which of the filtered
-- candidates have the best score, up to 1e-9, is a parameter. Every profile breaks ties by rounds.

pub mod Choice
mod Samples
use new_pycloud.Base.{
  ℕ, ◌%◌, Bool, true, false, not, ◌&&◌, ◌||◌, ltb, List, [], ◌∷◌, Option, none, some, if◌then◌else◌,
  ◌==◌, nat_eq, list_eq, length, keep, get_elem?,
}
use new_pycloud.Base.Sets.{member}
use new_pycloud.Base.Text.{text_lt, Text, codes, strip, lower, is_nonempty}

pub record SchedulerCandidate : Type 0 where
  pub id : Text
  pub node_instance_id : Text
  pub healthy : Bool
  pub schedulable : Bool
  pub drain : Bool
  pub breaker_state : Text
  pub alive_workers : ℕ
  pub worker_capacity : ℕ

unfoldable pub is_eligible : List Text → SchedulerCandidate → Bool
is_eligible disabled c =
    not (member c.id disabled)
    && (c.healthy
        && (c.schedulable
            && (not c.drain
                && (not (lower (strip c.breaker_state) == codes "open")
                    && (ltb 0 c.worker_capacity || ltb 0 c.alive_workers)))))

unfoldable pub filter_candidates : List Text → List SchedulerCandidate → List SchedulerCandidate
filter_candidates disabled = keep (is_eligible disabled)

abbrev pub node_name : SchedulerCandidate → Text
node_name c = if is_nonempty c.node_instance_id then c.node_instance_id else c.id

unfoldable pub name_lt : SchedulerCandidate → SchedulerCandidate → Bool
name_lt c d =
    text_lt (node_name c) (node_name d) || (node_name c == node_name d && text_lt c.id d.id)

-- `sorted`, which is stable.
unfoldable pub insert_by_name :
    SchedulerCandidate → List SchedulerCandidate → List SchedulerCandidate
unfolding name_lt
insert_by_name c [] = c ∷ []
insert_by_name c (d ∷ ds) =
    let rest = insert_by_name c ds in if name_lt d c then d ∷ rest else c ∷ d ∷ ds

unfoldable pub by_name : List SchedulerCandidate → List SchedulerCandidate
by_name [] = []
by_name (c ∷ cs) = insert_by_name c (by_name cs)

-- Whether a candidate has the best score among some.
abbrev pub Best : Type 0
Best = List SchedulerCandidate → SchedulerCandidate → Bool

abbrev pub best_of : Best → List Text → List SchedulerCandidate → List SchedulerCandidate
best_of best disabled cs =
    let filtered = filter_candidates disabled cs in by_name (keep (best filtered) filtered)

-- `none` stands for RuntimeError.
unfoldable pub select_one_candidate :
    Best → List Text → List SchedulerCandidate → ℕ → Option SchedulerCandidate
select_one_candidate best disabled cs counter =
    let ordered = best_of best disabled cs in get_elem? ordered (counter % length ordered)
