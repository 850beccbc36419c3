-- ===== src/Scheduler/Samples.antt =====
-- Two candidates, of which the breaker of one is open.
use new_pycloud.Base.{
  ℕ, ◌≡◌, ◌<◌, refl, true, false, List, [], ◌∷◌, some, inl, inr, length, Contains, nat_eq, list_eq,
}
use new_pycloud.Base.Sets.{member}
use new_pycloud.Base.Text.{Text, codes, strip, lstrip, lower}
use new_pycloud.Scheduler.{SchedulerCandidate, is_eligible, Best, best_of, select_one_candidate}
use new_pycloud.Scheduler.Choice.{
  HasBest, select_one_candidate_chooses, select_one_candidate_in_turn,
}

abbrev candidate : Text → Text → SchedulerCandidate
candidate id breaker = record {
  id = id;
  node_instance_id = [];
  healthy = true;
  schedulable = true;
  drain = false;
  breaker_state = breaker;
  alive_workers = 1;
  worker_capacity = 2;
}

abbrev good : SchedulerCandidate
good = candidate (codes "a") []

abbrev two : List SchedulerCandidate
two = candidate (codes "b") (codes "open") ∷ good ∷ []

-- All scores are the same.
abbrev all_best : Best
all_best cs c = true

all_best-HasBest : HasBest all_best
all_best-HasBest c cs h = (c, (h, refl))

good_eligible : is_eligible [] good ≡ true
unfolding is_eligible member strip lstrip lower
good_eligible = refl

select_one_candidate_chooses_example :
    (d : SchedulerCandidate) × ((select_one_candidate all_best [] two 3 ≡ some d)
      × (Contains d two × (is_eligible [] d ≡ true)))
select_one_candidate_chooses_example =
    select_one_candidate_chooses all_best [] two 3 good all_best-HasBest (inr (inl refl))
      good_eligible

select_one_candidate_in_turn_example :
    (i : ℕ) × ((i < length (best_of all_best [] two))
      × (select_one_candidate all_best [] two i ≡ some good))
select_one_candidate_in_turn_example =
    select_one_candidate_in_turn all_best [] two good (inr (inl refl)) good_eligible refl
