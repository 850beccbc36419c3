-- ===== src/Failover/Breaker/Scenarios.antt =====
-- Concrete breakers: tests of the definitions, and the theorems at inputs that meet their premises.
use new_pycloud.Base.{
  ℕ, suc, ◌*◌, ◌≤◌, ◌<◌, ◌≡◌, refl, min, max, true, false, List, [], ◌∷◌, some, none, arith,
}
use new_pycloud.Base.Text.{Text, codes}
use new_pycloud.Failover.Breaker.{
  closed, opened, half_open, CandidateBreakerState, Settings, Event, succeeds, fails, asks, probes,
  fresh, cooldown, mark_candidate_failure, before_probe, run, step, overflow_error, float_exponents,
  mark_candidate_success, min_cooldown,
}
use new_pycloud.Failover.Breaker.Invariant.{IsValid, run-fresh-IsValid}
use new_pycloud.Failover.Breaker.Cooldown.{cap, cooldown_doubles, overflow_opens_at_once}
use new_pycloud.Failover.Breaker.Admission.{fail_each, count_granted, count_granted-le-one}

-- Three failures open; 1 s at first, 30 s at most.
abbrev settings : Settings
settings = record { failure_threshold = 3; cooldown_sec = 1000000; max_cooldown_sec = 30000000 }

abbrev submit_kind : Text
submit_kind = codes "SUBMIT_FAILED"

abbrev timeout : Text
timeout = codes "TimeoutError()"

abbrev reports : List (Text × Text × ℕ)
reports = (submit_kind, timeout, 10) ∷ (submit_kind, timeout, 20) ∷ (submit_kind, timeout, 30) ∷ []

-- The breaker after the three failures.
abbrev tripped : CandidateBreakerState
tripped = record {
  state = opened;
  consecutive_failures = 3;
  disabled_until_monotonic = 1000030;
  open_count = 1;
  probe_in_flight = false;
  last_error = timeout;
  last_failure_kind = submit_kind;
}

-- Before the third.
abbrev shaken : CandidateBreakerState
shaken = record tripped {
  state = closed;
  consecutive_failures = 2;
  disabled_until_monotonic = 0;
  open_count = 0;
}

-- A candidate that failed 1024 probes in a row, and is being probed once more.
abbrev worn : CandidateBreakerState
worn = record tripped { state = half_open; open_count = 1024; probe_in_flight = true }

tripped_by : fail_each settings reports fresh ≡ tripped
unfolding fail_each mark_candidate_failure cooldown
tripped_by = refl

history : List Event
history =
    fails submit_kind timeout 10
    ∷ fails submit_kind timeout 20
    ∷ fails submit_kind timeout 30
    ∷ asks 40
    ∷ probes 1000040
    ∷ succeeds
    ∷ []

recovers : run settings fresh history ≡ fresh
unfolding run step history mark_candidate_failure cooldown before_probe mark_candidate_success
recovers = refl

run-fresh-IsValid_example : IsValid settings (run settings fresh history)
run-fresh-IsValid_example = run-fresh-IsValid settings history

cooldown_doubles_example :
    (cooldown 1 1000000 30000000 ≡ some (min (cap 30000000) (max min_cooldown 1000000)))
    × ((n d : ℕ)
        → 0 < n
        → n < float_exponents
        → cooldown n 1000000 30000000 ≡ some d
        → cooldown (suc n) 1000000 30000000 ≡ some (min (cap 30000000) (2 * d)))
    × ((n : ℕ) → float_exponents < n → cooldown n 1000000 30000000 ≡ none)
cooldown_doubles_example = cooldown_doubles 1000000 30000000

overflow_opens_at_once_example :
    let (s', outcome) = mark_candidate_failure settings submit_kind timeout 2000000 worn in
    (outcome ≡ overflow_error)
    × (s'.state ≡ opened)
    × (s'.disabled_until_monotonic ≡ 1000030)
    × ((before_probe 2000000 s').1 ≡ true)
overflow_opens_at_once_example =
    overflow_opens_at_once settings submit_kind timeout 2000000 worn refl (omega arith)
      (omega arith)

shaken-IsValid : IsValid settings shaken
shaken-IsValid = ground arith

count_granted-le-one_example : count_granted (50 ∷ 1000040 ∷ 1000050 ∷ []) tripped ≤ 1
count_granted-le-one_example = count_granted-le-one (50 ∷ 1000040 ∷ 1000050 ∷ []) tripped (λ e. cc)
