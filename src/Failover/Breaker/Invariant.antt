-- ===== src/Failover/Breaker/Invariant.antt =====
-- What holds of a breaker after any history of calls.
use new_pycloud.Base.{ℕ, ◌≤◌, ◌<◌, ◌≡◌, ◌≢◌, true, List, [], ◌∷◌, arith}
use new_pycloud.Base.Text.{Text}
use new_pycloud.Failover.Breaker.{
  closed, half_open, CandidateBreakerState, Settings, Event, succeeds, fails, asks, probes, fresh,
  limit, mark_candidate_success, mark_candidate_failure, candidate_allowed, before_probe, step, run,
}

-- A closed breaker is below its limit; any other has reached it and counts an opening; a probe is
-- in flight only in a half-open one.
pub record IsValid (c : Settings) (s : CandidateBreakerState) : Type 0 where
  pub counting : s.state ≡ closed → s.consecutive_failures < limit c
  pub reached : s.state ≢ closed → limit c ≤ s.consecutive_failures
  pub numbered : s.state ≢ closed → 0 < s.open_count
  pub probing : s.probe_in_flight ≡ true → s.state ≡ half_open

mark_candidate_failure-IsValid :
    (c : Settings) (kind error : Text) (now : ℕ) (s : CandidateBreakerState)
    → IsValid c s
    → IsValid c (mark_candidate_failure c kind error now s).0
unfolding mark_candidate_failure
mark_candidate_failure-IsValid c kind error now s v = ground arith

candidate_allowed-IsValid :
    (c : Settings) (now : ℕ) (s : CandidateBreakerState)
    → IsValid c s
    → IsValid c (candidate_allowed now s).0
unfolding candidate_allowed
candidate_allowed-IsValid c now s v = ground arith

before_probe-IsValid :
    (c : Settings) (now : ℕ) (s : CandidateBreakerState)
    → IsValid c s
    → IsValid c (before_probe now s).0
unfolding before_probe
before_probe-IsValid c now s v = ground arith

step-IsValid :
    (c : Settings) (s : CandidateBreakerState) (e : Event) → IsValid c s → IsValid c (step c s e)
unfolding step mark_candidate_success
step-IsValid c s succeeds v = ground arith
step-IsValid c s (fails kind error now) v = mark_candidate_failure-IsValid c kind error now s v
step-IsValid c s (asks now) v = candidate_allowed-IsValid c now s v
step-IsValid c s (probes now) v = before_probe-IsValid c now s v

run-IsValid :
    (c : Settings) (s : CandidateBreakerState) (es : List Event)
    → IsValid c s
    → IsValid c (run c s es)
unfolding run
run-IsValid c s [] v = v
run-IsValid c s (e ∷ es) v = run-IsValid c (step c s e) es (step-IsValid c s e v)

fresh-IsValid : (c : Settings) → IsValid c fresh
fresh-IsValid c = ground arith

-- After any history of successes, failures, questions and probes from a new breaker, with fixed
-- settings: a closed breaker is below its limit, any other has reached it and counts an opening,
-- and a probe is in flight only in a half-open breaker.
pub run-fresh-IsValid : (c : Settings) (es : List Event) → IsValid c (run c fresh es)
run-fresh-IsValid c es = run-IsValid c fresh es (fresh-IsValid c)
