-- ===== src/Failover/Breaker.antt =====
-- The candidate breaker of execution/failover.py. Times and durations are whole microseconds; the
-- clock reading of a call is its argument `now`. A call returns the state that it leaves behind.
pub mod Invariant
pub mod Cooldown
pub mod Admission
pub mod Scenarios
use new_pycloud.Base.{
  ℕ, suc, ◌+◌, ◌-◌, ◌*◌, ◌^◌, min, max, Bool, true, false, List, [], ◌∷◌, Option, none, some, ltb,
  leb, nat_beq, if◌then◌else◌,
}
use new_pycloud.Base.Text.{Text}

-- "closed", "open" and "half_open".
pub data BreakerState : Type 0 where
  closed opened half_open : BreakerState

pub record CandidateBreakerState : Type 0 where
  pub state : BreakerState
  pub consecutive_failures : ℕ
  pub disabled_until_monotonic : ℕ
  pub open_count : ℕ
  pub probe_in_flight : Bool
  pub last_error : Text
  pub last_failure_kind : Text

-- The settings that a caller passes with each failure.
pub record Settings : Type 0 where
  pub failure_threshold : ℕ
  pub cooldown_sec : ℕ
  pub max_cooldown_sec : ℕ

-- A call returns, or `2.0**exp` raises OverflowError.
pub data Outcome : Type 0 where
  returned overflow_error : Outcome

abbrev pub fresh : CandidateBreakerState
fresh = record {
  state = closed;
  consecutive_failures = 0;
  disabled_until_monotonic = 0;
  open_count = 0;
  probe_in_flight = false;
  last_error = [];
  last_failure_kind = [];
}

-- 0.1 s, and the first exponent at which a power of two is no float any more.
abbrev pub min_cooldown : ℕ
min_cooldown = 100000

abbrev pub float_exponents : ℕ
float_exponents = 1024

-- `n or d`
abbrev pub or_default : ℕ → ℕ → ℕ
or_default n d = if nat_beq n 0 then d else n

pub mark_candidate_success : CandidateBreakerState → CandidateBreakerState
mark_candidate_success s = record s {
  state = closed;
  consecutive_failures = 0;
  disabled_until_monotonic = 0;
  open_count = 0;
  probe_in_flight = false;
  last_error = [];
  last_failure_kind = [];
}

pub cooldown : ℕ → ℕ → ℕ → Option ℕ
cooldown open_count cooldown_sec max_cooldown_sec =
    let exp = open_count - 1 in
    if ltb exp float_exponents
    then some (min (max min_cooldown max_cooldown_sec) (max min_cooldown cooldown_sec * 2 ^ exp))
    else none

-- `max(1, int(failure_threshold or 1))`
abbrev pub limit : Settings → ℕ
limit c = max 1 (or_default c.failure_threshold 1)

abbrev pub count_failure : Settings → CandidateBreakerState → ℕ
count_failure c s = elim s.state [
  | half_open ↦ max s.consecutive_failures (or_default c.failure_threshold 1)
  | closed ↦ s.consecutive_failures + 1
  | opened ↦ s.consecutive_failures
]

-- The cooldown of the count after an opening, from the settings as the call normalises them.
abbrev pub settings_cooldown : Settings → ℕ → Option ℕ
settings_cooldown c open_count =
    cooldown open_count (max min_cooldown (or_default c.cooldown_sec min_cooldown))
      (max min_cooldown (or_default c.max_cooldown_sec (or_default c.cooldown_sec min_cooldown)))

open_breaker : Settings → ℕ → CandidateBreakerState → CandidateBreakerState × Outcome
open_breaker c now s = elim (settings_cooldown c (s.open_count + 1)) [
  | none ↦ (record s { state = opened; open_count = s.open_count + 1 }, overflow_error)
  | some d ↦ (
    record s { state = opened; open_count = s.open_count + 1; disabled_until_monotonic = now + d },
    returned,
  )
]

pub mark_candidate_failure :
    Settings → Text → Text → ℕ → CandidateBreakerState → CandidateBreakerState × Outcome
unfolding open_breaker
mark_candidate_failure c failure_kind error now s =
    let counted : CandidateBreakerState = record s {
      last_failure_kind = failure_kind;
      last_error = error;
      consecutive_failures = count_failure c s;
      probe_in_flight = false;
    } in
    if ltb (count_failure c s) (limit c) then (counted, returned) else open_breaker c now counted

-- The part of `candidate_allowed` behind the test of an open breaker.
abbrev allowed_unless_probing : CandidateBreakerState → CandidateBreakerState × BreakerState × Bool
allowed_unless_probing s = elim s.state [
  | half_open ↦ (s, s.state, if s.probe_in_flight then false else true)
  | _ ↦ (s, s.state, true)
]

pub candidate_allowed : ℕ → CandidateBreakerState → CandidateBreakerState × BreakerState × Bool
candidate_allowed now s = elim s.state [
  | opened ↦
      if leb s.disabled_until_monotonic now
      then allowed_unless_probing (record s { state = half_open; probe_in_flight = false })
      else (s, s.state, false)
  | _ ↦ allowed_unless_probing s
]

-- The part of `before_probe` behind a positive answer.
abbrev start_probe : CandidateBreakerState → CandidateBreakerState × Bool
start_probe s = elim s.state [
  | half_open ↦
      if s.probe_in_flight then (s, false) else (record s { probe_in_flight = true }, true)
  | _ ↦ (s, true)
]

pub before_probe : ℕ → CandidateBreakerState → CandidateBreakerState × Bool
unfolding candidate_allowed
before_probe now s =
    let (asked, _, allowed) = candidate_allowed now s in
    if allowed then start_probe asked else (asked, false)

-- What the callers of a candidate do with its breaker.
pub data Event : Type 0 where
  succeeds : Event
  fails : (failure_kind error : Text) (now : ℕ) → Event
  asks : (now : ℕ) → Event
  probes : (now : ℕ) → Event

pub step : Settings → CandidateBreakerState → Event → CandidateBreakerState
step c s succeeds = mark_candidate_success s
step c s (fails kind error now) = (mark_candidate_failure c kind error now s).0
step c s (asks now) = (candidate_allowed now s).0
step c s (probes now) = (before_probe now s).0

pub run : Settings → CandidateBreakerState → List Event → CandidateBreakerState
run c s [] = s
run c s (e ∷ es) = run c (step c s e) es
