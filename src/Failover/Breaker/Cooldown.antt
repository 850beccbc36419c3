-- ===== src/Failover/Breaker/Cooldown.antt =====
-- How long an opening lasts: doubling up to the cap, and the power of two that is no float.
use native.Mathlib.Nat.{pow-suc}
use new_pycloud.Base.{
  ℕ, zero, suc, ◌+◌, ◌-◌, ◌*◌, ◌^◌, ◌≤◌, ◌<◌, ◌≡◌, min, max, true, some, none, arith, lt→ltb,
}
use new_pycloud.Base.Text.{Text}
use new_pycloud.Failover.Breaker.{
  opened, half_open, CandidateBreakerState, Settings, cooldown, settings_cooldown,
  mark_candidate_failure, overflow_error, float_exponents, min_cooldown, before_probe,
}

-- The cap of a duration.
abbrev pub cap : ℕ → ℕ
cap max_cooldown_sec = max min_cooldown max_cooldown_sec

cooldown_within :
    (n base max_sec : ℕ)
    → n < float_exponents
    → cooldown (suc n) base max_sec ≡ some (min (cap max_sec) (max min_cooldown base * 2 ^ n))
unfolding cooldown
cooldown_within n base max_sec h = let e : suc n - 1 ≡ n = omega arith in rw (e, lt→ltb _ _ h)

cooldown_beyond : (n base max_sec : ℕ) → float_exponents < n → cooldown n base max_sec ≡ none
unfolding cooldown
cooldown_beyond n base max_sec h = ground arith

capped_double : (c b p : ℕ) → min c (b * (p * 2)) ≡ min c (2 * min c (b * p))
capped_double c b p = omega arith

cooldown_next :
    (base max_sec n d : ℕ)
    → 0 < n
    → n < float_exponents
    → cooldown n base max_sec ≡ some d
    → cooldown (suc n) base max_sec ≡ some (min (cap max_sec) (2 * d))
cooldown_next base max_sec zero d pos h e = absurd (omega arith)
cooldown_next base max_sec (suc n) d pos h e =
    rw (cooldown_within (suc n) base max_sec h, pow-suc 2 n, capped_double)
      (cc (cooldown_within n base max_sec (omega arith)))

-- The first opening lasts for the base setting, at least 0.1 s and at most the cap; each further
-- one lasts twice as long as the one before, up to the cap, as long as the exponent is a float's:
-- with d the duration of opening n, opening n + 1 lasts min (cap, 2 d). Openings after the 1024th
-- get no duration (OverflowError).
pub cooldown_doubles :
    (base max_sec : ℕ)
    → (cooldown 1 base max_sec ≡ some (min (cap max_sec) (max min_cooldown base)))
      × ((n d : ℕ)
          → 0 < n
          → n < float_exponents
          → cooldown n base max_sec ≡ some d
          → cooldown (suc n) base max_sec ≡ some (min (cap max_sec) (2 * d)))
      × ((n : ℕ) → float_exponents < n → cooldown n base max_sec ≡ none)
cooldown_doubles base max_sec = (
  ground (arith, cooldown_within 0 base max_sec),
  cooldown_next base max_sec,
  λ n h. cooldown_beyond n base max_sec h,
)

-- A failure that opens a half-open breaker again after 1024 openings raises OverflowError: the
-- breaker is open, and the time until which it is disabled is left as it was, so that the next
-- probe at this or a later time is let through at once.
pub overflow_opens_at_once :
    (c : Settings) (kind error : Text) (now : ℕ) (s : CandidateBreakerState)
    → s.state ≡ half_open
    → float_exponents ≤ s.open_count
    → s.disabled_until_monotonic ≤ now
    → let (s', outcome) = mark_candidate_failure c kind error now s in
      (outcome ≡ overflow_error)
      × (s'.state ≡ opened)
      × (s'.disabled_until_monotonic ≡ s.disabled_until_monotonic)
      × ((before_probe now s').1 ≡ true)
unfolding mark_candidate_failure before_probe
overflow_opens_at_once c kind error now s half many past =
    let none_left : settings_cooldown c (s.open_count + 1) ≡ none =
      cooldown_beyond (s.open_count + 1) _ _ (omega arith) in
    ground arith
