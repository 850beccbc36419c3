-- ===== src/Failover/Breaker/Admission.antt =====
-- Who is let through to a candidate: after how many failures nobody is, for how long, and the one
-- probe that decides.
use new_pycloud.Base.{
  ℕ, suc, ◌+◌, leb, ◌≤◌, ◌<◌, ◌≡◌, ◌≢◌, refl, ◌↔◌, true, false, List, [], ◌∷◌, some, arith,
  if◌then◌else◌, Option-cases, inl, inr, ◌⊎◌, dec_lt,
}
use new_pycloud.Base.Text.{Text}
use new_pycloud.Failover.Breaker.{
  closed, opened, half_open, CandidateBreakerState, Settings, limit, settings_cooldown,
  mark_candidate_failure, returned, fresh, before_probe, cooldown, candidate_allowed, open_breaker,
  min_cooldown,
}
use new_pycloud.Failover.Breaker.Invariant.{IsValid}

-- A failure opens a closed breaker exactly when it is the limit-th in a row, opens a half-open one
-- always, and leaves an open one open; no probe is in flight afterwards.
pub mark_candidate_failure_opens :
    (c : Settings) (kind error : Text) (now : ℕ) (s : CandidateBreakerState)
    → let s' = (mark_candidate_failure c kind error now s).0 in
      (s.state ≡ closed → (s'.state ≡ opened) ↔ (limit c ≤ s.consecutive_failures + 1))
      × (s.state ≡ half_open → s'.state ≡ opened)
      × (s.state ≡ opened → s'.state ≡ opened)
      × (s'.probe_in_flight ≡ false)
unfolding mark_candidate_failure
mark_candidate_failure_opens c kind error now s = ground arith

-- A run of failures with no success in between, the reports in the order of the list.
unfoldable pub fail_each :
    Settings → List (Text × Text × ℕ) → CandidateBreakerState → CandidateBreakerState
fail_each c [] s = s
fail_each c ((kind, error, now) ∷ reports) s =
    fail_each c reports (mark_candidate_failure c kind error now s).0

-- The failures of a run.
abbrev count_reports : List (Text × Text × ℕ) → ℕ
count_reports [] = 0
count_reports (_ ∷ reports) = suc (count_reports reports)

fail_each-opened :
    (c : Settings) (reports : List (Text × Text × ℕ)) (s : CandidateBreakerState)
    → s.state ≡ opened
    → (fail_each c reports s).state ≡ opened
unfolding fail_each
fail_each-opened c [] s h = h
fail_each-opened c ((kind, error, now) ∷ reports) s h =
    fail_each-opened c reports _ ((mark_candidate_failure_opens c kind error now s).2 h)

fail_once_below :
    (c : Settings) (kind error : Text) (now : ℕ) (s : CandidateBreakerState)
    → s.state ≡ closed
    → s.consecutive_failures + 1 < limit c
    → let s' = (mark_candidate_failure c kind error now s).0 in
      (s'.state ≡ closed) × (s'.consecutive_failures ≡ s.consecutive_failures + 1)
unfolding mark_candidate_failure
fail_once_below c kind error now s h below = ground arith

fail_each-closed :
    (c : Settings) (reports : List (Text × Text × ℕ)) (s : CandidateBreakerState)
    → s.state ≡ closed
    → s.consecutive_failures < limit c
    → ((s.consecutive_failures + count_reports reports < limit c)
        × ((fail_each c reports s).state ≡ closed))
      ⊎ ((limit c ≤ s.consecutive_failures + count_reports reports)
          × ((fail_each c reports s).state ≡ opened))
unfolding fail_each
fail_each-closed c [] s h below = inl (omega arith, h)
fail_each-closed c ((kind, error, now) ∷ reports) s h below =
    elim (dec_lt (s.consecutive_failures + 1) (limit c)) [
      | yes more ↦
          let (same, counted) = fail_once_below c kind error now s h more in
          let s' = (mark_candidate_failure c kind error now s).0 in
          elim (fail_each-closed c reports s' same (rw counted more)) [
            | inl (few, e) ↦ inl (omega (arith, counted), e)
            | inr (many, e) ↦ inr (omega (arith, counted), e)
          ]
      | no reached ↦ inr (
        omega arith,
        fail_each-opened c reports (mark_candidate_failure c kind error now s).0
            (((mark_candidate_failure_opens c kind error now s).0 h).1 (omega arith)),
      )
    ]

-- From a new breaker, failures with no success in between leave it closed exactly while they are
-- fewer than the limit, and open from then on, whatever their kinds, texts and times.
pub fail_each-fresh :
    (c : Settings) (reports : List (Text × Text × ℕ))
    → (((fail_each c reports fresh).state ≡ closed) ↔ (count_reports reports < limit c))
      × (((fail_each c reports fresh).state ≡ opened) ↔ (limit c ≤ count_reports reports))
fail_each-fresh c reports = ground (arith, fail_each-closed c reports fresh)

-- A failure that returns with the breaker open blocks the candidate for its cooldown d, and no
-- longer, if the breaker is valid: a probe before now + d is refused and changes nothing, and the first one from then on is
-- let through, in a half-open breaker.
pub mark_candidate_failure_blocks :
    (c : Settings) (kind error : Text) (now : ℕ) (s s' : CandidateBreakerState)
    → IsValid c s
    → mark_candidate_failure c kind error now s ≡ (s', returned)
    → s'.state ≡ opened
    → (d : ℕ) × (settings_cooldown c s'.open_count ≡ some d)
      × ((later : ℕ) → later < now + d → before_probe later s' ≡ (s', false))
      × ((later : ℕ)
          → now + d ≤ later
          → before_probe later s' ≡ (record s' { state = half_open; probe_in_flight = true }, true))
unfolding mark_candidate_failure before_probe
mark_candidate_failure_blocks c kind error now s s' v e open_now =
    elim (Option-cases (settings_cooldown c (s.open_count + 1))) [
      | inl none_left ↦ absurd (ground arith)
      | inr (d, some_left) ↦ (d, ground arith, λ later h. ground arith, λ later h. ground arith)
    ]

-- How many probes of a run, at the times of the list, are let through.
pub count_granted : List ℕ → CandidateBreakerState → ℕ
count_granted [] s = 0
count_granted (now ∷ times) s =
    let (s', granted) = before_probe now s in
    let rest = count_granted times s' in if granted then suc rest else rest

count_granted_probing :
    (times : List ℕ) (s : CandidateBreakerState)
    → s.state ≡ half_open
    → s.probe_in_flight ≡ true
    → count_granted times s ≡ 0
unfolding count_granted before_probe
count_granted_probing [] s h p = refl
count_granted_probing (now ∷ times) s h p = ground (arith, count_granted_probing times s h p)

probe_open :
    (now : ℕ) (s : CandidateBreakerState)
    → s.state ≢ closed
    → let (s', granted) = before_probe now s in
      ((granted ≡ true) × (s'.state ≡ half_open) × (s'.probe_in_flight ≡ true))
      ⊎ ((granted ≡ false) × (s'.state ≢ closed))
unfolding before_probe
probe_open now s h = ground arith

-- Until a success or failure is reported, an open or half-open breaker lets at most one probe
-- through, however many are tried and at whatever times.
pub count_granted-le-one :
    (times : List ℕ) (s : CandidateBreakerState) → s.state ≢ closed → count_granted times s ≤ 1
unfolding count_granted
count_granted-le-one [] s h = omega arith
count_granted-le-one (now ∷ times) s h =
    let s' = (before_probe now s).0 in
    elim (probe_open now s h) [
      | inl (yes_it, half, probe) ↦
          rw yes_it (omega (arith, count_granted_probing times s' half probe))
      | inr (no_it, open_still) ↦ rw no_it (count_granted-le-one times s' open_still)
    ]

-- The first failure of a candidate whose breaker opens at once, for the same time always.
pub first_failure :
    (c : Settings) (kind error : Text) (now d : ℕ)
    → c.failure_threshold ≡ 1
    → c.cooldown_sec ≡ d
    → c.max_cooldown_sec ≡ d
    → min_cooldown ≤ d
    → mark_candidate_failure c kind error now fresh ≡ (
      record fresh {
        state = opened;
        consecutive_failures = 1;
        open_count = 1;
        disabled_until_monotonic = now + d;
        last_error = error;
        last_failure_kind = kind;
      },
      returned,
    )
unfolding mark_candidate_failure cooldown open_breaker
first_failure c kind error now d once base cap enough = ground (arith, once, base, cap, enough)

pub opened-allowed :
    (later : ℕ) (s : CandidateBreakerState)
    → s.state ≡ opened
    → (candidate_allowed later s).2 ≡ leb s.disabled_until_monotonic later
unfolding candidate_allowed
opened-allowed later s e = ground (arith, e)
