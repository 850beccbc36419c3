-- ===== src/Scheduler/Choice.antt =====
-- Which candidate is chosen: an eligible one whenever there is one, and each of the best in turn.
use new_pycloud.Base.{
  ℕ, zero, suc, ◌%◌, ◌≡◌, ◌<◌, refl, ap, ◌∙◌, ◌⊎◌, inl, inr, Bool, true, List, [], ◌∷◌, some,
  length, keep, get_elem?, Contains, nat_eq, list_eq, arith, if_known, subst,
}
use new_pycloud.Base.Text.{Text}
use new_pycloud.Scheduler.{
  SchedulerCandidate, is_eligible, filter_candidates, name_lt, insert_by_name, by_name, Best,
  best_of, select_one_candidate,
}
use native.Mathlib.Nat.{mod-lt, mod-eq_of_lt}

abbrev pub Candidates : Type 0
Candidates = List SchedulerCandidate

get_elem?-Contains :
    (xs : Candidates) (i : ℕ) (c : SchedulerCandidate) → get_elem? xs i ≡ some c → Contains c xs
get_elem?-Contains [] i c h = cc
get_elem?-Contains (x ∷ xs) zero c h = inl cc
get_elem?-Contains (x ∷ xs) (suc i) c h = inr (get_elem?-Contains xs i c h)

-- Where in the list the item stands.
abbrev pub StandsIn : SchedulerCandidate → Candidates → Type 0
StandsIn c xs = (i : ℕ) × ((i < length xs) × (get_elem? xs i ≡ some c))

Contains-StandsIn : (xs : Candidates) (c : SchedulerCandidate) → Contains c xs → StandsIn c xs
Contains-StandsIn [] c h = absurd h
Contains-StandsIn (x ∷ xs) c (inl h) = (0, (omega arith, ap some h))
Contains-StandsIn (x ∷ xs) c (inr h) =
    let rest = Contains-StandsIn xs c h in (suc rest.0, (omega (arith, rest.1.0), rest.1.1))

get_elem?-some :
    (xs : Candidates) (i : ℕ) → i < length xs → (c : SchedulerCandidate) × (get_elem? xs i ≡ some c)
get_elem?-some [] i h = absurd (omega (arith, h))
get_elem?-some (x ∷ xs) zero h = (x, refl)
get_elem?-some (x ∷ xs) (suc i) h = get_elem?-some xs i (omega (arith, h))

keep-Contains :
    (p : SchedulerCandidate → Bool) (xs : Candidates) (c : SchedulerCandidate)
    → Contains c (keep p xs)
    → Contains c xs × (p c ≡ true)
unfolding keep
keep-Contains p [] c = λ h. absurd h
keep-Contains p (x ∷ xs) c =
    if_known (λ l. Contains c l → Contains c (x ∷ xs) × (p c ≡ true)) (p x)
      (λ passes h. elim h [
        | inl same ↦ (inl same, subst (λ y. p y ≡ true) same passes)
        | inr there ↦ let rest = keep-Contains p xs c there in (inr rest.0, rest.1)
      ])
      (λ fails h. let rest = keep-Contains p xs c h in (inr rest.0, rest.1))

Contains-keep :
    (p : SchedulerCandidate → Bool) (xs : Candidates) (c : SchedulerCandidate)
    → Contains c xs
    → p c ≡ true
    → Contains c (keep p xs)
unfolding keep
Contains-keep p [] c h e = absurd h
Contains-keep p (x ∷ xs) c (inl same) e = rw (ap p same ∙ e) (inl same)
Contains-keep p (x ∷ xs) c (inr there) e =
    if_known (Contains c) (p x) (λ passes. inr (Contains-keep p xs c there e))
      (λ fails. Contains-keep p xs c there e)

insert_by_name-Contains :
    (c d : SchedulerCandidate) (xs : Candidates)
    → Contains c (insert_by_name d xs)
    → (d ≡ c) ⊎ Contains c xs
unfolding insert_by_name
insert_by_name-Contains c d [] = λ h. h
insert_by_name-Contains c d (x ∷ xs) =
    if_known (λ l. Contains c l → (d ≡ c) ⊎ Contains c (x ∷ xs)) (name_lt x d)
      (λ before h. elim h [
        | inl same ↦ inr (inl same)
        | inr there ↦ elim (insert_by_name-Contains c d xs there) [
          | inl this ↦ inl this
          | inr rest ↦ inr (inr rest)
        ]
      ])
      (λ behind h. h)

Contains-insert_by_name :
    (c d : SchedulerCandidate) (xs : Candidates)
    → (d ≡ c) ⊎ Contains c xs
    → Contains c (insert_by_name d xs)
unfolding insert_by_name
Contains-insert_by_name c d [] h = h
Contains-insert_by_name c d (x ∷ xs) h =
    if_known (Contains c) (name_lt x d)
      (λ before. elim h [
        | inl this ↦ inr (Contains-insert_by_name c d xs (inl this))
        | inr there ↦ elim there [
          | inl same ↦ inl same
          | inr rest ↦ inr (Contains-insert_by_name c d xs (inr rest))
        ]
      ])
      (λ behind. h)

by_name-Contains :
    (c : SchedulerCandidate) (xs : Candidates) → Contains c (by_name xs) → Contains c xs
unfolding by_name
by_name-Contains c [] h = h
by_name-Contains c (x ∷ xs) h = elim (insert_by_name-Contains c x (by_name xs) h) [
  | inl same ↦ inl same
  | inr there ↦ inr (by_name-Contains c xs there)
]

Contains-by_name :
    (c : SchedulerCandidate) (xs : Candidates) → Contains c xs → Contains c (by_name xs)
unfolding by_name
Contains-by_name c [] h = h
Contains-by_name c (x ∷ xs) (inl same) = Contains-insert_by_name c x (by_name xs) (inl same)
Contains-by_name c (x ∷ xs) (inr there) =
    Contains-insert_by_name c x (by_name xs) (inr (Contains-by_name c xs there))

-- What the scores give: among some candidates there is a best one.
abbrev pub HasBest : Best → Type 0
HasBest best =
    (c : SchedulerCandidate) (cs : Candidates)
    → Contains c cs
    → (d : SchedulerCandidate) × (Contains d cs × (best cs d ≡ true))

module _ (best : Best) (disabled : List Text) (cs : Candidates) where
  -- The candidate chosen is one of those given, and is eligible: it is healthy, schedulable, not
  -- draining, not disabled, has workers, and its breaker is not open.
  select_one_candidate-eligible :
      (counter : ℕ) (c : SchedulerCandidate)
      → select_one_candidate best disabled cs counter ≡ some c
      → Contains c cs × (is_eligible disabled c ≡ true)
  unfolding select_one_candidate filter_candidates
  select_one_candidate-eligible counter c h =
      let filtered = filter_candidates disabled cs in
      let found =
        get_elem?-Contains (best_of best disabled cs) (counter % length (best_of best disabled cs))
          c h in
      keep-Contains (is_eligible disabled) cs c
        (keep-Contains (best filtered) filtered c (by_name-Contains c _ found)).0

  -- If a candidate among those given is eligible, then one is chosen, whatever the counter, and it is
  -- an eligible one of them: healthy, schedulable, not draining, not disabled, with workers and a
  -- breaker that is not open.
  pub select_one_candidate_chooses :
      (counter : ℕ) (c : SchedulerCandidate)
      → HasBest best
      → Contains c cs
      → is_eligible disabled c ≡ true
      → (d : SchedulerCandidate) × ((select_one_candidate best disabled cs counter ≡ some d)
          × (Contains d cs × (is_eligible disabled d ≡ true)))
  unfolding select_one_candidate filter_candidates
  select_one_candidate_chooses counter c has_best here eligible =
      let filtered = filter_candidates disabled cs in
      let top = has_best c filtered (Contains-keep (is_eligible disabled) cs c here eligible) in
      let at =
        Contains-StandsIn (best_of best disabled cs) top.0 (
          Contains-by_name top.0 _
            (Contains-keep (best filtered) filtered top.0 top.1.0 top.1.1)) in
      let chosen =
        get_elem?-some (best_of best disabled cs) (counter % length (best_of best disabled cs))
          (mod-lt counter (omega (arith, at.1.0))) in
      (chosen.0, (chosen.1, select_one_candidate-eligible counter chosen.0 chosen.1))

  -- A round of as many choices as there are eligible candidates with the best score chooses each of
  -- them: for each there is a counter below their number that chooses it.
  pub select_one_candidate_in_turn :
      (c : SchedulerCandidate)
      → Contains c cs
      → is_eligible disabled c ≡ true
      → best (filter_candidates disabled cs) c ≡ true
      → (i : ℕ) × ((i < length (best_of best disabled cs))
          × (select_one_candidate best disabled cs i ≡ some c))
  unfolding select_one_candidate filter_candidates
  select_one_candidate_in_turn c here eligible is_best =
      let filtered = filter_candidates disabled cs in
      let at = Contains-StandsIn (best_of best disabled cs) c (
        Contains-by_name c _ (
          Contains-keep (best filtered) filtered c
            (Contains-keep (is_eligible disabled) cs c here eligible) is_best)) in
      (at.0, (at.1.0, ap (get_elem? (best_of best disabled cs)) (mod-eq_of_lt at.1.0) ∙ at.1.1))
