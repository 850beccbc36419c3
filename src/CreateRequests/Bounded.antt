-- ===== src/CreateRequests/Bounded.antt =====
-- How many records the pruning leaves, and which of those that are still creating.
use new_pycloud.Base.{
  ℕ, zero, suc, ◌+◌, ◌-◌, ◌≡◌, ◌≤◌, min, refl, ◌∙◌, Bool, true, false, not, [], ◌∷◌, Option, none,
  some, if◌then◌else◌, nat_eq, list_eq, list_beq_iff, length, take, keep, arith,
}
use new_pycloud.Base.Dict.{get, keys, HasUniqueKeys}
use new_pycloud.Base.Sets.{member}
use new_pycloud.Base.Text.{Text}
use new_pycloud.CreateRequests.{
  CreateRequestRecord, Table, max_records, is_creating, is_stale, by_age, drop_oldest,
  prune_create_requests,
}
use new_pycloud.CreateRequests.Pruned.{
  get-by_age, by_age-HasUniqueKeys, length-by_age, is_present, ArePresent, length-erase_all,
  get-erase_all, erase_all-HasUniqueKeys,
}

abbrev pub chosen : (CreateRequestRecord → Bool) → Table → Table
chosen p = keep λ (e : Text × CreateRequestRecord). p e.1

abbrev pub kept_if :
    (CreateRequestRecord → Bool) → Option CreateRequestRecord → Option CreateRequestRecord
kept_if p none = none
kept_if p (some r) = if p r then some r else none

pub get-chosen :
    (p : CreateRequestRecord → Bool) (id : Text) (m : Table)
    → HasUniqueKeys m
    → get id (chosen p m) ≡ kept_if p (get id m)
unfolding keep get
get-chosen p id [] u = refl
get-chosen p id ((j, r) ∷ m) u = ground (arith, u.0, list_beq_iff j id, get-chosen p id m u.1)

pub chosen-HasUniqueKeys :
    (p : CreateRequestRecord → Bool) (m : Table) → HasUniqueKeys m → HasUniqueKeys (chosen p m)
unfolding keep
chosen-HasUniqueKeys p [] u = tt
chosen-HasUniqueKeys p ((j, r) ∷ m) u =
    ground (arith, get-chosen p j m u.1, u.0, chosen-HasUniqueKeys p m u.1)

member-take-keys :
    (n : ℕ) (k : Text) (m : Table) → is_present k m ≡ false → member k (take n (keys m)) ≡ false
unfolding get member
member-take-keys zero k m h = refl
member-take-keys (suc n) k [] h = refl
member-take-keys (suc n) k ((j, r) ∷ m) h = ground (arith, h, member-take-keys n k m)

take-keys-ArePresent :
    (n : ℕ) (s m : Table)
    → HasUniqueKeys s
    → ((k : Text) → is_present k s ≡ true → is_present k m ≡ true)
    → ArePresent m (take n (keys s))
unfolding get
take-keys-ArePresent zero s m u h = tt
take-keys-ArePresent (suc n) [] m u h = tt
take-keys-ArePresent (suc n) ((j, r) ∷ s) m u h = (
  h j (ground (arith, list_beq_iff j j)),
  member-take-keys n j s (ground (arith, u.0)),
  take-keys-ArePresent n s m u.1 (λ k there. h k (ground (arith, there))),
)

length-take-keys : (n : ℕ) (m : Table) → length (take n (keys m)) ≡ min n (length m)
length-take-keys zero m = omega arith
length-take-keys (suc n) [] = omega arith
length-take-keys (suc n) ((j, r) ∷ m) = omega (arith, length-take-keys n m)

module _ (p : CreateRequestRecord → Bool) (m : Table) (u : HasUniqueKeys m) where
  present_chosen : (k : Text) → is_present k (by_age (chosen p m)) ≡ true → is_present k m ≡ true
  present_chosen k h =
      ground (arith, h, get-by_age k (chosen p m) (chosen-HasUniqueKeys p m u), get-chosen p k m u)

  pub length-drop_oldest :
      length (drop_oldest p m) + min (length m - max_records) (length (chosen p m)) ≡ length m
  unfolding drop_oldest
  length-drop_oldest =
      let sorted = by_age (chosen p m) in
      let ids = take (length m - max_records) (keys sorted) in
      omega (
        arith,
        length-erase_all ids m u (
            take-keys-ArePresent (length m - max_records) sorted m
              (by_age-HasUniqueKeys (chosen p m) (chosen-HasUniqueKeys p m u)) present_chosen),
        length-take-keys (length m - max_records) sorted,
        length-by_age (chosen p m),
      )

  -- A record that is not to be chosen stays.
  pub get-drop_oldest :
      (id : Text) (r : CreateRequestRecord)
      → get id m ≡ some r
      → p r ≡ false
      → get id (drop_oldest p m) ≡ some r
  unfolding drop_oldest
  get-drop_oldest id r found out =
      let sorted = by_age (chosen p m) in
      let absent : is_present id sorted ≡ false = ground (
        arith,
        get-by_age id (chosen p m) (chosen-HasUniqueKeys p m u),
        get-chosen p id m u,
        found,
        out,
      ) in
      get-erase_all id (take (length m - max_records) (keys sorted)) m
        (member-take-keys (length m - max_records) id sorted absent)
      ∙ found

  pub drop_oldest-HasUniqueKeys : HasUniqueKeys (drop_oldest p m)
  unfolding drop_oldest
  drop_oldest-HasUniqueKeys =
      erase_all-HasUniqueKeys (take (length m - max_records) (keys (by_age (chosen p m)))) m u

pub length-chosen_all : (m : Table) → length (chosen (λ r. true) m) ≡ length m
unfolding keep
length-chosen_all [] = refl
length-chosen_all ((j, r) ∷ m) = omega (arith, length-chosen_all m)

pub length-chosen-not :
    (p : CreateRequestRecord → Bool) (m : Table)
    → length (chosen (λ r. not (p r)) m) + length (chosen p m) ≡ length m
unfolding keep
length-chosen-not p [] = refl
length-chosen-not p ((j, r) ∷ m) = ground (arith, length-chosen-not p m)

pub creating_not_stale :
    (exists : Text → Bool) (m : Table)
    → length (chosen is_creating (chosen (λ r. not (is_stale exists r)) m))
      ≡ length (chosen is_creating m)
unfolding keep
creating_not_stale exists [] = refl
creating_not_stale exists ((j, r) ∷ m) = ground (arith, creating_not_stale exists m)

pub length-prune_create_requests-le :
    (exists : Text → Bool) (m : Table)
    → HasUniqueKeys m
    → length (prune_create_requests exists m) ≤ max_records
unfolding prune_create_requests
length-prune_create_requests-le exists m u =
    let live = chosen (λ r. not (is_stale exists r)) m in
    let v = chosen-HasUniqueKeys (λ r. not (is_stale exists r)) m u in
    let first = drop_oldest (λ r. not (is_creating r)) live in
    omega (
      arith,
      length-drop_oldest (λ r. true) first
          (drop_oldest-HasUniqueKeys (λ r. not (is_creating r)) live v),
      length-chosen_all first,
    )
