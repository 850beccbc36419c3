-- ===== src/NodeControl/Sweep.antt =====
-- The loops of Stop over all tasks, seen at one id: what stands there, and which ids are discarded.
use new_pycloud.Base.{
  ◌≡◌, ◌≤◌, refl, ◌∙◌, ap, Bool, false, not, ◌&&◌, List, [], ◌∷◌, Option, none, some, if◌then◌else◌,
  nat_eq, list_eq, list_beq_iff, length, All, arith,
}
use new_pycloud.Base.Dict.{get, HasUniqueKeys}
use new_pycloud.Base.Sets.{member, discard, member-discard, length-discard-le}
use new_pycloud.Base.Text.{Text, strip}
use new_pycloud.NodeControl.{TaskState}
use new_pycloud.NodeControl.Stop.{
  Tasks, change_where, discard_where, erase_where, discard_keys_where,
}

-- A task stands under its own id, which has no spaces around it.
abbrev pub IsNamed : Text × TaskState → Type 0
IsNamed e = (e.1.task_id ≡ e.0) × (strip e.1.task_id ≡ e.0)

abbrev pub chosen_at : (TaskState → Bool) → Text → Tasks → Bool
chosen_at p id m = elim (get id m) [ none ↦ false | some t ↦ p t ]

abbrev pub changed :
    (TaskState → Bool) → (TaskState → TaskState) → Option TaskState → Option TaskState
changed p f none = none
changed p f (some t) = some (if p t then f t else t)

abbrev pub kept : (TaskState → Bool) → Option TaskState → Option TaskState
kept p none = none
kept p (some t) = if p t then none else some t

pub get-change_where :
    (p : TaskState → Bool) (f : TaskState → TaskState) (id : Text) (m : Tasks)
    → get id (change_where p f m) ≡ changed p f (get id m)
unfolding change_where get
get-change_where p f id [] = refl
get-change_where p f id ((k, t) ∷ m) = ground (arith, get-change_where p f id m)

pub change_where-HasUniqueKeys :
    (p : TaskState → Bool) (f : TaskState → TaskState) (m : Tasks)
    → HasUniqueKeys m
    → HasUniqueKeys (change_where p f m)
unfolding change_where
change_where-HasUniqueKeys p f [] u = tt
change_where-HasUniqueKeys p f ((k, t) ∷ m) u =
    (get-change_where p f k m ∙ ap (changed p f) u.0, change_where-HasUniqueKeys p f m u.1)

pub change_where-All :
    (P : Text × TaskState → Type 0) (p : TaskState → Bool) (f : TaskState → TaskState) (m : Tasks)
    → ((k : Text) (t : TaskState) → P (k, t) → P (k, f t))
    → All P m
    → All P (change_where p f m)
unfolding change_where
change_where-All P p f [] keeps h = tt
change_where-All P p f ((k, t) ∷ m) keeps h =
    ground (arith, keeps k t, change_where-All P p f m keeps h.1)

pub member-discard_where :
    (p : TaskState → Bool) (id : Text) (m : Tasks) (ids : List Text)
    → HasUniqueKeys m
    → All IsNamed m
    → member id (discard_where p m ids) ≡ (member id ids && not (chosen_at p id m))
unfolding discard_where get
member-discard_where p id [] ids u named = ground arith
member-discard_where p id ((k, t) ∷ m) ids u named = ground (
  arith,
  named.0.1,
  u.0,
  list_beq_iff k id,
  member-discard id (strip t.task_id) ids,
  member-discard_where p id m (if p t then discard (strip t.task_id) ids else ids) u.1 named.1,
)

pub length-discard_where-le :
    (p : TaskState → Bool) (m : Tasks) (ids : List Text)
    → length (discard_where p m ids) ≤ length ids
unfolding discard_where
length-discard_where-le p [] ids = omega arith
length-discard_where-le p ((k, t) ∷ m) ids = ground (
  arith,
  length-discard-le (strip t.task_id) ids,
  length-discard_where-le p m (if p t then discard (strip t.task_id) ids else ids),
)

pub get-erase_where :
    (p : TaskState → Bool) (id : Text) (m : Tasks)
    → HasUniqueKeys m
    → get id (erase_where p m) ≡ kept p (get id m)
unfolding erase_where get
get-erase_where p id [] u = refl
get-erase_where p id ((k, t) ∷ m) u =
    ground (arith, u.0, list_beq_iff k id, get-erase_where p id m u.1)

pub erase_where-HasUniqueKeys :
    (p : TaskState → Bool) (m : Tasks) → HasUniqueKeys m → HasUniqueKeys (erase_where p m)
unfolding erase_where
erase_where-HasUniqueKeys p [] u = tt
erase_where-HasUniqueKeys p ((k, t) ∷ m) u =
    ground (arith, get-erase_where p k m u.1, u.0, erase_where-HasUniqueKeys p m u.1)

pub erase_where-All :
    (P : Text × TaskState → Type 0) (p : TaskState → Bool) (m : Tasks)
    → All P m
    → All P (erase_where p m)
unfolding erase_where
erase_where-All P p [] h = tt
erase_where-All P p ((k, t) ∷ m) h = ground (arith, erase_where-All P p m h.1)

pub member-discard_keys_where :
    (p : TaskState → Bool) (id : Text) (m : Tasks) (ids : List Text)
    → HasUniqueKeys m
    → member id (discard_keys_where p m ids) ≡ (member id ids && not (chosen_at p id m))
unfolding discard_keys_where get
member-discard_keys_where p id [] ids u = ground arith
member-discard_keys_where p id ((k, t) ∷ m) ids u = ground (
  arith,
  u.0,
  list_beq_iff k id,
  member-discard id k ids,
  member-discard_keys_where p id m (if p t then discard k ids else ids) u.1,
)

pub length-discard_keys_where-le :
    (p : TaskState → Bool) (m : Tasks) (ids : List Text)
    → length (discard_keys_where p m ids) ≤ length ids
unfolding discard_keys_where
length-discard_keys_where-le p [] ids = omega arith
length-discard_keys_where-le p ((k, t) ∷ m) ids = ground (
  arith,
  length-discard-le k ids,
  length-discard_keys_where-le p m (if p t then discard k ids else ids),
)
