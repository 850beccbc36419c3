-- ===== src/CreateRequests/Pruned.antt =====
-- What the pruning of a table takes out: the order by age has the records of the table, and popping
-- some of them makes it as much shorter.
use new_pycloud.Base.{
  suc, ◌+◌, ◌≡◌, refl, ◌∙◌, Bool, true, false, List, [], ◌∷◌, none, some, if◌then◌else◌, ◌==◌,
  nat_eq, list_eq, list_beq_iff, length, arith,
}
use new_pycloud.Base.Dict.{
  get, erase, HasUniqueKeys, get-erase, erase-HasUniqueKeys, erase_of_absent,
}
use new_pycloud.Base.Sets.{member}
use new_pycloud.Base.Text.{Text}
use new_pycloud.CreateRequests.{CreateRequestRecord, Table, insert_by_age, by_age, erase_all}

get-insert_by_age :
    (id k : Text) (r : CreateRequestRecord) (m : Table)
    → get id m ≡ none
    → get k (insert_by_age id r m) ≡ (if id == k then some r else get k m)
unfolding insert_by_age get
get-insert_by_age id k r [] h = refl
get-insert_by_age id k r ((j, s) ∷ m) h =
    ground
      (arith, h, list_beq_iff id k, list_beq_iff j k, list_beq_iff j id, get-insert_by_age id k r m)

insert_by_age-HasUniqueKeys :
    (id : Text) (r : CreateRequestRecord) (m : Table)
    → get id m ≡ none
    → HasUniqueKeys m
    → HasUniqueKeys (insert_by_age id r m)
unfolding insert_by_age get
insert_by_age-HasUniqueKeys id r [] h u = (refl, tt)
insert_by_age-HasUniqueKeys id r ((j, s) ∷ m) h u = ground (
  arith,
  h,
  u.0,
  list_beq_iff j id,
  list_beq_iff id j,
  get-insert_by_age id j r m,
  insert_by_age-HasUniqueKeys id r m,
  u.1,
)

pub get-by_age : (k : Text) (m : Table) → HasUniqueKeys m → get k (by_age m) ≡ get k m
unfolding by_age get
get-by_age k [] u = refl
get-by_age k ((j, s) ∷ m) u =
    ground (arith, u.0, get-by_age j m u.1, get-by_age k m u.1, get-insert_by_age j k s (by_age m))

pub by_age-HasUniqueKeys : (m : Table) → HasUniqueKeys m → HasUniqueKeys (by_age m)
unfolding by_age
by_age-HasUniqueKeys [] u = tt
by_age-HasUniqueKeys ((j, s) ∷ m) u =
    insert_by_age-HasUniqueKeys j s (by_age m) (get-by_age j m u.1 ∙ u.0)
      (by_age-HasUniqueKeys m u.1)

length-insert_by_age :
    (id : Text) (r : CreateRequestRecord) (m : Table)
    → length (insert_by_age id r m) ≡ suc (length m)
unfolding insert_by_age
length-insert_by_age id r [] = refl
length-insert_by_age id r ((j, s) ∷ m) = ground (arith, length-insert_by_age id r m)

pub length-by_age : (m : Table) → length (by_age m) ≡ length m
unfolding by_age
length-by_age [] = refl
length-by_age ((j, s) ∷ m) = omega (arith, length-insert_by_age j s (by_age m), length-by_age m)

abbrev pub is_present : Text → Table → Bool
is_present k m = elim (get k m) [ none ↦ false | some r ↦ true ]

-- Keys of the table, each of them once.
abbrev pub ArePresent : Table → List Text → Type 0
ArePresent m [] = Unit
ArePresent m (k ∷ ks) = (is_present k m ≡ true) × (member k ks ≡ false) × ArePresent m ks

length-erase :
    (k : Text) (m : Table)
    → HasUniqueKeys m
    → is_present k m ≡ true
    → length (erase k m) + 1 ≡ length m
unfolding get erase
length-erase k [] u h = cc
length-erase k ((j, s) ∷ m) u h =
    ground (arith, u.0, h, list_beq_iff j k, erase_of_absent k m, length-erase k m u.1)

erase-ArePresent :
    (k : Text) (ks : List Text) (m : Table)
    → member k ks ≡ false
    → ArePresent m ks
    → ArePresent (erase k m) ks
unfolding member
erase-ArePresent k [] m h p = tt
erase-ArePresent k (j ∷ ks) m h p = ground (
  arith,
  h,
  p.0,
  p.1,
  list_beq_iff j k,
  list_beq_iff k j,
  get-erase k j m,
  erase-ArePresent k ks m,
  p.2,
)

pub length-erase_all :
    (ks : List Text) (m : Table)
    → HasUniqueKeys m
    → ArePresent m ks
    → length (erase_all ks m) + length ks ≡ length m
unfolding erase_all
length-erase_all [] m u p = omega arith
length-erase_all (k ∷ ks) m u p = omega (
  arith,
  length-erase k m u p.0,
  length-erase_all ks (erase k m) (erase-HasUniqueKeys k m u) (erase-ArePresent k ks m p.1 p.2),
)

pub get-erase_all :
    (id : Text) (ks : List Text) (m : Table)
    → member id ks ≡ false
    → get id (erase_all ks m) ≡ get id m
unfolding erase_all member
get-erase_all id [] m h = refl
get-erase_all id (k ∷ ks) m h = ground (arith, h, get-erase k id m, get-erase_all id ks (erase k m))

pub erase_all-HasUniqueKeys :
    (ks : List Text) (m : Table) → HasUniqueKeys m → HasUniqueKeys (erase_all ks m)
unfolding erase_all
erase_all-HasUniqueKeys [] m u = u
erase_all-HasUniqueKeys (k ∷ ks) m u =
    erase_all-HasUniqueKeys ks (erase k m) (erase-HasUniqueKeys k m u)
