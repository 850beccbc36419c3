-- ===== src/NodeControl/Reserve.antt =====
-- What the loop over the items of a submission reserves.
use new_pycloud.Base.{
  ℕ, zero, suc, ◌+◌, ◌-◌, ◌≡◌, ◌≤◌, refl, sym, ap, ◌∙◌, Bool, true, false, not, List, [], ◌∷◌, ◌++◌,
  none, ◌==◌, leb, nat_eq, list_eq, list_beq_iff, length, take, keep, map, strip-strip, arith,
}
use new_pycloud.Base.Dict.{get}
use new_pycloud.Base.Sets.{member, add, discard, member-add, length-add-le}
use new_pycloud.Base.Text.{Text, strip}
use new_pycloud.NodeControl.{TaskState, node_queue_occupancy, NodeControlState}
use new_pycloud.NodeControl.Submit.{
  Reserving, is_known, reserve_item, reserve_items, reserving, reserve,
}

-- The items without repetitions, each at its first place.
unfoldable pub distinct : List Text → List Text
distinct [] = []
distinct (x ∷ xs) = x ∷ discard x (distinct xs)

discard-discard_self : (x : Text) (xs : List Text) → discard x (discard x xs) ≡ discard x xs
unfolding discard
discard-discard_self x [] = refl
discard-discard_self x (y ∷ ys) = ground (arith, discard-discard_self x ys)

discard-discard :
    (x y : Text) (xs : List Text) → discard x (discard y xs) ≡ discard y (discard x xs)
unfolding discard
discard-discard x y [] = refl
discard-discard x y (z ∷ zs) = ground (arith, discard-discard x y zs)

distinct-discard : (x : Text) (xs : List Text) → distinct (discard x xs) ≡ discard x (distinct xs)
unfolding distinct discard
distinct-discard x [] = refl
distinct-discard x (y ∷ ys) = ground (
  arith,
  list_beq_iff y x,
  distinct-discard x ys,
  discard-discard_self x (distinct ys),
  discard-discard x y (distinct ys),
)

abbrev pub is_fresh : List (Text × TaskState) → List Text → Text → Bool
is_fresh tasks reserved id = not (is_known tasks reserved id)

keep-add :
    (tasks : List (Text × TaskState)) (x : Text) (reserved xs : List Text)
    → keep (is_fresh tasks (add x reserved)) xs ≡ discard x (keep (is_fresh tasks reserved) xs)
unfolding keep discard
keep-add tasks x reserved [] = refl
keep-add tasks x reserved (y ∷ ys) = ground (
  arith,
  list_beq_iff x y,
  list_beq_iff y x,
  member-add y x reserved,
  keep-add tasks x reserved ys,
)

-- What is reserved, without the loop: the fresh ids, each once, as many as the queue has room for.
abbrev pub room_for : ℕ → List (Text × TaskState) → List Text → Reserving → List Text
room_for capacity tasks items r =
    take (capacity - r.occupancy) (distinct (keep (is_fresh tasks r.reserved) (map strip items)))

append_one_assoc :
    (xs : List Text) (x : Text) (ys : List Text) → (xs ++ x ∷ []) ++ ys ≡ xs ++ x ∷ ys
append_one_assoc [] x ys = refl
append_one_assoc (y ∷ xs) x ys = ap (y ∷◌) (append_one_assoc xs x ys)

append_nil : (xs : List Text) → xs ++ [] ≡ xs
append_nil [] = refl
append_nil (x ∷ xs) = ap (x ∷◌) (append_nil xs)

take_nil : (n : ℕ) → take {A = Text} n [] ≡ []
take_nil zero = refl
take_nil (suc n) = refl

take_room :
    (capacity occupancy : ℕ) (x : Text) (xs : List Text)
    → leb capacity occupancy ≡ false
    → take (capacity - occupancy) (x ∷ xs) ≡ x ∷ take (capacity - (occupancy + 1)) xs
take_room capacity occupancy x xs h =
    let more : capacity - occupancy ≡ suc (capacity - (occupancy + 1)) = ground arith in
    ap (λ n. take n (x ∷ xs)) more

take_none :
    (capacity occupancy : ℕ) (xs : List Text)
    → leb capacity occupancy ≡ true
    → take (capacity - occupancy) xs ≡ []
take_none capacity occupancy xs h =
    let none_left : capacity - occupancy ≡ 0 = ground arith in ap (λ n. take n xs) none_left

distinct_of_fresh :
    (tasks : List (Text × TaskState)) (x : Text) (reserved xs : List Text)
    → distinct (keep (is_fresh tasks (add x reserved)) xs)
      ≡ discard x (distinct (keep (is_fresh tasks reserved) xs))
distinct_of_fresh tasks x reserved xs =
    ap distinct (keep-add tasks x reserved xs)
    ∙ distinct-discard x (keep (is_fresh tasks reserved) xs)

reserve_item-items :
    (capacity : ℕ) (tasks : List (Text × TaskState)) (item : Text) (items : List Text)
    (r : Reserving)
    → (reserve_item capacity tasks item r).items
        ++ room_for capacity tasks items (reserve_item capacity tasks item r)
      ≡ r.items ++ room_for capacity tasks (item ∷ items) r
unfolding reserve_item keep distinct
reserve_item-items capacity tasks item items r =
    let fresh = keep (is_fresh tasks r.reserved) (map strip items) in
    ground (
      arith,
      take_none capacity r.occupancy (distinct (strip item ∷ fresh)),
      take_none capacity r.occupancy (distinct fresh),
      take_room capacity r.occupancy (strip item) (discard (strip item) (distinct fresh)),
      distinct_of_fresh tasks (strip item) r.reserved (map strip items),
      append_one_assoc r.items (strip item)
          (take (capacity - (r.occupancy + 1)) (discard (strip item) (distinct fresh))),
    )

pub reserve_items-items :
    (capacity : ℕ) (tasks : List (Text × TaskState)) (items : List Text) (r : Reserving)
    → (reserve_items capacity tasks items r).items ≡ r.items ++ room_for capacity tasks items r
unfolding reserve_items keep distinct
reserve_items-items capacity tasks [] r =
    sym (ap (r.items ++◌) (take_nil (capacity - r.occupancy)) ∙ append_nil r.items)
reserve_items-items capacity tasks (item ∷ items) r =
    reserve_items-items capacity tasks items (reserve_item capacity tasks item r)
    ∙ reserve_item-items capacity tasks item items r

-- A submission reserves the fresh ids among its items, each once and in their order, as many as the
-- node's queue has room for.
pub reserve-items :
    (service_inflight : ℕ) (items : List Text) (n : NodeControlState)
    → (reserve service_inflight items n).1.0
      ≡ take
          (n.queue_capacity - node_queue_occupancy service_inflight n)
          (distinct (keep (is_fresh n.pool_tasks n.pool_task_reserved_ids) (map strip items)))
unfolding reserve reserving
reserve-items service_inflight items n =
    reserve_items-items n.queue_capacity n.pool_tasks items (reserving service_inflight n)

abbrev pub one_if : Bool → ℕ
one_if true = 1
one_if false = 0

abbrev pub occurrences : Text → List Text → ℕ
occurrences id [] = 0
occurrences id (x ∷ xs) = one_if (x == id) + occurrences id xs

pub occurrences-append_one :
    (id : Text) (xs : List Text) (x : Text)
    → occurrences id (xs ++ x ∷ []) ≡ occurrences id xs + one_if (x == id)
occurrences-append_one id [] x = omega arith
occurrences-append_one id (y ∷ ys) x = omega (arith, occurrences-append_one id ys x)

module _ (capacity : ℕ) (tasks : List (Text × TaskState)) where
  reserve_items-keeps :
      (P : Reserving → Type 0) (items : List Text) (r : Reserving)
      → ((item : Text) (s : Reserving) → P s → P (reserve_item capacity tasks item s))
      → P r
      → P (reserve_items capacity tasks items r)
  unfolding reserve_items
  reserve_items-keeps P [] r keeps h = h
  reserve_items-keeps P (item ∷ items) r keeps h =
      reserve_items-keeps P items (reserve_item capacity tasks item r) keeps (keeps item r h)

  -- With `active` other places taken, neither the occupancy nor the capacity is exceeded.
  abbrev pub HasRoom : ℕ → Reserving → Type 0
  HasRoom active r =
      (active + length r.reserved ≤ r.occupancy) × (active + length r.reserved ≤ capacity)

  reserve_item-HasRoom :
      (active : ℕ) (item : Text) (r : Reserving)
      → HasRoom active r
      → HasRoom active (reserve_item capacity tasks item r)
  unfolding reserve_item
  reserve_item-HasRoom active item r h = ground (arith, h, length-add-le (strip item) r.reserved)

  pub reserve_items-HasRoom :
      (active : ℕ) (items : List Text) (r : Reserving)
      → HasRoom active r
      → HasRoom active (reserve_items capacity tasks items r)
  reserve_items-HasRoom active items r =
      reserve_items-keeps (HasRoom active) items r (reserve_item-HasRoom active)

  abbrev pub IsReservable : Text → Reserving → Type 0
  IsReservable id r = member id r.reserved ≡ true → (get id tasks ≡ none) × (strip id ≡ id)

  reserve_item-IsReservable :
      (id item : Text) (r : Reserving)
      → IsReservable id r
      → IsReservable id (reserve_item capacity tasks item r)
  unfolding reserve_item
  reserve_item-IsReservable id item r h = ground (
    arith,
    h,
    member-add id (strip item) r.reserved,
    list_beq_iff (strip item) id,
    strip-strip item,
  )

  pub reserve_items-IsReservable :
      (id : Text) (items : List Text) (r : Reserving)
      → IsReservable id r
      → IsReservable id (reserve_items capacity tasks items r)
  reserve_items-IsReservable id items r =
      reserve_items-keeps (IsReservable id) items r (reserve_item-IsReservable id)

  -- What is reserved beside `before` is what the items of the loop reserve.
  abbrev pub IsCounted : Text → ℕ → Reserving → Type 0
  IsCounted id before r = one_if (member id r.reserved) ≡ before + occurrences id r.items

  reserve_item-IsCounted :
      (id : Text) (before : ℕ) (item : Text) (r : Reserving)
      → IsCounted id before r
      → IsCounted id before (reserve_item capacity tasks item r)
  unfolding reserve_item
  reserve_item-IsCounted id before item r h = ground (
    arith,
    h,
    member-add id (strip item) r.reserved,
    list_beq_iff (strip item) id,
    occurrences-append_one id r.items (strip item),
  )

  pub reserve_items-IsCounted :
      (id : Text) (before : ℕ) (items : List Text) (r : Reserving)
      → IsCounted id before r
      → IsCounted id before (reserve_items capacity tasks items r)
  reserve_items-IsCounted id before items r =
      reserve_items-keeps (IsCounted id before) items r (reserve_item-IsCounted id before)
