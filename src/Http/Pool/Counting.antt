-- ===== src/Http/Pool/Counting.antt =====
-- What the parts of a round do to an origin's numbers and to sums over its idle connections.
use new_pycloud.Base.{
  ℕ, suc, ◌+◌, ◌-◌, ◌≡◌, refl, Bool, true, false, List, [], ◌∷◌, ◌++◌, none, some, arith,
  if◌then◌else◌, Eq, ◌==◌, nat_eq, list_eq, pair_eq, length, total, total-append, ◌⊎◌, inl, inr,
}
use new_pycloud.Base.Dict.{
  get-insert, get-erase, total_values, total_values-insert, total_values-erase, HasUniqueKeys,
}
use new_pycloud.Http.Pool.{
  Origin, OriginState, HttpConnectionPool, expired, unexpired, pop_right, drop_for_fresh,
  connections, origin_state, store, forget_one, all_idle,
}

abbrev pub origin_eq : Eq Origin
origin_eq = pair_eq

pub expired-append-unexpired :
    (ttl now : ℕ) (idle : List (ℕ × ℕ)) → expired ttl now idle ++ unexpired ttl now idle ≡ idle
unfolding expired unexpired
expired-append-unexpired ttl now [] = refl
expired-append-unexpired ttl now ((c, at) ∷ idle) =
    ground (arith, expired-append-unexpired ttl now idle)

pub drop_for_fresh-append :
    (fresh : Bool) (idle : List (ℕ × ℕ))
    → (drop_for_fresh fresh idle).0 ++ (drop_for_fresh fresh idle).1 ≡ idle
unfolding drop_for_fresh
drop_for_fresh-append false idle = refl
drop_for_fresh-append true [] = refl
drop_for_fresh-append true (e ∷ idle) = refl

-- The weight of the connections of a deque.
abbrev pub weigh : (ℕ → ℕ) → List (ℕ × ℕ) → ℕ
weigh w idle = total w (connections idle)

pub weigh-append : (w : ℕ → ℕ) (xs ys : List (ℕ × ℕ)) → weigh w (xs ++ ys) ≡ weigh w xs + weigh w ys
weigh-append w [] ys = omega arith
weigh-append w (x ∷ xs) ys = omega (arith, weigh-append w xs ys)

weigh_of_empty : (w : ℕ → ℕ) (idle : List (ℕ × ℕ)) → length idle ≡ 0 → weigh w idle ≡ 0
weigh_of_empty w [] h = refl
weigh_of_empty w (x ∷ xs) h = absurd (omega arith)

pub pop_right_cases :
    (idle : List (ℕ × ℕ))
    → ((idle ≡ []) × (pop_right idle ≡ none))
      ⊎ ((c : ℕ) × (rest : List (ℕ × ℕ)) × (pop_right idle ≡ some (c, rest))
          × (length idle ≡ suc (length rest))
          × ((w : ℕ → ℕ) → weigh w idle ≡ w c + weigh w rest))
unfolding pop_right
pop_right_cases [] = inl (refl, refl)
pop_right_cases ((c, at) ∷ idle) = elim (pop_right_cases idle) [
  | inl (e, p) ↦ inr (c, [], rw p refl, ground arith, λ w. ground arith)
  | inr (d, rest, p, l, t) ↦
      inr (d, (c, at) ∷ rest, rw p refl, omega arith, λ w. omega (arith, t w))
]

pub origin_state-store :
    (o j : Origin) (st : OriginState) (p : HttpConnectionPool)
    → origin_state j (store o st p) ≡ (if o == j then st else origin_state j p)
unfolding origin_state
origin_state-store o j st p = ground (arith, get-insert o j st p.origins)

pub origin_state-forget_one :
    (o j : Origin) (st : OriginState) (p : HttpConnectionPool)
    → origin_state j (forget_one o st p) ≡ (
        if o == j
        then record st { connection_count = st.connection_count - 1 }
        else origin_state j p)
unfolding origin_state
origin_state-forget_one o j st p = ground (
  arith,
  get-insert o j (record st { connection_count = st.connection_count - 1 }) p.origins,
  get-erase o j p.origins,
)

abbrev pub idle_weight : (ℕ → ℕ) → HttpConnectionPool → ℕ
idle_weight w p = total_values (λ st. weigh w st.idle) p.origins

pub idle_weight-store :
    (w : ℕ → ℕ) (o : Origin) (st : OriginState) (p : HttpConnectionPool)
    → idle_weight w (store o st p) + weigh w (origin_state o p).idle
      ≡ idle_weight w p + weigh w st.idle
unfolding origin_state
idle_weight-store w o st p =
    ground (arith, total_values-insert (λ st. weigh w st.idle) o st p.origins)

pub idle_weight-forget_one :
    (w : ℕ → ℕ) (o : Origin) (st : OriginState) (p : HttpConnectionPool)
    → HasUniqueKeys p.origins
    → idle_weight w (forget_one o st p) + weigh w (origin_state o p).idle
      ≡ idle_weight w p + weigh w st.idle
unfolding origin_state
idle_weight-forget_one w o st p unique = ground (
  arith,
  total_values-insert (λ st. weigh w st.idle) o
      (record st { connection_count = st.connection_count - 1 }) p.origins,
  total_values-erase (λ st. weigh w st.idle) o p.origins unique,
  weigh_of_empty w st.idle,
)

pub total-all_idle :
    (w : ℕ → ℕ) (m : List (Origin × OriginState))
    → total w (all_idle m) ≡ total_values (λ st. weigh w st.idle) m
total-all_idle w [] = refl
total-all_idle w ((o, st) ∷ m) =
    omega (arith, total-append w (connections st.idle) (all_idle m), total-all_idle w m)
