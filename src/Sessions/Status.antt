-- ===== src/Sessions/Status.antt =====
-- What the status of a session says of its replicas and leases.
use new_pycloud.Base.{
  ℕ, ◌≤◌, ◌≡◌, refl, ◌↔◌, min, Bool, true, false, not, ◌&&◌, ◌||◌, List, [], ◌∷◌, Option, none,
  some, length, ◌==◌, nat_eq, list_eq, list_beq_iff, arith, inl, inr, ◌⊎◌, Bool-cases, subst,
  Contains, sym, ap, ◌∙◌,
}
use new_pycloud.Base.Dict.{get}
use new_pycloud.Base.Text.{Text}
use new_pycloud.Sessions.{
  SessionLease, ExecutionReplicaSnapshot, alive_count, alive_at, active_leases, all_leases, least,
  or_all, build_execution_session_status,
}

alive_count-le : (m : List (Text × ExecutionReplicaSnapshot)) → alive_count m ≤ length m
unfolding alive_count
alive_count-le [] = omega arith
alive_count-le ((id, s) ∷ m) = ground (arith, alive_count-le m)

-- A session is alive exactly if it is neither closed nor marked as failed and has an alive replica;
-- it is failed if it is marked so, or has replicas and none alive, so that it is never both; and
-- no more replicas are alive than there are.
pub build-status-alive :
    (replicas : List (Text × ExecutionReplicaSnapshot)) (failures : List (Text × Text))
    (failed closed : Bool) (leases : List (Text × SessionLease))
    → let s = build_execution_session_status replicas failures failed closed leases in
      ((s.alive ≡ true) ↔ ((closed ≡ false) × (failed ≡ false) × (1 ≤ s.alive_replica_count)))
      × ((s.failed ≡ true)
          ↔ ((failed || (not (s.replica_count == 0) && s.alive_replica_count == 0)) ≡ true))
      × (s.alive && s.failed ≡ false)
      × (s.alive_replica_count ≤ s.replica_count)
unfolding build_execution_session_status
build-status-alive replicas failures failed closed leases = ground (arith, alive_count-le replicas)

least-head : (n : ℕ) (ns : List ℕ) → (m : ℕ) × (least (n ∷ ns) ≡ some m) × (m ≤ n)
least-head n ns =
    elim (least ns)
      as (λ o.
        (m : ℕ) × (elim o as (λ _. Option ℕ) [ none ↦ some n | some k ↦ some (min n k) ] ≡ some m)
        × (m ≤ n)) [ none ↦ (n, refl, omega arith) | some k ↦ (min n k, refl, omega arith) ]

least-tail : (n k : ℕ) (ns : List ℕ) → least ns ≡ some k → least (n ∷ ns) ≡ some (min n k)
least-tail n k ns at = simp (at)

active-alive :
    (j : Text) (k : SessionLease) (replicas : List (Text × ExecutionReplicaSnapshot))
    (leases : List (Text × SessionLease))
    → alive_at j replicas ≡ true
    → active_leases replicas ((j, k) ∷ leases) ≡ k.lease_expire_at ∷ active_leases replicas leases
unfolding active_leases
active-alive j k replicas leases up = simp (up)

active-dead :
    (j : Text) (k : SessionLease) (replicas : List (Text × ExecutionReplicaSnapshot))
    (leases : List (Text × SessionLease))
    → alive_at j replicas ≡ false
    → active_leases replicas ((j, k) ∷ leases) ≡ active_leases replicas leases
unfolding active_leases
active-dead j k replicas leases down = simp (down)

least-at : (n : ℕ) (ns ms : List ℕ) → ms ≡ n ∷ ns → (m : ℕ) × (least ms ≡ some m) × (m ≤ n)
least-at n ns ms same =
    subst (λ (xs : List ℕ). (m : ℕ) × (least xs ≡ some m) × (m ≤ n)) (sym same) (least-head n ns)

active-least :
    (replicas : List (Text × ExecutionReplicaSnapshot)) (leases : List (Text × SessionLease))
    (id : Text) (l : SessionLease)
    → alive_at id replicas ≡ true
    → get id leases ≡ some l
    → (n : ℕ) × (least (active_leases replicas leases) ≡ some n) × (n ≤ l.lease_expire_at)
unfolding get
active-least replicas [] id l alive at = ground arith
active-least replicas ((j, k) ∷ leases) id l alive at =
    let rest = active-least replicas leases id l alive in
    elim (Bool-cases (j == id)) [
      | inl same ↦
          let named : j ≡ id = (list_beq_iff j id).0 same in
          let lease : k ≡ l = ground arith in
          let up : alive_at j replicas ≡ true = ap (λ x. alive_at x replicas) named ∙ alive in
          let found =
            least-at k.lease_expire_at (active_leases replicas leases) _
              (active-alive j k replicas leases up) in
          (
            found.0,
            found.1,
            subst (λ (x : SessionLease). found.0 ≤ x.lease_expire_at) lease found.2,
          )
      | inr other ↦
          let ih = rest (ground arith) in
          elim (Bool-cases (alive_at j replicas)) [
            | inl up ↦ (
              min k.lease_expire_at ih.0,
              ap (λ xs. least xs) (active-alive j k replicas leases up)
                  ∙ least-tail k.lease_expire_at ih.0 (active_leases replicas leases) ih.1,
              omega (arith, ih.2),
            )
            | inr down ↦
                (ih.0, ap (λ xs. least xs) (active-dead j k replicas leases down) ∙ ih.1, ih.2)
          ]
    ]

-- A lease of a replica that is alive expires at `n`.
abbrev pub ExpiresAlive :
    List (Text × ExecutionReplicaSnapshot) → List (Text × SessionLease) → ℕ → Type 0
ExpiresAlive replicas leases n =
    (id : Text) × (l : SessionLease) × (alive_at id replicas ≡ true)
    × Contains (id, l) leases
    × (l.lease_expire_at ≡ n)

least_step :
    (n m : ℕ) (o : Option ℕ)
    → elim o as (λ _. Option ℕ) [ none ↦ some m | some k ↦ some (min m k) ] ≡ some n
    → (m ≡ n) ⊎ (o ≡ some n)
least_step n m none e = ground (arith, e)
least_step n m (some k) e = ground (arith, e)

least-Contains : (n : ℕ) (ns : List ℕ) → least ns ≡ some n → Contains n ns
least-Contains n [] at = ground arith
least-Contains n (m ∷ ns) at = elim (least_step n m (least ns) at) [
  | inl same ↦ inl same
  | inr rest ↦ inr (least-Contains n ns rest)
]

later_lease :
    (replicas : List (Text × ExecutionReplicaSnapshot)) (first : Text × SessionLease)
    (leases : List (Text × SessionLease)) (n : ℕ)
    → ExpiresAlive replicas leases n
    → ExpiresAlive replicas (first ∷ leases) n
later_lease replicas first leases n e = (e.0, e.1, e.2, inr e.3, e.4)

active_leases-ExpiresAlive :
    (replicas : List (Text × ExecutionReplicaSnapshot)) (leases : List (Text × SessionLease))
    (n : ℕ)
    → Contains n (active_leases replicas leases)
    → ExpiresAlive replicas leases n
unfolding active_leases
active_leases-ExpiresAlive replicas [] n h = elim h [ ]
active_leases-ExpiresAlive replicas ((j, k) ∷ leases) n h =
    let rest = active_leases-ExpiresAlive replicas leases n in
    elim (Bool-cases (alive_at j replicas)) [
      | inl up ↦ elim (subst (Contains n) (active-alive j k replicas leases up) h) [
        | inl same ↦ (j, k, up, inl refl, same)
        | inr later ↦ later_lease replicas (j, k) leases n (rest later)
      ]
      | inr down ↦
          later_lease replicas (j, k) leases n
            (rest (subst (Contains n) (active-dead j k replicas leases down) h))
    ]

least-or_all :
    (n : ℕ) (active all : List ℕ) → least active ≡ some n → least (or_all active all) ≡ some n
least-or_all n [] all at = ground arith
least-or_all n (k ∷ ns) all at = at

-- Once some replica that is alive has a lease, the time at which a session's status says its lease
-- expires is that of the lease of a replica that is alive, and no later than the lease of any
-- replica that is alive: the leases of lost replicas do not count.
pub lease_expire_at-alive :
    (replicas : List (Text × ExecutionReplicaSnapshot)) (failures : List (Text × Text))
    (failed closed : Bool) (leases : List (Text × SessionLease)) (id : Text) (l : SessionLease)
    → alive_at id replicas ≡ true
    → get id leases ≡ some l
    → let s = build_execution_session_status replicas failures failed closed leases in
      (n : ℕ) × (s.lease_expire_at ≡ some n)
      × (n ≤ l.lease_expire_at)
      × ExpiresAlive replicas leases n
unfolding build_execution_session_status
lease_expire_at-alive replicas failures failed closed leases id l alive at =
    let found = active-least replicas leases id l alive at in
    let active = active_leases replicas leases in
    (
      found.0,
      least-or_all found.0 active (all_leases leases) found.1,
      found.2,
      active_leases-ExpiresAlive replicas leases found.0 (least-Contains found.0 active found.1),
    )
