-- ===== src/Sessions.antt =====
-- Session leases and the status of a session over its replicas: controlplane/session_model.py, and
-- the recovery state of a replica in execution/recovery_state.py. Times are whole microseconds.
pub mod Status
pub mod Samples
use new_pycloud.Base.{
  ℕ, suc, ◌+◌, ◌-◌, min, max, Bool, true, false, not, ◌&&◌, ◌||◌, leb, List, [], ◌∷◌, Option, none,
  some, if◌then◌else◌, length, ◌==◌, nat_eq, list_eq,
}
use new_pycloud.Base.Dict.{get}
use new_pycloud.Base.Text.{Text, strip, is_nonempty}

pub record SessionLease : Type 0 where
  pub heartbeat_timeout_sec : ℕ
  pub idle_ttl_sec : ℕ
  pub created_at : ℕ
  pub last_heartbeat_at : ℕ
  pub lease_expire_at : ℕ

pub is_expired : ℕ → SessionLease → Bool
is_expired at l = leb l.lease_expire_at at

-- In microseconds; an expired lease has nothing left.
pub remaining : ℕ → SessionLease → ℕ
remaining at l = l.lease_expire_at - at

-- The fields of a replica's snapshot that the status reads.
pub record ExecutionReplicaSnapshot : Type 0 where
  pub alive : Bool
  pub failure : Text

-- `kind` is passed on and left out.
pub record ExecutionSessionStatus : Type 0 where
  pub replica_count : ℕ
  pub alive_replica_count : ℕ
  pub failed_replica_count : ℕ
  pub alive : Bool
  pub failed : Bool
  pub failures : List (Text × Text)
  pub last_heartbeat_at : Option ℕ
  pub lease_expire_at : Option ℕ
  pub replicas : List (Text × ExecutionReplicaSnapshot)

pub alive_count : List (Text × ExecutionReplicaSnapshot) → ℕ
alive_count [] = 0
alive_count ((_, s) ∷ m) = if s.alive then suc (alive_count m) else alive_count m

abbrev pub text_or : Text → Text → Text
text_or s d = if is_nonempty s then s else d

-- What a replica's failure is: its own text, or the one reported for its node.
abbrev pub failure_of : List (Text × Text) → Text → ExecutionReplicaSnapshot → Text
failure_of failures id s =
    text_or s.failure (elim (get id failures) [ none ↦ [] | some text ↦ text ])

pub normalized_failures :
    List (Text × Text) → List (Text × ExecutionReplicaSnapshot) → List (Text × Text)
normalized_failures failures [] = []
normalized_failures failures ((id, s) ∷ m) =
    let rest = normalized_failures failures m in
    if is_nonempty (strip (failure_of failures id s))
    then (id, failure_of failures id s) ∷ rest
    else rest

abbrev pub alive_at : Text → List (Text × ExecutionReplicaSnapshot) → Bool
alive_at id replicas = elim (get id replicas) [ none ↦ false | some s ↦ s.alive ]

-- The times at which the leases of alive replicas expire, and of all.
pub active_leases : List (Text × ExecutionReplicaSnapshot) → List (Text × SessionLease) → List ℕ
active_leases replicas [] = []
active_leases replicas ((id, l) ∷ m) =
    let rest = active_leases replicas m in
    if alive_at id replicas then l.lease_expire_at ∷ rest else rest

abbrev pub all_leases : List (Text × SessionLease) → List ℕ
all_leases [] = []
all_leases ((_, l) ∷ m) = l.lease_expire_at ∷ all_leases m

abbrev pub heartbeats : List (Text × SessionLease) → List ℕ
heartbeats [] = []
heartbeats ((_, l) ∷ m) = l.last_heartbeat_at ∷ heartbeats m

abbrev pub least : List ℕ → Option ℕ
least [] = none
least (n ∷ ns) = elim (least ns) [ none ↦ some n | some k ↦ some (min n k) ]

abbrev pub greatest : List ℕ → Option ℕ
greatest [] = none
greatest (n ∷ ns) = elim (greatest ns) [ none ↦ some n | some k ↦ some (max n k) ]

-- `active_leases or all_leases`
abbrev pub or_all : List ℕ → List ℕ → List ℕ
or_all [] all = all
or_all (n ∷ ns) all = n ∷ ns

pub build_execution_session_status :
    List (Text × ExecutionReplicaSnapshot)
    → List (Text × Text)
    → Bool
    → Bool
    → List (Text × SessionLease)
    → ExecutionSessionStatus
unfolding alive_count normalized_failures active_leases
build_execution_session_status replicas failures failed closed leases =
    let alive_replicas = alive_count replicas in
    let reported = normalized_failures failures replicas in
    let all_dead = not (length replicas == 0) && alive_replicas == 0 in
    record {
      replica_count = length replicas;
      alive_replica_count = alive_replicas;
      failed_replica_count = length reported;
      alive = not closed && (not (alive_replicas == 0) && not (failed || all_dead));
      failed = failed || all_dead;
      failures = reported;
      last_heartbeat_at = greatest (heartbeats leases);
      lease_expire_at = least (or_all (active_leases replicas leases) (all_leases leases));
      replicas = replicas;
    }

pub data ReplicaLifecycle : Type 0 where
  active failed_retryable failed_permanent terminal : ReplicaLifecycle

pub record ReplicaRecoveryState : Type 0 where
  pub node_instance_id : Text
  pub lifecycle : ReplicaLifecycle
  pub error : Text

pub build_replica_recovery_state : Text → Bool → Bool → Bool → Text → ReplicaRecoveryState
build_replica_recovery_state id is_active is_terminal is_retryable error = record {
  node_instance_id = strip id;
  lifecycle =
      if is_terminal
      then terminal
      else (if is_active
          then active
          else (if is_retryable then failed_retryable else failed_permanent));
  error = error;
}
