-- ===== src/Sessions/Samples.antt =====
-- A session of two replicas, one of them lost, on which the theorems are evaluated.
use new_pycloud.Base.{ℕ, ◌≤◌, ◌≡◌, refl, true, false, List, [], ◌∷◌, some, nat_eq, list_eq}
use new_pycloud.Base.Dict.{get}
use new_pycloud.Base.Text.{Text, codes}
use new_pycloud.Sessions.{SessionLease, ExecutionReplicaSnapshot, build_execution_session_status}
use new_pycloud.Sessions.Status.{ExpiresAlive, lease_expire_at-alive}

abbrev replicas : List (Text × ExecutionReplicaSnapshot)
replicas =
    (codes "n1", record { alive = true; failure = [] })
    ∷ (codes "n2", record { alive = false; failure = codes "lost" })
    ∷ []

abbrev lease : SessionLease
lease = record {
  heartbeat_timeout_sec = 30;
  idle_ttl_sec = 60;
  created_at = 1;
  last_heartbeat_at = 5;
  lease_expire_at = 90;
}

abbrev leases : List (Text × SessionLease)
leases = (codes "n2", record lease { lease_expire_at = 40 }) ∷ (codes "n1", lease) ∷ []

lease_expire_at-alive_example :
    let s = build_execution_session_status replicas [] false false leases in
    (n : ℕ) × (s.lease_expire_at ≡ some n)
    × (n ≤ lease.lease_expire_at)
    × ExpiresAlive replicas leases n
unfolding get
lease_expire_at-alive_example =
    lease_expire_at-alive replicas [] false false leases (codes "n1") lease refl refl
