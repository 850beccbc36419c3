-- ===== src/Scheduling.antt =====
-- Which nodes take work and which services take calls: controlplane/scheduling_policy.py.
use new_pycloud.Base.{ℕ, Bool, not, ◌&&◌, ◌||◌, ltb, if◌then◌else◌, ◌==◌, nat_eq, ◌≡◌, arith}
use new_pycloud.Base.Text.{Text, codes, strip, is_nonempty}
use new_pycloud.Base.Int.{ℤ, pos_part}

-- The numbers of the statuses of a service in proto/pycloud_v1.proto.
abbrev pub unspecified : ℕ
unspecified = 0

abbrev pub starting : ℕ
starting = 1

abbrev pub running : ℕ
running = 2

abbrev pub draining : ℕ
draining = 3

abbrev pub stopped : ℕ
stopped = 4

-- `service_status in ACTIVE_SERVICE_STATUSES`
abbrev pub is_active_status : ℕ → Bool
is_active_status s = s == starting || (s == running || s == draining)

abbrev pub is_call_route : Bool → ℕ → Bool → Bool
is_call_route healthy status drain = healthy && (status == running && not drain)

abbrev pub is_owner_target : Bool → ℕ → Bool
is_owner_target healthy status = healthy && is_active_status status

abbrev pub is_conflict_scope : Bool → ℕ → Bool
is_conflict_scope healthy status = healthy && is_active_status status

-- What is asked of a node that is to take work.
pub record Admission : Type 0 where
  pub healthy : Bool
  pub schedulable : Bool
  pub drain : Bool
  pub accept_service_deploy : Bool
  pub control_addr : Text
  pub require_control_addr : Bool
  pub credit : ℤ
  pub require_credit : Bool

unfoldable pub deploy_candidate_block_reason : Admission → Text
deploy_candidate_block_reason a =
    if not a.healthy
    then codes "unhealthy"
    else (if not a.schedulable
        then codes "cordon"
        else (if a.drain
            then codes "drain"
            else (if not a.accept_service_deploy
                then codes "accept_service_deploy=false"
                else (if a.require_control_addr && not (is_nonempty (strip a.control_addr))
                    then codes "missing_control_addr"
                    else (if a.require_credit && not (ltb 0 (pos_part a.credit))
                        then codes "no_credit"
                        else codes "")))))

pub is_deploy_candidate : Admission → Bool
unfolding deploy_candidate_block_reason
is_deploy_candidate a = not (is_nonempty (deploy_candidate_block_reason a))

-- Work goes to a node exactly if it is healthy, not cordoned, not draining, takes deployments, and
-- has the control address and the positive credit that are asked for.
pub is_deploy_candidate_iff :
    (a : Admission)
    → is_deploy_candidate a ≡ (
        a.healthy
        && (a.schedulable
            && (not a.drain
                && (a.accept_service_deploy
                    && ((not a.require_control_addr || is_nonempty (strip a.control_addr))
                        && (not a.require_credit || ltb 0 (pos_part a.credit)))))))
unfolding is_deploy_candidate
is_deploy_candidate_iff a = ground arith
