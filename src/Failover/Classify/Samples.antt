-- ===== src/Failover/Classify/Samples.antt =====
-- Errors that are classified, as tests, and the theorems about them at these inputs.
use new_pycloud.Base.{◌≡◌, refl, true, false, ◌&&◌, ◌||◌, not, none, some, nat_eq, list_eq, keep}
use new_pycloud.Base.Text.{codes, strip, lower, upper, contains, join}
use new_pycloud.Failover.Classify.{
  remote_infra_failed, remote_user_failed, Exception, full_message, classify_service_error,
  classify_task_result_status, should_failover,
}
use new_pycloud.Failover.Classify.Kinds.{blames_user, should_failover-classify_service_error}

-- Both a user's and a dependency's failure: the dependency decides.
abbrev mixed : Exception
mixed = record {
  message = codes " call failed ";
  attached =
      some (record { error_type = codes "FAILED_USER"; error = codes "Dependency runtime error" });
}

abbrev plain : Exception
plain = record { message = codes "UserError: bad input"; attached = none }

classified :
    (full_message mixed ≡ codes "call failed FAILED_USER Dependency runtime error")
    × (classify_service_error mixed false ≡ remote_infra_failed)
    × (classify_service_error plain false ≡ remote_user_failed)
    × (classify_task_result_status (codes " failed_user ") ≡ remote_user_failed)
unfolding full_message classify_service_error classify_task_result_status strip lower upper contains
    join keep
classified = (refl, refl, refl, refl)

should_failover-classify_service_error_example :
    should_failover (classify_service_error mixed false) true
    ≡ (true && (false || not (blames_user (lower (full_message mixed)))))
should_failover-classify_service_error_example =
    should_failover-classify_service_error mixed false true
