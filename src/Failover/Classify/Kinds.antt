-- ===== src/Failover/Classify/Kinds.antt =====
-- Which classified errors move a call to another candidate.
use new_pycloud.Base.{
  ◌≡◌, refl, Bool, true, false, [], if◌then◌else◌, ◌||◌, ◌&&◌, not, ◌==◌, nat_eq, list_eq,
}
use new_pycloud.Base.Text.{Text, codes, strip, lower, upper, lstrip}
use new_pycloud.Failover.Classify.{
  route_unavailable, controlplane_unavailable, remote_infra_failed, remote_user_failed, Exception,
  full_message, classify_message, classify_words, names_dependency, names_user, names_infra,
  classify_service_error, classify_task_result_status, should_failover,
}

-- The kinds that are not a user's failure are moved, and that one is not.
data IsKind : Text → Bool → Type 0 where
  route : IsKind route_unavailable true
  infra : IsKind remote_infra_failed true
  user : IsKind remote_user_failed false
  unavailable : IsKind controlplane_unavailable true

IsKind-should_failover :
    {kind : Text} {moved : Bool} → IsKind kind moved → should_failover kind true ≡ moved
unfolding should_failover strip upper lstrip
IsKind-should_failover route = refl
IsKind-should_failover infra = refl
IsKind-should_failover user = refl
IsKind-should_failover unavailable = refl

should_failover_empty : should_failover [] true ≡ false
unfolding should_failover strip upper lstrip
should_failover_empty = refl

-- The message is the user's failure and not a dependency's.
abbrev pub blames_user : Text → Bool
blames_user s = names_user s && not (names_dependency s)

classify_words-IsKind : (d u i : Bool) → IsKind (classify_words d u i) (not (u && not d))
classify_words-IsKind true true i = infra
classify_words-IsKind true false i = infra
classify_words-IsKind false true i = user
classify_words-IsKind false false true = infra
classify_words-IsKind false false false = unavailable

classify_message-IsKind : (s : Text) → IsKind (classify_message s) (not (blames_user s))
unfolding classify_message
classify_message-IsKind s =
    classify_words-IsKind (names_dependency s) (names_user s) (names_infra s)

-- A service call that failed is moved to another candidate exactly when there is one, unless the
-- route was found and the lowered message names a user's failure and no dependency failure.
pub should_failover-classify_service_error :
    (exc : Exception) (route_failure alternative : Bool)
    → should_failover (classify_service_error exc route_failure) alternative
      ≡ (alternative && (route_failure || not (blames_user (lower (full_message exc)))))
unfolding classify_service_error should_failover
should_failover-classify_service_error exc route_failure false = refl
should_failover-classify_service_error exc true true = IsKind-should_failover route
should_failover-classify_service_error exc false true =
    IsKind-should_failover (classify_message-IsKind (lower (full_message exc)))

-- A task result is moved to another candidate exactly if its status, stripped and in capitals, is
-- FAILED_INFRA or FAILED_DEPENDENCY and there is another candidate.
pub should_failover-classify_task_result_status :
    (status : Text) (alternative : Bool)
    → should_failover (classify_task_result_status status) alternative ≡ (
        alternative
        && (upper (strip status) == codes "FAILED_INFRA"
            || upper (strip status) == codes "FAILED_DEPENDENCY"))
unfolding classify_task_result_status should_failover
should_failover-classify_task_result_status status false = refl
should_failover-classify_task_result_status status true =
    split
      (upper (strip status) == codes "FAILED_INFRA"
        || upper (strip status) == codes "FAILED_DEPENDENCY")
      (upper (strip status) == codes "FAILED_USER")
  where
    split :
        (moved users : Bool)
        → should_failover
            (if moved then remote_infra_failed else (if users then remote_user_failed else []))
            true
          ≡ moved
    split true users = IsKind-should_failover infra
    split false true = IsKind-should_failover user
    split false false = should_failover_empty
