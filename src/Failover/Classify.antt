-- ===== src/Failover/Classify.antt =====
-- The failure kinds of execution/failover.py: how an error is classified, and which kinds are
-- retried on another candidate. An exception is its text and, where it carries a dict, the two
-- entries of that dict which are read.
pub mod Kinds
pub mod Samples
use new_pycloud.Base.{
  Bool, true, false, ◌||◌, List, [], ◌∷◌, Option, none, some, if◌then◌else◌, ◌==◌, nat_eq, list_eq,
  keep,
}
use new_pycloud.Base.Text.{Text, codes, strip, lower, upper, contains, is_nonempty, join}

abbrev pub route_unavailable : Text
route_unavailable = codes "ROUTE_UNAVAILABLE"

abbrev pub staging_failed : Text
staging_failed = codes "STAGING_FAILED"

abbrev pub status_lookup_failed : Text
status_lookup_failed = codes "STATUS_LOOKUP_FAILED"

abbrev pub controlplane_unavailable : Text
controlplane_unavailable = codes "CONTROLPLANE_UNAVAILABLE"

abbrev pub submit_failed : Text
submit_failed = codes "SUBMIT_FAILED"

abbrev pub remote_infra_failed : Text
remote_infra_failed = codes "REMOTE_INFRA_FAILED"

abbrev pub remote_user_failed : Text
remote_user_failed = codes "REMOTE_USER_FAILED"

abbrev pub result_fetch_failed : Text
result_fetch_failed = codes "RESULT_FETCH_FAILED"

pub record ErrorData : Type 0 where
  pub error_type : Text
  pub error : Text

pub record Exception : Type 0 where
  pub message : Text
  pub attached : Option ErrorData

pub full_message : Exception → Text
full_message exc = elim exc.attached [
  | none ↦ strip exc.message
  | some d ↦ join (codes " ") (keep is_nonempty (strip exc.message ∷ d.error_type ∷ d.error ∷ []))
]

-- The words of a lowered message by which it is a dependency failure, a user's, or the system's.
pub names_dependency : Text → Bool
names_dependency lowered =
    contains (codes "dependencyerror") lowered
    || contains (codes "failed_dependency") lowered
    || contains (codes "dependency runtime error") lowered

pub names_user : Text → Bool
names_user lowered =
    contains (codes "usererror") lowered
    || contains (codes "failed_user") lowered
    || contains (codes "user error") lowered

pub names_infra : Text → Bool
names_infra lowered =
    contains (codes "infraerror") lowered
    || contains (codes "failed_infra") lowered
    || contains (codes "infra failure") lowered

abbrev pub classify_words : Bool → Bool → Bool → Text
classify_words dependency user infra =
    if dependency
    then remote_infra_failed
    else if user
    then remote_user_failed
    else if infra
    then remote_infra_failed
    else controlplane_unavailable

pub classify_message : Text → Text
unfolding names_dependency names_user names_infra
classify_message lowered =
    classify_words (names_dependency lowered) (names_user lowered) (names_infra lowered)

pub classify_service_error : Exception → Bool → Text
unfolding classify_message full_message
classify_service_error exc route_failure =
    if route_failure then route_unavailable else classify_message (lower (full_message exc))

pub classify_task_result_status : Text → Text
classify_task_result_status status_name =
    let normalized = upper (strip status_name) in
    if normalized == codes "FAILED_INFRA" || normalized == codes "FAILED_DEPENDENCY"
    then remote_infra_failed
    else (if normalized == codes "FAILED_USER" then remote_user_failed else [])

-- `text in {…}`
pub member : Text → List Text → Bool
member s [] = false
member s (t ∷ ts) = s == t || member s ts

abbrev failover_kinds : List Text
failover_kinds =
    route_unavailable ∷ staging_failed ∷ status_lookup_failed ∷ controlplane_unavailable
    ∷ submit_failed ∷ remote_infra_failed ∷ []

pub should_failover : Text → Bool → Bool
unfolding member
should_failover failure_kind has_alternative_candidate =
    if has_alternative_candidate then member (upper (strip failure_kind)) failover_kinds else false

pub should_degrade : Text → Bool → Bool → Bool
should_degrade failure_kind has_cached_candidate requires_route_aware_staging =
    if upper (strip failure_kind) == status_lookup_failed
    then if requires_route_aware_staging then has_cached_candidate else true
    else false
