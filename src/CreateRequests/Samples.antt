-- ===== src/CreateRequests/Samples.antt =====
-- A table with one request that is being served.
use new_pycloud.Base.{
  ◌≡◌, ◌≤◌, refl, true, false, [], ◌∷◌, length, some, ◌==◌, Bool, nat_eq, list_eq, keep,
  if◌then◌else◌, arith,
}
use new_pycloud.Base.Dict.{get, insert, erase}
use new_pycloud.Base.Text.{is_nonempty, codes, strip, lstrip, Text}
use new_pycloud.CreateRequests.{
  CreateRequestRecord, Table, max_records, is_creating, new_record, begin_create_request, begun,
  collision, prune_create_requests, drop_oldest, erase_all, by_age, insert_by_age,
}
use new_pycloud.CreateRequests.Owner.{begin_create_request-served}
use new_pycloud.CreateRequests.Steps.{Reach, empty, later, begins_one, IsLimited, Reach-IsLimited}

abbrev all_stand : Text → Bool
all_stand id = true

abbrev served : Table
served = (codes "q", new_record 5 (codes "f")) ∷ []

served-Reach : Reach served
unfolding begin_create_request prune_create_requests drop_oldest erase_all by_age insert_by_age keep
    get insert erase strip lstrip
served-Reach = later empty (begins_one all_stand 5 (codes "q") (codes "f"))

Reach-IsLimited_example : IsLimited served
Reach-IsLimited_example = Reach-IsLimited served-Reach

few : length (keep (λ (e : Text × CreateRequestRecord). is_creating e.1) served) ≤ max_records
unfolding keep
few = omega arith

named : is_nonempty (strip (codes "q")) ≡ true
unfolding strip lstrip
named = refl

at_q : get (strip (codes "q")) served ≡ some (new_record 5 (codes "f"))
unfolding strip lstrip get
at_q = refl

begin_create_request-served_example :
    begin_create_request all_stand 9 (codes "q") (codes "other") served ≡ (
      if codes "f" == codes "other"
      then begun false (prune_create_requests all_stand served)
      else collision (prune_create_requests all_stand served))
begin_create_request-served_example =
    begin_create_request-served all_stand 9 (codes "q") (codes "other") (new_record 5 (codes "f"))
      served Reach-IsLimited_example.0 few named at_q refl
