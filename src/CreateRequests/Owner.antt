-- ===== src/CreateRequests/Owner.antt =====
-- A creation request has one owner: who repeats it while it is being served is told to wait.
use new_pycloud.Base.{
  ℕ, ◌-◌, ◌≡◌, ◌≤◌, ap, ◌∙◌, Bool, true, false, not, some, if◌then◌else◌, ◌==◌, nat_eq, list_eq,
  length, take, arith,
}
use new_pycloud.Base.Dict.{get, keys, HasUniqueKeys}
use new_pycloud.Base.Text.{Text, strip, is_nonempty}
use new_pycloud.CreateRequests.{
  CreateRequestRecord, Table, max_records, is_creating, is_stale, drop_oldest, erase_all, by_age,
  prune_create_requests, Begun, begun, collision, begin_create_request,
}
use new_pycloud.CreateRequests.Bounded.{
  chosen, get-chosen, chosen-HasUniqueKeys, length-drop_oldest, get-drop_oldest, length-chosen-not,
  creating_not_stale,
}

abbrev pub creating_count : Table → ℕ
creating_count m = length (chosen is_creating m)

abbrev pub lives : (Text → Bool) → Table → Table
lives exists = chosen λ r. not (is_stale exists r)

-- The first cut leaves no more than the limit, if so many are creating.
first_cut-le :
    (m : Table)
    → HasUniqueKeys m
    → creating_count m ≤ max_records
    → length (drop_oldest (λ r. not (is_creating r)) m) ≤ max_records
first_cut-le m u h =
    omega
      (arith, h, length-drop_oldest (λ r. not (is_creating r)) m u, length-chosen-not is_creating m)

drop_oldest_none :
    (p : CreateRequestRecord → Bool) (m : Table) → length m ≤ max_records → drop_oldest p m ≡ m
unfolding drop_oldest erase_all
drop_oldest_none p m h =
    let none_over : length m - max_records ≡ 0 = omega (arith, h) in
    ap (λ n. erase_all (take n (keys (by_age (chosen p m)))) m) none_over

-- A request that is being served stays in the table through a pruning, if no more than the limit
-- are being served at a time.
pub prune_create_requests-creating :
    (exists : Text → Bool) (id : Text) (r : CreateRequestRecord) (m : Table)
    → HasUniqueKeys m
    → creating_count m ≤ max_records
    → get id m ≡ some r
    → is_creating r ≡ true
    → get id (prune_create_requests exists m) ≡ some r
unfolding prune_create_requests
prune_create_requests-creating exists id r m u few found served =
    let live = lives exists m in
    let v = chosen-HasUniqueKeys (λ r. not (is_stale exists r)) m u in
    let there : get id live ≡ some r =
      ground (arith, get-chosen (λ r. not (is_stale exists r)) id m u, found, served) in
    let kept =
      get-drop_oldest (λ r. not (is_creating r)) live v id r there (ground (arith, served)) in
    ap (get id) (
      drop_oldest_none (λ r. true) (drop_oldest (λ r. not (is_creating r)) live)
        (first_cut-le live v (omega (arith, few, creating_not_stale exists m))))
    ∙ kept

abbrev pub table_of : Begun → Table
table_of (begun owner m) = m
table_of (collision m) = m

-- While a request is being served, and no more than the limit are, whoever begins it again with the
-- same fingerprint is not told to create the resource, and with another fingerprint is refused.
pub begin_create_request-served :
    (exists : Text → Bool) (now : ℕ) (request_id fingerprint : Text) (r : CreateRequestRecord)
    (m : Table)
    → HasUniqueKeys m
    → creating_count m ≤ max_records
    → is_nonempty (strip request_id) ≡ true
    → get (strip request_id) m ≡ some r
    → is_creating r ≡ true
    → begin_create_request exists now request_id fingerprint m ≡ (
        if r.fingerprint == fingerprint
        then begun false (prune_create_requests exists m)
        else collision (prune_create_requests exists m))
unfolding begin_create_request
begin_create_request-served exists now request_id fingerprint r m u few named found served =
    let still = prune_create_requests-creating exists (strip request_id) r m u few found served in
    rw (still, named)
