-- ===== src/Http/Pool/Request/Samples.antt =====
-- A request on which the theorem is evaluated.
use new_pycloud.Base.{ℕ, zero, suc, ◌≤◌, ◌≡◌, false, [], none, some, if◌then◌else◌}
use new_pycloud.Base.Text.{codes}
use new_pycloud.Base.Int.{pos}
use new_pycloud.Http.Pool.Request.{
  responded, connection_error, Attempt, raised_connection_error, retry_allowed, request,
}
use new_pycloud.Http.Pool.Request.Attempts.{IsPaired, acquire_count, request-IsPaired}

-- A GET that fails once and is answered the second time.
abbrev second_time : ℕ → Attempt
second_time zero = record { acquired = some 1; exchange = connection_error }
second_time (suc n) = record {
  acquired = some 2;
  exchange =
      responded
        (record { status = 200; will_close = false; connection_header = []; body_length = 3 });
}

request-IsPaired_example :
    IsPaired 0 (request (codes "get") none (some (pos 8)) second_time).1
    × (acquire_count (request (codes "get") none (some (pos 8)) second_time).1
        ≤ (if retry_allowed (codes "get") none then 2 else 1))
    × ((request (codes "get") none (some (pos 8)) second_time).0 ≡ raised_connection_error
        → acquire_count (request (codes "get") none (some (pos 8)) second_time).1
          ≡ (if retry_allowed (codes "get") none then 2 else 1))
request-IsPaired_example = request-IsPaired (codes "get") none (some (pos 8)) second_time
