-- ===== src/JobQueue/TaskPool/Samples.antt =====
-- A rebuilding of the pool, on which the theorems are evaluated.
use new_pycloud.Base.{◌+◌, ◌≡◌, true, some, nat_eq, list_eq}
use new_pycloud.Base.Text.{codes}
use new_pycloud.JobQueue.{SharedPool}
use new_pycloud.JobQueue.TaskPool.{PoolRequest, Answers, get_or_create_shared_pool}
use new_pycloud.JobQueue.TaskPool.Executors.{held, shared, created_by, get_or_create-held}

abbrev old_pool : SharedPool
old_pool = record {
  executor = 1;
  artifact_key = codes "k";
  current_mode = codes "arrow";
  last_used_at = 3;
}

abbrev request : PoolRequest
request = record { artifact_key = codes "k"; reset_pool = true }

abbrev answers_of_pool : Answers
answers_of_pool = record { pending = 0; resolved_mode = some (codes "arrow"); created = some 2 }

get_or_create-held_example :
    let r = get_or_create_shared_pool request answers_of_pool 9 (some old_pool) in
    held 1 (shared (some old_pool)) + held 1 (created_by request answers_of_pool 9 (some old_pool))
    ≡ held 1 (shared r.pool) + held 1 r.closing
get_or_create-held_example =
    get_or_create-held request answers_of_pool 9 (some old_pool) 1 (λ e. cc)
