-- ===== src/JobQueue/TaskPool/Executors.antt =====
-- What becomes of the executors.
use new_pycloud.Base.{
  ℕ, ◌+◌, ◌≡◌, ◌≢◌, Option, none, some, if◌then◌else◌, ◌==◌, nat_eq, list_eq, list_beq_iff, arith,
}
use new_pycloud.Base.Text.{Text}
use new_pycloud.JobQueue.{SharedPool}
use new_pycloud.JobQueue.TaskPool.{
  PoolRequest, Answers, switch_pool_mode, build_pool, get_or_create_shared_pool,
}

-- How often an executor is in one of the places.
abbrev pub held : ℕ → Option ℕ → ℕ
held e none = 0
held e (some d) = if d == e then 1 else 0

abbrev pub shared : Option SharedPool → Option ℕ
shared none = none
shared (some p) = some p.executor

-- The executor that the call creates: none, if it uses the pool that is there.
abbrev pub created_by : PoolRequest → Answers → ℕ → Option SharedPool → Option ℕ
created_by q answers now none = answers.created
created_by q answers now (some p) =
    if p.artifact_key == q.artifact_key
    then elim (switch_pool_mode q.reset_pool answers now p) [
      | none ↦ answers.created
      | some p' ↦ none
    ]
    else answers.created

-- No executor is lost by the preparation of a pool, if the policy can be resolved: the one that was
-- shared and the one that the call created are afterwards shared or handed over to be closed, each
-- once.
pub get_or_create-held :
    (q : PoolRequest) (answers : Answers) (now : ℕ) (pool : Option SharedPool) (e : ℕ)
    → answers.resolved_mode ≢ none
    → let r = get_or_create_shared_pool q answers now pool in
      held e (shared pool) + held e (created_by q answers now pool)
      ≡ held e (shared r.pool) + held e r.closing
unfolding get_or_create_shared_pool
get_or_create-held q answers now none e resolves = ground (arith, resolves)
get_or_create-held q answers now (some p) e resolves = ground (arith, resolves)

abbrev pub key_of : Option SharedPool → Option Text
key_of none = none
key_of (some p) = some p.artifact_key

-- The executor that the call returns is the shared one now, under the key that was asked for, so
-- that no job gets a pool with other code.
pub get_or_create-returned :
    (q : PoolRequest) (answers : Answers) (now : ℕ) (pool : Option SharedPool) (e : ℕ)
    → (get_or_create_shared_pool q answers now pool).returned ≡ some e
    → (shared (get_or_create_shared_pool q answers now pool).pool ≡ some e)
      × (key_of (get_or_create_shared_pool q answers now pool).pool ≡ some q.artifact_key)
unfolding get_or_create_shared_pool build_pool switch_pool_mode
get_or_create-returned q answers now none e h = ground arith
get_or_create-returned q answers now (some p) e h =
    ground (arith, list_beq_iff p.artifact_key q.artifact_key)
