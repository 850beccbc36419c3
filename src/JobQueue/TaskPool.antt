-- ===== src/JobQueue/TaskPool.antt =====
-- The task pool that jobs with the same code share: `_switch_pool_mode_for_job`,
-- `_get_or_create_shared_pool` and `_prepare_shared_pool_for_job`. What TaskPool and the policy
-- resolution answer is an argument; an executor is the identity of its object.
pub mod Executors
pub mod Samples
use new_pycloud.Base.{
  ℕ, ltb, Bool, true, false, Option, none, some, if◌then◌else◌, ◌==◌, nat_eq, list_eq,
}
use new_pycloud.Base.Text.{Text}
use new_pycloud.JobQueue.{SharedPool, Manager}

-- What a job asks for; its requested mode is what the policy resolution is given.
pub record PoolRequest : Type 0 where
  pub artifact_key : Text
  pub reset_pool : Bool

pub record Answers : Type 0 where
  -- `_pending_result_count` of the pool that is there.
  pub pending : ℕ
  -- `resolve_effective_policy`: the mode, or an exception.
  pub resolved_mode : Option Text
  -- `create_pool`: the new executor, or an exception.
  pub created : Option ℕ

-- `none` is an exception, which makes the caller build a new pool.
unfoldable pub switch_pool_mode : Bool → Answers → ℕ → SharedPool → Option SharedPool
switch_pool_mode reset_pool answers now p =
    if ltb 0 answers.pending
    then none
    else if reset_pool
    then none
    else elim answers.resolved_mode [
      | none ↦ none
      | some mode ↦ some (record p { current_mode = mode; last_used_at = now })
    ]

-- How the call ends: the pool that is shared now, the executor handed over to be closed, and the
-- one returned, or an exception.
pub record Prepared : Type 0 where
  pub pool : Option SharedPool
  pub closing : Option ℕ
  pub returned : Option ℕ

-- The part of `_get_or_create_shared_pool` that builds a pool, when no pool is shared any more.
unfoldable pub build_pool : PoolRequest → Answers → ℕ → Option ℕ → Prepared
build_pool q answers now closing = elim answers.created [
  | none ↦ record { pool = none; closing = closing; returned = none }
  | some e ↦ elim answers.resolved_mode [
    | none ↦ record { pool = none; closing = closing; returned = none }
    | some mode ↦ record {
      pool = some (record {
        executor = e;
        artifact_key = q.artifact_key;
        current_mode = mode;
        last_used_at = now;
      });
      closing = closing;
      returned = some e;
    }
  ]
]

unfoldable pub get_or_create_shared_pool : PoolRequest → Answers → ℕ → Option SharedPool → Prepared
unfolding switch_pool_mode build_pool
get_or_create_shared_pool q answers now none = build_pool q answers now none
get_or_create_shared_pool q answers now (some p) =
    if p.artifact_key == q.artifact_key
    then elim (switch_pool_mode q.reset_pool answers now p) [
      | some p' ↦ record { pool = some p'; closing = none; returned = some p.executor }
      | none ↦ build_pool q answers now (some p.executor)
    ]
    else build_pool q answers now (some p.executor)

-- The executor that a job gets is the current one.
unfoldable pub prepare_shared_pool : PoolRequest → Answers → ℕ → Manager → Manager
unfolding get_or_create_shared_pool
prepare_shared_pool q answers now m =
    let r = get_or_create_shared_pool q answers now m.shared_pool in
    record m {
      shared_pool = r.pool;
      current_executor = elim r.returned [ none ↦ m.current_executor | some e ↦ some e ];
    }
