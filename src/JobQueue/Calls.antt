-- ===== src/JobQueue/Calls.antt =====
-- The calls of clients: submit_job, get_job, cancel_job, reorder_job, and start and close. Each is
-- what it does to the manager under the lock. The SHA-256 digest of a token is a parameter.
use new_pycloud.Base.{
  ℕ, ◌+◌, ltb, Bool, true, false, not, ◌&&◌, ◌||◌, List, [], ◌∷◌, Option, none, some, if◌then◌else◌,
  map, ◌==◌, nat_eq, list_eq,
}
use new_pycloud.Base.Dict.{get, insert}
use new_pycloud.Base.Text.{Text, codes, strip, lower, is_nonempty}
use new_pycloud.Base.Int.{ℤ, pos_part}
use new_pycloud.JobQueue.{
  waiting, running, cancelled, is_terminal, is_waiting, JobState, Thread, no_thread, at_top, ended,
  Manager, mem, prune_waiting_order, prune_from, remove_waiting_job, insert_waiting_job,
  is_pickable,
}

abbrev pub is_alive : Thread → Bool
is_alive no_thread = false
is_alive ended = false
is_alive _ = true

-- Nothing runs, or what runs is gone or terminal.
abbrev pub running_is_stale : Manager → Bool
running_is_stale m = elim (get m.running_job_id m.jobs) [
  | none ↦ true
  | some s ↦ is_terminal s.status
]

-- `_detach_stale_running_locked`: the manager, and the executor to be closed.
unfoldable pub detach_stale_running : Manager → Manager × Option ℕ
detach_stale_running m =
    if is_nonempty m.running_job_id && running_is_stale m
    then (
      record m { running_job_id = []; current_executor = none },
      elim m.current_executor [
        | none ↦ none
        | some e ↦ elim m.shared_pool [
          | none ↦ some e
          | some shared ↦ if e == shared.executor then none else some e
        ]
      ],
    )
    else (m, none)

-- `_ensure_scheduler_thread_locked`
unfoldable pub ensure_scheduler_thread : Manager → Manager
ensure_scheduler_thread m =
    if m.stop || not m.started || not (is_nonempty m.controlplane_target) || is_alive m.thread
    then m
    else record m { thread = at_top }

unfoldable pub start : Text → Manager → Manager
start target m =
    let m' : Manager = record m { controlplane_target = strip target; started = true } in
    if is_alive m.thread then m' else record m' { stop = false; thread = at_top }

-- What a caller sends, and what `normalize_inbound_payload` made of it.
pub record Submission : Type 0 where
  pub job_id : Text
  pub client_id : Text
  pub priority : ℤ
  pub names_policy : Bool
  pub uses_job_hooks : Bool
  pub auth_token : Text

-- The two ValueErrors of a submission.
pub data SubmitResult : Type 0 where
  policy_not_supported : SubmitResult
  hooks_required : SubmitResult
  submitted : (manager : Manager) (state : JobState) → SubmitResult

pub record Environment : Type 0 where
  pub sha256_hex : Text → Text
  pub auth_ttl_sec : ℕ

abbrev pub auth_token_digest : Environment → Text → Text
auth_token_digest env token = if is_nonempty (strip token) then env.sha256_hex (strip token) else []

abbrev pub or_text : Text → Text → Text
or_text s d = if is_nonempty s then s else d

-- The JobState of a submission; `fresh_job` and `fresh_client` are the random ids.
unfoldable pub new_job : Environment → Text → Text → ℕ → ℕ → Submission → JobState
new_job env fresh_job fresh_client now seq sub =
    let digest = auth_token_digest env sub.auth_token in
    record {
      job_id = or_text (strip sub.job_id) fresh_job;
      client_id = or_text (strip sub.client_id) fresh_client;
      priority = pos_part sub.priority;
      status = waiting;
      submitted_at = now;
      started_at = none;
      finished_at = none;
      cancel_requested = false;
      error = [];
      enqueue_seq = seq;
      owner_token_digest = digest;
      owner_token_expires_at = if is_nonempty digest then some (now + env.auth_ttl_sec) else none;
    }

-- The block of `submit_job` under the lock, for the state it has made.
unfoldable pub enqueue : JobState → Manager → Manager
unfolding ensure_scheduler_thread insert_waiting_job
enqueue s m =
    let jobs = insert s.job_id s m.jobs in
    ensure_scheduler_thread (record m {
      enqueue_seq = s.enqueue_seq;
      jobs = jobs;
      waiting_order = insert_waiting_job jobs s m.waiting_order;
    })

unfoldable pub submit_job : Environment → Text → Text → ℕ → Submission → Manager → SubmitResult
unfolding detach_stale_running new_job enqueue
submit_job env fresh_job fresh_client now sub m =
    if sub.names_policy
    then policy_not_supported
    else if not sub.uses_job_hooks
    then hooks_required
    else (let m' = (detach_stale_running m).0 in
        let s = new_job env fresh_job fresh_client now (m'.enqueue_seq + 1) sub in
        submitted (enqueue s m') s)

-- `any(item.status == "WAITING" and not item.cancel_requested for item in jobs.values())`
abbrev pub any_pickable : List (Text × JobState) → Bool
any_pickable [] = false
any_pickable ((_, s) ∷ m) = is_pickable s || any_pickable m

unfoldable pub get_job : Text → Manager → Manager × Option JobState
unfolding detach_stale_running ensure_scheduler_thread
get_job id m =
    let m' = (detach_stale_running m).0 in
    (if any_pickable m'.jobs then ensure_scheduler_thread m' else m', get (strip id) m'.jobs)

-- No job, one of the two PermissionErrors, or the manager behind the call.
pub data CancelResult : Type 0 where
  no_such_job : CancelResult
  auth_expired : CancelResult
  auth_failed : CancelResult
  accepted : (manager : Manager) → CancelResult

abbrev pub is_expired : Option ℕ → ℕ → Bool
is_expired none now = false
is_expired (some at) now = ltb at now

abbrev pub cancel_waiting : ℕ → JobState → JobState
cancel_waiting now s = record s {
  status = cancelled;
  finished_at = some now;
  cancel_requested = true;
}

-- Behind the check of the token: `id` is stripped. For a job that waits the source calls get_job
-- behind this block, which takes the lock again.
unfoldable pub cancel_authorised : ℕ → Text → JobState → Manager → Manager
cancel_authorised now id s m = elim s.status [
  | waiting ↦ record m {
    jobs = insert id (cancel_waiting now s) m.jobs;
    waiting_order = remove_waiting_job s.job_id m.waiting_order;
  }
  | running ↦ record m { jobs = insert id (record s { cancel_requested = true }) m.jobs }
  | _ ↦ m
]

unfoldable pub cancel_job : Environment → ℕ → Text → Text → Manager → CancelResult
unfolding cancel_authorised
cancel_job env now job_id auth_token m = elim (get (strip job_id) m.jobs) [
  | none ↦ no_such_job
  | some s ↦
      let provided = auth_token_digest env auth_token in
      if is_nonempty s.owner_token_digest && is_expired s.owner_token_expires_at now
      then auth_expired
      else if is_nonempty s.owner_token_digest
          && (not (is_nonempty provided) || not (provided == s.owner_token_digest))
      then auth_failed
      else accepted (cancel_authorised now (strip job_id) s m)
]

-- An entry changes places with the one before it, or with the one behind it.
unfoldable pub move_up : Text → List Text → List Text
move_up id [] = []
move_up id (a ∷ []) = a ∷ []
move_up id (a ∷ b ∷ ids) =
    let rest = move_up id (b ∷ ids) in
    if a == id then a ∷ b ∷ ids else if b == id then b ∷ a ∷ ids else a ∷ rest

unfoldable pub move_down : Text → List Text → List Text
move_down id [] = []
move_down id (a ∷ []) = a ∷ []
move_down id (a ∷ b ∷ ids) =
    let rest = move_down id (b ∷ ids) in if a == id then b ∷ a ∷ ids else a ∷ rest

-- `none` is the ValueError of another direction.
unfoldable pub move : Text → Text → List Text → Option (List Text)
unfolding move_up move_down
move id direction order =
    if direction == codes "up"
    then some (move_up id order)
    else if direction == codes "down"
    then some (move_down id order)
    else none

-- The order in which the job certainly stands.
abbrev pub order_with : List (Text × JobState) → JobState → Text → List Text → List Text
order_with jobs s id order = if mem id order then order else insert_waiting_job jobs s order

-- The manager, and whether the call raised.
unfoldable pub reorder_job : Text → Text → Manager → Manager × Bool
unfolding move prune_from insert_waiting_job
reorder_job job_id direction m = elim (get (strip job_id) m.jobs) [
  | none ↦ (m, false)
  | some s ↦
      if not (is_pickable s)
      then (m, false)
      else (let order =
            order_with m.jobs s (strip job_id) (prune_waiting_order m.jobs m.waiting_order) in
          elim (move (strip job_id) (lower (strip direction)) order) [
            | none ↦ (record m { waiting_order = order }, true)
            | some moved ↦ (record m { waiting_order = moved }, false)
          ])
]

-- The first block of `close`.
abbrev pub close_state : ℕ → JobState → JobState
close_state now s =
    if is_waiting s.status
    then (record s {
      cancel_requested = true;
      status = cancelled;
      finished_at = elim s.finished_at [ none ↦ some now | some at ↦ some at ];
    })
    else s

abbrev pub close_states : ℕ → List (Text × JobState) → List (Text × JobState)
close_states now = map λ (id, s). (id, close_state now s)

unfoldable pub begin_close : ℕ → Manager → Manager
begin_close now m =
    let jobs = close_states now m.jobs in
    record m {
      stop = true;
      started = false;
      jobs =
          if is_nonempty m.running_job_id
          then elim (get m.running_job_id jobs) [
            | none ↦ jobs
            | some s ↦ insert m.running_job_id (record s { cancel_requested = true }) jobs
          ]
          else jobs;
    }

-- `self._thread = None`, behind the join of at most five seconds and outside of the lock.
abbrev pub forget_thread : Manager → Manager
forget_thread m = record m { thread = no_thread }

-- The second block of `close`.
abbrev pub drop_shared_pool : Manager → Manager
drop_shared_pool m = record m { shared_pool = none }
