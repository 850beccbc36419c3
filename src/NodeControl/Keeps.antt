-- ===== src/NodeControl/Keeps.antt =====
-- Each call of Stop and Calls keeps the active ids those of the unfinished tasks.
use new_pycloud.Base.{
  ℕ, ◌≡◌, refl, subst, ◌⊎◌, inl, inr, false, not, ◌&&◌, List, [], ◌∷◌, if_either, elim_either, ◌==◌,
  ltb, nat_beq, nat_eq, list_eq, arith,
}
use new_pycloud.Base.Dict.{get, insert}
use new_pycloud.Base.Text.{Text, codes, strip, is_nonempty}
use new_pycloud.NodeControl.{
  TaskResult, TaskPoolState, NodeControlState, is_terminal_status, is_running, has_pool_token,
}
use new_pycloud.NodeControl.Submit.{withdraw, count_task}
use new_pycloud.NodeControl.Stop.{
  fail_task_pool_tasks, is_unfinished_of, stopped_task, stop_task_pool_resource, CloseError,
  close_task_pool, close_reason, handle_task_pool_resource_health, is_of, forget_pool,
  is_create_in_progress, refreshed_lease, owner_timeout, forget_pools,
  prune_inactive_resource_history,
}
use new_pycloud.NodeControl.Calls.{
  forget_result, forget_results, is_open_job_task, is_queued_job_task, cancel_task, cancelled_job,
  CancelError, CancelCounts, cancel_pool_job, cancel_message, HeartbeatError, beaten_pool,
  heartbeat_task_pool,
}
use new_pycloud.NodeControl.Consistent.{Keeps, Keeps-refl, Keeps-trans}
use new_pycloud.NodeControl.Changes.{
  Finishes, change_where-Keeps, erase_where-Keeps, erase-Keeps, others-Keeps, pools-Keeps,
}

stopped-Finishes :
    (now : ℕ) (id reason : Text)
    → Finishes (is_unfinished_of id) (is_unfinished_of id) (stopped_task now reason)
stopped-Finishes now id reason = record {
  names = λ k t h. h;
  good = λ next k t h. (h.0, refl);
  opens = λ t. ground arith;
  leases = λ t. refl;
}

pub fail_task_pool_tasks-Keeps :
    (now : ℕ) (reason : Text) (p : TaskPoolState) (n : NodeControlState)
    → Keeps n (fail_task_pool_tasks now reason p n).1
unfolding fail_task_pool_tasks
fail_task_pool_tasks-Keeps now reason p n =
    if_either (λ (r : ℕ × NodeControlState). Keeps n r.1) (is_nonempty (strip p.pool_id))
      (others-Keeps _ _ _ _ n _
        (change_where-Keeps _ _ _ (stopped-Finishes now (strip p.pool_id) reason) n))
      (Keeps-refl n)

pub stop_task_pool_resource-Keeps :
    (now : ℕ) (reason key : Text) (p : TaskPoolState) (n : NodeControlState)
    → Keeps n (stop_task_pool_resource now reason key p n)
unfolding stop_task_pool_resource
stop_task_pool_resource-Keeps now reason key p n =
    others-Keeps _ _ _ _ n _ (fail_task_pool_tasks-Keeps now _ p n)

pub count_task-Keeps : (pool_id : Text) (n : NodeControlState) → Keeps n (count_task pool_id n)
unfolding count_task
count_task-Keeps pool_id n =
    elim_either (Keeps n) (get (strip pool_id) n.task_pools) (Keeps-refl n) (λ p. pools-Keeps _ n)

pub withdraw-Keeps : (id : Text) (lease : ℕ) (n : NodeControlState) → Keeps n (withdraw id lease n)
unfolding withdraw
withdraw-Keeps id lease n =
    elim_either (Keeps n) (get id n.pool_tasks) (Keeps-refl n)
      (λ t. if_either (Keeps n) (nat_beq t.lease_id lease) (erase-Keeps id n) (Keeps-refl n))

forget_result-Keeps : (id : Text) (n : NodeControlState) → Keeps n (forget_result id n)
unfolding forget_result
forget_result-Keeps id n = elim_either (Keeps n) (get id n.pool_tasks) (Keeps-refl n) (λ t.
    if_either (Keeps n) (is_nonempty id && is_terminal_status t.status) (erase-Keeps id n)
      (Keeps-refl n))

pub forget_results-Keeps :
    (results : List TaskResult) (n : NodeControlState) → Keeps n (forget_results results n)
unfolding forget_results
forget_results-Keeps [] n = Keeps-refl n
forget_results-Keeps (r ∷ rs) n =
    Keeps-trans n _ _ (forget_result-Keeps (strip r.task_id) n) (forget_results-Keeps rs _)

forget_pool-Keeps : (id : Text) (n : NodeControlState) → Keeps n (forget_pool id n)
unfolding forget_pool
forget_pool-Keeps id n =
    others-Keeps _ _ n.stops n.signals n _ (erase_where-Keeps (is_of (strip id)) n)

forget_pools-Keeps : (ids : List Text) (n : NodeControlState) → Keeps n (forget_pools ids n)
unfolding forget_pools
forget_pools-Keeps [] n = Keeps-refl n
forget_pools-Keeps (id ∷ ids) n =
    Keeps-trans n _ _ (forget_pool-Keeps id n) (forget_pools-Keeps ids (forget_pool id n))

pub prune_inactive_resource_history-Keeps :
    (limit : ℕ) (n : NodeControlState) → Keeps n (prune_inactive_resource_history limit n)
unfolding prune_inactive_resource_history
prune_inactive_resource_history-Keeps limit n = forget_pools-Keeps _ n

pub handle_task_pool_resource_health-Keeps :
    (now : ℕ) (key : Text) (p : TaskPoolState) (n : NodeControlState)
    → Keeps n (handle_task_pool_resource_health now key p n)
unfolding handle_task_pool_resource_health
handle_task_pool_resource_health-Keeps now key p n =
    let over = ltb p.lease_expire_at now in
    if_either (Keeps n) (is_create_in_progress p)
      (if_either (Keeps n) over (pools-Keeps (insert key (refreshed_lease now p) n.task_pools) n)
        (Keeps-refl n))
      (if_either (Keeps n) (not (is_running p)) (Keeps-refl n) (
        if_either (Keeps n) over (stop_task_pool_resource-Keeps now owner_timeout key p n) (
          if_either (Keeps n) (ltb 0 p.alive_workers)
            (pools-Keeps (insert key (record p { degraded = false }) n.task_pools) n)
            (Keeps-refl n))))

-- A predicate on what a call returns, where it does not raise.
abbrev pub OnReturn {ℓ κ} : {E A : Type ℓ} → (A → Type κ) → E ⊎ A → Type κ
OnReturn P (inl e) = Unit
OnReturn P (inr a) = P a

pub on_return {ℓ κ} :
    {E A : Type ℓ} (P : A → Type κ) {r : E ⊎ A} {a : A} → OnReturn P r → r ≡ inr a → P a
on_return P h e = subst (OnReturn P) e h

close_task_pool-OnReturn :
    (now : ℕ) (owner pool_id token reason : Text) (n : NodeControlState)
    → OnReturn (Keeps n) (close_task_pool now owner pool_id token reason n)
unfolding close_task_pool
close_task_pool-OnReturn now owner pool_id token reason n =
    let Q : CloseError ⊎ NodeControlState → Type 0 = OnReturn (Keeps n) in
    elim_either Q (get (strip pool_id) n.task_pools) tt (λ p.
      if_either Q (not (p.owner_client_id == strip owner)) tt (
        if_either Q (has_pool_token token p n)
          (stop_task_pool_resource-Keeps now (close_reason reason p) (strip pool_id) p n) tt))

pub close_task_pool-Keeps :
    (now : ℕ) (owner pool_id token reason : Text) (n m : NodeControlState)
    → close_task_pool now owner pool_id token reason n ≡ inr m
    → Keeps n m
close_task_pool-Keeps now owner pool_id token reason n m =
    on_return (Keeps n) (close_task_pool-OnReturn now owner pool_id token reason n)

heartbeat_task_pool-OnReturn :
    (now : ℕ) (owner pool_id token : Text) (n : NodeControlState)
    → OnReturn (Keeps n) (heartbeat_task_pool now owner pool_id token n)
unfolding heartbeat_task_pool
heartbeat_task_pool-OnReturn now owner pool_id token n =
    let Q : HeartbeatError ⊎ NodeControlState → Type 0 = OnReturn (Keeps n) in
    elim_either Q (get (strip pool_id) n.task_pools) tt (λ p.
      if_either Q (not (p.owner_client_id == strip owner)) tt (
        if_either Q (not (has_pool_token token p n)) tt (
          if_either Q (p.status == codes "RUNNING")
            (pools-Keeps (insert (strip pool_id) (beaten_pool now p) n.task_pools) n) tt)))

pub heartbeat_task_pool-Keeps :
    (now : ℕ) (owner pool_id token : Text) (n m : NodeControlState)
    → heartbeat_task_pool now owner pool_id token n ≡ inr m
    → Keeps n m
heartbeat_task_pool-Keeps now owner pool_id token n m =
    on_return (Keeps n) (heartbeat_task_pool-OnReturn now owner pool_id token n)

cancel-Finishes :
    (now : ℕ) (pool_id job_id message : Text)
    → Finishes
        (is_open_job_task pool_id job_id)
        (is_queued_job_task pool_id job_id)
        (cancel_task now message)
cancel-Finishes now pool_id job_id message = record {
  names = λ k t h. ground (arith, h);
  good = λ next k t h. ground (arith, h);
  opens = λ t. ground arith;
  leases = λ t. ground arith;
}

cancelled_job-Keeps :
    (now : ℕ) (pool_id job_id message : Text) (n : NodeControlState)
    → Keeps n (cancelled_job now pool_id job_id message n)
unfolding cancelled_job
cancelled_job-Keeps now pool_id job_id message n =
    others-Keeps n.task_pools _ n.stops n.signals n _
      (change_where-Keeps _ _ _ (cancel-Finishes now pool_id job_id message) n)

cancel_pool_job-OnReturn :
    (now : ℕ) (pool_id token job_id reason : Text) (n : NodeControlState)
    → OnReturn
        (λ (r : CancelCounts × NodeControlState). Keeps n r.1)
        (cancel_pool_job now pool_id token job_id reason n)
unfolding cancel_pool_job
cancel_pool_job-OnReturn now pool_id token job_id reason n =
    let P : CancelCounts × NodeControlState → Type 0 = λ r. Keeps n r.1 in
    let Q : CancelError ⊎ (CancelCounts × NodeControlState) → Type 0 = OnReturn P in
    if_either Q (not (is_nonempty (strip job_id))) tt (
      elim_either Q (get (strip pool_id) n.task_pools) tt (λ p.
        if_either Q (has_pool_token token p n)
          (Keeps-trans n
            (cancelled_job now (strip pool_id) (strip job_id) (cancel_message reason (strip job_id))
              n)
            _
            (cancelled_job-Keeps now (strip pool_id) (strip job_id)
              (cancel_message reason (strip job_id)) n)
            (pools-Keeps _ _))
          tt))

pub cancel_pool_job-Keeps :
    (now : ℕ) (pool_id token job_id reason : Text) (counts : CancelCounts) (n m : NodeControlState)
    → cancel_pool_job now pool_id token job_id reason n ≡ inr (counts, m)
    → Keeps n m
cancel_pool_job-Keeps now pool_id token job_id reason counts n m =
    on_return (λ (r : CancelCounts × NodeControlState). Keeps n r.1)
      (cancel_pool_job-OnReturn now pool_id token job_id reason n)
