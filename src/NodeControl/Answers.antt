-- ===== src/NodeControl/Answers.antt =====
-- The whole of `submit_pool_tasks` in controlplane/nodecontrol_state.py, its blocks one after
-- another. `others` is what other threads do to the state before a block.
use new_pycloud.Base.{
  ℕ, ◌+◌, ◌≡◌, ◌⊎◌, inl, inr, List, [], ◌∷◌, ◌++◌, Option, none, some, refl, map, All, All-append,
  ◌==◌, arith, nat_eq, list_eq,
}
use new_pycloud.Base.Text.{Text, strip}
use new_pycloud.NodeControl.{TaskState, NodeControlState}
use new_pycloud.NodeControl.Submit.{
  Refusal, submission_check, RejectCode, internal_error, duplicate_task, queue_full, Reserving,
  reserve_item, reserve_items, reserving, reserve, commit, prepare_failed, withdraw, count_task,
}
use new_pycloud.NodeControl.Reserve.{one_if, occurrences, occurrences-append_one}
use new_pycloud.NodeControl.Keeps.{OnReturn, on_return}

-- What decoding the payload and the executor do with an item.
pub data ItemOutcome : Type 0 where
  not_prepared refused taken : ItemOutcome

pub record SubmitAnswers : Type 0 where
  pub node : NodeControlState
  pub accepted : List Text
  pub rejected : List (Text × RejectCode)

abbrev pub reject_item : Text → NodeControlState → SubmitAnswers → SubmitAnswers
reject_item id n a = record {
  node = n;
  accepted = a.accepted;
  rejected = a.rejected ++ (id, internal_error) ∷ [];
}

abbrev pub accept_item : Text → NodeControlState → SubmitAnswers → SubmitAnswers
accept_item id n a = record { node = n; accepted = a.accepted ++ id ∷ []; rejected = a.rejected }

elim_return :
    {E B A : Type 0} (P : A → Type 0) (s : E ⊎ B) {f : B → A}
    → ((b : B) → P (f b))
    → OnReturn P (elim s [ inl e ↦ inl e | inr b ↦ inr (f b) ])
elim_return P (inl e) h = tt
elim_return P (inr b) h = h b

elim_outcome :
    (P : ItemOutcome → Type 0) (o : ItemOutcome)
    → P not_prepared
    → P refused
    → (o ≡ taken → P taken)
    → P o
elim_outcome P not_prepared p r t = p
elim_outcome P refused p r t = r
elim_outcome P taken p r t = t refl

-- The ids of the rejected items.
abbrev pub rejected_ids : List (Text × RejectCode) → List Text
rejected_ids = map λ p. p.0

rejected-append_one :
    (k : Text) (xs : List (Text × RejectCode)) (id : Text) (code : RejectCode)
    → occurrences k (rejected_ids (xs ++ (id, code) ∷ []))
      ≡ occurrences k (rejected_ids xs) + one_if (id == k)
rejected-append_one k [] id code = omega arith
rejected-append_one k (x ∷ xs) id code = omega (arith, rejected-append_one k xs id code)

reserve_item_answers :
    (k : Text) (capacity : ℕ) (tasks : List (Text × TaskState)) (item : Text) (r : Reserving)
    → occurrences k (reserve_item capacity tasks item r).items
        + occurrences k (rejected_ids (reserve_item capacity tasks item r).rejected)
      ≡ occurrences k r.items + occurrences k (rejected_ids r.rejected) + one_if (strip item == k)
unfolding reserve_item
reserve_item_answers k capacity tasks item r = ground (
  arith,
  occurrences-append_one k r.items (strip item),
  rejected-append_one k r.rejected (strip item) duplicate_task,
  rejected-append_one k r.rejected (strip item) queue_full,
)

reserved_or_rejected :
    (k : Text) (capacity : ℕ) (tasks : List (Text × TaskState)) (items : List Text) (r : Reserving)
    → occurrences k (reserve_items capacity tasks items r).items
        + occurrences k (rejected_ids (reserve_items capacity tasks items r).rejected)
      ≡ occurrences k r.items
        + occurrences k (rejected_ids r.rejected)
        + occurrences k (map strip items)
unfolding reserve_items
reserved_or_rejected k capacity tasks [] r = omega arith
reserved_or_rejected k capacity tasks (item ∷ items) r = omega (
  arith,
  reserve_item_answers k capacity tasks item r,
  reserved_or_rejected k capacity tasks items (reserve_item capacity tasks item r),
)

module _ (others : NodeControlState → NodeControlState) (outcome : Text → ItemOutcome) where
  -- A committed item, behind the block that committed it.
  unfoldable pub dispatch :
      Text → Text → Option ℕ × NodeControlState → SubmitAnswers → SubmitAnswers
  dispatch pool_id id (none, n) a = reject_item id n a
  dispatch pool_id id (some lease, n) a = elim (outcome id) [
    | taken ↦ accept_item id (count_task pool_id (others n)) a
    | _ ↦ reject_item id (withdraw id lease (others n)) a
  ]

  unfoldable pub submit_item : ℕ → Text → Text → Text → Text → SubmitAnswers → SubmitAnswers
  submit_item now pool_id client_id job_id id a = elim (outcome id) [
    | not_prepared ↦ reject_item id (prepare_failed id (others a.node)) a
    | _ ↦ dispatch pool_id id (commit now pool_id client_id job_id id (others a.node)) a
  ]

  unfoldable pub submit_items : ℕ → Text → Text → Text → List Text → SubmitAnswers → SubmitAnswers
  unfolding submit_item
  submit_items now pool_id client_id job_id [] a = a
  submit_items now pool_id client_id job_id (id ∷ ids) a =
      submit_items now pool_id client_id job_id ids (submit_item now pool_id client_id job_id id a)

  unfoldable pub submit_pool_tasks :
      ℕ → ℕ → Text → Text → Text → List Text → NodeControlState → Refusal ⊎ SubmitAnswers
  submit_pool_tasks now service_inflight pool_id token job_id items n =
      elim (submission_check pool_id token n) [
        | inl e ↦ inl e
        | inr p ↦
            let r = reserve service_inflight items n in
            inr (
              submit_items now pool_id p.pool_id job_id r.1.0
                (record { node = r.0; accepted = []; rejected = r.1.1 }))
      ]

  -- How often the answers name an id, as accepted or as rejected.
  abbrev answered : Text → SubmitAnswers → ℕ
  answered k a = occurrences k a.accepted + occurrences k (rejected_ids a.rejected)

  -- The executor took what is answered as accepted.
  abbrev IsTaken : Text → Type 0
  IsTaken id = outcome id ≡ taken

  abbrev AnswersOne : Text → Text → SubmitAnswers → SubmitAnswers → Type 0
  AnswersOne k id a b =
      (answered k b ≡ answered k a + one_if (id == k))
      × (All IsTaken a.accepted → All IsTaken b.accepted)

  reject_item-AnswersOne :
      (k id : Text) (n : NodeControlState) (a : SubmitAnswers)
      → AnswersOne k id a (reject_item id n a)
  reject_item-AnswersOne k id n a =
      (omega (arith, rejected-append_one k a.rejected id internal_error), λ h. h)

  accept_item-AnswersOne :
      (k id : Text) (n : NodeControlState) (a : SubmitAnswers)
      → outcome id ≡ taken
      → AnswersOne k id a (accept_item id n a)
  accept_item-AnswersOne k id n a took = (
    omega (arith, occurrences-append_one k a.accepted id),
    λ h. All-append IsTaken a.accepted (id ∷ []) h (took, tt),
  )

  dispatch-AnswersOne :
      (pool_id k id : Text) (r : Option ℕ × NodeControlState) (a : SubmitAnswers)
      → AnswersOne k id a (dispatch pool_id id r a)
  unfolding dispatch
  dispatch-AnswersOne pool_id k id (none, n) a = reject_item-AnswersOne k id n a
  dispatch-AnswersOne pool_id k id (some lease, n) a =
      let rejected = reject_item-AnswersOne k id (withdraw id lease (others n)) a in
      elim_outcome
        (λ o. AnswersOne k id a (elim o [
          | taken ↦ accept_item id (count_task pool_id (others n)) a
          | _ ↦ reject_item id (withdraw id lease (others n)) a
        ]))
        (outcome id) rejected rejected
        (accept_item-AnswersOne k id (count_task pool_id (others n)) a)

  submit_item-AnswersOne :
      (now : ℕ) (pool_id client_id job_id k id : Text) (a : SubmitAnswers)
      → AnswersOne k id a (submit_item now pool_id client_id job_id id a)
  unfolding submit_item
  submit_item-AnswersOne now pool_id client_id job_id k id a =
      let rest =
        dispatch-AnswersOne pool_id k id (commit now pool_id client_id job_id id (others a.node))
          a in
      elim_outcome
        (λ o. AnswersOne k id a (elim o [
          | not_prepared ↦ reject_item id (prepare_failed id (others a.node)) a
          | _ ↦ dispatch pool_id id (commit now pool_id client_id job_id id (others a.node)) a
        ]))
        (outcome id) (reject_item-AnswersOne k id (prepare_failed id (others a.node)) a) rest
        (λ took. rest)

  abbrev AnswersAll : Text → List Text → SubmitAnswers → SubmitAnswers → Type 0
  AnswersAll k ids a b =
      (answered k b ≡ answered k a + occurrences k ids)
      × (All IsTaken a.accepted → All IsTaken b.accepted)

  submit_items-AnswersAll :
      (now : ℕ) (pool_id client_id job_id k : Text) (ids : List Text) (a : SubmitAnswers)
      → AnswersAll k ids a (submit_items now pool_id client_id job_id ids a)
  unfolding submit_items
  submit_items-AnswersAll now pool_id client_id job_id k [] a = (omega arith, λ h. h)
  submit_items-AnswersAll now pool_id client_id job_id k (id ∷ ids) a =
      let one = submit_item-AnswersOne now pool_id client_id job_id k id a in
      let rest =
        submit_items-AnswersAll now pool_id client_id job_id k ids
          (submit_item now pool_id client_id job_id id a) in
      (omega (arith, one.0, rest.0), λ h. rest.1 (one.1 h))

  submit_pool_tasks-OnReturn :
      (now service_inflight : ℕ) (pool_id token job_id : Text) (items : List Text)
      (n : NodeControlState) (k : Text)
      → OnReturn
          (λ a. (answered k a ≡ occurrences k (map strip items)) × All IsTaken a.accepted)
          (submit_pool_tasks now service_inflight pool_id token job_id items n)
  unfolding submit_pool_tasks reserve reserving
  submit_pool_tasks-OnReturn now service_inflight pool_id token job_id items n k =
      elim_return (λ a. (answered k a ≡ occurrences k (map strip items)) × All IsTaken a.accepted)
        (submission_check pool_id token n)
        (λ p.
          let all =
            submit_items-AnswersAll now pool_id p.pool_id job_id k
              (reserve service_inflight items n).1.0
              (record {
                node = (reserve service_inflight items n).0;
                accepted = [];
                rejected = (reserve service_inflight items n).1.1;
              }) in
          (
            omega (
              arith,
              all.0,
              reserved_or_rejected k n.queue_capacity n.pool_tasks items
                  (reserving service_inflight n),
            ),
            all.1 tt,
          ))

  -- A submission that is not refused names each of its items, without the blanks around its id, in
  -- its answers: every id is accepted and rejected together as often as it is submitted, whatever
  -- other threads do between the blocks, and each accepted id is one that the executor took.
  pub submit_pool_tasks-answered :
      (now service_inflight : ℕ) (pool_id token job_id : Text) (items : List Text)
      (n : NodeControlState) (a : SubmitAnswers) (id : Text)
      → submit_pool_tasks now service_inflight pool_id token job_id items n ≡ inr a
      → (occurrences id a.accepted + occurrences id (rejected_ids a.rejected)
          ≡ occurrences id (map strip items))
        × All (λ k. outcome k ≡ taken) a.accepted
  submit_pool_tasks-answered now service_inflight pool_id token job_id items n a id =
      on_return (λ b. (answered id b ≡ occurrences id (map strip items)) × All IsTaken b.accepted)
        (submit_pool_tasks-OnReturn now service_inflight pool_id token job_id items n id)
