-- ===== src/Executor/Replays.antt =====
-- handlers.go: a task that comes twice, and a submission of a version that is not supported.
use hourglass_monorepo.Prelude.{
  ◌≡◌, ◌≢◌, refl, ap, sym, ◌∙◌, Bool, true, false, arith, ok, err, Result-cases, Bool-cases, inl,
  inr, nat_beq, not_empty, [], ◌∷◌, some, length, ◌&&◌,
}
use hourglass_monorepo.Text.{Bytes, to_lower, codes, has_prefix}
use hourglass_monorepo.Types.{TaskResult}
use hourglass_monorepo.Messages.{encode_task_submission_message_versioned}
use hourglass_monorepo.Session.Setup.{TaskSubmission}
use hourglass_monorepo.Executor.{
  ExecutorBackend, ExecutorError, ProcessedTasks, already_processed, empty_avs_address,
  validate_task_submission, validate_task_signature, verify_submission,
  construct_task_submission_message,
}
use hourglass_monorepo.Peering.{OperatorSet}
use hourglass_monorepo.Executor.Honest.{Aggregates}
use hourglass_monorepo.Executor.Tasks.{
  Performers, check_received_task, run_received_task, handle_received_task, submit_task,
}
use hourglass_monorepo.Executor.Badger.{
  ExecutorKv, ExecutorValue, BadgerPerformerStore, badger_tasks, badger_remembers,
}
use hourglass_monorepo.Executor.Stores.{PerformerStore, memory_tasks, mark_task_processed}

module _ (b : ExecutorBackend) (operator_address : Bytes) (performers : Performers) where
  -- A task that the store has as processed passes no check.
  processed_fails :
      (task : TaskSubmission)
      → (e : ExecutorError) × (check_received_task b operator_address performers true task ≡ err e)
  unfolding check_received_task
  processed_fails task = elim (Bool-cases (not_empty (to_lower task.avs_address))) [
    | inl e ↦ (already_processed, rw e refl)
    | inr e ↦ (empty_avs_address, rw e refl)
  ]

  module _ {S : Type 0} (tasks : ProcessedTasks S) where
    -- What a submission that was accepted did.
    record Accepted (s : S) (req : TaskSubmission) (s' : S) (result : TaskResult) : Type 0 where
      was_new : tasks.is_task_processed s req.task_id ≡ false
      marked : s' ≡ tasks.mark_task_processed s req.task_id
      ran : run_received_task b operator_address performers req ≡ ok result

    submit_task-Accepted :
        (s s' : S) (req : TaskSubmission) (result : TaskResult)
        → submit_task b operator_address performers tasks s req ≡ ok (s', result)
        → Accepted s req s' result
    unfolding submit_task handle_received_task
    submit_task-Accepted s s' req result h =
        elim (Result-cases (validate_task_submission b operator_address req)) [
          | inr (e, v) ↦ absurd (ground (arith, v, h))
          | inl (u, v) ↦
              elim (Result-cases (
                check_received_task b operator_address performers
                  (tasks.is_task_processed s req.task_id) req)) [
                    | inr (e, c) ↦ absurd (ground (arith, v, c, h))
                    | inl (u', c) ↦
                        elim (Result-cases (run_received_task b operator_address performers req)) [
                          | inr (e, r) ↦ absurd (ground (arith, v, c, r, h))
                          | inl (out, r) ↦ record {
                            was_new = new_one s req u' c;
                            marked = ground (arith, v, c, r, h);
                            ran = r ∙ ground (arith, v, c, r, h);
                          }
                        ]
                  ]
        ]
      where
        new_one :
            (s : S) (req : TaskSubmission) (u : Unit {0})
            → check_received_task b operator_address performers
                (tasks.is_task_processed s req.task_id)
                req
              ≡ ok u
            → tasks.is_task_processed s req.task_id ≡ false
        new_one s req u c = elim (Bool-cases (tasks.is_task_processed s req.task_id)) [
          | inr new ↦ new
          | inl old ↦ absurd (
              ground (
                arith,
                sym (ap (λ p. check_received_task b operator_address performers p req) old) ∙ c,
                (processed_fails req).1,
              ))
        ]

    -- Over a store that remembers a task, the task is refused once it was accepted.
    remembered_once :
        (s s' : S) (req again : TaskSubmission) (result : TaskResult)
        → tasks.is_task_processed (tasks.mark_task_processed s req.task_id) req.task_id ≡ true
        → submit_task b operator_address performers tasks s req ≡ ok (s', result)
        → again.task_id ≡ req.task_id
        → (e : ExecutorError) × (submit_task b operator_address performers tasks s' again ≡ err e)
    unfolding submit_task handle_received_task
    remembered_once s s' req again result remembers h same =
        let a = submit_task-Accepted s s' req result h in
        let old : tasks.is_task_processed s' again.task_id ≡ true =
          ap (λ t. tasks.is_task_processed t again.task_id) a.marked
          ∙ ap (tasks.is_task_processed (tasks.mark_task_processed s req.task_id)) same
          ∙ remembers in
        elim (Result-cases (validate_task_submission b operator_address again)) [
          | inr (e, v) ↦ (e, rw v refl)
          | inl (u, v) ↦ ((processed_fails again).0, rw (v, old, (processed_fails again).1) refl)
        ]

  -- A submission that passes the checks has a task id.
  id_named :
      (id : Bytes) (rest : Bool) → (nat_beq (length id) 66 && rest) ≡ true → not_empty id ≡ true
  id_named [] rest h = absurd (ground arith)
  id_named (x ∷ id) rest h = refl

  valid_named :
      (req : TaskSubmission) (u : Unit {0})
      → validate_task_submission b operator_address req ≡ ok u
      → not_empty req.task_id ≡ true
  unfolding validate_task_submission
  valid_named req u h =
      elim (Bool-cases (
        nat_beq (length req.task_id) 66
        && (has_prefix (codes "0x") req.task_id && b.is_hash_text req.task_id))) [
          | inl e ↦ id_named req.task_id _ e
          | inr e ↦ absurd (ground (arith, e, h))
        ]

  submitted_named :
      {S : Type 0} (tasks : ProcessedTasks S) (s s' : S) (req : TaskSubmission)
      (result : TaskResult)
      → submit_task b operator_address performers tasks s req ≡ ok (s', result)
      → not_empty req.task_id ≡ true
  unfolding submit_task
  submitted_named tasks s s' req result h =
      elim (Result-cases (validate_task_submission b operator_address req)) [
        | inl (u, v) ↦ valid_named req u v
        | inr (e, v) ↦ absurd (ground (arith, v, h))
      ]

  -- Over an open Badger store, a task that was accepted is refused when a submission with its id comes
  -- right after it, where a key of the database that was set is found.
  pub submit_task_once :
      {D : Type 0} (kv : ExecutorKv D) (s s' : BadgerPerformerStore D) (req again : TaskSubmission)
      (result : TaskResult)
      → ((d : D) (k : Bytes) (v : ExecutorValue) → kv.find_key (kv.set_key d k v) k ≡ some v)
      → s.closed ≡ false
      → submit_task b operator_address performers (badger_tasks kv) s req ≡ ok (s', result)
      → again.task_id ≡ req.task_id
      → (e : ExecutorError) × (submit_task b operator_address performers (badger_tasks kv) s' again
          ≡ err e)
  submit_task_once kv s s' req again result finds open_ h =
      remembered_once (badger_tasks kv) s s' req again result
        (badger_remembers kv finds s req.task_id open_
          (submitted_named (badger_tasks kv) s s' req result h))
        h

  memory_unchanged : (s : PerformerStore) (id : Bytes) → memory_tasks.mark_task_processed s id ≡ s
  unfolding mark_task_processed
  memory_unchanged s id = ground arith

  -- Over the in-memory store, which remembers no task, a submission that was accepted is accepted and
  -- run again.
  pub submit_task_again :
      (s s' : PerformerStore) (req : TaskSubmission) (result : TaskResult)
      → submit_task b operator_address performers memory_tasks s req ≡ ok (s', result)
      → submit_task b operator_address performers memory_tasks s' req ≡ ok (s', result)
  submit_task_again s s' req result h =
      let a = submit_task-Accepted memory_tasks s s' req result h in
      let kept : s' ≡ s = a.marked ∙ memory_unchanged s req.task_id in
      ap (λ t. submit_task b operator_address performers memory_tasks t req) kept ∙ h

  no_message :
      (task : TaskSubmission)
      → task.version ≢ 1
      → construct_task_submission_message b operator_address task ≡ []
  unfolding construct_task_submission_message encode_task_submission_message_versioned
  no_message task h = elim (Bool-cases (nat_beq task.version 1)) [
    | inl e ↦ absurd (h (ground (arith, e)))
    | inr e ↦ rw (e, construct_task_submission_message) refl
  ]

  empty_verified :
      (t : TaskSubmission) (set : OperatorSet)
      → t.version ≢ 1
      → Aggregates b operator_address t set
      → validate_task_signature b operator_address t
        ≡ verify_submission b operator_address set t.signature (b.eth.keccak256 [])
  unfolding validate_task_signature
  empty_verified t set v chain = rw (chain.configured, chain.registered, no_message t v) refl

  -- For a submission of an unsupported version whose AVS and aggregator the chain knows, the signature
  -- check is that of the hash of the empty message, so it has the same result as for any other
  -- submission of an unsupported version, whatever its task, payload and operator set are, where the
  -- AVS, the aggregator, the block and the signature are the same.
  pub unversioned_validate :
      (t t' : TaskSubmission) (set : OperatorSet)
      → t.version ≢ 1
      → t'.version ≢ 1
      → Aggregates b operator_address t set
      → t.avs_address ≡ t'.avs_address
      → t.aggregator_address ≡ t'.aggregator_address
      → t.task_block_number ≡ t'.task_block_number
      → t.signature ≡ t'.signature
      → (validate_task_signature b operator_address t
          ≡ verify_submission b operator_address set t.signature (b.eth.keccak256 []))
        × (validate_task_signature b operator_address t'
            ≡ verify_submission b operator_address set t.signature (b.eth.keccak256 []))
  unversioned_validate t t' set v v' chain avs aggregator block signature = (
    empty_verified t set v chain,
    rw signature (
        empty_verified t' set v' (record {
          avs = chain.avs;
          configured = rw (← avs, ← block) chain.configured;
          registered = rw (← avs, ← block, ← aggregator) chain.registered;
        })),
  )
