-- ===== src/Execution/Handling.antt =====
-- avsExecutionManager.go: from the session of a task to its status, and the recovery of pending
-- tasks at the start.
use hourglass_monorepo.Prelude.{
  ℕ, Bool, not, Option, none, some, List, [], ◌∷◌, ◌++◌, ltb, length, if◌then◌else◌, is_none,
  Result, ok, err,
}
use hourglass_monorepo.Text.{Bytes}
use hourglass_monorepo.Dict.{get, put, remove, bytes_eq}
use hourglass_monorepo.Types.{Task}
use hourglass_monorepo.Storage.{TaskStatus, processing, completed, failed, AggregatorStore}
use hourglass_monorepo.Contexts.{logged}
use hourglass_monorepo.Peering.{bn254, curve_beq}
use hourglass_monorepo.Session.Setup.{
  ContextError, canceled, deadline_exceeded, other_context_error,
}
use hourglass_monorepo.Execution.{
  ExecutionError, already_processing, session_failed, context_cancelled, context_deadline,
  context_failed, ExecutionConfig, QueuedTask, Manager, Prepared,
}

-- What the goroutine of a session sends, from the result of `Process` (a nil certificate is `none`)
-- and whether the chain takes the certificate.
pub data SelectCase : Type 0 where
  task_done task_failed : SelectCase
  -- `task.Context` is done; with the error of the manager's context.
  context_done : Option ContextError → SelectCase

unfoldable pub session_result :
    {Cert : Type 0} → Result ContextError (Option Cert) → (Cert → Bool) → SelectCase
session_result (err e) submit = task_failed
session_result (ok none) submit = task_failed
session_result (ok (some cert)) submit = if submit cert then task_done else task_failed

-- What `handleTask` returns; a `select` on a nil context panics.
pub data TaskOutcome : Type 0 where
  handled panicked : TaskOutcome
  refused : ExecutionError → TaskOutcome

module _ {S : Type 0} (st : AggregatorStore S) (now : ℕ) where
  -- A status update whose error is logged.
  abbrev pub mark : Manager S → Bytes → TaskStatus → Manager S
  mark m id status = record m {
    store = logged m.store (st.update_task_status m.store now id status);
  }

  abbrev pub add_inflight : Manager S → Bytes → Manager S
  add_inflight m id = record m { inflight_tasks = put id tt m.inflight_tasks }

  abbrev pub drop_inflight : Manager S → Bytes → Manager S
  drop_inflight m id = record m { inflight_tasks = remove id m.inflight_tasks }

  -- The `select` of `processBN254Task`
  unfoldable pub select_bn254 : Manager S → Bytes → SelectCase → Manager S × TaskOutcome
  select_bn254 m id task_done = (drop_inflight (mark m id completed) id, handled)
  select_bn254 m id task_failed = (drop_inflight (mark m id failed) id, refused session_failed)
  select_bn254 m id (context_done (some canceled)) = (m, refused context_cancelled)
  select_bn254 m id (context_done (some deadline_exceeded)) = (m, refused context_deadline)
  select_bn254 m id (context_done (some other_context_error)) =
      (mark m id failed, refused context_failed)
  select_bn254 m id (context_done none) = (m, handled)

  -- The `select` of `processECDSATask`
  unfoldable pub select_ecdsa : Manager S → Bytes → SelectCase → Manager S × TaskOutcome
  select_ecdsa m id task_done = (drop_inflight (mark m id completed) id, handled)
  select_ecdsa m id task_failed = (drop_inflight (mark m id failed) id, refused session_failed)
  select_ecdsa m id (context_done (some canceled)) = (m, refused context_cancelled)
  select_ecdsa m id (context_done (some deadline_exceeded)) =
      (mark m id failed, refused context_deadline)
  select_ecdsa m id (context_done (some other_context_error)) =
      (mark m id failed, refused context_failed)
  select_ecdsa m id (context_done none) = (m, handled)

  -- `processBN254Task`
  unfoldable pub process_bn254_task : Manager S → QueuedTask → SelectCase → Manager S × TaskOutcome
  process_bn254_task m queued taken =
      let m' = add_inflight m queued.task.task_id in
      if queued.has_context then select_bn254 m' queued.task.task_id taken else (m', panicked)

  -- `processECDSATask`
  unfoldable pub process_ecdsa_task : Manager S → QueuedTask → SelectCase → Manager S × TaskOutcome
  process_ecdsa_task m queued taken =
      let m' = add_inflight m queued.task.task_id in
      if queued.has_context then select_ecdsa m' queued.task.task_id taken else (m', panicked)

  -- The last part of `handleTask`, from what it found out.
  abbrev pub process_prepared :
      Manager S → QueuedTask → SelectCase → Result ExecutionError Prepared → Manager S × TaskOutcome
  process_prepared m queued taken (err e) = (m, refused e)
  process_prepared m queued taken (ok prepared) =
      if curve_beq prepared.curve_type bn254
      then process_bn254_task m queued taken
      else process_ecdsa_task m queued taken

  -- `handleTask`, with what `prepareTask` gives. The threshold and the block that the source writes into
  -- the task are in `Prepared`; that the in-memory store shares the task and sees them is left out.
  unfoldable pub handle_task :
      (Task → Result ExecutionError Prepared)
      → Manager S
      → QueuedTask
      → SelectCase
      → Manager S × TaskOutcome
  handle_task prepare m queued taken =
      if is_none (get queued.task.task_id m.inflight_tasks)
      then process_prepared (mark m queued.task.task_id processing) queued taken
          (prepare queued.task)
      else (m, refused already_processing)

  -- One round of the loop of `recoverPendingTasks`; a task has its context where the store keeps it.
  unfoldable pub requeue_task : ℕ → Manager S → Task → Manager S
  requeue_task capacity m task =
      if ltb task.deadline now
      then mark m task.task_id failed
      else if not (is_none (get task.task_id m.inflight_tasks))
      then m
      else if ltb (length m.task_queue) capacity
      then record m {
        task_queue = m.task_queue ++ (record { task = task; has_context = st.keeps_contexts } ∷ []);
      }
      else m

  -- The loop of `recoverPendingTasks`
  unfoldable pub requeue_tasks : ℕ → Manager S → List Task → Manager S
  requeue_tasks capacity m [] = m
  requeue_tasks capacity m (task ∷ tasks) =
      requeue_tasks capacity (requeue_task capacity m task) tasks

  -- `recoverPendingTasks`
  unfoldable pub recover_pending_tasks : ExecutionConfig → ℕ → Manager S → Manager S
  recover_pending_tasks config capacity m =
      elim (st.list_pending_tasks_for_avs m.store config.avs_address) [
        | err e ↦ m
        | ok tasks ↦ requeue_tasks capacity m tasks
      ]

  -- The loop of `Start`, where `select` takes a task from the queue each time, with the case that
  -- ends each session. A panic ends the program.
  unfoldable pub run_queue :
      (Task → Result ExecutionError Prepared) → Manager S → List SelectCase → Manager S
  run_queue prepare m [] = m
  run_queue prepare m (taken ∷ rest) = elim m.task_queue [
    | [] ↦ m
    | queued ∷ queue ↦
        let (m', outcome) = handle_task prepare (record m { task_queue = queue }) queued taken in
        let onwards = run_queue prepare m' rest in
        elim outcome [ panicked ↦ m' | handled ↦ onwards | refused e ↦ onwards ]
  ]

  -- `Start`
  unfoldable pub start_manager :
      (Task → Result ExecutionError Prepared)
      → ExecutionConfig
      → ℕ
      → Manager S
      → List SelectCase
      → Manager S
  start_manager prepare config capacity m cases =
      run_queue prepare (recover_pending_tasks config capacity m) cases
