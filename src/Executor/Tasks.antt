-- ===== src/Executor/Tasks.antt =====
-- handlers.go: `SubmitTask`. The store of processed tasks is the state; a task is in flight only
-- while it is handled.
use hourglass_monorepo.Prelude.{
  Bool, not, Option, Result, ok, ◌>>=◌, ◌>>◌, guard, or_fail, not_empty,
}
use hourglass_monorepo.Text.{Bytes, equal_fold, to_lower}
use hourglass_monorepo.Types.{TaskResult}
use hourglass_monorepo.Session.Setup.{TaskSubmission}
use hourglass_monorepo.Executor.{
  ExecutorBackend, ExecutorError, ProcessedTasks, empty_avs_address, already_processed,
  empty_executor_address, executor_mismatch, no_performer, run_failed, validate_task_submission,
  validate_operator_in_set, validate_task_signature, sign_result,
}

-- `avsPerformers`, with the `RunTask` of each: the id and the result of a response.
abbrev pub Performers : Type 0
Performers = Bytes → Option (TaskSubmission → Option (Bytes × Bytes))

module _ (b : ExecutorBackend) (operator_address : Bytes) (performers : Performers) where
  -- The checks of `handleReceivedTask`, with what the store says of the task.
  unfoldable pub check_received_task : Bool → TaskSubmission → Result ExecutorError (Unit {0})
  check_received_task processed task = do
    guard (not_empty (to_lower task.avs_address)) empty_avs_address
    guard (not processed) already_processed
    guard (not_empty task.executor_address) empty_executor_address
    guard (equal_fold task.executor_address operator_address) executor_mismatch
    validate_operator_in_set b operator_address task
    validate_task_signature b operator_address task

  -- `handleReceivedTask` after the checks, down to the result.
  unfoldable pub run_received_task : TaskSubmission → Result ExecutorError TaskResult
  run_received_task task = do
    run_task ← or_fail (performers (to_lower task.avs_address)) no_performer
    response ← or_fail (run_task task) run_failed
    signatures ← sign_result b operator_address task response.1
    ok (record {
      task_id = response.0;
      avs_address = to_lower task.avs_address;
      operator_set_id = task.operator_set_id;
      output = response.1;
      operator_address = operator_address;
      result_signature = signatures.0;
      auth_signature = signatures.1;
    })

  module _ {S : Type 0} (tasks : ProcessedTasks S) where
    -- `handleReceivedTask`
    unfoldable pub handle_received_task : S → TaskSubmission → Result ExecutorError (S × TaskResult)
    handle_received_task s task = do
      check_received_task (tasks.is_task_processed s task.task_id) task
      result ← run_received_task task
      ok (tasks.mark_task_processed s task.task_id, result)

    -- `SubmitTask`
    unfoldable pub submit_task : S → TaskSubmission → Result ExecutorError (S × TaskResult)
    submit_task s req = do
      validate_task_submission b operator_address req
      handle_received_task s req
