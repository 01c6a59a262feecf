-- ===== src/Tests/Executions.antt =====
-- The execution manager over an in-memory store with one pending task.
use mathlib.Core.List.{Memᴰ}
use hourglass_monorepo.Prelude.{
  ◌≤◌, ◌≡◌, ◌⊎◌, refl, true, none, some, [], ◌∷◌, arith, length, Result, ok, err,
}
use hourglass_monorepo.Text.{codes, to_lower, equal_fold}
use hourglass_monorepo.Dict.{get, bytes_eq}
use hourglass_monorepo.Types.{Task}
use hourglass_monorepo.Storage.{pending, processing, completed}
use hourglass_monorepo.Storage.Memory.{
  MemoryStore, memory_store, list_pending_tasks_for_avs, select_tasks,
}
use hourglass_monorepo.Storage.Memory.Refines.{memory_board, IsOpen, memory-Realises}
use hourglass_monorepo.Peering.{CurveType, bn254, ecdsa}
use hourglass_monorepo.Execution.{
  ExecutionError, ExecutionConfig, QueuedTask, Manager, Prepared, no_operators,
}
use hourglass_monorepo.Execution.Handling.{
  task_done, handled, refused, context_done, handle_task, recover_pending_tasks,
}
use hourglass_monorepo.Execution.Outcomes.{succeeds, Concluded, handle_task-Concluded}
use hourglass_monorepo.Execution.Stranded.{Stuck, deadline_strands_task, failed_preparation_strands}
use hourglass_monorepo.Execution.Recovery.{Requeued, recover_pending_tasks-Requeued}
use hourglass_monorepo.Tests.Stores.{task, store_of}

abbrev pub manager : Manager MemoryStore
manager = record { store = store_of pending 0; inflight_tasks = []; task_queue = [] }

abbrev queued : QueuedTask
queued = record { task = task; has_context = true }

abbrev prepared_for : CurveType → Prepared
prepared_for curve = record {
  task = task;
  peers = record {
    chain_id = 1;
    operator_set_id = 7;
    root_reference_timestamp = 5;
    weights = [];
    operators = [];
    curve_type = curve;
    operator_info_tree_root = [];
    operator_infos = [];
  };
  curve_type = curve;
}

abbrev prepare : CurveType → Task → Result ExecutionError Prepared
prepare curve t = ok (prepared_for curve)

waits : memory_board manager.store (codes "t") ≡ some (task, pending)
unfolding get
waits = refl

idle : get (codes "t") manager.inflight_tasks ≡ none
unfolding get
idle = refl

handle_task-Concluded_example :
    (m' : Manager MemoryStore) × (handle_task memory_store 3
        (prepare bn254)
        manager
        queued
        task_done
      ≡ (m', handled))
    × Concluded IsOpen memory_board manager (codes "t") task completed m'
handle_task-Concluded_example =
    handle_task-Concluded memory-Realises 3 (prepare bn254) manager queued (prepared_for bn254) task
      task_done completed handled refl waits idle refl refl succeeds

deadline_strands_task_example :
    (m' : Manager MemoryStore) × (handle_task memory_store 3
        (prepare ecdsa)
        manager
        queued
        (context_done none)
      ≡ (m', handled))
    × Stuck memory-Realises 3 (prepare ecdsa) manager queued task refl waits idle m'
deadline_strands_task_example =
    deadline_strands_task memory-Realises 3 (prepare ecdsa) manager queued task refl waits idle
      (prepared_for ecdsa) refl refl

failed_preparation_strands_example :
    (m' : Manager MemoryStore) × (handle_task memory_store 3
        (λ t. err no_operators)
        manager
        queued
        task_done
      ≡ (m', refused no_operators))
    × (memory_board m'.store (codes "t") ≡ some (task, processing))
    × (get (codes "t") m'.inflight_tasks ≡ none)
failed_preparation_strands_example =
    failed_preparation_strands memory-Realises 3 (λ t. err no_operators) manager queued task refl
      waits idle no_operators task_done refl

abbrev config : ExecutionConfig
config = record {
  avs_address = codes "0xC";
  supported_chain_ids = 1 ∷ [];
  mailbox_contract_addresses = [];
  l1_chain_id = 1;
}

listed : list_pending_tasks_for_avs manager.store config.avs_address ≡ ok (task ∷ [])
unfolding list_pending_tasks_for_avs select_tasks equal_fold to_lower
listed = refl

abbrev recovered : Manager MemoryStore
recovered = recover_pending_tasks memory_store 3 config 4 manager

recover_pending_tasks-Requeued_example :
    (length recovered.task_queue ≤ 4)
    × ((q : QueuedTask)
        → Memᴰ q recovered.task_queue
        → Memᴰ q [] ⊎ Requeued memory_store 3 4 manager (task ∷ []) q)
recover_pending_tasks-Requeued_example =
    recover_pending_tasks-Requeued memory_store 3 4 config manager (task ∷ []) listed (omega arith)
