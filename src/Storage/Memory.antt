-- ===== src/Storage/Memory.antt =====
-- ponos/pkg/aggregator/storage/memory/memory.go. The mutex makes each method one step; the time is
-- an argument. The maps of operator set and AVS configurations have no method, and are left out.
pub mod Keys
pub mod Blocks
pub mod Statuses
pub mod Refines
use hourglass_monorepo.Prelude.{
  ℕ, Bool, true, false, not, ◌&&◌, ◌||◌, Option, none, some, List, [], ◌∷◌, ◌++◌, if◌then◌else◌,
  not_empty, Result, ok, err, ◌>>=◌, ◌>>◌, guard, or_fail,
}
use hourglass_monorepo.Text.{Bytes, codes, decimal, equal_fold}
use hourglass_monorepo.Dict.{Dict, get, put, remove, bytes_eq}
use hourglass_monorepo.Types.{Task}
use hourglass_monorepo.Storage.{
  TaskStatus, pending, processing, completed, failed, other, status_beq, TaskRecord, BlockRecord,
  AggregatorStore, StoreError, not_found, store_closed, invalid_task_status, invalid_task,
  nil_block,
}

-- `InMemoryAggregatorStore`
pub record MemoryStore : Type 0 where
  pub closed : Bool
  pub last_processed_blocks : Dict Bytes ℕ
  pub tasks : Dict Bytes TaskRecord
  pub blocks : Dict Bytes BlockRecord

-- `NewInMemoryAggregatorStore`
unfoldable pub new_memory_store : MemoryStore
new_memory_store = record { closed = false; last_processed_blocks = []; tasks = []; blocks = [] }

-- `makeBlockKey`: `"%s:%d"`
unfoldable pub make_block_key : Bytes → ℕ → Bytes
make_block_key avs_address chain_id = avs_address ++ (codes ":" ++ decimal chain_id)

-- `makeBlockRecordKey`: `"block:%s:%d:%d"`
unfoldable pub make_block_record_key : Bytes → ℕ → ℕ → Bytes
make_block_record_key avs_address chain_id block_number =
    codes "block:"
    ++ (avs_address ++ (codes ":" ++ (decimal chain_id ++ (codes ":" ++ decimal block_number))))

-- `GetLastProcessedBlock`
unfoldable pub get_last_processed_block : MemoryStore → Bytes → ℕ → Result StoreError BlockRecord
get_last_processed_block s avs_address chain_id = do
  guard (not s.closed) store_closed
  number ← or_fail (get (make_block_key avs_address chain_id) s.last_processed_blocks) not_found
  or_fail (get (make_block_record_key avs_address chain_id number) s.blocks) not_found

-- `SavePendingTask`; a nil task is `none`.
unfoldable pub save_pending_task : MemoryStore → ℕ → Option Task → Result StoreError MemoryStore
save_pending_task s now maybe_task = do
  guard (not s.closed) store_closed
  task ← or_fail maybe_task invalid_task
  guard (not_empty task.task_id) invalid_task
  ok (record s {
    tasks =
        put task.task_id
          (record { task = task; status = pending; created_at = now; updated_at = now }) s.tasks;
  })

-- `GetTask`
unfoldable pub get_task : MemoryStore → Bytes → Result StoreError Task
get_task s task_id = do
  guard (not s.closed) store_closed
  found ← or_fail (get task_id s.tasks) not_found
  ok found.task

-- The loops of `ListPendingTasks` and `ListPendingTasksForAVS`, in one iteration order.
unfoldable pub select_tasks : (TaskRecord → Bool) → Dict Bytes TaskRecord → List Task
select_tasks keep [] = []
select_tasks keep ((id, r) ∷ rest) =
    let more = select_tasks keep rest in if keep r then r.task ∷ more else more

-- `ListPendingTasks`
unfoldable pub list_pending_tasks : MemoryStore → Result StoreError (List Task)
list_pending_tasks s = do
  guard (not s.closed) store_closed
  ok (select_tasks (λ r. status_beq r.status pending) s.tasks)

-- `ListPendingTasksForAVS`
unfoldable pub list_pending_tasks_for_avs : MemoryStore → Bytes → Result StoreError (List Task)
list_pending_tasks_for_avs s avs_address = do
  guard (not s.closed) store_closed
  ok (
      select_tasks (λ r. status_beq r.status pending && equal_fold r.task.avs_address avs_address)
        s.tasks)

-- `validTransitions`; `none` is a status that the table does not list.
abbrev pub valid_transitions : TaskStatus → Option (List TaskStatus)
valid_transitions pending = some (processing ∷ failed ∷ [])
valid_transitions processing = some (completed ∷ failed ∷ [])
valid_transitions completed = some []
valid_transitions failed = some []
valid_transitions (other s) = none

abbrev pub any_equal : List TaskStatus → TaskStatus → Bool
any_equal [] to = false
any_equal (allowed ∷ rest) to = status_beq allowed to || any_equal rest to

-- `validateTaskStatusTransition`: true where it returns nil.
unfoldable pub validate_task_status_transition : TaskStatus → TaskStatus → Bool
validate_task_status_transition from to = elim (valid_transitions from) [
  | none ↦ false
  | some allowed ↦ any_equal allowed to
]

-- `UpdateTaskStatus`
unfoldable pub update_task_status :
    MemoryStore → ℕ → Bytes → TaskStatus → Result StoreError MemoryStore
update_task_status s now task_id status = do
  guard (not s.closed) store_closed
  found ← or_fail (get task_id s.tasks) not_found
  guard (validate_task_status_transition found.status status) invalid_task_status
  ok (record s { tasks = put task_id (record found { status = status; updated_at = now }) s.tasks })

-- `DeleteTask`
unfoldable pub delete_task : MemoryStore → Bytes → Result StoreError MemoryStore
delete_task s task_id = do
  guard (not s.closed) store_closed
  found ← or_fail (get task_id s.tasks) not_found
  ok (record s { tasks = remove task_id s.tasks })

-- `SaveBlock`; a nil block is `none`.
unfoldable pub save_block : MemoryStore → Bytes → Option BlockRecord → Result StoreError MemoryStore
save_block s avs_address maybe_block = do
  guard (not s.closed) store_closed
  block ← or_fail maybe_block nil_block
  ok (record s {
    blocks = put (make_block_record_key avs_address block.chain_id block.number) block s.blocks;
    last_processed_blocks =
        put (make_block_key avs_address block.chain_id) block.number s.last_processed_blocks;
  })

-- `GetBlock`
unfoldable pub get_block : MemoryStore → Bytes → ℕ → ℕ → Result StoreError BlockRecord
get_block s avs_address chain_id block_number = do
  guard (not s.closed) store_closed
  or_fail (get (make_block_record_key avs_address chain_id block_number) s.blocks) not_found

-- `DeleteBlock`
unfoldable pub delete_block : MemoryStore → Bytes → ℕ → ℕ → Result StoreError MemoryStore
delete_block s avs_address chain_id block_number = do
  guard (not s.closed) store_closed
  found ← or_fail (get (make_block_record_key avs_address chain_id block_number) s.blocks) not_found
  ok (record s {
    blocks = remove (make_block_record_key avs_address chain_id block_number) s.blocks;
  })

-- `Close`
unfoldable pub close_store : MemoryStore → Result StoreError MemoryStore
close_store s = do
  guard (not s.closed) store_closed
  ok (record { closed = true; last_processed_blocks = []; tasks = []; blocks = [] })

-- The in-memory store as an `AggregatorStore`.
abbrev pub memory_store : AggregatorStore MemoryStore
memory_store = record {
  get_last_processed_block = get_last_processed_block;
  save_block = save_block;
  get_block = get_block;
  delete_block = delete_block;
  save_pending_task = save_pending_task;
  get_task = get_task;
  list_pending_tasks_for_avs = list_pending_tasks_for_avs;
  update_task_status = update_task_status;
  delete_task = delete_task;
  keeps_contexts = true;
}
