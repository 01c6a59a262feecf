-- ===== src/Storage/Badger.antt =====
-- ponos/pkg/aggregator/storage/badger/badger.go: the store over a BadgerDB, a third-party database,
-- which is the parameter `Kv`. A stored value is the record that was marshalled. Failures of the
-- database and its garbage collection are left out. The mutex makes each method one step; no
-- method sets the times of a record, which stay zero.
pub mod Index
pub mod Prefix
pub mod Refines
pub mod Pending
use hourglass_monorepo.Prelude.{
  ℕ, ◌≡◌, Bool, true, false, not, Option, none, some, List, [], ◌∷◌, ◌++◌, ltb, length,
  if◌then◌else◌, is_none, Result, ok, err, ◌>>=◌, ◌>>◌, guard, or_fail,
}
use mathlib.Core.List.{Memᴰ}
use hourglass_monorepo.Text.{Bytes, bytes_beq, codes, decimal, equal_fold, has_prefix, drop}
use hourglass_monorepo.Types.{Task}
use hourglass_monorepo.Storage.{
  TaskStatus, pending, processing, completed, failed, other, status_beq, TaskRecord, BlockRecord,
  StoreError, not_found, already_exists, store_closed, invalid_task, nil_block, invalid_transition,
  corrupt_record, AggregatorStore,
}
use hourglass_monorepo.Storage.Memory.{make_block_record_key}

-- What a key holds. `json.Unmarshal` into another kind of record does not occur, since the kinds
-- have keys of their own; it is an error here.
pub data StoredValue : Type 0 where
  task_value : TaskRecord → StoredValue
  block_value : BlockRecord → StoredValue
  index_value : StoredValue

abbrev pub unmarshal_task : StoredValue → Option TaskRecord
unmarshal_task (task_value r) = some r
unmarshal_task (block_value b) = none
unmarshal_task index_value = none

abbrev pub unmarshal_block : StoredValue → Option BlockRecord
unmarshal_block (block_value b) = some b
unmarshal_block (task_value r) = none
unmarshal_block index_value = none

-- What the store calls of `badger.DB` and `badger.Txn`: `Get`, where `none` is `ErrKeyNotFound`,
-- `Set`, `Delete`, and an iterator over the keys with a prefix.
pub record Kv (D : Type 0) : Type 0 where
  pub find_key : D → Bytes → Option StoredValue
  pub set_key : D → Bytes → StoredValue → D
  pub delete_key : D → Bytes → D
  pub scan : D → Bytes → List (Bytes × StoredValue)

-- Its documented behaviour.
pub record KvLaws {D : Type 0} (kv : Kv D) : Type 0 where
  pub find-set :
      (d : D) (k j : Bytes) (v : StoredValue)
      → kv.find_key (kv.set_key d k v) j ≡ (if bytes_beq k j then some v else kv.find_key d j)
  pub find-delete :
      (d : D) (k j : Bytes)
      → kv.find_key (kv.delete_key d k) j ≡ (if bytes_beq k j then none else kv.find_key d j)
  pub scanned :
      (d : D) (prefix k : Bytes) (v : StoredValue)
      → Memᴰ (k, v) (kv.scan d prefix)
      → (kv.find_key d k ≡ some v) × (has_prefix prefix k ≡ true)
  pub scans :
      (d : D) (prefix k : Bytes) (v : StoredValue)
      → kv.find_key d k ≡ some v
      → has_prefix prefix k ≡ true
      → Memᴰ (k, v) (kv.scan d prefix)

-- `BadgerAggregatorStore`
pub record BadgerStore (D : Type 0) : Type 0 where
  pub db : D
  pub closed : Bool

-- `prefixTask`
abbrev pub task_key : Bytes → Bytes
task_key task_id = codes "task:" ++ task_id

-- The text of a `TaskStatus`.
abbrev pub status_text : TaskStatus → Bytes
status_text pending = codes "pending"
status_text processing = codes "processing"
status_text completed = codes "completed"
status_text failed = codes "failed"
status_text (other s) = s

-- `prefixTaskByStatus`
abbrev pub status_key : TaskStatus → Bytes → Bytes
status_key status task_id = codes "taskstatus:" ++ (status_text status ++ (codes ":" ++ task_id))

-- `prefixLatestBlock`
unfoldable pub latest_block_prefix : Bytes → ℕ → Bytes
latest_block_prefix avs_address chain_id =
    codes "block:" ++ (avs_address ++ (codes ":" ++ decimal chain_id))

-- `isValidStatusTransition`
unfoldable pub is_valid_status_transition : TaskStatus → TaskStatus → Bool
is_valid_status_transition pending to =
    if status_beq to processing then true else status_beq to failed
is_valid_status_transition processing to =
    if status_beq to completed then true else status_beq to failed
is_valid_status_transition completed to = false
is_valid_status_transition failed to = false
is_valid_status_transition (other s) to = false

-- The higher of the best record so far and the next one.
abbrev pub better : Option BlockRecord → BlockRecord → BlockRecord
better none b = b
better (some best) b = if ltb best.number b.number then b else best

-- The loop of `GetLastProcessedBlock`
unfoldable pub highest :
    Option BlockRecord → List (Bytes × StoredValue) → Result StoreError (Option BlockRecord)
highest best [] = ok best
highest best ((k, v) ∷ entries) = elim (unmarshal_block v) [
  | none ↦ err corrupt_record
  | some b ↦ highest (some (better best b)) entries
]

module _ {D : Type 0} (kv : Kv D) where
  -- `GetLastProcessedBlock`
  unfoldable pub badger_last_processed_block :
      BadgerStore D → Bytes → ℕ → Result StoreError BlockRecord
  badger_last_processed_block s avs_address chain_id = do
    guard (not s.closed) store_closed
    best ← highest none (kv.scan s.db (latest_block_prefix avs_address chain_id))
    or_fail best not_found

  -- `SavePendingTask`; a nil task is `none`.
  unfoldable pub badger_save_pending_task :
      BadgerStore D → Option Task → Result StoreError (BadgerStore D)
  badger_save_pending_task s maybe_task = do
    guard (not s.closed) store_closed
    task ← or_fail maybe_task invalid_task
    guard (is_none (kv.find_key s.db (task_key task.task_id))) already_exists
    ok (record s {
      db =
          kv.set_key
            (kv.set_key s.db (task_key task.task_id) (
              task_value
                (record { task = task; status = pending; created_at = 0; updated_at = 0 })))
            (status_key pending task.task_id) index_value;
    })

  -- `GetTask`
  unfoldable pub badger_get_task : BadgerStore D → Bytes → Result StoreError Task
  badger_get_task s task_id = do
    guard (not s.closed) store_closed
    value ← or_fail (kv.find_key s.db (task_key task_id)) not_found
    found ← or_fail (unmarshal_task value) corrupt_record
    ok found.task

  -- `prefixTaskByStatus` of the pending tasks, with no task id.
  abbrev pub pending_prefix : Bytes
  pending_prefix = status_key pending []

  -- The record that an entry of the status index stands for; `none` is skipped.
  abbrev pub indexed_record : D → Bytes → Option TaskRecord
  indexed_record d key = elim (kv.find_key d (task_key (drop (length pending_prefix) key))) [
    | none ↦ none
    | some value ↦ unmarshal_task value
  ]

  abbrev push_if : Bool → Task → List Task → List Task
  push_if keep task more = if keep then task ∷ more else more

  abbrev push_record : (Task → Bool) → Option TaskRecord → List Task → List Task
  push_record keep none more = more
  push_record keep (some r) more = push_if (keep r.task) r.task more

  -- The loops of `ListPendingTasks` and `ListPendingTasksForAVS`.
  unfoldable pub collect_tasks : (Task → Bool) → D → List (Bytes × StoredValue) → List Task
  collect_tasks keep d [] = []
  collect_tasks keep d ((key, v) ∷ entries) =
      push_record keep (indexed_record d key) (collect_tasks keep d entries)

  -- `ListPendingTasks`
  unfoldable pub badger_list_pending_tasks : BadgerStore D → Result StoreError (List Task)
  badger_list_pending_tasks s = do
    guard (not s.closed) store_closed
    ok (collect_tasks (λ task. true) s.db (kv.scan s.db pending_prefix))

  -- `ListPendingTasksForAVS`
  unfoldable pub badger_list_pending_tasks_for_avs :
      BadgerStore D → Bytes → Result StoreError (List Task)
  badger_list_pending_tasks_for_avs s avs_address = do
    guard (not s.closed) store_closed
    ok (
        collect_tasks (λ task. equal_fold task.avs_address avs_address) s.db
          (kv.scan s.db pending_prefix))

  -- `UpdateTaskStatus`
  unfoldable pub badger_update_task_status :
      BadgerStore D → Bytes → TaskStatus → Result StoreError (BadgerStore D)
  badger_update_task_status s task_id status = do
    guard (not s.closed) store_closed
    value ← or_fail (kv.find_key s.db (task_key task_id)) not_found
    found ← or_fail (unmarshal_task value) corrupt_record
    guard (is_valid_status_transition found.status status) invalid_transition
    ok (record s {
      db =
          kv.set_key
            (kv.set_key (kv.delete_key s.db (status_key found.status task_id)) (task_key task_id)
              (task_value (record found { status = status })))
            (status_key status task_id) index_value;
    })

  -- `DeleteTask`
  unfoldable pub badger_delete_task : BadgerStore D → Bytes → Result StoreError (BadgerStore D)
  badger_delete_task s task_id = do
    guard (not s.closed) store_closed
    value ← or_fail (kv.find_key s.db (task_key task_id)) not_found
    found ← or_fail (unmarshal_task value) corrupt_record
    ok (record s {
      db = kv.delete_key (kv.delete_key s.db (task_key task_id)) (status_key found.status task_id);
    })

  -- `SaveBlock`; a nil block is `none`.
  unfoldable pub badger_save_block :
      BadgerStore D → Bytes → Option BlockRecord → Result StoreError (BadgerStore D)
  badger_save_block s avs_address maybe_block = do
    guard (not s.closed) store_closed
    block ← or_fail maybe_block nil_block
    ok (record s {
      db =
          kv.set_key s.db (make_block_record_key avs_address block.chain_id block.number)
            (block_value block);
    })

  -- `GetBlock`
  unfoldable pub badger_get_block : BadgerStore D → Bytes → ℕ → ℕ → Result StoreError BlockRecord
  badger_get_block s avs_address chain_id block_number = do
    guard (not s.closed) store_closed
    value ←
        or_fail (kv.find_key s.db (make_block_record_key avs_address chain_id block_number))
          not_found
    or_fail (unmarshal_block value) corrupt_record

  -- `DeleteBlock`
  unfoldable pub badger_delete_block :
      BadgerStore D → Bytes → ℕ → ℕ → Result StoreError (BadgerStore D)
  badger_delete_block s avs_address chain_id block_number = do
    guard (not s.closed) store_closed
    value ←
        or_fail (kv.find_key s.db (make_block_record_key avs_address chain_id block_number))
          not_found
    ok (record s {
      db = kv.delete_key s.db (make_block_record_key avs_address chain_id block_number);
    })

  -- `Close`; closing twice is no error.
  unfoldable pub badger_close : BadgerStore D → BadgerStore D
  badger_close s = record s { closed = true }

  -- The store as an `AggregatorStore`; it sets no times.
  -- A task is unmarshalled from JSON, which leaves out its context.
  abbrev pub badger_store : AggregatorStore (BadgerStore D)
  badger_store = record {
    get_last_processed_block = badger_last_processed_block;
    save_block = badger_save_block;
    get_block = badger_get_block;
    delete_block = badger_delete_block;
    save_pending_task = λ s now. badger_save_pending_task s;
    get_task = badger_get_task;
    list_pending_tasks_for_avs = badger_list_pending_tasks_for_avs;
    update_task_status = λ s now. badger_update_task_status s;
    delete_task = badger_delete_task;
    keeps_contexts = false;
  }
