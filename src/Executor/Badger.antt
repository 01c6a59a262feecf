-- ===== src/Executor/Badger.antt =====
-- ponos/pkg/executor/storage/badger/badger.go: the store over a BadgerDB, a third-party database,
-- which is the parameter `kv`. A stored value is the record that was marshalled. Failures of the
-- database and its garbage collection are left out, and so is the time of a processed task.
use hourglass_monorepo.Prelude.{
  ◌≡◌, Bool, true, false, not, Option, none, some, List, [], ◌∷◌, ◌++◌, is_none, not_empty, arith,
  Result, ok, ◌>>=◌, ◌>>◌, guard, or_fail,
}
use hourglass_monorepo.Text.{Bytes, codes}
use hourglass_monorepo.Executor.{ProcessedTasks}
use hourglass_monorepo.Executor.Stores.{
  PerformerState, PerformerStoreError, performer_store_closed, nil_state, state_not_found,
  empty_task_id, or_unprocessed, or_unchanged,
}

-- What a key holds.
pub data ExecutorValue : Type 0 where
  performer_value : PerformerState → ExecutorValue
  processed_value : Bytes → ExecutorValue

-- `json.Unmarshal` into a `PerformerState`; a record of another kind, which has keys of its own, is
-- an error.
abbrev pub unmarshal_state : ExecutorValue → Option PerformerState
unmarshal_state (performer_value state) = some state
unmarshal_state (processed_value id) = none

-- What the store calls of `badger.DB` and `badger.Txn`: `Get`, where `none` is `ErrKeyNotFound`,
-- `Set`, `Delete`, and an iterator over the keys with a prefix.
pub record ExecutorKv (D : Type 0) : Type 0 where
  pub find_key : D → Bytes → Option ExecutorValue
  pub set_key : D → Bytes → ExecutorValue → D
  pub delete_key : D → Bytes → D
  pub scan : D → Bytes → List (Bytes × ExecutorValue)

-- `BadgerExecutorStore`
pub record BadgerPerformerStore (D : Type 0) : Type 0 where
  pub db : D
  pub closed : Bool

-- `prefixPerformer`
abbrev pub performer_key : Bytes → Bytes
performer_key performer_id = codes "performer:" ++ performer_id

-- `prefixProcessed`
abbrev processed_key : Bytes → Bytes
processed_key task_id = codes "processed:" ++ task_id

-- The loop of `ListPerformerStates`, which skips what it cannot unmarshal.
unfoldable pub unmarshal_states : List (Bytes × ExecutorValue) → List PerformerState
unmarshal_states [] = []
unmarshal_states ((key, value) ∷ entries) =
    let rest = unmarshal_states entries in
    elim (unmarshal_state value) [ none ↦ rest | some state ↦ state ∷ rest ]

module _ {D : Type 0} (kv : ExecutorKv D) where
  -- `SavePerformerState`; a nil state is `none`.
  unfoldable pub badger_save_performer_state :
      BadgerPerformerStore D
      → Bytes
      → Option PerformerState
      → Result PerformerStoreError (BadgerPerformerStore D)
  badger_save_performer_state s performer_id maybe_state = do
    guard (not s.closed) performer_store_closed
    state ← or_fail maybe_state nil_state
    ok (record s { db = kv.set_key s.db (performer_key performer_id) (performer_value state) })

  -- `GetPerformerState`
  unfoldable pub badger_get_performer_state :
      BadgerPerformerStore D → Bytes → Result PerformerStoreError PerformerState
  badger_get_performer_state s performer_id = do
    guard (not s.closed) performer_store_closed
    value ← or_fail (kv.find_key s.db (performer_key performer_id)) state_not_found
    or_fail (unmarshal_state value) state_not_found

  -- `ListPerformerStates`
  unfoldable pub badger_list_performer_states :
      BadgerPerformerStore D → Result PerformerStoreError (List PerformerState)
  badger_list_performer_states s = do
    guard (not s.closed) performer_store_closed
    ok (unmarshal_states (kv.scan s.db (codes "performer:")))

  -- `DeletePerformerState`
  unfoldable pub badger_delete_performer_state :
      BadgerPerformerStore D → Bytes → Result PerformerStoreError (BadgerPerformerStore D)
  badger_delete_performer_state s performer_id = do
    guard (not s.closed) performer_store_closed
    value ← or_fail (kv.find_key s.db (performer_key performer_id)) state_not_found
    ok (record s { db = kv.delete_key s.db (performer_key performer_id) })

  -- `MarkTaskProcessed`
  unfoldable pub badger_mark_task_processed :
      BadgerPerformerStore D → Bytes → Result PerformerStoreError (BadgerPerformerStore D)
  badger_mark_task_processed s task_id = do
    guard (not s.closed) performer_store_closed
    guard (not_empty task_id) empty_task_id
    ok (record s { db = kv.set_key s.db (processed_key task_id) (processed_value task_id) })

  -- `IsTaskProcessed`
  unfoldable pub badger_is_task_processed :
      BadgerPerformerStore D → Bytes → Result PerformerStoreError Bool
  badger_is_task_processed s task_id = do
    guard (not s.closed) performer_store_closed
    ok (not (is_none (kv.find_key s.db (processed_key task_id))))

  -- `Close`; closing twice is no error.
  unfoldable pub badger_close_performer_store : BadgerPerformerStore D → BadgerPerformerStore D
  badger_close_performer_store s = record s { closed = true }

  -- The store, as the executor uses it for tasks.
  abbrev pub badger_tasks : ProcessedTasks (BadgerPerformerStore D)
  badger_tasks = record {
    is_task_processed = λ s task_id. or_unprocessed (badger_is_task_processed s task_id);
    mark_task_processed = λ s task_id. or_unchanged s (badger_mark_task_processed s task_id);
  }

  -- A task that an open store was told of is processed, where a key that was set is found.
  pub badger_remembers :
      ((d : D) (k : Bytes) (v : ExecutorValue) → kv.find_key (kv.set_key d k v) k ≡ some v)
      → (s : BadgerPerformerStore D) (task_id : Bytes) → s.closed ≡ false
      → not_empty task_id ≡ true
      → badger_tasks.is_task_processed (badger_tasks.mark_task_processed s task_id) task_id ≡ true
  unfolding badger_is_task_processed badger_mark_task_processed
  badger_remembers finds s task_id open_ named =
      ground (arith, finds s.db (processed_key task_id) (processed_value task_id))
