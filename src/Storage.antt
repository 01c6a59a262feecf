-- ===== src/Storage.antt =====
-- ponos/pkg/aggregator/storage: the data that the aggregator's stores keep (storage.go, errors.go).
pub mod Memory
pub mod Badger
pub mod Board
use hourglass_monorepo.Prelude.{ℕ, Bool, true, false, Option, List, Result}
use hourglass_monorepo.Text.{Bytes, bytes_beq}
use hourglass_monorepo.Types.{Task}

-- `TaskStatus` is a string with four known values.
pub data TaskStatus : Type 0 where
  pending processing completed failed : TaskStatus
  other : Bytes → TaskStatus

-- `==` on statuses.
abbrev pub status_beq : TaskStatus → TaskStatus → Bool
status_beq pending pending = true
status_beq processing processing = true
status_beq completed completed = true
status_beq failed failed = true
status_beq (other a) (other b) = bytes_beq a b
status_beq _ _ = false

-- `TaskRecord`
pub record TaskRecord : Type 0 where
  pub task : Task
  pub status : TaskStatus
  pub created_at : ℕ
  pub updated_at : ℕ

-- `BlockRecord`
pub record BlockRecord : Type 0 where
  pub number : ℕ
  pub hash : Bytes
  pub parent_hash : Bytes
  pub timestamp : ℕ
  pub chain_id : ℕ

-- The errors of a store: those of errors.go, and its unnamed ones.
pub data StoreError : Type 0 where
  not_found already_exists store_closed invalid_task_status : StoreError
  invalid_task nil_block invalid_transition corrupt_record : StoreError

-- The `AggregatorStore` interface, as the poller and the context manager use it.
pub record AggregatorStore (S : Type 0) : Type 0 where
  pub get_last_processed_block : S → Bytes → ℕ → Result StoreError BlockRecord
  pub save_block : S → Bytes → Option BlockRecord → Result StoreError S
  pub get_block : S → Bytes → ℕ → ℕ → Result StoreError BlockRecord
  pub delete_block : S → Bytes → ℕ → ℕ → Result StoreError S
  pub save_pending_task : S → ℕ → Option Task → Result StoreError S
  pub get_task : S → Bytes → Result StoreError Task
  pub list_pending_tasks_for_avs : S → Bytes → Result StoreError (List Task)
  pub update_task_status : S → ℕ → Bytes → TaskStatus → Result StoreError S
  pub delete_task : S → Bytes → Result StoreError S
  -- Whether the tasks that it hands out are the ones it was given, with their contexts.
  pub keeps_contexts : Bool
