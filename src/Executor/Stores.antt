-- ===== src/Executor/Stores.antt =====
-- ponos/pkg/executor/storage: the in-memory store of memory.go, and how the stores remember
-- processed tasks.
use hourglass_monorepo.Prelude.{
  ℕ, Bool, true, false, not, Option, List, [], ◌∷◌, not_empty, Result, ok, err, ◌>>=◌, ◌>>◌, guard,
  or_fail,
}
use hourglass_monorepo.Text.{Bytes}
use hourglass_monorepo.Dict.{Dict, get, put, remove, bytes_eq}
use hourglass_monorepo.Executor.{ProcessedTasks}

-- `EnvironmentVarRecord`
pub record EnvironmentVarRecord : Type 0 where
  pub name : Bytes
  pub value : Bytes
  pub value_from_env : Bytes

-- `PerformerState`
pub record PerformerState : Type 0 where
  pub performer_id : Bytes
  pub avs_address : Bytes
  pub resource_id : Bytes
  pub status : Bytes
  pub artifact_registry : Bytes
  pub artifact_digest : Bytes
  pub artifact_tag : Bytes
  pub deployment_mode : Bytes
  pub created_at : ℕ
  pub last_health_check : ℕ
  pub container_healthy : Bool
  pub application_healthy : Bool
  pub network_name : Bytes
  pub container_endpoint : Bytes
  pub container_hostname : Bytes
  pub environment_vars : List EnvironmentVarRecord

pub data PerformerStoreError : Type 0 where
  performer_store_closed nil_state empty_performer_id state_not_found empty_task_id :
      PerformerStoreError

-- `InMemoryExecutorStore`
pub record PerformerStore : Type 0 where
  pub closed : Bool
  pub performer_states : Dict Bytes PerformerState

-- `NewInMemoryExecutorStore`
unfoldable pub new_performer_store : PerformerStore
new_performer_store = record { closed = false; performer_states = [] }

-- `SavePerformerState`; a nil state is `none`.
unfoldable pub save_performer_state :
    PerformerStore → Bytes → Option PerformerState → Result PerformerStoreError PerformerStore
save_performer_state s performer_id maybe_state = do
  guard (not s.closed) performer_store_closed
  state ← or_fail maybe_state nil_state
  guard (not_empty performer_id) empty_performer_id
  ok (record s {
    performer_states =
        put performer_id (record state { performer_id = performer_id }) s.performer_states;
  })

-- `GetPerformerState`
unfoldable pub get_performer_state :
    PerformerStore → Bytes → Result PerformerStoreError PerformerState
get_performer_state s performer_id = do
  guard (not s.closed) performer_store_closed
  or_fail (get performer_id s.performer_states) state_not_found

abbrev pub states_of : Dict Bytes PerformerState → List PerformerState
states_of [] = []
states_of ((id, state) ∷ rest) = state ∷ states_of rest

-- `ListPerformerStates`, in one iteration order.
unfoldable pub list_performer_states :
    PerformerStore → Result PerformerStoreError (List PerformerState)
list_performer_states s = do
  guard (not s.closed) performer_store_closed
  ok (states_of s.performer_states)

-- `DeletePerformerState`
unfoldable pub delete_performer_state :
    PerformerStore → Bytes → Result PerformerStoreError PerformerStore
delete_performer_state s performer_id = do
  guard (not s.closed) performer_store_closed
  state ← or_fail (get performer_id s.performer_states) state_not_found
  ok (record s { performer_states = remove performer_id s.performer_states })

-- `MarkTaskProcessed`, which keeps nothing.
unfoldable pub mark_task_processed :
    PerformerStore → Bytes → Result PerformerStoreError PerformerStore
mark_task_processed s task_id = do
  guard (not s.closed) performer_store_closed
  guard (not_empty task_id) empty_task_id
  ok s

-- `IsTaskProcessed`
unfoldable pub is_task_processed : PerformerStore → Bytes → Result PerformerStoreError Bool
is_task_processed s task_id = do guard (not s.closed) performer_store_closed; ok false

-- `Close`
unfoldable pub close_performer_store : PerformerStore → Result PerformerStoreError PerformerStore
close_performer_store s = do
  guard (not s.closed) performer_store_closed
  ok (record { closed = true; performer_states = [] })

-- How `handleReceivedTask` takes an error of either call: it goes on.
abbrev pub or_unprocessed : Result PerformerStoreError Bool → Bool
or_unprocessed (ok processed) = processed
or_unprocessed (err e) = false

abbrev pub or_unchanged : {S : Type 0} → S → Result PerformerStoreError S → S
or_unchanged s (ok s') = s'
or_unchanged s (err e) = s

-- The in-memory store, as the executor uses it for tasks.
abbrev pub memory_tasks : ProcessedTasks PerformerStore
memory_tasks = record {
  is_task_processed = λ s task_id. or_unprocessed (is_task_processed s task_id);
  mark_task_processed = λ s task_id. or_unchanged s (mark_task_processed s task_id);
}
