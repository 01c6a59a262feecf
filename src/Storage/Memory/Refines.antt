-- ===== src/Storage/Memory/Refines.antt =====
-- memory.go behind the board of Storage/Board: its maps of tasks, seen through their statuses.
use hourglass_monorepo.Prelude.{
  ℕ, ◌≡◌, fun_ext, refl, Bool, false, not, Option, none, some, List, arith, not_empty, Option-cases,
  inl, inr,
}
use hourglass_monorepo.Text.{Bytes}
use hourglass_monorepo.Dict.{get, bytes_eq, get-put, get-remove}
use hourglass_monorepo.Types.{Task}
use hourglass_monorepo.Storage.{
  TaskStatus, pending, processing, completed, failed, other, TaskRecord,
}
use hourglass_monorepo.Storage.Memory.{
  MemoryStore, memory_store, save_pending_task, update_task_status, delete_task,
  validate_task_status_transition,
}
use hourglass_monorepo.Storage.Board.{
  TaskBoard, TaskCall, save, update, discard, legal, accepts, board_step, succeeded, state_after,
  perform, Realises, run_store, run_board, run_store-Realises,
}

abbrev pub entry_of : Option TaskRecord → Option (Task × TaskStatus)
entry_of none = none
entry_of (some r) = some (r.task, r.status)

-- The tasks of a store with their statuses.
abbrev pub memory_board : MemoryStore → TaskBoard
memory_board s id = entry_of (get id s.tasks)

-- It refuses a task without an id only; any other replaces what was there.
abbrev pub lacks_id : TaskBoard → Task → Bool
lacks_id b task = not (not_empty task.task_id)

abbrev pub IsOpen : MemoryStore → Type 0
IsOpen s = s.closed ≡ false

validate-legal : (from to : TaskStatus) → validate_task_status_transition from to ≡ legal from to
unfolding validate_task_status_transition
validate-legal pending to = ground arith
validate-legal processing to = ground arith
validate-legal completed to = refl
validate-legal failed to = refl
validate-legal (other s) to = refl

memory_accepted :
    (s : MemoryStore) (now : ℕ) (call : TaskCall)
    → IsOpen s
    → succeeded (perform memory_store s now call) ≡ accepts lacks_id (memory_board s) call
unfolding save_pending_task update_task_status delete_task
memory_accepted s now (save task) h = ground arith
memory_accepted s now (update id status) h = elim (Option-cases (get id s.tasks)) [
  | inl e ↦ rw (h, e) refl
  | inr (r, e) ↦ rw (h, e) (ground (arith, validate-legal r.status status))
]
memory_accepted s now (discard id) h = ground arith

memory_viewed :
    (s : MemoryStore) (now : ℕ) (call : TaskCall)
    → IsOpen s
    → (x : Bytes)
    → memory_board (state_after s (perform memory_store s now call)) x
      ≡ board_step lacks_id (memory_board s) call x
unfolding save_pending_task update_task_status delete_task
memory_viewed s now (save task) h x = ground (
  arith,
  get-put task.task_id x
      (record { task = task; status = pending; created_at = now; updated_at = now }) s.tasks,
)
memory_viewed s now (update id status) h x = elim (Option-cases (get id s.tasks)) [
  | inl e ↦ rw (h, e) refl
  | inr (r, e) ↦
      rw (h, e)
        (ground (
          arith,
          validate-legal r.status status,
          get-put id x (record r { status = status; updated_at = now }) s.tasks,
        ))
]
memory_viewed s now (discard id) h x = ground (arith, get-remove id x s.tasks)

memory_held :
    (s : MemoryStore) (now : ℕ) (call : TaskCall)
    → IsOpen s
    → IsOpen (state_after s (perform memory_store s now call))
unfolding save_pending_task update_task_status delete_task
memory_held s now (save task) h = ground arith
memory_held s now (update id status) h = ground arith
memory_held s now (discard id) h = ground arith

pub memory-Realises : Realises memory_store IsOpen memory_board lacks_id
memory-Realises = record {
  accepted = memory_accepted;
  viewed = λ s now call h. fun_ext (memory_viewed s now call h);
  held = memory_held;
}

-- Over an open in-memory store, any sequence of saves, status updates and deletions succeeds at the
-- calls that the board carries out and leaves the board's tasks and statuses, where the board
-- refuses to save a task with no id only.
pub memory_store_refines :
    (s : MemoryStore) (now : ℕ) (calls : List TaskCall)
    → IsOpen s
    → ((run_store memory_store s now calls).0, memory_board (run_store memory_store s now calls).1)
      ≡ run_board lacks_id (memory_board s) calls
memory_store_refines = run_store-Realises memory_store memory-Realises
