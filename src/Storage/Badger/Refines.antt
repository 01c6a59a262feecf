-- ===== src/Storage/Badger/Refines.antt =====
-- badger.go behind the board of Storage/Board: the records under the tasks' keys, seen through
-- their statuses. The index of pending tasks follows them.
use hourglass_monorepo.Prelude.{
  ℕ, ◌≡◌, fun_ext, refl, Bool, true, false, not, none, some, List, arith, is_none, Option-cases,
  inl, inr, ◌⊎◌, Bool-cases,
}
use hourglass_monorepo.Text.{Bytes}
use hourglass_monorepo.Types.{Task}
use hourglass_monorepo.Storage.{
  TaskStatus, pending, processing, completed, failed, other, TaskRecord,
}
use hourglass_monorepo.Storage.Memory.Refines.{entry_of}
use hourglass_monorepo.Storage.Badger.{
  task_value, Kv, KvLaws, BadgerStore, badger_store, badger_save_pending_task, task_key,
  badger_update_task_status, badger_delete_task, is_valid_status_transition,
}
use hourglass_monorepo.Storage.Badger.Index.{
  task_at, IsIndexed, is_known, task_at-saved, task_at-updated, task_at-deleted, saved-IsIndexed,
  updated-IsIndexed, deleted-IsIndexed,
}
use hourglass_monorepo.Storage.Board.{
  TaskBoard, TaskCall, save, update, discard, legal, accepts, board_step, succeeded, state_after,
  perform, Realises, run_store, run_board, run_store-Realises,
}

transition-legal : (from to : TaskStatus) → is_valid_status_transition from to ≡ legal from to
unfolding is_valid_status_transition
transition-legal pending to = ground arith
transition-legal processing to = ground arith
transition-legal completed to = refl
transition-legal failed to = refl
transition-legal (other s) to = refl

-- Only known statuses are reached.
legal-is_known : (from to : TaskStatus) → legal from to ≡ true → is_known to ≡ true
legal-is_known from pending h = refl
legal-is_known from processing h = refl
legal-is_known from completed h = refl
legal-is_known from failed h = refl
legal-is_known pending (other s) h = absurd (ground arith)
legal-is_known processing (other s) h = absurd (ground arith)
legal-is_known completed (other s) h = absurd (ground arith)
legal-is_known failed (other s) h = absurd (ground arith)
legal-is_known (other t) (other s) h = absurd (ground arith)

-- It refuses a task whose id has a record.
abbrev pub taken : TaskBoard → Task → Bool
taken b task = not (is_none (b task.task_id))

module _ {D : Type 0} (kv : Kv D) where
  abbrev pub badger_board : BadgerStore D → TaskBoard
  badger_board s id = entry_of (task_at kv s.db id)

  -- Open, with a correct index.
  abbrev pub IsReady : BadgerStore D → Type 0
  IsReady s = (s.closed ≡ false) × IsIndexed kv s.db

  module _ (laws : KvLaws kv) where
    -- A task's key holds nothing or a record.
    stored_cases :
        (d : D) (h : IsIndexed kv d) (id : Bytes)
        → (kv.find_key d (task_key id) ≡ none)
          ⊎ ((r : TaskRecord) × (kv.find_key d (task_key id) ≡ some (task_value r)))
    stored_cases d h id = elim (Option-cases (task_at kv d id)) [
      | inl e ↦ inl (ground (arith, h.typed id, e))
      | inr (r, e) ↦ inr (r, ground (arith, e))
    ]

    badger_accepted :
        (s : BadgerStore D) (now : ℕ) (call : TaskCall)
        → IsReady s
        → succeeded (perform (badger_store kv) s now call) ≡ accepts taken (badger_board s) call
    unfolding badger_save_pending_task badger_update_task_status badger_delete_task
    badger_accepted s now (save task) h = ground (arith, h.1.typed task.task_id)
    badger_accepted s now (update id status) h = elim (stored_cases s.db h.1 id) [
      | inl e ↦ ground (arith, e)
      | inr (r, e) ↦ ground (arith, e, transition-legal r.status status)
    ]
    badger_accepted s now (discard id) h = elim (stored_cases s.db h.1 id) [
      | inl e ↦ ground (arith, e)
      | inr (r, e) ↦ ground (arith, e)
    ]

    badger_viewed :
        (s : BadgerStore D) (now : ℕ) (call : TaskCall)
        → IsReady s
        → (x : Bytes)
        → badger_board (state_after s (perform (badger_store kv) s now call)) x
          ≡ board_step taken (badger_board s) call x
    unfolding badger_save_pending_task badger_update_task_status badger_delete_task
    badger_viewed s now (save task) h x = ground (
      arith,
      h.1.typed task.task_id,
      task_at-saved kv laws s.db task.task_id x
          (record { task = task; status = pending; created_at = 0; updated_at = 0 }),
    )
    badger_viewed s now (update id status) h x = elim (stored_cases s.db h.1 id) [
      | inl e ↦ ground (arith, e)
      | inr (r, e) ↦ ground (
        arith,
        e,
        transition-legal r.status status,
        task_at-updated kv laws s.db id x r.status (record r { status = status }),
      )
    ]
    badger_viewed s now (discard id) h x = elim (stored_cases s.db h.1 id) [
      | inl e ↦ ground (arith, e)
      | inr (r, e) ↦ ground (arith, e, task_at-deleted kv laws s.db id x r.status)
    ]

    badger_held :
        (s : BadgerStore D) (now : ℕ) (call : TaskCall)
        → IsReady s
        → IsReady (state_after s (perform (badger_store kv) s now call))
    unfolding badger_save_pending_task badger_update_task_status badger_delete_task
    badger_held s now (save task) h =
        elim (Option-cases (kv.find_key s.db (task_key task.task_id))) [
          | inl e ↦ rw (h.0, e) (refl, saved-IsIndexed kv laws s.db h.1 task.task_id _ refl)
          | inr (v, e) ↦ rw (h.0, e) (refl, h.1)
        ]
    badger_held s now (update id status) h = elim (stored_cases s.db h.1 id) [
      | inl e ↦ rw (h.0, e) (refl, h.1)
      | inr (r, e) ↦ elim (Bool-cases (is_valid_status_transition r.status status)) [
        | inl k ↦
            rw (h.0, e, k)
              (
                refl,
                updated-IsIndexed kv laws s.db h.1 id r (record r { status = status })
                    (ground (arith, e))
                    (legal-is_known r.status status
                      (ground (arith, k, transition-legal r.status status))),
              )
        | inr k ↦ rw (h.0, e, k) (refl, h.1)
      ]
    ]
    badger_held s now (discard id) h = elim (stored_cases s.db h.1 id) [
      | inl e ↦ rw (h.0, e) (refl, h.1)
      | inr (r, e) ↦ rw (h.0, e) (refl, deleted-IsIndexed kv laws s.db h.1 id r (ground (arith, e)))
    ]

    pub badger-Realises : Realises (badger_store kv) IsReady badger_board taken
    badger-Realises = record {
      accepted = badger_accepted;
      viewed = λ s now call h. fun_ext (badger_viewed s now call h);
      held = badger_held;
    }

    -- Over an open Badger store with a correct index, any sequence of saves, status updates and
    -- deletions succeeds at the calls that the board carries out and leaves the board's tasks and
    -- statuses, where the board refuses to save a task whose id it has.
    pub badger_store_refines :
        (s : BadgerStore D) (now : ℕ) (calls : List TaskCall)
        → IsReady s
        → (
          (run_store (badger_store kv) s now calls).0,
          badger_board (run_store (badger_store kv) s now calls).1,
        )
          ≡ run_board taken (badger_board s) calls
    badger_store_refines = run_store-Realises (badger_store kv) badger-Realises
