-- ===== src/Storage/Board.antt =====
-- What a store promises about tasks (storage.go), with no keys, no indexes and no times: a board
-- that has a task and its status under an id, and the calls that change it. Storage/Memory/Refines
-- and Storage/Badger/Refines have the two stores behind it.
use hourglass_monorepo.Prelude.{
  ℕ, ◌≡◌, refl, ap, Bool, true, false, not, Option, none, some, List, [], ◌∷◌, ◌||◌, if◌then◌else◌,
  is_none, Result, ok, err,
}
use hourglass_monorepo.Text.{Bytes, bytes_beq}
use hourglass_monorepo.Types.{Task}
use hourglass_monorepo.Storage.{
  TaskStatus, pending, processing, completed, failed, status_beq, StoreError, AggregatorStore,
}

abbrev pub TaskBoard : Type 0
TaskBoard = Bytes → Option (Task × TaskStatus)

-- A call of the `AggregatorStore` that changes tasks.
pub data TaskCall : Type 0 where
  save : Task → TaskCall
  update : Bytes → TaskStatus → TaskCall
  discard : Bytes → TaskCall

-- The life of a task.
abbrev pub legal : TaskStatus → TaskStatus → Bool
legal pending to = status_beq processing to || status_beq failed to
legal processing to = status_beq completed to || status_beq failed to
legal _ to = false

abbrev status_legal : Option (Task × TaskStatus) → TaskStatus → Bool
status_legal none to = false
status_legal (some (task, from)) to = legal from to

abbrev with_status : Option (Task × TaskStatus) → TaskStatus → Option (Task × TaskStatus)
with_status none to = none
with_status (some (task, from)) to = some (task, to)

module _ (refuses : TaskBoard → Task → Bool) where
  -- Whether a call is carried out; `refuses` says which tasks are not saved.
  abbrev pub accepts : TaskBoard → TaskCall → Bool
  accepts b (save task) = not (refuses b task)
  accepts b (update id status) = status_legal (b id) status
  accepts b (discard id) = not (is_none (b id))

  -- What a call that is carried out leaves under an id.
  abbrev pub carried_out : TaskBoard → TaskCall → TaskBoard
  carried_out b (save task) x = if bytes_beq task.task_id x then some (task, pending) else b x
  carried_out b (update id status) x = if bytes_beq id x then with_status (b id) status else b x
  carried_out b (discard id) x = if bytes_beq id x then none else b x

  abbrev pub board_step : TaskBoard → TaskCall → TaskBoard
  board_step b call x = if accepts b call then carried_out b call x else b x

  -- Which calls were carried out, and the board in the end.
  unfoldable pub run_board : TaskBoard → List TaskCall → List Bool × TaskBoard
  run_board b [] = ([], b)
  run_board b (call ∷ calls) =
      let (outcomes, end) = run_board (board_step b call) calls in (accepts b call ∷ outcomes, end)

abbrev pub succeeded : {S : Type 0} → Result StoreError S → Bool
succeeded (ok s) = true
succeeded (err e) = false

-- A store that refuses a call is as before.
abbrev pub state_after : {S : Type 0} → S → Result StoreError S → S
state_after s (ok s') = s'
state_after s (err e) = s

module _ {S : Type 0} (store : AggregatorStore S) where
  abbrev pub perform : S → ℕ → TaskCall → Result StoreError S
  perform s now (save task) = store.save_pending_task s now (some task)
  perform s now (update id status) = store.update_task_status s now id status
  perform s now (discard id) = store.delete_task s id

  -- Calls of a store, all at one time; which succeeded, and the store in the end.
  unfoldable pub run_store : S → ℕ → List TaskCall → List Bool × S
  run_store s now [] = ([], s)
  run_store s now (call ∷ calls) =
      let (outcomes, end) = run_store (state_after s (perform s now call)) now calls in
      (succeeded (perform s now call) ∷ outcomes, end)

  -- A view of the store's states that satisfy an invariant, which each call keeps in step with the
  -- board.
  pub record Realises (Holds : S → Type 0) (view : S → TaskBoard)
      (refuses : TaskBoard → Task → Bool) : Type 0 where
    pub accepted :
        (s : S) (now : ℕ) (call : TaskCall)
        → Holds s
        → succeeded (perform s now call) ≡ accepts refuses (view s) call
    pub viewed :
        (s : S) (now : ℕ) (call : TaskCall)
        → Holds s
        → view (state_after s (perform s now call)) ≡ board_step refuses (view s) call
    pub held :
        (s : S) (now : ℕ) (call : TaskCall) → Holds s → Holds (state_after s (perform s now call))

  module _ {Holds : S → Type 0} {view : S → TaskBoard} {refuses : TaskBoard → Task → Bool}
      (realised : Realises Holds view refuses) where
    -- So does any sequence of calls.
    pub run_store-Realises :
        (s : S) (now : ℕ) (calls : List TaskCall)
        → Holds s
        → ((run_store s now calls).0, view (run_store s now calls).1)
          ≡ run_board refuses (view s) calls
    unfolding run_store run_board
    run_store-Realises s now [] h = refl
    run_store-Realises s now (call ∷ calls) h =
        let s' : S = state_after s (perform s now call) in
        let rest = run_store-Realises s' now calls (realised.held s now call h) in
        rw (realised.accepted s now call h) (
          ap {A = List Bool × TaskBoard} (λ r. (accepts refuses (view s) call ∷ r.0, r.1))
            (rw (← realised.viewed s now call h) rest))
