-- ===== src/Execution/Outcomes.antt =====
-- What becomes of a task whose session ends, over any store that keeps the board of Storage/Board.
use hourglass_monorepo.Prelude.{
  ℕ, ◌≡◌, refl, ap, sym, ◌∙◌, Bool, true, none, some, arith, if◌then◌else◌, Result, ok, Bool-cases,
  inl, inr,
}
use hourglass_monorepo.Text.{Bytes, bytes_beq, bytes_beq_iff}
use hourglass_monorepo.Dict.{get, put, bytes_eq, get-put, get-remove}
use hourglass_monorepo.Types.{Task}
use hourglass_monorepo.Storage.{TaskStatus, pending, processing, completed, failed, AggregatorStore}
use hourglass_monorepo.Storage.Board.{legal, TaskBoard, update, board_step, Realises}
use hourglass_monorepo.Peering.{bn254, curve_beq}
use hourglass_monorepo.Execution.{ExecutionError, session_failed, QueuedTask, Manager, Prepared}
use hourglass_monorepo.Execution.Handling.{
  SelectCase, task_done, task_failed, TaskOutcome, handled, refused, mark, add_inflight,
  drop_inflight, select_bn254, select_ecdsa, process_bn254_task, process_ecdsa_task, handle_task,
}

-- The ends of a session, with the status and the outcome that belong to each.
pub data Concludes : SelectCase → TaskStatus → TaskOutcome → Type 0 where
  succeeds : Concludes task_done completed handled
  fails : Concludes task_failed failed (refused session_failed)

module _ {S : Type 0} (Holds : S → Type 0) (view : S → TaskBoard) where
  -- The manager after a session of a task with a status it ended in.
  pub record Concluded (m : Manager S) (id : Bytes) (t : Task) (status : TaskStatus)
      (m' : Manager S) : Type 0 where
    pub statuses :
        (x : Bytes)
        → view m'.store x ≡ (if bytes_beq id x then some (t, status) else view m.store x)
    pub inflight : (x : Bytes) → get x m'.inflight_tasks ≡ get x m.inflight_tasks
    pub queued : m'.task_queue ≡ m.task_queue
    pub holds : Holds m'.store

module _ {S : Type 0} {st : AggregatorStore S} {Holds : S → Type 0} {view : S → TaskBoard}
    {refuses : TaskBoard → Task → Bool} (realised : Realises st Holds view refuses) (now : ℕ) where
  mark-board :
      (m : Manager S) (id : Bytes) (status : TaskStatus)
      → Holds m.store
      → view (mark st now m id status).store ≡ board_step refuses (view m.store) (update id status)
  mark-board m id status h = realised.viewed m.store now (update id status) h

  pub mark-Holds :
      (m : Manager S) (id : Bytes) (status : TaskStatus)
      → Holds m.store
      → Holds (mark st now m id status).store
  mark-Holds m id status h = realised.held m.store now (update id status) h

  -- A task with a status, moved along an edge.
  pub marked :
      (m : Manager S) (id : Bytes) (from to : TaskStatus) (t : Task) (x : Bytes)
      → Holds m.store
      → view m.store id ≡ some (t, from)
      → legal from to ≡ true
      → view (mark st now m id to).store x
        ≡ (if bytes_beq id x then some (t, to) else view m.store x)
  marked m id from to t x h had l =
      ap (λ board. board x) (mark-board m id to h) ∙ ground (arith, had, l)

  module _ (m : Manager S) (id : Bytes) (t : Task) (h : Holds m.store)
      (had : view m.store id ≡ some (t, pending)) (idle : get id m.inflight_tasks ≡ none) where
    -- The manager while the session runs.
    abbrev pub running : Manager S
    running = add_inflight st now (mark st now m id processing) id

    pub running-view :
        (x : Bytes)
        → view running.store x ≡ (if bytes_beq id x then some (t, processing) else view m.store x)
    running-view x = marked m id pending processing t x h had refl

    ended :
        (status : TaskStatus)
        → legal processing status ≡ true
        → Concluded Holds view m id t status
            (drop_inflight st now (mark st now running id status) id)
    ended status l = record {
      statuses = λ x.
          marked running id processing status t x (mark-Holds m id processing h)
            (running-view id ∙ ground (arith, bytes_beq_iff id id)) l
          ∙ ground (arith, running-view x);
      inflight = λ x. ground (
        arith,
        get-remove id x (put id tt m.inflight_tasks),
        get-put id x tt m.inflight_tasks,
        bytes_beq_iff id x,
        same_entry x,
      );
      queued = refl;
      holds = mark-Holds running id status (mark-Holds m id processing h);
    }
      where
        same_entry : (x : Bytes) → bytes_beq id x ≡ true → get x m.inflight_tasks ≡ none
        same_entry x e = ap (λ k. get k m.inflight_tasks) (sym ((bytes_beq_iff id x).0 e)) ∙ idle

    select_bn254-Concluded :
        (taken : SelectCase) (status : TaskStatus) (outcome : TaskOutcome)
        → Concludes taken status outcome
        → (m' : Manager S) × (select_bn254 st now running id taken ≡ (m', outcome))
          × Concluded Holds view m id t status m'
    unfolding select_bn254
    select_bn254-Concluded taken status outcome succeeds = (_, refl, ended completed refl)
    select_bn254-Concluded taken status outcome fails = (_, refl, ended failed refl)

    select_ecdsa-Concluded :
        (taken : SelectCase) (status : TaskStatus) (outcome : TaskOutcome)
        → Concludes taken status outcome
        → (m' : Manager S) × (select_ecdsa st now running id taken ≡ (m', outcome))
          × Concluded Holds view m id t status m'
    unfolding select_ecdsa
    select_ecdsa-Concluded taken status outcome succeeds = (_, refl, ended completed refl)
    select_ecdsa-Concluded taken status outcome fails = (_, refl, ended failed refl)

  -- A pending task that is not in flight, has a context and is prepared without an error: where its
  -- session ends with a result, it is completed or failed accordingly and no longer in flight; every
  -- other task keeps its status, every other flight goes on, and the queue stays as it was.
  pub handle_task-Concluded :
      (prepare : Task → Result ExecutionError Prepared) (m : Manager S) (queued : QueuedTask)
      (prepared : Prepared) (t : Task) (taken : SelectCase) (status : TaskStatus)
      (outcome : TaskOutcome)
      → Holds m.store
      → view m.store queued.task.task_id ≡ some (t, pending)
      → get queued.task.task_id m.inflight_tasks ≡ none
      → queued.has_context ≡ true
      → prepare queued.task ≡ ok prepared
      → Concludes taken status outcome
      → (m' : Manager S) × (handle_task st now prepare m queued taken ≡ (m', outcome))
        × Concluded Holds view m queued.task.task_id t status m'
  unfolding handle_task process_bn254_task process_ecdsa_task
  handle_task-Concluded prepare m queued prepared t taken status outcome h had idle live prep c =
      elim (Bool-cases (curve_beq prepared.curve_type bn254)) [
        | inl bls ↦
            let (m', e, done) =
              select_bn254-Concluded m queued.task.task_id t h had idle taken status outcome c in
            (m', rw (idle, prep, bls, live) e, done)
        | inr other ↦
            let (m', e, done) =
              select_ecdsa-Concluded m queued.task.task_id t h had idle taken status outcome c in
            (m', rw (idle, prep, other, live) e, done)
      ]
