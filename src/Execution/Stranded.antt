-- ===== src/Execution/Stranded.antt =====
-- avsExecutionManager.go where a task does not come to an end: its own deadline, a failure before its
-- session, and a nil context.
use hourglass_monorepo.Prelude.{
  ℕ, ◌≡◌, refl, ap, ◌∙◌, Bool, true, false, Option-cases, none, some, List, [], ◌∷◌, arith,
  if◌then◌else◌, Result, ok, err, Bool-cases, inl, inr,
}
use hourglass_monorepo.Text.{Bytes, bytes_beq, bytes_beq_iff}
use hourglass_monorepo.Dict.{get, bytes_eq, get-put, get-remove, get-put_self}
use hourglass_monorepo.Types.{Task}
use hourglass_monorepo.Storage.{pending, processing, completed, failed, AggregatorStore}
use hourglass_monorepo.Storage.Board.{TaskBoard, Realises}
use hourglass_monorepo.Peering.{bn254, curve_beq}
use hourglass_monorepo.Session.Setup.{canceled, deadline_exceeded, other_context_error}
use hourglass_monorepo.Execution.{
  ExecutionError, already_processing, context_deadline, QueuedTask, Manager, Prepared,
}
use hourglass_monorepo.Execution.Handling.{
  SelectCase, task_done, task_failed, context_done, handled, refused, mark, add_inflight,
  drop_inflight, process_prepared, select_bn254, select_ecdsa, process_bn254_task,
  process_ecdsa_task, handle_task,
}
use hourglass_monorepo.Execution.Outcomes.{marked, running, running-view, mark-Holds}

-- What a manager handles: at a time, with what `prepareTask` gives, a task and how its session ends.
pub record Handling : Type 0 where
  pub time : ℕ
  pub prepares : Task → Result ExecutionError Prepared
  pub taken_task : QueuedTask
  pub session_end : SelectCase

module _ {S : Type 0} (st : AggregatorStore S) where
  abbrev handle_one : Handling → Manager S → Manager S
  handle_one h m = (handle_task st h.time h.prepares m h.taken_task h.session_end).0

  -- The manager after it handled tasks, one after the other.
  abbrev pub handle_all : List Handling → Manager S → Manager S
  handle_all [] m = m
  handle_all (h ∷ hs) m = handle_all hs (handle_one h m)

  module _ (id : Bytes) where
    -- A session of another task leaves the entry in flight.
    dropped_keeps :
        (m : Manager S) (now : ℕ) (k : Bytes)
        → bytes_beq k id ≡ false
        → get id m.inflight_tasks ≡ some tt
        → get id (drop_inflight st now m k).inflight_tasks ≡ some tt
    dropped_keeps m now k other there =
        ground (arith, there, other, get-remove k id m.inflight_tasks)

    select_bn254_keeps :
        (m : Manager S) (now : ℕ) (k : Bytes) (taken : SelectCase)
        → bytes_beq k id ≡ false
        → get id m.inflight_tasks ≡ some tt
        → get id (select_bn254 st now m k taken).0.inflight_tasks ≡ some tt
    unfolding select_bn254
    select_bn254_keeps m now k task_done other there =
        dropped_keeps (mark st now m k completed) now k other there
    select_bn254_keeps m now k task_failed other there =
        dropped_keeps (mark st now m k failed) now k other there
    select_bn254_keeps m now k (context_done none) other there = there
    select_bn254_keeps m now k (context_done (some canceled)) other there = there
    select_bn254_keeps m now k (context_done (some deadline_exceeded)) other there = there
    select_bn254_keeps m now k (context_done (some other_context_error)) other there = there

    select_ecdsa_keeps :
        (m : Manager S) (now : ℕ) (k : Bytes) (taken : SelectCase)
        → bytes_beq k id ≡ false
        → get id m.inflight_tasks ≡ some tt
        → get id (select_ecdsa st now m k taken).0.inflight_tasks ≡ some tt
    unfolding select_ecdsa
    select_ecdsa_keeps m now k task_done other there =
        dropped_keeps (mark st now m k completed) now k other there
    select_ecdsa_keeps m now k task_failed other there =
        dropped_keeps (mark st now m k failed) now k other there
    select_ecdsa_keeps m now k (context_done none) other there = there
    select_ecdsa_keeps m now k (context_done (some canceled)) other there = there
    select_ecdsa_keeps m now k (context_done (some deadline_exceeded)) other there = there
    select_ecdsa_keeps m now k (context_done (some other_context_error)) other there = there

    process_keeps :
        (m : Manager S) (now : ℕ) (q : QueuedTask) (taken : SelectCase)
        (prepared : Result ExecutionError Prepared)
        → bytes_beq q.task.task_id id ≡ false
        → get id m.inflight_tasks ≡ some tt
        → get id (process_prepared st now m q taken prepared).0.inflight_tasks ≡ some tt
    unfolding process_bn254_task process_ecdsa_task
    process_keeps m now q taken (err e) other there = there
    process_keeps m now q taken (ok prepared) other there =
        let k = q.task.task_id in
        let r : Manager S = add_inflight st now m k in
        let there' : get id r.inflight_tasks ≡ some tt =
          ground (arith, there, other, get-put k id tt m.inflight_tasks) in
        let bls = select_bn254_keeps r now k taken other there' in
        let ecdsa = select_ecdsa_keeps r now k taken other there' in
        elim (Bool-cases (curve_beq prepared.curve_type bn254)) [
          | inl b ↦ elim (Bool-cases q.has_context) [
            | inl c ↦ rw (b, c) bls
            | inr c ↦ rw (b, c) there'
          ]
          | inr b ↦ elim (Bool-cases q.has_context) [
            | inl c ↦ rw (b, c) ecdsa
            | inr c ↦ rw (b, c) there'
          ]
        ]

    handle_one_keeps :
        (h : Handling) (m : Manager S)
        → get id m.inflight_tasks ≡ some tt
        → get id (handle_one h m).inflight_tasks ≡ some tt
    unfolding handle_task
    handle_one_keeps h m there = elim (Bool-cases (bytes_beq h.taken_task.task.task_id id)) [
      | inl same ↦
          let e : get h.taken_task.task.task_id m.inflight_tasks ≡ some tt =
            ap (λ k. get k m.inflight_tasks) ((bytes_beq_iff h.taken_task.task.task_id id).0 same)
            ∙ there in
          rw (e, handle_one) there
      | inr other ↦ elim (Option-cases (get h.taken_task.task.task_id m.inflight_tasks)) [
        | inr (u, e) ↦ rw (e, handle_one) there
        | inl e ↦
            rw (e, handle_one)
              (process_keeps (mark st h.time m h.taken_task.task.task_id processing) h.time
                h.taken_task h.session_end (h.prepares h.taken_task.task) other there)
      ]
    ]

    handle_all_keeps :
        (hs : List Handling) (m : Manager S)
        → get id m.inflight_tasks ≡ some tt
        → get id (handle_all hs m).inflight_tasks ≡ some tt
    handle_all_keeps [] m there = there
    handle_all_keeps (h ∷ hs) m there =
        handle_all_keeps hs (handle_one h m) (handle_one_keeps h m there)

module _ {S : Type 0} {st : AggregatorStore S} {Holds : S → Type 0} {view : S → TaskBoard}
    {refuses : TaskBoard → Task → Bool} (realised : Realises st Holds view refuses) (now : ℕ)
    (prepare : Task → Result ExecutionError Prepared) (m : Manager S) (queued : QueuedTask)
    (t : Task) (h : Holds m.store) (had : view m.store queued.task.task_id ≡ some (t, pending))
    (idle : get queued.task.task_id m.inflight_tasks ≡ none) where
  abbrev id : Bytes
  id = queued.task.task_id

  -- The manager has the task as processing and in flight, so that it refuses it from now on.
  pub record Stuck (m' : Manager S) : Type 0 where
    pub processing_still : view m'.store id ≡ some (t, processing)
    pub in_flight : get id m'.inflight_tasks ≡ some tt
    pub refused_later :
        (hs : List Handling) (later : ℕ) (prepare' : Task → Result ExecutionError Prepared)
        (again : QueuedTask) (taken : SelectCase)
        → again.task.task_id ≡ id
        → handle_task st later prepare' (handle_all st hs m') again taken
          ≡ (handle_all st hs m', refused already_processing)

  running-Stuck : Stuck (running realised now m id t h had idle)
  unfolding handle_task
  running-Stuck = record {
    processing_still =
        running-view realised now m id t h had idle id ∙ ground (arith, bytes_beq_iff id id);
    in_flight = get-put_self id tt m.inflight_tasks;
    refused_later = λ hs later prepare' again taken e.
        let m' = running realised now m id t h had idle in
        rw
          (ap (λ k. get k (handle_all st hs m').inflight_tasks) e
            ∙ handle_all_keeps st id hs m' (get-put_self id tt m.inflight_tasks))
          refl;
  }

  -- Where the task's own context ends during its session while the manager's goes on, `handleTask`
  -- returns no error and leaves the task processing and in flight, and after whatever tasks the
  -- manager handles next it refuses the task.
  pub deadline_strands_task :
      (prepared : Prepared)
      → queued.has_context ≡ true
      → prepare queued.task ≡ ok prepared
      → (m' : Manager S) × (handle_task st now prepare m queued (context_done none) ≡ (m', handled))
        × Stuck m'
  unfolding handle_task process_bn254_task process_ecdsa_task select_bn254 select_ecdsa
  deadline_strands_task prepared live prep =
      elim (Bool-cases (curve_beq prepared.curve_type bn254)) [
        | inl bls ↦ (_, rw (idle, prep, bls, live) refl, running-Stuck)
        | inr other ↦ (_, rw (idle, prep, other, live) refl, running-Stuck)
      ]

  -- Where the manager's context passes its deadline during a session, `processECDSATask` marks the
  -- task as failed and `processBN254Task` leaves it processing; both keep it in flight.
  pub deadline_outcomes_differ :
      (prepared : Prepared)
      → queued.has_context ≡ true
      → prepare queued.task ≡ ok prepared
      → (m' : Manager S) × (handle_task st now prepare m queued
            (context_done (some deadline_exceeded))
          ≡ (m', refused context_deadline))
        × (get id m'.inflight_tasks ≡ some tt)
        × (view m'.store id
            ≡ some (t, if curve_beq prepared.curve_type bn254 then processing else failed))
  unfolding handle_task process_bn254_task process_ecdsa_task select_bn254 select_ecdsa
  deadline_outcomes_differ prepared live prep =
      elim (Bool-cases (curve_beq prepared.curve_type bn254)) [
        | inl bls ↦ (
          running realised now m id t h had idle,
          rw (idle, prep, bls, live) refl,
          running-Stuck.in_flight,
          rw bls running-Stuck.processing_still,
        )
        | inr other ↦
            let r : Manager S = running realised now m id t h had idle in
            (
              mark st now r id failed,
              rw (idle, prep, other, live) refl,
              running-Stuck.in_flight,
              rw other (
                  marked realised now r id processing failed t id
                    (mark-Holds realised now m id processing h) running-Stuck.processing_still refl
                  ∙ ground (arith, bytes_beq_iff id id)),
            )
      ]

  -- A task whose preparation fails is refused with that error and left processing, though no session
  -- of it is in flight.
  pub failed_preparation_strands :
      (e : ExecutionError) (taken : SelectCase)
      → prepare queued.task ≡ err e
      → (m' : Manager S) × (handle_task st now prepare m queued taken ≡ (m', refused e))
        × (view m'.store id ≡ some (t, processing))
        × (get id m'.inflight_tasks ≡ none)
  unfolding handle_task
  failed_preparation_strands e taken prep = (
    mark st now m id processing,
    rw (idle, prep) refl,
    marked realised now m id pending processing t id h had refl
        ∙ ground (arith, bytes_beq_iff id id),
    idle,
  )
