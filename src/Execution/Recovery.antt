-- ===== src/Execution/Recovery.antt =====
-- avsExecutionManager.go: `recoverPendingTasks` puts the pending tasks of the store back on the queue.
use mathlib.Core.List.{Memᴰ}
use hourglass_monorepo.Prelude.{
  ℕ, ◌≤◌, ◌<◌, ◌≡◌, refl, ap, sym, subst, not, none, List, [], ◌∷◌, ◌++◌, arith, length,
  length-append, ltb, is_none, Bool-cases, inl, inr, ◌⊎◌, ok,
}
use hourglass_monorepo.Dict.{get, bytes_eq}
use hourglass_monorepo.Types.{Task}
use hourglass_monorepo.Storage.{AggregatorStore}
use hourglass_monorepo.Execution.{ExecutionConfig, QueuedTask, Manager}
use hourglass_monorepo.Execution.Handling.{requeue_task, requeue_tasks, recover_pending_tasks}

module _ {S : Type 0} (st : AggregatorStore S) (now capacity : ℕ) where
  abbrev wrapped : Task → QueuedTask
  wrapped task = record { task = task; has_context = st.keeps_contexts }

  abbrev after : Manager S → Task → Manager S
  after m task = requeue_task st now capacity m task

  -- A task is left out, or put at the end of a queue with room.
  record Queues (m : Manager S) (task : Task) : Type 0 where
    live : now ≤ task.deadline
    idle : get task.task_id m.inflight_tasks ≡ none
    room : length m.task_queue < capacity
    appended : (after m task).task_queue ≡ m.task_queue ++ (wrapped task ∷ [])

  requeue_task_cases :
      (m : Manager S) (task : Task) → ((after m task).task_queue ≡ m.task_queue) ⊎ Queues m task
  unfolding requeue_task
  requeue_task_cases m task = elim (Bool-cases (ltb task.deadline now)) [
    | inl expired ↦ inl (rw expired refl)
    | inr live ↦ elim (Bool-cases (not (is_none (get task.task_id m.inflight_tasks)))) [
      | inl flying ↦ inl (rw (live, flying) refl)
      | inr idle ↦ elim (Bool-cases (ltb (length m.task_queue) capacity)) [
        | inl room ↦ inr (record {
          live = ground (arith, live);
          idle = ground (arith, idle);
          room = ground (arith, room);
          appended = rw (live, idle, room) refl;
        })
        | inr full ↦ inl (rw (live, idle, full) refl)
      ]
    ]
  ]

  requeue_task-inflight :
      (m : Manager S) (task : Task) → (after m task).inflight_tasks ≡ m.inflight_tasks
  unfolding requeue_task
  requeue_task-inflight m task = ground arith

  requeue_tasks_bounded :
      (tasks : List Task) (m : Manager S)
      → length m.task_queue ≤ capacity
      → length (requeue_tasks st now capacity m tasks).task_queue ≤ capacity
  unfolding requeue_tasks
  requeue_tasks_bounded [] m h = h
  requeue_tasks_bounded (task ∷ tasks) m h =
      requeue_tasks_bounded tasks (after m task) (elim (requeue_task_cases m task) [
        | inl same ↦ rw same h
        | inr q ↦
            rw q.appended (omega (arith, length-append m.task_queue (wrapped task ∷ []), q.room))
      ])

  -- A task that the recovery put on the queue.
  pub record Requeued (m : Manager S) (tasks : List Task) (q : QueuedTask) : Type 0 where
    pub listed : Memᴰ q.task tasks
    pub live : now ≤ q.task.deadline
    pub idle : get q.task.task_id m.inflight_tasks ≡ none
    pub context : q.has_context ≡ st.keeps_contexts

  last_entry :
      (m : Manager S) (task : Task) (tasks : List Task) (qs : List QueuedTask) (q : QueuedTask)
      → Queues m task
      → Memᴰ q (qs ++ (wrapped task ∷ []))
      → Memᴰ q qs ⊎ Requeued m (task ∷ tasks) q
  last_entry m task tasks [] q w (Memᴰ.head e) = inr (record {
    listed = Memᴰ.head (ap (λ x. x.task) e);
    live = subst (λ x. now ≤ x.deadline) (sym (ap (λ x. x.task) e)) w.live;
    idle = subst (λ x. get x.task_id m.inflight_tasks ≡ none) (sym (ap (λ x. x.task) e)) w.idle;
    context = ap (λ x. x.has_context) e;
  })
  last_entry m task tasks [] q w (Memᴰ.tail h) = elim h [ ]
  last_entry m task tasks (x ∷ qs) q w (Memᴰ.head e) = inl (Memᴰ.head e)
  last_entry m task tasks (x ∷ qs) q w (Memᴰ.tail h) = elim (last_entry m task tasks qs q w h) [
    | inl old ↦ inl (Memᴰ.tail old)
    | inr new ↦ inr new
  ]

  -- Every task on the queue after the loop was there, or was put there.
  requeue_tasks-Requeued :
      (tasks : List Task) (m : Manager S) (q : QueuedTask)
      → Memᴰ q (requeue_tasks st now capacity m tasks).task_queue
      → Memᴰ q m.task_queue ⊎ Requeued m tasks q
  unfolding requeue_tasks
  requeue_tasks-Requeued [] m q h = inl h
  requeue_tasks-Requeued (task ∷ tasks) m q h =
      elim (requeue_tasks-Requeued tasks (after m task) q h) [
        | inr r ↦ inr (record {
          listed = Memᴰ.tail r.listed;
          live = r.live;
          idle = rw (← requeue_task-inflight m task) r.idle;
          context = r.context;
        })
        | inl there ↦ elim (requeue_task_cases m task) [
          | inl same ↦ inl (subst (Memᴰ q) same there)
          | inr w ↦ last_entry m task tasks m.task_queue q w (subst (Memᴰ q) w.appended there)
        ]
      ]

  recover_lem :
      (config : ExecutionConfig) (m : Manager S) (tasks : List Task)
      → st.list_pending_tasks_for_avs m.store config.avs_address ≡ ok tasks
      → recover_pending_tasks st now config capacity m ≡ requeue_tasks st now capacity m tasks
  unfolding recover_pending_tasks
  recover_lem config m tasks listed = rw (listed, recover_pending_tasks) refl

  -- `recoverPendingTasks` never fills the queue beyond its capacity, and what it puts there is a task
  -- that the store lists as pending for the AVS, whose deadline is not over and which is not in
  -- flight.
  pub recover_pending_tasks-Requeued :
      (config : ExecutionConfig) (m : Manager S) (tasks : List Task)
      → st.list_pending_tasks_for_avs m.store config.avs_address ≡ ok tasks
      → length m.task_queue ≤ capacity
      → (length (recover_pending_tasks st now config capacity m).task_queue ≤ capacity)
        × ((q : QueuedTask)
            → Memᴰ q (recover_pending_tasks st now config capacity m).task_queue
            → Memᴰ q m.task_queue ⊎ Requeued m tasks q)
  recover_pending_tasks-Requeued config m tasks listed h =
      rw (recover_lem config m tasks listed)
        (requeue_tasks_bounded tasks m h, requeue_tasks-Requeued tasks m)

none_there : {q : QueuedTask} → Memᴰ q [] → ⊥
none_there h = elim h [ ]
