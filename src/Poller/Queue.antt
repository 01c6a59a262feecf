-- ===== src/Poller/Queue.antt =====
-- Which tasks `processTask` puts on the channel, and how often.
use hourglass_monorepo.Prelude.{
  ℕ, ◌≡◌, true, false, List, [], ◌∷◌, ◌++◌, arith, inl, inr, not_empty, Bool-cases,
}
use hourglass_monorepo.Text.{equal_fold}
use hourglass_monorepo.Dict.{bytes_eq, get-put_self}
use hourglass_monorepo.Types.{Task}
use hourglass_monorepo.Storage.{AggregatorStore, TaskRecord, pending}
use hourglass_monorepo.Storage.Memory.{MemoryStore, memory_store, get_task, save_pending_task}
use hourglass_monorepo.Contexts.{Context, get_context}
use hourglass_monorepo.Poller.{PollerConfig, Env, World, is_known, process_decoded}

-- What one task does to the channel: nothing, or it goes to the end, and then it is of this AVS, is
-- not in the store, and the consumer took it.
pub data IsQueued {S RawLog : Type 0} (st : AggregatorStore S) (cfg : PollerConfig)
    (env : Env RawLog) (w : World S) (task : Task) : List (Task × Context) → Type 0 where
  unchanged : IsQueued st cfg env w task w.queue
  queued :
      (ctx : Context)
      → equal_fold task.avs_address cfg.avs_address ≡ true
      → is_known st cfg env (st.get_task w.store task.task_id) ≡ false
      → env.accepts task ≡ true
      → IsQueued st cfg env w task (w.queue ++ ((task, ctx) ∷ []))

-- Over any store, a task of a block is put on the channel only where it is of the poller's AVS, is
-- not in the store and is accepted by the consumer, and nothing else is.
pub process_decoded-IsQueued :
    {S RawLog : Type 0} (st : AggregatorStore S) (cfg : PollerConfig) (env : Env RawLog)
    (w : World S) (block_number : ℕ) (task : Task)
    → IsQueued st cfg env w task (process_decoded st cfg env w block_number task).0.queue
unfolding process_decoded
process_decoded-IsQueued st cfg env w block_number task =
    let ctx = (get_context w.contexts block_number task).1 in
    elim (Bool-cases (equal_fold task.avs_address cfg.avs_address)) [
      | inr other ↦ rw other unchanged
      | inl ours ↦ elim (Bool-cases (is_known st cfg env (st.get_task w.store task.task_id))) [
        | inl known ↦ rw (ours, known) unchanged
        | inr new ↦ elim (Bool-cases (env.accepts task)) [
          | inl taken ↦ rw (ours, new, taken) (queued ctx ours new taken)
          | inr full ↦ rw (ours, new, full) unchanged
        ]
      ]
    ]

module _ {RawLog : Type 0} (cfg : PollerConfig) (env : Env RawLog) where
  abbrev processed : World MemoryStore → ℕ → Task → World MemoryStore
  processed w n task = (process_decoded memory_store cfg env w n task).0

  -- Over an open in-memory store, a task with an id that the consumer accepts is put on the channel
  -- once: where the same task comes again, in whichever block, the channel stays as it was.
  pub process_decoded_twice :
      (w : World MemoryStore) (n n' : ℕ) (task : Task)
      → w.store.closed ≡ false
      → not_empty task.task_id ≡ true
      → env.accepts task ≡ true
      → (processed (processed w n task) n' task).queue ≡ (processed w n task).queue
  unfolding process_decoded get_task save_pending_task
  process_decoded_twice w n n' task open_ named taken =
      let r : TaskRecord = record {
        task = task;
        status = pending;
        created_at = env.now;
        updated_at = env.now;
      } in
      ground (arith, get-put_self task.task_id r w.store.tasks)
