-- ===== src/Poller/Tick.antt =====
-- evmChainPoller.go: a tick of the polling loop, and the start of the poller.
pub mod Progress
use hourglass_monorepo.Prelude.{
  ℕ, zero, suc, ◌+◌, ◌-◌, ◌%◌, ◌^◌, Bool, true, false, not, ◌&&◌, Option, none, some, List, [], ◌∷◌,
  ◌++◌, map, nat_beq, ltb, if◌then◌else◌, not_empty, Result, ok, err,
}
use hourglass_monorepo.Text.{Bytes, bytes_beq, codes, to_lower, equal_fold}
use hourglass_monorepo.Util.{filter}
use hourglass_monorepo.Types.{Task, EthereumBlock, DecodedLog, TaskError, new_task_from_log}
use hourglass_monorepo.Storage.{
  AggregatorStore, BlockRecord, StoreError, not_found, TaskStatus, failed,
}
use hourglass_monorepo.Contexts.{BlockContexts, Context, is_done, logged, get_context, cancel_block}
use hourglass_monorepo.Poller.{PollerConfig, Env, World, record_of, process_block_logs}
use hourglass_monorepo.Poller.Reorg.{reconcile_reorg}

module _ {S RawLog : Type 0} (st : AggregatorStore S) (cfg : PollerConfig) (env : Env RawLog) where
  -- `blocksToFetch`: the numbers above the last one, up to the latest.
  unfoldable pub numbers_from : ℕ → ℕ → List ℕ
  numbers_from number zero = []
  numbers_from number (suc count) = number ∷ numbers_from (number + 1) count

  -- The loop of `processNextBlock` over the blocks to fetch, `last` being the block before.
  unfoldable pub process_blocks : World S → BlockRecord → List ℕ → World S
  process_blocks w last [] = w
  process_blocks w last (number ∷ numbers) = elim (env.block_by_number number) [
    | none ↦ w
    | some block ↦
        let next = process_block_logs st cfg env w block in
        if bytes_beq block.parent_hash last.hash
        then elim next.1 [ none ↦ next.0 | some b ↦ process_blocks next.0 b numbers ]
        else (reconcile_reorg st cfg env w block).0
  ]

  abbrev catch_up : World S → BlockRecord → Option ℕ → World S
  catch_up w last none = w
  catch_up w last (some latest) =
      if nat_beq last.number latest
      then w
      else process_blocks w last (numbers_from (last.number + 1) (latest - last.number))

  -- `processNextBlock`
  unfoldable pub process_next_block : World S → World S
  process_next_block w = elim (st.get_last_processed_block w.store cfg.avs_address cfg.chain_id) [
    | err e ↦ w
    | ok last ↦ catch_up w last env.latest_block
  ]

  -- The loop of `recoverInProgressTasks`: a task past its deadline fails, another is queued again.
  unfoldable pub recover_tasks : World S → List Task → World S
  recover_tasks w [] = w
  recover_tasks w (task ∷ tasks) =
      let (contexts, ctx) = get_context w.contexts task.source_block_number task in
      let w' = record w { contexts = contexts } in
      let s = logged w.store (st.update_task_status w.store env.now task.task_id failed) in
      recover_tasks
        (if is_done env.now env.parent_done ctx
          then record w' { store = s }
          else if env.accepts task
          then record w' { queue = w.queue ++ ((task, ctx) ∷ []) }
          else w')
        tasks

  -- `recoverInProgressTasks`
  unfoldable pub recover_in_progress_tasks : World S → World S
  recover_in_progress_tasks w = elim (st.list_pending_tasks_for_avs w.store cfg.avs_address) [
    | err e ↦ w
    | ok tasks ↦ recover_tasks w tasks
  ]

  -- The head of `Start`: where there is no last processed block, the latest one is saved as such.
  unfoldable pub first_block : S → Option S
  first_block s = elim (st.get_last_processed_block s cfg.avs_address cfg.chain_id) [
    | ok last ↦ some s
    | err e ↦ elim env.latest_block [
      | none ↦ none
      | some latest ↦ elim (env.block_by_number latest) [
        | none ↦ none
        | some block ↦
            elim (st.save_block s cfg.avs_address (some (record_of block cfg.chain_id))) [
              | ok s' ↦ some s'
              | err e' ↦ none
            ]
      ]
    ]
  ]

  -- `Start`, up to the polling loop; `none` is an error.
  unfoldable pub start_poller : World S → Option (World S)
  start_poller w = elim (first_block w.store) [
    | none ↦ none
    | some s ↦ some (recover_in_progress_tasks (record w { store = s }))
  ]
