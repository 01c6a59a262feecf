-- ===== src/Poller.antt =====
-- ponos/pkg/chainPoller/EVMChainPoller/evmChainPoller.go: one tick of the poller of a chain.
-- What the node, the log parser and the contract store answer during the tick is an `Env`, and the
-- store is any `AggregatorStore`. Logging is left out.
pub mod Reorg
pub mod Tick
pub mod Queue
use hourglass_monorepo.Prelude.{
  ℕ, zero, suc, ◌+◌, ◌-◌, ◌%◌, ◌^◌, Bool, true, false, not, ◌&&◌, Option, none, some, List, [], ◌∷◌,
  ◌++◌, map, nat_beq, ltb, if◌then◌else◌, not_empty, Result, ok, err,
}
use hourglass_monorepo.Text.{Bytes, bytes_beq, codes, to_lower, equal_fold}
use hourglass_monorepo.Util.{filter}
use hourglass_monorepo.Types.{Task, EthereumBlock, DecodedLog, TaskError, new_task_from_log}
use hourglass_monorepo.Storage.{
  AggregatorStore, BlockRecord, StoreError, not_found, TaskStatus, failed,
}
use hourglass_monorepo.Contexts.{BlockContexts, Context, is_done, logged, get_context, cancel_block}

-- `EVMChainPollerConfig`. `ReorgCheckEnabled` is set by the constructor and never read.
pub record PollerConfig : Type 0 where
  pub chain_id : ℕ
  pub interesting_contracts : List Bytes
  pub avs_address : Bytes
  pub max_reorg_depth : ℕ
  pub block_history_size : ℕ

-- The defaults that `NewEVMChainPoller` writes into the configuration.
unfoldable pub with_defaults : PollerConfig → PollerConfig
with_defaults c = record c {
  max_reorg_depth = if nat_beq c.max_reorg_depth 0 then 10 else c.max_reorg_depth;
  block_history_size = if nat_beq c.block_history_size 0 then 100 else c.block_history_size;
}

-- `RawLog` is the node's log.
pub record Env (RawLog : Type 0) : Type 0 where
  -- `time.Now()`, and whether the parent context is done
  pub now : ℕ
  pub parent_done : Bool
  -- `ethClient.GetLatestBlock`, `GetBlockByNumber`, `GetLogs`; `none` is an error
  pub latest_block : Option ℕ
  pub block_by_number : ℕ → Option EthereumBlock
  pub get_logs : Bytes → ℕ → Option (List RawLog)
  -- `logParser.DecodeLog`
  pub decode_log : RawLog → Option DecodedLog
  -- `contractStore.GetContractByNameForChainId(TaskMailbox, …)`: an error, nil or an address
  pub mailbox : ℕ → Option (Option Bytes)
  -- `common.Address.String`
  pub address_string : Bytes → Bytes
  -- the consumer takes the task from the channel within 100 ms
  pub accepts : Task → Bool

-- What a tick reads and writes: the store, the block contexts and the channel.
pub record World (S : Type 0) : Type 0 where
  pub store : S
  pub contexts : BlockContexts
  pub queue : List (Task × Context)

-- The `BlockRecord` of a canonical block.
abbrev pub record_of : EthereumBlock → ℕ → BlockRecord
record_of block chain_id = record {
  number = block.number;
  hash = block.hash;
  parent_hash = block.parent_hash;
  timestamp = block.timestamp;
  chain_id = chain_id;
}

module _ {S RawLog : Type 0} (st : AggregatorStore S) (cfg : PollerConfig) (env : Env RawLog) where
  -- `GetTask` in `processTask`: an error, whichever it is, does not stop the task.
  abbrev is_known : Result StoreError Task → Bool
  is_known (ok t) = true
  is_known (err e) = false

  abbrev enqueue : World S → Task → Context → World S × Bool
  enqueue w task ctx =
      if env.accepts task
      then (
        record w {
          queue = w.queue ++ ((task, ctx) ∷ []);
          store = logged w.store (st.save_pending_task w.store env.now (some task));
        },
        true,
      )
      else (w, false)

  -- `processTask` from the task on; the flag is false where an error is returned.
  unfoldable pub process_decoded : World S → ℕ → Task → World S × Bool
  process_decoded w block_number task =
      let (contexts, ctx) = get_context w.contexts block_number task in
      let w' = record w { contexts = contexts } in
      if not (equal_fold task.avs_address cfg.avs_address)
      then (w', true)
      else if is_known (st.get_task w.store task.task_id)
      then (w', true)
      else enqueue w' task ctx

  -- `processTask`
  unfoldable pub process_task : World S → DecodedLog → EthereumBlock → World S × Bool
  process_task w log block = elim (new_task_from_log env.address_string log block log.address) [
    | ok task ↦ process_decoded w block.number task
    | err e ↦ (w, false)
  ]

  -- The end of `handleLog`, with what the contract store has for the mailbox.
  abbrev handle_mailbox :
      Option (Option Bytes) → World S → DecodedLog → EthereumBlock → World S × Bool
  handle_mailbox none w log block = (w, false)
  handle_mailbox (some none) w log block = (w, true)
  handle_mailbox (some (some mailbox)) w log block =
      if equal_fold log.address mailbox then process_task w log block else (w, true)

  -- `handleLog`
  unfoldable pub handle_log : World S → DecodedLog → EthereumBlock → World S × Bool
  handle_log w log block =
      if bytes_beq log.event_name (codes "TaskCreated")
      then handle_mailbox (env.mailbox block.chain_id) w log block
      else (w, true)

  -- `listAllInterestingContracts`
  unfoldable pub list_all_interesting_contracts : List Bytes
  list_all_interesting_contracts =
      map to_lower (filter cfg.interesting_contracts (λ contract. not_empty contract))

  -- Appends one contract's logs to the rest, unless either failed.
  abbrev join_logs : Option (List RawLog) → Option (List RawLog) → Option (List RawLog)
  join_logs (some logs) (some rest) = some (logs ++ rest)
  join_logs (some logs) none = none
  join_logs none rest = none

  gather_logs : List Bytes → ℕ → Option (List RawLog)
  gather_logs [] number = some []
  gather_logs (contract ∷ contracts) number =
      join_logs (env.get_logs contract number) (gather_logs contracts number)

  -- `fetchLogsForInterestingContractsForBlock`; the logs arrive in some order of the contracts.
  unfoldable pub fetch_logs : ℕ → Option (List RawLog)
  unfolding gather_logs
  fetch_logs number = gather_logs list_all_interesting_contracts number

  -- The loop of `processBlockLogs`; the flag is false where it returns an error.
  unfoldable pub process_logs : World S → EthereumBlock → List RawLog → World S × Bool
  process_logs w block [] = (w, true)
  process_logs w block (raw ∷ logs) = elim (env.decode_log raw) [
    | none ↦ (w, false)
    | some log ↦
        let next = handle_log w log block in
        let rest = process_logs next.0 block logs in if next.1 then rest else (next.0, false)
  ]

  -- The end of `processBlockLogs`: the block is saved, and the one that leaves the history pruned.
  unfoldable pub save_and_prune : S → BlockRecord → S
  save_and_prune s block =
      let saved = logged s (st.save_block s cfg.avs_address (some block)) in
      if ltb 0 cfg.block_history_size && ltb cfg.block_history_size block.number
      then logged saved (
          st.delete_block saved cfg.avs_address cfg.chain_id
            (block.number - cfg.block_history_size))
      else saved

  -- `processBlockLogs`; `none` is an error.
  unfoldable pub process_block_logs : World S → EthereumBlock → World S × Option BlockRecord
  process_block_logs w block = elim (fetch_logs block.number) [
    | none ↦ (w, none)
    | some logs ↦
        let next = process_logs w (record block { chain_id = cfg.chain_id }) logs in
        let w' = next.0 in
        let b = record_of block cfg.chain_id in
        if next.1 then (record w' { store = save_and_prune w'.store b }, some b) else (w', none)
  ]
