-- ===== src/Poller/Tick/Progress.antt =====
-- A tick over the in-memory store: what it leaves as the last processed block.
use hourglass_monorepo.Prelude.{
  ℕ, ◌-◌, ◌<◌, ◌≡◌, refl, ◌∙◌, false, ◌&&◌, Option, none, some, List, [], ◌∷◌, arith, ltb, Result,
  ok, err, inl, inr, Bool-cases, Option-cases,
}
use hourglass_monorepo.Text.{Bytes, bytes_beq, codes}
use hourglass_monorepo.Types.{Task, EthereumBlock, DecodedLog, TaskError, new_task_from_log}
use hourglass_monorepo.Storage.{BlockRecord}
use hourglass_monorepo.Storage.Memory.{
  MemoryStore, memory_store, save_pending_task, get_last_processed_block,
}
use hourglass_monorepo.Storage.Memory.Blocks.{
  save_block_frame, delete_block_frame, closed-delete_block, delete_block_outcome, save_block_open,
  get_last_processed_block_stored,
}
use hourglass_monorepo.Contexts.{logged}
use hourglass_monorepo.Contexts.Frame.{SameBlocks}
use hourglass_monorepo.Poller.{
  PollerConfig, Env, World, record_of, process_decoded, process_task, handle_mailbox, handle_log,
  fetch_logs, process_logs, save_and_prune, process_block_logs,
}

SameBlocks-refl : (s : MemoryStore) → SameBlocks s s
SameBlocks-refl s = record { blocks = refl; last = refl; closed = refl }

SameBlocks-trans : {s t u : MemoryStore} → SameBlocks s t → SameBlocks t u → SameBlocks s u
SameBlocks-trans a b = record {
  blocks = b.blocks ∙ a.blocks;
  last = b.last ∙ a.last;
  closed = b.closed ∙ a.closed;
}

save_pending_task-SameBlocks :
    (s : MemoryStore) (now : ℕ) (task : Option Task)
    → SameBlocks s (logged s (save_pending_task s now task))
unfolding save_pending_task
save_pending_task-SameBlocks s now none = ground arith
save_pending_task-SameBlocks s now (some task) = ground arith

module _ {RawLog : Type 0} (cfg : PollerConfig) (env : Env RawLog) where
  process_decoded-SameBlocks :
      (w : World MemoryStore) (n : ℕ) (task : Task)
      → SameBlocks w.store (process_decoded memory_store cfg env w n task).0.store
  unfolding process_decoded
  process_decoded-SameBlocks w n task =
      ground
        (arith, SameBlocks-refl w.store, save_pending_task-SameBlocks w.store env.now (some task))

  process_task-SameBlocks :
      (w : World MemoryStore) (log : DecodedLog) (block : EthereumBlock)
      → SameBlocks w.store (process_task memory_store cfg env w log block).0.store
  unfolding process_task
  process_task-SameBlocks w log block =
      go (new_task_from_log env.address_string log block log.address) refl
    where
      go :
          (r : Result TaskError Task)
          → new_task_from_log env.address_string log block log.address ≡ r
          → SameBlocks w.store (process_task memory_store cfg env w log block).0.store
      go (ok task) e = rw (e, process_task) (process_decoded-SameBlocks w block.number task)
      go (err x) e = rw (e, process_task) (SameBlocks-refl w.store)

  handle_mailbox-SameBlocks :
      (mailbox : Option (Option Bytes)) (w : World MemoryStore) (log : DecodedLog)
      (block : EthereumBlock)
      → SameBlocks w.store (handle_mailbox memory_store cfg env mailbox w log block).0.store
  handle_mailbox-SameBlocks none w log block = SameBlocks-refl w.store
  handle_mailbox-SameBlocks (some none) w log block = SameBlocks-refl w.store
  handle_mailbox-SameBlocks (some (some m)) w log block =
      ground (arith, SameBlocks-refl w.store, process_task-SameBlocks w log block)

  handle_log-SameBlocks :
      (w : World MemoryStore) (log : DecodedLog) (block : EthereumBlock)
      → SameBlocks w.store (handle_log memory_store cfg env w log block).0.store
  unfolding handle_log
  handle_log-SameBlocks w log block =
      elim (Bool-cases (bytes_beq log.event_name (codes "TaskCreated"))) [
        | inl e ↦ rw e (handle_mailbox-SameBlocks (env.mailbox block.chain_id) w log block)
        | inr e ↦ rw e (SameBlocks-refl w.store)
      ]

  -- The logs of a block change the tasks alone.
  pub process_logs-SameBlocks :
      (w : World MemoryStore) (block : EthereumBlock) (logs : List RawLog)
      → SameBlocks w.store (process_logs memory_store cfg env w block logs).0.store
  unfolding process_logs
  process_logs-SameBlocks w block [] = SameBlocks-refl w.store
  process_logs-SameBlocks w block (raw ∷ logs) = elim (Option-cases (env.decode_log raw)) [
    | inl e ↦ rw (e, process_logs) (SameBlocks-refl w.store)
    | inr (log, e) ↦
        let next = handle_log memory_store cfg env w log block in
        let first = handle_log-SameBlocks w log block in
        rw (e, process_logs)
          (elim (Bool-cases next.1) [
            | inl go ↦ rw go (SameBlocks-trans first (process_logs-SameBlocks next.0 block logs))
            | inr stop ↦ rw stop first
          ])
  ]

  -- Saving a block over an open store makes it the last one, and the pruning spares it.
  save_and_prune-last :
      (s : MemoryStore) (b : BlockRecord)
      → s.closed ≡ false
      → b.chain_id ≡ cfg.chain_id
      → 0 < cfg.block_history_size
      → get_last_processed_block
          (save_and_prune memory_store cfg env s b)
          cfg.avs_address
          cfg.chain_id
        ≡ ok b
  unfolding save_and_prune
  save_and_prune-last s b open_ chain size =
      let (t, saved, still) = save_block_open s cfg.avs_address b open_ in
      let frame = save_block_frame cfg.avs_address s b t cfg.chain_id b.number saved in
      rw saved
        (elim (Bool-cases (ltb 0 cfg.block_history_size && ltb cfg.block_history_size b.number)) [
          | inl old ↦
              rw old
                (elim (delete_block_outcome t cfg.avs_address cfg.chain_id
                  (b.number - cfg.block_history_size) still) [
                    | inl (u, e, gone) ↦
                        let kept =
                          delete_block_frame cfg.avs_address t cfg.chain_id
                            (b.number - cfg.block_history_size) u cfg.chain_id b.number e in
                        rw e (
                          get_last_processed_block_stored u cfg.avs_address cfg.chain_id b.number b
                            (closed-delete_block t cfg.avs_address cfg.chain_id
                                (b.number - cfg.block_history_size) u e
                              ∙ still)
                            (ground (arith, kept, frame)) (ground (arith, kept, frame, old)))
                    | inr (e, gone) ↦ rw e (
                        get_last_processed_block_stored t cfg.avs_address cfg.chain_id b.number b
                          still (ground (arith, frame)) (ground (arith, frame)))
                  ])
          | inr young ↦ rw young (
              get_last_processed_block_stored t cfg.avs_address cfg.chain_id b.number b still
                (ground (arith, frame)) (ground (arith, frame)))
        ])

  -- A block of the chain that was processed without an error is the chain's last processed block,
  -- whatever its logs did, where the store is open and the history keeps a block at least.
  pub process_block_logs-last :
      (w : World MemoryStore) (block : EthereumBlock) (b : BlockRecord)
      → w.store.closed ≡ false
      → 0 < cfg.block_history_size
      → (process_block_logs memory_store cfg env w block).1 ≡ some b
      → (b ≡ record_of block cfg.chain_id)
        × (get_last_processed_block
              (process_block_logs memory_store cfg env w block).0.store
              cfg.avs_address
              cfg.chain_id
            ≡ ok b)
  unfolding process_block_logs
  process_block_logs-last w block b open_ size h =
      elim (Option-cases (fetch_logs memory_store cfg env block.number)) [
        | inl e ↦ absurd (ground (arith, h, e))
        | inr (logs, e) ↦
            let next =
              process_logs memory_store cfg env w (record block { chain_id = cfg.chain_id }) logs in
            let same = process_logs-SameBlocks w (record block { chain_id = cfg.chain_id }) logs in
            elim (Bool-cases next.1) [
              | inl done ↦
                  let this : b ≡ record_of block cfg.chain_id = ground (arith, h, e, done) in
                  rw (e, process_block_logs, done, this)
                    (
                      refl,
                      save_and_prune-last next.0.store (record_of block cfg.chain_id)
                          (same.closed ∙ open_) refl size,
                    )
              | inr stop ↦ absurd (ground (arith, h, e, stop))
            ]
      ]
