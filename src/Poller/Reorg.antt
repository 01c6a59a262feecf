-- ===== src/Poller/Reorg.antt =====
-- evmChainPoller.go: how a tick undoes the blocks that a chain reorganisation orphaned.
pub mod Stuck
pub mod Ancestor
pub mod Deep
use hourglass_monorepo.Prelude.{
  ℕ, zero, suc, ◌+◌, ◌-◌, ◌%◌, ◌^◌, Bool, true, false, not, ◌&&◌, Option, none, some, List, [], ◌∷◌,
  ◌++◌, map, nat_beq, ltb, if◌then◌else◌, not_empty, Result, ok, err,
}
use hourglass_monorepo.Text.{Bytes, bytes_beq, codes, to_lower, equal_fold}
use hourglass_monorepo.Util.{filter}
use hourglass_monorepo.Types.{Task, EthereumBlock, DecodedLog, TaskError, new_task_from_log}
use hourglass_monorepo.Storage.{
  AggregatorStore, BlockRecord, StoreError, not_found, TaskStatus, failed,
}
use hourglass_monorepo.Contexts.{BlockContexts, Context, is_done, logged, get_context, cancel_block}
use hourglass_monorepo.Poller.{PollerConfig, Env, World, record_of}

-- The errors of `findOrphanedBlocks`.
pub data ReorgError : Type 0 where
  fetch_failed : ReorgError
  store_failed : StoreError → ReorgError

-- The channel's tasks of a block hold its context, so they see that it is cancelled.
abbrev mark_cancelled : Option Context → ℕ → List (Task × Context) → List (Task × Context)
mark_cancelled none number queue = queue
mark_cancelled (some ctx) number [] = []
mark_cancelled (some ctx) number ((task, c) ∷ rest) =
    (if nat_beq task.source_block_number number then (task, ctx) else (task, c))
    ∷ mark_cancelled (some ctx) number rest

-- One round of the loop of `reconcileReorg`, up to the deletion of the block.
abbrev pub cancel_orphan : {S : Type 0} → AggregatorStore S → World S → BlockRecord → World S
cancel_orphan st w b =
    let (s, contexts, cancelled) = cancel_block st w.store w.contexts b.number in
    record { store = s; contexts = contexts; queue = mark_cancelled cancelled b.number w.queue }

module _ {S RawLog : Type 0} (st : AggregatorStore S) (cfg : PollerConfig) (env : Env RawLog) where
  -- The loop of `findOrphanedBlocks`: `depth` rounds are left, `orphaned` and `parent` are its
  -- variables. A failed fetch or read ends it with `none`.
  unfoldable pub walk_back :
      ℕ
      → ℕ
      → S
      → List BlockRecord
      → Option BlockRecord
      → Option (List BlockRecord × Option BlockRecord)
  walk_back zero number s orphaned parent = some (orphaned, parent)
  walk_back (suc depth) number s orphaned parent =
      let onwards =
        λ (b : BlockRecord). walk_back depth (number - 1) s (orphaned ++ (b ∷ [])) (some b) in
      if nat_beq number 0 then some (orphaned, parent) else elim (env.block_by_number number) [
        | none ↦ none
        | some canon ↦ elim (st.get_block s cfg.avs_address cfg.chain_id number) [
          | ok b ↦ if bytes_beq canon.hash b.hash then some (orphaned, some b) else onwards b
          | err e ↦ elim e [
            | not_found ↦ some (orphaned, some (record_of canon canon.chain_id))
            | _ ↦ none
          ]
        ]
      ]

  -- `findOrphanedBlocks`. Both of its ends save the last block that it looked at, if any. The
  -- first number is a `uint64` difference.
  unfoldable pub find_orphaned_blocks : S → EthereumBlock → Result ReorgError (S × List BlockRecord)
  find_orphaned_blocks s start =
      elim (walk_back cfg.max_reorg_depth ((start.number + 2 ^ 64 - 1) % 2 ^ 64) s [] none) [
        | none ↦ err fetch_failed
        | some (orphaned, parent) ↦ elim (st.save_block s cfg.avs_address parent) [
          | ok s' ↦ ok (s', orphaned)
          | err e ↦ err (store_failed e)
        ]
      ]

  -- The loop of `reconcileReorg`; the flag is false where it returns an error.
  unfoldable pub drop_orphans : World S → List BlockRecord → World S × Bool
  drop_orphans w [] = (w, true)
  drop_orphans w (b ∷ bs) =
      let w' = cancel_orphan st w b in
      elim (st.delete_block w'.store cfg.avs_address b.chain_id b.number) [
        | ok s ↦ drop_orphans (record w' { store = s }) bs
        | err e ↦ elim e [ not_found ↦ drop_orphans w' bs | _ ↦ (w', false) ]
      ]

  -- `reconcileReorg`
  unfoldable pub reconcile_reorg : World S → EthereumBlock → World S × Bool
  reconcile_reorg w start = elim (find_orphaned_blocks w.store start) [
    | err e ↦ (w, false)
    | ok (s, orphaned) ↦
        let w' = record w { store = s } in
        if not_empty orphaned then drop_orphans w' orphaned else (w', false)
  ]
