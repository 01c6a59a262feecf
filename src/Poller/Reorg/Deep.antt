-- ===== src/Poller/Reorg/Deep.antt =====
-- Over the in-memory store: a reorganisation that goes back further than the blocks that
-- `findOrphanedBlocks` looks at, or than the stored history.
use hourglass_monorepo.Prelude.{
  ℕ, suc, ◌+◌, ◌-◌, ◌%◌, ◌^◌, ◌<◌, ◌≡◌, ◌≢◌, refl, false, Option, none, some, List, [], ◌∷◌, ◌++◌,
  arith, ok, err, inl, inr,
}
use mathlib.Core.List.{append_assoc}
use hourglass_monorepo.Text.{bytes_beq}
use hourglass_monorepo.Types.{EthereumBlock}
use hourglass_monorepo.Storage.{BlockRecord, not_found}
use hourglass_monorepo.Storage.Memory.{
  MemoryStore, memory_store, get_last_processed_block, get_block,
}
use hourglass_monorepo.Storage.Memory.Blocks.{last_number, save_block_frame, save_block_open}
use hourglass_monorepo.Poller.{PollerConfig, Env, World, record_of}
use hourglass_monorepo.Poller.Reorg.{walk_back, find_orphaned_blocks, reconcile_reorg}
use hourglass_monorepo.Poller.Reorg.Stuck.{Orphans, reconcile_reorg_forgets_last}
use hourglass_monorepo.Poller.Tick.{process_next_block}

module _ {RawLog : Type 0} (cfg : PollerConfig) (env : Env RawLog) where
  -- So many stored blocks, from this number down, all differ from the canonical chain's.
  pub data Diverged (s : MemoryStore) : ℕ → ℕ → List BlockRecord → BlockRecord → Type 0 where
    ends :
        {n : ℕ} (canon : EthereumBlock) (b : BlockRecord)
        → 0 < n
        → env.block_by_number n ≡ some canon
        → get_block s cfg.avs_address cfg.chain_id n ≡ ok b
        → bytes_beq canon.hash b.hash ≡ false
        → b.chain_id ≡ cfg.chain_id
        → Diverged s 1 n (b ∷ []) b
    goes :
        {depth n : ℕ} {orphans : List BlockRecord} {last : BlockRecord} (canon : EthereumBlock)
        (b : BlockRecord)
        → env.block_by_number (n + 1) ≡ some canon
        → get_block s cfg.avs_address cfg.chain_id (n + 1) ≡ ok b
        → bytes_beq canon.hash b.hash ≡ false
        → Diverged s depth n orphans last
        → Diverged s (suc depth) (n + 1) (b ∷ orphans) last

  walk_back-Diverged :
      (s : MemoryStore) {depth n : ℕ} {orphans : List BlockRecord} {last : BlockRecord}
      (found : List BlockRecord) (parent : Option BlockRecord)
      → Diverged s depth n orphans last
      → walk_back memory_store cfg env depth n s found parent ≡ some (found ++ orphans, some last)
  unfolding walk_back
  walk_back-Diverged s found parent (ends canon b positive e g differ c) = ground arith
  walk_back-Diverged s found parent (goes {n = n} {orphans = orphans} canon b e g differ rest) =
      ground (
        arith,
        walk_back-Diverged s {n = n} (found ++ (b ∷ [])) (some b) rest,
        append_assoc found (b ∷ []) orphans,
      )

  -- The last block looked at is of the chain, and is itself among the orphans.
  Diverged-Orphans :
      (s : MemoryStore) {depth n : ℕ} {orphans : List BlockRecord} {last : BlockRecord}
      → Diverged s depth n orphans last
      → (s.closed ≡ false)
        × (last.chain_id ≡ cfg.chain_id)
        × Orphans cfg env cfg.chain_id last.number orphans
  unfolding get_block
  Diverged-Orphans s (ends canon b positive e g differ c) = (ground arith, c, inl (c, refl))
  Diverged-Orphans s (goes canon b e g differ rest) =
      let ih = Diverged-Orphans s rest in (ih.0, ih.1, inr ih.2)

  -- The chain has no last processed block, and no later tick changes anything.
  abbrev pub IsStuck : World MemoryStore → Type 0
  IsStuck w =
      (get_last_processed_block w.store cfg.avs_address cfg.chain_id ≡ err not_found)
      × ((later : Env RawLog) → process_next_block memory_store cfg later w ≡ w)

  not_found-IsStuck :
      (w : World MemoryStore)
      → get_last_processed_block w.store cfg.avs_address cfg.chain_id ≡ err not_found
      → IsStuck w
  unfolding process_next_block
  not_found-IsStuck w e = (e, λ later. rw (e, process_next_block) refl)

  -- Over the in-memory store, where all the blocks that `findOrphanedBlocks` looks at were orphaned,
  -- down to its depth, the chain is left with no last processed block, and no later tick changes
  -- anything.
  pub deep_reorg_sticks :
      (w : World MemoryStore) (start : EthereumBlock) (n : ℕ) (orphans : List BlockRecord)
      (last : BlockRecord)
      → start.number ≡ n + 1
      → n + 1 < 2 ^ 64
      → Diverged w.store cfg.max_reorg_depth n orphans last
      → IsStuck (reconcile_reorg memory_store cfg env w start).0
  unfolding find_orphaned_blocks
  deep_reorg_sticks w start n orphans last next small diverged =
      let (open_, chain, among) = Diverged-Orphans w.store diverged in
      let (t, saved, still) = save_block_open w.store cfg.avs_address last open_ in
      let frame = save_block_frame cfg.avs_address w.store last t cfg.chain_id last.number saved in
      let first : (start.number + 2 ^ 64 - 1) % 2 ^ 64 ≡ n = omega (arith, next, small) in
      not_found-IsStuck _ (
        reconcile_reorg_forgets_last cfg env w start t orphans last.number
          (ground (arith, first, walk_back-Diverged w.store [] none diverged, saved)) still
          (ground (arith, frame, chain)) among)

  -- Where the last processed block was orphaned and its parent is not stored, so that the walk
  -- saves the parent under the chain id that the node's client gave it, which is another one, the
  -- chain is left with no last processed block, and no later tick changes anything.
  pub unstored_parent_sticks :
      (w : World MemoryStore) (start : EthereumBlock) (n depth : ℕ) (b : BlockRecord)
      (canon parent : EthereumBlock)
      → start.number ≡ n + 2
      → n + 2 < 2 ^ 64
      → 0 < n
      → cfg.max_reorg_depth ≡ depth + 2
      → last_number cfg.avs_address w.store cfg.chain_id ≡ some (n + 1)
      → get_block w.store cfg.avs_address cfg.chain_id (n + 1) ≡ ok b
      → b.number ≡ n + 1
      → b.chain_id ≡ cfg.chain_id
      → env.block_by_number (n + 1) ≡ some canon
      → bytes_beq canon.hash b.hash ≡ false
      → get_block w.store cfg.avs_address cfg.chain_id n ≡ err not_found
      → env.block_by_number n ≡ some parent
      → parent.chain_id ≢ cfg.chain_id
      → IsStuck (reconcile_reorg memory_store cfg env w start).0
  unstored_parent_sticks w start n depth b canon parent next small positive deep last stored number
        chain e differ gone e' foreign =
      let open_ : w.store.closed ≡ false = unfold get_block in ground (arith, stored) in
      let p = record_of parent parent.chain_id in
      let (t, saved, still) = save_block_open w.store cfg.avs_address p open_ in
      let frame = save_block_frame cfg.avs_address w.store p t cfg.chain_id n saved in
      let first : (start.number + 2 ^ 64 - 1) % 2 ^ 64 ≡ n + 1 = omega (arith, next, small) in
      let walked : walk_back memory_store cfg env (suc (suc depth)) (n + 1) w.store [] none
          ≡ some (b ∷ [], some p) =
        unfold walk_back in ground (arith, stored, gone, e, e', differ, positive) in
      not_found-IsStuck _ (
        reconcile_reorg_forgets_last cfg env w start t (b ∷ []) (n + 1)
          (unfold find_orphaned_blocks in ground (arith, first, walked, saved, deep)) still
          (ground (arith, frame, foreign, last)) (inl (chain, number)))
