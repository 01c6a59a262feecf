-- ===== src/Poller/Reorg/Ancestor.antt =====
-- Over the in-memory store: a reorganisation that branched off a stored block, within reach.
use hourglass_monorepo.Prelude.{
  ℕ, zero, suc, ◌+◌, ◌-◌, ◌%◌, ◌^◌, ◌≤◌, ◌<◌, ◌≡◌, refl, ◌∙◌, true, false, Option, none, some, List,
  [], ◌∷◌, ◌++◌, arith, All, length, ok,
}
use mathlib.Core.List.{append_assoc, append-nil}
use hourglass_monorepo.Text.{bytes_beq}
use hourglass_monorepo.Types.{EthereumBlock}
use hourglass_monorepo.Storage.{BlockRecord}
use hourglass_monorepo.Storage.Memory.{
  MemoryStore, memory_store, get_last_processed_block, get_block,
}
use hourglass_monorepo.Storage.Memory.Blocks.{
  stored_block, save_block_frame, delete_block_frame, save_block_open,
  get_last_processed_block_stored,
}
use hourglass_monorepo.Poller.{PollerConfig, Env, World}
use hourglass_monorepo.Poller.Reorg.{walk_back, find_orphaned_blocks, reconcile_reorg}
use hourglass_monorepo.Poller.Reorg.Stuck.{
  dropped, drop_orphans_inv, last_number-dropped, closed-dropped,
}

module _ {RawLog : Type 0} (cfg : PollerConfig) (env : Env RawLog) where
  -- The stored blocks from this number down to the first one that the canonical chain has too:
  -- those above it were orphaned.
  pub data Branch (s : MemoryStore) : ℕ → List BlockRecord → BlockRecord → Type 0 where
    forks :
        {n : ℕ} (canon : EthereumBlock) (b : BlockRecord)
        → 0 < n
        → env.block_by_number n ≡ some canon
        → get_block s cfg.avs_address cfg.chain_id n ≡ ok b
        → bytes_beq canon.hash b.hash ≡ true
        → b.chain_id ≡ cfg.chain_id
        → b.number ≡ n
        → Branch s n [] b
    orphan :
        {n : ℕ} {orphans : List BlockRecord} {ancestor : BlockRecord} (canon : EthereumBlock)
        (b : BlockRecord)
        → env.block_by_number (n + 1) ≡ some canon
        → get_block s cfg.avs_address cfg.chain_id (n + 1) ≡ ok b
        → bytes_beq canon.hash b.hash ≡ false
        → b.chain_id ≡ cfg.chain_id
        → b.number ≡ n + 1
        → Branch s n orphans ancestor
        → Branch s (n + 1) (b ∷ orphans) ancestor

  -- The walk finds the orphans and the ancestor, where its depth exceeds the number of orphans.
  walk_back-Branch :
      (s : MemoryStore) {n : ℕ} {orphans : List BlockRecord} {ancestor : BlockRecord} (depth : ℕ)
      (found : List BlockRecord) (parent : Option BlockRecord)
      → Branch s n orphans ancestor
      → length orphans < depth
      → walk_back memory_store cfg env depth n s found parent
        ≡ some (found ++ orphans, some ancestor)
  unfolding walk_back
  walk_back-Branch s zero found parent branch h = elim h [ ]
  walk_back-Branch s (suc depth) found parent (forks canon b positive e g same c m) h =
      rw (append-nil found) (ground arith)
  walk_back-Branch s (suc depth) found parent
        (orphan {n = n} {orphans = orphans} canon b e g differ c m rest) h =
      ground (
        arith,
        walk_back-Branch s {n = n} depth (found ++ (b ∷ [])) (some b) rest (omega (arith, h)),
        append_assoc found (b ∷ []) orphans,
      )

  -- The ancestor is a block of the chain, and every orphan is one above it.
  Branch-above :
      (s : MemoryStore) {n : ℕ} {orphans : List BlockRecord} {ancestor : BlockRecord}
      → Branch s n orphans ancestor
      → (ancestor.chain_id ≡ cfg.chain_id)
        × (ancestor.number ≤ n)
        × All (λ b. (b.chain_id ≡ cfg.chain_id) × (ancestor.number < b.number)) orphans
  Branch-above s (forks canon b positive e g same c m) = ground arith
  Branch-above s (orphan canon b e g differ c m rest) = ground (arith, Branch-above s rest)

  -- The ancestor's record is in the store.
  Branch-stored :
      (s : MemoryStore) {n : ℕ} {orphans : List BlockRecord} {ancestor : BlockRecord}
      → Branch s n orphans ancestor
      → (s.closed ≡ false)
        × (stored_block cfg.avs_address s cfg.chain_id ancestor.number ≡ some ancestor)
  unfolding get_block
  Branch-stored s (forks canon b positive e g same c m) = ground arith
  Branch-stored s (orphan canon b e g differ c m rest) = Branch-stored s rest

  -- Dropping blocks above a number keeps the record of that number.
  stored_block-dropped :
      (bs : List BlockRecord) (w : World MemoryStore) (n : ℕ)
      → All (λ b. (b.chain_id ≡ cfg.chain_id) × (n < b.number)) bs
      → stored_block cfg.avs_address (dropped cfg env w bs).0.store cfg.chain_id n
        ≡ stored_block cfg.avs_address w.store cfg.chain_id n
  stored_block-dropped bs w n above =
      drop_orphans_inv cfg env
        (λ s.
          stored_block cfg.avs_address s cfg.chain_id n
          ≡ stored_block cfg.avs_address w.store cfg.chain_id n)
        (λ b. (b.chain_id ≡ cfg.chain_id) × (n < b.number))
        (λ s s' sb p. ground (arith, sb.blocks, p))
        (λ s s' b q e p. ground (
          arith,
          delete_block_frame cfg.avs_address s b.chain_id b.number s' cfg.chain_id n e,
          p,
          q,
        ))
        bs w above refl

  -- Over the in-memory store, a reorganisation whose common ancestor is stored, and which orphaned fewer blocks than the
  -- configured depth, leaves the ancestor as the last processed block.
  pub reconcile_reorg_restores_ancestor :
      (w : World MemoryStore) (start : EthereumBlock) (n : ℕ) (orphaned : BlockRecord)
      (orphans : List BlockRecord) (ancestor : BlockRecord)
      → start.number ≡ n + 1
      → n + 1 < 2 ^ 64
      → Branch w.store n (orphaned ∷ orphans) ancestor
      → length (orphaned ∷ orphans) < cfg.max_reorg_depth
      → get_last_processed_block
          (reconcile_reorg memory_store cfg env w start).0.store
          cfg.avs_address
          cfg.chain_id
        ≡ ok ancestor
  unfolding reconcile_reorg find_orphaned_blocks
  reconcile_reorg_restores_ancestor w start n orphaned orphans ancestor next small branch deep =
      let above = Branch-above w.store branch in
      let (t, saved, still) =
        save_block_open w.store cfg.avs_address ancestor (Branch-stored w.store branch).0 in
      let frame =
        save_block_frame cfg.avs_address w.store ancestor t cfg.chain_id ancestor.number saved in
      let v : World MemoryStore = record w { store = t } in
      let bs = orphaned ∷ orphans in
      let first : (start.number + 2 ^ 64 - 1) % 2 ^ 64 ≡ n = omega (arith, next, small) in
      let found : find_orphaned_blocks memory_store cfg env w.store start ≡ ok (t, bs) =
        ground
          (arith, first, walk_back-Branch w.store cfg.max_reorg_depth [] none branch deep, saved) in
      rw (found, reconcile_reorg)
        (get_last_processed_block_stored (dropped cfg env v bs).0.store cfg.avs_address cfg.chain_id
          ancestor.number ancestor (closed-dropped cfg env bs v still)
          (last_number-dropped cfg env bs v cfg.chain_id ∙ ground (arith, frame, above))
          (stored_block-dropped bs v ancestor.number above.2 ∙ ground (arith, frame, above)))
