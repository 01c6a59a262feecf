-- ===== src/Poller/Reorg/Stuck.antt =====
-- Over the in-memory store: what becomes of the last processed block when `reconcileReorg` drops
-- the block that `findOrphanedBlocks` has just saved, or one that it did not move away from.
use hourglass_monorepo.Prelude.{
  ℕ, ◌≡◌, refl, ◌∙◌, subst₂, Bool, false, none, some, List, [], ◌∷◌, arith, All, Result, ok, err,
  inl, inr, ◌⊎◌,
}
use hourglass_monorepo.Types.{EthereumBlock}
use hourglass_monorepo.Storage.{
  BlockRecord, StoreError, not_found, already_exists, store_closed, invalid_task_status,
  invalid_task, nil_block, invalid_transition, corrupt_record,
}
use hourglass_monorepo.Storage.Memory.{
  MemoryStore, memory_store, get_last_processed_block, delete_block,
}
use hourglass_monorepo.Storage.Memory.Blocks.{
  stored_block, last_number, delete_block_frame, closed-delete_block, delete_block_outcome,
}
use hourglass_monorepo.Contexts.Frame.{SameBlocks, cancel_block-SameBlocks}
use hourglass_monorepo.Poller.{PollerConfig, Env, World}
use hourglass_monorepo.Poller.Reorg.{
  cancel_orphan, drop_orphans, find_orphaned_blocks, reconcile_reorg,
}

abbrev cancelled : World MemoryStore → BlockRecord → World MemoryStore
cancelled = cancel_orphan memory_store

All-Unit : (bs : List BlockRecord) → All (λ b. Unit {0}) bs
All-Unit [] = tt
All-Unit (b ∷ bs) = (tt, All-Unit bs)

module _ {RawLog : Type 0} (cfg : PollerConfig) (env : Env RawLog) where
  -- The store after the loop of `reconcileReorg`.
  abbrev pub dropped : World MemoryStore → List BlockRecord → World MemoryStore × Bool
  dropped = drop_orphans memory_store cfg env

  -- What every round of the loop keeps, the loop keeps.
  module _ (P : MemoryStore → Type 0) (Q : BlockRecord → Type 0)
      (same : (s s' : MemoryStore) → SameBlocks s s' → P s → P s')
      (deletes : (s s' : MemoryStore) (b : BlockRecord)
        → Q b
        → delete_block s cfg.avs_address b.chain_id b.number ≡ ok s'
        → P s
        → P s') where
    drop_round :
        (b : BlockRecord) (bs : List BlockRecord) (w : World MemoryStore)
        → ((v : World MemoryStore) → P v.store → P (dropped v bs).0.store)
        → (r : Result StoreError MemoryStore)
        → delete_block (cancelled w b).store cfg.avs_address b.chain_id b.number ≡ r
        → Q b
        → P (cancelled w b).store
        → P (dropped w (b ∷ bs)).0.store
    unfolding drop_orphans
    drop_round b bs w rest (ok s) e q p = rw (e, drop_orphans) (rest _ (deletes _ s b q e p))
    drop_round b bs w rest (err not_found) e q p = rw (e, drop_orphans) (rest _ p)
    drop_round b bs w rest (err already_exists) e q p = rw (e, drop_orphans) p
    drop_round b bs w rest (err store_closed) e q p = rw (e, drop_orphans) p
    drop_round b bs w rest (err invalid_task_status) e q p = rw (e, drop_orphans) p
    drop_round b bs w rest (err invalid_task) e q p = rw (e, drop_orphans) p
    drop_round b bs w rest (err nil_block) e q p = rw (e, drop_orphans) p
    drop_round b bs w rest (err invalid_transition) e q p = rw (e, drop_orphans) p
    drop_round b bs w rest (err corrupt_record) e q p = rw (e, drop_orphans) p

    pub drop_orphans_inv :
        (bs : List BlockRecord) (w : World MemoryStore)
        → All Q bs
        → P w.store
        → P (dropped w bs).0.store
    unfolding drop_orphans
    drop_orphans_inv [] w q p = p
    drop_orphans_inv (b ∷ bs) w q p =
        drop_round b bs w (λ v. drop_orphans_inv bs v q.1) _ refl q.0
          (same w.store _ (cancel_block-SameBlocks w.store w.contexts b.number) p)

  -- The loop leaves the last processed numbers alone.
  pub last_number-dropped :
      (bs : List BlockRecord) (w : World MemoryStore) (c : ℕ)
      → last_number cfg.avs_address (dropped w bs).0.store c ≡ last_number cfg.avs_address w.store c
  last_number-dropped bs w c =
      drop_orphans_inv
        (λ s. last_number cfg.avs_address s c ≡ last_number cfg.avs_address w.store c) (λ b. Unit)
        (λ s s' sb p. ground (arith, sb.last))
        (λ s s' b q e p.
          ground (arith, delete_block_frame cfg.avs_address s b.chain_id b.number s' c b.number))
        bs w (All-Unit bs) refl

  -- It keeps the store open.
  pub closed-dropped :
      (bs : List BlockRecord) (w : World MemoryStore)
      → w.store.closed ≡ false
      → (dropped w bs).0.store.closed ≡ false
  closed-dropped bs w open_ =
      drop_orphans_inv (λ s. s.closed ≡ false) (λ b. Unit) (λ s s' sb p. sb.closed ∙ p)
        (λ s s' b q e p.
          ground (arith, closed-delete_block s cfg.avs_address b.chain_id b.number s' e))
        bs w (All-Unit bs) open_

  -- A record that is gone stays gone.
  pub stored_block-dropped-none :
      (bs : List BlockRecord) (w : World MemoryStore) (c n : ℕ)
      → stored_block cfg.avs_address w.store c n ≡ none
      → stored_block cfg.avs_address (dropped w bs).0.store c n ≡ none
  stored_block-dropped-none bs w c n gone =
      drop_orphans_inv (λ s. stored_block cfg.avs_address s c n ≡ none) (λ b. Unit)
        (λ s s' sb p. ground (arith, sb.blocks))
        (λ s s' b q e p.
          ground (arith, delete_block_frame cfg.avs_address s b.chain_id b.number s' c n))
        bs w (All-Unit bs) gone

  -- The chain's block of this number is among the orphans.
  abbrev pub Orphans : ℕ → ℕ → List BlockRecord → Type 0
  Orphans c n [] = ⊥
  Orphans c n (b ∷ bs) = ((b.chain_id ≡ c) × (b.number ≡ n)) ⊎ Orphans c n bs

  -- The loop over an open store removes every orphan's record.
  pub Orphans-gone :
      (bs : List BlockRecord) (w : World MemoryStore) (c n : ℕ)
      → w.store.closed ≡ false
      → Orphans c n bs
      → stored_block cfg.avs_address (dropped w bs).0.store c n ≡ none
  unfolding drop_orphans
  Orphans-gone [] w c n open_ o = absurd o
  Orphans-gone (b ∷ bs) w c n open_ o =
      elim (delete_block_outcome v.store cfg.avs_address b.chain_id b.number still) [
        | inl (s, e, gone) ↦
            rw (e, drop_orphans)
              (elim o [
                | inl (same, number) ↦
                    stored_block-dropped-none bs (record v { store = s }) c n
                      (subst₂ (λ x y. stored_block cfg.avs_address s x y ≡ none) same number gone)
                | inr later ↦
                    Orphans-gone bs (record v { store = s }) c n
                      (closed-delete_block v.store cfg.avs_address b.chain_id b.number s e ∙ still)
                      later
              ])
        | inr (e, gone) ↦
            rw (e, drop_orphans)
              (elim o [
                | inl (same, number) ↦ stored_block-dropped-none bs v c n (
                    subst₂ (λ x y. stored_block cfg.avs_address v.store x y ≡ none) same number
                      gone)
                | inr later ↦ Orphans-gone bs v c n still later
              ])
      ]
    where
      v : World MemoryStore
      v = cancelled w b

      still : v.store.closed ≡ false
      still = (cancel_block-SameBlocks w.store w.contexts b.number).closed ∙ open_

  -- Where the orphans include the block that counts as the last processed one, the chain is left
  -- with no last processed block.
  pub reconcile_reorg_forgets_last :
      (w : World MemoryStore) (start : EthereumBlock) (s : MemoryStore)
      (orphaned : List BlockRecord) (n : ℕ)
      → find_orphaned_blocks memory_store cfg env w.store start ≡ ok (s, orphaned)
      → s.closed ≡ false
      → last_number cfg.avs_address s cfg.chain_id ≡ some n
      → Orphans cfg.chain_id n orphaned
      → get_last_processed_block
          (reconcile_reorg memory_store cfg env w start).0.store
          cfg.avs_address
          cfg.chain_id
        ≡ err not_found
  unfolding reconcile_reorg get_last_processed_block
  reconcile_reorg_forgets_last w start s [] n found open_ last o = absurd o
  reconcile_reorg_forgets_last w start s (b ∷ bs) n found open_ last o =
      let v : World MemoryStore = record w { store = s } in
      ground (
        arith,
        found,
        closed-dropped (b ∷ bs) v open_,
        last_number-dropped (b ∷ bs) v cfg.chain_id,
        Orphans-gone (b ∷ bs) v cfg.chain_id n open_ o,
      )
