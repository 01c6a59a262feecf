-- ===== src/Contexts/Frame.antt =====
-- Cancelling a block over the in-memory store touches the store's tasks alone.
use hourglass_monorepo.Prelude.{ℕ, ◌≡◌, List, [], ◌∷◌, arith, inl, inr, Option-cases}
use hourglass_monorepo.Text.{Bytes}
use hourglass_monorepo.Dict.{get, nat_eq}
use hourglass_monorepo.Storage.Memory.{MemoryStore, memory_store, delete_task}
use hourglass_monorepo.Contexts.{BlockContexts, logged, delete_tasks, cancel_block}

-- Two stores with the same blocks, both open or both closed.
pub record SameBlocks (s s' : MemoryStore) : Type 0 where
  pub blocks : s'.blocks ≡ s.blocks
  pub last : s'.last_processed_blocks ≡ s.last_processed_blocks
  pub closed : s'.closed ≡ s.closed

delete_task-SameBlocks : (s : MemoryStore) (id : Bytes) → SameBlocks s (logged s (delete_task s id))
unfolding delete_task
delete_task-SameBlocks s id = ground arith

delete_tasks-SameBlocks :
    (s : MemoryStore) (ids : List Bytes) → SameBlocks s (delete_tasks memory_store s ids)
unfolding delete_tasks
delete_tasks-SameBlocks s [] = ground arith
delete_tasks-SameBlocks s (id ∷ ids) =
    ground (
      arith,
      delete_task-SameBlocks s id,
      delete_tasks-SameBlocks (logged s (delete_task s id)) ids,
    )

pub cancel_block-SameBlocks :
    (s : MemoryStore) (contexts : BlockContexts) (number : ℕ)
    → SameBlocks s (cancel_block memory_store s contexts number).0
unfolding cancel_block
cancel_block-SameBlocks s contexts number = elim (Option-cases (get number contexts)) [
  | inl e ↦ rw (e, cancel_block) (ground arith)
  | inr (b, e) ↦ rw (e, cancel_block) (delete_tasks-SameBlocks s b.task_ids)
]
