-- ===== src/Contexts.antt =====
-- ponos/pkg/contextManager/taskBlockContextManager: one deadline context for the tasks of a block.
-- A context is its deadline and whether it was cancelled; `now` stands for the clock, and
-- `parent_done` for the parent context.
pub mod Frame
use hourglass_monorepo.Prelude.{
  ℕ, Bool, true, false, not, ◌||◌, Option, none, some, List, [], ◌∷◌, leb, if◌then◌else◌, Result,
  ok, err,
}
use hourglass_monorepo.Text.{Bytes, bytes_beq}
use hourglass_monorepo.Dict.{Dict, get, put, remove, nat_eq}
use hourglass_monorepo.Types.{Task}
use hourglass_monorepo.Storage.{AggregatorStore, StoreError}

-- A `context.WithDeadline`.
pub record Context : Type 0 where
  pub deadline : ℕ
  pub cancelled : Bool

-- `ctx.Done()` is closed.
abbrev pub is_done : ℕ → Bool → Context → Bool
is_done now parent_done ctx = parent_done || (ctx.cancelled || leb ctx.deadline now)

-- `BlockContext`; the set of task ids is a list without repeats.
pub record BlockContext : Type 0 where
  pub ctx : Context
  pub task_ids : List Bytes

abbrev pub BlockContexts : Type 0
BlockContexts = Dict ℕ BlockContext

-- `TaskIDs[id] = struct{}{}`
unfoldable pub add_id : Bytes → List Bytes → List Bytes
add_id id [] = id ∷ []
add_id id (x ∷ xs) = if bytes_beq x id then x ∷ xs else x ∷ add_id id xs

-- `GetContext`: the block's context, whoever asked first, or a new one with the task's deadline.
unfoldable pub get_context : BlockContexts → ℕ → Task → BlockContexts × Context
get_context contexts block_number task = elim (get block_number contexts) [
  | none ↦
      let ctx : Context = record { deadline = task.deadline; cancelled = false } in
      (put block_number (record { ctx = ctx; task_ids = task.task_id ∷ [] }) contexts, ctx)
  | some found ↦ (
    put block_number (record found { task_ids = add_id task.task_id found.task_ids }) contexts,
    found.ctx,
  )
]

-- A call whose error is only logged.
abbrev pub logged : {S : Type 0} → S → Result StoreError S → S
logged s (ok t) = t
logged s (err e) = s

module _ {S : Type 0} (st : AggregatorStore S) where
  -- The loop of `CancelBlock` over a block's tasks.
  unfoldable pub delete_tasks : S → List Bytes → S
  delete_tasks s [] = s
  delete_tasks s (id ∷ ids) = delete_tasks (logged s (st.delete_task s id)) ids

  -- `CancelBlock`; the last part is the context that is cancelled, which its tasks still hold.
  unfoldable pub cancel_block : S → BlockContexts → ℕ → S × BlockContexts × Option Context
  cancel_block s contexts block_number = elim (get block_number contexts) [
    | none ↦ (s, contexts, none)
    | some found ↦
        let ctx = found.ctx in
        (
          delete_tasks s found.task_ids,
          remove block_number contexts,
          some (record ctx { cancelled = true }),
        )
  ]

-- `cleanupContexts`: drops the blocks whose context is done.
unfoldable pub cleanup_contexts : ℕ → Bool → BlockContexts → BlockContexts
cleanup_contexts now parent_done [] = []
cleanup_contexts now parent_done ((n, b) ∷ rest) =
    let kept = cleanup_contexts now parent_done rest in
    if is_done now parent_done b.ctx then kept else (n, b) ∷ kept
