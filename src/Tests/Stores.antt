-- ===== src/Tests/Stores.antt =====
-- An in-memory store with one task and two blocks.
use hourglass_monorepo.Prelude.{
  ℕ, ◌≡◌, ◌≤◌, refl, true, false, none, some, [], List, ◌∷◌, length, ok,
}
use hourglass_monorepo.Text.{Bytes, codes, decimal}
use hourglass_monorepo.Dict.{get, put, remove, bytes_eq}
use hourglass_monorepo.Types.{Task}
use hourglass_monorepo.Storage.{TaskStatus, pending, processing, completed, TaskRecord, BlockRecord}
use hourglass_monorepo.Storage.Memory.{
  MemoryStore, make_block_record_key, make_block_key, save_block, delete_block, update_task_status,
  validate_task_status_transition,
}
use hourglass_monorepo.Storage.Memory.Statuses.{update_all, moves_left, update_all_bounded}
use hourglass_monorepo.Storage.Memory.{memory_store}
use hourglass_monorepo.Storage.Memory.Refines.{memory_board, lacks_id, memory_store_refines}
use hourglass_monorepo.Storage.Board.{TaskCall, save, update, discard, run_store, run_board}

abbrev pub task : Task
task = record {
  task_id = codes "t";
  avs_address = codes "0xc";
  operator_set_id = 7;
  callback_addr = codes "0xd";
  deadline = 100;
  threshold_bips = 0;
  payload = [];
  chain_id = 1;
  source_block_number = 4;
  l1_reference_block_number = 0;
  reference_timestamp = 5;
  block_hash = 1 ∷ [];
  version = 1;
}

abbrev recorded : TaskStatus → ℕ → TaskRecord
recorded status now = record { task = task; status = status; created_at = 0; updated_at = now }

abbrev pub store_of : TaskStatus → ℕ → MemoryStore
store_of status now = record {
  closed = false;
  last_processed_blocks = [];
  tasks = (codes "t", recorded status now) ∷ [];
  blocks = [];
}

started :
    update_task_status (store_of pending 0) 3 (codes "t") processing ≡ ok (store_of processing 3)
unfolding update_task_status validate_task_status_transition get put
started = refl

update_all_bounded_example : length (processing ∷ completed ∷ []) ≤ moves_left pending
update_all_bounded_example =
    update_all_bounded (store_of pending 0) 3 (codes "t") (processing ∷ completed ∷ []) pending
      (store_of completed 3) (unfold get in refl)
      (unfold update_all update_task_status validate_task_status_transition get put in refl)

abbrev block : ℕ → BlockRecord
block n = record { number = n; hash = n ∷ []; parent_hash = (n ∷ []); timestamp = 0; chain_id = 1 }

abbrev avs : Bytes
avs = codes "0xc"

abbrev saved : MemoryStore
saved = record {
  closed = false;
  last_processed_blocks = (make_block_key avs 1, 4) ∷ [];
  tasks = [];
  blocks = (make_block_record_key avs 1 4, block 4) ∷ [];
}

abbrev before : MemoryStore
before = record { closed = false; last_processed_blocks = []; tasks = []; blocks = [] }

saving : save_block before avs (some (block 4)) ≡ ok saved
unfolding save_block put
saving = refl

abbrev pruned : MemoryStore
pruned = record saved { blocks = [] }

pruning : delete_block saved avs 1 4 ≡ ok pruned
unfolding delete_block get remove make_block_record_key decimal
pruning = refl

abbrev calls : List TaskCall
calls =
    save task
    ∷ update (codes "t") processing
    ∷ update (codes "t") pending
    ∷ save task
    ∷ discard (codes "t")
    ∷ discard (codes "t")
    ∷ []

memory_store_refines_example :
    (
      (run_store memory_store before 0 calls).0,
      memory_board (run_store memory_store before 0 calls).1,
    )
    ≡ run_board lacks_id (memory_board before) calls
memory_store_refines_example = memory_store_refines before 0 calls refl

-- The second save succeeds here, and takes the task back to pending.
outcomes :
    (run_board lacks_id (λ id. none) calls).0 ≡ true ∷ true ∷ false ∷ true ∷ true ∷ false ∷ []
unfolding run_board
outcomes = refl
