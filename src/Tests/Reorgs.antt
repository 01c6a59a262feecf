-- ===== src/Tests/Reorgs.antt =====
-- A poller whose two last blocks were orphaned.
use hourglass_monorepo.Prelude.{ℕ, ◌≡◌, refl, true, false, none, some, [], ◌∷◌, arith, ok}
use hourglass_monorepo.Text.{Bytes, codes, decimal}
use hourglass_monorepo.Dict.{get, bytes_eq}
use hourglass_monorepo.Types.{EthereumBlock}
use hourglass_monorepo.Storage.{BlockRecord}
use hourglass_monorepo.Storage.Memory.{
  MemoryStore, memory_store, make_block_record_key, make_block_key, get_last_processed_block,
  get_block,
}
use hourglass_monorepo.Poller.{PollerConfig, Env, World}
use hourglass_monorepo.Poller.Reorg.{reconcile_reorg}
use hourglass_monorepo.Poller.Reorg.Ancestor.{forks, orphan, reconcile_reorg_restores_ancestor}
use hourglass_monorepo.Poller.Reorg.Deep.{ends, goes, IsStuck, deep_reorg_sticks}

abbrev cfg_of : ℕ → PollerConfig
cfg_of depth = record {
  chain_id = 1;
  interesting_contracts = [];
  avs_address = codes "c";
  max_reorg_depth = depth;
  block_history_size = 100;
}

-- A canonical block, for which the client leaves the chain id 0.
abbrev canonical : ℕ → EthereumBlock
canonical n = record { number = n; hash = n ∷ []; parent_hash = []; timestamp = 0; chain_id = 0 }

abbrev env : Env (Unit {0})
env = record {
  now = 0;
  parent_done = false;
  latest_block = some 9;
  block_by_number = λ n. some (canonical n);
  get_logs = λ contract n. some [];
  decode_log = λ raw. none;
  mailbox = λ chain. some none;
  address_string = λ a. a;
  accepts = λ task. true;
}

abbrev block : ℕ → Bytes → BlockRecord
block n hash = record { number = n; hash = hash; parent_hash = []; timestamp = 0; chain_id = 1 }

-- Block 5 as on the canonical chain, and 6 and 7 of another one.
abbrev world : World MemoryStore
world = record {
  store = record {
    closed = false;
    last_processed_blocks = (make_block_key (codes "c") 1, 7) ∷ [];
    tasks = [];
    blocks =
        (make_block_record_key (codes "c") 1 5, block 5 (5 ∷ []))
        ∷ (make_block_record_key (codes "c") 1 6, block 6 (0 ∷ []))
        ∷ (make_block_record_key (codes "c") 1 7, block 7 (0 ∷ []))
        ∷ [];
  };
  contexts = [];
  queue = [];
}

stored5 : get_block world.store (codes "c") 1 5 ≡ ok (block 5 (5 ∷ []))
unfolding get_block get make_block_record_key decimal
stored5 = refl

stored6 : get_block world.store (codes "c") 1 6 ≡ ok (block 6 (0 ∷ []))
unfolding get_block get make_block_record_key decimal
stored6 = refl

stored7 : get_block world.store (codes "c") 1 7 ≡ ok (block 7 (0 ∷ []))
unfolding get_block get make_block_record_key decimal
stored7 = refl

reconcile_reorg_restores_ancestor_example :
    get_last_processed_block
      (reconcile_reorg memory_store (cfg_of 10) env world (canonical 8)).0.store
      (codes "c")
      1
    ≡ ok (block 5 (5 ∷ []))
reconcile_reorg_restores_ancestor_example =
    reconcile_reorg_restores_ancestor (cfg_of 10) env world (canonical 8) 7 (block 7 (0 ∷ []))
      (block 6 (0 ∷ []) ∷ []) (block 5 (5 ∷ [])) refl (omega arith)
      (orphan (canonical 7) (block 7 (0 ∷ [])) refl stored7 refl refl refl (
        orphan (canonical 6) (block 6 (0 ∷ [])) refl stored6 refl refl refl
          (forks (canonical 5) (block 5 (5 ∷ [])) (omega arith) refl stored5 refl refl refl)))
      (omega arith)

deep_reorg_sticks_example :
    IsStuck (cfg_of 2) env (reconcile_reorg memory_store (cfg_of 2) env world (canonical 8)).0
deep_reorg_sticks_example =
    deep_reorg_sticks (cfg_of 2) env world (canonical 8) 7
      (block 7 (0 ∷ []) ∷ block 6 (0 ∷ []) ∷ []) (block 6 (0 ∷ [])) refl (omega arith)
      (goes (canonical 7) (block 7 (0 ∷ [])) refl stored7 refl
        (ends (canonical 6) (block 6 (0 ∷ [])) (omega arith) refl stored6 refl refl))

-- Only block 7 is stored.
abbrev short : World MemoryStore
short = record world {
  store = record {
    closed = false;
    last_processed_blocks = (make_block_key (codes "c") 1, 7) ∷ [];
    tasks = [];
    blocks = (make_block_record_key (codes "c") 1 7, block 7 (0 ∷ [])) ∷ [];
  };
}
