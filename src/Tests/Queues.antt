-- ===== src/Tests/Queues.antt =====
-- A task that arrives at a poller.
use hourglass_monorepo.Prelude.{true, false, some, none, [], ◌∷◌}
use hourglass_monorepo.Text.{codes}
use hourglass_monorepo.Types.{Task}
use hourglass_monorepo.Storage.Memory.{MemoryStore}
use hourglass_monorepo.Poller.{PollerConfig, Env, World}

abbrev cfg : PollerConfig
cfg = record {
  chain_id = 1;
  interesting_contracts = [];
  avs_address = codes "0xC";
  max_reorg_depth = 10;
  block_history_size = 100;
}

abbrev env : Env (Unit {0})
env = record {
  now = 0;
  parent_done = false;
  latest_block = none;
  block_by_number = λ n. none;
  get_logs = λ contract n. some [];
  decode_log = λ raw. none;
  mailbox = λ chain. some none;
  address_string = λ a. a;
  accepts = λ task. true;
}

abbrev task : Task
task = record {
  task_id = codes "t";
  avs_address = codes "0xc";
  operator_set_id = 7;
  callback_addr = codes "0xd";
  deadline = 100;
  threshold_bips = 0;
  payload = [];
  chain_id = 1;
  source_block_number = 4;
  l1_reference_block_number = 0;
  reference_timestamp = 5;
  block_hash = 1 ∷ [];
  version = 1;
}

abbrev world : World MemoryStore
world = record {
  store = record { closed = false; last_processed_blocks = []; tasks = []; blocks = [] };
  contexts = [];
  queue = [];
}
