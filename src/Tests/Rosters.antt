-- ===== src/Tests/Rosters.antt =====
-- An operator manager over one chain with one operator.
use hourglass_monorepo.Prelude.{◌≡◌, refl, none, some, List, [], ◌∷◌, length, All, ok}
use hourglass_monorepo.Text.{Bytes, codes, to_lower, equal_fold}
use hourglass_monorepo.Dict.{get, put, bytes_eq, nat_eq}
use hourglass_monorepo.Util.{filter}
use hourglass_monorepo.Aggregation.{Operator}
use hourglass_monorepo.Peering.{ecdsa, OperatorPeerInfo, any_operator_set, includes_operator_set_id}
use hourglass_monorepo.Chain.{ContractCaller, OperatorTableData}
use hourglass_monorepo.Operators.{
  OperatorManager, PeerWeight, get_executor_peers_and_weights_for_task, fetch_operator_table_data,
  get_contract_caller_for_chain_id, build_operator_weights, add_operator_weights,
  filter_operators_for_set, list_executor_operators, merge_operator_sets, merge_peers,
}
use hourglass_monorepo.Operators.Members.{IsStaked, session_operators-IsStaked}
use hourglass_monorepo.Session.Setup.{session_operators}
use hourglass_monorepo.Tests.Stores.{task}

abbrev pub peer : OperatorPeerInfo
peer = record {
  operator_address = codes "0xA";
  operator_sets =
      (record {
        operator_set_id = 7;
        operator_index = 0;
        public_key = 1 ∷ [];
        ecdsa_address = 2 ∷ [];
        network_address = codes "host";
        curve_type = ecdsa;
      })
      ∷ [];
}

abbrev table : OperatorTableData
table = record {
  operators = (codes "0xA", 60 ∷ []) ∷ [];
  latest_reference_timestamp = 5;
  latest_reference_block_number = 4;
  operator_info_tree_root = [];
  operator_infos = [];
}

abbrev pub chain : ContractCaller
chain = record {
  get_avs_config =
      λ avs n. some (record { aggregator_operator_set_id = 0; executor_operator_set_ids = 7 ∷ [] });
  get_operator_set_curve_type = λ avs id n. some ecdsa;
  get_operator_set_members_with_peering = λ avs id n. some (peer ∷ []);
  get_operator_table_data = λ avs id c n. some table;
  get_table_updater_reference = λ a n. none;
  get_supported_chains = λ n. some [];
  get_executor_operator_set_task_config = λ avs id n. none;
  get_operator_infos = λ avs id n. none;
  get_operator_info_tree_root = λ avs id n t. none;
}

abbrev om : OperatorManager
om = record {
  avs_address = codes "0xc";
  l1_chain_id = 1;
  contract_callers = (1, chain) ∷ [];
  fetcher = chain;
}

abbrev peers : PeerWeight
peers = record {
  chain_id = 1;
  operator_set_id = 7;
  root_reference_timestamp = 5;
  weights = (codes "0xA", 60 ∷ []) ∷ [];
  operators = peer ∷ [];
  curve_type = ecdsa;
  operator_info_tree_root = [];
  operator_infos = [];
}

abbrev same : Bytes → Bytes
same a = a

found : get_executor_peers_and_weights_for_task same same om task ecdsa ≡ ok peers
unfolding get_executor_peers_and_weights_for_task fetch_operator_table_data
    get_contract_caller_for_chain_id build_operator_weights add_operator_weights
    filter_operators_for_set list_executor_operators merge_operator_sets merge_peers get put filter
    equal_fold to_lower includes_operator_set_id any_operator_set
found = refl

session_operators-IsStaked_example :
    (t : OperatorTableData) × (operators : List Operator) × (fetch_operator_table_data same om
        (same task.avs_address)
        task.operator_set_id
        task.chain_id
        ecdsa
        task.l1_reference_block_number
        task.source_block_number
      ≡ ok t)
    × (session_operators (λ os. os.ecdsa_address) peers.weights task.operator_set_id peers.operators
        ≡ ok operators)
    × (length operators ≡ length peers.operators)
    × All (IsStaked same t) operators
session_operators-IsStaked_example =
    session_operators-IsStaked same same om task ecdsa (λ os. os.ecdsa_address) peers found
