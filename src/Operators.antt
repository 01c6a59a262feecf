-- ===== src/Operators.antt =====
-- ponos/pkg/operatorManager/operatorManager.go and ponos/pkg/peering/peeringDataFetcher: the
-- operators that a task goes to, with their stakes. The chains are contract callers, `cc`; hex
-- parsing and the printing of addresses are go-ethereum's.
pub mod Members
use hourglass_monorepo.Prelude.{
  ℕ, Bool, true, false, not, ◌&&◌, Option, none, some, List, [], ◌∷◌, ◌++◌, ◌%◌, ◌^◌, nat_beq,
  if◌then◌else◌, Result, ok, err, ◌>>=◌, ◌>>◌, guard, or_fail,
}
use hourglass_monorepo.Text.{Bytes, bytes_beq, equal_fold}
use hourglass_monorepo.Dict.{Dict, get, put, bytes_eq, nat_eq}
use hourglass_monorepo.Util.{filter}
use hourglass_monorepo.Types.{Task}
use hourglass_monorepo.Peering.{
  CurveType, bn254, curve_beq, OperatorPeerInfo, includes_operator_set_id,
}
use hourglass_monorepo.Chain.{
  ContractCaller, OperatorTableData, Bn254OperatorInfo, ReferenceTimeAndBlock, zero_address,
  table_updater_of,
}

pub data OperatorError : Type 0 where
  no_contract_caller avs_config_failed members_failed curve_type_failed : OperatorError
  table_data_failed supported_chains_failed no_table_updater reference_failed : OperatorError
  operator_infos_failed tree_root_failed : OperatorError

-- `PeerWeight`
pub record PeerWeight : Type 0 where
  pub chain_id : ℕ
  pub operator_set_id : ℕ
  pub root_reference_timestamp : ℕ
  pub weights : Dict Bytes (List ℕ)
  pub operators : List OperatorPeerInfo
  pub curve_type : CurveType
  pub operator_info_tree_root : Bytes
  pub operator_infos : List Bn254OperatorInfo

-- The loop of `ListExecutorOperators` over the members of one operator set.
unfoldable pub merge_peers :
    Dict Bytes OperatorPeerInfo → List OperatorPeerInfo → Dict Bytes OperatorPeerInfo
merge_peers infos [] = infos
merge_peers infos (p ∷ rest) = elim (get p.operator_address infos) [
  | none ↦ merge_peers (put p.operator_address p infos) rest
  | some known ↦
      merge_peers
        (put p.operator_address
          (record known { operator_sets = known.operator_sets ++ p.operator_sets }) infos)
        rest
]

-- The values of a map, in its iteration order.
abbrev pub values : {V : Type 0} → Dict Bytes V → List V
values [] = []
values ((k, v) ∷ m) = v ∷ values m

-- The loop of `ListExecutorOperators` over the operator sets.
unfoldable pub merge_operator_sets :
    ContractCaller
    → Bytes
    → ℕ
    → Dict Bytes OperatorPeerInfo
    → List ℕ
    → Result OperatorError (Dict Bytes OperatorPeerInfo)
merge_operator_sets cc avs_address block_number infos [] = ok infos
merge_operator_sets cc avs_address block_number infos (id ∷ ids) =
    elim (cc.get_operator_set_members_with_peering avs_address id block_number) [
      | none ↦ err members_failed
      | some members ↦
          merge_operator_sets cc avs_address block_number (merge_peers infos members) ids
    ]

-- `ListExecutorOperators`
unfoldable pub list_executor_operators :
    ContractCaller → Bytes → ℕ → Result OperatorError (List OperatorPeerInfo)
list_executor_operators cc avs_address block_number = do
  cfg ← or_fail (cc.get_avs_config avs_address block_number) avs_config_failed
  infos ← merge_operator_sets cc avs_address block_number [] cfg.executor_operator_set_ids
  ok (values infos)

-- `ListAggregatorOperators`
unfoldable pub list_aggregator_operators :
    ContractCaller → Bytes → ℕ → Result OperatorError (List OperatorPeerInfo)
list_aggregator_operators cc avs_address block_number = do
  cfg ← or_fail (cc.get_avs_config avs_address block_number) avs_config_failed
  or_fail
      (cc.get_operator_set_members_with_peering avs_address cfg.aggregator_operator_set_id
        block_number)
      members_failed

-- `OperatorManager` and its configuration; `fetcher` is the caller of its peering data fetcher.
pub record OperatorManager : Type 0 where
  pub avs_address : Bytes
  pub l1_chain_id : ℕ
  pub contract_callers : Dict ℕ ContractCaller
  pub fetcher : ContractCaller

-- `getContractCallerForChainId`
unfoldable pub get_contract_caller_for_chain_id :
    OperatorManager → ℕ → Result OperatorError ContractCaller
get_contract_caller_for_chain_id om chain_id =
    or_fail (get chain_id om.contract_callers) no_contract_caller

-- `GetCurveTypeForOperatorSet`
unfoldable pub get_curve_type_for_operator_set :
    OperatorManager → Bytes → ℕ → ℕ → Result OperatorError CurveType
get_curve_type_for_operator_set om avs_address operator_set_id block_number = do
  l1 ← get_contract_caller_for_chain_id om om.l1_chain_id
  or_fail (l1.get_operator_set_curve_type avs_address operator_set_id block_number)
      curve_type_failed

-- `decorateOperatorTableRoot`
unfoldable pub decorate_operator_table_root :
    OperatorManager
    → OperatorTableData
    → ℕ
    → ℕ
    → Bytes
    → ℕ
    → ReferenceTimeAndBlock
    → Result OperatorError OperatorTableData
decorate_operator_table_root om table_data task_chain_id task_block_number avs_address
      operator_set_id reference =
    do
      task_cc ← get_contract_caller_for_chain_id om task_chain_id
      calculator_cc ←
          if nat_beq task_chain_id om.l1_chain_id
          then ok task_cc
          else get_contract_caller_for_chain_id om om.l1_chain_id
      infos ←
          or_fail
            (calculator_cc.get_operator_infos avs_address operator_set_id reference.block_number)
            operator_infos_failed
      root ←
          or_fail
            (task_cc.get_operator_info_tree_root avs_address operator_set_id task_block_number
              reference.timestamp)
            tree_root_failed
      ok (record table_data {
        operator_infos = infos;
        operator_info_tree_root = root;
        latest_reference_timestamp = reference.timestamp;
        latest_reference_block_number = reference.block_number;
      })

-- The choice of the updater in `fetchOperatorTableData`: it goes on where an updater is zero.
unfoldable pub first_table_updater : ℕ → Bytes → List (ℕ × Bytes) → Bytes
first_table_updater chain_id found [] = found
first_table_updater chain_id found ((id, updater) ∷ rest) =
    first_table_updater chain_id
      (if bytes_beq found zero_address && nat_beq (id % 2 ^ 64) chain_id then updater else found)
      rest

-- A key of the weights folds like the address.
abbrev pub has_weights : Dict Bytes (List ℕ) → Bytes → Bool
has_weights [] address = false
has_weights ((k, w) ∷ weights) address =
    if equal_fold k address then true else has_weights weights address

-- `filterOperatorsForSet`
unfoldable pub filter_operators_for_set :
    List OperatorPeerInfo → Dict Bytes (List ℕ) → ℕ → List OperatorPeerInfo
filter_operators_for_set operators weights operator_set_id =
    filter operators
      (λ op. has_weights weights op.operator_address && includes_operator_set_id op operator_set_id)

module _ (hex_to_address : Bytes → Bytes) where
  -- `fetchOperatorTableData`
  unfoldable pub fetch_operator_table_data :
      OperatorManager → Bytes → ℕ → ℕ → CurveType → ℕ → ℕ → Result OperatorError OperatorTableData
  fetch_operator_table_data om avs_address operator_set_id task_chain_id curve_type l1_block_number
        task_block_number =
      do
        l1 ← get_contract_caller_for_chain_id om om.l1_chain_id
        table_data ←
            or_fail
              (l1.get_operator_table_data (hex_to_address om.avs_address) operator_set_id
                om.l1_chain_id l1_block_number)
              table_data_failed
        if not (curve_beq curve_type bn254) then ok table_data else (do
          chains ← or_fail (l1.get_supported_chains l1_block_number) supported_chains_failed
          let updater = first_table_updater task_chain_id zero_address chains
          guard (not (bytes_beq updater zero_address)) no_table_updater
          task_cc ← get_contract_caller_for_chain_id om task_chain_id
          reference ←
              or_fail (task_cc.get_table_updater_reference updater task_block_number)
                reference_failed
          decorate_operator_table_root om table_data task_chain_id task_block_number avs_address
              operator_set_id reference)

module _ (address_string : Bytes → Bytes) where
  -- The loop of `buildOperatorWeights`
  unfoldable pub add_operator_weights :
      Dict Bytes (List ℕ) → List (Bytes × List ℕ) → Dict Bytes (List ℕ)
  add_operator_weights weights [] = weights
  add_operator_weights weights ((operator, w) ∷ rest) =
      add_operator_weights (put (address_string operator) w weights) rest

  -- `buildOperatorWeights`
  unfoldable pub build_operator_weights : OperatorTableData → Dict Bytes (List ℕ)
  build_operator_weights table_data = add_operator_weights [] table_data.operators

module _ (hex_to_address address_string : Bytes → Bytes) where
  -- `GetExecutorPeersAndWeightsForTask`
  unfoldable pub get_executor_peers_and_weights_for_task :
      OperatorManager → Task → CurveType → Result OperatorError PeerWeight
  get_executor_peers_and_weights_for_task om task curve_type = do
    table_data ←
        fetch_operator_table_data hex_to_address om (hex_to_address task.avs_address)
          task.operator_set_id task.chain_id curve_type task.l1_reference_block_number
          task.source_block_number
    operators ← list_executor_operators om.fetcher om.avs_address task.l1_reference_block_number
    ok (record {
      chain_id = task.chain_id;
      operator_set_id = task.operator_set_id;
      root_reference_timestamp = task.reference_timestamp;
      weights = build_operator_weights address_string table_data;
      operators =
          filter_operators_for_set operators (build_operator_weights address_string table_data)
            task.operator_set_id;
      curve_type = curve_type;
      operator_info_tree_root = table_data.operator_info_tree_root;
      operator_infos = table_data.operator_infos;
    })

  -- `GetExecutorPeersAndWeightsForBlock`
  unfoldable pub get_executor_peers_and_weights_for_block :
      OperatorManager → ℕ → ℕ → ℕ → Result OperatorError PeerWeight
  get_executor_peers_and_weights_for_block om chain_id task_block_number operator_set_id = do
    let is_l1_task = nat_beq chain_id om.l1_chain_id
    l1 ← get_contract_caller_for_chain_id om om.l1_chain_id
    target ← if is_l1_task then ok l1 else get_contract_caller_for_chain_id om chain_id
    chains ← or_fail (l1.get_supported_chains 0) supported_chains_failed
    let updater = table_updater_of chain_id chains
    guard (not (bytes_beq updater zero_address)) no_table_updater
    reference ←
        or_fail (target.get_table_updater_reference updater task_block_number) reference_failed
    let block = if is_l1_task then task_block_number else reference.block_number
    curve_type ←
        or_fail (l1.get_operator_set_curve_type om.avs_address operator_set_id block)
          curve_type_failed
    found ←
        or_fail
          (l1.get_operator_table_data (hex_to_address om.avs_address) operator_set_id om.l1_chain_id
            block)
          table_data_failed
    table_data ←
        if curve_beq curve_type bn254
        then decorate_operator_table_root om found chain_id task_block_number
            (hex_to_address om.avs_address) operator_set_id reference
        else ok found
    operators ← list_executor_operators om.fetcher om.avs_address block
    ok (record {
      chain_id = chain_id;
      operator_set_id = operator_set_id;
      root_reference_timestamp =
          if is_l1_task then table_data.latest_reference_timestamp else reference.timestamp;
      weights = build_operator_weights address_string table_data;
      operators =
          filter_operators_for_set operators (build_operator_weights address_string table_data)
            operator_set_id;
      curve_type = curve_type;
      operator_info_tree_root = table_data.operator_info_tree_root;
      operator_infos = table_data.operator_infos;
    })
