-- ===== src/Chain.antt =====
-- ponos/pkg/contractCaller/contractCaller.go and the curve types of ponos/pkg/config: what the
-- aggregator asks a chain. The interface is a record of operations; `none` is an error.
use hourglass_monorepo.Prelude.{
  ℕ, Option, none, some, List, [], ◌∷◌, Result, ◌%◌, ◌^◌, nat_beq, if◌then◌else◌,
}
use hourglass_monorepo.Text.{Bytes}
use hourglass_monorepo.Peering.{CurveType, unknown_curve, ecdsa, bn254, OperatorPeerInfo}
use hourglass_monorepo.Messages.{MessageError, abi_decode_uint16}

-- `ConvertSolidityEnumToCurveType`; `none` is an error.
unfoldable pub convert_solidity_enum_to_curve_type : ℕ → Option CurveType
convert_solidity_enum_to_curve_type n =
    if nat_beq n 0
    then some unknown_curve
    else if nat_beq n 1
    then some ecdsa
    else if nat_beq n 2
    then some bn254
    else none

-- `ConvertCurveTypeToSolidityEnum`
unfoldable pub convert_curve_type_to_solidity_enum : CurveType → ℕ
convert_curve_type_to_solidity_enum unknown_curve = 0
convert_curve_type_to_solidity_enum ecdsa = 1
convert_curve_type_to_solidity_enum bn254 = 2

-- `AVSConfig`
pub record ChainAvsConfig : Type 0 where
  pub aggregator_operator_set_id : ℕ
  pub executor_operator_set_ids : List ℕ

-- `BN254OperatorInfo`
pub record Bn254OperatorInfo : Type 0 where
  pub pubkey_x : ℕ
  pub pubkey_y : ℕ
  pub weights : List ℕ

-- `OperatorTableData`, less the updater addresses, which nothing reads. The operators and their
-- weights, two slices of one length, are one list.
pub record OperatorTableData : Type 0 where
  pub operators : List (Bytes × List ℕ)
  pub latest_reference_timestamp : ℕ
  pub latest_reference_block_number : ℕ
  pub operator_info_tree_root : Bytes
  pub operator_infos : List Bn254OperatorInfo

-- `LatestReferenceTimeAndBlock`
pub record ReferenceTimeAndBlock : Type 0 where
  pub timestamp : ℕ
  pub block_number : ℕ

-- `TaskMailboxExecutorOperatorSetConfig`, less the addresses and metadata that no decision reads.
pub record ExecutorOperatorSetConfig : Type 0 where
  pub curve_type : ℕ
  pub consensus_type : ℕ
  pub consensus_value : Bytes

-- `GetConsensusValue`
unfoldable pub get_consensus_value : ExecutorOperatorSetConfig → Result MessageError ℕ
get_consensus_value tm = abi_decode_uint16 tm.consensus_value

-- `GetCurveType`
unfoldable pub get_curve_type : ExecutorOperatorSetConfig → Option CurveType
get_curve_type tm = convert_solidity_enum_to_curve_type tm.curve_type

-- `IContractCaller`, as the aggregator uses it. Supported chains come with their updaters.
pub record ContractCaller : Type 0 where
  pub get_avs_config : Bytes → ℕ → Option ChainAvsConfig
  pub get_operator_set_curve_type : Bytes → ℕ → ℕ → Option CurveType
  pub get_operator_set_members_with_peering : Bytes → ℕ → ℕ → Option (List OperatorPeerInfo)
  pub get_operator_table_data : Bytes → ℕ → ℕ → ℕ → Option OperatorTableData
  pub get_table_updater_reference : Bytes → ℕ → Option ReferenceTimeAndBlock
  pub get_supported_chains : ℕ → Option (List (ℕ × Bytes))
  pub get_executor_operator_set_task_config : Bytes → ℕ → ℕ → Option ExecutorOperatorSetConfig
  pub get_operator_infos : Bytes → ℕ → ℕ → Option (List Bn254OperatorInfo)
  pub get_operator_info_tree_root : Bytes → ℕ → ℕ → ℕ → Option Bytes

-- `common.Address{}`
abbrev pub zero_address : Bytes
zero_address = 0 ∷ 0 ∷ 0 ∷ 0 ∷ 0 ∷ 0 ∷ 0 ∷ 0 ∷ 0 ∷ 0 ∷ 0 ∷ 0 ∷ 0 ∷ 0 ∷ 0 ∷ 0 ∷ 0 ∷ 0 ∷ 0 ∷ 0 ∷ []

-- The search for the updater of a chain; the zero address where there is none.
unfoldable pub table_updater_of : ℕ → List (ℕ × Bytes) → Bytes
table_updater_of chain_id [] = zero_address
table_updater_of chain_id ((id, updater) ∷ rest) =
    if nat_beq (id % 2 ^ 64) chain_id then updater else table_updater_of chain_id rest
