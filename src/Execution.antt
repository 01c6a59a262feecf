-- ===== src/Execution.antt =====
-- ponos/pkg/aggregator/avsExecutionManager/avsExecutionManager.go: takes the tasks of an AVS from
-- its queue, runs a session for each, submits the certificate and keeps the task's status. The
-- store is any AggregatorStore. `sync.Map`s and channels are part of the manager's state, and what
-- a `select` takes is an argument.
pub mod Handling
pub mod Outcomes
pub mod Stranded
pub mod Recovery
use hourglass_monorepo.Prelude.{
  ℕ, Bool, true, false, not, Option, none, some, List, [], ◌∷◌, ◌++◌, ltb, nat_beq, length,
  if◌then◌else◌, is_none, is_empty, Result, ok, err, ◌>>=◌, ◌>>◌, guard, or_fail,
}
use hourglass_monorepo.Text.{Bytes, bytes_beq}
use hourglass_monorepo.Dict.{Dict, get, put, remove, bytes_eq, nat_eq}
use hourglass_monorepo.Types.{Task}
use hourglass_monorepo.Storage.{TaskStatus, processing, completed, failed, AggregatorStore}
use hourglass_monorepo.Contexts.{logged}
use hourglass_monorepo.Peering.{CurveType, unknown_curve, ecdsa, bn254, curve_beq}
use hourglass_monorepo.Chain.{
  ContractCaller, ChainAvsConfig, ExecutorOperatorSetConfig, get_consensus_value, get_curve_type,
  zero_address, table_updater_of,
}
use hourglass_monorepo.Operators.{
  OperatorManager, OperatorError, PeerWeight, get_executor_peers_and_weights_for_task,
  get_curve_type_for_operator_set,
}
use hourglass_monorepo.Aggregation.Bn254.{Bn254Backend}
use hourglass_monorepo.Session.Setup.{
  SessionError, new_ecdsa_task_session, new_bn254_task_session, ContextError, canceled,
  deadline_exceeded, other_context_error,
}

pub data ExecutionError : Type 0 where
  already_processing no_contract_caller chains_failed no_table_updater reference_failed :
      ExecutionError
  opset_config_failed bad_curve_type bad_consensus_value bad_consensus_type : ExecutionError
  avs_config_failed avs_curve_type_failed unsupported_curve_type peers_failed no_operators :
      ExecutionError
  opset_curve_type_failed session_not_created : ExecutionError
  session_failed context_cancelled context_deadline context_failed : ExecutionError
  l1_chain_missing mailbox_missing caller_missing l1_caller_missing : ExecutionError

-- `AvsExecutionManagerConfig`, as far as a decision reads it.
pub record ExecutionConfig : Type 0 where
  pub avs_address : Bytes
  pub supported_chain_ids : List ℕ
  pub mailbox_contract_addresses : Dict ℕ Bytes
  pub l1_chain_id : ℕ

-- A task on the queue. Its `Context` is no part of its JSON, so a task that a store has unmarshalled
-- has a nil one.
pub record QueuedTask : Type 0 where
  pub task : Task
  pub has_context : Bool

-- `AvsExecutionManager`: what changes. The queue is a channel of a fixed capacity.
pub record Manager (S : Type 0) : Type 0 where
  pub store : S
  pub inflight_tasks : Dict Bytes (Unit {0})
  pub task_queue : List QueuedTask

-- The loops of `hasExpectedMailboxContractsForChains` and `hasExpectedContractCallersForChains`.
unfoldable pub has_expected : {V : Type 0} → List ℕ → Dict ℕ V → Bool
has_expected [] m = true
has_expected (id ∷ ids) m = if is_none (get id m) then false else has_expected ids m

-- The checks of `NewAvsExecutionManager`; the store is no nil.
unfoldable pub check_manager :
    ExecutionConfig → Dict ℕ ContractCaller → Result ExecutionError (Unit {0})
check_manager config callers = do
  guard (not (nat_beq config.l1_chain_id 0)) l1_chain_missing
  guard (has_expected config.supported_chain_ids config.mailbox_contract_addresses) mailbox_missing
  guard (has_expected config.supported_chain_ids callers) caller_missing
  guard (not (is_none (get config.l1_chain_id callers))) l1_caller_missing

-- `NewAvsExecutionManager`
unfoldable pub new_avs_execution_manager :
    {S : Type 0}
    → ExecutionConfig
    → Dict ℕ ContractCaller
    → S
    → List QueuedTask
    → Result ExecutionError (Manager S)
new_avs_execution_manager config callers store task_queue = do
  check_manager config callers
  ok (record { store = store; inflight_tasks = []; task_queue = task_queue })

-- `OperatorSetTaskConfig`, as far as `handleTask` reads it.
pub record TaskConfig : Type 0 where
  pub curve_type : CurveType
  pub threshold : ℕ
  pub l1_reference_block_number : ℕ

module _ (config : ExecutionConfig) (callers : Dict ℕ ContractCaller) where
  -- `getContractCallerForChain`
  unfoldable pub get_contract_caller_for_chain : ℕ → Result ExecutionError ContractCaller
  get_contract_caller_for_chain chain_id = or_fail (get chain_id callers) no_contract_caller

  -- `getL1BlockForChainBlock`
  unfoldable pub get_l1_block_for_chain_block : ℕ → ℕ → Result ExecutionError ℕ
  get_l1_block_for_chain_block chain_id task_block_number =
      if nat_beq chain_id config.l1_chain_id then ok task_block_number else (do
        l1 ← or_fail (get config.l1_chain_id callers) no_contract_caller
        target ← or_fail (get chain_id callers) no_contract_caller
        chains ← or_fail (l1.get_supported_chains 0) chains_failed
        let updater = table_updater_of chain_id chains
        guard (not (bytes_beq updater zero_address)) no_table_updater
        reference ←
            or_fail (target.get_table_updater_reference updater task_block_number) reference_failed
        ok reference.block_number)

  -- `getExecutorTaskConfig`; `hex_to_address` is go-ethereum's.
  unfoldable pub get_executor_task_config :
      (Bytes → Bytes) → Task → Result ExecutionError TaskConfig
  get_executor_task_config hex_to_address task = do
    cc ← get_contract_caller_for_chain task.chain_id
    l1_block ← get_l1_block_for_chain_block task.chain_id task.source_block_number
    let block =
        if nat_beq task.chain_id config.l1_chain_id then l1_block else task.source_block_number
    opset ←
        or_fail
          (cc.get_executor_operator_set_task_config (hex_to_address task.avs_address)
            task.operator_set_id block)
          opset_config_failed
    curve_type ← or_fail (get_curve_type opset) bad_curve_type
    threshold ← elim (get_consensus_value opset) [ ok v ↦ ok v | err e ↦ err bad_consensus_value ]
    guard (nat_beq opset.consensus_type 1) bad_consensus_type
    ok (record {
      curve_type = curve_type;
      threshold = threshold;
      l1_reference_block_number = l1_block;
    })

  -- `getAvsConfig`, with the curve type that it adds.
  unfoldable pub get_avs_config : ℕ → Result ExecutionError (ChainAvsConfig × CurveType)
  get_avs_config block_number = do
    cc ← or_fail (get config.l1_chain_id callers) no_contract_caller
    avs ← or_fail (cc.get_avs_config config.avs_address block_number) avs_config_failed
    curve_type ←
        or_fail
          (cc.get_operator_set_curve_type config.avs_address avs.aggregator_operator_set_id
            block_number)
          avs_curve_type_failed
    ok (avs, curve_type)

-- What `handleTask` has found out when it starts a session.
pub record Prepared : Type 0 where
  pub task : Task
  pub peers : PeerWeight
  pub curve_type : CurveType

-- A session that was created, for the curve types that have one.
abbrev created : {A : Type 0} → Result SessionError A → Prepared → Result ExecutionError Prepared
created (ok session) prepared = ok prepared
created (err e) prepared = err session_not_created

module _ {Pk Sig Point : Type 0} (b : Bn254Backend Pk Sig Point) (address_string : Bytes → Bytes)
    (config : ExecutionConfig) (callers : Dict ℕ ContractCaller) (om : OperatorManager) where
  -- The end of `handleTask`: the session of the operator set's curve type.
  abbrev create_session : Prepared → CurveType → Result ExecutionError Prepared
  create_session prepared bn254 =
      created (new_bn254_task_session b prepared.task prepared.peers) prepared
  create_session prepared ecdsa =
      created (new_ecdsa_task_session {Sig = Sig} prepared.task prepared.peers) prepared
  create_session prepared unknown_curve = err unsupported_curve_type

  -- `handleTask` between the update of the status and the processing, which asks the chains only.
  unfoldable pub prepare_task : Task → Result ExecutionError Prepared
  prepare_task task = do
    cfg ← get_executor_task_config config callers b.eth.hex_to_address task
    let known = record task {
      threshold_bips = cfg.threshold;
      l1_reference_block_number = cfg.l1_reference_block_number;
    }
    avs ← get_avs_config config callers known.l1_reference_block_number
    guard (not (curve_beq avs.1 unknown_curve)) unsupported_curve_type
    chain_cc ← get_contract_caller_for_chain config callers known.chain_id
    peers ← or_peers (
        get_executor_peers_and_weights_for_task b.eth.hex_to_address address_string om known
          cfg.curve_type)
    guard (not (is_empty peers.operators)) no_operators
    opset_curve_type ← or_curve (
        get_curve_type_for_operator_set om known.avs_address known.operator_set_id
          known.l1_reference_block_number)
    l1 ← or_fail (get config.l1_chain_id callers) no_contract_caller
    create_session (record { task = known; peers = peers; curve_type = opset_curve_type })
        opset_curve_type
    where
      or_peers : Result OperatorError PeerWeight → Result ExecutionError PeerWeight
      or_peers (ok p) = ok p
      or_peers (err e) = err peers_failed

      or_curve : Result OperatorError CurveType → Result ExecutionError CurveType
      or_curve (ok c) = ok c
      or_curve (err e) = err opset_curve_type_failed
