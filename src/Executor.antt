-- ===== src/Executor.antt =====
-- ponos/pkg/executor/handlers.go: how an executor takes a task from an aggregator: the checks of the
-- submission, of its signature and of replays, the run of the task and the signing of its result.
pub mod Stores
pub mod Tasks
pub mod Honest
pub mod Signing
pub mod Accepted
pub mod Badger
pub mod Replays
pub mod Deployments
use hourglass_monorepo.Prelude.{
  ℕ, Bool, true, false, not, ◌&&◌, Option, none, some, List, [], ◌∷◌, nat_beq, length,
  if◌then◌else◌, is_none, not_empty, Result, ok, err, ◌>>=◌, ◌>>◌, guard, or_fail,
}
use hourglass_monorepo.Text.{Bytes, codes, has_prefix, equal_fold, to_lower}
use hourglass_monorepo.Eth.{EthLib}
use hourglass_monorepo.Types.{TaskResult, AuthSignatureData, to_signing_bytes}
use hourglass_monorepo.Messages.{encode_task_submission_message_versioned}
use hourglass_monorepo.Peering.{CurveType, unknown_curve, ecdsa, bn254, OperatorSet}
use hourglass_monorepo.Chain.{ChainAvsConfig}
use hourglass_monorepo.Aggregation.Ecdsa.{is_verified}
use hourglass_monorepo.Session.Setup.{TaskSubmission}

pub data ExecutorError : Type 0 where
  invalid_task_id invalid_aggregator_address invalid_avs_address : ExecutorError
  invalid_executor_address empty_signature zero_timestamp : ExecutorError
  empty_avs_address already_processed empty_executor_address executor_mismatch : ExecutorError
  opset_details_failed not_in_operator_set avs_config_failed avs_config_missing : ExecutorError
  aggregator_opset_failed aggregator_opset_missing unsupported_curve bad_signature : ExecutorError
  not_verified no_performer run_failed curve_type_failed task_hash_failed : ExecutorError
  no_signer digest_failed sign_failed : ExecutorError

-- What a store of an executor does for tasks; an error of the check is logged, and so is one of the
-- mark, which then leaves the store as it is.
pub record ProcessedTasks (S : Type 0) : Type 0 where
  pub is_task_processed : S → Bytes → Bool
  pub mark_task_processed : S → Bytes → S

-- A signer of the executor: `SignMessage` and `SignMessageForSolidity`.
pub record Signer : Type 0 where
  pub sign_message : Bytes → Option Bytes
  pub sign_message_for_solidity : Bytes → Option Bytes

-- What the executor calls: go-ethereum, crypto-libs, the chain and its signers. `none` is an error,
-- or a nil signer; an operator set without an error may be nil.
pub record ExecutorBackend : Type 0 where
  pub eth : EthLib
  -- `UnmarshalText` of a hash and of an address
  pub is_hash_text : Bytes → Bool
  pub is_address_text : Bytes → Bool
  pub get_avs_config : Bytes → ℕ → Option (Option ChainAvsConfig)
  pub get_operator_set_details : Bytes → Bytes → ℕ → ℕ → Option (Option OperatorSet)
  pub get_operator_set_curve_type : Bytes → ℕ → ℕ → Option CurveType
  pub calculate_task_message_hash : Bytes → Bytes → Option Bytes
  pub calculate_bn254_digest : ℕ → Bytes → Option Bytes
  pub calculate_ecdsa_digest : ℕ → Bytes → Option Bytes
  -- `NewSignatureFromBytes` of the scheme, then of ecdsa on the bytes of the signature
  pub parse_signature : CurveType → Bytes → Option Bytes
  pub parse_ecdsa : Bytes → Option Bytes
  -- `Verify` with a public key, `VerifyWithAddress`
  pub verify : Bytes → Bytes → Bytes → Option Bool
  pub verify_with_address : Bytes → Bytes → Bytes → Option Bool
  pub bn254_signer : Option Signer
  pub ecdsa_signer : Option Signer

module _ (b : ExecutorBackend) (operator_address : Bytes) where
  -- One address of `validateTaskSubmission`
  abbrev is_address : Bytes → Bool
  is_address a = nat_beq (length a) 42 && (has_prefix (codes "0x") a && b.is_address_text a)

  -- `validateTaskSubmission`
  unfoldable pub validate_task_submission : TaskSubmission → Result ExecutorError (Unit {0})
  validate_task_submission req = do
    guard
        (nat_beq (length req.task_id) 66
          && (has_prefix (codes "0x") req.task_id && b.is_hash_text req.task_id))
        invalid_task_id
    guard (is_address req.aggregator_address) invalid_aggregator_address
    guard (is_address req.avs_address) invalid_avs_address
    guard (is_address req.executor_address) invalid_executor_address
    guard (not_empty req.signature) empty_signature
    guard (not (nat_beq req.reference_timestamp 0)) zero_timestamp

  -- `validateOperatorInSet`
  unfoldable pub validate_operator_in_set : TaskSubmission → Result ExecutorError (Unit {0})
  validate_operator_in_set task = do
    details ←
        or_fail
          (b.get_operator_set_details (b.eth.hex_to_address operator_address) task.avs_address
            task.operator_set_id task.task_block_number)
          opset_details_failed
    set ← or_fail details not_in_operator_set
    ok tt

  -- `constructTaskSubmissionMessage`; nil where the version is not supported.
  unfoldable pub construct_task_submission_message : TaskSubmission → Bytes
  construct_task_submission_message task =
      elim (encode_task_submission_message_versioned b.eth task.task_id task.avs_address
        operator_address task.reference_timestamp task.task_block_number task.operator_set_id
        task.payload task.version) [ ok message ↦ message | err e ↦ [] ]

  -- The last part of `validateTaskSignature`: the verification over the hash of the message.
  unfoldable pub verify_submission : OperatorSet → Bytes → Bytes → Result ExecutorError (Unit {0})
  verify_submission set signature message_hash = elim set.curve_type [
    | unknown_curve ↦ err unsupported_curve
    | bn254 ↦ (do
      sig ← or_fail (b.parse_signature bn254 signature) bad_signature
      guard (is_verified (b.verify sig set.public_key message_hash)) not_verified)
    | ecdsa ↦ (do
      sig ← or_fail (b.parse_signature ecdsa signature) bad_signature
      typed ← or_fail (b.parse_ecdsa sig) bad_signature
      guard (is_verified (b.verify_with_address typed message_hash set.ecdsa_address)) not_verified)
  ]

  -- `validateTaskSignature`
  unfoldable pub validate_task_signature : TaskSubmission → Result ExecutorError (Unit {0})
  validate_task_signature task = do
    config ← or_fail (b.get_avs_config task.avs_address task.task_block_number) avs_config_failed
    avs ← or_fail config avs_config_missing
    details ←
        or_fail
          (b.get_operator_set_details (b.eth.hex_to_address task.aggregator_address)
            task.avs_address avs.aggregator_operator_set_id task.task_block_number)
          aggregator_opset_failed
    set ← or_fail details aggregator_opset_missing
    verify_submission set task.signature (b.eth.keccak256 (construct_task_submission_message task))

  -- The signer of a curve type, and the digest that it signs.
  unfoldable pub digest_to_sign :
      TaskSubmission → CurveType → Bytes → Result ExecutorError (Signer × Bytes)
  digest_to_sign task bn254 task_hash = do
    signer ← or_fail b.bn254_signer no_signer
    digest ← or_fail (b.calculate_bn254_digest task.reference_timestamp task_hash) digest_failed
    ok (signer, digest)
  digest_to_sign task ecdsa task_hash = do
    signer ← or_fail b.ecdsa_signer no_signer
    digest ← or_fail (b.calculate_ecdsa_digest task.reference_timestamp task_hash) digest_failed
    ok (signer, digest)
  digest_to_sign task unknown_curve task_hash = err unsupported_curve

  -- `signResult`: the signatures of the result and of the operator's identity.
  unfoldable pub sign_result : TaskSubmission → Bytes → Result ExecutorError (Bytes × Bytes)
  sign_result task output = do
    curve_type ←
        or_fail
          (b.get_operator_set_curve_type task.avs_address task.operator_set_id
            task.task_block_number)
          curve_type_failed
    task_hash ←
        or_fail (b.calculate_task_message_hash (b.eth.hex_to_hash task.task_id) output)
          task_hash_failed
    chosen ← digest_to_sign task curve_type task_hash
    result_sig ← or_fail (chosen.0.sign_message_for_solidity chosen.1) sign_failed
    auth_sig ←
        or_fail
          (chosen.0.sign_message (
            to_signing_bytes b.eth (record {
              task_id = task.task_id;
              avs_address = task.avs_address;
              operator_address = operator_address;
              operator_set_id = task.operator_set_id;
              result_sig_digest = b.eth.keccak256 result_sig;
            })))
          sign_failed
    ok (result_sig, auth_sig)
