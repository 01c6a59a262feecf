-- ===== src/Aggregation/Ecdsa.antt =====
-- ponos/pkg/signing/aggregation/ecdsa.go: the aggregator of ECDSA-signed task results.
-- `Sig` is the parsed signature type of crypto-libs. The mutex makes each method one step.
pub mod Process
pub mod Invariant
pub mod Certificate
pub mod Respelled
use hourglass_monorepo.Prelude.{
  ℕ, suc, Bool, true, false, not, ◌&&◌, Option, none, some, List, [], ◌∷◌, ◌++◌, map, length, ltb,
  nat_beq, if◌then◌else◌, is_none, is_empty, not_empty, Result, ok, err, ◌>>=◌, ◌>>◌, guard,
  or_fail,
}
use hourglass_monorepo.Text.{Bytes, bytes_beq, equal_fold}
use hourglass_monorepo.Dict.{Dict, get, put, bytes_eq}
use hourglass_monorepo.Eth.{EthLib}
use hourglass_monorepo.Util.{find}
use hourglass_monorepo.Types.{TaskResult, to_signing_bytes}
use hourglass_monorepo.Aggregation.{
  Operator, Received, SignerInfo, AggregatedOperators, AggregationError,
}
use hourglass_monorepo.Aggregation.Tally.{
  record_signer, winning_group, signing_threshold_met, nothing_collected,
}

-- What the aggregator calls: crypto-libs, go-ethereum and, through `IContractCaller`, the chain.
pub record Backend (Sig : Type 0) : Type 0 where
  pub eth : EthLib
  -- `L1ContractCaller.CalculateTaskMessageHash`
  pub calculate_task_message_hash : Bytes → Bytes → Option Bytes
  -- `L1ContractCaller.CalculateECDSACertificateDigestBytes`
  pub calculate_certificate_digest : ℕ → Bytes → Option Bytes
  -- `ecdsa.NewSignatureFromBytes` and `Signature.Bytes`
  pub parse_signature : Bytes → Option Sig
  pub signature_bytes : Sig → Bytes
  -- `Signature.VerifyWithAddress`; `none` is an error.
  pub verify_with_address : Sig → Bytes → Bytes → Option Bool

-- `ECDSATaskResultAggregator`, less the task data and expiration time, which no method reads.
pub record EcdsaAggregator (Sig : Type 0) : Type 0 where
  pub task_id : Bytes
  pub reference_timestamp : ℕ
  pub operator_set_id : ℕ
  pub threshold_bips : ℕ
  pub operators : List Operator
  pub operator_signatures : Dict Bytes (Received Sig)
  pub aggregate_public_keys : List Bytes
  pub aggregated_operators : Option (AggregatedOperators Bytes Bytes Sig)

-- `AggregatedECDSACertificate`, less the unset time.
pub record EcdsaCertificate : Type 0 where
  pub task_id : Bytes
  pub task_response : Bytes
  pub task_response_digest : Bytes
  pub signers_signatures : Dict Bytes Bytes

abbrev pub max_bips : ℕ
max_bips = 10000

-- `verified, err := …` followed by a refusal of both an error and a mismatch.
abbrev pub is_verified : Option Bool → Bool
is_verified (some true) = true
is_verified (some false) = false
is_verified none = false

-- `signersSignatures`: the address of each signer's operator, with its signature.
unfoldable pub collect_signatures :
    EthLib → Dict Bytes (SignerInfo Bytes Bytes) → Dict Bytes Bytes → Dict Bytes Bytes
collect_signatures eth [] out = out
collect_signatures eth ((a, signer) ∷ signers) out =
    collect_signatures eth signers
      (put (eth.hex_to_address signer.operator.address) signer.signature out)

-- What `ProcessNewSignature` finds out before it writes anything.
pub record Accepted (Sig : Type 0) : Type 0 where
  pub operator : Operator
  pub digest : Bytes
  pub signature : Sig

module _ {Sig : Type 0} where
  -- `NewECDSATaskResultAggregator`
  unfoldable pub new_ecdsa_aggregator :
      Bytes → ℕ → ℕ → ℕ → List Operator → Result AggregationError (EcdsaAggregator Sig)
  new_ecdsa_aggregator task_id reference_timestamp operator_set_id threshold_bips operators = do
    guard (not_empty task_id) AggregationError.invalid_task_id
    guard (ltb 0 reference_timestamp) AggregationError.invalid_reference_timestamp
    guard (not_empty operators) AggregationError.no_operator_addresses
    guard (ltb 0 threshold_bips && ltb threshold_bips (suc max_bips))
        AggregationError.invalid_threshold
    ok (record {
      task_id = task_id;
      reference_timestamp = reference_timestamp;
      operator_set_id = operator_set_id;
      threshold_bips = threshold_bips;
      operators = operators;
      operator_signatures = [];
      aggregate_public_keys = map (λ o. o.public_key) operators;
      aggregated_operators = none;
    })

  -- `VerifyResponseSignature`
  unfoldable pub verify_response_signature :
      Backend Sig
      → EcdsaAggregator Sig
      → TaskResult
      → Operator
      → Bytes
      → Result AggregationError Sig
  verify_response_signature b tra r operator digest = do
    guard (equal_fold r.operator_address operator.address)
        AggregationError.operator_address_mismatch
    result_sig ←
        or_fail (b.parse_signature r.result_signature) AggregationError.result_signature_invalid
    signed_over ←
        or_fail (b.calculate_certificate_digest tra.reference_timestamp digest)
          AggregationError.certificate_digest_failed
    guard
        (is_verified
          (b.verify_with_address result_sig (b.eth.keccak256 signed_over) operator.public_key))
        AggregationError.result_verification_failed
    auth_sig ← or_fail (b.parse_signature r.auth_signature) AggregationError.auth_signature_invalid
    guard
        (is_verified (
          b.verify_with_address auth_sig (b.eth.keccak256 (auth_bytes result_sig))
            operator.public_key))
        AggregationError.auth_verification_failed
    ok result_sig
    where
      auth_bytes : Sig → Bytes
      auth_bytes result_sig = to_signing_bytes b.eth (record {
        task_id = r.task_id;
        avs_address = r.avs_address;
        operator_address = r.operator_address;
        operator_set_id = r.operator_set_id;
        result_sig_digest = b.eth.keccak256 (b.signature_bytes result_sig);
      })

  -- `ProcessNewSignature` up to the verified signature. `copy` into `[32]byte` keeps the hash.
  unfoldable pub check_response :
      Backend Sig → EcdsaAggregator Sig → TaskResult → Result AggregationError (Accepted Sig)
  check_response b tra r = do
    guard (bytes_beq tra.task_id r.task_id) AggregationError.task_id_mismatch
    guard (nat_beq r.operator_set_id tra.operator_set_id) AggregationError.operator_set_mismatch
    operator ←
        or_fail (find tra.operators (λ op. equal_fold op.address r.operator_address))
          AggregationError.not_in_allowed_set
    guard (not_empty r.result_signature) AggregationError.result_signature_empty
    guard (not_empty r.auth_signature) AggregationError.auth_signature_empty
    guard (is_none (get r.operator_address tra.operator_signatures))
        AggregationError.already_submitted
    digest ←
        or_fail (b.calculate_task_message_hash (b.eth.hex_to_hash r.task_id) r.output)
          AggregationError.message_hash_failed
    sig ← verify_response_signature b tra r operator digest
    ok (record { operator = operator; digest = digest; signature = sig })

  -- The rest of `ProcessNewSignature`: the writes, none of which can fail.
  unfoldable pub store_response :
      EcdsaAggregator Sig → TaskResult → Accepted Sig → EcdsaAggregator Sig
  store_response tra r accepted =
      let rr : Received Sig = record {
        task_id = tra.task_id;
        task_result = r;
        signature = accepted.signature;
        output_digest = accepted.digest;
      } in
      record tra {
        operator_signatures = put r.operator_address rr tra.operator_signatures;
        aggregated_operators = some (
            record_signer tra.aggregated_operators accepted.digest r.operator_address rr (record {
              public_key = accepted.operator.public_key;
              signature = r.result_signature;
              operator = accepted.operator;
            }));
      }

  -- `ProcessNewSignature`
  unfoldable pub process_new_signature :
      Backend Sig → EcdsaAggregator Sig → TaskResult → Result AggregationError (EcdsaAggregator Sig)
  process_new_signature b tra r = do
    accepted ← check_response b tra r
    ok (store_response tra r accepted)

  -- `SigningThresholdMet`
  unfoldable pub ecdsa_threshold_met : EcdsaAggregator Sig → Bool
  ecdsa_threshold_met tra =
      signing_threshold_met tra.operators tra.threshold_bips tra.aggregated_operators

  -- `GenerateFinalCertificate`
  unfoldable pub generate_final_certificate :
      EthLib → EcdsaAggregator Sig → Result AggregationError EcdsaCertificate
  generate_final_certificate eth tra = do
    guard (not (nothing_collected tra.aggregated_operators))
        AggregationError.no_signatures_collected
    group ← or_fail (winning_group tra.aggregated_operators) AggregationError.no_winning_signatures
    guard (not_empty group.signers) AggregationError.no_winning_signatures
    task_id_bytes ← or_fail (eth.hex_decode tra.task_id) AggregationError.task_id_decode_failed
    ok (record {
      task_id = task_id_bytes;
      task_response = group.response.task_result.output;
      task_response_digest = group.response.output_digest;
      signers_signatures = collect_signatures eth group.signers [];
    })
