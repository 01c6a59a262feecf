-- ===== src/Aggregation/Bn254.antt =====
-- ponos/pkg/signing/aggregation/bn254.go: the aggregator of BN254-signed task results. `Sig`, `Pk`
-- and `Point` are the signature, public key and G2 point types of crypto-libs.
pub mod Certificate
pub mod Invariant
use hourglass_monorepo.Prelude.{
  ℕ, suc, Bool, true, false, not, ◌&&◌, Option, none, some, List, [], ◌∷◌, ◌++◌, map, length, ltb,
  leb, nat_beq, if◌then◌else◌, is_none, is_empty, not_empty, replicate, Result, ok, err, ◌>>=◌,
  ◌>>◌, guard, or_fail,
}
use hourglass_monorepo.Text.{Bytes, bytes_beq, equal_fold}
use hourglass_monorepo.Dict.{Dict, get, put, bytes_eq}
use hourglass_monorepo.Eth.{EthLib}
use hourglass_monorepo.Util.{find}
use hourglass_monorepo.Types.{TaskResult, to_signing_bytes}
use hourglass_monorepo.Aggregation.{
  Operator, Received, SignerInfo, DigestGroup, AggregatedOperators, AggregationError,
}
use hourglass_monorepo.Aggregation.Tally.{record_signer, winning_group, signing_threshold_met}
use hourglass_monorepo.Aggregation.Ecdsa.{is_verified, max_bips}

-- What the aggregator calls: crypto-libs, go-ethereum and, through `IContractCaller`, the chain.
pub record Bn254Backend (Pk Sig Point : Type 0) : Type 0 where
  pub eth : EthLib
  -- `l1ContractCaller.CalculateTaskMessageHash`
  pub calculate_task_message_hash : Bytes → Bytes → Option Bytes
  -- `l1ContractCaller.CalculateBN254CertificateDigestBytes`, copied into 32 bytes
  pub calculate_certificate_digest : ℕ → Bytes → Option Bytes
  -- `bn254.NewSignatureFromBytes`, `bn254.NewPublicKeyFromBytes`
  pub parse_signature : Bytes → Option Sig
  pub parse_public_key : Bytes → Option Pk
  -- the assertion that an operator's key is a `*bn254.PublicKey`
  pub cast_public_key : Bytes → Option Pk
  -- `Signature.VerifySolidityCompatible`, `Signature.Verify`; `none` is an error.
  pub verify_solidity_compatible : Sig → Pk → Bytes → Option Bool
  pub verify : Sig → Pk → Bytes → Option Bool
  -- `bn254.AggregatePublicKeys`, `NewZeroG2Point`, `AddPublicKey`, `Signature.Add`
  pub aggregate_public_keys : List Pk → Option Pk
  pub zero_point : Point
  pub add_public_key : Point → Pk → Point
  pub add_signature : Sig → Sig → Sig

-- `BN254TaskResultAggregator`, less the task data and expiration time, which no method reads.
pub record Bn254Aggregator (Pk Sig : Type 0) : Type 0 where
  pub task_id : Bytes
  pub reference_timestamp : ℕ
  pub operator_set_id : ℕ
  pub threshold_bips : ℕ
  pub operators : List Operator
  pub received_signatures : Dict Bytes (Received Sig)
  pub aggregate_public_key : Pk
  pub aggregated_operators : Option (AggregatedOperators Pk Sig Sig)

-- What `ProcessNewSignature` finds out before it writes anything.
pub record Bn254Accepted (Sig : Type 0) : Type 0 where
  pub operator : Operator
  pub digest : Bytes
  pub signature : Sig

module _ {Pk Sig Point : Type 0} (b : Bn254Backend Pk Sig Point) where
  -- The loop of `AggregatePublicKeys`.
  unfoldable pub parse_public_keys : List Bytes → Result AggregationError (List Pk)
  parse_public_keys [] = ok []
  parse_public_keys (k ∷ ks) = do
    key ← or_fail (b.parse_public_key k) AggregationError.aggregate_keys_failed
    keys ← parse_public_keys ks
    ok (key ∷ keys)

  -- `NewBN254TaskResultAggregator`, with `AggregatePublicKeys`
  unfoldable pub new_bn254_aggregator :
      Bytes → ℕ → ℕ → ℕ → List Operator → Result AggregationError (Bn254Aggregator Pk Sig)
  new_bn254_aggregator task_id reference_timestamp operator_set_id threshold_bips operators = do
    guard (not_empty task_id) AggregationError.invalid_task_id
    guard (ltb 0 reference_timestamp) AggregationError.invalid_reference_timestamp
    guard (not_empty operators) AggregationError.no_operator_addresses
    guard (ltb 0 threshold_bips && ltb threshold_bips (suc max_bips))
        AggregationError.invalid_threshold
    keys ← parse_public_keys (map (λ o. o.public_key) operators)
    key ← or_fail (b.aggregate_public_keys keys) AggregationError.aggregate_keys_failed
    ok (record {
      task_id = task_id;
      reference_timestamp = reference_timestamp;
      operator_set_id = operator_set_id;
      threshold_bips = threshold_bips;
      operators = operators;
      received_signatures = [];
      aggregate_public_key = key;
      aggregated_operators = none;
    })

  -- `validateTaskResponse`
  unfoldable pub validate_task_response :
      Bn254Aggregator Pk Sig → TaskResult → Result AggregationError (Unit {0})
  validate_task_response tra r = do
    guard (bytes_beq tra.task_id r.task_id) AggregationError.task_id_mismatch
    guard (not_empty r.result_signature) AggregationError.result_signature_empty
    guard (not_empty r.auth_signature) AggregationError.auth_signature_empty
    guard (is_none (get r.operator_address tra.received_signatures))
        AggregationError.already_submitted
    guard (nat_beq r.operator_set_id tra.operator_set_id) AggregationError.operator_set_mismatch

  -- `VerifyResponseSignature`
  unfoldable pub verify_bn254_signature :
      Bn254Aggregator Pk Sig → TaskResult → Operator → Bytes → Result AggregationError Sig
  verify_bn254_signature tra r operator digest = do
    guard (equal_fold r.operator_address operator.address)
        AggregationError.operator_address_mismatch
    result_sig ←
        or_fail (b.parse_signature r.result_signature) AggregationError.result_signature_invalid
    key ← or_fail (b.cast_public_key operator.public_key) AggregationError.key_cast_failed
    signed_over ←
        or_fail (b.calculate_certificate_digest tra.reference_timestamp digest)
          AggregationError.certificate_digest_failed
    guard (is_verified (b.verify_solidity_compatible result_sig key signed_over))
        AggregationError.result_verification_failed
    auth_sig ← or_fail (b.parse_signature r.auth_signature) AggregationError.auth_signature_invalid
    guard (is_verified (b.verify auth_sig key (b.eth.keccak256 auth_bytes)))
        AggregationError.auth_verification_failed
    ok result_sig
    where
      auth_bytes : Bytes
      auth_bytes = to_signing_bytes b.eth (record {
        task_id = tra.task_id;
        avs_address = r.avs_address;
        operator_address = r.operator_address;
        operator_set_id = tra.operator_set_id;
        result_sig_digest = b.eth.keccak256 r.result_signature;
      })

  -- `ProcessNewSignature` up to the verified signature.
  unfoldable pub check_bn254_response :
      Bn254Aggregator Pk Sig → TaskResult → Result AggregationError (Bn254Accepted Sig)
  check_bn254_response tra r = do
    validate_task_response tra r
    operator ←
        or_fail (find tra.operators (λ op. equal_fold op.address r.operator_address))
          AggregationError.not_in_allowed_set
    digest ←
        or_fail (b.calculate_task_message_hash (b.eth.hex_to_hash r.task_id) r.output)
          AggregationError.message_hash_failed
    sig ← verify_bn254_signature tra r operator digest
    ok (record { operator = operator; digest = digest; signature = sig })

  -- The answer that `ProcessNewSignature` keeps.
  abbrev pub bn254_received : Bn254Aggregator Pk Sig → TaskResult → Bn254Accepted Sig → Received Sig
  bn254_received tra r accepted = record {
    task_id = tra.task_id;
    task_result = r;
    signature = accepted.signature;
    output_digest = accepted.digest;
  }

  -- The rest of `ProcessNewSignature`: the answer is remembered before the key is parsed, and stays
  -- remembered where that fails.
  unfoldable pub store_bn254_response :
      Bn254Aggregator Pk Sig
      → TaskResult
      → Bn254Accepted Sig
      → Bn254Aggregator Pk Sig × Option AggregationError
  store_bn254_response tra r accepted =
      let rr = bn254_received tra r accepted in
      let heard = record tra {
        received_signatures = put r.operator_address rr tra.received_signatures;
      } in
      elim (b.parse_public_key accepted.operator.public_key) [
        | none ↦ (heard, some AggregationError.key_parse_failed)
        | some key ↦ (
          record heard {
            aggregated_operators = some (
                record_signer tra.aggregated_operators accepted.digest r.operator_address rr
                  (record {
                    public_key = key;
                    signature = accepted.signature;
                    operator = accepted.operator;
                  }));
          },
          none,
        )
      ]

  -- `ProcessNewSignature`: the aggregator afterwards, and the error if there is one.
  unfoldable pub process_bn254_signature :
      Bn254Aggregator Pk Sig → TaskResult → Bn254Aggregator Pk Sig × Option AggregationError
  process_bn254_signature tra r = elim (check_bn254_response tra r) [
    | err e ↦ (tra, some e)
    | ok accepted ↦ store_bn254_response tra r accepted
  ]

  -- `SigningThresholdMet`
  unfoldable pub bn254_threshold_met : Bn254Aggregator Pk Sig → Bool
  bn254_threshold_met tra =
      signing_threshold_met tra.operators tra.threshold_bips tra.aggregated_operators
