-- ===== src/Aggregation.antt =====
-- The data of ponos/pkg/signing/aggregation/aggregation.go that both aggregators
-- share. Stake weights are non-negative `*big.Int`s, so they are plain numbers; the
-- key and signature types of crypto-libs are type parameters.
pub mod Tally
pub mod Ecdsa
pub mod Bn254
use hourglass_monorepo.Prelude.{ℕ, Option, List, [], ◌∷◌}
use hourglass_monorepo.Text.{Bytes}
use hourglass_monorepo.Types.{TaskResult}
use hourglass_monorepo.Dict.{Dict}

-- `Operator[PubKeyT]`; the public key is held by its bytes.
pub record Operator : Type 0 where
  pub address : Bytes
  pub public_key : Bytes
  pub operator_index : ℕ
  pub weights : List ℕ

-- `len(op.Weights) > 0` guards every read of `op.Weights[0]`; without it nothing is added.
abbrev pub first_weight : List ℕ → ℕ
first_weight [] = 0
first_weight (w ∷ ws) = w

abbrev pub stake : Operator → ℕ
stake op = first_weight op.weights

-- `ReceivedECDSAResponseWithDigest`, `ReceivedBN254ResponseWithDigest`
pub record Received (Sig : Type 0) : Type 0 where
  pub task_id : Bytes
  pub task_result : TaskResult
  pub signature : Sig
  pub output_digest : Bytes

-- `ecdsaSignerInfo`, `signerInfo`: `P` is the key type, `S` the stored signature.
pub record SignerInfo (P S : Type 0) : Type 0 where
  pub public_key : P
  pub signature : S
  pub operator : Operator

-- `ecdsaDigestGroup`, `digestGroup`
pub record DigestGroup (P S Sig : Type 0) : Type 0 where
  pub signers : Dict Bytes (SignerInfo P S)
  pub response : Received Sig
  pub current_weight : ℕ

-- `aggregatedECDSAOperators`, `aggregatedBN254Operators`; a nil `winningWeight` is `none`.
pub record AggregatedOperators (P S Sig : Type 0) : Type 0 where
  pub digest_groups : Dict Bytes (DigestGroup P S Sig)
  pub winning_digest : Bytes
  pub winning_weight : Option ℕ

-- The errors of the aggregators' constructors and methods.
pub data AggregationError : Type 0 where
  invalid_task_id invalid_reference_timestamp no_operator_addresses invalid_threshold :
      AggregationError
  aggregate_keys_failed task_id_mismatch operator_set_mismatch not_in_allowed_set : AggregationError
  result_signature_empty auth_signature_empty already_submitted : AggregationError
  message_hash_failed operator_address_mismatch result_signature_invalid : AggregationError
  certificate_digest_failed result_verification_failed auth_signature_invalid : AggregationError
  auth_verification_failed key_cast_failed key_parse_failed : AggregationError
  no_signatures_collected no_winning_signatures task_id_decode_failed : AggregationError
  invalid_signature_length : AggregationError
