-- ===== src/Aggregation/Bn254/Certificate/Respelled.antt =====
-- Who is listed as a non-signer: `GenerateFinalCertificate` of bn254.go looks up an operator's own
-- spelling of its address, and `ProcessNewSignature` stores a signer under the answer's spelling.
use hourglass_monorepo.Prelude.{◌≡◌, ◌≢◌, refl, true, false, none, some, arith, ok}
use mathlib.Core.List.{Memᴰ}
use hourglass_monorepo.Text.{Bytes, bytes_beq, bytes_beq_iff, bytes_beq-false, equal_fold}
use hourglass_monorepo.Dict.{get, put, bytes_eq}
use hourglass_monorepo.Util.{find, Memᴰ-filter, find-Memᴰ}
use hourglass_monorepo.Types.{TaskResult}
use hourglass_monorepo.Aggregation.{Operator, SignerInfo, DigestGroup}
use hourglass_monorepo.Aggregation.Tally.{record_signer, update_winning_response, winning_group}
use hourglass_monorepo.Aggregation.Tally.Leader.{joined}
use hourglass_monorepo.Aggregation.Bn254.{
  Bn254Backend, Bn254Aggregator, Bn254Accepted, bn254_received, check_bn254_response,
  store_bn254_response, process_bn254_signature,
}
use hourglass_monorepo.Aggregation.Bn254.Certificate.{non_signers}

module _ {Pk Sig Point : Type 0} (b : Bn254Backend Pk Sig Point) where
  -- The operator signed the winning digest, and is listed among those that did not.
  pub record IsMislisted (tra : Bn254Aggregator Pk Sig) (address : Bytes) (operator : Operator)
      : Type 0 where
    pub group : DigestGroup Pk Sig Sig
    pub info : SignerInfo Pk Sig
    pub winner : winning_group tra.aggregated_operators ≡ some group
    pub signed : get address group.signers ≡ some info
    pub signer : info.operator ≡ operator
    pub listed : Memᴰ operator (non_signers tra.operators group.signers)

  operator_of_check :
      (tra : Bn254Aggregator Pk Sig) (r : TaskResult) (accepted : Bn254Accepted Sig)
      → check_bn254_response b tra r ≡ ok accepted
      → find tra.operators (λ op. equal_fold op.address r.operator_address) ≡ some accepted.operator
  unfolding check_bn254_response
  operator_of_check tra r accepted h = ground arith

  -- Where the first accepted answer spells its operator's address in another way than the operator
  -- set does, and its key parses, that operator is a signer of the winning group and at once among
  -- the non-signers of the certificate.
  pub process_bn254_signature_mislists :
      (tra : Bn254Aggregator Pk Sig) (r : TaskResult) (accepted : Bn254Accepted Sig) (key : Pk)
      → tra.aggregated_operators ≡ none
      → check_bn254_response b tra r ≡ ok accepted
      → b.parse_public_key accepted.operator.public_key ≡ some key
      → r.operator_address ≢ accepted.operator.address
      → IsMislisted (process_bn254_signature b tra r).0 r.operator_address accepted.operator
  unfolding process_bn254_signature store_bn254_response record_signer update_winning_response
      winning_group get put non_signers
  process_bn254_signature_mislists tra r accepted key first passed parses other =
      let info : SignerInfo Pk Sig = record {
        public_key = key;
        signature = accepted.signature;
        operator = accepted.operator;
      } in
      let rr = bn254_received b tra r accepted in
      let fresh : bytes_beq r.operator_address accepted.operator.address ≡ false =
        bytes_beq-false r.operator_address accepted.operator.address other in
      let same : bytes_beq accepted.digest accepted.digest ≡ true =
        (bytes_beq_iff accepted.digest accepted.digest).1 refl in
      let here : bytes_beq r.operator_address r.operator_address ≡ true =
        (bytes_beq_iff r.operator_address r.operator_address).1 refl in
      rw (passed, process_bn254_signature, parses, store_bn254_response, first)
        (record {
          group = joined none accepted.digest r.operator_address rr info;
          info = info;
          winner = rw same refl;
          signed = rw here refl;
          signer = refl;
          listed =
              Memᴰ-filter tra.operators _ accepted.operator
                (find-Memᴰ tra.operators _ accepted.operator
                  (operator_of_check tra r accepted passed))
                (rw fresh refl);
        })
