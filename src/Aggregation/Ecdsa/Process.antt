-- ===== src/Aggregation/Ecdsa/Process.antt =====
-- `ProcessNewSignature` of ecdsa.go: what an accepted result has passed, and what its writes keep.
use hourglass_monorepo.Prelude.{◌≡◌, refl, none, some, arith, Result, ok, err, ◌>>=◌}
use hourglass_monorepo.Text.{bytes_beq_iff, equal_fold}
use hourglass_monorepo.Dict.{get, bytes_eq}
use hourglass_monorepo.Util.{find}
use hourglass_monorepo.Types.{TaskResult}
use hourglass_monorepo.Aggregation.{AggregationError}
use hourglass_monorepo.Aggregation.Ecdsa.{
  Backend, EcdsaAggregator, Accepted, check_response, verify_response_signature, store_response,
  process_new_signature,
}

module _ {Sig : Type 0} where
  -- A result of the two steps of `ProcessNewSignature`.
  pub record Processed (b : Backend Sig) (tra : EcdsaAggregator Sig) (r : TaskResult)
      (tra' : EcdsaAggregator Sig) : Type 0 where
    pub accepted : Accepted Sig
    pub passed : check_response b tra r ≡ ok accepted
    pub stored : tra' ≡ store_response tra r accepted

  pub process-Processed :
      (b : Backend Sig) (tra : EcdsaAggregator Sig) (r : TaskResult) (tra' : EcdsaAggregator Sig)
      → process_new_signature b tra r ≡ ok tra'
      → Processed b tra r tra'
  unfolding process_new_signature
  process-Processed b tra r tra' h = go (check_response b tra r) refl h
    where
      go :
          (c : Result AggregationError (Accepted Sig))
          → check_response b tra r ≡ c
          → (c >>= λ accepted. ok (store_response tra r accepted)) ≡ ok tra'
          → Processed b tra r tra'
      go (ok accepted) e q = record { accepted = accepted; passed = e; stored = ground arith }
      go (err x) e q = absurd (ground arith)

  -- An accepted result is for this task and operator set, from a known operator that had not yet
  -- answered under this spelling of its address, and its result signature was verified.
  pub record IsChecked (b : Backend Sig) (tra : EcdsaAggregator Sig) (r : TaskResult)
      (accepted : Accepted Sig) : Type 0 where
    pub same_task : tra.task_id ≡ r.task_id
    pub same_set : r.operator_set_id ≡ tra.operator_set_id
    pub known :
        find tra.operators (λ op. equal_fold op.address r.operator_address) ≡ some accepted.operator
    pub unheard : get r.operator_address tra.operator_signatures ≡ none
    pub hashed :
        b.calculate_task_message_hash (b.eth.hex_to_hash r.task_id) r.output ≡ some accepted.digest
    pub verified :
        verify_response_signature b tra r accepted.operator accepted.digest ≡ ok accepted.signature

  -- A result that passes the checks of `ProcessNewSignature` is of this task and operator set,
  -- from a known operator with no answer under this spelling of the address, and its signatures
  -- were verified over the digest that the chain computes for its output.
  pub check_response-IsChecked :
      (b : Backend Sig) (tra : EcdsaAggregator Sig) (r : TaskResult) (accepted : Accepted Sig)
      → check_response b tra r ≡ ok accepted
      → IsChecked b tra r accepted
  unfolding check_response
  check_response-IsChecked b tra r accepted h = record {
    same_task = ground (arith, bytes_beq_iff tra.task_id r.task_id);
    same_set = ground arith;
    known = ground arith;
    unheard = ground arith;
    hashed = ground arith;
    verified = ground arith;
  }
