-- ===== src/Aggregation/Ecdsa/Respelled.antt =====
-- Who may answer, and how often. `ProcessNewSignature` of ecdsa.go finds the operator with
-- `strings.EqualFold`, and looks for an earlier answer under the exact spelling of the address.
use hourglass_monorepo.Prelude.{
  ℕ, ◌+◌, ◌≡◌, ◌≢◌, refl, sym, ap, fun_ext, ◌∙◌, false, none, List, arith, ok, is_none,
}
use hourglass_monorepo.Text.{Bytes, bytes_beq, bytes_beq-false, to_lower, equal_fold}
use hourglass_monorepo.Dict.{get, bytes_eq, get-put, get-put_self}
use hourglass_monorepo.Util.{find}
use hourglass_monorepo.Types.{TaskResult, to_signing_bytes}
use hourglass_monorepo.Aggregation.{Operator, stake}
use hourglass_monorepo.Aggregation.Ecdsa.{
  Backend, EcdsaAggregator, Accepted, check_response, verify_response_signature, store_response,
  process_new_signature,
}
use hourglass_monorepo.Aggregation.Tally.Weights.{weight_at, weight_at-record_signer}
use hourglass_monorepo.Aggregation.Ecdsa.Process.{process-Processed, check_response-IsChecked}

-- The same answer with its address respelled.
abbrev pub respelled : TaskResult → Bytes → TaskResult
respelled r address = record r { operator_address = address }

pub equal_fold-respelled :
    (s a a' : Bytes) → to_lower a' ≡ to_lower a → equal_fold s a' ≡ equal_fold s a
unfolding equal_fold
equal_fold-respelled s a a' e = ap (bytes_beq (to_lower s)) e

pub find-respelled :
    (operators : List Operator) (a a' : Bytes)
    → to_lower a' ≡ to_lower a
    → find operators (λ op. equal_fold op.address a')
      ≡ find operators (λ op. equal_fold op.address a)
find-respelled operators a a' e =
    ap (find operators) (fun_ext (λ op. equal_fold-respelled op.address a a' e))

module _ {Sig : Type 0} where
  -- An address that answered is remembered.
  heard-store_response :
      (tra : EcdsaAggregator Sig) (r : TaskResult) (accepted : Accepted Sig)
      → is_none (get r.operator_address (store_response tra r accepted).operator_signatures) ≡ false
  unfolding store_response
  heard-store_response tra r accepted =
      rw (get-put_self r.operator_address _ tra.operator_signatures) refl

  -- Once a result of an address is accepted, the next result under the same spelling of it is
  -- refused.
  pub process_new_signature_twice :
      (b b' : Backend Sig) (tra tra' tra'' : EcdsaAggregator Sig) (r r' : TaskResult)
      → process_new_signature b tra r ≡ ok tra'
      → r'.operator_address ≡ r.operator_address
      → process_new_signature b' tra' r' ≢ ok tra''
  process_new_signature_twice b b' tra tra' tra'' r r' h same again =
      let p = process-Processed b tra r tra' h in
      let q = process-Processed b' tra' r' tra'' again in
      let c = check_response-IsChecked b' tra' r' q.accepted q.passed in
      ground (arith, heard-store_response tra r p.accepted, c.unheard, p.stored, same)

  -- Verification sees the address only through case folding and `common.HexToAddress`.
  verify_response_signature-respelled :
      (b : Backend Sig) (tra : EcdsaAggregator Sig) (r : TaskResult) (a' : Bytes) (op : Operator)
      (digest : Bytes)
      → to_lower a' ≡ to_lower r.operator_address
      → b.eth.hex_to_address a' ≡ b.eth.hex_to_address r.operator_address
      → verify_response_signature b tra (respelled r a') op digest
        ≡ verify_response_signature b tra r op digest
  unfolding verify_response_signature equal_fold to_signing_bytes
  verify_response_signature-respelled b tra r a' op digest folds parses = simp (folds, parses)

  check_response-respelled :
      (b : Backend Sig) (tra : EcdsaAggregator Sig) (r : TaskResult) (accepted : Accepted Sig)
      (a' : Bytes)
      → check_response b tra r ≡ ok accepted
      → to_lower a' ≡ to_lower r.operator_address
      → b.eth.hex_to_address a' ≡ b.eth.hex_to_address r.operator_address
      → get a' tra.operator_signatures ≡ none
      → check_response b tra (respelled r a') ≡ ok accepted
  unfolding check_response
  check_response-respelled b tra r accepted a' h folds parses unheard = ground (
    arith,
    h,
    unheard,
    find-respelled tra.operators r.operator_address a' folds,
    verify_response_signature-respelled b tra r a' accepted.operator accepted.digest folds parses,
  )

  -- The checks read neither the groups nor the other answers.
  check_response-store_response :
      (b : Backend Sig) (tra : EcdsaAggregator Sig) (r : TaskResult) (accepted : Accepted Sig)
      (a' : Bytes)
      → check_response b tra r ≡ ok accepted
      → to_lower a' ≡ to_lower r.operator_address
      → b.eth.hex_to_address a' ≡ b.eth.hex_to_address r.operator_address
      → get a' tra.operator_signatures ≡ none
      → a' ≢ r.operator_address
      → check_response b (store_response tra r accepted) (respelled r a') ≡ ok accepted
  unfolding check_response store_response verify_response_signature
  check_response-store_response b tra r accepted a' h folds parses unheard other =
      rw
        (
          get-put r.operator_address a' _ tra.operator_signatures,
          bytes_beq-false r.operator_address a' (λ e. other (sym e)),
        )
        (check_response-respelled b tra r accepted a' h folds parses unheard)

  -- An answer that passes the checks passes them again right after it was stored, with its
  -- address respelled so that it folds and parses alike and has not answered yet, and adds its
  -- operator's stake to its group a second time.
  pub respelled_counts_twice :
      (b : Backend Sig) (tra : EcdsaAggregator Sig) (r : TaskResult) (accepted : Accepted Sig)
      (a' : Bytes)
      → check_response b tra r ≡ ok accepted
      → to_lower a' ≡ to_lower r.operator_address
      → b.eth.hex_to_address a' ≡ b.eth.hex_to_address r.operator_address
      → get a' tra.operator_signatures ≡ none
      → a' ≢ r.operator_address
      → (twice : EcdsaAggregator Sig) × (process_new_signature b
            (store_response tra r accepted)
            (respelled r a')
          ≡ ok twice)
        × (weight_at twice.aggregated_operators accepted.digest
            ≡ weight_at tra.aggregated_operators accepted.digest
              + stake accepted.operator
              + stake accepted.operator)
  unfolding process_new_signature store_response
  respelled_counts_twice b tra r accepted a' h folds parses unheard other = (
    store_response (store_response tra r accepted) (respelled r a') accepted,
    rw (check_response-store_response b tra r accepted a' h folds parses unheard other),
    weight_at-record_signer _ accepted.digest a' _ _
        ∙ ap (λ (n : ℕ). n + stake accepted.operator)
            (weight_at-record_signer tra.aggregated_operators accepted.digest r.operator_address _
              _),
  )
