-- ===== src/Executor/Accepted.antt =====
-- The two ends of a result: what handlers.go signs with a signer of inMemorySigner.go is what
-- ecdsa.go verifies.
use hourglass_monorepo.Prelude.{
  ℕ, ◌≡◌, refl, ◌∙◌, sym, Bool, true, false, Option, none, some, arith, nat_beq, length, ok,
  not_empty,
}
use hourglass_monorepo.Text.{Bytes, bytes_beq, bytes_beq_iff, equal_fold, equal_fold_iff, to_lower}
use hourglass_monorepo.Dict.{get, bytes_eq, get-put_self}
use hourglass_monorepo.Util.{find, find-criteria}
use hourglass_monorepo.Types.{TaskResult, to_signing_bytes}
use hourglass_monorepo.Peering.{ecdsa}
use hourglass_monorepo.Aggregation.{Operator, Received}
use hourglass_monorepo.Aggregation.Ecdsa.{
  Backend, EcdsaAggregator, Accepted, verify_response_signature, check_response, store_response,
  process_new_signature,
}
use hourglass_monorepo.Session.Setup.{TaskSubmission}
use hourglass_monorepo.Executor.{ExecutorBackend}
use hourglass_monorepo.Executor.Tasks.{Performers, run_received_task}
use hourglass_monorepo.Executor.Signing.{Answered, identity_bytes, run_received_task-Answered}
use hourglass_monorepo.Signers.{SigningKey, solidity_hash, in_memory_signer}

module _ {Sig : Type 0} (b : ExecutorBackend) (parse : Bytes → Option Sig) (bytes_of : Sig → Bytes)
    (verify_sig : Sig → Bytes → Bytes → Option Bool) where
  -- An aggregator on the chain of an executor.
  abbrev pub same_chain : Backend Sig
  same_chain = record {
    eth = b.eth;
    calculate_task_message_hash = b.calculate_task_message_hash;
    calculate_certificate_digest = b.calculate_ecdsa_digest;
    parse_signature = parse;
    signature_bytes = bytes_of;
    verify_with_address = verify_sig;
  }

  -- What a key and the verification under an address do: a signature parses to one that has its
  -- bytes and is verified over what was signed.
  abbrev pub IsKeyOf : SigningKey → Bytes → Type 0
  IsKeyOf key address =
      (hash s : Bytes)
      → key.sign_ecdsa hash ≡ some s
      → (sig : Sig) × (parse s ≡ some sig)
        × (bytes_of sig ≡ s)
        × (verify_sig sig hash address ≡ some true)
        × (not_empty s ≡ true)

  -- A result for the task of an aggregator, which has the operator and no answer of it.
  pub record Expects (operator_address : Bytes) (task : TaskSubmission) (op : Operator)
      (tra : EcdsaAggregator Sig) : Type 0 where
    pub of_task : tra.task_id ≡ task.task_id
    pub for_set : tra.operator_set_id ≡ task.operator_set_id
    pub at_time : tra.reference_timestamp ≡ task.reference_timestamp
    pub has_operator : find tra.operators (λ o. equal_fold o.address operator_address) ≡ some op
    pub not_answered : get operator_address tra.operator_signatures ≡ none

  equal_fold_sym : (x y : Bytes) → equal_fold x y ≡ true → equal_fold y x ≡ true
  equal_fold_sym x y h = (equal_fold_iff y x).1 (sym ((equal_fold_iff x y).0 h))

  -- What the aggregator verifies for the identity.
  abbrev answered_bytes : TaskResult → Sig → Bytes
  answered_bytes r sig = to_signing_bytes b.eth (record {
    task_id = r.task_id;
    avs_address = r.avs_address;
    operator_address = r.operator_address;
    operator_set_id = r.operator_set_id;
    result_sig_digest = b.eth.keccak256 (bytes_of sig);
  })

  -- The result is for its task, and `HexToAddress` reads both cases of a letter alike.
  identities :
      (operator_address : Bytes) (key : SigningKey) (task : TaskSubmission) (r : TaskResult)
      (sig : Sig)
      → Answered b operator_address key task r
      → r.task_id ≡ task.task_id
      → ((s : Bytes) → b.eth.hex_to_address (to_lower s) ≡ b.eth.hex_to_address s)
      → bytes_of sig ≡ r.result_signature
      → answered_bytes r sig ≡ identity_bytes b operator_address task r.result_signature
  unfolding to_signing_bytes
  identities operator_address key task r sig a echoed folds same =
      rw (echoed, a.of_avs, folds task.avs_address, a.of_operator, a.of_set, same) refl

  both_verified :
      (tra : EcdsaAggregator Sig) (r : TaskResult) (op : Operator) (task_hash digest : Bytes)
      (sig auth_sig : Sig)
      → equal_fold r.operator_address op.address ≡ true
      → parse r.result_signature ≡ some sig
      → b.calculate_ecdsa_digest tra.reference_timestamp task_hash ≡ some digest
      → verify_sig sig (b.eth.keccak256 digest) op.public_key ≡ some true
      → parse r.auth_signature ≡ some auth_sig
      → verify_sig auth_sig (b.eth.keccak256 (answered_bytes r sig)) op.public_key ≡ some true
      → verify_response_signature same_chain tra r op task_hash ≡ ok sig
  unfolding verify_response_signature
  both_verified tra r op task_hash digest sig auth_sig named parsed digested fine parsed' fine' =
      rw (named, parsed, digested, fine, parsed', fine') refl

  verified :
      (operator_address : Bytes) (key : SigningKey) (task : TaskSubmission) (r : TaskResult)
      (op : Operator) (tra : EcdsaAggregator Sig) (a : Answered b operator_address key task r)
      → r.task_id ≡ task.task_id
      → Expects operator_address task op tra
      → ((s : Bytes) → b.eth.hex_to_address (to_lower s) ≡ b.eth.hex_to_address s)
      → nat_beq (length a.signatures.digest) 32 ≡ false
      → IsKeyOf key op.public_key
      → (sig : Sig) × (verify_response_signature same_chain tra r op a.signatures.task_hash
          ≡ ok sig)
  unfolding solidity_hash
  verified operator_address key task r op tra a echoed expects folds long is_key =
      let w = a.signatures in
      let x =
        is_key (b.eth.keccak256 w.digest) r.result_signature (ground (arith, w.signed, long)) in
      let y =
        is_key (b.eth.keccak256 (identity_bytes b operator_address task r.result_signature))
          r.auth_signature w.identified in
      (
        x.0,
        both_verified tra r op w.task_hash w.digest x.0 y.0
            (rw a.of_operator (
              equal_fold_sym op.address operator_address (
                find-criteria tra.operators (λ o. equal_fold o.address operator_address) op
                  expects.has_operator)))
            x.1 (rw expects.at_time w.digested) x.3 y.1
            (rw (identities operator_address key task r x.0 a echoed folds x.2) y.3),
      )

  checked :
      (operator_address : Bytes) (key : SigningKey) (task : TaskSubmission) (r : TaskResult)
      (op : Operator) (tra : EcdsaAggregator Sig) (sig : Sig)
      (a : Answered b operator_address key task r)
      → r.task_id ≡ task.task_id
      → Expects operator_address task op tra
      → IsKeyOf key op.public_key
      → verify_response_signature same_chain tra r op a.signatures.task_hash ≡ ok sig
      → check_response same_chain tra r
        ≡ ok (record { operator = op; digest = a.signatures.task_hash; signature = sig })
  unfolding check_response solidity_hash
  checked operator_address key task r op tra sig a echoed expects is_key fine =
      let w = a.signatures in
      let first = (is_key (solidity_hash b.eth w.digest) r.result_signature w.signed).4 in
      let second =
        (is_key (b.eth.keccak256 (identity_bytes b operator_address task r.result_signature))
          r.auth_signature w.identified).4 in
      let same : bytes_beq tra.task_id r.task_id ≡ true =
        (bytes_beq_iff tra.task_id r.task_id).1 (expects.of_task ∙ sym echoed) in
      let same_set : nat_beq r.operator_set_id tra.operator_set_id ≡ true =
        ground (arith, a.of_set, expects.for_set) in
      let named = a.of_operator in
      let found : find tra.operators (λ o. equal_fold o.address r.operator_address) ≡ some op =
        rw named expects.has_operator in
      let unheard : get r.operator_address tra.operator_signatures ≡ none =
        rw named expects.not_answered in
      let hash : b.calculate_task_message_hash (b.eth.hex_to_hash r.task_id) r.output
          ≡ some w.task_hash =
        rw echoed w.hashed in
      rw (same, same_set, found, first, second, unheard, hash, fine) refl

  -- The result that an executor with an ECDSA key in memory answers for a task is accepted and kept
  -- by an aggregator of that task on the same chain, which has the operator under the address of the
  -- key and no answer of it, where the performer names the task, `HexToAddress` ignores case, the
  -- digest to sign is not itself of 32 bytes, and what the key signs is verified.
  pub result_accepted :
      (operator_address : Bytes) (performers : Performers) (key : SigningKey)
      (task : TaskSubmission) (r : TaskResult) (op : Operator) (tra : EcdsaAggregator Sig)
      → run_received_task b operator_address performers task ≡ ok r
      → b.get_operator_set_curve_type task.avs_address task.operator_set_id task.task_block_number
        ≡ some ecdsa
      → b.ecdsa_signer ≡ some (in_memory_signer b.eth key ecdsa)
      → r.task_id ≡ task.task_id
      → Expects operator_address task op tra
      → ((s : Bytes) → b.eth.hex_to_address (to_lower s) ≡ b.eth.hex_to_address s)
      → ((t : ℕ) (hash digest : Bytes)
          → b.calculate_ecdsa_digest t hash ≡ some digest
          → nat_beq (length digest) 32 ≡ false)
      → IsKeyOf key op.public_key
      → (tra' : EcdsaAggregator Sig) × (process_new_signature same_chain tra r ≡ ok tra')
        × (received : Received Sig) × (get operator_address tra'.operator_signatures
            ≡ some received)
        × (received.task_result ≡ r)
  unfolding process_new_signature store_response
  result_accepted operator_address performers key task r op tra ran curve signer echoed expects
        folds long is_key =
      let a =
        run_received_task-Answered b operator_address performers key task r curve signer ran in
      let w = a.signatures in
      let v =
        verified operator_address key task r op tra a echoed expects folds
          (long task.reference_timestamp w.task_hash w.digest w.digested) is_key in
      let c = checked operator_address key task r op tra v.0 a echoed expects is_key v.1 in
      let accepted : Accepted Sig = record {
        operator = op;
        digest = w.task_hash;
        signature = v.0;
      } in
      let received : Received Sig = record {
        task_id = tra.task_id;
        task_result = r;
        signature = v.0;
        output_digest = w.task_hash;
      } in
      (
        store_response tra r accepted,
        rw c refl,
        received,
        rw (← a.of_operator) (get-put_self r.operator_address received tra.operator_signatures),
        refl,
      )
