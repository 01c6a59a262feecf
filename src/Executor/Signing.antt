-- ===== src/Executor/Signing.antt =====
-- handlers.go: what an executor with a signer of inMemorySigner.go answers, and how it was signed.
use hourglass_monorepo.Prelude.{◌≡◌, sym, some, arith, ok, Option-cases, Result-cases, inl, inr}
use hourglass_monorepo.Text.{Bytes, to_lower}
use hourglass_monorepo.Dict.{bytes_eq}
use hourglass_monorepo.Types.{TaskResult, to_signing_bytes}
use hourglass_monorepo.Peering.{ecdsa}
use hourglass_monorepo.Session.Setup.{TaskSubmission}
use hourglass_monorepo.Executor.{ExecutorBackend, sign_result, digest_to_sign}
use hourglass_monorepo.Executor.Tasks.{Performers, run_received_task}
use hourglass_monorepo.Signers.{SigningKey, solidity_hash, in_memory_signer}

module _ (b : ExecutorBackend) where
  -- What is signed over the operator's identity.
  abbrev pub identity_bytes : Bytes → TaskSubmission → Bytes → Bytes
  identity_bytes operator_address task result_sig = to_signing_bytes b.eth (record {
    task_id = task.task_id;
    avs_address = task.avs_address;
    operator_address = operator_address;
    operator_set_id = task.operator_set_id;
    result_sig_digest = b.eth.keccak256 result_sig;
  })

  -- How a result was signed with an ECDSA key in memory.
  pub record Signed (operator_address : Bytes) (key : SigningKey) (task : TaskSubmission)
      (output result_sig auth_sig : Bytes) : Type 0 where
    pub task_hash : Bytes
    pub digest : Bytes
    pub hashed :
        b.calculate_task_message_hash (b.eth.hex_to_hash task.task_id) output ≡ some task_hash
    pub digested : b.calculate_ecdsa_digest task.reference_timestamp task_hash ≡ some digest
    pub signed : key.sign_ecdsa (solidity_hash b.eth digest) ≡ some result_sig
    pub identified :
        key.sign_ecdsa (b.eth.keccak256 (identity_bytes operator_address task result_sig))
        ≡ some auth_sig

  sign_result-Signed :
      (operator_address : Bytes) (key : SigningKey) (task : TaskSubmission) (output : Bytes)
      (sigs : Bytes × Bytes)
      → b.get_operator_set_curve_type task.avs_address task.operator_set_id task.task_block_number
        ≡ some ecdsa
      → b.ecdsa_signer ≡ some (in_memory_signer b.eth key ecdsa)
      → sign_result b operator_address task output ≡ ok sigs
      → Signed operator_address key task output sigs.0 sigs.1
  unfolding sign_result digest_to_sign
  sign_result-Signed operator_address key task output sigs curve signer h =
      elim (Option-cases (b.calculate_task_message_hash (b.eth.hex_to_hash task.task_id) output)) [
        | inl e ↦ absurd (ground (arith, curve, e, h))
        | inr (task_hash, e) ↦
            elim (Option-cases (b.calculate_ecdsa_digest task.reference_timestamp task_hash)) [
              | inl d ↦ absurd (ground (arith, curve, e, signer, d, h))
              | inr (digest, d) ↦
                  elim (Option-cases (key.sign_ecdsa (solidity_hash b.eth digest))) [
                    | inl s ↦ absurd (ground (arith, curve, e, signer, d, s, h))
                    | inr (result_sig, s) ↦
                        elim (Option-cases (
                          key.sign_ecdsa
                            (b.eth.keccak256 (identity_bytes operator_address task result_sig)))) [
                              | inl i ↦ absurd (ground (arith, curve, e, signer, d, s, i, h))
                              | inr (auth_sig, i) ↦ record {
                                task_hash = task_hash;
                                digest = digest;
                                hashed = e;
                                digested = d;
                                signed = ground (arith, curve, e, signer, d, s, i, h);
                                identified =
                                    let same : sigs ≡ (result_sig, auth_sig) =
                                      sym (ground (arith, curve, e, signer, d, s, i, h)) in
                                    rw same i;
                              }
                            ]
                  ]
            ]
      ]

  -- What `run_received_task` answers, signed in memory.
  pub record Answered (operator_address : Bytes) (key : SigningKey) (task : TaskSubmission)
      (r : TaskResult) : Type 0 where
    pub of_avs : r.avs_address ≡ to_lower task.avs_address
    pub of_set : r.operator_set_id ≡ task.operator_set_id
    pub of_operator : r.operator_address ≡ operator_address
    pub signatures : Signed operator_address key task r.output r.result_signature r.auth_signature

  pub run_received_task-Answered :
      (operator_address : Bytes) (performers : Performers) (key : SigningKey)
      (task : TaskSubmission) (r : TaskResult)
      → b.get_operator_set_curve_type task.avs_address task.operator_set_id task.task_block_number
        ≡ some ecdsa
      → b.ecdsa_signer ≡ some (in_memory_signer b.eth key ecdsa)
      → run_received_task b operator_address performers task ≡ ok r
      → Answered operator_address key task r
  unfolding run_received_task
  run_received_task-Answered operator_address performers key task r curve signer h =
      elim (Option-cases (performers (to_lower task.avs_address))) [
        | inl e ↦ absurd (ground (arith, e, h))
        | inr (run_task, e) ↦ elim (Option-cases (run_task task)) [
          | inl t ↦ absurd (ground (arith, e, t, h))
          | inr (response, t) ↦
              elim (Result-cases (sign_result b operator_address task response.1)) [
                | inr (problem, s) ↦ absurd (ground (arith, e, t, s, h))
                | inl (sigs, s) ↦
                    let signed =
                      sign_result-Signed operator_address key task response.1 sigs curve signer s in
                    let out : r.output ≡ response.1 = sym (ground (arith, e, t, s, h)) in
                    let first : r.result_signature ≡ sigs.0 = sym (ground (arith, e, t, s, h)) in
                    let second : r.auth_signature ≡ sigs.1 = sym (ground (arith, e, t, s, h)) in
                    record {
                      of_avs = ground (arith, e, t, s, h);
                      of_set = ground (arith, e, t, s, h);
                      of_operator = ground (arith, e, t, s, h);
                      signatures = rw (out, first, second) signed;
                    }
              ]
        ]
      ]
