-- ===== src/Executor/Honest.antt =====
-- The two ends of a submission: what taskSession.go sends is what handlers.go verifies.
use hourglass_monorepo.Prelude.{
  ◌≡◌, refl, ap, ◌∙◌, Option, some, arith, Result, ok, Option-cases, Result-cases, inl, inr,
}
use hourglass_monorepo.Text.{Bytes}
use hourglass_monorepo.Types.{Task}
use hourglass_monorepo.Messages.{
  MessageError, encode_task_submission_message_versioned, encode_task_submission_message,
  submission_signing_bytes,
}
use hourglass_monorepo.Peering.{OperatorPeerInfo, OperatorSet, get_socket_for_operator_set}
use hourglass_monorepo.Chain.{ChainAvsConfig}
use hourglass_monorepo.Session.Setup.{
  TaskSubmission, submission_for_peer, generate_signature_for_executor,
}
use hourglass_monorepo.Executor.{
  ExecutorBackend, validate_task_signature, construct_task_submission_message, verify_submission,
}

module _ (b : ExecutorBackend) (operator_address : Bytes) where
  -- What the chain says of an aggregator: the AVS's configuration and the aggregator's set.
  pub record Aggregates (task : TaskSubmission) (set : OperatorSet) : Type 0 where
    pub avs : ChainAvsConfig
    pub configured : b.get_avs_config task.avs_address task.task_block_number ≡ some (some avs)
    pub registered :
        b.get_operator_set_details
          (b.eth.hex_to_address task.aggregator_address)
          task.avs_address
          avs.aggregator_operator_set_id
          task.task_block_number
        ≡ some (some set)

  -- The submission of a task with a signature.
  abbrev submission_with : Bytes → Task → OperatorPeerInfo → Bytes → TaskSubmission
  submission_with aggregator_address task peer signature = record {
    task_id = task.task_id;
    aggregator_address = aggregator_address;
    avs_address = task.avs_address;
    payload = task.payload;
    signature = signature;
    operator_set_id = task.operator_set_id;
    reference_timestamp = task.reference_timestamp;
    executor_address = peer.operator_address;
    task_block_number = task.l1_reference_block_number;
    version = task.version;
  }

  abbrev encoded_for : Bytes → Task → Result MessageError Bytes
  encoded_for address task =
      encode_task_submission_message_versioned b.eth task.task_id task.avs_address address
        task.reference_timestamp task.l1_reference_block_number task.operator_set_id task.payload
        task.version

  -- Both ends encode the same message.
  encoded_alike :
      (task : Task) (a : Bytes)
      → b.eth.hex_to_address operator_address ≡ b.eth.hex_to_address a
      → encoded_for operator_address task ≡ encoded_for a task
  unfolding encode_task_submission_message_versioned encode_task_submission_message
      submission_signing_bytes
  encoded_alike task a same = rw same refl

  -- What was sent.
  record Sent (sign : Bytes → Option Bytes) (aggregator_address : Bytes) (task : Task)
      (peer : OperatorPeerInfo) (submission : TaskSubmission) : Type 0 where
    message : Bytes
    signature : Bytes
    encoded : encoded_for peer.operator_address task ≡ ok message
    signed : sign message ≡ some signature
    is_sent : submission ≡ submission_with aggregator_address task peer signature

  submission_for_peer-Sent :
      (sign : Bytes → Option Bytes) (aggregator_address : Bytes) (task : Task)
      (peer : OperatorPeerInfo) (socket : Bytes) (submission : TaskSubmission)
      → submission_for_peer b.eth sign aggregator_address task peer ≡ some (socket, submission)
      → Sent sign aggregator_address task peer submission
  unfolding submission_for_peer generate_signature_for_executor
  submission_for_peer-Sent sign aggregator_address task peer socket submission sent =
      elim (Option-cases (get_socket_for_operator_set peer task.operator_set_id)) [
        | inl none_there ↦ absurd (ground (arith, none_there, sent))
        | inr (found, e) ↦ elim (Result-cases (encoded_for peer.operator_address task)) [
          | inr (refusal, r) ↦ absurd (ground (arith, e, r, sent))
          | inl (message, m) ↦ elim (Option-cases (sign message)) [
            | inl unsigned ↦ absurd (ground (arith, e, m, unsigned, sent))
            | inr (signature, s) ↦ record {
              message = message;
              signature = signature;
              encoded = m;
              signed = s;
              is_sent = ground (arith, e, m, s, sent);
            }
          ]
        ]
      ]

  constructed :
      (aggregator_address : Bytes) (task : Task) (peer : OperatorPeerInfo)
      (message signature : Bytes)
      → encoded_for operator_address task ≡ ok message
      → construct_task_submission_message b operator_address
          (submission_with aggregator_address task peer signature)
        ≡ message
  unfolding construct_task_submission_message
  constructed aggregator_address task peer message signature e =
      rw (e, construct_task_submission_message) refl

  validated :
      (task : TaskSubmission) (set : OperatorSet) (message : Bytes)
      → Aggregates task set
      → construct_task_submission_message b operator_address task ≡ message
      → verify_submission b operator_address set task.signature (b.eth.keccak256 message) ≡ ok tt
      → validate_task_signature b operator_address task ≡ ok tt
  unfolding validate_task_signature
  validated task set message chain made verified =
      rw (chain.configured, chain.registered, made) verified

  -- An executor with the address of the peer, up to its spelling, accepts the signature of every
  -- submission that is sent to the peer, where the chain has the aggregator with a key under which
  -- whatever its signer signs is verified.
  pub submission-validate :
      (sign : Bytes → Option Bytes) (aggregator_address : Bytes) (task : Task)
      (peer : OperatorPeerInfo) (socket : Bytes) (submission : TaskSubmission) (set : OperatorSet)
      → submission_for_peer b.eth sign aggregator_address task peer ≡ some (socket, submission)
      → b.eth.hex_to_address operator_address ≡ b.eth.hex_to_address peer.operator_address
      → Aggregates submission set
      → ((message signature : Bytes)
          → sign message ≡ some signature
          → verify_submission b operator_address set signature (b.eth.keccak256 message) ≡ ok tt)
      → validate_task_signature b operator_address submission ≡ ok tt
  submission-validate sign aggregator_address task peer socket submission set sent same chain
        verifies =
      let s = submission_for_peer-Sent sign aggregator_address task peer socket submission sent in
      validated submission set s.message chain
        (ap (construct_task_submission_message b operator_address) s.is_sent
          ∙ constructed aggregator_address task peer s.message s.signature
              (encoded_alike task peer.operator_address same ∙ s.encoded))
        (rw (ap (λ t. t.signature) s.is_sent) (verifies s.message s.signature s.signed))
