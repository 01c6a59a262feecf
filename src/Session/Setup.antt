-- ===== src/Session/Setup.antt =====
-- taskSession.go before and around `Broadcast`: the constructors of the two sessions, what is sent
-- to each operator, and `Process`.
use hourglass_monorepo.Prelude.{
  ℕ, ◌≡◌, refl, Option, none, some, List, [], ◌∷◌, Result, ok, err, ◌>>=◌, or_fail,
}
use hourglass_monorepo.Text.{Bytes}
use hourglass_monorepo.Dict.{Dict, get, bytes_eq}
use hourglass_monorepo.Eth.{EthLib}
use hourglass_monorepo.Types.{Task}
use hourglass_monorepo.Messages.{encode_task_submission_message_versioned}
use hourglass_monorepo.Peering.{
  OperatorPeerInfo, OperatorSet, get_operator_set, get_socket_for_operator_set,
}
use hourglass_monorepo.Operators.{PeerWeight}
use hourglass_monorepo.Aggregation.{Operator, AggregationError}
use hourglass_monorepo.Aggregation.Ecdsa.{EcdsaAggregator, new_ecdsa_aggregator}
use hourglass_monorepo.Aggregation.Bn254.{Bn254Backend, Bn254Aggregator, new_bn254_aggregator}
use hourglass_monorepo.Session.{SessionOutcome, certified, certificate_failed}

pub data SessionError : Type 0 where
  operator_set_missing : SessionError
  aggregator_refused : AggregationError → SessionError

-- A nil slice for a missing key: `operatorPeersWeight.Weights[peer.OperatorAddress]`.
abbrev pub weights_of : Dict Bytes (List ℕ) → Bytes → List ℕ
weights_of weights address = elim (get address weights) [ none ↦ [] | some w ↦ w ]

-- The loop of both constructors, with the key that each takes.
unfoldable pub session_operators :
    (OperatorSet → Bytes)
    → Dict Bytes (List ℕ)
    → ℕ
    → List OperatorPeerInfo
    → Result SessionError (List Operator)
session_operators key weights operator_set_id [] = ok []
session_operators key weights operator_set_id (peer ∷ peers) = do
  opset ← or_fail (get_operator_set peer operator_set_id) operator_set_missing
  operators ← session_operators key weights operator_set_id peers
  ok (
      record {
        address = peer.operator_address;
        public_key = key opset;
        operator_index = opset.operator_index;
        weights = weights_of weights peer.operator_address;
      }
      ∷ operators)

abbrev pub from_aggregator : {A : Type 0} → Result AggregationError A → Result SessionError A
from_aggregator (ok a) = ok a
from_aggregator (err e) = err (aggregator_refused e)

-- `NewECDSATaskSession`, down to its aggregator.
unfoldable pub new_ecdsa_task_session :
    {Sig : Type 0} → Task → PeerWeight → Result SessionError (EcdsaAggregator Sig)
new_ecdsa_task_session task peers = do
  operators ←
      session_operators (λ os. os.ecdsa_address) peers.weights task.operator_set_id peers.operators
  from_aggregator (
      new_ecdsa_aggregator task.task_id task.reference_timestamp task.operator_set_id
        task.threshold_bips operators)

-- `NewBN254TaskSession`, down to its aggregator.
unfoldable pub new_bn254_task_session :
    {Pk Sig Point : Type 0}
    → Bn254Backend Pk Sig Point
    → Task
    → PeerWeight
    → Result SessionError (Bn254Aggregator Pk Sig)
new_bn254_task_session b task peers = do
  operators ←
      session_operators (λ os. os.public_key) peers.weights task.operator_set_id peers.operators
  from_aggregator (
      new_bn254_aggregator b task.task_id task.reference_timestamp task.operator_set_id
        task.threshold_bips operators)

-- The `TaskSubmission` of the executor's protocol.
pub record TaskSubmission : Type 0 where
  pub task_id : Bytes
  pub aggregator_address : Bytes
  pub avs_address : Bytes
  pub payload : Bytes
  pub signature : Bytes
  pub operator_set_id : ℕ
  pub reference_timestamp : ℕ
  pub executor_address : Bytes
  pub task_block_number : ℕ
  pub version : ℕ

module _ (eth : EthLib) (sign_message : Bytes → Option Bytes) (aggregator_address : Bytes)
    (task : Task) where
  -- `generateSignatureForExecutor`; `sign_message` is the signer's, and `none` an error.
  unfoldable pub generate_signature_for_executor : Bytes → Option Bytes
  generate_signature_for_executor executor_address =
      elim (encode_task_submission_message_versioned eth task.task_id task.avs_address
        executor_address task.reference_timestamp task.l1_reference_block_number
        task.operator_set_id task.payload task.version) [
          | err e ↦ none
          | ok message ↦ sign_message message
        ]

  -- The goroutine of one peer, down to the call of `SubmitTask`: the address it calls and what it
  -- sends; `none` where it gives up.
  unfoldable pub submission_for_peer : OperatorPeerInfo → Option (Bytes × TaskSubmission)
  submission_for_peer peer = elim (get_socket_for_operator_set peer task.operator_set_id) [
    | none ↦ none
    | some socket ↦ elim (generate_signature_for_executor peer.operator_address) [
      | none ↦ none
      | some signature ↦ some (
        socket,
        record {
          task_id = task.task_id;
          aggregator_address = aggregator_address;
          avs_address = task.avs_address;
          payload = task.payload;
          signature = signature;
          operator_set_id = task.operator_set_id;
          reference_timestamp = task.reference_timestamp;
          executor_address = peer.operator_address;
          task_block_number = task.l1_reference_block_number;
          version = task.version;
        },
      )
    ]
  ]

-- `ctx.Err()`, where it is not nil.
pub data ContextError : Type 0 where
  canceled deadline_exceeded other_context_error : ContextError

-- `Process`: what its `select` may take, from the end of its `Broadcast` and the error of the
-- session's context. An error of `Broadcast` goes to a channel that nothing receives from.
pub data Processes {A Cert : Type 0}
    : SessionOutcome A Cert → Option ContextError → Result ContextError Cert → Type 0 where
  take_certificate :
      (a : A) (cert : Cert) (ctx : Option ContextError) → Processes (certified a cert) ctx (ok cert)
  take_context :
      (outcome : SessionOutcome A Cert) (e : ContextError) → Processes outcome (some e) (err e)

-- Where `Broadcast` cannot generate its certificate, `Process` returns nothing while the session's
-- context is alive, and what it returns in the end is the context's error.
pub certificate_failed-Processes :
    {A Cert : Type 0} (e : AggregationError) (ctx : Option ContextError)
    (result : Result ContextError Cert)
    → Processes {A = A} {Cert = Cert} (certificate_failed e) ctx result
    → (cause : ContextError) × (ctx ≡ some cause) × (result ≡ err cause)
certificate_failed-Processes e ctx result (take_context outcome cause) = (cause, refl, refl)
