-- ===== src/Tests/Submissions.antt =====
-- An executor with one performer, and submissions to it. A signature is the message itself.
use hourglass_monorepo.Prelude.{
  ◌≡◌, refl, true, false, Option, none, some, [], ◌∷◌, ◌++◌, arith, ok, err, replicate,
}
use hourglass_monorepo.Text.{Bytes, codes, bytes_beq, bytes_beq_iff, to_lower, equal_fold}
use hourglass_monorepo.Dict.{Dict, get, put, remove, bytes_eq, get-put_self}
use hourglass_monorepo.Types.{TaskResult, to_signing_bytes}
use hourglass_monorepo.Messages.{
  encode_task_submission_message_versioned, encode_task_submission_message,
}
use hourglass_monorepo.Peering.{
  ecdsa, OperatorSet, get_socket_for_operator_set, get_operator_set, find_operator_set,
}
use hourglass_monorepo.Session.Setup.{
  TaskSubmission, submission_for_peer, generate_signature_for_executor,
}
use hourglass_monorepo.Executor.{
  ExecutorBackend, ExecutorError, validate_task_submission, validate_operator_in_set,
  validate_task_signature, verify_submission, sign_result, digest_to_sign,
}
use hourglass_monorepo.Executor.Tasks.{
  Performers, check_received_task, run_received_task, handle_received_task, submit_task,
}
use hourglass_monorepo.Executor.Badger.{
  ExecutorKv, ExecutorValue, processed_value, BadgerPerformerStore, badger_tasks,
  badger_is_task_processed, badger_mark_task_processed,
}
use hourglass_monorepo.Executor.Stores.{
  new_performer_store, memory_tasks, is_task_processed, mark_task_processed,
}
use hourglass_monorepo.Executor.Honest.{submission-validate}
use hourglass_monorepo.Executor.Replays.{submit_task_once, unversioned_validate}
use hourglass_monorepo.Tests.Signing.{eth}
use hourglass_monorepo.Tests.Stores.{task}
use hourglass_monorepo.Tests.Rosters.{peer}

abbrev set : OperatorSet
set = record {
  operator_set_id = 0;
  operator_index = 0;
  public_key = [];
  ecdsa_address = [];
  network_address = [];
  curve_type = ecdsa;
}

abbrev sign : Bytes → Option Bytes
sign message = some message

abbrev pub backend : ExecutorBackend
backend = record {
  eth = eth;
  is_hash_text = λ s. true;
  is_address_text = λ s. true;
  get_avs_config = λ avs n.
      some (some (record { aggregator_operator_set_id = 0; executor_operator_set_ids = [] }));
  get_operator_set_details = λ operator avs id n. some (some set);
  get_operator_set_curve_type = λ avs id n. some ecdsa;
  calculate_task_message_hash = λ id output. some output;
  calculate_bn254_digest = λ t d. some d;
  calculate_ecdsa_digest = λ t d. some d;
  parse_signature = λ curve s. some s;
  parse_ecdsa = λ s. some s;
  verify = λ sig key message. some (bytes_beq sig message);
  verify_with_address = λ sig message address. some (bytes_beq sig message);
  bn254_signer = none;
  ecdsa_signer = some (record { sign_message = sign; sign_message_for_solidity = sign });
}

-- A submission with the signature of an empty message and a version that is not supported.
abbrev address : Bytes
address = codes "0x" ++ replicate 40 b'a'

abbrev sent_message : Bytes
sent_message =
    encode_task_submission_message eth task.task_id task.avs_address peer.operator_address
      task.reference_timestamp task.l1_reference_block_number task.operator_set_id task.payload

abbrev pub submission : TaskSubmission
submission = record {
  task_id = task.task_id;
  aggregator_address = address;
  avs_address = task.avs_address;
  payload = task.payload;
  signature = sent_message;
  operator_set_id = task.operator_set_id;
  reference_timestamp = task.reference_timestamp;
  executor_address = peer.operator_address;
  task_block_number = task.l1_reference_block_number;
  version = task.version;
}

signed_by_itself :
    (message signature : Bytes)
    → sign message ≡ some signature
    → verify_submission backend (codes "0xa") set signature (backend.eth.keccak256 message) ≡ ok tt
unfolding verify_submission
signed_by_itself message signature e = ground (arith, e, bytes_beq_iff signature message)

submission-validate_example : validate_task_signature backend (codes "0xa") submission ≡ ok tt
submission-validate_example =
    submission-validate backend (codes "0xa") sign address task peer (codes "host") submission set
      (unfold submission_for_peer generate_signature_for_executor
          encode_task_submission_message_versioned get_socket_for_operator_set get_operator_set
          find_operator_set in
        refl)
      (unfold to_lower in refl)
      (record {
        avs = record { aggregator_operator_set_id = 0; executor_operator_set_ids = [] };
        configured = refl;
        registered = refl;
      })
      signed_by_itself

-- The same executor with a verification that always succeeds.
abbrev trusting : ExecutorBackend
trusting = record backend { verify_with_address = λ sig message key. some true }

abbrev performers : Performers
performers avs = some (λ t. some (t.task_id, codes "out"))

abbrev task_id : Bytes
task_id = codes "0x" ++ replicate 64 b'1'

abbrev request : TaskSubmission
request = record submission {
  task_id = task_id;
  avs_address = address;
  executor_address = address;
  signature = 1 ∷ [];
}

abbrev result : TaskResult
result = record {
  task_id = task_id;
  avs_address = address;
  operator_set_id = 7;
  output = codes "out";
  operator_address = address;
  result_signature = codes "out";
  auth_signature = to_signing_bytes eth (record {
    task_id = task_id;
    avs_address = address;
    operator_address = address;
    operator_set_id = 7;
    result_sig_digest = codes "out";
  });
}

run :
    submit_task trusting address performers memory_tasks new_performer_store request
    ≡ ok (new_performer_store, result)
unfolding submit_task validate_task_submission handle_received_task check_received_task
    validate_operator_in_set validate_task_signature verify_submission run_received_task sign_result
    digest_to_sign new_performer_store is_task_processed mark_task_processed to_lower equal_fold
run = refl

-- A database as an association list.
abbrev kv : ExecutorKv (Dict Bytes ExecutorValue)
kv = record {
  find_key = λ d k. get k d;
  set_key = λ d k v. put k v d;
  delete_key = λ d k. remove k d;
  scan = λ d prefix. d;
}

abbrev no_tasks : BadgerPerformerStore (Dict Bytes ExecutorValue)
no_tasks = record { db = []; closed = false }

abbrev one_task : BadgerPerformerStore (Dict Bytes ExecutorValue)
one_task = record {
  db = (codes "processed:" ++ task_id, processed_value task_id) ∷ [];
  closed = false;
}

run_once :
    submit_task trusting address performers (badger_tasks kv) no_tasks request
    ≡ ok (one_task, result)
unfolding submit_task validate_task_submission handle_received_task check_received_task
    validate_operator_in_set validate_task_signature verify_submission run_received_task sign_result
    digest_to_sign to_lower equal_fold badger_is_task_processed badger_mark_task_processed get put
run_once = refl

submit_task_once_example :
    (e : ExecutorError) × (submit_task trusting address performers
        (badger_tasks kv)
        one_task
        request
      ≡ err e)
submit_task_once_example =
    submit_task_once trusting address performers kv no_tasks one_task request request result
      (λ d k v. get-put_self k v d) refl run_once refl

-- Two tasks with one signature, in a version that is not supported.
abbrev unversioned : Bytes → TaskSubmission
unversioned payload = record submission { payload = payload; version = 0; signature = codes "sig" }

unversioned_validate_example :
    (validate_task_signature backend address (unversioned (codes "pay 1"))
      ≡ verify_submission backend address set (codes "sig") (backend.eth.keccak256 []))
    × (validate_task_signature backend address (unversioned (codes "pay 2"))
        ≡ verify_submission backend address set (codes "sig") (backend.eth.keccak256 []))
unversioned_validate_example =
    unversioned_validate backend address performers (unversioned (codes "pay 1"))
      (unversioned (codes "pay 2")) set (λ e. absurd (omega (arith, e)))
      (λ e. absurd (omega (arith, e)))
      (record {
        avs = record { aggregator_operator_set_id = 0; executor_operator_set_ids = [] };
        configured = refl;
        registered = refl;
      })
      refl refl refl refl
