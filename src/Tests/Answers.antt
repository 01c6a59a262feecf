-- ===== src/Tests/Answers.antt =====
-- An executor that signs in memory and an aggregator of its task. A signature is a byte and the hash
-- that was signed.
use hourglass_monorepo.Prelude.{
  ◌≡◌, refl, Bool, true, Option, none, some, [], ◌∷◌, arith, ok, not_empty,
}
use hourglass_monorepo.Text.{
  Bytes, codes, bytes_beq, bytes_beq_iff, to_lower, to_lower-to_lower, equal_fold,
}
use hourglass_monorepo.Dict.{get, bytes_eq}
use hourglass_monorepo.Util.{find}
use hourglass_monorepo.Types.{TaskResult, to_signing_bytes}
use hourglass_monorepo.Peering.{ecdsa}
use hourglass_monorepo.Aggregation.{Received}
use hourglass_monorepo.Aggregation.Ecdsa.{EcdsaAggregator, process_new_signature}
use hourglass_monorepo.Session.Setup.{TaskSubmission}
use hourglass_monorepo.Executor.{ExecutorBackend, sign_result, digest_to_sign}
use hourglass_monorepo.Executor.Tasks.{Performers, run_received_task}
use hourglass_monorepo.Executor.Accepted.{same_chain, result_accepted}
use hourglass_monorepo.Signers.{SigningKey, in_memory_signer, solidity_hash}
use hourglass_monorepo.Tests.Signing.{alice, fresh}
use hourglass_monorepo.Tests.Submissions.{backend, submission}

abbrev sign_hash : Bytes → Option Bytes
sign_hash hash = some (1 ∷ hash)

abbrev key : SigningKey
key = record { sign_bn254 = sign_hash; sign_bn254_solidity = sign_hash; sign_ecdsa = sign_hash }

abbrev parse : Bytes → Option Bytes
parse [] = none
parse (x ∷ xs) = some (x ∷ xs)

abbrev verify : Bytes → Bytes → Bytes → Option Bool
verify sig hash address = some (bytes_beq sig (1 ∷ hash))

abbrev bytes_of : Bytes → Bytes
bytes_of sig = sig

abbrev chain : ExecutorBackend
chain = record backend {
  calculate_ecdsa_digest = λ t hash. some (1 ∷ 2 ∷ []);
  ecdsa_signer = some (in_memory_signer backend.eth key ecdsa);
}

abbrev task : TaskSubmission
task = record submission { task_id = codes "t"; reference_timestamp = 5; operator_set_id = 7 }

abbrev performers : Performers
performers avs = some (λ t. some (t.task_id, codes "out"))

abbrev answered : TaskResult
answered = record {
  task_id = codes "t";
  avs_address = to_lower task.avs_address;
  operator_set_id = 7;
  output = codes "out";
  operator_address = codes "0xA";
  result_signature = 1 ∷ 1 ∷ 2 ∷ [];
  auth_signature =
      1
      ∷ chain.eth.keccak256 (
          to_signing_bytes chain.eth (record {
            task_id = codes "t";
            avs_address = task.avs_address;
            operator_address = codes "0xA";
            operator_set_id = 7;
            result_sig_digest = chain.eth.keccak256 (1 ∷ 1 ∷ 2 ∷ []);
          }));
}

answers : run_received_task chain (codes "0xA") performers task ≡ ok answered
unfolding run_received_task sign_result digest_to_sign solidity_hash to_lower
answers = refl

key_verified :
    (hash s : Bytes)
    → key.sign_ecdsa hash ≡ some s
    → (sig : Bytes) × (parse s ≡ some sig)
      × (bytes_of sig ≡ s)
      × (verify sig hash alice.public_key ≡ some true)
      × (not_empty s ≡ true)
key_verified hash [] e = absurd (ground (arith, e))
key_verified hash (x ∷ xs) e =
    (x ∷ xs, refl, refl, ground (arith, e, bytes_beq_iff (x ∷ xs) (1 ∷ hash)), refl)

result_accepted_example :
    (tra' : EcdsaAggregator Bytes) × (process_new_signature
        (same_chain chain parse bytes_of verify)
        fresh
        answered
      ≡ ok tra')
    × (received : Received Bytes) × (get (codes "0xA") tra'.operator_signatures ≡ some received)
    × (received.task_result ≡ answered)
result_accepted_example =
    result_accepted chain parse bytes_of verify (codes "0xA") performers key task answered alice
      fresh answers refl refl refl
      (record {
        of_task = refl;
        for_set = refl;
        at_time = refl;
        has_operator = unfold find equal_fold to_lower in refl;
        not_answered = unfold get in refl;
      })
      to_lower-to_lower (λ t hash digest e. ground (arith, e)) key_verified
