-- ===== src/Tests/Curves.antt =====
-- A BN254 aggregation with two operators, whose signatures are their keys.
use hourglass_monorepo.Prelude.{◌≡◌, refl, none, some, List, [], ◌∷◌, ◌++◌, ok}
use hourglass_monorepo.Text.{Bytes, bytes_beq, codes}
use hourglass_monorepo.Dict.{get, bytes_eq}
use hourglass_monorepo.Types.{TaskResult}
use hourglass_monorepo.Aggregation.{Operator, Received, DigestGroup}
use hourglass_monorepo.Aggregation.Tally.{winning_group}
use hourglass_monorepo.Aggregation.Bn254.{
  Bn254Backend, Bn254Aggregator, new_bn254_aggregator, parse_public_keys, process_bn254_signature,
}
use hourglass_monorepo.Aggregation.Bn254.Invariant.{
  IsTallied, process_bn254_signature-IsTallied, new_bn254_aggregator-IsTallied,
}
use hourglass_monorepo.Aggregation.Bn254.Certificate.{Bn254Certificate, generate_bn254_certificate}
use hourglass_monorepo.Aggregation.Bn254.Certificate.Order.{
  IsListed, generate_bn254_certificate-IsListed,
}
use hourglass_monorepo.Tests.Signing.{eth, alice, bob, answer}

abbrev backend : Bn254Backend Bytes Bytes (List Bytes)
backend = record {
  eth = eth;
  calculate_task_message_hash = λ id out. some out;
  calculate_certificate_digest = λ t d. some d;
  parse_signature = λ s. some s;
  parse_public_key = λ k. some k;
  cast_public_key = λ k. some k;
  verify_solidity_compatible = λ sig key message. some (bytes_beq sig key);
  verify = λ sig key message. some (bytes_beq sig key);
  aggregate_public_keys = λ keys. some [];
  zero_point = [];
  add_public_key = λ point key. key ∷ point;
  add_signature = λ s t. s ++ t;
}

abbrev fresh : Bn254Aggregator Bytes Bytes
fresh = record {
  task_id = codes "t";
  reference_timestamp = 5;
  operator_set_id = 7;
  threshold_bips = 6000;
  operators = bob ∷ alice ∷ [];
  received_signatures = [];
  aggregate_public_key = [];
  aggregated_operators = none;
}

process_bn254_signature-IsTallied_example :
    IsTallied (process_bn254_signature backend fresh (answer alice)).0
process_bn254_signature-IsTallied_example =
    process_bn254_signature-IsTallied backend fresh (answer alice) (
      new_bn254_aggregator-IsTallied backend (codes "t") 5 7 6000 (bob ∷ alice ∷ []) fresh
        (unfold new_bn254_aggregator parse_public_keys in refl))

abbrev received_of : Operator → Received Bytes
received_of op = record {
  task_id = codes "t";
  task_result = answer op;
  signature = op.public_key;
  output_digest = 9 ∷ [];
}

abbrev group : DigestGroup Bytes Bytes Bytes
group = record {
  signers =
      (
        alice.address,
        record { public_key = alice.public_key; signature = alice.public_key; operator = alice },
      )
      ∷ [];
  response = received_of alice;
  current_weight = 60;
}

abbrev heard : Bn254Aggregator Bytes Bytes
heard = record fresh {
  received_signatures = (alice.address, received_of alice) ∷ [];
  aggregated_operators = some (record {
    digest_groups = (9 ∷ [], group) ∷ [];
    winning_digest = 9 ∷ [];
    winning_weight = some 60;
  });
}

generate_bn254_certificate-IsListed_example :
    (cert : Bn254Certificate Bytes (List Bytes)) × ((generate_bn254_certificate backend heard).1
      ≡ ok cert)
    × IsListed heard cert
generate_bn254_certificate-IsListed_example =
    generate_bn254_certificate-IsListed backend heard group (codes "t")
      (unfold winning_group get in refl) refl refl

-- Alice's answer, with her address in upper case.
abbrev shouted : TaskResult
shouted = record (answer alice) { operator_address = codes "0xA" }
