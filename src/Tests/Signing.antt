-- ===== src/Tests/Signing.antt =====
-- An ECDSA aggregation with two operators, whose signatures are their keys.
use hourglass_monorepo.Prelude.{
  ◌+◌, ◌-◌, ◌≡◌, refl, ◌++◌, true, Option, none, some, [], ◌∷◌, arith, replicate, length, ok,
}
use hourglass_monorepo.Text.{Bytes, bytes_beq, codes, to_lower, equal_fold}
use hourglass_monorepo.Dict.{get, put, bytes_eq}
use hourglass_monorepo.Eth.{EthLib}
use hourglass_monorepo.Util.{find}
use hourglass_monorepo.Types.{TaskResult}
use hourglass_monorepo.Aggregation.{Operator, Received, SignerInfo, AggregatedOperators}
use hourglass_monorepo.Aggregation.Tally.{
  record_signer, update_winning_response, winning_group, signing_threshold_met,
}
use hourglass_monorepo.Aggregation.Ecdsa.{
  Backend, EcdsaAggregator, Accepted, check_response, verify_response_signature, store_response,
  process_new_signature, new_ecdsa_aggregator, ecdsa_threshold_met,
}
use hourglass_monorepo.Aggregation.Tally.Leader.{joined}
use hourglass_monorepo.Aggregation.Tally.Weights.{weight_at}
use hourglass_monorepo.Aggregation.Ecdsa.Invariant.{
  IsConsistent, process_new_signature-IsConsistent, new_ecdsa_aggregator-IsConsistent,
}
use hourglass_monorepo.Aggregation.Ecdsa.Respelled.{respelled, respelled_counts_twice}

abbrev pub eth : EthLib
eth = record {
  hex_to_hash = λ s. s;
  hex_to_address = to_lower;
  left_pad_bytes = λ b n. replicate (n - length b) 0 ++ b;
  hex_decode = λ s. some s;
  keccak256 = λ b. b;
}

abbrev pub backend : Backend Bytes
backend = record {
  eth = eth;
  calculate_task_message_hash = λ id out. some out;
  calculate_certificate_digest = λ t d. some d;
  parse_signature = λ s. some s;
  signature_bytes = λ s. s;
  verify_with_address = λ sig message key. some (bytes_beq sig key);
}

abbrev pub alice : Operator
alice = record { address = codes "0xa"; public_key = 1 ∷ []; operator_index = 0; weights = 60 ∷ [] }

abbrev pub bob : Operator
bob = record { address = codes "0xb"; public_key = 2 ∷ []; operator_index = 1; weights = 40 ∷ [] }

abbrev pub answer : Operator → TaskResult
answer op = record {
  task_id = codes "t";
  avs_address = codes "0xc";
  operator_set_id = 7;
  output = 9 ∷ [];
  operator_address = op.address;
  result_signature = op.public_key;
  auth_signature = op.public_key;
}

abbrev pub fresh : EcdsaAggregator Bytes
fresh = record {
  task_id = codes "t";
  reference_timestamp = 5;
  operator_set_id = 7;
  threshold_bips = 6000;
  operators = alice ∷ bob ∷ [];
  operator_signatures = [];
  aggregate_public_keys = (1 ∷ []) ∷ (2 ∷ []) ∷ [];
  aggregated_operators = none;
}

pub fresh_made :
    new_ecdsa_aggregator {Sig = Bytes} (codes "t") 5 7 6000 (alice ∷ bob ∷ []) ≡ ok fresh
unfolding new_ecdsa_aggregator
fresh_made = refl

abbrev accepted : Operator → Accepted Bytes
accepted op = record { operator = op; digest = 9 ∷ []; signature = op.public_key }

abbrev pub heard : EcdsaAggregator Bytes
heard = store_response fresh (answer alice) (accepted alice)

alice_accepted : check_response backend fresh (answer alice) ≡ ok (accepted alice)
unfolding check_response verify_response_signature find equal_fold to_lower get
alice_accepted = refl

pub alice-heard : process_new_signature backend fresh (answer alice) ≡ ok heard
unfolding process_new_signature
alice-heard = rw alice_accepted refl

-- The chain's digest of an output.
abbrev hash : Bytes → Option Bytes
hash o = some o

fresh-IsConsistent : IsConsistent hash fresh
fresh-IsConsistent =
    new_ecdsa_aggregator-IsConsistent hash (codes "t") 5 7 6000 (alice ∷ bob ∷ []) fresh fresh_made

process_new_signature-IsConsistent_example : IsConsistent hash heard
process_new_signature-IsConsistent_example =
    process_new_signature-IsConsistent hash backend fresh (answer alice) heard fresh-IsConsistent
      refl alice-heard

-- Alice's 60 of 100 meet the 6000 bips.
pub heard_met : ecdsa_threshold_met heard ≡ true
unfolding ecdsa_threshold_met signing_threshold_met winning_group store_response record_signer
    update_winning_response get put
heard_met = refl

abbrev both : EcdsaAggregator Bytes
both = store_response heard (answer bob) (accepted bob)

bob-heard : process_new_signature backend heard (answer bob) ≡ ok both
unfolding process_new_signature check_response verify_response_signature find equal_fold to_lower
    store_response get put
bob-heard = refl

respelled_counts_twice_example :
    (twice : EcdsaAggregator Bytes) × (process_new_signature backend heard
        (respelled (answer alice) (codes "0xA"))
      ≡ ok twice)
    × (weight_at twice.aggregated_operators (9 ∷ [])
        ≡ weight_at fresh.aggregated_operators (9 ∷ []) + 60 + 60)
respelled_counts_twice_example =
    respelled_counts_twice backend fresh (answer alice) (accepted alice) (codes "0xA")
      alice_accepted folds folds (unfold get in refl) (λ e. ground arith)
  where
    folds : to_lower (codes "0xA") ≡ to_lower (codes "0xa")
    folds = unfold to_lower in refl

abbrev received : Operator → Received Bytes
received op = record {
  task_id = codes "t";
  task_result = answer op;
  signature = op.public_key;
  output_digest = 9 ∷ [];
}

abbrev signer : Operator → SignerInfo Bytes Bytes
signer op = record { public_key = op.public_key; signature = op.public_key; operator = op }

abbrev alone : AggregatedOperators Bytes Bytes Bytes
alone = record_signer none (9 ∷ []) (codes "0xa") (received alice) (signer alice)

alone_at :
    get (9 ∷ []) alone.digest_groups
    ≡ some (joined none (9 ∷ []) (codes "0xa") (received alice) (signer alice))
unfolding record_signer update_winning_response get put
alone_at = refl
