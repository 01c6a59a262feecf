-- ===== src/Aggregation/Ecdsa/Invariant.antt =====
-- What holds of an ECDSA aggregator between two calls of its methods.
use hourglass_monorepo.Prelude.{
  ℕ, ◌≡◌, refl, sym, ◌∙◌, ◌⊎◌, true, false, Option, none, some, List, [], arith, ok, not_empty, inl,
  inr, Option-cases,
}
use hourglass_monorepo.Text.{Bytes, bytes_beq_iff}
use hourglass_monorepo.Dict.{get, put, bytes_eq, ◌==◌, get-put, put-not_empty}
use hourglass_monorepo.Types.{TaskResult}
use hourglass_monorepo.Aggregation.{
  Operator, Received, SignerInfo, DigestGroup, AggregatedOperators,
}
use hourglass_monorepo.Aggregation.Tally.{or_no_groups, group_or_new, record_signer}
use hourglass_monorepo.Aggregation.Tally.Leader.{
  IsLedOrNew, joined, groups-record_signer, record_signer-IsLed,
}
use hourglass_monorepo.Aggregation.Tally.Weights.{AllWeighed, IsFresh, record_signer-AllWeighed}
use hourglass_monorepo.Aggregation.Ecdsa.{
  Backend, EcdsaAggregator, Accepted, store_response, process_new_signature, new_ecdsa_aggregator,
}
use hourglass_monorepo.Aggregation.Ecdsa.Process.{process-Processed, check_response-IsChecked}

-- `hash` gives the digest that the chain computes for an output of this task.
module _ {Sig : Type 0} (hash : Bytes → Option Bytes) where
  abbrev AllGenuine : Option (AggregatedOperators Bytes Bytes Sig) → Type 0
  AllGenuine agg =
      (d : Bytes) (g : DigestGroup Bytes Bytes Sig)
      → get d (or_no_groups agg).digest_groups ≡ some g
      → (hash g.response.task_result.output ≡ some d)
        × (g.response.output_digest ≡ d)
        × (not_empty g.signers ≡ true)

  -- The leading group is the heaviest, every group weighs its signers' stake, an address that has
  -- not answered is in no group, and each group's response hashes to its digest.
  pub record IsConsistent (tra : EcdsaAggregator Sig) : Type 0 where
    pub led : IsLedOrNew tra.aggregated_operators
    pub weighed : AllWeighed tra.aggregated_operators
    pub recorded :
        (address : Bytes)
        → get address tra.operator_signatures ≡ none
        → (d : Bytes) → IsFresh tra.aggregated_operators d address
    pub genuine : AllGenuine tra.aggregated_operators

  module _ (tra : EcdsaAggregator Sig) (r : TaskResult) (accepted : Accepted Sig)
      (old : IsConsistent tra) (unheard : get r.operator_address tra.operator_signatures ≡ none)
      (hashed : hash r.output ≡ some accepted.digest) where
    abbrev agg : Option (AggregatedOperators Bytes Bytes Sig)
    agg = tra.aggregated_operators

    abbrev rr : Received Sig
    rr = record {
      task_id = tra.task_id;
      task_result = r;
      signature = accepted.signature;
      output_digest = accepted.digest;
    }

    abbrev info : SignerInfo Bytes Bytes
    info = record {
      public_key = accepted.operator.public_key;
      signature = r.result_signature;
      operator = accepted.operator;
    }

    abbrev after : AggregatedOperators Bytes Bytes Sig
    after = record_signer agg accepted.digest r.operator_address rr info

    abbrev group : DigestGroup Bytes Bytes Sig
    group = joined agg accepted.digest r.operator_address rr info

    -- Every group afterwards is the joined one or one from before.
    group_cases :
        (d : Bytes) (g : DigestGroup Bytes Bytes Sig)
        → get d after.digest_groups ≡ some g
        → ((d ≡ accepted.digest) × (g ≡ group)) ⊎ (get d (or_no_groups agg).digest_groups ≡ some g)
    group_cases d g e = ground (
      arith,
      groups-record_signer agg accepted.digest r.operator_address rr info,
      get-put accepted.digest d group (or_no_groups agg).digest_groups,
      bytes_beq_iff accepted.digest d,
    )

    joined-IsFresh :
        (x : Bytes)
        → get x tra.operator_signatures ≡ none
        → (r.operator_address == x) ≡ false
        → get x group.signers ≡ none
    joined-IsFresh x e other =
        elim (Option-cases (get accepted.digest (or_no_groups agg).digest_groups)) [
          | inl p ↦
              rw (p, group_or_new)
                (unfold put get in ground (arith, bytes_beq_iff r.operator_address x))
          | inr (g, p) ↦
              rw (p, group_or_new)
                (ground (
                  arith,
                  get-put r.operator_address x info g.signers,
                  old.recorded x e accepted.digest g p,
                ))
        ]

    joined_genuine :
        (hash group.response.task_result.output ≡ some accepted.digest)
        × (group.response.output_digest ≡ accepted.digest)
        × (not_empty group.signers ≡ true)
    joined_genuine = elim (Option-cases (get accepted.digest (or_no_groups agg).digest_groups)) [
      | inl p ↦ rw (p, group_or_new) (hashed, refl, put-not_empty r.operator_address info [])
      | inr (g, p) ↦
          rw (p, group_or_new)
            (
              (old.genuine accepted.digest g p).0,
              (old.genuine accepted.digest g p).1,
              put-not_empty r.operator_address info g.signers,
            )
    ]

    pub store_response-IsConsistent : IsConsistent (store_response tra r accepted)
    unfolding store_response
    store_response-IsConsistent = record {
      led = record_signer-IsLed agg accepted.digest r.operator_address rr info old.led;
      weighed =
          record_signer-AllWeighed agg accepted.digest r.operator_address rr info old.weighed
            (old.recorded r.operator_address unheard accepted.digest);
      recorded = λ x e d g p. recorded_after x e d g (group_cases d g p);
      genuine = λ d g p. genuine_after d g (group_cases d g p);
    }
      where
        recorded_after :
            (x : Bytes)
            → get x (put r.operator_address rr tra.operator_signatures) ≡ none
            → (d : Bytes) (g : DigestGroup Bytes Bytes Sig)
            → ((d ≡ accepted.digest) × (g ≡ group))
              ⊎ (get d (or_no_groups agg).digest_groups ≡ some g)
            → get x g.signers ≡ none
        recorded_after x e d g (inl (p, q)) =
            ground
              (arith, get-put r.operator_address x rr tra.operator_signatures, joined-IsFresh x)
        recorded_after x e d g (inr p) =
            old.recorded x (ground (arith, get-put r.operator_address x rr tra.operator_signatures))
              d g p

        genuine_after :
            (d : Bytes) (g : DigestGroup Bytes Bytes Sig)
            → ((d ≡ accepted.digest) × (g ≡ group))
              ⊎ (get d (or_no_groups agg).digest_groups ≡ some g)
            → (hash g.response.task_result.output ≡ some d)
              × (g.response.output_digest ≡ d)
              × (not_empty g.signers ≡ true)
        genuine_after d g (inl (p, q)) = rw (p, q) joined_genuine
        genuine_after d g (inr p) = old.genuine d g p

  -- The invariant survives every `ProcessNewSignature` that succeeds, at any backend whose
  -- message hash for this task and output is `hash` of the output.
  pub process_new_signature-IsConsistent :
      (b : Backend Sig) (tra : EcdsaAggregator Sig) (r : TaskResult) (tra' : EcdsaAggregator Sig)
      → IsConsistent tra
      → b.calculate_task_message_hash (b.eth.hex_to_hash r.task_id) r.output ≡ hash r.output
      → process_new_signature b tra r ≡ ok tra'
      → IsConsistent tra'
  process_new_signature-IsConsistent b tra r tra' old hashes h =
      let p = process-Processed b tra r tra' h in
      let c = check_response-IsChecked b tra r p.accepted p.passed in
      rw p.stored
        (store_response-IsConsistent tra r p.accepted old c.unheard (sym hashes ∙ c.hashed))

  -- A new aggregator satisfies the invariant.
  pub new_ecdsa_aggregator-IsConsistent :
      (task_id : Bytes) (timestamp set_id bips : ℕ) (operators : List Operator)
      (tra : EcdsaAggregator Sig)
      → new_ecdsa_aggregator task_id timestamp set_id bips operators ≡ ok tra
      → IsConsistent tra
  new_ecdsa_aggregator-IsConsistent task_id timestamp set_id bips operators tra h =
      let e : tra.aggregated_operators ≡ none = unfold new_ecdsa_aggregator in ground arith in
      record {
        led = rw e tt;
        weighed = rw e (λ d g p. absurd (unfold get in ground arith));
        recorded = λ x q. rw e (λ d g p. absurd (unfold get in ground arith));
        genuine = rw e (λ d g p. absurd (unfold get in ground arith));
      }
