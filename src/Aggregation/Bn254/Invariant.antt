-- ===== src/Aggregation/Bn254/Invariant.antt =====
-- What holds of a BN254 aggregator between two calls of its methods.
use hourglass_monorepo.Prelude.{
  ℕ, ◌≡◌, refl, ◌∙◌, false, Option, none, some, List, [], arith, Result, ok, err, inl, inr,
  Option-cases,
}
use hourglass_monorepo.Text.{Bytes}
use hourglass_monorepo.Dict.{get, put, bytes_eq, ◌==◌, get-put}
use hourglass_monorepo.Types.{TaskResult}
use hourglass_monorepo.Aggregation.{
  Operator, Received, SignerInfo, AggregatedOperators, AggregationError,
}
use hourglass_monorepo.Aggregation.Tally.{or_no_groups, record_signer}
use hourglass_monorepo.Aggregation.Tally.Leader.{
  IsLedOrNew, joined, groups-record_signer, record_signer-IsLed,
}
use hourglass_monorepo.Aggregation.Tally.Weights.{AllWeighed, IsFresh, record_signer-AllWeighed}
use hourglass_monorepo.Aggregation.Bn254.{
  Bn254Backend, Bn254Aggregator, Bn254Accepted, new_bn254_aggregator, validate_task_response,
  check_bn254_response, bn254_received, store_bn254_response, process_bn254_signature,
}

module _ {Pk Sig : Type 0} where
  -- The leading group is the heaviest, every group weighs its signers' stake, and an address that
  -- has not answered is in no group.
  pub record IsTallied (tra : Bn254Aggregator Pk Sig) : Type 0 where
    pub led : IsLedOrNew tra.aggregated_operators
    pub weighed : AllWeighed tra.aggregated_operators
    pub recorded :
        (address : Bytes)
        → get address tra.received_signatures ≡ none
        → (d : Bytes) → IsFresh tra.aggregated_operators d address

  -- A signer enters one group, so it is the only address that is no longer fresh.
  record_signer-IsFresh :
      (agg : Option (AggregatedOperators Pk Sig Sig)) (digest address x : Bytes) (rr : Received Sig)
      (info : SignerInfo Pk Sig) (d : Bytes)
      → (address == x) ≡ false
      → ((e : Bytes) → IsFresh agg e x)
      → IsFresh (some (record_signer agg digest address rr info)) d x
  record_signer-IsFresh agg digest address x rr info d other fresh g e =
      elim (Option-cases (get digest (or_no_groups agg).digest_groups)) [
        | inl p ↦
            let alone : get x (put address info []) ≡ none =
              get-put address x info [] ∙ (unfold get in rw other refl) in
            ground (
              arith,
              groups-record_signer agg digest address rr info,
              get-put digest d (joined agg digest address rr info) (or_no_groups agg).digest_groups,
              alone,
              fresh d g,
              p,
            )
        | inr (h, p) ↦ ground (
          arith,
          groups-record_signer agg digest address rr info,
          get-put digest d (joined agg digest address rr info) (or_no_groups agg).digest_groups,
          get-put address x info h.signers,
          fresh digest h p,
          fresh d g,
          p,
        )
      ]

module _ {Pk Sig Point : Type 0} (b : Bn254Backend Pk Sig Point) where
  unheard_of_check :
      (tra : Bn254Aggregator Pk Sig) (r : TaskResult) (accepted : Bn254Accepted Sig)
      → check_bn254_response b tra r ≡ ok accepted
      → get r.operator_address tra.received_signatures ≡ none
  unfolding check_bn254_response validate_task_response
  unheard_of_check tra r accepted h = ground arith

  module _ (tra : Bn254Aggregator Pk Sig) (r : TaskResult) (accepted : Bn254Accepted Sig)
      (old : IsTallied tra) (unheard : get r.operator_address tra.received_signatures ≡ none) where
    -- Who is unheard afterwards was unheard before, and is another address.
    unheard_before :
        (x : Bytes)
        → get x (put r.operator_address (bn254_received b tra r accepted) tra.received_signatures)
          ≡ none
        → ((r.operator_address == x) ≡ false) × (get x tra.received_signatures ≡ none)
    unheard_before x e = ground (
      arith,
      get-put r.operator_address x (bn254_received b tra r accepted) tra.received_signatures,
    )

    store_bn254_response-IsTallied : IsTallied (store_bn254_response b tra r accepted).0
    unfolding store_bn254_response
    store_bn254_response-IsTallied =
        elim (Option-cases (b.parse_public_key accepted.operator.public_key)) [
          | inl e ↦
              rw (e, store_bn254_response)
                (record {
                  led = old.led;
                  weighed = old.weighed;
                  recorded = λ x q. old.recorded x (unheard_before x q).1;
                })
          | inr (key, e) ↦
              let info : SignerInfo Pk Sig = record {
                public_key = key;
                signature = accepted.signature;
                operator = accepted.operator;
              } in
              let rr = bn254_received b tra r accepted in
              let agg = tra.aggregated_operators in
              rw (e, store_bn254_response)
                (record {
                  led = record_signer-IsLed agg accepted.digest r.operator_address rr info old.led;
                  weighed =
                      record_signer-AllWeighed agg accepted.digest r.operator_address rr info
                        old.weighed (old.recorded r.operator_address unheard accepted.digest);
                  recorded = λ x q d.
                      record_signer-IsFresh agg accepted.digest r.operator_address x rr info d
                        (unheard_before x q).0 (old.recorded x (unheard_before x q).1);
                })
        ]

  -- The invariant survives every `ProcessNewSignature`, whether the result is accepted, refused, or
  -- remembered and then refused for its operator's key.
  pub process_bn254_signature-IsTallied :
      (tra : Bn254Aggregator Pk Sig) (r : TaskResult)
      → IsTallied tra
      → IsTallied (process_bn254_signature b tra r).0
  unfolding process_bn254_signature
  process_bn254_signature-IsTallied tra r old = go (check_bn254_response b tra r) refl
    where
      go :
          (c : Result AggregationError (Bn254Accepted Sig))
          → check_bn254_response b tra r ≡ c
          → IsTallied (process_bn254_signature b tra r).0
      go (err e) q = rw (q, process_bn254_signature) old
      go (ok accepted) q =
          rw (q, process_bn254_signature)
            (store_bn254_response-IsTallied tra r accepted old (unheard_of_check tra r accepted q))

  -- A new aggregator satisfies the invariant.
  pub new_bn254_aggregator-IsTallied :
      (task_id : Bytes) (timestamp set_id bips : ℕ) (operators : List Operator)
      (tra : Bn254Aggregator Pk Sig)
      → new_bn254_aggregator b task_id timestamp set_id bips operators ≡ ok tra
      → IsTallied tra
  new_bn254_aggregator-IsTallied task_id timestamp set_id bips operators tra h =
      let e : tra.aggregated_operators ≡ none = unfold new_bn254_aggregator in ground arith in
      record {
        led = rw e tt;
        weighed = rw e (λ d g p. absurd (unfold get in ground arith));
        recorded = λ x q. rw e (λ d g p. absurd (unfold get in ground arith));
      }
