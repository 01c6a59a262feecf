-- ===== src/Aggregation/Bn254/Certificate.antt =====
-- `GenerateFinalCertificate` of bn254.go. The sums of signatures and keys run over the signers in
-- one iteration order of the map. `aggregatedSig` is the first signer's own signature, which
-- `Add` overwrites, so the aggregator changes too.
pub mod Order
pub mod Respelled
use hourglass_monorepo.Prelude.{
  ℕ, Bool, true, false, not, Option, none, some, List, [], ◌∷◌, map, leb, if◌then◌else◌, is_none,
  is_empty, not_empty, Result, ok, err,
}
use hourglass_monorepo.Text.{Bytes, bytes_beq}
use hourglass_monorepo.Dict.{Dict, get, put, bytes_eq}
use hourglass_monorepo.Util.{filter}
use hourglass_monorepo.Aggregation.{
  Operator, Received, SignerInfo, DigestGroup, AggregatedOperators, AggregationError,
}
use hourglass_monorepo.Aggregation.Tally.{winning_group, nothing_collected}
use hourglass_monorepo.Aggregation.Bn254.{Bn254Backend, Bn254Aggregator}

-- `AggregatedBN254Certificate`, less the unset time.
pub record Bn254Certificate (Sig Point : Type 0) : Type 0 where
  pub task_id : Bytes
  pub task_response : Bytes
  pub task_response_digest : Bytes
  pub non_signers_pub_keys : List Bytes
  pub all_operators_pub_keys : List Bytes
  pub signers_public_key : Point
  pub signers_signature : Option Sig
  pub non_signer_operators : List Operator
  pub sorted_operators_by_index : List Operator

-- One step of a stable sort by `OperatorIndex`.
unfoldable pub insert_by_index : Operator → List Operator → List Operator
insert_by_index o [] = o ∷ []
insert_by_index o (p ∷ ps) =
    let later = insert_by_index o ps in
    if leb o.operator_index p.operator_index then o ∷ p ∷ ps else p ∷ later

-- `sort.SliceStable` by `OperatorIndex`
unfoldable pub sort_by_index : List Operator → List Operator
unfolding insert_by_index
sort_by_index [] = []
sort_by_index (o ∷ os) = insert_by_index o (sort_by_index os)

module _ {Pk Sig : Type 0} where
  -- `nonSignerOperators`, before they are sorted
  unfoldable pub non_signers : List Operator → Dict Bytes (SignerInfo Pk Sig) → List Operator
  non_signers operators signers = filter operators (λ op. is_none (get op.address signers))

  -- The group with another signature of one signer, which the group's own response may share.
  abbrev resigned : Bytes → Sig → DigestGroup Pk Sig Sig → DigestGroup Pk Sig Sig
  resigned address s g =
      let response = g.response in
      let signers : Dict Bytes (SignerInfo Pk Sig) = elim (get address g.signers) [
        | none ↦ g.signers
        | some info ↦ put address (record info { signature = s }) g.signers
      ] in
      if bytes_beq response.task_result.operator_address address
      then record g { signers = signers; response = record response { signature = s } }
      else record g { signers = signers }

  -- `aggregatedSig.Add` writes to the signature that the first signer's records share.
  unfoldable pub overwrite_signature :
      Bn254Aggregator Pk Sig → DigestGroup Pk Sig Sig → Bytes → Sig → Bn254Aggregator Pk Sig
  overwrite_signature tra group address s =
      let received : Dict Bytes (Received Sig) = elim (get address tra.received_signatures) [
        | none ↦ tra.received_signatures
        | some rr ↦ put address (record rr { signature = s }) tra.received_signatures
      ] in
      elim tra.aggregated_operators [
        | none ↦ record tra { received_signatures = received }
        | some a ↦ record tra {
          received_signatures = received;
          aggregated_operators = some (record a {
            digest_groups = put a.winning_digest (resigned address s group) a.digest_groups;
          });
        }
      ]

module _ {Pk Sig Point : Type 0} (b : Bn254Backend Pk Sig Point) where
  -- The sums over the signers after the first one.
  unfoldable pub add_signatures : Sig → Dict Bytes (SignerInfo Pk Sig) → Sig
  add_signatures s [] = s
  add_signatures s ((a, info) ∷ signers) = add_signatures (b.add_signature s info.signature) signers

  unfoldable pub add_public_keys : Point → Dict Bytes (SignerInfo Pk Sig) → Point
  add_public_keys p [] = p
  add_public_keys p ((a, info) ∷ signers) =
      add_public_keys (b.add_public_key p info.public_key) signers

  -- The certificate of the winning group, with the aggregated signature.
  abbrev pub bn254_certificate_of :
      Bn254Aggregator Pk Sig → DigestGroup Pk Sig Sig → Sig → Bytes → Bn254Certificate Sig Point
  bn254_certificate_of tra group s id =
      let absent = sort_by_index (non_signers tra.operators group.signers) in
      let sorted = sort_by_index tra.operators in
      record {
        task_id = id;
        task_response = group.response.task_result.output;
        task_response_digest = group.response.output_digest;
        non_signers_pub_keys = map (λ o. o.public_key) absent;
        all_operators_pub_keys = map (λ o. o.public_key) sorted;
        signers_public_key = add_public_keys b.zero_point group.signers;
        signers_signature = some s;
        non_signer_operators = absent;
        sorted_operators_by_index = sorted;
      }

  -- `GenerateFinalCertificate` from a winning group on, by its signers.
  abbrev pub certify_group :
      Bn254Aggregator Pk Sig
      → DigestGroup Pk Sig Sig
      → Dict Bytes (SignerInfo Pk Sig)
      → Bn254Aggregator Pk Sig × Result AggregationError (Bn254Certificate Sig Point)
  certify_group tra group [] = (tra, err AggregationError.no_winning_signatures)
  certify_group tra group ((address, first) ∷ rest) =
      let s = add_signatures first.signature rest in
      let tra' = overwrite_signature tra group address s in
      elim (b.eth.hex_decode tra.task_id) [
        | none ↦ (tra', err AggregationError.task_id_decode_failed)
        | some id ↦ (tra', ok (bn254_certificate_of tra group s id))
      ]

  -- `GenerateFinalCertificate`
  unfoldable pub generate_bn254_certificate :
      Bn254Aggregator Pk Sig
      → Bn254Aggregator Pk Sig × Result AggregationError (Bn254Certificate Sig Point)
  generate_bn254_certificate tra =
      if nothing_collected tra.aggregated_operators
      then (tra, err AggregationError.no_signatures_collected)
      else elim (winning_group tra.aggregated_operators) [
        | none ↦ (tra, err AggregationError.no_winning_signatures)
        | some group ↦ certify_group tra group group.signers
      ]
