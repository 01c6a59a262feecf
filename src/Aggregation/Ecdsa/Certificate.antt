-- ===== src/Aggregation/Ecdsa/Certificate.antt =====
-- `SigningThresholdMet` and `GenerateFinalCertificate` of ecdsa.go together.
use hourglass_monorepo.Prelude.{◌+◌, ◌*◌, ◌<◌, ◌≡◌, refl, true, Option, some, [], ok, not_empty}
use hourglass_monorepo.Text.{Bytes}
use hourglass_monorepo.Dict.{total, bytes_eq}
use hourglass_monorepo.Eth.{EthLib}
use hourglass_monorepo.Types.{TaskResult}
use hourglass_monorepo.Aggregation.{DigestGroup}
use hourglass_monorepo.Aggregation.Tally.{total_stake, winning_group}
use hourglass_monorepo.Aggregation.Tally.Threshold.{
  nothing_collected_winner, get-winning_group, signing_threshold_met-Reaches,
  signing_threshold_met-record_signer,
}
use hourglass_monorepo.Aggregation.Tally.Weights.{signer_stake}
use hourglass_monorepo.Aggregation.Ecdsa.{
  Backend, EcdsaAggregator, EcdsaCertificate, store_response, process_new_signature,
  ecdsa_threshold_met, collect_signatures, generate_final_certificate,
}
use hourglass_monorepo.Aggregation.Ecdsa.Process.{process-Processed}
use hourglass_monorepo.Aggregation.Ecdsa.Invariant.{IsConsistent}

module _ {Sig : Type 0} where
  -- A certificate whose signers, all in one digest group, have the stake that the threshold asks
  -- for, and whose digest is that of its response.
  pub record IsBacked (hash : Bytes → Option Bytes) (eth : EthLib) (tra : EcdsaAggregator Sig)
      (cert : EcdsaCertificate) : Type 0 where
    pub group : DigestGroup Bytes Bytes Sig
    pub winner : winning_group tra.aggregated_operators ≡ some group
    pub names_task : eth.hex_decode tra.task_id ≡ some cert.task_id
    pub hashes : hash cert.task_response ≡ some cert.task_response_digest
    pub collects : cert.signers_signatures ≡ collect_signatures eth group.signers []
    pub enough :
        total_stake tra.operators * tra.threshold_bips
        < 10000 * (total signer_stake group.signers + 1)

  -- The certificate of a group.
  abbrev certificate_of : EthLib → Bytes → DigestGroup Bytes Bytes Sig → EcdsaCertificate
  certificate_of eth id g = record {
    task_id = id;
    task_response = g.response.task_result.output;
    task_response_digest = g.response.output_digest;
    signers_signatures = collect_signatures eth g.signers [];
  }

  generate_final_certificate-winner :
      (eth : EthLib) (tra : EcdsaAggregator Sig) (id : Bytes) (g : DigestGroup Bytes Bytes Sig)
      → winning_group tra.aggregated_operators ≡ some g
      → not_empty g.signers ≡ true
      → eth.hex_decode tra.task_id ≡ some id
      → generate_final_certificate eth tra ≡ ok (certificate_of eth id g)
  unfolding generate_final_certificate
  generate_final_certificate-winner eth tra id g won staffed decodes =
      rw (nothing_collected_winner tra.aggregated_operators g won, won, staffed, decodes)

  pub certificate-IsBacked :
      (hash : Bytes → Option Bytes) (eth : EthLib) (tra : EcdsaAggregator Sig) (id : Bytes)
      → IsConsistent hash tra
      → ecdsa_threshold_met tra ≡ true
      → eth.hex_decode tra.task_id ≡ some id
      → (cert : EcdsaCertificate) × (generate_final_certificate eth tra ≡ ok cert)
        × IsBacked hash eth tra cert
  unfolding ecdsa_threshold_met
  certificate-IsBacked hash eth tra id inv met decodes =
      let (g, won, _, enough) =
        signing_threshold_met-Reaches tra.operators tra.threshold_bips tra.aggregated_operators
          met in
      let at = get-winning_group tra.aggregated_operators g won in
      let genuine = inv.genuine _ g at in
      (
        certificate_of eth id g,
        generate_final_certificate-winner eth tra id g won genuine.2 decodes,
        record {
          group = g;
          winner = won;
          names_task = decodes;
          hashes = rw genuine.1 genuine.0;
          collects = refl;
          enough = rw (← inv.weighed _ g at) enough;
        },
      )

  -- Over an aggregator that satisfies the invariant, a threshold that is met stays met after any
  -- further result that is accepted.
  pub ecdsa_threshold_met-process :
      (hash : Bytes → Option Bytes) (b : Backend Sig) (tra : EcdsaAggregator Sig) (r : TaskResult)
      (tra' : EcdsaAggregator Sig)
      → IsConsistent hash tra
      → ecdsa_threshold_met tra ≡ true
      → process_new_signature b tra r ≡ ok tra'
      → ecdsa_threshold_met tra' ≡ true
  unfolding ecdsa_threshold_met store_response
  ecdsa_threshold_met-process hash b tra r tra' inv met h =
      let p = process-Processed b tra r tra' h in
      rw p.stored (
        signing_threshold_met-record_signer tra.operators tra.threshold_bips
          tra.aggregated_operators p.accepted.digest r.operator_address _ _ inv.led met)
