-- ===== src/Aggregation/Tally.antt =====
-- The bookkeeping that ecdsa.go and bn254.go of ponos/pkg/signing/aggregation write out twice:
-- groups of signers by output digest, their stake, and the digest that leads.
pub mod Leader
pub mod Threshold
pub mod Weights
use hourglass_monorepo.Prelude.{
  ℕ, ◌+◌, ◌*◌, ◌/◌, Bool, true, false, Option, none, some, List, [], ◌∷◌, sum_of, replicate,
  is_empty, ltb, leb, nat_beq, if◌then◌else◌,
}
use hourglass_monorepo.Text.{Bytes}
use hourglass_monorepo.Dict.{Dict, get, put, bytes_eq}
use hourglass_monorepo.Aggregation.{
  Operator, stake, Received, SignerInfo, DigestGroup, AggregatedOperators,
}

-- The zero value of `[32]byte`.
abbrev pub zero_digest : Bytes
zero_digest = replicate 32 0

-- The sum of the first weights of a task's operators.
abbrev pub total_stake : List Operator → ℕ
total_stake operators = sum_of stake operators

-- `totalStake * ThresholdBips / 10000`, rounded down.
abbrev pub threshold_stake : List Operator → ℕ → ℕ
threshold_stake operators bips = total_stake operators * bips / 10000

module _ {P S Sig : Type 0} where
  -- The freshly made `aggregatedOperators`.
  abbrev pub no_groups : AggregatedOperators P S Sig
  no_groups = record { digest_groups = []; winning_digest = zero_digest; winning_weight = none }

  abbrev pub or_no_groups : Option (AggregatedOperators P S Sig) → AggregatedOperators P S Sig
  or_no_groups none = no_groups
  or_no_groups (some a) = a

  -- The group of a digest, made empty where there is none.
  abbrev pub group_or_new : Option (DigestGroup P S Sig) → Received Sig → DigestGroup P S Sig
  group_or_new none rr = record { signers = []; response = rr; current_weight = 0 }
  group_or_new (some g) rr = g

  -- A signer enters a group, and the group's weight grows by the operator's stake.
  abbrev pub add_signer : DigestGroup P S Sig → Bytes → SignerInfo P S → DigestGroup P S Sig
  add_signer g address info = record g {
    signers = put address info g.signers;
    current_weight = g.current_weight + stake info.operator;
  }

  -- `updateWinningResponse`: the first group leads; another takes over with strictly more weight.
  unfoldable pub update_winning_response :
      AggregatedOperators P S Sig → DigestGroup P S Sig → Bytes → AggregatedOperators P S Sig
  update_winning_response a group digest = elim a.winning_weight [
    | none ↦ record a { winning_weight = some group.current_weight; winning_digest = digest }
    | some w ↦
        if ltb w group.current_weight
        then record a { winning_weight = some group.current_weight; winning_digest = digest }
        else a
  ]

  -- The end of `ProcessNewSignature`, from the making of `aggregatedOperators` on.
  unfoldable pub record_signer :
      Option (AggregatedOperators P S Sig)
      → Bytes
      → Bytes
      → Received Sig
      → SignerInfo P S
      → AggregatedOperators P S Sig
  unfolding update_winning_response
  record_signer aggregated digest address rr info =
      let a = or_no_groups aggregated in
      let g = add_signer (group_or_new (get digest a.digest_groups) rr) address info in
      update_winning_response (record a { digest_groups = put digest g a.digest_groups }) g digest

  -- `aggregatedOperators == nil || len(digestGroups) == 0`
  abbrev pub nothing_collected : Option (AggregatedOperators P S Sig) → Bool
  nothing_collected none = true
  nothing_collected (some a) = is_empty a.digest_groups

  -- `winningGroup` at the head of `SigningThresholdMet` and `GenerateFinalCertificate`.
  unfoldable pub winning_group : Option (AggregatedOperators P S Sig) → Option (DigestGroup P S Sig)
  winning_group none = none
  winning_group (some a) = get a.winning_digest a.digest_groups

  -- `SigningThresholdMet`. A group's weight is never nil: it is set where the group is made.
  unfoldable pub signing_threshold_met :
      List Operator → ℕ → Option (AggregatedOperators P S Sig) → Bool
  unfolding winning_group
  signing_threshold_met operators bips aggregated = elim (winning_group aggregated) [
    | none ↦ false
    | some g ↦
        if nat_beq (total_stake operators) 0
        then false
        else leb (threshold_stake operators bips) g.current_weight
  ]
