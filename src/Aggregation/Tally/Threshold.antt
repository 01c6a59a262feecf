-- ===== src/Aggregation/Tally/Threshold.antt =====
-- `SigningThresholdMet` of both aggregators, seen from the winning group.
use hourglass_monorepo.Prelude.{
  ℕ, ◌+◌, ◌*◌, ◌<◌, ◌≡◌, ◌↔◌, true, false, Option, none, some, List, arith, inl, inr, Option-cases,
}
use hourglass_monorepo.Text.{Bytes}
use hourglass_monorepo.Dict.{get, bytes_eq}
use hourglass_monorepo.Aggregation.{
  Operator, Received, SignerInfo, DigestGroup, AggregatedOperators,
}
use hourglass_monorepo.Aggregation.Tally.{
  total_stake, or_no_groups, winning_group, nothing_collected, record_signer, signing_threshold_met,
}
use hourglass_monorepo.Aggregation.Tally.Leader.{
  IsLedOrNew, record_signer-IsLed, weight-record_signer,
}

-- The winning group is the group of the winning digest.
pub get-winning_group :
    {P S Sig : Type 0} (agg : Option (AggregatedOperators P S Sig)) (g : DigestGroup P S Sig)
    → winning_group agg ≡ some g
    → get (or_no_groups agg).winning_digest (or_no_groups agg).digest_groups ≡ some g
unfolding winning_group
get-winning_group none g e = absurd (ground arith)
get-winning_group (some a) g e = e

-- Where there is a winning group, something was collected.
pub nothing_collected_winner :
    {P S Sig : Type 0} (agg : Option (AggregatedOperators P S Sig)) (g : DigestGroup P S Sig)
    → winning_group agg ≡ some g
    → nothing_collected agg ≡ false
unfolding winning_group get
nothing_collected_winner none g e = absurd (ground arith)
nothing_collected_winner (some a) g e = ground arith

module _ {P S Sig : Type 0} (operators : List Operator) (bips : ℕ) where
  -- The winning group's weight, plus one, covers the threshold: the division rounds down.
  abbrev pub Reaches : Option (AggregatedOperators P S Sig) → Type 0
  Reaches agg =
      (g : DigestGroup P S Sig) × (winning_group agg ≡ some g)
      × (0 < total_stake operators)
      × (total_stake operators * bips < 10000 * (g.current_weight + 1))

  pub signing_threshold_met-Reaches :
      (agg : Option (AggregatedOperators P S Sig))
      → signing_threshold_met operators bips agg ≡ true
      → Reaches agg
  unfolding signing_threshold_met
  signing_threshold_met-Reaches agg h = elim (Option-cases (winning_group agg)) [
    | inl e ↦ absurd (ground (arith, e))
    | inr (g, e) ↦ (g, e, ground (arith, e), ground (arith, e))
  ]

  pub Reaches-signing_threshold_met :
      (agg : Option (AggregatedOperators P S Sig))
      → Reaches agg
      → signing_threshold_met operators bips agg ≡ true
  unfolding signing_threshold_met
  Reaches-signing_threshold_met agg (g, e, some_stake, enough) =
      rw (e, signing_threshold_met) (ground arith)

  -- The threshold test passes exactly where there is a winning group, the operators have some stake
  -- in all, and the group's weight plus one exceeds their `bips / 10000` share of it.
  pub signing_threshold_met_iff :
      (agg : Option (AggregatedOperators P S Sig))
      → (signing_threshold_met operators bips agg ≡ true) ↔ Reaches agg
  signing_threshold_met_iff agg =
      (signing_threshold_met-Reaches agg, Reaches-signing_threshold_met agg)

  -- One more signer never undoes a threshold that was met.
  pub signing_threshold_met-record_signer :
      (agg : Option (AggregatedOperators P S Sig)) (digest address : Bytes) (rr : Received Sig)
      (info : SignerInfo P S)
      → IsLedOrNew agg
      → signing_threshold_met operators bips agg ≡ true
      → signing_threshold_met operators bips (some (record_signer agg digest address rr info))
        ≡ true
  unfolding winning_group
  signing_threshold_met-record_signer none digest address rr info led met =
      absurd (ground (arith, signing_threshold_met-Reaches none met))
  signing_threshold_met-record_signer (some a) digest address rr info led met =
      let next = record_signer-IsLed (some a) digest address rr info led in
      let (g, e, some_stake, enough) = signing_threshold_met-Reaches (some a) met in
      Reaches-signing_threshold_met (some (record_signer (some a) digest address rr info)) (
        next.group,
        next.leads,
        some_stake,
        omega (
          arith,
          next.exact,
          weight-record_signer (some a) digest address rr info a.winning_digest g e next,
        ),
      )
