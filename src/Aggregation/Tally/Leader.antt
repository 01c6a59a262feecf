-- ===== src/Aggregation/Tally/Leader.antt =====
-- The leading digest of an aggregation: how the records of `aggregatedOperators` relate.
use hourglass_monorepo.Prelude.{
  ℕ, ◌≤◌, ◌≡◌, refl, Option, none, some, arith, ltb, inl, inr, Bool-cases, Option-cases,
}
use hourglass_monorepo.Text.{Bytes}
use hourglass_monorepo.Text.{bytes_beq_iff}
use hourglass_monorepo.Dict.{Dict, get, put, bytes_eq, ◌==◌, get-put, get-put_self}
use hourglass_monorepo.Aggregation.{Received, SignerInfo, DigestGroup, AggregatedOperators}
use hourglass_monorepo.Aggregation.Tally.{
  or_no_groups, group_or_new, add_signer, update_winning_response, record_signer,
}

module _ {P S Sig : Type 0} where
  -- The winning digest has a group, which weighs the winning weight, and no group weighs more.
  pub record IsLed (a : AggregatedOperators P S Sig) : Type 0 where
    pub weight : ℕ
    pub group : DigestGroup P S Sig
    pub weighs : a.winning_weight ≡ some weight
    pub leads : get a.winning_digest a.digest_groups ≡ some group
    pub exact : group.current_weight ≡ weight
    pub greatest :
        (d : Bytes) (g : DigestGroup P S Sig)
        → get d a.digest_groups ≡ some g
        → g.current_weight ≤ weight

  abbrev pub IsLedOrNew : Option (AggregatedOperators P S Sig) → Type 0
  IsLedOrNew none = Unit
  IsLedOrNew (some a) = IsLed a

  module _ (agg : Option (AggregatedOperators P S Sig)) (digest address : Bytes) (rr : Received Sig)
      (info : SignerInfo P S) where
    -- The group that the signer joins, as it stands afterwards.
    abbrev pub joined : DigestGroup P S Sig
    joined = add_signer (group_or_new (get digest (or_no_groups agg).digest_groups) rr) address info

    pub groups-record_signer :
        (record_signer agg digest address rr info).digest_groups
        ≡ put digest joined (or_no_groups agg).digest_groups
    unfolding record_signer
    groups-record_signer = elim (Option-cases (or_no_groups agg).winning_weight) [
      | inl e ↦ rw (e, update_winning_response)
      | inr (w, e) ↦ rw (e, update_winning_response) (ground arith)
    ]

  module _ (a : AggregatedOperators P S Sig) (d : Bytes) (g : DigestGroup P S Sig) where
    -- The state that `updateWinningResponse` is called on.
    abbrev stored : AggregatedOperators P S Sig
    stored = record a { digest_groups = put d g a.digest_groups }

    get-stored_greatest :
        (w : ℕ)
        → ((e : Bytes) (h : DigestGroup P S Sig)
            → get e a.digest_groups ≡ some h
            → h.current_weight ≤ w)
        → g.current_weight ≤ w
        → (e : Bytes) (h : DigestGroup P S Sig) → get e (put d g a.digest_groups) ≡ some h
        → h.current_weight ≤ w
    get-stored_greatest w old new e h q =
        ground (arith, get-put d e g a.digest_groups, bytes_beq_iff d e, old e h)

    takes_over-IsLed :
        (w : ℕ)
        → ((e : Bytes) (h : DigestGroup P S Sig)
            → get e a.digest_groups ≡ some h
            → h.current_weight ≤ w)
        → w ≤ g.current_weight
        → IsLed (record stored { winning_weight = some g.current_weight; winning_digest = d })
    takes_over-IsLed w old more = record {
      weight = g.current_weight;
      group = g;
      weighs = refl;
      leads = get-put_self d g a.digest_groups;
      exact = refl;
      greatest = get-stored_greatest g.current_weight (λ e h q. le_of (old e h q)) (omega arith);
    }
      where
        le_of : {n : ℕ} → n ≤ w → n ≤ g.current_weight
        le_of h = omega arith

    -- A group that only grew leaves the leader in place unless it overtakes it.
    update_winning_response-IsLed :
        IsLed a
        → ((h : DigestGroup P S Sig)
            → get d a.digest_groups ≡ some h
            → h.current_weight ≤ g.current_weight)
        → IsLed (update_winning_response stored g d)
    unfolding update_winning_response
    update_winning_response-IsLed led grew = elim (Bool-cases (ltb led.weight g.current_weight)) [
      | inl over ↦
          rw (led.weighs, update_winning_response, over)
            (takes_over-IsLed led.weight led.greatest (ground arith))
      | inr under ↦
          rw (led.weighs, update_winning_response, under)
            (elim (Bool-cases (d == a.winning_digest)) [
              | inl same ↦ record {
                weight = led.weight;
                group = g;
                weighs = led.weighs;
                leads = ground (arith, get-put d a.winning_digest g a.digest_groups);
                exact =
                    ground (
                      arith,
                      grew led.group,
                      led.leads,
                      led.exact,
                      bytes_beq_iff d a.winning_digest,
                    );
                greatest = get-stored_greatest led.weight led.greatest (ground arith);
              }
              | inr other ↦ record {
                weight = led.weight;
                group = led.group;
                weighs = led.weighs;
                leads = ground (arith, get-put d a.winning_digest g a.digest_groups, led.leads);
                exact = led.exact;
                greatest = get-stored_greatest led.weight led.greatest (ground arith);
              }
            ])
    ]

  -- If the winning digest has a group of the winning weight and no group weighs more, or no group
  -- exists yet, this holds after one more signer, whoever signs whatever.
  pub record_signer-IsLed :
      (agg : Option (AggregatedOperators P S Sig)) (digest address : Bytes) (rr : Received Sig)
      (info : SignerInfo P S)
      → IsLedOrNew agg
      → IsLed (record_signer agg digest address rr info)
  unfolding record_signer
  record_signer-IsLed none digest address rr info led =
      unfold update_winning_response get put in
      takes_over-IsLed (or_no_groups none) digest (joined none digest address rr info) 0
        (λ e h q. ground arith) (omega arith)
  record_signer-IsLed (some a) digest address rr info led =
      update_winning_response-IsLed a digest (joined (some a) digest address rr info) led
        (λ h q. ground (arith, q))

  -- What a group weighed before a signer came is at most what the leader weighs afterwards.
  pub weight-record_signer :
      (agg : Option (AggregatedOperators P S Sig)) (digest address : Bytes) (rr : Received Sig)
      (info : SignerInfo P S) (d : Bytes) (g : DigestGroup P S Sig)
      → get d (or_no_groups agg).digest_groups ≡ some g
      → (next : IsLed (record_signer agg digest address rr info)) → g.current_weight ≤ next.weight
  weight-record_signer agg digest address rr info d g e next = elim (Bool-cases (digest == d)) [
    | inl same ↦ ground (
      arith,
      next.greatest d j,
      groups-record_signer agg digest address rr info,
      get-put digest d j m,
      bytes_beq_iff digest d,
      e,
    )
    | inr other ↦ ground (
      arith,
      next.greatest d g,
      groups-record_signer agg digest address rr info,
      get-put digest d j m,
      e,
    )
  ]
    where
      m : Dict Bytes (DigestGroup P S Sig)
      m = (or_no_groups agg).digest_groups

      j : DigestGroup P S Sig
      j = joined agg digest address rr info
