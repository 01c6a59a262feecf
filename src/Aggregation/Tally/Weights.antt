-- ===== src/Aggregation/Tally/Weights.antt =====
-- Each group's weight against the stakes of the signers that it holds.
use hourglass_monorepo.Prelude.{ℕ, ◌+◌, ◌≡◌, Option, none, some, arith, inl, inr, Option-cases}
use hourglass_monorepo.Text.{Bytes}
use hourglass_monorepo.Dict.{get, put, total, bytes_eq, get-put, get-put_self, total-put_fresh}
use hourglass_monorepo.Aggregation.{stake, Received, SignerInfo, DigestGroup, AggregatedOperators}
use hourglass_monorepo.Aggregation.Tally.{or_no_groups, group_or_new, record_signer}
use hourglass_monorepo.Aggregation.Tally.Leader.{joined, groups-record_signer}

abbrev pub signer_stake : {P S : Type 0} → SignerInfo P S → ℕ
signer_stake info = stake info.operator

module _ {P S Sig : Type 0} where
  -- A group weighs what its signers have at stake, each counted once per address.
  abbrev pub IsWeighed : DigestGroup P S Sig → Type 0
  IsWeighed g = g.current_weight ≡ total signer_stake g.signers

  abbrev pub AllWeighed : Option (AggregatedOperators P S Sig) → Type 0
  AllWeighed agg =
      (d : Bytes) (g : DigestGroup P S Sig)
      → get d (or_no_groups agg).digest_groups ≡ some g
      → IsWeighed g

  -- The address has signed nothing in the group of the digest.
  abbrev pub IsFresh : Option (AggregatedOperators P S Sig) → Bytes → Bytes → Type 0
  IsFresh agg digest address =
      (g : DigestGroup P S Sig)
      → get digest (or_no_groups agg).digest_groups ≡ some g
      → get address g.signers ≡ none

  module _ (agg : Option (AggregatedOperators P S Sig)) (digest address : Bytes) (rr : Received Sig)
      (info : SignerInfo P S) (weighed : AllWeighed agg) (fresh : IsFresh agg digest address) where
    joined-IsWeighed : IsWeighed (joined agg digest address rr info)
    joined-IsWeighed = elim (Option-cases (get digest (or_no_groups agg).digest_groups)) [
      | inl e ↦ rw (e, group_or_new) (unfold put in omega arith)
      | inr (g, e) ↦
          rw (e, group_or_new)
            (omega (
              arith,
              weighed digest g e,
              total-put_fresh signer_stake address info g.signers (fresh g e),
            ))
    ]

    -- If every group weighs the sum of its signers' stakes and the signer's address is new to the
    -- group of its digest, every group still does after the signer is recorded.
    pub record_signer-AllWeighed : AllWeighed (some (record_signer agg digest address rr info))
    record_signer-AllWeighed d g e = ground (
      arith,
      groups-record_signer agg digest address rr info,
      get-put digest d (joined agg digest address rr info) (or_no_groups agg).digest_groups,
      joined-IsWeighed,
      weighed d g,
    )

-- The weight of a digest's group, 0 where it has none.
abbrev pub weight_at : {P S Sig : Type 0} → Option (AggregatedOperators P S Sig) → Bytes → ℕ
weight_at agg d = elim (get d (or_no_groups agg).digest_groups) [
  | none ↦ 0
  | some g ↦ g.current_weight
]

-- A signer adds exactly its operator's stake to the group of the digest that it signs.
pub weight_at-record_signer :
    {P S Sig : Type 0} (agg : Option (AggregatedOperators P S Sig)) (digest address : Bytes)
    (rr : Received Sig) (info : SignerInfo P S)
    → weight_at (some (record_signer agg digest address rr info)) digest
      ≡ weight_at agg digest + stake info.operator
weight_at-record_signer agg digest address rr info =
    elim (Option-cases (get digest (or_no_groups agg).digest_groups)) [
      | inl e ↦ ground (
        arith,
        e,
        groups-record_signer agg digest address rr info,
        get-put_self digest (joined agg digest address rr info) (or_no_groups agg).digest_groups,
      )
      | inr (g, e) ↦ ground (
        arith,
        e,
        groups-record_signer agg digest address rr info,
        get-put_self digest (joined agg digest address rr info) (or_no_groups agg).digest_groups,
      )
    ]
