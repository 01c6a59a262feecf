-- ===== src/Aggregation/Bn254/Certificate/Order.antt =====
-- The operators of a BN254 certificate: who is listed, and in which order.
use hourglass_monorepo.Prelude.{
  ℕ, ◌≤◌, ◌≡◌, refl, true, false, none, some, is_none, Option-cases, List, [], ◌∷◌, ◌++◌, arith,
  leb, map, not_empty, All, inl, inr, Bool-cases, ok,
}
use mathlib.Core.List.{Permᴰ}
use mathlib.Core.List.Permᴰ as PermD
use hourglass_monorepo.Text.{Bytes}
use hourglass_monorepo.Dict.{Dict, get, bytes_eq}
use hourglass_monorepo.Util.{filter}
use hourglass_monorepo.Aggregation.{Operator, SignerInfo, DigestGroup}
use hourglass_monorepo.Aggregation.Tally.{winning_group}
use hourglass_monorepo.Aggregation.Tally.Threshold.{nothing_collected_winner}
use hourglass_monorepo.Aggregation.Bn254.{Bn254Backend, Bn254Aggregator}
use hourglass_monorepo.Aggregation.Bn254.Certificate.{
  Bn254Certificate, insert_by_index, sort_by_index, non_signers, certify_group, add_signatures,
  bn254_certificate_of, generate_bn254_certificate,
}

-- The indices never go down.
abbrev pub IsSorted : List Operator → Type 0
IsSorted [] = Unit
IsSorted (o ∷ os) = All (λ p. o.operator_index ≤ p.operator_index) os × IsSorted os

All-insert_by_index :
    (P : Operator → Type 0) (o : Operator) (ps : List Operator)
    → P o
    → All P ps
    → All P (insert_by_index o ps)
unfolding insert_by_index
All-insert_by_index P o [] h hs = (h, tt)
All-insert_by_index P o (p ∷ ps) h hs = elim (Bool-cases (leb o.operator_index p.operator_index)) [
  | inl e ↦ rw e (h, hs)
  | inr e ↦ rw e (hs.0, All-insert_by_index P o ps h hs.1)
]

All-weaken :
    (n m : ℕ) (ps : List Operator)
    → n ≤ m
    → All (λ p. m ≤ p.operator_index) ps
    → All (λ p. n ≤ p.operator_index) ps
All-weaken n m [] h hs = tt
All-weaken n m (p ∷ ps) h hs = (omega (arith, hs.0, h), All-weaken n m ps h hs.1)

insert_by_index-IsSorted :
    (o : Operator) (ps : List Operator) → IsSorted ps → IsSorted (insert_by_index o ps)
unfolding insert_by_index
insert_by_index-IsSorted o [] h = (tt, tt)
insert_by_index-IsSorted o (p ∷ ps) h = elim (Bool-cases (leb o.operator_index p.operator_index)) [
  | inl e ↦
      let small : o.operator_index ≤ p.operator_index = ground (arith, e) in
      rw e ((small, All-weaken o.operator_index p.operator_index ps small h.0), h)
  | inr e ↦ rw e (
    All-insert_by_index (λ q. p.operator_index ≤ q.operator_index) o ps (ground (arith, e)) h.0,
    insert_by_index-IsSorted o ps h.1,
  )
]

sort_by_index-IsSorted : (os : List Operator) → IsSorted (sort_by_index os)
unfolding sort_by_index
sort_by_index-IsSorted [] = tt
sort_by_index-IsSorted (o ∷ os) =
    insert_by_index-IsSorted o (sort_by_index os) (sort_by_index-IsSorted os)

insert_by_index-Perm : (o : Operator) (ps : List Operator) → Permᴰ (insert_by_index o ps) (o ∷ ps)
unfolding insert_by_index
insert_by_index-Perm o [] = PermD.refl (o ∷ [])
insert_by_index-Perm o (p ∷ ps) = elim (Bool-cases (leb o.operator_index p.operator_index)) [
  | inl e ↦ rw e (PermD.refl (o ∷ p ∷ ps))
  | inr e ↦ rw e (Permᴰ.trans (Permᴰ.cons refl (insert_by_index-Perm o ps)) (Permᴰ.swap refl refl))
]

sort_by_index-Perm : (os : List Operator) → Permᴰ (sort_by_index os) os
unfolding sort_by_index
sort_by_index-Perm [] = Permᴰ.nil
sort_by_index-Perm (o ∷ os) =
    Permᴰ.trans (insert_by_index-Perm o (sort_by_index os))
      (Permᴰ.cons refl (sort_by_index-Perm os))

All-sort_by_index :
    (P : Operator → Type 0) (os : List Operator) → All P os → All P (sort_by_index os)
unfolding sort_by_index
All-sort_by_index P [] h = tt
All-sort_by_index P (o ∷ os) h =
    All-insert_by_index P o (sort_by_index os) h.0 (All-sort_by_index P os h.1)

-- One list is the other one sorted by index.
abbrev pub SortOf : List Operator → List Operator → Type 0
SortOf sorted os = IsSorted sorted × Permᴰ sorted os

sort_by_index-SortOf : (os : List Operator) → SortOf (sort_by_index os) os
sort_by_index-SortOf os = (sort_by_index-IsSorted os, sort_by_index-Perm os)

module _ {Pk Sig : Type 0} where
  -- The operators are the listed ones and others that signed.
  record Split (signers : Dict Bytes (SignerInfo Pk Sig)) (listed os : List Operator) : Type 0 where
    present : List Operator
    split : Permᴰ (listed ++ present) os
    absent : All (λ o. get o.address signers ≡ none) listed
    signed : All (λ o. is_none (get o.address signers) ≡ false) present

  non_signers-Split :
      (signers : Dict Bytes (SignerInfo Pk Sig)) (os : List Operator)
      → Split signers (non_signers os signers) os
  unfolding non_signers filter
  non_signers-Split signers [] = record {
    present = [];
    split = Permᴰ.nil;
    absent = tt;
    signed = tt;
  }
  non_signers-Split signers (o ∷ os) =
      let rest = non_signers-Split signers os in
      elim (Option-cases (get o.address signers)) [
        | inl out ↦ rw out (record {
          present = rest.present;
          split = Permᴰ.cons refl rest.split;
          absent = (out, rest.absent);
          signed = rest.signed;
        })
        | inr (info, there) ↦ rw there (record {
          present = o ∷ rest.present;
          split =
              Permᴰ.trans (PermD.middle o (non_signers os signers) rest.present)
                (Permᴰ.cons refl rest.split);
          absent = rest.absent;
          signed = (ground (arith, there), rest.signed);
        })
      ]

  sorted-Split :
      (signers : Dict Bytes (SignerInfo Pk Sig)) (os : List Operator)
      → Split signers (sort_by_index (non_signers os signers)) os
  sorted-Split signers os =
      let s = non_signers-Split signers os in
      let absent = non_signers os signers in
      record {
        present = s.present;
        split = Permᴰ.trans (PermD.append_right s.present (sort_by_index-Perm absent)) s.split;
        absent = All-sort_by_index (λ o. get o.address signers ≡ none) absent s.absent;
        signed = s.signed;
      }

module _ {Pk Sig Point : Type 0} where
  -- A certificate of the winning group that lists all operators, and those whose own address is no
  -- key of the group's signers, each sorted by index and with their keys in the same order.
  pub record IsListed (tra : Bn254Aggregator Pk Sig) (cert : Bn254Certificate Sig Point)
      : Type 0 where
    pub group : DigestGroup Pk Sig Sig
    pub winner : winning_group tra.aggregated_operators ≡ some group
    pub digest : cert.task_response_digest ≡ group.response.output_digest
    pub everyone : SortOf cert.sorted_operators_by_index tra.operators
    pub present : List Operator
    pub split : Permᴰ (cert.non_signer_operators ++ present) tra.operators
    pub absent_sorted : IsSorted cert.non_signer_operators
    pub absent : All (λ o. get o.address group.signers ≡ none) cert.non_signer_operators
    pub signed : All (λ o. is_none (get o.address group.signers) ≡ false) present
    pub all_keys :
        cert.all_operators_pub_keys ≡ map (λ o. o.public_key) cert.sorted_operators_by_index
    pub absent_keys : cert.non_signers_pub_keys ≡ map (λ o. o.public_key) cert.non_signer_operators

  certificate_of-IsListed :
      (b : Bn254Backend Pk Sig Point) (tra : Bn254Aggregator Pk Sig) (g : DigestGroup Pk Sig Sig)
      (s : Sig) (id : Bytes)
      → winning_group tra.aggregated_operators ≡ some g
      → IsListed tra (bn254_certificate_of b tra g s id)
  certificate_of-IsListed b tra g s id won =
      let s' = sorted-Split g.signers tra.operators in
      record {
        group = g;
        winner = won;
        digest = refl;
        everyone = sort_by_index-SortOf tra.operators;
        present = s'.present;
        split = s'.split;
        absent_sorted = sort_by_index-IsSorted (non_signers tra.operators g.signers);
        absent = s'.absent;
        signed = s'.signed;
        all_keys = refl;
        absent_keys = refl;
      }

  -- Where the winning group has a signer and the task id decodes, `GenerateFinalCertificate` returns
  -- a certificate, which lists all operators, and exactly those whose own address is no key of the
  -- winning group's signers, each sorted by index, with their keys in that order.
  pub generate_bn254_certificate-IsListed :
      (b : Bn254Backend Pk Sig Point) (tra : Bn254Aggregator Pk Sig) (g : DigestGroup Pk Sig Sig)
      (id : Bytes)
      → winning_group tra.aggregated_operators ≡ some g
      → not_empty g.signers ≡ true
      → b.eth.hex_decode tra.task_id ≡ some id
      → (cert : Bn254Certificate Sig Point) × ((generate_bn254_certificate b tra).1 ≡ ok cert)
        × IsListed tra cert
  unfolding generate_bn254_certificate
  generate_bn254_certificate-IsListed b tra g id won staffed decodes =
      let (s, e) = certified g.signers staffed in
      (
        bn254_certificate_of b tra g s id,
        rw
            (
              nothing_collected_winner tra.aggregated_operators g won,
              won,
              generate_bn254_certificate,
            )
            e,
        certificate_of-IsListed b tra g s id won,
      )
    where
      certified :
          (signers : Dict Bytes (SignerInfo Pk Sig))
          → not_empty signers ≡ true
          → (s : Sig) × ((certify_group b tra g signers).1 ≡ ok (bn254_certificate_of b tra g s id))
      certified [] h = absurd (ground arith)
      certified ((a, first) ∷ rest) h =
          (add_signatures b first.signature rest, rw (decodes, certify_group) refl)
