-- ===== src/Service/Held.antt =====
-- aggregator.go: the contexts of the AVSs, each of which is held by one AVS or cancelled.
pub mod Runs
use hourglass_monorepo.Prelude.{
  ℕ, suc, ◌≡◌, ◌≤◌, refl, sym, ap, ◌∙◌, Bool, true, false, not, Option, none, some, List, [], ◌∷◌,
  arith, ◌⊎◌, inl, inr, Result, ok, err, Option-cases, Bool-cases, Result-cases, nat_beq,
  nat_beq_iff, if◌then◌else◌, is_none,
}
use hourglass_monorepo.Text.{Bytes, bytes_beq, bytes_beq_iff}
use hourglass_monorepo.Dict.{
  Dict, get, put, remove, bytes_eq, nat_eq, get-put, get-remove, get-put_self,
}
use hourglass_monorepo.Storage.{AggregatorStore}
use hourglass_monorepo.Chain.{ContractCaller}
use hourglass_monorepo.Execution.{Manager, new_avs_execution_manager}
use hourglass_monorepo.Execution.Handling.{recover_pending_tasks}
use hourglass_monorepo.Service.{
  ServiceConfig, ServiceError, AggregatorAvs, AvsExecutionManagerInfo, ServiceState,
  register_with_context, register_avs, deregister_avs, get_valid_chains_for_avs, get_chain_pollers,
  execution_config,
}

abbrev pub Managers : Type 0
Managers = Dict Bytes AvsExecutionManagerInfo

abbrev pub Cancelled : Type 0
Cancelled = Dict ℕ (Unit {0})

-- Each registered AVS has a context of its own that is not cancelled, each context that is not
-- cancelled is that of a registered AVS, and only contexts that were made are cancelled.
pub record IsAccounted (managers : Dict Bytes AvsExecutionManagerInfo) (next : ℕ)
    (cancelled : Dict ℕ (Unit {0})) : Type 0 where
  pub made :
      (x : Bytes) (i : AvsExecutionManagerInfo)
      → get x managers ≡ some i
      → suc i.cancel_context ≤ next
  pub live :
      (x : Bytes) (i : AvsExecutionManagerInfo)
      → get x managers ≡ some i
      → get i.cancel_context cancelled ≡ none
  pub apart :
      (x y : Bytes) (i j : AvsExecutionManagerInfo)
      → get x managers ≡ some i
      → get y managers ≡ some j
      → i.cancel_context ≡ j.cancel_context
      → x ≡ y
  pub held :
      (c : ℕ)
      → suc c ≤ next
      → get c cancelled ≡ none
      → (x : Bytes) × (i : AvsExecutionManagerInfo) × (get x managers ≡ some i)
        × (i.cancel_context ≡ c)
  pub unmade : (c : ℕ) → next ≤ c → get c cancelled ≡ none

pub spoiled :
    (managers : Managers) (next : ℕ) (cancelled : Cancelled)
    → IsAccounted managers next cancelled
    → IsAccounted managers (suc next) (put next tt cancelled)
spoiled managers next cancelled h = record {
  made = λ x i e. let m = h.made x i e in omega arith;
  live = λ x i e. ground (
    arith,
    h.live x i e,
    h.made x i e,
    get-put next i.cancel_context tt cancelled,
    nat_beq_iff next i.cancel_context,
  );
  apart = h.apart;
  held = λ c b e.
      h.held c (ground (arith, b, e, get-put next c tt cancelled, nat_beq_iff next c))
        (ground (arith, e, get-put next c tt cancelled));
  unmade = λ c b.
      ground (arith, b, h.unmade c (omega arith), get-put next c tt cancelled, nat_beq_iff next c);
}

-- An AVS after one was put there: that one, or an old one.
added_cases :
    (managers : Managers) (avs x : Bytes) (info i : AvsExecutionManagerInfo)
    → get x (put avs info managers) ≡ some i
    → ((avs ≡ x) × (i.cancel_context ≡ info.cancel_context)) ⊎ (get x managers ≡ some i)
added_cases managers avs x info i e = elim (Bool-cases (bytes_beq avs x)) [
  | inl same ↦
      inl ((bytes_beq_iff avs x).0 same, ground (arith, e, same, get-put avs x info managers))
  | inr differs ↦ inr (ground (arith, e, differs, get-put avs x info managers))
]

pub added :
    (managers : Managers) (next : ℕ) (cancelled : Cancelled) (avs : Bytes)
    (info : AvsExecutionManagerInfo)
    → IsAccounted managers next cancelled
    → get avs managers ≡ none
    → info.cancel_context ≡ next
    → IsAccounted (put avs info managers) (suc next) cancelled
added managers next cancelled avs info h new own = record {
  made = λ x i e. elim (added_cases managers avs x info i e) [
    | inl (same, c) ↦ omega (arith, c, own)
    | inr old ↦ omega (arith, h.made x i old)
  ];
  live = λ x i e. elim (added_cases managers avs x info i e) [
    | inl (same, c) ↦ rw (c, own) (h.unmade next (omega arith))
    | inr old ↦ h.live x i old
  ];
  apart = λ x y i j e f c. elim (added_cases managers avs x info i e) [
    | inl (same, ci) ↦ elim (added_cases managers avs y info j f) [
      | inl (same', cj) ↦ sym same ∙ same'
      | inr old' ↦ absurd (omega (arith, ci, own, c, h.made y j old'))
    ]
    | inr old ↦ elim (added_cases managers avs y info j f) [
      | inl (same', cj) ↦ absurd (omega (arith, cj, own, c, h.made x i old))
      | inr old' ↦ h.apart x y i j old old' c
    ]
  ];
  held = λ c b e. elim (Bool-cases (nat_beq c next)) [
    | inl last ↦
        (avs, info, get-put_self avs info managers, own ∙ sym ((nat_beq_iff c next).0 last))
    | inr before ↦
        let l = h.held c (ground (arith, b, before)) e in
        (
          l.0,
          l.1,
          ground (arith, new, l.2, get-put avs l.0 info managers, bytes_beq_iff avs l.0),
          l.3,
        )
  ];
  unmade = λ c b. h.unmade c (omega arith);
}

removed_old :
    (managers : Managers) (avs x : Bytes) (i : AvsExecutionManagerInfo)
    → get x (remove avs managers) ≡ some i
    → (get x managers ≡ some i) × (bytes_beq avs x ≡ false)
removed_old managers avs x i e =
    (ground (arith, e, get-remove avs x managers), ground (arith, e, get-remove avs x managers))

pub removed :
    (managers : Managers) (next : ℕ) (cancelled : Cancelled) (avs : Bytes)
    (info : AvsExecutionManagerInfo)
    → IsAccounted managers next cancelled
    → get avs managers ≡ some info
    → IsAccounted (remove avs managers) next (put info.cancel_context tt cancelled)
removed managers next cancelled avs info h there = record {
  made = λ x i e. h.made x i (removed_old managers avs x i e).0;
  live = λ x i e.
      let (old, differs) = removed_old managers avs x i e in
      elim (Bool-cases (nat_beq info.cancel_context i.cancel_context)) [
        | inl same ↦
            let one =
              h.apart avs x info i there old
                ((nat_beq_iff info.cancel_context i.cancel_context).0 same) in
            absurd (ground (arith, differs, one, bytes_beq_iff avs x))
        | inr other ↦ ground (
          arith,
          other,
          h.live x i old,
          get-put info.cancel_context i.cancel_context tt cancelled,
        )
      ];
  apart = λ x y i j e f c.
      h.apart x y i j (removed_old managers avs x i e).0 (removed_old managers avs y j f).0 c;
  held = λ c b e.
      let put_at = get-put info.cancel_context c tt cancelled in
      let l = h.held c b (ground (arith, e, put_at)) in
      let other : nat_beq info.cancel_context c ≡ false = ground (arith, e, put_at) in
      elim (Bool-cases (bytes_beq avs l.0)) [
        | inl same ↦
            let one : some info ≡ some l.1 =
              sym there ∙ ap (λ x. get x managers) ((bytes_beq_iff avs l.0).0 same) ∙ l.2 in
            absurd (ground (arith, other, one, l.3, nat_beq_iff info.cancel_context c))
        | inr differs ↦ (l.0, l.1, ground (arith, differs, l.2, get-remove avs l.0 managers), l.3)
      ];
  unmade = λ c b. ground (
    arith,
    b,
    h.unmade c b,
    h.made avs info there,
    get-put info.cancel_context c tt cancelled,
    nat_beq_iff info.cancel_context c,
  );
}
