-- ===== src/Service/Held/Runs.antt =====
-- aggregator.go: whatever is registered and deregistered, the contexts stay accounted for.
use hourglass_monorepo.Prelude.{
  ℕ, suc, ◌≡◌, refl, Bool, true, false, Option, none, some, List, [], ◌∷◌, arith, inl, inr, ok,
  Option-cases, Bool-cases, Result-cases, if◌then◌else◌, nat_beq,
}
use hourglass_monorepo.Text.{Bytes}
use hourglass_monorepo.Dict.{Dict, get, bytes_eq, nat_eq}
use hourglass_monorepo.Storage.{AggregatorStore}
use hourglass_monorepo.Chain.{ContractCaller}
use hourglass_monorepo.Executor.{Signer}
use hourglass_monorepo.Execution.{new_avs_execution_manager}
use hourglass_monorepo.Execution.Handling.{recover_pending_tasks}
use hourglass_monorepo.Service.{
  ServiceConfig, ServiceError, panicked, AggregatorAvs, AvsExecutionManagerInfo, ServiceState,
  make_manager, register_with_context, register_avs, deregister_avs, get_valid_chains_for_avs,
  get_chain_pollers, execution_config, new_aggregator, start_avss, start_aggregator,
}
use hourglass_monorepo.Service.Held.{IsAccounted, spoiled, added, removed}

-- A call of the management
pub data Operation : Type 0 where
  registers : AggregatorAvs → Operation
  deregisters : Bytes → Operation

module _ {S : Type 0} (st : AggregatorStore S) (now : ℕ) (config : ServiceConfig)
    (callers : Dict ℕ ContractCaller) (start_pollers : Bytes → Dict ℕ ℕ → S → S × Bool) where
  abbrev pub HasContexts : ServiceState S → Type 0
  HasContexts a = IsAccounted a.avs_managers a.next_context a.cancelled

  made-HasContexts :
      (avs : Bytes) (chains : List ℕ) (a : ServiceState S) (store : S)
      → HasContexts a
      → get avs a.avs_managers ≡ none
      → HasContexts
          (make_manager st now config callers start_pollers avs chains a.next_context
            (record a { store = store; next_context = suc a.next_context })).0
  unfolding make_manager
  made-HasContexts avs chains a store h new =
      let c = execution_config config avs chains in
      elim (Result-cases (new_avs_execution_manager c callers store [])) [
        | inr (e, bad) ↦
            rw (bad, make_manager) (spoiled a.avs_managers a.next_context a.cancelled h)
        | inl (made, fine) ↦
            let m = recover_pending_tasks st now c 0 made in
            let info : AvsExecutionManagerInfo = record {
              avs_config = c;
              cancel_context = a.next_context;
              inflight_tasks = m.inflight_tasks;
              task_queue = m.task_queue;
            } in
            rw (fine, make_manager)
              (added a.avs_managers a.next_context a.cancelled avs info h new refl)
      ]

  registered-HasContexts :
      (avs : Bytes) (chains : List ℕ) (a : ServiceState S)
      → HasContexts a
      → get avs a.avs_managers ≡ none
      → HasContexts
          (register_with_context st now config callers start_pollers avs chains a.next_context
            (record a { next_context = suc a.next_context })).0
  unfolding register_with_context
  registered-HasContexts avs chains a h new =
      let p = start_pollers avs (get_chain_pollers config.chains chains []) a.store in
      elim (Bool-cases p.1) [
        | inr bad ↦
            rw (bad, register_with_context) (spoiled a.avs_managers a.next_context a.cancelled h)
        | inl polls ↦ rw (polls, register_with_context) (made-HasContexts avs chains a p.0 h new)
      ]

  either :
      (b : Bool) (p q : ServiceState S × Option ServiceError)
      → HasContexts p.0
      → HasContexts q.0
      → HasContexts (if b then p else q).0
  either true p q h k = h
  either false p q h k = k

  register_avs-HasContexts :
      (avs : AggregatorAvs) (a : ServiceState S)
      → HasContexts a
      → HasContexts (register_avs st now config callers start_pollers avs a).0
  unfolding register_avs
  register_avs-HasContexts avs a h = elim (Option-cases (get avs.address a.avs_managers)) [
    | inr (i, there) ↦ rw there h
    | inl new ↦ elim (Option-cases (get_valid_chains_for_avs config.chains avs.chain_ids)) [
      | inl bad ↦ rw (new, bad) h
      | inr (chains, valid) ↦
          rw (new, valid)
            (either a.is_started
              (register_with_context st now config callers start_pollers avs.address chains
                a.next_context (record a { next_context = suc a.next_context }))
              (a, some panicked) (registered-HasContexts avs.address chains a h new) h)
    ]
  ]

  deregister_avs-HasContexts :
      (avs : Bytes) (a : ServiceState S)
      → HasContexts a
      → HasContexts (deregister_avs st now config callers start_pollers avs a).0
  unfolding deregister_avs
  deregister_avs-HasContexts avs a h = elim (Option-cases (get avs a.avs_managers)) [
    | inl missing ↦ rw (missing, deregister_avs) h
    | inr (info, there) ↦
        rw (there, deregister_avs)
          (removed a.avs_managers a.next_context a.cancelled avs info h there)
  ]

  start_avss-HasContexts :
      (avss : List AggregatorAvs) (a : ServiceState S)
      → HasContexts a
      → HasContexts (start_avss st now config callers start_pollers avss a).0
  unfolding start_avss
  start_avss-HasContexts [] a h = h
  start_avss-HasContexts (avs ∷ avss) a h =
      let r = register_avs st now config callers start_pollers avs a in
      let kept = register_avs-HasContexts avs a h in
      elim (Option-cases r.1) [
        | inl fine ↦ rw (fine, start_avss) (start_avss-HasContexts avss r.0 kept)
        | inr (problem, bad) ↦ rw (bad, start_avss) kept
      ]

  abbrev operate : Operation → ServiceState S → ServiceState S
  operate (registers avs) a = (register_avs st now config callers start_pollers avs a).0
  operate (deregisters avs) a = (deregister_avs st now config callers start_pollers avs a).0

  -- The states after a list of calls, failed ones included.
  abbrev pub run_operations : List Operation → ServiceState S → ServiceState S
  run_operations [] a = a
  run_operations (o ∷ os) a = run_operations os (operate o a)

  run-HasContexts :
      (os : List Operation) (a : ServiceState S) → HasContexts a → HasContexts (run_operations os a)
  run-HasContexts [] a h = h
  run-HasContexts (registers avs ∷ os) a h =
      run-HasContexts os (operate (registers avs) a) (register_avs-HasContexts avs a h)
  run-HasContexts (deregisters avs ∷ os) a h =
      run-HasContexts os (operate (deregisters avs) a) (deregister_avs-HasContexts avs a h)

  new-HasContexts :
      (ecdsa_signer bls_signer : Option Signer) (s : S) (a : ServiceState S)
      → new_aggregator config ecdsa_signer bls_signer s ≡ ok a
      → HasContexts (record a { is_started = true })
  unfolding new_aggregator get
  new-HasContexts ecdsa_signer bls_signer s a h = elim (Bool-cases (nat_beq config.l1_chain_id 0)) [
    | inl bad ↦ absurd (ground (arith, bad, h))
    | inr good ↦
        let no_managers : a.avs_managers ≡ [] = ground (arith, good, h) in
        let no_contexts : a.next_context ≡ 0 = ground (arith, good, h) in
        let none_cancelled : a.cancelled ≡ [] = ground (arith, good, h) in
        rw (no_managers, no_contexts, none_cancelled)
          (record {
            made = λ x i e. absurd (ground (arith, e));
            live = λ x i e. absurd (ground (arith, e));
            apart = λ x y i j e f c. absurd (ground (arith, e));
            held = λ c b e. absurd (omega (arith, b));
            unmade = λ c b. refl;
          })
  ]

  -- After the start of a new aggregator and any registrations and deregistrations, failed ones
  -- included, each registered AVS has a context of its own that is not cancelled, and each context
  -- that was made is cancelled or that of a registered AVS.
  pub contexts_accounted :
      (ecdsa_signer bls_signer : Option Signer) (s : S) (a : ServiceState S) (os : List Operation)
      → new_aggregator config ecdsa_signer bls_signer s ≡ ok a
      → HasContexts (run_operations os (start_aggregator st now config callers start_pollers a).0)
  unfolding start_aggregator
  contexts_accounted ecdsa_signer bls_signer s a os h =
      run-HasContexts os
        (start_avss st now config callers start_pollers config.avss
          (record a { is_started = true })).0
        (start_avss-HasContexts config.avss (record a { is_started = true })
          (new-HasContexts ecdsa_signer bls_signer s a h))
