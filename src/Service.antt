-- ===== src/Service.antt =====
-- ponos/pkg/aggregator/aggregator.go and handlers.go: the registration of AVSs with an aggregator,
-- and its management. A registration is one step; cancellable contexts are numbers, and what
-- the start of the pollers makes of the store is a parameter, as Poller models it.
pub mod Held
use hourglass_monorepo.Prelude.{
  ℕ, suc, ◌+◌, Bool, true, false, not, Option, none, some, List, [], ◌∷◌, ltb, nat_beq, length,
  if◌then◌else◌, is_none, Result, ok, err,
}
use hourglass_monorepo.Text.{Bytes, codes, bytes_beq}
use hourglass_monorepo.Dict.{Dict, get, put, remove, bytes_eq, nat_eq}
use hourglass_monorepo.Util.{filter}
use hourglass_monorepo.Storage.{AggregatorStore}
use hourglass_monorepo.Chain.{ContractCaller}
use hourglass_monorepo.Execution.{
  ExecutionConfig, ExecutionError, QueuedTask, Manager, new_avs_execution_manager,
}
use hourglass_monorepo.Execution.Handling.{recover_pending_tasks}
use hourglass_monorepo.Auth.{
  ChallengeTokenManager, ChallengeTokenEntry, AuthError, AuthSignature, new_challenge_token_manager,
  generate_challenge_token, verify_authentication,
}
use hourglass_monorepo.Executor.{Signer}
use hourglass_monorepo.Executor.Deployments.{signature_of}

-- `Chain`; an interval of 0 stands for every one that is not positive.
pub record ServiceChain : Type 0 where
  pub chain_id : ℕ
  pub poll_interval_seconds : ℕ

pub record AggregatorAvs : Type 0 where
  pub address : Bytes
  pub chain_ids : List ℕ

-- A contract of the store
pub record NamedContract : Type 0 where
  pub name : Bytes
  pub chain_id : ℕ
  pub contract_address : Bytes

-- `AggregatorConfig`, with the contracts of the store and `IsEnabled` of the authentication.
pub record ServiceConfig : Type 0 where
  pub aggregator_address : Bytes
  pub avss : List AggregatorAvs
  pub chains : List ServiceChain
  pub l1_chain_id : ℕ
  pub authentication : Option Bool
  pub contracts : List NamedContract

-- `AvsExecutionManagerInfo`; the manager's store is the aggregator's.
pub record AvsExecutionManagerInfo : Type 0 where
  pub avs_config : ExecutionConfig
  pub cancel_context : ℕ
  pub inflight_tasks : Dict Bytes (Unit {0})
  pub task_queue : List QueuedTask

pub data ServiceError : Type 0 where
  already_registered not_registered invalid_chains pollers_failed auth_disabled l1_chain_unset :
      ServiceError
  auth_failed : AuthError → ServiceError
  manager_refused : ExecutionError → ServiceError
  -- `context.WithCancel` of a nil context
  panicked : ServiceError

-- `Aggregator`: what changes. `is_started` says whether `rootCtx` is set, and `cancelled` has the
-- contexts that were made and cancelled.
pub record ServiceState (S : Type 0) : Type 0 where
  pub store : S
  pub avs_managers : Dict Bytes AvsExecutionManagerInfo
  pub is_started : Bool
  pub next_context : ℕ
  pub cancelled : Dict ℕ (Unit {0})
  pub auth_verifier : Option ChallengeTokenManager

abbrev pub token_expiry_seconds : ℕ
token_expiry_seconds = 300

-- `getAuthVerifier`, with the signers of ECDSA and BLS: the verifier is a token manager and a signer.
unfoldable pub get_auth_verifier :
    ServiceConfig → Option Signer → Option Signer → Option (ChallengeTokenManager × Signer)
get_auth_verifier config ecdsa_signer bls_signer = elim config.authentication [
  | none ↦ none
  | some enabled ↦
      let made = new_challenge_token_manager config.aggregator_address token_expiry_seconds in
      if enabled
      then elim ecdsa_signer [
        | some signer ↦ some (made, signer)
        | none ↦ elim bls_signer [ some signer ↦ some (made, signer) | none ↦ none ]
      ]
      else none
]

-- `NewAggregator`, with a store
unfoldable pub new_aggregator :
    {S : Type 0}
    → ServiceConfig
    → Option Signer
    → Option Signer
    → S
    → Result ServiceError (ServiceState S)
new_aggregator config ecdsa_signer bls_signer store =
    if nat_beq config.l1_chain_id 0
    then err l1_chain_unset
    else ok (record {
      store = store;
      avs_managers = [];
      is_started = false;
      next_context = 0;
      cancelled = [];
      auth_verifier = elim (get_auth_verifier config ecdsa_signer bls_signer) [
        | none ↦ none
        | some (ctm, signer) ↦ some ctm
      ];
    })

-- `getMailboxAddressesForChains`
unfoldable pub get_mailbox_addresses_for_chains : List NamedContract → Dict ℕ Bytes → Dict ℕ Bytes
get_mailbox_addresses_for_chains [] acc = acc
get_mailbox_addresses_for_chains (c ∷ cs) acc =
    get_mailbox_addresses_for_chains cs (
      if bytes_beq c.name (codes "TaskMailbox") then put c.chain_id c.contract_address acc else acc)

-- `getChainConfig`
unfoldable pub get_chain_config : List ServiceChain → ℕ → Option ServiceChain
get_chain_config [] id = none
get_chain_config (chain ∷ chains) id =
    if nat_beq chain.chain_id id then some chain else get_chain_config chains id

-- `getValidChainsForAvs`; the map of the valid chains has the ids of the configured ones.
unfoldable pub get_valid_chains_for_avs : List ServiceChain → List ℕ → Option (List ℕ)
get_valid_chains_for_avs chains chain_ids =
    let valid = filter chain_ids (λ id. not (is_none (get_chain_config chains id))) in
    if nat_beq (length valid) (length chain_ids) then some valid else none

-- `getChainPollers`: the polling interval of each chain's poller.
unfoldable pub get_chain_pollers : List ServiceChain → List ℕ → Dict ℕ ℕ → Dict ℕ ℕ
get_chain_pollers chains [] pollers = pollers
get_chain_pollers chains (id ∷ ids) pollers =
    get_chain_pollers chains ids (elim (get_chain_config chains id) [
      | none ↦ pollers
      | some chain ↦
          put id (if ltb 0 chain.poll_interval_seconds then chain.poll_interval_seconds else 10)
            pollers
    ])

-- What `registerAvs` hands to `NewAvsExecutionManager`.
abbrev pub execution_config : ServiceConfig → Bytes → List ℕ → ExecutionConfig
execution_config config avs_address supported_chains = record {
  avs_address = avs_address;
  supported_chain_ids = supported_chains;
  mailbox_contract_addresses = get_mailbox_addresses_for_chains config.contracts [];
  l1_chain_id = config.l1_chain_id;
}

module _ {S : Type 0} (st : AggregatorStore S) (now : ℕ) (config : ServiceConfig)
    (callers : Dict ℕ ContractCaller) (start_pollers : Bytes → Dict ℕ ℕ → S → S × Bool) where
  abbrev pub cancel : ℕ → ServiceState S → ServiceState S
  cancel context a = record a { cancelled = put context tt a.cancelled }

  -- `registerAvs` from the execution manager on, with the context, which is cancelled by an error. The
  -- queue is an unbuffered channel, and `Start` recovers tasks before it receives from it.
  unfoldable pub make_manager :
      Bytes → List ℕ → ℕ → ServiceState S → ServiceState S × Option ServiceError
  make_manager avs_address supported_chains context a =
      elim (new_avs_execution_manager (execution_config config avs_address supported_chains) callers
        a.store []) [
          | err problem ↦ (cancel context a, some (manager_refused problem))
          | ok made ↦
              let m =
                recover_pending_tasks st now (execution_config config avs_address supported_chains)
                  0 made in
              (
                record a {
                  store = m.store;
                  avs_managers =
                      put avs_address
                        (record {
                          avs_config = execution_config config avs_address supported_chains;
                          cancel_context = context;
                          inflight_tasks = m.inflight_tasks;
                          task_queue = m.task_queue;
                        })
                        a.avs_managers;
                },
                none,
              )
        ]

  -- `registerAvs` with its context. The pollers write to the store when they start, whether or not all
  -- of them succeed: `Start` and its recovery are in Poller/Tick.
  unfoldable pub register_with_context :
      Bytes → List ℕ → ℕ → ServiceState S → ServiceState S × Option ServiceError
  register_with_context avs_address supported_chains context a =
      let (store, fine) =
        start_pollers avs_address (get_chain_pollers config.chains supported_chains []) a.store in
      let a' : ServiceState S = record a { store = store } in
      if fine
      then make_manager avs_address supported_chains context (a')
      else (cancel context (a'), some pollers_failed)

  -- `registerAvs`
  unfoldable pub register_avs :
      AggregatorAvs → ServiceState S → ServiceState S × Option ServiceError
  register_avs avs a =
      if is_none (get avs.address a.avs_managers)
      then elim (get_valid_chains_for_avs config.chains avs.chain_ids) [
        | none ↦ (a, some invalid_chains)
        | some supported_chains ↦
            if a.is_started
            then register_with_context avs.address supported_chains a.next_context
                (record a { next_context = suc a.next_context })
            else (a, some panicked)
      ]
      else (a, some already_registered)

  -- `deregisterAvs`; every manager has its cancel function.
  unfoldable pub deregister_avs : Bytes → ServiceState S → ServiceState S × Option ServiceError
  deregister_avs avs_address a = elim (get avs_address a.avs_managers) [
    | none ↦ (a, some not_registered)
    | some info ↦ (
      cancel info.cancel_context (record a { avs_managers = remove avs_address a.avs_managers }),
      none,
    )
  ]

  -- The loop of `Start`, which ends at the first error.
  unfoldable pub start_avss :
      List AggregatorAvs → ServiceState S → ServiceState S × Option ServiceError
  start_avss [] a = (a, none)
  start_avss (avs ∷ avss) a =
      let (a', error) = register_avs avs a in
      let onwards = start_avss avss (a') in
      elim error [ none ↦ onwards | some problem ↦ (a', some problem) ]

  -- `Start`, up to the wait for the end of its context.
  unfoldable pub start_aggregator : ServiceState S → ServiceState S × Option ServiceError
  start_aggregator a = start_avss config.avss (record a { is_started = true })

  module _ (keccak256 : Bytes → Bytes) (sign_message : Bytes → Option Bytes) where
    -- `verifyAuth`, with `HandleAuthError`
    unfoldable pub verify_service_auth :
        Option AuthSignature → ServiceState S → ServiceState S × Option ServiceError
    verify_service_auth auth a = elim a.auth_verifier [
      | none ↦ (a, if is_none auth then none else some auth_disabled)
      | some ctm ↦
          let (ctm', error) =
            verify_authentication keccak256 sign_message ctm (some (signature_of auth)) now in
          (
            record a { auth_verifier = some (ctm') },
            elim error [ none ↦ none | some problem ↦ some (auth_failed problem) ],
          )
    ]

    -- `RegisterAvs`
    unfoldable pub handle_register_avs :
        Option AuthSignature → AggregatorAvs → ServiceState S → ServiceState S × Option ServiceError
    handle_register_avs auth avs a =
        let (a', error) = verify_service_auth auth a in
        elim error [ none ↦ register_avs avs (a') | some problem ↦ (a', some problem) ]

    -- `DeRegisterAvs`
    unfoldable pub handle_deregister_avs :
        Option AuthSignature → Bytes → ServiceState S → ServiceState S × Option ServiceError
    handle_deregister_avs auth avs_address a =
        let (a', error) = verify_service_auth auth a in
        elim error [ none ↦ deregister_avs avs_address (a') | some problem ↦ (a', some problem) ]

  -- `GetChallengeToken`, with the token that is drawn
  unfoldable pub get_service_token :
      Bytes → Bytes → ServiceState S → ServiceState S × Result ServiceError ChallengeTokenEntry
  get_service_token address token a = elim a.auth_verifier [
    | none ↦ (a, err auth_disabled)
    | some ctm ↦ elim (generate_challenge_token ctm address token now) [
      | err problem ↦ (a, err (auth_failed problem))
      | ok (ctm', entry) ↦ (record a { auth_verifier = some (ctm') }, ok entry)
    ]
  ]
