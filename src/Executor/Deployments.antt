-- ===== src/Executor/Deployments.antt =====
-- ponos/pkg/executor/handlers.go and executor.go: the management of performers, deployment, listing,
-- removal, challenge tokens and what a start takes from the store. A handler is one step; the race of
-- two first deployments for one AVS, whose loser is shut down, is left out.
pub mod Listed
pub mod Backings
pub mod Replaced
pub mod Tokens
pub mod Startup
use hourglass_monorepo.Prelude.{
  ℕ, ◌+◌, Bool, true, false, not, ◌&&◌, ◌||◌, Option, none, some, List, [], ◌∷◌, ◌++◌, map, is_none,
  not_empty, if◌then◌else◌, Result, ok, err,
}
use hourglass_monorepo.Text.{Bytes, codes, bytes_beq, has_prefix, to_lower, equal_fold}
use hourglass_monorepo.Dict.{Dict, get, put, bytes_eq}
use hourglass_monorepo.Auth.{
  ChallengeTokenManager, ChallengeTokenEntry, AuthError, AuthSignature, verify_authentication,
  generate_challenge_token,
}
use hourglass_monorepo.Executor.Stores.{PerformerState}
use hourglass_monorepo.Performer.{PerformerEnv, PerformerImage}
use hourglass_monorepo.Performer.Slots.{PerformerMetadata}
use hourglass_monorepo.Performer.Deploy.{DeploymentResult}

-- `DeployArtifactRequest`, without what only Kubernetes reads.
pub record DeployRequest : Type 0 where
  pub auth : Option AuthSignature
  pub avs_address : Bytes
  pub artifact_digest : Bytes
  pub registry_url : Bytes
  pub env : List PerformerEnv

pub data ManagementError : Type 0 where
  auth_disabled : ManagementError
  auth_failed : AuthError → ManagementError
  -- InvalidArgument, Internal, AlreadyExists, DeadlineExceeded, NotFound, PermissionDenied
  invalid_argument internal already_exists deadline_exceeded not_found permission_denied :
      ManagementError

-- `IAvsPerformer` over its state `P`, and how one is made for an AVS or from a stored state. An error
-- of `Deploy` is its text; what is rehydrated is `none` where the performer cannot be made, and
-- `some none` where its container cannot be taken over.
pub record AvsPerformers (P : Type 0) : Type 0 where
  pub new_performer : Bytes → Option P
  pub deploy_image : P → PerformerImage → P × Result Bytes DeploymentResult
  pub remove_by_id : P → Bytes → P × Bool
  pub listed : P → List PerformerMetadata
  pub rehydrate : PerformerState → Option (Option P)

-- What the store of an executor does for performers; errors of the writes are logged.
pub record PerformerStates (S : Type 0) : Type 0 where
  pub save_state : S → Bytes → PerformerState → S
  pub delete_state : S → Bytes → S
  pub list_states : S → Option (List PerformerState)

-- What an `Executor` keeps for its performers, with `authVerifier`, which may be nil.
pub record ExecutorState (P S : Type 0) : Type 0 where
  pub avs_performers : Dict Bytes P
  pub states : S
  pub auth_verifier : Option ChallengeTokenManager

-- `strings.Contains`
abbrev pub contains_text : Bytes → Bytes → Bool
contains_text [] text = not (not_empty text)
contains_text (x ∷ xs) text = has_prefix text (x ∷ xs) || contains_text xs text

-- The status for an error of `Deploy`
unfoldable pub deploy_error_status : Bytes → ManagementError
deploy_error_status text =
    if contains_text text (codes "deployment already in progress")
    then already_exists
    else if contains_text text (codes "deployment timeout")
    then deadline_exceeded
    else internal

-- `validateDeployArtifactRequest`
abbrev pub is_deployable : DeployRequest → Bool
is_deployable req =
    not_empty req.avs_address && (not_empty req.artifact_digest && not_empty req.registry_url)

-- The image of a request
abbrev pub requested_image : DeployRequest → PerformerImage
requested_image req = record {
  repository = req.registry_url;
  tag = [];
  digest = req.artifact_digest;
  envs = req.env;
}

abbrev pub endpoint_text : Option Bytes → Bytes
endpoint_text none = []
endpoint_text (some endpoint) = endpoint

-- The record that `DeployArtifact` saves, with the times of the deployment.
abbrev pub deployed_state : Bytes → ℕ → ℕ → DeployRequest → DeploymentResult → PerformerState
deployed_state network_name started ended req result = record {
  performer_id = result.deployed_performer;
  avs_address = to_lower req.avs_address;
  resource_id = result.deployed_resource;
  status = codes "running";
  artifact_registry = req.registry_url;
  artifact_digest = req.artifact_digest;
  artifact_tag = [];
  deployment_mode = codes "docker";
  created_at = started;
  last_health_check = ended;
  container_healthy = true;
  application_healthy = true;
  network_name = network_name;
  container_endpoint = endpoint_text result.deployed_endpoint;
  container_hostname = result.deployed_hostname;
  environment_vars = [];
}

-- A performer of an answer to `ListPerformers`.
pub record ListedPerformer : Type 0 where
  pub listed_id : Bytes
  pub listed_avs : Bytes
  pub listed_status : Bytes
  pub listed_registry : Bytes
  pub listed_tag : Bytes
  pub listed_digest : Bytes
  pub resource_healthy : Bool
  pub app_healthy : Bool
  pub listed_check : ℕ
  pub container_id : Bytes

-- `performerInfoToProto`
abbrev pub performer_info_to_proto : PerformerMetadata → ListedPerformer
performer_info_to_proto info = record {
  listed_id = info.performer_id;
  listed_avs = info.avs_address;
  listed_status = info.status;
  listed_registry = info.artifact_registry;
  listed_tag = info.artifact_tag;
  listed_digest = info.artifact_digest;
  resource_healthy = info.container_healthy;
  app_healthy = info.application_healthy;
  listed_check = info.last_health_check;
  container_id = info.resource_id;
}

-- The same for a stored state
abbrev pub state_to_proto : PerformerState → ListedPerformer
state_to_proto state = record {
  listed_id = state.performer_id;
  listed_avs = state.avs_address;
  listed_status = state.status;
  listed_registry = state.artifact_registry;
  listed_tag = state.artifact_tag;
  listed_digest = state.artifact_digest;
  resource_healthy = state.container_healthy;
  app_healthy = state.application_healthy;
  listed_check = state.last_health_check;
  container_id = state.resource_id;
}

-- The filter of a listing; an empty one lets everything pass.
abbrev pub passes_filter : Bytes → Bytes → Bool
passes_filter filter avs_address = not (not_empty filter) || equal_fold filter avs_address

abbrev pub has_listed : Bytes → List ListedPerformer → Bool
has_listed id [] = false
has_listed id (x ∷ xs) = bytes_beq x.listed_id id || has_listed id xs

-- The loop over the stored states
unfoldable pub add_states :
    Bytes → List PerformerState → List ListedPerformer → List ListedPerformer
add_states filter [] all = all
add_states filter (state ∷ states) all = add_states filter states (
    if passes_filter filter state.avs_address
    then (if has_listed state.performer_id all then all else all ++ (state_to_proto state ∷ []))
    else all)

-- A nil pointer as an `AuthSignature`: the interface is not nil, and its getters give empty values.
abbrev pub signature_of : Option AuthSignature → AuthSignature
signature_of none = record { challenge_token = []; signature = [] }
signature_of (some auth) = auth

abbrev pub has_id : Bytes → List PerformerMetadata → Bool
has_id id [] = false
has_id id (x ∷ xs) = bytes_beq x.performer_id id || has_id id xs

module _ (keccak256 : Bytes → Bytes) (sign_message : Bytes → Option Bytes) {P S : Type 0} where
  -- `verifyAuth`, with `HandleAuthError`
  unfoldable pub verify_auth :
      Option AuthSignature → ℕ → ExecutorState P S → ExecutorState P S × Option ManagementError
  verify_auth auth now e = elim e.auth_verifier [
    | none ↦ (e, if is_none auth then none else some auth_disabled)
    | some ctm ↦
        let (ctm', error) =
          verify_authentication keccak256 sign_message ctm (some (signature_of auth)) now in
        (
          record e { auth_verifier = some (ctm') },
          elim error [ none ↦ none | some problem ↦ some (auth_failed problem) ],
        )
  ]

  -- Goes on where the authentication succeeded.
  abbrev pub with_auth :
      {A : Type 0}
      → Option AuthSignature
      → ℕ
      → (ExecutorState P S → ExecutorState P S × Result ManagementError A)
      → ExecutorState P S
      → ExecutorState P S × Result ManagementError A
  with_auth auth now go e =
      let (e', error) = verify_auth auth now e in
      elim error [ none ↦ go (e') | some problem ↦ (e', err problem) ]

  -- `GetChallengeToken`, with the token that is drawn
  unfoldable pub get_challenge_token :
      Bytes
      → Bytes
      → Bytes
      → ℕ
      → ExecutorState P S
      → ExecutorState P S × Result ManagementError ChallengeTokenEntry
  get_challenge_token own_address address token now e =
      if not_empty address
      then (if equal_fold address own_address
          then elim e.auth_verifier [
            | none ↦ (e, err auth_disabled)
            | some ctm ↦ elim (generate_challenge_token ctm address token now) [
              | err problem ↦ (e, err internal)
              | ok (ctm', entry) ↦ (record e { auth_verifier = some (ctm') }, ok entry)
            ]
          ]
          else (e, err permission_denied))
      else (e, err invalid_argument)

  module _ (ops : AvsPerformers P) (st : PerformerStates S) where
    -- `getOrCreateAvsPerformer`; a performer that is made is stored.
    abbrev pub get_or_create_avs_performer : Bytes → ExecutorState P S → Option P
    get_or_create_avs_performer avs_address e = elim (get avs_address e.avs_performers) [
      | some p ↦ some p
      | none ↦ ops.new_performer avs_address
    ]

    -- `DeployArtifact` after the authentication, with the network and the times.
    unfoldable pub deploy_artifact_authenticated :
        Bytes
        → ℕ
        → ℕ
        → DeployRequest
        → ExecutorState P S
        → ExecutorState P S × Result ManagementError Bytes
    deploy_artifact_authenticated network_name started ended req e =
        if is_deployable req
        then elim (get_or_create_avs_performer (to_lower req.avs_address) e) [
          | none ↦ (e, err internal)
          | some p ↦
              let (p', outcome) = ops.deploy_image p (requested_image req) in
              let e' : ExecutorState P S = record e {
                avs_performers = put (to_lower req.avs_address) (p') e.avs_performers;
              } in
              elim outcome [
                | err text ↦ (e', err (deploy_error_status text))
                | ok result ↦ (
                  record (e') {
                    states =
                        st.save_state e.states result.deployed_performer
                          (deployed_state network_name started ended req result);
                  },
                  ok result.deployment_id,
                )
              ]
        ]
        else (e, err invalid_argument)

    -- `DeployArtifact`
    unfoldable pub deploy_artifact :
        Bytes
        → ℕ
        → ℕ
        → DeployRequest
        → ExecutorState P S
        → ExecutorState P S × Result ManagementError Bytes
    deploy_artifact network_name started ended req =
        with_auth req.auth started (deploy_artifact_authenticated network_name started ended req)

    -- The loop over the live performers of a listing
    abbrev pub live_performers : Bytes → Dict Bytes P → List ListedPerformer
    live_performers filter [] = []
    live_performers filter ((avs_address, p) ∷ performers) =
        (if passes_filter filter avs_address
          then map performer_info_to_proto (ops.listed p)
          else [])
        ++ live_performers filter performers

    -- `ListPerformers` after the authentication; an error of the store is logged.
    unfoldable pub list_authenticated : Bytes → ExecutorState P S → List ListedPerformer
    list_authenticated avs_address e =
        let filter : Bytes = to_lower avs_address in
        let live : List ListedPerformer = live_performers filter e.avs_performers in
        elim (st.list_states e.states) [ none ↦ live | some states ↦ add_states filter states live ]

    -- `ListPerformers`
    unfoldable pub list_performers :
        Option AuthSignature
        → ℕ
        → Bytes
        → ExecutorState P S
        → ExecutorState P S × Result ManagementError (List ListedPerformer)
    list_performers auth now avs_address =
        with_auth auth now (λ e. (e, ok (list_authenticated avs_address e)))

    -- `findPerformerByID`
    unfoldable pub find_performer_by_id : Bytes → Dict Bytes P → Option (Bytes × P)
    find_performer_by_id id [] = none
    find_performer_by_id id ((avs_address, p) ∷ performers) =
        let rest = find_performer_by_id id performers in
        if has_id id (ops.listed p) then some (avs_address, p) else rest

    -- `RemovePerformer` after the authentication
    unfoldable pub remove_authenticated :
        Bytes → ExecutorState P S → ExecutorState P S × Result ManagementError (Unit {0})
    remove_authenticated id e =
        if not_empty id
        then elim (find_performer_by_id id e.avs_performers) [
          | none ↦ (e, err not_found)
          | some (avs_address, p) ↦
              let (p', fine) = ops.remove_by_id p id in
              let e' : ExecutorState P S = record e {
                avs_performers = put avs_address (p') e.avs_performers;
              } in
              if fine
              then (record (e') { states = st.delete_state e.states id }, ok tt)
              else (e', err internal)
        ]
        else (e, err invalid_argument)

    -- `RemovePerformer`
    unfoldable pub remove_performer :
        Option AuthSignature
        → ℕ
        → Bytes
        → ExecutorState P S
        → ExecutorState P S × Result ManagementError (Unit {0})
    remove_performer auth now id = with_auth auth now (remove_authenticated id)

module _ {P S : Type 0} (ops : AvsPerformers P) (st : PerformerStates S) where
  -- One round of `rehydratePerformersFromStorage`
  unfoldable pub rehydrate_state : PerformerState → ExecutorState P S → ExecutorState P S
  rehydrate_state state e =
      let avs_address : Bytes = to_lower state.avs_address in
      if is_none (get avs_address e.avs_performers)
      then (if bytes_beq state.deployment_mode (codes "docker")
          then elim (ops.rehydrate state) [
            | none ↦ e
            | some none ↦ record e { states = st.delete_state e.states state.performer_id }
            | some (some p) ↦ record e { avs_performers = put avs_address p e.avs_performers }
          ]
          else e)
      else e

  abbrev pub rehydrate_states : List PerformerState → ExecutorState P S → ExecutorState P S
  rehydrate_states [] e = e
  rehydrate_states (state ∷ states) e = rehydrate_states states (rehydrate_state state e)

  -- `rehydratePerformersFromStorage`; an error of the store is logged by its caller.
  unfoldable pub rehydrate_performers_from_storage : ExecutorState P S → ExecutorState P S
  rehydrate_performers_from_storage e = elim (st.list_states e.states) [
    | none ↦ e
    | some states ↦ rehydrate_states states e
  ]
