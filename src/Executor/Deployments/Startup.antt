-- ===== src/Executor/Deployments/Startup.antt =====
-- executor/executor.go: `Initialize`, which takes performers over from the store and deploys the
-- configured ones that are missing.
use hourglass_monorepo.Prelude.{
  ℕ, ◌≡◌, ap, sym, ◌∙◌, true, Option, none, some, List, [], ◌∷◌, map, arith, inl, inr, Result, ok,
  err, Option-cases, Bool-cases, Result-cases, if◌then◌else◌, not_empty, is_none, All,
}
use hourglass_monorepo.Text.{Bytes, codes, bytes_beq, bytes_beq_iff, to_lower}
use hourglass_monorepo.Dict.{get, put, bytes_eq, get-put, get-put_self}
use hourglass_monorepo.Executor.Stores.{PerformerState, EnvironmentVarRecord}
use hourglass_monorepo.Performer.{PerformerEnv, PerformerImage}
use hourglass_monorepo.Performer.Deploy.{DeploymentResult}
use hourglass_monorepo.Executor.Deployments.{
  AvsPerformers, PerformerStates, ExecutorState, endpoint_text, rehydrate_performers_from_storage,
}

-- A performer of the configuration
pub record ConfiguredPerformer : Type 0 where
  pub configured_avs : Bytes
  pub process_type : Bytes
  pub configured_mode : Bytes
  pub configured_repository : Bytes
  pub configured_tag : Bytes
  pub configured_envs : List PerformerEnv

pub data StartupError : Type 0 where
  unsupported_process_type performer_not_made deployment_failed : StartupError

abbrev env_record : PerformerEnv → EnvironmentVarRecord
env_record env = record { name = env.name; value = env.value; value_from_env = env.value_from_env }

-- The record that a start saves for a deployment
abbrev pub started_state : Bytes → ℕ → ℕ → ConfiguredPerformer → DeploymentResult → PerformerState
started_state network_name started ended avs result = record {
  performer_id = result.deployed_performer;
  avs_address = to_lower avs.configured_avs;
  resource_id = result.deployed_resource;
  status = codes "running";
  artifact_registry = avs.configured_repository;
  artifact_digest = [];
  artifact_tag = avs.configured_tag;
  deployment_mode = avs.configured_mode;
  created_at = started;
  last_health_check = ended;
  container_healthy = true;
  application_healthy = true;
  network_name = network_name;
  container_endpoint = endpoint_text result.deployed_endpoint;
  container_hostname = result.deployed_hostname;
  environment_vars = map env_record avs.configured_envs;
}

-- The deployment by a performer, where it could be made.
abbrev pub made_and_deployed :
    {P : Type 0}
    → AvsPerformers P
    → PerformerImage
    → Option P
    → Result StartupError (P × DeploymentResult)
made_and_deployed ops image none = err performer_not_made
made_and_deployed ops image (some p) =
    let (p', outcome) = ops.deploy_image p image in
    elim outcome [ err text ↦ err deployment_failed | ok result ↦ ok (p', result) ]

module _ {P S : Type 0} (docker kubernetes : AvsPerformers P) (st : PerformerStates S)
    (network_name : Bytes) (started ended : ℕ) where
  -- `createPerformer` and the deployment with what it makes, for the mode, which is docker by default.
  unfoldable pub deploy_configured :
      ConfiguredPerformer → Result StartupError (P × DeploymentResult)
  deploy_configured avs =
      let mode : Bytes =
        if not_empty avs.configured_mode then avs.configured_mode else codes "docker" in
      let image : PerformerImage = record {
        repository = avs.configured_repository;
        tag = avs.configured_tag;
        digest = [];
        envs = avs.configured_envs;
      } in
      if bytes_beq mode (codes "docker")
      then made_and_deployed docker image (docker.new_performer (to_lower avs.configured_avs))
      else if bytes_beq mode (codes "kubernetes")
      then made_and_deployed kubernetes image
          (kubernetes.new_performer (to_lower avs.configured_avs))
      else err performer_not_made

  -- One round of the loop of `Initialize`
  unfoldable pub initialize_performer :
      ConfiguredPerformer → ExecutorState P S → Result StartupError (ExecutorState P S)
  initialize_performer avs e =
      if is_none (get (to_lower avs.configured_avs) e.avs_performers)
      then (if bytes_beq avs.process_type (codes "server")
          then elim (deploy_configured avs) [
            | err problem ↦ err problem
            | ok (p, result) ↦ ok (record e {
              avs_performers = put (to_lower avs.configured_avs) p e.avs_performers;
              states =
                  st.save_state e.states result.deployed_performer
                    (started_state network_name started ended avs result);
            })
          ]
          else err unsupported_process_type)
      else ok e

  -- The loop of `Initialize`, which ends at the first error.
  unfoldable pub initialize_performers :
      List ConfiguredPerformer → ExecutorState P S → Result StartupError (ExecutorState P S)
  initialize_performers [] e = ok e
  initialize_performers (avs ∷ rest) e = elim (initialize_performer avs e) [
    | err problem ↦ err problem
    | ok e' ↦ initialize_performers rest (e')
  ]

  -- `Initialize`; only Docker containers are taken over.
  unfoldable pub initialize_executor :
      List ConfiguredPerformer → ExecutorState P S → Result StartupError (ExecutorState P S)
  initialize_executor configured e =
      initialize_performers configured (rehydrate_performers_from_storage docker st e)

  abbrev pub IsServed : ExecutorState P S → Bytes → Type 0
  IsServed e avs_address = (p : P) × (get (to_lower avs_address) e.avs_performers ≡ some p)

  -- A performer that is there stays the same.
  round_same :
      (avs : ConfiguredPerformer) (e e' : ExecutorState P S) (address : Bytes) (p : P)
      → initialize_performer avs e ≡ ok e'
      → get address e.avs_performers ≡ some p
      → get address e'.avs_performers ≡ some p
  unfolding initialize_performer
  round_same avs e e' address p h there =
      elim (Option-cases (get (to_lower avs.configured_avs) e.avs_performers)) [
        | inr (q, old) ↦ ground (arith, old, h, there)
        | inl missing ↦ elim (Bool-cases (bytes_beq avs.process_type (codes "server"))) [
          | inr other ↦ absurd (ground (arith, missing, other, h))
          | inl server ↦ elim (Result-cases (deploy_configured avs)) [
            | inr (problem, d) ↦ absurd (ground (arith, missing, server, d, h))
            | inl (made, d) ↦
                let at : get address e'.avs_performers ≡ (
                    if bytes_beq (to_lower avs.configured_avs) address
                    then some made.0
                    else get address e.avs_performers) =
                  ap (get address) (ground (arith, missing, server, d, h))
                  ∙ get-put (to_lower avs.configured_avs) address made.0 e.avs_performers in
                elim (Bool-cases (bytes_beq (to_lower avs.configured_avs) address)) [
                  | inr differs ↦ at ∙ rw differs there
                  | inl same ↦
                      let one : none ≡ some p =
                        sym missing
                        ∙ ap (λ k. get k e.avs_performers)
                            ((bytes_beq_iff (to_lower avs.configured_avs) address).0 same)
                        ∙ there in
                      absurd (ground (arith, one))
                ]
          ]
        ]
      ]

  round_serves :
      (avs : ConfiguredPerformer) (e e' : ExecutorState P S)
      → initialize_performer avs e ≡ ok e'
      → IsServed e' avs.configured_avs
  unfolding initialize_performer
  round_serves avs e e' h =
      elim (Option-cases (get (to_lower avs.configured_avs) e.avs_performers)) [
        | inr (q, there) ↦ (q, ground (arith, there, h))
        | inl missing ↦ elim (Bool-cases (bytes_beq avs.process_type (codes "server"))) [
          | inr other ↦ absurd (ground (arith, missing, other, h))
          | inl server ↦ elim (Result-cases (deploy_configured avs)) [
            | inr (problem, d) ↦ absurd (ground (arith, missing, server, d, h))
            | inl (made, d) ↦ (
              made.0,
              ap (get (to_lower avs.configured_avs)) (ground (arith, missing, server, d, h))
                  ∙ get-put_self (to_lower avs.configured_avs) made.0 e.avs_performers,
            )
          ]
        ]
      ]

  loop_same :
      (configured : List ConfiguredPerformer) (e e' : ExecutorState P S) (address : Bytes) (p : P)
      → initialize_performers configured e ≡ ok e'
      → get address e.avs_performers ≡ some p
      → get address e'.avs_performers ≡ some p
  unfolding initialize_performers
  loop_same [] e e' address p h there = ground (arith, h, there)
  loop_same (avs ∷ rest) e e' address p h there = elim (Result-cases (initialize_performer avs e)) [
    | inr (problem, r) ↦ absurd (ground (arith, r, h))
    | inl (t, r) ↦
        loop_same rest t e' address p (ground (arith, r, h)) (round_same avs e t address p r there)
  ]

  loop_serves :
      (configured : List ConfiguredPerformer) (e e' : ExecutorState P S)
      → initialize_performers configured e ≡ ok e'
      → All (λ avs. IsServed e' avs.configured_avs) configured
  unfolding initialize_performers
  loop_serves [] e e' h = tt
  loop_serves (avs ∷ rest) e e' h = elim (Result-cases (initialize_performer avs e)) [
    | inr (problem, r) ↦ absurd (ground (arith, r, h))
    | inl (t, r) ↦ (
      (
        (round_serves avs e t r).0,
        loop_same rest t e' (to_lower avs.configured_avs) (round_serves avs e t r).0
            (ground (arith, r, h)) (round_serves avs e t r).1,
      ),
      loop_serves rest t e' (ground (arith, r, h)),
    )
  ]

  -- An initialisation that succeeds leaves a performer for every configured AVS, and each performer
  -- that was taken over from the store is still the one of its AVS, in the state it was taken over in.
  pub initialize_executor-AllServed :
      (configured : List ConfiguredPerformer) (e e' : ExecutorState P S)
      → initialize_executor configured e ≡ ok e'
      → All (λ avs. IsServed e' avs.configured_avs) configured
        × ((address : Bytes) (p : P)
            → get address (rehydrate_performers_from_storage docker st e).avs_performers ≡ some p
            → get address e'.avs_performers ≡ some p)
  unfolding initialize_executor
  initialize_executor-AllServed configured e e' h =
      let taken : ExecutorState P S = rehydrate_performers_from_storage docker st e in
      (
        loop_serves configured taken e' h,
        λ address p there. loop_same configured taken e' address p h there,
      )
