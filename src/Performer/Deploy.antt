-- ===== src/Performer/Deploy.antt =====
-- containerPerformer.go: the deployment of an image and the return of a container that was stored.
use hourglass_monorepo.Prelude.{
  ℕ, ◌+◌, true, false, Option, List, [], ◌∷◌, ◌++◌, map, if◌then◌else◌,
}
use hourglass_monorepo.Text.{Bytes, codes}
use hourglass_monorepo.Dict.{put, nat_eq, bytes_eq}
use hourglass_monorepo.Restarts.{LivenessConfig, build_restart_policy, empty_restart_policy}
use hourglass_monorepo.Executor.Stores.{PerformerState, EnvironmentVarRecord}
use hourglass_monorepo.Performer.{
  PerformerEnv, PerformerImage, PerformerStatus, performer_healthy, performer_unhealthy,
  performer_health_unknown, PerformerConfig, ContainerInfo, Ctx, Docker, PerformerContainer,
  Performer, client_failed, liveness_failed, inspect_failed, adopt_failed, deployment_in_progress,
  deployment_timeout, wait_cancelled, status_closed, Outcome, done, failed, Run, ◌>>=◌, ◌>>◌, pure,
  ctx_done, cancel, stored,
}
use hourglass_monorepo.Performer.Containers.{
  call, call_for, call_always, with_cancel, from_option, allocate, on_failure,
}
use hourglass_monorepo.Performer.Slots.{
  Creation, create_performer, promote_performer, remove_performer, update,
}

-- How the wait of `waitForHealthy` ends if no status is healthy: its context is over, by a deadline or
-- not, or the channel is closed.
pub data WaitEnd : Type 0 where
  deadline_passed context_cancelled channel_closed : WaitEnd

-- `waitForHealthy`, over the statuses that it reads and the end after them.
unfoldable pub wait_for_healthy : List PerformerStatus → WaitEnd → Outcome (Unit {0})
wait_for_healthy [] deadline_passed = failed deployment_timeout
wait_for_healthy [] context_cancelled = failed wait_cancelled
wait_for_healthy [] channel_closed = failed status_closed
wait_for_healthy (performer_healthy ∷ statuses) end = done tt
wait_for_healthy (performer_unhealthy ∷ statuses) end = wait_for_healthy statuses end
wait_for_healthy (performer_health_unknown ∷ statuses) end = wait_for_healthy statuses end

-- `DeploymentResult` of a deployment that completed; one that failed has the error that is returned
-- with it.
pub record DeploymentResult : Type 0 where
  pub deployment_id : Bytes
  pub deployed_performer : Bytes
  pub deployed_resource : Bytes
  pub deployed_endpoint : Option Bytes
  pub deployed_hostname : Bytes

-- What happens while `Deploy` waits: the changes that other goroutines make, the statuses that it reads,
-- and how the wait ends after them.
pub record Waiting (M Client : Type 0) : Type 0 where
  pub meanwhile : Performer M Client → Performer M Client
  pub statuses : List PerformerStatus
  pub wait_end : WaitEnd

module _ {M Client : Type 0} (d : Docker M Client) (config : PerformerConfig) where
  -- The part of `Deploy` after the creation: what fails is removed, with a context of its own.
  unfoldable pub await_and_promote :
      Waiting M Client → Creation → Run (Performer M Client) (Unit {0})
  await_and_promote waiting created =
      on_failure d config (remove_performer d config false created.performer_id) (do
        update waiting.meanwhile
        λ p. (p, wait_for_healthy waiting.statuses waiting.wait_end)
        promote_performer created.performer_id)

  -- `Deploy` with the lock held. The context of the deployment is cancelled on return, and the id
  -- is drawn before.
  unfoldable pub deploy_locked :
      Ctx → ℕ → PerformerImage → Waiting M Client → Run (Performer M Client) DeploymentResult
  deploy_locked ctx now image waiting p =
      let deployment : ℕ = p.counter + 1 in
      let (p', outcome) =
        (do
          created ← create_performer d config (deployment ∷ ctx) now image
          await_and_promote waiting created
          pure (record {
            deployment_id =
                codes "deployment-" ++ (config.avs_address ++ (codes "-" ++ d.new_uuid p.counter));
            deployed_performer = created.performer_id;
            deployed_resource = created.resource_id;
            deployed_endpoint = created.endpoint;
            deployed_hostname = created.hostname;
          }))
          (record p { counter = p.counter + 2 }) in
      (cancel deployment (p'), outcome)

  -- `Deploy`
  unfoldable pub deploy :
      Ctx → ℕ → PerformerImage → Waiting M Client → Run (Performer M Client) DeploymentResult
  deploy ctx now image waiting p =
      if p.deploying
      then (p, failed deployment_in_progress)
      else let (p', outcome) =
          deploy_locked ctx now image waiting (record p { deploying = true }) in
        (record (p') { deploying = false }, outcome)

  abbrev pub env_of : EnvironmentVarRecord → PerformerEnv
  env_of e = record { name = e.name; value = e.value; value_from_env = e.value_from_env }

  -- The liveness configuration of a container that comes back.
  unfoldable pub rehydrated_liveness_config : LivenessConfig
  rehydrated_liveness_config = record {
    health_check_config = record {
      health_enabled = true;
      interval = config.application_health_check_interval;
      timeout = 0;
      retries = 0;
      start_period = 0;
      failure_threshold = 3;
    };
    restart_policy = build_restart_policy empty_restart_policy;
  }

  -- The calls of `RehydrateFromState`: the adopted container with its client and cancel function.
  unfoldable pub adopt_performer :
      Ctx → PerformerState → Run (Performer M Client) (ContainerInfo × Client × ℕ)
  adopt_performer ctx state p =
      let over = ctx_done p ctx in
      (do
        call d config (λ w. d.adopt_container w over state.resource_id rehydrated_liveness_config)
            adopt_failed
        info ← call_for d config (λ w. d.inspect w over state.resource_id) inspect_failed
        client ←
            on_failure d config
              (call_always d config (λ w. d.stop_liveness_monitoring w state.resource_id))
              (from_option d config (d.new_client state.container_endpoint) client_failed)
        call d config
            (λ w. d.start_liveness_monitoring w over state.resource_id rehydrated_liveness_config)
            liveness_failed
        status_cancel ← with_cancel d config
        pure (info, client, status_cancel))
        p

  -- The container that `RehydrateFromState` makes of a stored state.
  abbrev pub rehydrated_container :
      Ctx → PerformerState → ContainerInfo × Client × ℕ → PerformerContainer Client
  rehydrated_container ctx state (info, client, status_cancel) = record {
    performer_id = state.performer_id;
    info = info;
    client = client;
    performer_health = record {
      container_is_healthy = state.container_healthy;
      application_is_healthy = state.application_healthy;
      consecutive_failures = 0;
      last_health_check = state.last_health_check;
    };
    status_chan = [];
    status_context = status_cancel ∷ ctx;
    status_cancel = status_cancel;
    container_image = record {
      repository = state.artifact_registry;
      tag = state.artifact_tag;
      digest = state.artifact_digest;
      envs = map env_of state.environment_vars;
    };
    status = state.status;
  }

  -- `RehydrateFromState`; the container replaces what the current slot had, and gets a wait group of its
  -- own.
  unfoldable pub rehydrate_from_state : Ctx → PerformerState → Run (Performer M Client) (Unit {0})
  rehydrate_from_state ctx state = do
    adopted ← adopt_performer ctx state
    r ← allocate d config (rehydrated_container ctx state adopted)
    update (λ q. record q {
      counter = q.counter + 1;
      current_container = stored r;
      task_wait_groups = put state.performer_id q.counter q.task_wait_groups;
      group_counts = put q.counter 0 q.group_counts;
    })
