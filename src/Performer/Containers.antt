-- ===== src/Performer/Containers.antt =====
-- containerPerformer.go: the containers themselves, from their configuration to their end.
use hourglass_monorepo.Prelude.{
  ℕ, ◌+◌, Bool, true, false, Option, none, some, List, [], ◌∷◌, ◌++◌, map, not_empty, if◌then◌else◌,
}
use hourglass_monorepo.Text.{Bytes, codes, decimal}
use hourglass_monorepo.Dict.{put, nat_eq}
use hourglass_monorepo.Restarts.{default_liveness_config}
use hourglass_monorepo.Performer.{
  PerformerEnv, PerformerImage, PerformerConfig, ContainerInfo, ContainerConfig, Ctx, Docker,
  PerformerContainer, PerformerHealth, Performer, PerformerError, create_failed, start_failed,
  wait_failed, inspect_failed, no_endpoint, client_failed, liveness_failed, Outcome, done, failed,
  Run, ◌>>=◌, ◌>>◌, pure, throw, ctx_done, cancel, modify, in_service, stored, remove_failed,
}

abbrev container_port : Bytes
container_port = codes "8080/tcp"

-- `GetContainerEndpoint` at the port of the containers
unfoldable pub get_container_endpoint : ContainerInfo → Bytes → Option Bytes
get_container_endpoint info network_name =
    if not_empty network_name
    then some (info.hostname ++ codes ":8080")
    else elim (info.ports container_port) [
      | [] ↦ none
      | host_port ∷ rest ↦ some (codes "localhost:" ++ host_port)
    ]

-- What is done with a value, where an error is logged.
abbrev pub or_logged : {A W : Type 0} → Outcome A → (A → W → W) → W → W
or_logged (done a) f w = f a w
or_logged (failed e) f w = w

-- What is done with what was found.
abbrev pub when_some : {A W : Type 0} → Option A → (A → W → W) → W → W
when_some none f w = w
when_some (some a) f w = f a w

-- The fields of a container that `recreateContainer` writes.
abbrev pub replaced_by :
    {A : Type 0} → PerformerContainer A → PerformerContainer A → PerformerContainer A
replaced_by n old = record old {
  info = n.info;
  client = n.client;
  performer_health = n.performer_health;
  status_chan = n.status_chan;
  status_cancel = n.status_cancel;
  status_context = n.status_context;
}

abbrev pub with_client : {A : Type 0} → A → PerformerContainer A → PerformerContainer A
with_client client old = record old { client = client }

-- The health of a new container
abbrev pub fresh_health : ℕ → PerformerHealth
fresh_health now = record {
  container_is_healthy = true;
  application_is_healthy = false;
  consecutive_failures = 0;
  last_health_check = now;
}

module _ {M Client : Type 0} (d : Docker M Client) (config : PerformerConfig) where
  -- One entry of `buildDockerEnvsFromConfig`
  abbrev docker_env : PerformerEnv → Bytes
  docker_env env =
      env.name
      ++ (codes "="
          ++ (if not_empty env.value_from_env then d.getenv env.value_from_env else env.value))

  -- `buildDockerEnvsFromConfig`
  unfoldable pub build_docker_envs_from_config : PerformerImage → List Bytes
  build_docker_envs_from_config image = map docker_env image.envs

  -- `CreateDefaultContainerConfig`, as the performer calls it
  unfoldable pub create_default_container_config : M → PerformerImage → ContainerConfig
  create_default_container_config world image = record {
    config_hostname =
        codes "avs-performer-"
        ++ (d.hash_avs_address config.avs_address ++ (codes "-" ++ decimal (d.unix_time world)));
    config_image =
        image.repository
        ++ (if not_empty image.digest then codes "@" ++ image.digest else codes ":" ++ image.tag);
    network_name = config.performer_network_name;
    env = build_docker_envs_from_config image;
  }

  -- A call of Docker that returns an error or none.
  abbrev pub call : (M → M × Bool) → PerformerError → Run (Performer M Client) (Unit {0})
  call f e p =
      let (w, fine) = f p.world in (record p { world = w }, if fine then done tt else failed e)

  abbrev pub call_for :
      {A : Type 0} → (M → M × Option A) → PerformerError → Run (Performer M Client) A
  call_for f e p =
      let (w, answer) = f p.world in
      (record p { world = w }, elim answer [ none ↦ failed e | some a ↦ done a ])

  abbrev pub call_always : (M → M) → Run (Performer M Client) (Unit {0})
  call_always f p = (record p { world = f p.world }, done tt)

  -- `cleanupFailedContainer`, with a context of its own; its error is logged.
  unfoldable pub cleanup_failed_container : Bytes → Run (Performer M Client) (Unit {0})
  cleanup_failed_container id = call_always (λ w. (d.remove_container w false id).0)

  -- A step after which something is undone where the step fails.
  abbrev pub on_failure :
      {A : Type 0}
      → Run (Performer M Client) (Unit {0})
      → Run (Performer M Client) A
      → Run (Performer M Client) A
  on_failure undo m p =
      let (p', outcome) = m p in
      elim outcome [ done a ↦ (p', done a) | failed e ↦ ((undo (p')).0, failed e) ]

  abbrev pub or_cleanup :
      {A : Type 0} → Bytes → Run (Performer M Client) A → Run (Performer M Client) A
  or_cleanup id m = on_failure (cleanup_failed_container id) m

  abbrev pub from_option : {A : Type 0} → Option A → PerformerError → Run (Performer M Client) A
  from_option none e = throw e
  from_option (some a) e = pure a

  -- `context.WithCancel`: a fresh cancel function.
  abbrev pub with_cancel : Run (Performer M Client) ℕ
  with_cancel p = (record p { counter = p.counter + 1 }, done p.counter)

  -- The function of a reference that takes what it points to out of the counter.
  abbrev pub allocate : PerformerContainer Client → Run (Performer M Client) ℕ
  allocate c p = (
    record p { counter = p.counter + 1; containers = put p.counter c p.containers },
    done p.counter,
  )

  -- The id of the n-th draw.
  abbrev pub performer_name : ℕ → Bytes
  performer_name n = codes "performer-" ++ (config.avs_address ++ (codes "-" ++ d.new_uuid n))

  -- `generatePerformerID`
  abbrev pub generate_performer_id : Run (Performer M Client) Bytes
  generate_performer_id p = (record p { counter = p.counter + 1 }, done (performer_name p.counter))

  -- The part of `createAndStartContainer` up to the client.
  unfoldable pub start_container :
      Ctx → PerformerImage → Run (Performer M Client) (ContainerInfo × Client)
  start_container ctx image p =
      let over = ctx_done p ctx in
      (do
        created ←
            call_for (λ w. d.create w over (create_default_container_config p.world image))
              create_failed
        or_cleanup created.id (call (λ w. d.start w over created.id) start_failed)
        or_cleanup created.id (call (λ w. d.wait_for_running w over created.id) wait_failed)
        info ← or_cleanup created.id (call_for (λ w. d.inspect w over created.id) inspect_failed)
        endpoint ←
            or_cleanup created.id
              (from_option (get_container_endpoint info config.performer_network_name) no_endpoint)
        client ← or_cleanup info.id (from_option (d.new_client endpoint) client_failed)
        pure (info, client))
        p

  -- `createAndStartContainer`; the status is set by its callers.
  unfoldable pub create_and_start_container :
      Ctx → ℕ → PerformerImage → Run (Performer M Client) (PerformerContainer Client)
  create_and_start_container ctx now image p =
      let over = ctx_done p ctx in
      (do
        started ← start_container ctx image
        status_cancel ← with_cancel
        on_failure
            ((λ q. (cancel status_cancel q, done tt)) >> cleanup_failed_container started.0.id)
            (call (λ w. d.start_liveness_monitoring w over started.0.id default_liveness_config)
              liveness_failed)
        performer_id ← generate_performer_id
        pure (record {
          performer_id = performer_id;
          info = started.0;
          client = started.1;
          performer_health = fresh_health now;
          status_chan = [];
          status_context = status_cancel ∷ ctx;
          status_cancel = status_cancel;
          container_image = image;
          status = [];
        }))
        p

  -- `shutdownContainer`, with whether its context is done; an error of `Stop` is logged.
  unfoldable pub shutdown_container :
      Bool → PerformerContainer Client → Run (Performer M Client) (Unit {0})
  shutdown_container over c = do
    call_always (λ w. d.stop_liveness_monitoring w c.info.id)
    call_always (λ w. (d.stop w over c.info.id).0)
    call (λ w. d.remove_container w over c.info.id) remove_failed

  -- `Initialize`
  unfoldable pub initialize : Ctx → ℕ → Run (Performer M Client) (Unit {0})
  initialize ctx now p =
      if not_empty config.image.repository
      then if not_empty config.image.tag
        then (do
          c ← create_and_start_container ctx now config.image
          r ← allocate (record c { status = in_service })
          λ q. (record q { current_container = stored r }, done tt))
            p
        else (p, done tt)
      else (p, done tt)

  -- `recreateContainer`; an error is logged. The old status context is cancelled first, and `ctx` is
  -- the context that the caller monitors with.
  unfoldable pub recreate_container :
      Ctx → ℕ → ℕ → PerformerContainer Client → Performer M Client → Performer M Client
  recreate_container ctx now r c p =
      let q : Performer M Client =
        cancel c.status_cancel
          (record p { world = d.stop_liveness_monitoring p.world c.info.id }) in
      let (q', outcome) = create_and_start_container ctx now c.container_image q in
      or_logged outcome (λ n. modify r (replaced_by n)) (q')

  -- The calls of `recreatePerformerClientForContainer`
  unfoldable pub recreated_client :
      Ctx → PerformerContainer Client → Run (Performer M Client) Client
  recreated_client ctx c p =
      let over = ctx_done p ctx in
      (do
        info ← call_for (λ w. d.inspect w over c.info.id) inspect_failed
        endpoint ←
            from_option (get_container_endpoint info config.performer_network_name) no_endpoint
        from_option (d.new_client endpoint) client_failed)
        p

  -- `recreatePerformerClientForContainer`; errors are logged.
  unfoldable pub recreate_performer_client_for_container :
      Ctx → ℕ → PerformerContainer Client → Performer M Client → Performer M Client
  recreate_performer_client_for_container ctx r c p =
      let (q, outcome) = recreated_client ctx c p in
      or_logged outcome (λ client. modify r (with_client client)) q
