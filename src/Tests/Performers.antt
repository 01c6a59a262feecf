-- ===== src/Tests/Performers.antt =====
-- A Docker that starts whatever it is asked to in a live context, and performers over it. Its state
-- counts what was created.
use hourglass_monorepo.Prelude.{
  ℕ, ◌+◌, ◌≡◌, ◌≤◌, ◌<◌, refl, Bool, true, false, none, some, [], ◌∷◌, arith, if◌then◌else◌,
  replicate,
}
use hourglass_monorepo.Text.{Bytes, codes, decimal}
use hourglass_monorepo.Dict.{get, put, nat_eq, bytes_eq}
use hourglass_monorepo.Restarts.{RestartPolicy, up_to, default_backoff, seconds, restart_done}
use hourglass_monorepo.Restarts.Monitors.{Monitor, Attempt}
use hourglass_monorepo.Restarts.Monitors.Limits.{
  triggered, respond, has_restart, Restarting, RestartRun, restarts_bounded,
}
use hourglass_monorepo.Performer.Rehydrated.{rehydrated_never_restarts}
use hourglass_monorepo.Performer.{
  PerformerImage, PerformerHealth, PerformerConfig, ContainerInfo, Ctx, Docker, PerformerContainer,
  Performer, done, failed, never_stored, stored, deref, modify, in_service, invalid_current,
  nil_dereference, ctx_done, performer_unhealthy, performer_healthy,
}
use hourglass_monorepo.Performer.Containers.{
  create_and_start_container, start_container, shutdown_container, get_container_endpoint,
  create_default_container_config, build_docker_envs_from_config,
}
use hourglass_monorepo.Performer.Slots.{
  Creation, create_performer, remove_performer, take_container, list_performers, promote_performer,
}
use hourglass_monorepo.Restarts.{event_restart_failed}
use hourglass_monorepo.Performer.Health.{
  handle_container_event, send_status, all_down, restarts_now, checked_health, check_container,
  perform_periodic_application_health_checks,
}
use hourglass_monorepo.Performer.Health.Failures.{
  checked, restarted, flagged, third_failure_restarts,
}
use hourglass_monorepo.Performer.Removed.{removed_current_panics, recreation_never_succeeds}
use hourglass_monorepo.Performer.Sound.{IsSound}
use hourglass_monorepo.Performer.Invariant.Reach.{created, here, next, Reach-IsSound}
use hourglass_monorepo.Performer.Deploy.{
  Waiting, deadline_passed, DeploymentResult, wait_for_healthy, await_and_promote, deploy_locked,
  deploy, rehydrated_liveness_config,
}
use hourglass_monorepo.Performer.Deployed.{IsDeployed, deploy-IsDeployed}
use hourglass_monorepo.Performer.Deployed.Calm.{checks-IsCalm}

abbrev info : ContainerInfo
info = record { id = codes "c"; hostname = codes "host"; ports = λ port. codes "32768" ∷ [] }

abbrev docker : Docker ℕ Bytes
docker = record {
  create = λ w over config. (w + 1, if over then none else some info);
  start = λ w over id. (w, true);
  wait_for_running = λ w over id. (w, true);
  inspect = λ w over id. (w, some info);
  stop = λ w over id. (w, true);
  remove_container = λ w over id. (w, true);
  start_liveness_monitoring = λ w over id config. (w, true);
  stop_liveness_monitoring = λ w id. w;
  request_restart = λ w id. w;
  adopt_container = λ w over id config. (w, true);
  new_client = λ endpoint. some endpoint;
  check_health = λ w over client. (w, true);
  execute_task = λ w client id payload. (w, some (id, payload));
  getenv = λ name. [];
  hash_avs_address = λ address. codes "abcdef";
  unix_time = λ w. w;
  new_uuid = λ n. replicate n b'u';
}

abbrev image : PerformerImage
image = record { repository = codes "repo"; tag = codes "v1"; digest = []; envs = [] }

abbrev config : PerformerConfig
config = record {
  avs_address = codes "0xa";
  image = image;
  performer_network_name = [];
  application_health_check_interval = 15;
}

abbrev no_performer : Performer ℕ Bytes
no_performer = record {
  world = 0;
  counter = 0;
  cancelled = [];
  containers = [];
  current_container = never_stored;
  next_container = none;
  task_wait_groups = [];
  group_counts = [];
  draining_performers = [];
  deploying = false;
}

no_performer-IsSound : IsSound no_performer
unfolding get
no_performer-IsSound = record {
  fresh_above = λ r h. refl;
  current_live = λ r e. absurd (ground (arith, e));
  next_live = λ r e. absurd (ground (arith, e));
  apart = λ r e h. absurd (ground (arith, e));
}

abbrev one_created : Performer ℕ Bytes
one_created = (create_performer docker config [] 0 image no_performer).0

Reach-IsSound_example : IsSound one_created
Reach-IsSound_example =
    Reach-IsSound docker config (next here (created [] 0 image)) no_performer-IsSound

abbrev container : PerformerContainer Bytes
container = record {
  performer_id = codes "p";
  info = info;
  client = codes "localhost:32768";
  performer_health = record {
    container_is_healthy = true;
    application_is_healthy = true;
    consecutive_failures = 0;
    last_health_check = 0;
  };
  status_chan = [];
  status_context = 1 ∷ [];
  status_cancel = 1;
  container_image = image;
  status = in_service;
}

-- A performer that is in service.
abbrev serving : Performer ℕ Bytes
serving = record no_performer {
  counter = 2;
  containers = (0, container) ∷ [];
  current_container = stored 0;
}

abbrev emptied : Performer ℕ Bytes
emptied = (remove_performer docker config false (codes "p") serving).0

abbrev recreated : Performer ℕ Bytes
recreated = (create_performer docker config [] 0 image emptied).0

abbrev creation : Creation
creation = record {
  created_ref = 4;
  performer_id = codes "performer-0xa-uuu";
  resource_id = codes "c";
  endpoint = some (codes "localhost:32768");
  hostname = codes "host";
}

made : create_performer docker config [] 0 image emptied ≡ (recreated, done creation)
unfolding create_performer remove_performer take_container create_and_start_container
    start_container shutdown_container get_container_endpoint create_default_container_config
    build_docker_envs_from_config decimal get put
made = refl

removed_current_panics_example :
    ((check_ctx : Ctx) (later : ℕ)
      → perform_periodic_application_health_checks docker config check_ctx later recreated
        ≡ (recreated, failed nil_dereference))
    × ((over' : Bool) (any_id : Bytes)
        → remove_performer docker config over' any_id recreated
          ≡ (recreated, failed invalid_current))
    × (list_performers config.avs_address recreated ≡ [])
removed_current_panics_example =
    removed_current_panics docker config false (codes "p") 0 serving [] 0 image recreated creation
      refl (unfold get in refl) made

recreation_never_succeeds_example :
    (deref (handle_container_event docker config (1 ∷ []) 0 (event_restart_failed true) 0 serving) 0
      ≡ some (send_status performer_unhealthy (all_down container)))
    × (ctx_done
          (handle_container_event docker config (1 ∷ []) 0 (event_restart_failed true) 0 serving)
          (1 ∷ [])
        ≡ true)
recreation_never_succeeds_example =
    recreation_never_succeeds docker config 0 0 container [] serving (λ w c. refl)
      (unfold get in refl) refl

abbrev health : PerformerHealth
health = record {
  container_is_healthy = true;
  application_is_healthy = false;
  consecutive_failures = 2;
  last_health_check = 1;
}

third_failure_restarts_example :
    (restarts_now false health ≡ true) × (restarts_now true health ≡ false) × (2 ≤ 2)
unfolding checked_health restarts_now
third_failure_restarts_example =
    third_failure_restarts
      (checked false 0 ∷ restarted ∷ flagged false false ∷ checked false 1 ∷ checked false 2 ∷ [])
      container.performer_health refl

abbrev policy : RestartPolicy
policy = record {
  enabled = true;
  max_restarts = up_to 5;
  restart_delay = seconds 2;
  backoff = some default_backoff;
  max_backoff_delay = seconds 30;
  restart_timeout = seconds 60;
  restart_on_crash = true;
  restart_on_oom = true;
  restart_on_unhealthy = true;
}

abbrev monitor : Monitor
monitor = record {
  policy = (rehydrated_liveness_config docker config).restart_policy;
  failure_threshold = 3;
  restart_count = 0;
  failures = 2;
}

abbrev attempt : Attempt
attempt = record { ends = false; result = restart_done }

rehydrated_never_restarts_example :
    (has_restart (respond attempt triggered monitor).1 ≡ false)
    × ((respond attempt triggered monitor).0.restart_count ≡ 0)
rehydrated_never_restarts_example =
    rehydrated_never_restarts docker config attempt triggered monitor refl

restarts_bounded_example :
    ((r : Restarting)
      → RestartRun 2 (record { monitor = record monitor { policy = policy }; waiting = 0 }) r
      → r.monitor.restart_count < 7)
    × (r : Restarting) × RestartRun 2
        (record { monitor = record monitor { policy = policy }; waiting = 0 })
        r
    × (r.monitor.restart_count ≡ 2)
restarts_bounded_example =
    restarts_bounded 5 2 (record monitor { policy = policy }) refl refl (omega arith) (omega arith)

-- A deployment during which the health is checked once.
abbrev waiting : Waiting ℕ Bytes
waiting = record {
  meanwhile = λ q. (perform_periodic_application_health_checks docker config [] 1 q).0;
  statuses = performer_healthy ∷ [];
  wait_end = deadline_passed;
}

abbrev deployed : Performer ℕ Bytes
deployed = (deploy docker config [] 0 image waiting no_performer).0

abbrev result : DeploymentResult
result = record {
  deployment_id = codes "deployment-0xa-";
  deployed_performer = codes "performer-0xa-uuu";
  deployed_resource = codes "c";
  deployed_endpoint = some (codes "localhost:32768");
  deployed_hostname = codes "host";
}

ran : deploy docker config [] 0 image waiting no_performer ≡ (deployed, done result)
unfolding deploy deploy_locked await_and_promote wait_for_healthy promote_performer create_performer
    create_and_start_container start_container get_container_endpoint
    create_default_container_config build_docker_envs_from_config
    perform_periodic_application_health_checks check_container checked_health restarts_now modify
    decimal get put
ran = refl

deploy-IsDeployed_example :
    IsDeployed docker config deployed result
    × ((r : ℕ) (c : PerformerContainer Bytes)
        → never_stored ≡ stored r
        → deref no_performer r ≡ some c
        → get c.performer_id deployed.draining_performers ≡ some tt)
deploy-IsDeployed_example =
    deploy-IsDeployed docker config [] 0 image waiting no_performer deployed result
      no_performer-IsSound (λ r c n e h. absurd (unfold get in ground (arith, e)))
      (λ q. checks-IsCalm docker config [] 1 q) ran
