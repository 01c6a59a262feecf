-- ===== src/Tests/Deployments.antt =====
-- An executor whose performers count their deployments, and requests to its management. A signature is
-- the token itself.
use hourglass_monorepo.Prelude.{
  ℕ, ◌+◌, ◌≡◌, refl, true, false, Option, none, some, List, [], ◌∷◌, arith, ok, All,
}
use hourglass_monorepo.Text.{Bytes, codes, to_lower}
use hourglass_monorepo.Dict.{get, put, bytes_eq}
use hourglass_monorepo.Auth.{
  ChallengeTokenManager, AuthError, AuthSignature, use_challenge_token, verify_authentication,
}
use hourglass_monorepo.Executor.Stores.{
  PerformerState, PerformerStore, save_performer_state, list_performer_states,
}
use hourglass_monorepo.Performer.Deploy.{DeploymentResult}
use hourglass_monorepo.Executor.Deployments.{
  DeployRequest, AvsPerformers, ExecutorState, verify_auth, deploy_artifact,
  deploy_artifact_authenticated, list_authenticated, has_listed, rehydrate_performers_from_storage,
  rehydrate_state,
}
use hourglass_monorepo.Executor.Deployments.Backings.{
  memory_states, IsInMemory, memory_states-KeepsStates,
}
use hourglass_monorepo.Executor.Deployments.Replaced.{replaced_stays_listed}
use hourglass_monorepo.Executor.Deployments.Startup.{
  ConfiguredPerformer, started_state, IsServed, initialize_executor, initialize_performers,
  initialize_performer, deploy_configured, initialize_executor-AllServed,
}
use hourglass_monorepo.Executor.Deployments.Tokens.{
  asks, lists, cleans, AllRefused, management_run, management_token_once,
}

abbrev hash : Bytes → Bytes
hash s = s

abbrev sign : Bytes → Option Bytes
sign s = some s

abbrev result : DeploymentResult
result = record {
  deployment_id = codes "d";
  deployed_performer = codes "new";
  deployed_resource = codes "c";
  deployed_endpoint = none;
  deployed_hostname = [];
}

abbrev counting : AvsPerformers ℕ
counting = record {
  new_performer = λ avs. some 0;
  deploy_image = λ p image. (p + 1, ok result);
  remove_by_id = λ p id. (p, true);
  listed = λ p. [];
  rehydrate = λ state. some none;
}

abbrev ctm : ChallengeTokenManager
ctm = record {
  tokens =
      (codes "t", record { token = codes "t"; created_at = 0; expires_at = 9; used = false }) ∷ [];
  authorized_entity = codes "0xa";
  expiration = 9;
}

abbrev old_state : PerformerState
old_state = record {
  performer_id = codes "old";
  avs_address = codes "0xb";
  resource_id = codes "c";
  status = codes "running";
  artifact_registry = [];
  artifact_digest = [];
  artifact_tag = [];
  deployment_mode = codes "docker";
  created_at = 0;
  last_health_check = 0;
  container_healthy = true;
  application_healthy = true;
  network_name = [];
  container_endpoint = [];
  container_hostname = [];
  environment_vars = [];
}

abbrev executor : ExecutorState ℕ PerformerStore
executor = record {
  avs_performers = (codes "0xb", 1) ∷ [];
  states = record { closed = false; performer_states = (codes "old", old_state) ∷ [] };
  auth_verifier = some ctm;
}

abbrev auth : AuthSignature
auth = record { challenge_token = codes "t"; signature = codes "t" }

abbrev request : DeployRequest
request = record {
  auth = some auth;
  avs_address = codes "0xb";
  artifact_digest = codes "sha";
  registry_url = codes "repo";
  env = [];
}

abbrev deployed : ExecutorState ℕ PerformerStore
deployed = (deploy_artifact hash sign counting memory_states [] 1 2 request executor).0

ran :
    deploy_artifact hash sign counting memory_states [] 1 2 request executor
    ≡ (deployed, ok (codes "d"))
unfolding deploy_artifact verify_auth verify_authentication use_challenge_token
    deploy_artifact_authenticated save_performer_state to_lower get put
ran = refl

management_token_once_example :
    (problem : AuthError) × AllRefused hash sign counting memory_states []
      (codes "0xa")
      problem
      auth
      3
      4
      request
      []
      (management_run hash sign counting memory_states []
        (codes "0xa")
        (asks (codes "0xa") (codes "u") 3 ∷ lists none 3 [] ∷ cleans 3 ∷ [])
        deployed)
management_token_once_example =
    management_token_once hash sign counting memory_states [] (codes "0xa") 1 2 request auth ctm
      executor deployed (codes "d")
      (asks (codes "0xa") (codes "u") 3 ∷ lists none 3 [] ∷ cleans 3 ∷ []) refl refl ran
      (λ e. absurd (ground (arith, e)), (tt, (tt, tt))) auth 3 4 request [] refl refl

replaced_stays_listed_example :
    has_listed (codes "old") (
      list_authenticated hash sign counting memory_states []
        (deploy_artifact_authenticated hash sign counting memory_states [] 1 2 request executor).0)
    ≡ true
replaced_stays_listed_example =
    replaced_stays_listed hash sign counting memory_states IsInMemory memory_states-KeepsStates [] 1
      2 request [] 1 2 result (codes "old") old_state executor (refl, unfold get in refl)
      (unfold to_lower in refl) refl (unfold to_lower get in refl) refl
      (λ e. absurd (ground (arith, e)))

abbrev configured : List ConfiguredPerformer
configured =
    record {
      configured_avs = codes "0xc";
      process_type = codes "server";
      configured_mode = [];
      configured_repository = codes "repo";
      configured_tag = [];
      configured_envs = [];
    }
    ∷ []

abbrev started_executor : ExecutorState ℕ PerformerStore
started_executor = record executor {
  avs_performers = put (codes "0xc") 1 executor.avs_performers;
  states = memory_states.save_state executor.states (codes "new") (
      started_state [] 1 2
        (record {
          configured_avs = codes "0xc";
          process_type = codes "server";
          configured_mode = [];
          configured_repository = codes "repo";
          configured_tag = [];
          configured_envs = [];
        })
        result);
}

started :
    initialize_executor counting counting memory_states [] 1 2 configured executor
    ≡ ok started_executor
unfolding initialize_executor initialize_performers initialize_performer deploy_configured
    rehydrate_performers_from_storage rehydrate_state list_performer_states save_performer_state
    to_lower get put
started = refl

initialize_executor-AllServed_example :
    All
      (λ avs. IsServed counting counting memory_states [] 1 2 started_executor avs.configured_avs)
      configured
    × ((address : Bytes) (p : ℕ)
        → get address
            (rehydrate_performers_from_storage counting memory_states executor).avs_performers
          ≡ some p
        → get address started_executor.avs_performers ≡ some p)
initialize_executor-AllServed_example =
    initialize_executor-AllServed counting counting memory_states [] 1 2 configured executor
      started_executor started
