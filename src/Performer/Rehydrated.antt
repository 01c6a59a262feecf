-- ===== src/Performer/Rehydrated.antt =====
-- containerPerformer.go with dockerManager.go: the restarts of a container that `RehydrateFromState` took
-- over.
use hourglass_monorepo.Prelude.{◌≡◌, ap, false}
use hourglass_monorepo.Restarts.{build_restart_policy}
use hourglass_monorepo.Restarts.Monitors.{Monitor, Attempt}
use hourglass_monorepo.Restarts.Monitors.Limits.{
  Stimulus, respond, has_restart, disabled_never_restarts,
}
use hourglass_monorepo.Performer.{PerformerConfig, Docker}
use hourglass_monorepo.Performer.Deploy.{rehydrated_liveness_config}

module _ {M Client : Type 0} (d : Docker M Client) (config : PerformerConfig) where
  -- A container that was rehydrated is never restarted, under any configuration: whatever happens to it,
  -- a trigger by its performer included, no event says that it restarts, and the count stays.
  pub rehydrated_never_restarts :
      (attempt : Attempt) (s : Stimulus) (m : Monitor)
      → m.policy ≡ (rehydrated_liveness_config d config).restart_policy
      → (has_restart (respond attempt s m).1 ≡ false)
        × ((respond attempt s m).0.restart_count ≡ m.restart_count)
  unfolding rehydrated_liveness_config build_restart_policy
  rehydrated_never_restarts attempt s m policy =
      disabled_never_restarts attempt s m (ap (λ p. p.enabled) policy)
