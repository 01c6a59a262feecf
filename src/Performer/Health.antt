-- ===== src/Performer/Health.antt =====
-- containerPerformer.go: the events of a container and the periodic checks of its application.
pub mod Failures
use hourglass_monorepo.Prelude.{
  ℕ, ◌+◌, Bool, true, false, not, ◌&&◌, Option, none, some, List, [], ◌∷◌, ◌++◌, if◌then◌else◌, ltb,
  leb, length,
}
use hourglass_monorepo.Text.{Bytes}
use hourglass_monorepo.Dict.{get, put, nat_eq}
use hourglass_monorepo.Restarts.{
  ContainerEvent, event_started, event_healthy, event_crashed, event_oom_killed, event_restarted,
  event_restart_failed, event_unhealthy, event_restarting, event_stopped,
}
use hourglass_monorepo.Performer.{
  PerformerStatus, performer_healthy, performer_unhealthy, PerformerHealth, PerformerConfig, Ctx,
  Docker, PerformerContainer, Performer, nil_dereference, Outcome, done, failed, Run, ctx_done,
  deref, modify, CurrentSlot, never_stored, nil_stored, stored,
}
use hourglass_monorepo.Performer.Containers.{
  recreate_container, recreate_performer_client_for_container, when_some,
}

-- A send to `statusChan`, of capacity 10, that never blocks.
abbrev pub send_status :
    {A : Type 0} → PerformerStatus → PerformerContainer A → PerformerContainer A
send_status s c =
    if ltb (length c.status_chan) 10
    then record c { status_chan = c.status_chan ++ (s ∷ []) }
    else c

abbrev pub container_up : {A : Type 0} → PerformerContainer A → PerformerContainer A
container_up c = record c {
  performer_health = record (c.performer_health) { container_is_healthy = true };
}

abbrev pub all_down : {A : Type 0} → PerformerContainer A → PerformerContainer A
all_down c = record c {
  performer_health = record (c.performer_health) {
    container_is_healthy = false;
    application_is_healthy = false;
  };
}

-- The health that `EventRestarted` leaves.
abbrev pub health_after_restart : PerformerHealth → PerformerHealth
health_after_restart h = record h {
  container_is_healthy = false;
  application_is_healthy = false;
  consecutive_failures = 0;
}

abbrev pub restarted_health : {A : Type 0} → PerformerContainer A → PerformerContainer A
restarted_health c = record c { performer_health = health_after_restart c.performer_health }

-- The failures that trigger a restart, `maxConsecutiveApplicationHealthFailures`.
abbrev pub max_failures : ℕ
max_failures = 3

-- The health of a container after one check.
unfoldable pub checked_health : Bool → ℕ → PerformerHealth → PerformerHealth
checked_health fine now h =
    if fine
    then record h {
      application_is_healthy = true;
      consecutive_failures = 0;
      last_health_check = now;
    }
    else record h {
      application_is_healthy = false;
      consecutive_failures =
          if leb max_failures (h.consecutive_failures + 1) then 0 else h.consecutive_failures + 1;
      last_health_check = now;
    }

-- Whether a check that gave this triggers a restart.
unfoldable pub restarts_now : Bool → PerformerHealth → Bool
restarts_now fine h = not fine && leb max_failures (h.consecutive_failures + 1)

module _ {M Client : Type 0} (d : Docker M Client) (config : PerformerConfig) where
  -- The switch of `handleContainerEvent`; the events that leave the container healthy return early.
  unfoldable pub handle_container_event :
      Ctx → ℕ → ContainerEvent → ℕ → Performer M Client → Performer M Client
  handle_container_event ctx now event_started r p = modify r container_up p
  handle_container_event ctx now event_healthy r p = modify r container_up p
  handle_container_event ctx now event_crashed r p =
      modify r (λ c. send_status performer_unhealthy (all_down c)) p
  handle_container_event ctx now event_oom_killed r p =
      modify r (λ c. send_status performer_unhealthy (all_down c)) p
  handle_container_event ctx now event_restarted r p =
      let q : Performer M Client = modify r restarted_health p in
      when_some (deref q r)
        (λ c q.
          modify r (send_status performer_unhealthy)
            (recreate_performer_client_for_container d config ctx r c q))
        q
  handle_container_event ctx now (event_restart_failed false) r p =
      modify r (send_status performer_unhealthy) (modify r all_down p)
  handle_container_event ctx now (event_restart_failed true) r p =
      let q : Performer M Client = modify r all_down p in
      when_some (deref q r)
        (λ c q.
          modify r (send_status performer_unhealthy) (recreate_container d config ctx now r c q))
        q
  handle_container_event ctx now event_unhealthy r p =
      modify r (λ c. send_status performer_unhealthy (all_down c)) p
  handle_container_event ctx now event_restarting r p =
      modify r (λ c. send_status performer_unhealthy (all_down c)) p
  handle_container_event ctx now event_stopped r p = modify r (send_status performer_unhealthy) p

  -- What a check does to the container behind a reference, once it has its answer.
  abbrev pub checked : Bool → ℕ → PerformerContainer Client → PerformerContainer Client
  checked fine now c =
      let c' : PerformerContainer Client = record c {
        performer_health = checked_health fine now c.performer_health;
      } in
      if fine
      then send_status performer_healthy (c')
      else if restarts_now fine c.performer_health
      then send_status performer_unhealthy (c')
      else c'

  -- The calls of a check of a container.
  abbrev pub ask_health :
      Ctx → PerformerContainer Client → Performer M Client → Performer M Client × Bool
  ask_health ctx c p =
      let (w, fine) = d.check_health p.world (ctx_done p ctx) c.client in
      (
        record p {
          world = if restarts_now fine c.performer_health then d.request_restart w c.info.id else w;
        },
        fine,
      )

  -- One round of the loop of `performPeriodicApplicationHealthChecks`
  unfoldable pub check_container : Ctx → ℕ → ℕ → Performer M Client → Performer M Client
  check_container ctx now r p =
      when_some (deref p r)
        (λ c q. let (t, fine) = ask_health ctx c q in modify r (checked fine now) t) p

  -- A container that is checked: one that Docker has as healthy.
  abbrev pub checkable : Performer M Client → ℕ → List ℕ
  checkable p r = elim (deref p r) [
    | none ↦ []
    | some c ↦ if c.performer_health.container_is_healthy then r ∷ [] else []
  ]

  abbrev pub staged_checks : Performer M Client → List ℕ
  staged_checks p = elim p.next_container [ none ↦ [] | some r ↦ checkable p r ]

  abbrev pub check_all : Ctx → ℕ → List ℕ → Performer M Client → Performer M Client
  check_all ctx now [] p = p
  check_all ctx now (r ∷ rs) p = check_all ctx now rs (check_container ctx now r p)

  -- `performPeriodicApplicationHealthChecks`; a cleared current slot is a nil pointer that is read.
  unfoldable pub perform_periodic_application_health_checks :
      Ctx → ℕ → Run (Performer M Client) (Unit {0})
  perform_periodic_application_health_checks ctx now p = elim p.current_container [
    | never_stored ↦ (check_all ctx now (staged_checks p) p, done tt)
    | nil_stored ↦ (p, failed nil_dereference)
    | stored r ↦ (check_all ctx now (checkable p r ++ staged_checks p) p, done tt)
  ]
