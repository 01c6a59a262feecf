-- ===== src/Performer/Steps.antt =====
-- containerPerformer.go: every method and goroutine as a step, and what the steps keep.
use hourglass_monorepo.Prelude.{
  ℕ, refl, Bool, true, false, Option, none, some, arith, inl, inr, List, [], ◌∷◌, Option-cases,
}
use hourglass_monorepo.Text.{Bytes}
use hourglass_monorepo.Dict.{nat_eq, bytes_eq}
use hourglass_monorepo.Performer.{
  PerformerConfig, Ctx, Docker, PerformerContainer, Performer, Outcome, done, failed, deref, modify,
  cancel,
}
use hourglass_monorepo.Performer.Containers.{
  create_and_start_container, recreate_container, recreate_performer_client_for_container,
  recreated_client, shutdown_container, or_logged, when_some, replaced_by, with_client,
}
use hourglass_monorepo.Performer.Slots.{
  begin_task, end_task, finish_drain, tasks_ended, cleanup_task_wait_group, shutdown_slot,
}
use hourglass_monorepo.Restarts.{
  ContainerEvent, event_started, event_healthy, event_crashed, event_oom_killed, event_restarted,
  event_restart_failed, event_unhealthy, event_restarting, event_stopped,
}
use hourglass_monorepo.Performer.Health.{
  handle_container_event, check_container, check_all, checked, ask_health, restarted_health,
  all_down,
}
use hourglass_monorepo.Performer.Frames.{
  Extends, create_and_start_container_lem, recreated_client-Keeps, shutdown_container-Keeps,
}
use hourglass_monorepo.Performer.Sound.{Stays, Stays-trans, Extends-Stays, modify-Stays, same-Grows}

module _ {M Client : Type 0} (d : Docker M Client) (config : PerformerConfig) where
  or_logged-Stays :
      {A : Type 0} (p q : Performer M Client) (o : Outcome A)
      (f : A → Performer M Client → Performer M Client)
      → Stays p q
      → ((a : A) → Stays q (f a q))
      → Stays p (or_logged o f q)
  or_logged-Stays p q (done a) f h hf = Stays-trans h (hf a)
  or_logged-Stays p q (failed e) f h hf = h

  recreate_container-Stays :
      (ctx : Ctx) (now r : ℕ) (c : PerformerContainer Client) (p : Performer M Client)
      → Stays p (recreate_container d config ctx now r c p)
  unfolding recreate_container
  recreate_container-Stays ctx now r c p =
      let q : Performer M Client =
        cancel c.status_cancel
          (record p { world = d.stop_liveness_monitoring p.world c.info.id }) in
      let here : Extends p q = ground arith in
      or_logged-Stays p _ (create_and_start_container d config ctx now c.container_image q).1
        (λ n. modify r (replaced_by n))
        (Stays-trans (Extends-Stays here)
          (Extends-Stays (create_and_start_container_lem d config ctx now c.container_image q).0))
        (λ n. modify-Stays r (replaced_by n) _)

  recreate_client-Stays :
      (ctx : Ctx) (r : ℕ) (c : PerformerContainer Client) (p : Performer M Client)
      → Stays p (recreate_performer_client_for_container d config ctx r c p)
  unfolding recreate_performer_client_for_container
  recreate_client-Stays ctx r c p =
      or_logged-Stays p _ (recreated_client d config ctx c p).1
        (λ client. modify r (with_client client))
        (Extends-Stays (recreated_client-Keeps d config ctx c p))
        (λ client. modify-Stays r (with_client client) _)

  -- A container that is looked up, or nothing.
  found-Stays :
      (p q : Performer M Client) (o : Option (PerformerContainer Client))
      (f : PerformerContainer Client → Performer M Client → Performer M Client)
      → Stays p q
      → ((c : PerformerContainer Client) → Stays q (f c q))
      → Stays p (when_some o f q)
  found-Stays p q none f h hf = h
  found-Stays p q (some c) f h hf = Stays-trans h (hf c)

  pub refl-Stays : (p : Performer M Client) → Stays p p
  refl-Stays p = record {
    grows = same-Grows refl (omega arith);
    current_same = refl;
    next_same = refl;
  }

  pub handle_container_event-Stays :
      (ctx : Ctx) (now : ℕ) (event : ContainerEvent) (r : ℕ) (p : Performer M Client)
      → Stays p (handle_container_event d config ctx now event r p)
  unfolding handle_container_event
  handle_container_event-Stays ctx now event_started r p = modify-Stays r _ p
  handle_container_event-Stays ctx now event_healthy r p = modify-Stays r _ p
  handle_container_event-Stays ctx now event_crashed r p = modify-Stays r _ p
  handle_container_event-Stays ctx now event_oom_killed r p = modify-Stays r _ p
  handle_container_event-Stays ctx now event_restarted r p =
      let q : Performer M Client = modify r restarted_health p in
      found-Stays p q (deref q r) _ (modify-Stays r restarted_health p)
        (λ c. Stays-trans (recreate_client-Stays ctx r c q) (modify-Stays r _ _))
  handle_container_event-Stays ctx now (event_restart_failed false) r p =
      Stays-trans (modify-Stays r all_down p) (modify-Stays r _ _)
  handle_container_event-Stays ctx now (event_restart_failed true) r p =
      let q : Performer M Client = modify r all_down p in
      found-Stays p q (deref q r) _ (modify-Stays r all_down p)
        (λ c. Stays-trans (recreate_container-Stays ctx now r c q) (modify-Stays r _ _))
  handle_container_event-Stays ctx now event_unhealthy r p = modify-Stays r _ p
  handle_container_event-Stays ctx now event_restarting r p = modify-Stays r _ p
  handle_container_event-Stays ctx now event_stopped r p = modify-Stays r _ p

  asked :
      (ctx : Ctx) (c : PerformerContainer Client) (p : Performer M Client)
      → Extends p (ask_health d config ctx c p).0
  asked ctx c p = ground arith

  check_container-Stays :
      (ctx : Ctx) (now r : ℕ) (p : Performer M Client)
      → Stays p (check_container d config ctx now r p)
  unfolding check_container
  check_container-Stays ctx now r p = found-Stays p p (deref p r) _ (refl-Stays p) (λ c.
      Stays-trans (Extends-Stays (asked ctx c p))
        (modify-Stays r (checked d config (ask_health d config ctx c p).1 now) _))

  pub check_all-Stays :
      (ctx : Ctx) (now : ℕ) (rs : List ℕ) (p : Performer M Client)
      → Stays p (check_all d config ctx now rs p)
  check_all-Stays ctx now [] p = refl-Stays p
  check_all-Stays ctx now (r ∷ rs) p =
      Stays-trans (check_container-Stays ctx now r p)
        (check_all-Stays ctx now rs (check_container d config ctx now r p))

  pub begin_task-Stays : (p : Performer M Client) → Stays p (begin_task d config p).0
  unfolding begin_task
  begin_task-Stays p = record {
    grows = same-Grows (ground arith) (ground arith);
    current_same = ground arith;
    next_same = ground arith;
  }

  pub end_task-Stays : (g : ℕ) (p : Performer M Client) → Stays p (end_task d config g p)
  unfolding end_task
  end_task-Stays g p = record {
    grows = same-Grows (ground arith) (ground arith);
    current_same = ground arith;
    next_same = ground arith;
  }

  tasks_ended-Stays : (id : Bytes) (p : Performer M Client) → Stays p (tasks_ended id p)
  tasks_ended-Stays id p = record {
    grows = same-Grows (ground arith) (ground arith);
    current_same = ground arith;
    next_same = ground arith;
  }

  -- The shutdown of a container after its tasks.
  shut-Stays :
      (over : Bool) (c : PerformerContainer Client) (id : Bytes) (p : Performer M Client)
      → Stays p (shutdown_container d config over c (tasks_ended id p)).0
  shut-Stays over c id p =
      Stays-trans (tasks_ended-Stays id p)
        (Extends-Stays (shutdown_container-Keeps d config over c (tasks_ended id p)))

  pub finish_drain-Stays : (r : ℕ) (p : Performer M Client) → Stays p (finish_drain d config r p)
  unfolding finish_drain cleanup_task_wait_group
  finish_drain-Stays r p = found-Stays p p (deref p r) _ (refl-Stays p) (λ c.
      Stays-trans (shut-Stays false c c.performer_id p)
        (record { grows = same-Grows refl (omega arith); current_same = refl; next_same = refl }))

  pub shutdown_slot-Stays :
      (r : ℕ) (p : Performer M Client) → Stays p (shutdown_slot d config r p).0
  unfolding shutdown_slot cleanup_task_wait_group
  shutdown_slot-Stays r p = elim (Option-cases (deref p r)) [
    | inl e ↦ rw (e, shutdown_slot) (refl-Stays p)
    | inr (c, e) ↦
        rw (e, shutdown_slot)
          (Stays-trans (shut-Stays false c c.performer_id p) (record {
            grows = same-Grows refl (omega arith);
            current_same = refl;
            next_same = refl;
          }))
  ]
