-- ===== src/Performer/Removed.antt =====
-- containerPerformer.go where a slot was cleared, or a container is gone: a nil pointer in an atomic value,
-- and a recreation in a context that it has ended itself.
use hourglass_monorepo.Prelude.{
  ℕ, ◌≡◌, ◌∙◌, Bool, true, none, some, [], ◌∷◌, arith, inl, inr, Option-cases, nat_beq_iff,
}
use hourglass_monorepo.Text.{Bytes}
use hourglass_monorepo.Dict.{put, nat_eq, get-put_self}
use hourglass_monorepo.Performer.{
  PerformerImage, PerformerConfig, Ctx, ContainerConfig, Docker, PerformerContainer, Performer,
  done, failed, Run-cases, invalid_current, nil_dereference, stored, nil_stored, create_failed,
  deref, modify, ctx_done, performer_unhealthy, cancel,
}
use hourglass_monorepo.Performer.Containers.{
  create_and_start_container, start_container, recreate_container, create_default_container_config,
}
use hourglass_monorepo.Performer.Slots.{
  Creation, create_performer, remove_performer, take_container, list_performers, is_named,
}
use hourglass_monorepo.Restarts.{event_restart_failed}
use hourglass_monorepo.Performer.Health.{
  handle_container_event, send_status, all_down, perform_periodic_application_health_checks,
}
use hourglass_monorepo.Performer.Frames.{create_and_start_container_lem, shutdown_container-Keeps}
use hourglass_monorepo.Performer.Sound.{modify-some}

module _ {M Client : Type 0} (d : Docker M Client) (config : PerformerConfig) where
  removed_clears :
      (over : Bool) (id : Bytes) (r : ℕ) (p : Performer M Client)
      → p.current_container ≡ stored r
      → is_named p id r ≡ true
      → (remove_performer d config over id p).0.current_container ≡ nil_stored
  unfolding remove_performer take_container
  removed_clears over id r p at named = elim (Option-cases (deref p r)) [
    | inl gone ↦ ground (arith, at, named, gone)
    | inr (c, found) ↦
        let q : Performer M Client =
          cancel c.status_cancel (record p { current_container = nil_stored }) in
        ground (arith, at, named, found, (shutdown_container-Keeps d config over c q).same_current)
  ]

  staged_after :
      (ctx : Ctx) (now : ℕ) (image : PerformerImage) (p q : Performer M Client) (created : Creation)
      → create_performer d config ctx now image p ≡ (q, done created)
      → q.current_container ≡ p.current_container
  unfolding create_performer
  staged_after ctx now image p q created h =
      let l = (create_and_start_container_lem d config ctx now image p).0 in
      elim (Run-cases (create_and_start_container d config ctx now image p)) [
        | inl (t, c, e) ↦ ground (arith, e, h, l.same_current)
        | inr (t, error, e) ↦ absurd (ground (arith, e, h))
      ]

  -- Once the performer of the current slot was removed, whatever the removal returned, the next one that
  -- is created ends the program at the first periodic check, and until then it can neither be removed nor
  -- listed.
  pub removed_current_panics :
      (over : Bool) (id : Bytes) (r : ℕ) (p : Performer M Client) (ctx : Ctx) (now : ℕ)
      (image : PerformerImage) (q : Performer M Client) (created : Creation)
      → p.current_container ≡ stored r
      → is_named p id r ≡ true
      → create_performer d config ctx now image (remove_performer d config over id p).0
        ≡ (q, done created)
      → ((check_ctx : Ctx) (later : ℕ)
          → perform_periodic_application_health_checks d config check_ctx later q
            ≡ (q, failed nil_dereference))
        × ((over' : Bool) (any_id : Bytes)
            → remove_performer d config over' any_id q ≡ (q, failed invalid_current))
        × (list_performers config.avs_address q ≡ [])
  unfolding perform_periodic_application_health_checks remove_performer take_container
      list_performers
  removed_current_panics over id r p ctx now image q created at named made =
      let cleared : q.current_container ≡ nil_stored =
        staged_after ctx now image _ q created made ∙ removed_clears over id r p at named in
      (
        λ check_ctx later. ground (arith, cleared),
        λ over' any_id. ground (arith, cleared),
        ground (arith, cleared),
      )

  -- A creation in a context that is done, where Docker refuses such a call.
  done_fails :
      (ctx : Ctx) (now : ℕ) (image : PerformerImage) (p : Performer M Client)
      → ((w : M) (c : ContainerConfig) → (d.create w true c).1 ≡ none)
      → ctx_done p ctx ≡ true
      → (w : M) × (create_and_start_container d config ctx now image p
          ≡ (record p { world = w }, failed create_failed))
  unfolding create_and_start_container start_container
  done_fails ctx now image p refuses over = (
    (d.create p.world true (create_default_container_config d config p.world image)).0,
    ground (arith, over, refuses p.world (create_default_container_config d config p.world image)),
  )

  -- An event that asks for the recreation of a container, taken by the goroutine that monitors it:
  -- where Docker refuses to create in a context that is done, the container stays the one that was lost,
  -- and the context of the goroutine has ended.
  pub recreation_never_succeeds :
      (now r : ℕ) (c : PerformerContainer Client) (rest : Ctx) (p : Performer M Client)
      → ((w : M) (config : ContainerConfig) → (d.create w true config).1 ≡ none)
      → deref p r ≡ some c
      → c.status_context ≡ c.status_cancel ∷ rest
      → (deref
            (handle_container_event d config c.status_context now (event_restart_failed true) r p)
            r
          ≡ some (send_status performer_unhealthy (all_down c)))
        × (ctx_done
              (handle_container_event d config c.status_context now (event_restart_failed true) r p)
              c.status_context
            ≡ true)
  unfolding handle_container_event recreate_container
  recreation_never_succeeds now r c rest p refuses found context =
      let q : Performer M Client = record p { containers = put r (all_down c) p.containers } in
      let down : modify r all_down p ≡ q = modify-some r all_down p c found in
      let there : deref q r ≡ some (all_down c) = get-put_self r (all_down c) p.containers in
      let t : Performer M Client =
        cancel c.status_cancel
          (record q { world = d.stop_liveness_monitoring q.world c.info.id }) in
      let over : ctx_done t c.status_context ≡ true =
        rw context (ground (arith, nat_beq_iff c.status_cancel c.status_cancel)) in
      let f = done_fails c.status_context now c.container_image t refuses over in
      let ended =
        modify-some r (send_status performer_unhealthy) (record t { world = f.0 }) (all_down c)
          there in
      rw (down, there, f.1, ended)
        (get-put_self r (send_status performer_unhealthy (all_down c)) q.containers, over)
