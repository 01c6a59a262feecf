-- ===== src/Performer/Frames.antt =====
-- What the methods leave alone: creation, shutdown and the calls of Docker change neither the slots
-- nor the containers that there are, and only draw fresh numbers and cancel contexts.
use hourglass_monorepo.Prelude.{
  ℕ, ◌≡◌, ◌≤◌, ◌∙◌, Bool, false, arith, inl, inr, ◌+◌, ◌∷◌, Bool-cases,
}
use hourglass_monorepo.Restarts.{default_liveness_config}
use hourglass_monorepo.Performer.{
  PerformerImage, PerformerConfig, Ctx, Docker, PerformerContainer, Performer, done, Run, Run-cases,
  ctx_done,
}
use hourglass_monorepo.Performer.Containers.{
  cleanup_failed_container, performer_name, start_container, create_and_start_container,
  shutdown_container, recreated_client,
}

module _ {M Client : Type 0} where
  -- What a change left alone.
  pub record Extends (p q : Performer M Client) : Type 0 where
    pub same_containers : q.containers ≡ p.containers
    pub same_current : q.current_container ≡ p.current_container
    pub same_next : q.next_container ≡ p.next_container
    pub same_groups : q.task_wait_groups ≡ p.task_wait_groups
    pub same_counts : q.group_counts ≡ p.group_counts
    pub same_draining : q.draining_performers ≡ p.draining_performers
    pub same_lock : q.deploying ≡ p.deploying
    pub counts_up : p.counter ≤ q.counter

  pub Extends-trans : {p q r : Performer M Client} → Extends p q → Extends q r → Extends p r
  Extends-trans a b = record {
    same_containers = b.same_containers ∙ a.same_containers;
    same_current = b.same_current ∙ a.same_current;
    same_next = b.same_next ∙ a.same_next;
    same_groups = b.same_groups ∙ a.same_groups;
    same_counts = b.same_counts ∙ a.same_counts;
    same_draining = b.same_draining ∙ a.same_draining;
    same_lock = b.same_lock ∙ a.same_lock;
    counts_up = omega (arith, a.counts_up, b.counts_up);
  }

  -- A call that changes no more, whatever it returns.
  abbrev pub Keeps : {A : Type 0} → Run (Performer M Client) A → Type 0
  Keeps m = (p : Performer M Client) → Extends p (m p).0

  module _ (d : Docker M Client) (config : PerformerConfig) where
    pub start_container-Keeps :
        (ctx : Ctx) (image : PerformerImage) → Keeps (start_container d config ctx image)
    unfolding start_container cleanup_failed_container
    start_container-Keeps ctx image p = ground arith

    pub shutdown_container-Keeps :
        (over : Bool) (c : PerformerContainer Client) → Keeps (shutdown_container d config over c)
    unfolding shutdown_container
    shutdown_container-Keeps over c p = ground arith

    pub recreated_client-Keeps :
        (ctx : Ctx) (c : PerformerContainer Client) → Keeps (recreated_client d config ctx c)
    unfolding recreated_client
    recreated_client-Keeps ctx c p = ground arith

    -- What a successful creation gives: a container with a fresh id, whose context ends with the one it
    -- was created in, and whose application is not known to be healthy.
    pub record Started (ctx : Ctx) (image : PerformerImage) (p q : Performer M Client)
        (c : PerformerContainer Client) : Type 0 where
      pub draw : ℕ
      pub drawn_after : p.counter ≤ draw
      pub named : c.performer_id ≡ performer_name d config draw
      pub in_context : c.status_context ≡ c.status_cancel ∷ ctx
      pub not_yet_healthy : c.performer_health.application_is_healthy ≡ false
      pub of_image : c.container_image ≡ image

    -- The creation extends the performer, and a container that it returns is `Started`.
    pub create_and_start_container_lem :
        (ctx : Ctx) (now : ℕ) (image : PerformerImage) (p : Performer M Client)
        → Extends p (create_and_start_container d config ctx now image p).0
          × ((q : Performer M Client) (c : PerformerContainer Client)
              → create_and_start_container d config ctx now image p ≡ (q, done c)
              → Started ctx image p q c)
    unfolding create_and_start_container cleanup_failed_container
    create_and_start_container_lem ctx now image p =
        let k : Extends p (start_container d config ctx image p).0 =
          start_container-Keeps ctx image p in
        elim (Run-cases (start_container d config ctx image p)) [
          | inl (q, started, e) ↦
              let k' : Extends p q = ground (arith, k, e) in
              elim (Bool-cases
                (d.start_liveness_monitoring q.world (ctx_done p ctx) started.0.id
                  default_liveness_config).1) [
                    | inl fine ↦ (
                      ground (arith, k', e, fine),
                      λ q' c h. record {
                        draw = q.counter + 1;
                        drawn_after = ground (arith, k');
                        named = ground (arith, e, fine, h);
                        in_context = ground (arith, e, fine, h);
                        not_yet_healthy = ground (arith, e, fine, h);
                        of_image = ground (arith, e, fine, h);
                      },
                    )
                    | inr bad ↦
                        (ground (arith, k', e, bad), λ q' c h. absurd (ground (arith, e, bad, h)))
                  ]
          | inr (q, error, e) ↦ (ground (arith, k, e), λ q' c h. absurd (ground (arith, e, h)))
        ]
