-- ===== src/Performer/Deployed.antt =====
-- containerPerformer.go: what `Deploy` leaves behind when it succeeds.
pub mod Parts
pub mod Calm
use hourglass_monorepo.Prelude.{
  ℕ, ◌+◌, ◌≤◌, ◌≡◌, ◌≢◌, refl, ap, ◌∙◌, sym, Bool, true, false, Option, none, some, List, [], ◌∷◌,
  arith, inl, inr, Option-cases, Bool-cases, nat_beq, nat_beq_iff, if◌then◌else◌,
}
use hourglass_monorepo.Text.{Bytes, bytes_beq, bytes_beq_iff, bytes_beq-false}
use hourglass_monorepo.Dict.{get, put, nat_eq, bytes_eq, get-put_self, get-put}
use hourglass_monorepo.Performer.{
  PerformerImage, PerformerConfig, Ctx, Docker, PerformerContainer, Performer, Outcome, done,
  failed, Run-cases, Outcome-cases, CurrentSlot, never_stored, nil_stored, stored, deref, modify,
  ctx_done, is_done, cancel, staged, in_service,
}
use hourglass_monorepo.Performer.Containers.{create_and_start_container, performer_name}
use hourglass_monorepo.Performer.Slots.{
  Creation, create_performer, promote_performer, is_named, is_current, is_healthy, next_named,
  promoted, drain_current, start_drain_and_remove,
}
use hourglass_monorepo.Performer.Deploy.{
  Waiting, wait_for_healthy, DeploymentResult, await_and_promote, deploy_locked, deploy,
}
use hourglass_monorepo.Performer.Frames.{Extends, Started, create_and_start_container_lem}
use hourglass_monorepo.Performer.Sound.{IsSound, modify-some}
use hourglass_monorepo.Performer.Deployed.Parts.{
  IsCalm, Promoted, promote_performer-Promoted, promoted_there, Created, create_performer-Created,
  HasFreshIds, old_there, new_one,
}

module _ {M Client : Type 0} (d : Docker M Client) (config : PerformerConfig) where
  -- What a successful deployment leaves: the container of the result in service in the current slot, the
  -- next slot empty, and the context that ends it.
  pub record IsDeployed (p : Performer M Client) (result : DeploymentResult) : Type 0 where
    pub r : ℕ
    pub c : PerformerContainer Client
    pub is_current_one : p.current_container ≡ stored r
    pub is_there : deref p r ≡ some c
    pub is_named_so : c.performer_id ≡ result.deployed_performer
    pub in_service_now : c.status ≡ in_service
    pub was_healthy : is_healthy c ≡ true
    pub next_empty : p.next_container ≡ none
    pub unlocked : p.deploying ≡ false
    pub monitor_over : ctx_done p c.status_context ≡ true

  ended :
      (dep c : ℕ) (ctx : Ctx) (cancelled : List ℕ) (context : Ctx)
      → context ≡ c ∷ dep ∷ ctx
      → is_done (dep ∷ cancelled) context ≡ true
  ended dep c ctx cancelled context e = rw e (ground (arith, nat_beq_iff dep dep))

  moved-IsDeployed :
      (dep : ℕ) (ctx : Ctx) (image : PerformerImage) (p q q1 q2 : Performer M Client)
      (created : Creation) (result : DeploymentResult)
      → Created d config (dep ∷ ctx) image p q created
      → IsCalm q q1
      → Promoted created.performer_id q1 q2
      → result.deployed_performer ≡ created.performer_id
      → IsDeployed (record (cancel dep q2) { deploying = false }) result
  moved-IsDeployed dep ctx image p q q1 q2 created result k calm pr named =
      let r : ℕ = k.t.counter in
      let fresh : PerformerContainer Client = record k.c { status = staged } in
      let there : deref q r ≡ some fresh =
        ap (λ x. deref x r) k.is_created ∙ get-put_self r fresh k.t.containers in
      let b = calm.same_containers r fresh there in
      let same : pr.r ≡ r =
        ground (arith, pr.was_next, calm.same_next, ap (λ x. x.next_container) k.is_created) in
      let seen : deref q1 pr.r ≡ some b.0 = ap (λ i. deref q1 i) same ∙ b.1 in
      let c_same : pr.c ≡ b.0 = ground (arith, pr.was_there, seen) in
      let end : deref q2 pr.r ≡ some (record b.0 { status = in_service }) =
        ap (λ x. deref x pr.r) pr.is_promoted ∙ promoted_there pr.r q1 b.0 seen in
      record {
        r = pr.r;
        c = record b.0 { status = in_service };
        is_current_one = ap (λ x. x.current_container) pr.is_promoted;
        is_there = end;
        is_named_so = b.2 ∙ sym k.is_named_so ∙ sym named;
        in_service_now = refl;
        was_healthy = ap is_healthy (sym c_same) ∙ pr.was_healthy;
        next_empty = ap (λ x. x.next_container) pr.is_promoted;
        unlocked = refl;
        monitor_over =
            ended dep k.c.status_cancel ctx q2.cancelled b.0.status_context
              (b.3 ∙ k.started.in_context);
      }

  -- The parts of a deployment that succeeded.
  record Succeeded (ctx : Ctx) (image : PerformerImage) (waiting : Waiting M Client)
      (p t : Performer M Client) (result : DeploymentResult) : Type 0 where
    q : Performer M Client
    q2 : Performer M Client
    created : Creation
    u : Unit {0}
    now : ℕ
    made :
        create_performer d config
          ((p.counter + 1) ∷ ctx)
          now
          image
          (record p { deploying = true; counter = p.counter + 2 })
        ≡ (q, done created)
    moved : promote_performer created.performer_id (waiting.meanwhile q) ≡ (q2, done u)
    named : result.deployed_performer ≡ created.performer_id
    left : t ≡ record (cancel (p.counter + 1) q2) { deploying = false }

  deploy-Succeeded :
      (ctx : Ctx) (now : ℕ) (image : PerformerImage) (waiting : Waiting M Client)
      (p t : Performer M Client) (result : DeploymentResult)
      → deploy d config ctx now image waiting p ≡ (t, done result)
      → Succeeded ctx image waiting p t result
  unfolding deploy deploy_locked await_and_promote
  deploy-Succeeded ctx now image waiting p t result h = elim (Bool-cases p.deploying) [
    | inl held ↦ absurd (ground (arith, held, h))
    | inr free ↦
        elim (Run-cases (
          create_performer d config ((p.counter + 1) ∷ ctx) now image
            (record p { deploying = true; counter = p.counter + 2 }))) [
              | inr (q, error, e) ↦ absurd (ground (arith, free, e, h))
              | inl (q, created, e) ↦
                  elim (Outcome-cases (wait_for_healthy waiting.statuses waiting.wait_end)) [
                    | inr (error, w) ↦ absurd (ground (arith, free, e, w, h))
                    | inl (u', w) ↦
                        elim (Run-cases
                          (promote_performer created.performer_id (waiting.meanwhile q))) [
                            | inr (q2, error, m) ↦ absurd (ground (arith, free, e, w, m, h))
                            | inl (q2, u, m) ↦ record {
                              q = q;
                              q2 = q2;
                              created = created;
                              u = u;
                              now = now;
                              made = e;
                              moved = m;
                              named = ground (arith, free, e, w, m, h);
                              left = ground (arith, free, e, w, m, h);
                            }
                          ]
                  ]
            ]
  ]

  start_draining :
      (p : Performer M Client) (c : PerformerContainer Client)
      → get c.performer_id (start_drain_and_remove c p).draining_performers ≡ some tt
  unfolding start_drain_and_remove
  start_draining p c = elim (Option-cases (get c.performer_id p.draining_performers)) [
    | inl e ↦ ground (arith, e, get-put_self c.performer_id tt p.draining_performers)
    | inr (u, e) ↦ ground (arith, e)
  ]

  drains_old :
      (r next : ℕ) (p : Performer M Client) (c : PerformerContainer Client)
      → p.current_container ≡ stored r
      → deref p r ≡ some c
      → get c.performer_id (promoted next p).draining_performers ≡ some tt
  unfolding modify
  drains_old r next p c e f =
      let t : Performer M Client = drain_current p.current_container p in
      let drains : t ≡ start_drain_and_remove c p = ground (arith, e, f) in
      let kept : (promoted next p).draining_performers ≡ t.draining_performers = ground arith in
      ap (get c.performer_id) (kept ∙ ap (λ x. x.draining_performers) drains) ∙ start_draining p c

  -- A deployment that succeeds, over a performer whose slots are sound and whose ids to come are new, while
  -- other goroutines leave the slots alone: the container of the result was healthy and is in service in
  -- the current slot, the next slot is empty, the lock is free, the performer that was current drains,
  -- and the context in which the new container is monitored has ended.
  pub deploy-IsDeployed :
      (ctx : Ctx) (now : ℕ) (image : PerformerImage) (waiting : Waiting M Client)
      (p t : Performer M Client) (result : DeploymentResult)
      → IsSound p
      → HasFreshIds d config p
      → ((q : Performer M Client) → IsCalm q (waiting.meanwhile q))
      → deploy d config ctx now image waiting p ≡ (t, done result)
      → IsDeployed t result
        × ((r : ℕ) (c : PerformerContainer Client)
            → p.current_container ≡ stored r
            → deref p r ≡ some c
            → get c.performer_id t.draining_performers ≡ some tt)
  deploy-IsDeployed ctx now image waiting p t result s ids calm h =
      let w = deploy-Succeeded ctx now image waiting p t result h in
      let p0 : Performer M Client = record p { deploying = true; counter = p.counter + 2 } in
      let q1 : Performer M Client = waiting.meanwhile w.q in
      let s0 : IsSound p0 = record {
        fresh_above = λ r b. s.fresh_above r (omega (arith, b));
        current_live = s.current_live;
        next_live = s.next_live;
        apart = s.apart;
      } in
      let ids0 : HasFreshIds d config p0 = λ r c n e b. ids r c n e (omega (arith, b)) in
      let k : Created d config ((p.counter + 1) ∷ ctx) image p0 w.q w.created =
        create_performer-Created d config ((p.counter + 1) ∷ ctx) w.now image p0 w.q w.created
          w.made in
      let slot : q1.current_container ≡ p.current_container =
        (calm w.q).same_current
        ∙ ap (λ x. x.current_container) k.is_created
        ∙ k.extends.same_current in
      let new : is_current q1 w.created.performer_id q1.current_container ≡ false =
        ap (is_current q1 w.created.performer_id) slot
        ∙ new_one d config ((p.counter + 1) ∷ ctx) image p0 w.q q1 w.created p.current_container s0
            ids0 k (calm w.q) refl in
      let pr = promote_performer-Promoted w.created.performer_id q1 w.q2 w.u new w.moved in
      (
        rw w.left (
            moved-IsDeployed (p.counter + 1) ctx image p0 w.q q1 w.q2 w.created result k (calm w.q)
              pr w.named),
        λ r c at there.
            let b =
              (calm w.q).same_containers r c (
                old_there d config ((p.counter + 1) ∷ ctx) image p0 w.q w.created s0 k r c there) in
            ap (λ x. get c.performer_id x.draining_performers) w.left
            ∙ ap (λ x. get c.performer_id x.draining_performers) pr.is_promoted
            ∙ ap (λ i. get i (promoted pr.r q1).draining_performers) (sym b.2)
            ∙ drains_old r pr.r q1 b.0 (slot ∙ at) b.1,
      )
