-- ===== src/Performer/Deployed/Parts.antt =====
-- containerPerformer.go: a creation and a promotion that succeed, the parts of `Deploy`.
use hourglass_monorepo.Prelude.{
  ℕ, ◌+◌, ◌≤◌, ◌≡◌, ◌≢◌, refl, ap, ◌∙◌, sym, true, false, some, arith, inl, inr, Option-cases,
  Bool-cases, nat_beq, nat_beq_iff, if◌then◌else◌,
}
use hourglass_monorepo.Text.{Bytes, bytes_beq-false}
use hourglass_monorepo.Dict.{get, put, nat_eq, bytes_eq, get-put_self, get-put}
use hourglass_monorepo.Performer.{
  PerformerImage, PerformerConfig, Ctx, Docker, PerformerContainer, Performer, done, Run-cases,
  CurrentSlot, never_stored, nil_stored, stored, deref, staged, in_service,
}
use hourglass_monorepo.Performer.Containers.{create_and_start_container, performer_name}
use hourglass_monorepo.Performer.Slots.{
  Creation, create_performer, promote_performer, is_current, is_healthy, next_named, promoted,
  drain_current, start_drain_and_remove,
}
use hourglass_monorepo.Performer.Frames.{Extends, Started, create_and_start_container_lem}
use hourglass_monorepo.Performer.Sound.{IsSound, modify-some}

module _ {M Client : Type 0} where
  -- Other goroutines that leave the slots alone, and keep the id and the context of each container, as
  -- tasks, periodic checks and all events but a recreation do.
  pub record IsCalm (p q : Performer M Client) : Type 0 where
    pub same_current : q.current_container ≡ p.current_container
    pub same_next : q.next_container ≡ p.next_container
    pub same_containers :
        (r : ℕ) (c : PerformerContainer Client)
        → deref p r ≡ some c
        → (c' : PerformerContainer Client) × (deref q r ≡ some c')
          × (c'.performer_id ≡ c.performer_id)
          × (c'.status_context ≡ c.status_context)

  -- A promotion that succeeded and was no repetition.
  pub record Promoted (id : Bytes) (p q : Performer M Client) : Type 0 where
    pub r : ℕ
    pub c : PerformerContainer Client
    pub was_next : p.next_container ≡ some r
    pub was_there : deref p r ≡ some c
    pub was_healthy : is_healthy c ≡ true
    pub is_promoted : q ≡ promoted r p

  pub promote_performer-Promoted :
      (id : Bytes) (p q : Performer M Client) (u : Unit {0})
      → is_current p id p.current_container ≡ false
      → promote_performer id p ≡ (q, done u)
      → Promoted id p q
  unfolding promote_performer
  promote_performer-Promoted id p q u new h = elim (Option-cases (next_named p id)) [
    | inl n ↦ absurd (ground (arith, new, n, h))
    | inr (r, n) ↦ elim (Option-cases (deref p r)) [
      | inl f ↦ absurd (ground (arith, new, n, f, h))
      | inr (c, f) ↦ elim (Bool-cases (is_healthy c)) [
        | inr b ↦ absurd (ground (arith, new, n, f, b, h))
        | inl b ↦ record {
          r = r;
          c = c;
          was_next = ground (arith, n);
          was_there = f;
          was_healthy = b;
          is_promoted = ground (arith, new, n, f, b, h);
        }
      ]
    ]
  ]

  pub drained_containers :
      (slot : CurrentSlot) (p : Performer M Client)
      → (drain_current slot p).containers ≡ p.containers
  unfolding start_drain_and_remove
  drained_containers slot p = ground arith

  -- The container of a promotion, afterwards.
  pub promoted_there :
      (r : ℕ) (p : Performer M Client) (c : PerformerContainer Client)
      → deref p r ≡ some c
      → deref (promoted r p) r ≡ some (record c { status = in_service })
  promoted_there r p c e =
      let t : Performer M Client = drain_current p.current_container p in
      let there : deref t r ≡ some c = ap (get r) (drained_containers p.current_container p) ∙ e in
      ap (λ q. deref q r) (modify-some r (λ c. record c { status = in_service }) t c there)
      ∙ get-put_self r (record c { status = in_service }) t.containers

module _ {M Client : Type 0} (d : Docker M Client) (config : PerformerConfig) where
  -- A creation that succeeded.
  pub record Created (ctx : Ctx) (image : PerformerImage) (p q : Performer M Client)
      (created : Creation) : Type 0 where
    pub t : Performer M Client
    pub c : PerformerContainer Client
    pub extends : Extends p t
    pub started : Started d config ctx image p t c
    pub is_named_so : created.performer_id ≡ c.performer_id
    pub is_created : q ≡ record t {
      counter = t.counter + 1;
      containers = put t.counter (record c { status = staged }) t.containers;
      next_container = some t.counter;
    }

  pub create_performer-Created :
      (ctx : Ctx) (now : ℕ) (image : PerformerImage) (p q : Performer M Client) (created : Creation)
      → create_performer d config ctx now image p ≡ (q, done created)
      → Created ctx image p q created
  unfolding create_performer
  create_performer-Created ctx now image p q created h =
      let l = create_and_start_container_lem d config ctx now image p in
      elim (Run-cases (create_and_start_container d config ctx now image p)) [
        | inl (t, c, e) ↦ record {
          t = t;
          c = c;
          extends = rw (← (ap (λ x. x.0) e)) l.0;
          started = l.1 t c e;
          is_named_so = ground (arith, e, h);
          is_created = ground (arith, e, h);
        }
        | inr (t, error, e) ↦ absurd (ground (arith, e, h))
      ]

  -- No container has an id that is still to be drawn.
  abbrev pub HasFreshIds : Performer M Client → Type 0
  HasFreshIds p =
      (r : ℕ) (c : PerformerContainer Client) (n : ℕ)
      → deref p r ≡ some c
      → p.counter ≤ n
      → c.performer_id ≢ performer_name d config n

  -- The container of the current slot, before and after a creation.
  pub old_there :
      (ctx : Ctx) (image : PerformerImage) (p q : Performer M Client) (created : Creation)
      → IsSound p
      → Created ctx image p q created
      → (r : ℕ) (c : PerformerContainer Client) → deref p r ≡ some c
      → deref q r ≡ some c
  old_there ctx image p q created s k r c e =
      let at : deref q r ≡ (
          if nat_beq k.t.counter r
          then some (record k.c { status = staged })
          else get r k.t.containers) =
        ap (λ x. deref x r) k.is_created
        ∙ get-put k.t.counter r (record k.c { status = staged }) k.t.containers in
      elim (Bool-cases (nat_beq k.t.counter r)) [
        | inl same ↦ absurd (
            ground (
              arith,
              ap (λ i. get i p.containers) ((nat_beq_iff k.t.counter r).0 same),
              s.fresh_above k.t.counter k.extends.counts_up,
              e,
            ))
        | inr other ↦ at ∙ rw other (ap (get r) k.extends.same_containers ∙ e)
      ]

  pub new_one :
      (ctx : Ctx) (image : PerformerImage) (p q q1 : Performer M Client) (created : Creation)
      (slot : CurrentSlot)
      → IsSound p
      → HasFreshIds p
      → Created ctx image p q created
      → IsCalm q q1
      → p.current_container ≡ slot
      → is_current q1 created.performer_id slot ≡ false
  new_one ctx image p q q1 created never_stored s ids k calm e = refl
  new_one ctx image p q q1 created nil_stored s ids k calm e = refl
  new_one ctx image p q q1 created (stored r) s ids k calm e =
      let l = s.current_live r e in
      let b = calm.same_containers r l.0 (old_there ctx image p q created s k r l.0 l.1) in
      let other = bytes_beq-false b.0.performer_id created.performer_id (λ h.
        ids r l.0 k.started.draw l.1 k.started.drawn_after
          (sym b.2 ∙ h ∙ k.is_named_so ∙ k.started.named)) in
      ground (arith, b.1, other)
