-- ===== src/Performer/Invariant.antt =====
-- containerPerformer.go: the methods that change a slot keep the slots sound.
pub mod Reach
use hourglass_monorepo.Prelude.{
  ℕ, ◌+◌, ◌≡◌, ◌≤◌, ◌⊎◌, refl, ap, sym, ◌∙◌, Bool, true, false, Option, none, some, arith, inl, inr,
  List, [], ◌∷◌, Option-cases, Bool-cases, nat_beq, nat_beq_iff, if◌then◌else◌, ◌++◌, not_empty,
}
use hourglass_monorepo.Text.{Bytes}
use hourglass_monorepo.Dict.{get, put, nat_eq, get-put, get-put_self, bytes_eq, remove}
use hourglass_monorepo.Executor.Stores.{PerformerState}
use hourglass_monorepo.Performer.{
  PerformerImage, PerformerConfig, Ctx, Docker, PerformerContainer, Performer, Outcome, done,
  failed, Run-cases, deref, modify, cancel, CurrentSlot, never_stored, nil_stored, nil_dereference,
  stored, in_service, staged, ctx_done,
}
use hourglass_monorepo.Performer.Containers.{
  create_and_start_container, shutdown_container, initialize,
}
use hourglass_monorepo.Performer.Slots.{
  begin_task, end_task, finish_drain, create_performer, promote_performer, remove_performer,
  take_container, start_drain_and_remove, drain_current, promoted, next_named, is_named, is_current,
  is_healthy, shutdown, shutdown_slot, shutdown_next,
}
use hourglass_monorepo.Restarts.{ContainerEvent}
use hourglass_monorepo.Performer.Health.{
  handle_container_event, perform_periodic_application_health_checks, check_all, checkable,
}
use hourglass_monorepo.Performer.Deploy.{
  adopt_performer, rehydrated_container, rehydrate_from_state,
}
use hourglass_monorepo.Performer.Frames.{
  Extends, create_and_start_container_lem, shutdown_container-Keeps,
}
use hourglass_monorepo.Performer.Sound.{
  IsSound, Grows, Stays, Stays-trans, Extends-Stays, modify-Stays, modify-Grows, Stays-IsSound,
  same-Grows, Extends-Grows, Grows-trans, kept-IsSound, deref-modify,
}
use hourglass_monorepo.Performer.Steps.{
  handle_container_event-Stays, check_all-Stays, begin_task-Stays, end_task-Stays,
  finish_drain-Stays, refl-Stays, shutdown_slot-Stays,
}
use hourglass_monorepo.Performer.Fresh.{
  with_container, staged-IsSound, current-IsSound, by_equation, first_of, cleared-IsSound,
  moved-IsSound,
}

module _ {M Client : Type 0} (d : Docker M Client) (config : PerformerConfig) where
  pub create_performer-IsSound :
      (ctx : Ctx) (now : ℕ) (image : PerformerImage) (p : Performer M Client)
      → IsSound p
      → IsSound (create_performer d config ctx now image p).0
  unfolding create_performer
  create_performer-IsSound ctx now image p s =
      let l = create_and_start_container_lem d config ctx now image p in
      elim (Option-cases p.next_container) [
        | inr (r, e) ↦ by_equation (ground (arith, e)) s
        | inl e ↦ elim (Run-cases (create_and_start_container d config ctx now image p)) [
          | inr (q, error, c) ↦
              by_equation {q = q} (ground (arith, e, c))
                (Stays-IsSound s (Extends-Stays (first_of c l.0)))
          | inl (q, made, c) ↦
              by_equation
                {q = record (with_container (record made { status = staged }) q) {
                  next_container = some q.counter;
                }}
                (ground (arith, e, c))
                (staged-IsSound (record made { status = staged }) q
                  (Stays-IsSound s (Extends-Stays (first_of c l.0))))
        ]
      ]

  pub initialize-IsSound :
      (ctx : Ctx) (now : ℕ) (p : Performer M Client)
      → IsSound p
      → IsSound (initialize d config ctx now p).0
  unfolding initialize
  initialize-IsSound ctx now p s =
      let l = create_and_start_container_lem d config ctx now config.image p in
      elim (Bool-cases (not_empty config.image.repository)) [
        | inr e ↦ by_equation {q = p} (ground (arith, e)) s
        | inl e ↦ elim (Bool-cases (not_empty config.image.tag)) [
          | inr t ↦ by_equation {q = p} (ground (arith, e, t)) s
          | inl t ↦ elim (Run-cases (create_and_start_container d config ctx now config.image p)) [
            | inr (q, error, c) ↦
                by_equation {q = q} (ground (arith, e, t, c))
                  (Stays-IsSound s (Extends-Stays (first_of c l.0)))
            | inl (q, made, c) ↦
                by_equation
                  {q = record (with_container (record made { status = in_service }) q) {
                    current_container = stored q.counter;
                  }}
                  (ground (arith, e, t, c))
                  (current-IsSound (record made { status = in_service }) q
                    (Stays-IsSound s (Extends-Stays (first_of c l.0))))
          ]
        ]
      ]

  drain_current-Stays :
      (slot : CurrentSlot) (p : Performer M Client) → Stays p (drain_current slot p)
  unfolding start_drain_and_remove
  drain_current-Stays slot p = record {
    grows = same-Grows (ground arith) (ground arith);
    current_same = ground arith;
    next_same = ground arith;
  }

  pub promote_performer-IsSound :
      (id : Bytes) (p : Performer M Client) → IsSound p → IsSound (promote_performer id p).0
  unfolding promote_performer
  promote_performer-IsSound id p s = elim (Bool-cases (is_current p id p.current_container)) [
    | inl e ↦ by_equation {q = p} (ground (arith, e)) s
    | inr e ↦ elim (Option-cases (next_named p id)) [
      | inl n ↦ by_equation {q = p} (ground (arith, e, n)) s
      | inr (r, n) ↦ elim (Option-cases (deref p r)) [
        | inl f ↦ by_equation {q = p} (ground (arith, e, n, f)) s
        | inr (c, f) ↦ elim (Bool-cases (is_healthy c)) [
          | inr h ↦ by_equation {q = p} (ground (arith, e, n, f, h)) s
          | inl h ↦
              let k = Stays-trans (drain_current-Stays p.current_container p) (
                modify-Stays r (λ c. record c { status = in_service })
                  (drain_current p.current_container p)) in
              by_equation {q = promoted r p} (ground (arith, e, n, f, h)) (
                moved-IsSound s (Grows-trans k.grows (same-Grows refl (omega arith))) r
                  (ground (arith, n)) refl refl)
        ]
      ]
    ]
  ]

  take_container-IsSound :
      (id : Bytes) (p : Performer M Client) → IsSound p → IsSound (take_container id p).0
  unfolding take_container
  take_container-IsSound id p s =
      cleared-IsSound s (same-Grows (ground arith) (ground arith)) (cleared_current p)
        (cleared_next p)
    where
      cleared_current :
          (p : Performer M Client)
          → ((take_container id p).0.current_container ≡ nil_stored)
            ⊎ ((take_container id p).0.current_container ≡ p.current_container)
      cleared_current p = elim (Bool-cases (is_current p id p.current_container)) [
        | inl e ↦ inl (ground (arith, e))
        | inr e ↦ inr (ground (arith, e))
      ]

      cleared_next :
          (p : Performer M Client)
          → ((take_container id p).0.next_container ≡ none)
            ⊎ ((take_container id p).0.next_container ≡ p.next_container)
      cleared_next p = elim (Option-cases (take_container id p).0.next_container) [
        | inl e ↦ inl e
        | inr (r, e) ↦ inr (ground (arith, e))
      ]

  pub remove_performer-IsSound :
      (over : Bool) (id : Bytes) (p : Performer M Client)
      → IsSound p
      → IsSound (remove_performer d config over id p).0
  unfolding remove_performer
  remove_performer-IsSound over id p s =
      let taken = take_container-IsSound id p s in
      elim (Run-cases (take_container id p)) [
        | inr (q, error, e) ↦
            by_equation {q = q} (ground (arith, e)) (rw (← (ap (λ t. t.0) e)) taken)
        | inl (q, r, e) ↦
            let sq : IsSound q = rw (← (ap (λ t. t.0) e)) taken in
            elim (Option-cases (deref q r)) [
              | inl f ↦ by_equation {q = q} (ground (arith, e, f)) sq
              | inr (c, f) ↦
                  let q' : Performer M Client = cancel c.status_cancel q in
                  by_equation {q = (shutdown_container d config over c (q')).0}
                    (ground (arith, e, f))
                    (Stays-IsSound
                      (Stays-IsSound sq (record {
                        grows = same-Grows refl (omega arith);
                        current_same = refl;
                        next_same = refl;
                      }))
                      (Extends-Stays (shutdown_container-Keeps d config over c (q'))))
            ]
      ]

  shutdown_next-IsSound :
      (bad : Bool) (slot : Option ℕ) (p : Performer M Client)
      → IsSound p
      → IsSound (shutdown_next d config bad slot p).0
  shutdown_next-IsSound bad none p s = s
  shutdown_next-IsSound bad (some r) p s =
      let k = shutdown_slot-Stays d config r p in
      cleared-IsSound s (Grows-trans k.grows (same-Grows refl (omega arith))) (inr k.current_same)
        (inl refl)

  abbrev idle_drains : Performer M Client → Performer M Client
  idle_drains p = record p { draining_performers = [] }

  pub shutdown-IsSound : (p : Performer M Client) → IsSound p → IsSound (shutdown d config p).0
  unfolding shutdown
  shutdown-IsSound p s =
      let q : Performer M Client = idle_drains p in
      let sq : IsSound q =
        cleared-IsSound s (same-Grows refl (omega arith)) (inr refl) (inr refl) in
      by_slot p.current_container p sq
    where
      by_slot :
          (slot : CurrentSlot) (p : Performer M Client)
          → IsSound (idle_drains p)
          → IsSound
              (elim slot as (λ _. Performer M Client × Outcome (Unit {0})) [
                | never_stored ↦ shutdown_next d config false p.next_container (idle_drains p)
                | nil_stored ↦ shutdown_next d config false p.next_container (idle_drains p)
                | stored r ↦
                    shutdown_next d config
                      (shutdown_slot d config r (idle_drains p)).1
                      p.next_container
                      (record ((shutdown_slot d config r (idle_drains p)).0) {
                        current_container = nil_stored;
                      })
              ]).0
      by_slot never_stored p s = shutdown_next-IsSound false p.next_container _ s
      by_slot nil_stored p s = shutdown_next-IsSound false p.next_container _ s
      by_slot (stored r) p s =
          let k = shutdown_slot-Stays d config r (idle_drains p) in
          shutdown_next-IsSound _ p.next_container _ (
            cleared-IsSound s (Grows-trans k.grows (same-Grows refl (omega arith))) (inl refl)
              (inr k.next_same))

  adopt_performer-Extends :
      (ctx : Ctx) (state : PerformerState) (p : Performer M Client)
      → Extends p (adopt_performer d config ctx state p).0
  unfolding adopt_performer
  adopt_performer-Extends ctx state p = ground arith

  pub rehydrate_from_state-IsSound :
      (ctx : Ctx) (state : PerformerState) (p : Performer M Client)
      → IsSound p
      → IsSound (rehydrate_from_state d config ctx state p).0
  unfolding rehydrate_from_state
  rehydrate_from_state-IsSound ctx state p s =
      let k = adopt_performer-Extends ctx state p in
      elim (Run-cases (adopt_performer d config ctx state p)) [
        | inr (q, error, e) ↦
            by_equation {q = q} (ground (arith, e)) (Stays-IsSound s (Extends-Stays (first_of e k)))
        | inl (q, adopted, e) ↦
            let c : PerformerContainer Client = rehydrated_container d config ctx state adopted in
            let t : Performer M Client = record (with_container c q) {
              current_container = stored q.counter;
            } in
            by_equation
              {q = record t {
                counter = q.counter + 2;
                task_wait_groups = put state.performer_id (q.counter + 1) q.task_wait_groups;
                group_counts = put (q.counter + 1) 0 q.group_counts;
              }}
              (ground (arith, e))
              (Stays-IsSound (current-IsSound c q (Stays-IsSound s (Extends-Stays (first_of e k))))
                (record {
                  grows = same-Grows refl (omega arith);
                  current_same = refl;
                  next_same = refl;
                }))
      ]
