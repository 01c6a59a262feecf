-- ===== src/Performer/Invariant/Reach.antt =====
-- containerPerformer.go: the methods and goroutines as a step relation, and its invariant.
use hourglass_monorepo.Prelude.{ℕ, ◌+◌, ◌≡◌, ◌≤◌, refl, Bool, arith, List, ◌++◌}
use hourglass_monorepo.Text.{Bytes}
use hourglass_monorepo.Dict.{nat_eq, bytes_eq}
use hourglass_monorepo.Executor.Stores.{PerformerState}
use hourglass_monorepo.Performer.{
  PerformerImage, PerformerConfig, Ctx, Docker, Performer, Outcome, done, failed, cancel,
  CurrentSlot, never_stored, nil_stored, nil_dereference, stored,
}
use hourglass_monorepo.Performer.Containers.{initialize}
use hourglass_monorepo.Performer.Slots.{
  begin_task, end_task, finish_drain, create_performer, promote_performer, remove_performer,
  shutdown,
}
use hourglass_monorepo.Restarts.{ContainerEvent}
use hourglass_monorepo.Performer.Health.{
  handle_container_event, perform_periodic_application_health_checks, check_all, checkable,
}
use hourglass_monorepo.Performer.Deploy.{rehydrate_from_state}
use hourglass_monorepo.Performer.Sound.{IsSound, Stays, Stays-IsSound, same-Grows}
use hourglass_monorepo.Performer.Steps.{
  handle_container_event-Stays, check_all-Stays, begin_task-Stays, end_task-Stays,
  finish_drain-Stays, refl-Stays,
}
use hourglass_monorepo.Performer.Health.{staged_checks}
use hourglass_monorepo.Performer.Invariant.{
  create_performer-IsSound, initialize-IsSound, promote_performer-IsSound, remove_performer-IsSound,
  shutdown-IsSound, rehydrate_from_state-IsSound,
}

module _ {M Client : Type 0} (d : Docker M Client) (config : PerformerConfig) where
  -- What changes a performer: a method that holds its mutex, an event or a tick of a goroutine, the
  -- begin and the end of a task, and the calls of `Deploy` that are not made under the mutex.
  pub data Step (p : Performer M Client) : Performer M Client → Type 0 where
    initialized : (ctx : Ctx) (now : ℕ) → Step p (initialize d config ctx now p).0
    created :
        (ctx : Ctx) (now : ℕ) (image : PerformerImage)
        → Step p (create_performer d config ctx now image p).0
    promoted_ : (id : Bytes) → Step p (promote_performer id p).0
    removed : (over : Bool) (id : Bytes) → Step p (remove_performer d config over id p).0
    shut : Step p (shutdown d config p).0
    rehydrated :
        (ctx : Ctx) (state : PerformerState) → Step p (rehydrate_from_state d config ctx state p).0
    event :
        (ctx : Ctx) (now : ℕ) (e : ContainerEvent) (r : ℕ)
        → Step p (handle_container_event d config ctx now e r p)
    tick :
        (ctx : Ctx) (now : ℕ)
        → Step p (perform_periodic_application_health_checks d config ctx now p).0
    task_begun : Step p (begin_task d config p).0
    task_ended : (g : ℕ) → Step p (end_task d config g p)
    drained : (r : ℕ) → Step p (finish_drain d config r p)
    locked : (held : Bool) → Step p (record p { deploying = held })
    context_over : (c : ℕ) → Step p (cancel c p)
    drawn : Step p (record p { counter = p.counter + 1 })
    outside : (w : M) → Step p (record p { world = w })

  -- A run of steps.
  pub data Reach (p : Performer M Client) : Performer M Client → Type 0 where
    here : Reach p p
    next : {q t : Performer M Client} → Reach p q → Step q t → Reach p t

  checks-Stays :
      (ctx : Ctx) (now : ℕ) (p : Performer M Client)
      → Stays p (perform_periodic_application_health_checks d config ctx now p).0
  unfolding perform_periodic_application_health_checks
  checks-Stays ctx now p = by_slot p.current_container p (staged_checks d config p)
    where
      by_slot :
          (slot : CurrentSlot) (p : Performer M Client) (staged_one : List ℕ)
          → Stays p
              (elim slot as (λ _. Performer M Client × Outcome (Unit {0})) [
                | never_stored ↦ (check_all d config ctx now staged_one p, done tt)
                | nil_stored ↦ (p, failed nil_dereference)
                | stored r ↦
                    (check_all d config ctx now (checkable d config p r ++ staged_one) p, done tt)
              ]).0
      by_slot never_stored p l = check_all-Stays d config ctx now l p
      by_slot nil_stored p l = refl-Stays d config p
      by_slot (stored r) p l = check_all-Stays d config ctx now (checkable d config p r ++ l) p

  quiet-IsSound :
      {p q : Performer M Client}
      → IsSound p
      → q.containers ≡ p.containers
      → q.current_container ≡ p.current_container
      → q.next_container ≡ p.next_container
      → p.counter ≤ q.counter
      → IsSound q
  quiet-IsSound s a b c up =
      Stays-IsSound s (record { grows = same-Grows a up; current_same = b; next_same = c })

  Step-IsSound : {p q : Performer M Client} → Step p q → IsSound p → IsSound q
  Step-IsSound {p = p} (initialized ctx now) s = initialize-IsSound d config ctx now p s
  Step-IsSound {p = p} (created ctx now image) s =
      create_performer-IsSound d config ctx now image p s
  Step-IsSound {p = p} (promoted_ id) s = promote_performer-IsSound d config id p s
  Step-IsSound {p = p} (removed over id) s = remove_performer-IsSound d config over id p s
  Step-IsSound {p = p} shut s = shutdown-IsSound d config p s
  Step-IsSound {p = p} (rehydrated ctx state) s =
      rehydrate_from_state-IsSound d config ctx state p s
  Step-IsSound {p = p} (event ctx now e r) s =
      Stays-IsSound s (handle_container_event-Stays d config ctx now e r p)
  Step-IsSound {p = p} (tick ctx now) s = Stays-IsSound s (checks-Stays ctx now p)
  Step-IsSound {p = p} task_begun s = Stays-IsSound s (begin_task-Stays d config p)
  Step-IsSound {p = p} (task_ended g) s = Stays-IsSound s (end_task-Stays d config g p)
  Step-IsSound {p = p} (drained r) s = Stays-IsSound s (finish_drain-Stays d config r p)
  Step-IsSound (locked held) s = quiet-IsSound s refl refl refl (omega arith)
  Step-IsSound (context_over c) s = quiet-IsSound s refl refl refl (omega arith)
  Step-IsSound drawn s = quiet-IsSound s refl refl refl (omega arith)
  Step-IsSound (outside w) s = quiet-IsSound s refl refl refl (omega arith)

  -- Whatever the methods and the goroutines of a performer do, in any order: each slot is empty or points
  -- to a container, and no container is in both slots, where this held at the start.
  pub Reach-IsSound : {p q : Performer M Client} → Reach p q → IsSound p → IsSound q
  Reach-IsSound here s = s
  Reach-IsSound (next r step) s = Step-IsSound step (Reach-IsSound r s)
