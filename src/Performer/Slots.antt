-- ===== src/Performer/Slots.antt =====
-- containerPerformer.go: the two slots for containers, the tasks of a container, and draining. Each
-- method holds the mutex of the slots, so it is one step. What a goroutine does once the tasks of
-- its container have ended is a step of its own, `finish_drain`.
use hourglass_monorepo.Prelude.{
  ℕ, ◌+◌, ◌-◌, Bool, true, false, ◌&&◌, Option, none, some, List, [], ◌∷◌, ◌++◌, if◌then◌else◌,
  is_none,
}
use hourglass_monorepo.Text.{Bytes, bytes_beq}
use hourglass_monorepo.Dict.{get, put, remove, nat_eq, bytes_eq}
use hourglass_monorepo.Performer.{
  PerformerImage, PerformerConfig, Ctx, Docker, PerformerContainer, Performer, next_occupied,
  invalid_current, performer_not_found, not_in_next_slot, remove_failed, unhealthy_performer,
  no_current_container, task_failed, nil_dereference, Outcome, done, failed, Run, ◌>>=◌, ◌>>◌, pure,
  cancel, deref, modify, in_service, staged, CurrentSlot, never_stored, nil_stored, stored,
}
use hourglass_monorepo.Performer.Containers.{
  create_and_start_container, shutdown_container, allocate, call_for, get_container_endpoint,
  when_some,
}

-- `PerformerCreationResult`; the status channel is that of the container behind the reference.
pub record Creation : Type 0 where
  pub created_ref : ℕ
  pub performer_id : Bytes
  pub resource_id : Bytes
  pub endpoint : Option Bytes
  pub hostname : Bytes

-- `PerformerMetadata`
pub record PerformerMetadata : Type 0 where
  pub performer_id : Bytes
  pub avs_address : Bytes
  pub resource_id : Bytes
  pub status : Bytes
  pub artifact_registry : Bytes
  pub artifact_tag : Bytes
  pub artifact_digest : Bytes
  pub container_healthy : Bool
  pub application_healthy : Bool
  pub last_health_check : ℕ

abbrev pub is_healthy : {A : Type 0} → PerformerContainer A → Bool
is_healthy c = c.performer_health.container_is_healthy && c.performer_health.application_is_healthy

-- `convertPerformerContainer`
abbrev pub metadata_of : {A : Type 0} → Bytes → PerformerContainer A → PerformerMetadata
metadata_of avs_address c = record {
  performer_id = c.performer_id;
  avs_address = avs_address;
  resource_id = c.info.id;
  status = c.status;
  artifact_registry = c.container_image.repository;
  artifact_tag = c.container_image.tag;
  artifact_digest = c.container_image.digest;
  container_healthy = c.performer_health.container_is_healthy;
  application_healthy = c.performer_health.application_is_healthy;
  last_health_check = c.performer_health.last_health_check;
}

module _ {M Client : Type 0} where
  -- A read of the object behind a reference.
  abbrev pub load : ℕ → Run (Performer M Client) (PerformerContainer Client)
  load r p = elim (deref p r) [ none ↦ (p, failed nil_dereference) | some c ↦ (p, done c) ]

  abbrev pub update :
      (Performer M Client → Performer M Client) → Run (Performer M Client) (Unit {0})
  update f p = (f p, done tt)

  -- The tasks of a container end, for who waits for them.
  abbrev pub tasks_ended : Bytes → Performer M Client → Performer M Client
  tasks_ended id p = elim (get id p.task_wait_groups) [
    | none ↦ p
    | some g ↦ record p { group_counts = put g 0 p.group_counts }
  ]

  -- `cleanupTaskWaitGroup`
  unfoldable pub cleanup_task_wait_group : Bytes → Performer M Client → Performer M Client
  cleanup_task_wait_group id p = record p { task_wait_groups = remove id p.task_wait_groups }

  -- `startDrainAndRemove`, without its goroutine
  unfoldable pub start_drain_and_remove :
      PerformerContainer Client → Performer M Client → Performer M Client
  start_drain_and_remove c p =
      if is_none (get c.performer_id p.draining_performers)
      then record p { draining_performers = put c.performer_id tt p.draining_performers }
      else p

  abbrev pub is_named : Performer M Client → Bytes → ℕ → Bool
  is_named p id r = elim (deref p r) [ none ↦ false | some c ↦ bytes_beq c.performer_id id ]

  abbrev pub is_current : Performer M Client → Bytes → CurrentSlot → Bool
  is_current p id (stored r) = is_named p id r
  is_current p id never_stored = false
  is_current p id nil_stored = false

  -- `nextContainer`, where its performer has the id.
  abbrev pub next_named : Performer M Client → Bytes → Option ℕ
  next_named p id = elim p.next_container [
    | none ↦ none
    | some r ↦ if is_named p id r then some r else none
  ]

  -- The drain of the current container, at a promotion.
  abbrev pub drain_current : CurrentSlot → Performer M Client → Performer M Client
  drain_current never_stored p = p
  drain_current nil_stored p = p
  drain_current (stored r) p = elim (deref p r) [
    | none ↦ p
    | some old ↦ start_drain_and_remove old p
  ]

  -- A container that moves from the next slot to the current one.
  abbrev pub promoted : ℕ → Performer M Client → Performer M Client
  promoted r p =
      let q : Performer M Client =
        modify r (λ c. record c { status = in_service }) (drain_current p.current_container p) in
      record q { current_container = stored r; next_container = none }

  -- `PromotePerformer`
  unfoldable pub promote_performer : Bytes → Run (Performer M Client) (Unit {0})
  promote_performer id p =
      if is_current p id p.current_container then (p, done tt) else elim (next_named p id) [
        | none ↦ (p, failed not_in_next_slot)
        | some r ↦ elim (deref p r) [
          | none ↦ (p, failed nil_dereference)
          | some c ↦
              if is_healthy c then (promoted r p, done tt) else (p, failed unhealthy_performer)
        ]
      ]

  -- The first part of `RemovePerformer`: which container it is, which leaves its slot.
  unfoldable pub take_container : Bytes → Run (Performer M Client) ℕ
  take_container id p =
      let from_next : Performer M Client × Outcome ℕ = elim (next_named p id) [
        | none ↦ (p, failed performer_not_found)
        | some r ↦ (record p { next_container = none }, done r)
      ] in
      elim p.current_container [
        | never_stored ↦ from_next
        | nil_stored ↦ (p, failed invalid_current)
        | stored r ↦
            if is_named p id r
            then (record p { current_container = nil_stored }, done r)
            else from_next
      ]

  abbrev pub metadata_at : Bytes → Performer M Client → ℕ → List PerformerMetadata
  metadata_at avs_address p r = elim (deref p r) [
    | none ↦ []
    | some c ↦ metadata_of avs_address c ∷ []
  ]

  -- `ListPerformers`; a cleared current slot ends the listing.
  unfoldable pub list_performers : Bytes → Performer M Client → List PerformerMetadata
  list_performers avs_address p =
      let staged_one : List PerformerMetadata = elim p.next_container [
        | none ↦ []
        | some r ↦ metadata_at avs_address p r
      ] in
      elim p.current_container [
        | never_stored ↦ staged_one
        | nil_stored ↦ []
        | stored r ↦ metadata_at avs_address p r ++ staged_one
      ]

module _ {M Client : Type 0} (d : Docker M Client) (config : PerformerConfig) where
  -- `CreatePerformer`, with the time
  unfoldable pub create_performer : Ctx → ℕ → PerformerImage → Run (Performer M Client) Creation
  create_performer ctx now image p = elim p.next_container [
    | some r ↦ (p, failed next_occupied)
    | none ↦
        (do
          c ← create_and_start_container d config ctx now image
          r ← allocate d config (record c { status = staged })
          update (λ q. record q { next_container = some r })
          pure (record {
            created_ref = r;
            performer_id = c.performer_id;
            resource_id = c.info.id;
            endpoint = get_container_endpoint c.info config.performer_network_name;
            hostname = c.info.hostname;
          }))
          p
  ]

  -- `RemovePerformer`, with whether its context is done
  unfoldable pub remove_performer : Bool → Bytes → Run (Performer M Client) (Unit {0})
  remove_performer over id = do
    r ← take_container id
    c ← load r
    update (cancel c.status_cancel)
    shutdown_container d config over c

  -- `RunTask` up to the call of the container: the task joins the wait group, which it keeps.
  unfoldable pub begin_task : Run (Performer M Client) (ℕ × PerformerContainer Client)
  begin_task p = elim p.current_container [
    | never_stored ↦ (p, failed no_current_container)
    | nil_stored ↦ (p, failed no_current_container)
    | stored r ↦ elim (deref p r) [
      | none ↦ (p, failed no_current_container)
      | some c ↦ elim (get c.performer_id p.task_wait_groups) [
        | some g ↦ elim (get g p.group_counts) [
          | some n ↦ (record p { group_counts = put g (n + 1) p.group_counts }, done (g, c))
          | none ↦ (record p { group_counts = put g 1 p.group_counts }, done (g, c))
        ]
        | none ↦ (
          record p {
            counter = p.counter + 1;
            task_wait_groups = put c.performer_id p.counter p.task_wait_groups;
            group_counts = put p.counter 1 p.group_counts;
          },
          done (p.counter, c),
        )
      ]
    ]
  ]

  -- `wg.Done()`
  unfoldable pub end_task : ℕ → Performer M Client → Performer M Client
  end_task g p = elim (get g p.group_counts) [
    | none ↦ p
    | some n ↦ record p { group_counts = put g (n - 1) p.group_counts }
  ]

  -- `RunTask`, with what other goroutines do while the container runs the task.
  unfoldable pub run_task :
      (Performer M Client → Performer M Client)
      → Bytes
      → Bytes
      → Run (Performer M Client) (Bytes × Bytes)
  run_task meanwhile task_id payload p =
      let (p', outcome) = begin_task p in
      elim outcome [
        | failed e ↦ (p', failed e)
        | done (g, c) ↦
            let (q, answer) =
              call_for d config (λ w. d.execute_task w c.client task_id payload) task_failed
                (meanwhile (p')) in
            (end_task g q, answer)
      ]

  -- The goroutine of `startDrainAndRemove` after the last task; errors are logged.
  unfoldable pub finish_drain : ℕ → Performer M Client → Performer M Client
  finish_drain r p =
      when_some (deref p r)
        (λ c p.
          let q : Performer M Client =
            (shutdown_container d config false c (tasks_ended c.performer_id p)).0 in
          cleanup_task_wait_group c.performer_id
            (record q { draining_performers = remove c.performer_id q.draining_performers }))
        p

  -- The shutdown of a container after its tasks; whether an error is kept.
  abbrev pub shutdown_found :
      PerformerContainer Client → Performer M Client → Performer M Client × Bool
  shutdown_found c p =
      let (q, outcome) = shutdown_container d config false c (tasks_ended c.performer_id p) in
      (cleanup_task_wait_group c.performer_id q, elim outcome [ done u ↦ false | failed e ↦ true ])

  -- One slot of `Shutdown`
  unfoldable pub shutdown_slot : ℕ → Performer M Client → Performer M Client × Bool
  shutdown_slot r p = when_some (deref p r) (λ c q. shutdown_found c (q.0)) (p, false)

  abbrev pub shutdown_next :
      Bool → Option ℕ → Performer M Client → Performer M Client × Outcome (Unit {0})
  shutdown_next bad none p = (p, if bad then failed remove_failed else done tt)
  shutdown_next bad (some r) p =
      let (q, worse) = shutdown_slot r p in
      (
        record q { next_container = none },
        if bad then failed remove_failed else if worse then failed remove_failed else done tt,
      )

  -- `Shutdown`
  unfoldable pub shutdown : Run (Performer M Client) (Unit {0})
  shutdown p =
      let q : Performer M Client = record p { draining_performers = [] } in
      elim p.current_container [
        | never_stored ↦ shutdown_next false p.next_container q
        | nil_stored ↦ shutdown_next false p.next_container q
        | stored r ↦
            let (t, bad) = shutdown_slot r q in
            shutdown_next bad p.next_container (record t { current_container = nil_stored })
      ]
