-- ===== src/Performer/Health/Failures.antt =====
-- containerPerformer.go: when failing checks of the application restart a container.
use hourglass_monorepo.Prelude.{
  ℕ, ◌+◌, ◌%◌, ◌≡◌, ◌≤◌, refl, Bool, true, false, List, [], ◌∷◌, arith, nat_beq,
}
use hourglass_monorepo.Performer.{PerformerHealth}
use hourglass_monorepo.Performer.Containers.{fresh_health}
use hourglass_monorepo.Performer.Health.{checked_health, restarts_now, health_after_restart}

-- What writes the health of a container: a check of the application with its answer and time, the
-- event that it was restarted, its recreation, and the other events, which set the two flags.
pub data HealthEvent : Type 0 where
  checked : Bool → ℕ → HealthEvent
  restarted : HealthEvent
  recreated : ℕ → HealthEvent
  flagged : Bool → Bool → HealthEvent

abbrev health_step : HealthEvent → PerformerHealth → PerformerHealth
health_step (checked fine now) h = checked_health fine now h
health_step restarted h = health_after_restart h
health_step (recreated now) h = fresh_health now
health_step (flagged container application) h = record h {
  container_is_healthy = container;
  application_is_healthy = application;
}

abbrev run_health : List HealthEvent → PerformerHealth → PerformerHealth
run_health [] h = h
run_health (e ∷ es) h = run_health es (health_step e h)

-- How many checks have failed at the end since the last one that succeeded, the last restart and the
-- last recreation, with `n` before the first.
abbrev failing_run : ℕ → List HealthEvent → ℕ
failing_run n [] = n
failing_run n (checked true now ∷ es) = failing_run 0 es
failing_run n (checked false now ∷ es) = failing_run (n + 1) es
failing_run n (restarted ∷ es) = failing_run 0 es
failing_run n (recreated now ∷ es) = failing_run 0 es
failing_run n (flagged container application ∷ es) = failing_run n es

counted :
    (es : List HealthEvent) (n : ℕ) (h : PerformerHealth)
    → h.consecutive_failures ≡ n % 3
    → (run_health es h).consecutive_failures ≡ failing_run n es % 3
unfolding checked_health
counted [] n h e = e
counted (checked true now ∷ es) n h e = counted es 0 (checked_health true now h) refl
counted (checked false now ∷ es) n h e =
    counted es (n + 1) (checked_health false now h) (ground arith)
counted (restarted ∷ es) n h e = counted es 0 (health_after_restart h) refl
counted (recreated now ∷ es) n h e = counted es 0 (fresh_health now) refl
counted (flagged container application ∷ es) n h e =
    counted es n (health_step (flagged container application) h) e

-- Whatever checks, restart events, recreations and other events a container met since it was created:
-- a further check that fails triggers a restart exactly if the checks that failed since the last
-- success, restart event or recreation are then a multiple of three, and a check that succeeds never
-- does; what is counted is always below three.
pub third_failure_restarts :
    (es : List HealthEvent) (h : PerformerHealth)
    → h.consecutive_failures ≡ 0
    → (restarts_now false (run_health es h) ≡ nat_beq ((failing_run 0 es + 1) % 3) 0)
      × (restarts_now true (run_health es h) ≡ false)
      × ((run_health es h).consecutive_failures ≤ 2)
unfolding restarts_now
third_failure_restarts es h e =
    let k : (run_health es h).consecutive_failures ≡ failing_run 0 es % 3 =
      counted es 0 h (omega (arith, e)) in
    (ground (arith, k), refl, omega (arith, k))
