-- ===== src/Restarts/Monitors/Limits.antt =====
-- dockerManager.go: how often a container is restarted.
use hourglass_monorepo.Prelude.{
  ℕ, zero, suc, ◌+◌, ◌≤◌, ◌<◌, ◌≡◌, Bool, true, false, Option, none, some, List, [], ◌∷◌, arith,
  if◌then◌else◌,
}
use hourglass_monorepo.Restarts.{
  up_to, ContainerEvent, event_restarting, RestartResult, restart_done, no_such_container,
  other_failure,
}
use hourglass_monorepo.Restarts.Monitors.{
  Monitor, Attempt, counted_restart, admits_restart, finish_restart, trigger_restart, handle_death,
  Poll, poll_liveness,
}

-- What happens to a monitored container: a trigger, a death, or a poll.
pub data Stimulus : Type 0 where
  triggered : Stimulus
  died : Bool → ℕ → Stimulus
  polled : Poll → Stimulus

abbrev kept : Monitor → Option Monitor → Monitor
kept m none = m
kept m (some m') = m'

-- The monitor and the events after one stimulus.
abbrev pub respond : Attempt → Stimulus → Monitor → Monitor × List ContainerEvent
respond attempt triggered m =
    let (m', events, e) = trigger_restart attempt (some m) in (kept m (m'), events)
respond attempt (died oom exit_code) m =
    let (m', events, e) = handle_death attempt oom exit_code m in (m', events)
respond attempt (polled poll) m = let (m', events, e) = poll_liveness attempt poll m in (m', events)

abbrev is_restarting : ContainerEvent → Bool
is_restarting event_restarting = true
is_restarting _ = false

abbrev pub has_restart : List ContainerEvent → Bool
has_restart [] = false
has_restart (e ∷ es) = if is_restarting e then true else has_restart es

-- The goroutines that restart a container, with how many of them are between the test of the limit and
-- the restart, where none of them holds a lock.
pub record Restarting : Type 0 where
  pub monitor : Monitor
  pub waiting : ℕ

-- A step of one of at most `g` of them, whose callers have seen that the policy is enabled; the failures of the polls change at any time.
pub data RestartStep (g : ℕ) : Restarting → Restarting → Type 0 where
  begins :
      (r : Restarting)
      → r.waiting < g
      → r.monitor.policy.enabled ≡ true
      → admits_restart r.monitor ≡ true
      → RestartStep g r (record r { waiting = suc r.waiting })
  gives_up :
      (m : Monitor) (w : ℕ)
      → RestartStep g
          (record { monitor = m; waiting = suc w })
          (record { monitor = m; waiting = w })
  finishes :
      (m : Monitor) (w : ℕ) (result : RestartResult)
      → RestartStep g
          (record { monitor = m; waiting = suc w })
          (record { monitor = (finish_restart result m).0; waiting = w })
  polls :
      (r : Restarting) (n : ℕ)
      → RestartStep g r (record r { monitor = record (r.monitor) { failures = n } })

pub data RestartRun (g : ℕ) (s : Restarting) : Restarting → Type 0 where
  here : RestartRun g s s
  next : {t u : Restarting} → RestartRun g s t → RestartStep g t u → RestartRun g s u

-- The limit, with one restart more for each further goroutine.
abbrev IsLimited : ℕ → ℕ → Restarting → Type 0
IsLimited n g r =
    (r.monitor.policy.max_restarts ≡ up_to n) × (r.monitor.restart_count + r.waiting + 1 ≤ n + g)

step-IsLimited :
    {t u : Restarting} (n g : ℕ) → 0 < n → RestartStep g t u → IsLimited n g t → IsLimited n g u
unfolding finish_restart
step-IsLimited n g some_n (begins r room on admits) h =
    (h.0, ground (arith, h.0, admits, room, some_n))
step-IsLimited n g some_n (gives_up m w) h = (h.0, omega (arith, h.1))
step-IsLimited n g some_n (finishes m w restart_done) h = (h.0, omega (arith, h.1))
step-IsLimited n g some_n (finishes m w no_such_container) h = (h.0, omega (arith, h.1))
step-IsLimited n g some_n (finishes m w other_failure) h = (h.0, omega (arith, h.1))
step-IsLimited n g some_n (polls r k) h = h

run-IsLimited :
    (n g : ℕ) {s t : Restarting} → 0 < n → IsLimited n g s → RestartRun g s t → IsLimited n g t
run-IsLimited n g some_n h here = h
run-IsLimited n g some_n h (next run step) =
    step-IsLimited n g some_n step (run-IsLimited n g some_n h run)

-- Enough goroutines begin before any of them counts.
all_begin :
    (n g k : ℕ) (m : Monitor)
    → m.policy.max_restarts ≡ up_to n
    → m.policy.enabled ≡ true
    → m.restart_count < n
    → k ≤ g
    → RestartRun g (record { monitor = m; waiting = 0 }) (record { monitor = m; waiting = k })
all_begin n g zero m limit on below room = here
all_begin n g (suc k) m limit on below room =
    next (all_begin n g k m limit on below (omega (arith, room))) (
      begins (record { monitor = m; waiting = k }) (omega (arith, room)) on
        (ground (arith, limit, below)))

-- The monitor after so many restarts that succeed.
abbrev restarted_times : ℕ → Monitor → Monitor
restarted_times zero m = m
restarted_times (suc k) m = restarted_times k (counted_restart restart_done m)

restarted_times-count :
    (k : ℕ) (m : Monitor) → (restarted_times k m).restart_count ≡ m.restart_count + k
restarted_times-count zero m = omega arith
restarted_times-count (suc k) m =
    omega (arith, restarted_times-count k (counted_restart restart_done m))

all_finish :
    (g : ℕ) (s : Restarting) (k : ℕ) (m : Monitor)
    → RestartRun g s (record { monitor = m; waiting = k })
    → RestartRun g s (record { monitor = restarted_times k m; waiting = 0 })
unfolding finish_restart
all_finish g s zero m run = run
all_finish g s (suc k) m run =
    all_finish g s k (counted_restart restart_done m) (next run (finishes m k restart_done))

-- Under an enabled policy with the limit `n`, where at most `g` goroutines restart a container at once
-- with their steps in any order, from a count below the limit: the count stays below `n + g`, and it
-- can rise by `g`, which from the last count below the limit exceeds it by `g - 1`.
pub restarts_bounded :
    (n g : ℕ) (m : Monitor)
    → m.policy.max_restarts ≡ up_to n
    → m.policy.enabled ≡ true
    → m.restart_count < n
    → 0 < g
    → ((r : Restarting)
        → RestartRun g (record { monitor = m; waiting = 0 }) r
        → r.monitor.restart_count < n + g)
      × (r : Restarting) × RestartRun g (record { monitor = m; waiting = 0 }) r
      × (r.monitor.restart_count ≡ m.restart_count + g)
restarts_bounded n g m limit on below some_g =
    let start : Restarting = record { monitor = m; waiting = 0 } in
    let some_n : 0 < n = omega (arith, below) in
    (
      λ r run.
          let h = run-IsLimited n g some_n (limit, omega (arith, below, some_g)) run in
          omega (arith, h.1),
      record { monitor = restarted_times g m; waiting = 0 },
      all_finish g start g m (all_begin n g g m limit on below (omega arith)),
      restarted_times-count g m,
    )

-- Under a policy that is not enabled a container is never restarted: whatever happens to it, no event
-- says that it restarts, and the count stays.
pub disabled_never_restarts :
    (attempt : Attempt) (s : Stimulus) (m : Monitor)
    → m.policy.enabled ≡ false
    → (has_restart (respond attempt s m).1 ≡ false)
      × ((respond attempt s m).0.restart_count ≡ m.restart_count)
unfolding trigger_restart handle_death poll_liveness
disabled_never_restarts attempt triggered m off = ground (arith, off)
disabled_never_restarts attempt (died oom exit_code) m off = ground (arith, off)
disabled_never_restarts attempt (polled poll) m off = ground (arith, off)
