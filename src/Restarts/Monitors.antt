-- ===== src/Restarts/Monitors.antt =====
-- dockerManager.go: the monitor of a container, and the restarts that its goroutines and
-- `TriggerRestart` make. What Docker answers is an argument. The thresholds of resources, which are off
-- by default, are left out.
pub mod Limits
use hourglass_monorepo.Prelude.{
  ℕ, ◌+◌, Bool, true, false, not, ◌&&◌, ◌||◌, Option, none, some, List, [], ◌∷◌, ◌++◌, ltb, leb,
  nat_beq, if◌then◌else◌,
}
use hourglass_monorepo.Restarts.{
  RestartPolicy, calculate_restart_delay, over_limit, ContainerEvent, event_healthy, event_crashed,
  event_oom_killed, event_restarted, event_restart_failed, event_unhealthy, event_restarting,
  event_stopped, RestartResult, restart_done, no_such_container, other_failure, RestartError,
  restart_cancelled, no_monitor, restarts_disabled, over_restart_limit, handle_restart_error,
  result_event,
}

-- `containerMonitor`, with the failures that the goroutine of its health checks counts.
pub record Monitor : Type 0 where
  pub policy : RestartPolicy
  pub failure_threshold : ℕ
  pub restart_count : ℕ
  pub failures : ℕ

-- What a restart meets: whether the context ends during the delay, and what Docker gives.
pub record Attempt : Type 0 where
  pub ends : Bool
  pub result : RestartResult

-- A monitor, the events it was made to send, and an error.
abbrev pub Monitored : Type 0
Monitored = Monitor × List ContainerEvent × Option RestartError

-- `RestartContainer` counts what succeeded.
abbrev pub counted_restart : RestartResult → Monitor → Monitor
counted_restart restart_done m = record m { restart_count = m.restart_count + 1 }
counted_restart no_such_container m = m
counted_restart other_failure m = m

-- The test of the limit at the start of `attemptRestart`
abbrev pub admits_restart : Monitor → Bool
admits_restart m = not (over_limit m.policy.max_restarts m.restart_count)

-- `attemptRestart` after its delay: the restart, and what is made of its result.
unfoldable pub finish_restart : RestartResult → Monitor → Monitored
finish_restart result m = (
  counted_restart result m,
  event_restarting ∷ result_event result ∷ [],
  handle_restart_error result,
)

-- `attemptRestart`, where no other goroutine restarts the container between the test and the restart:
-- no lock is held there. Limits has the goroutines with their steps interleaved.
unfoldable pub restart_monitored : Attempt → Monitor → Monitored
unfolding finish_restart
restart_monitored attempt m =
    if admits_restart m
    then (if ltb 0 (calculate_restart_delay m.policy m.restart_count) && attempt.ends
        then (m, [], some restart_cancelled)
        else finish_restart attempt.result m)
    else (m, event_restart_failed false ∷ [], some over_restart_limit)

-- Events that come before those of a restart; its error is logged.
abbrev pub after_events : List ContainerEvent → Monitored → Monitored
after_events events (m, more, e) = (m, events ++ more, e)

-- `TriggerRestart`, with the monitor of the container if it has one.
unfoldable pub trigger_restart :
    Attempt → Option Monitor → Option Monitor × List ContainerEvent × Option RestartError
trigger_restart attempt none = (none, [], some no_monitor)
trigger_restart attempt (some m) =
    if not m.policy.enabled
    then (some m, [], some restarts_disabled)
    else let (m', events, e) = restart_monitored attempt m in
      (some (m'), event_unhealthy ∷ events, e)

-- The event of a container that died.
abbrev pub death_event : Bool → ℕ → ContainerEvent
death_event oom exit_code =
    if oom then event_oom_killed else if nat_beq exit_code 0 then event_stopped else event_crashed

-- Whether the policy restarts a container that died so.
abbrev pub restarts_dead : RestartPolicy → Bool → ℕ → Bool
restarts_dead policy oom exit_code =
    policy.enabled
    && ((oom && policy.restart_on_oom) || (not (nat_beq exit_code 0) && policy.restart_on_crash))

-- The case of `events.ActionDie` in `handleDockerEvent`
unfoldable pub handle_death : Attempt → Bool → ℕ → Monitor → Monitored
handle_death attempt oom exit_code m =
    let events = death_event oom exit_code ∷ [] in
    if restarts_dead m.policy oom exit_code
    then after_events events (restart_monitored attempt m)
    else (m, events, none)

-- What a poll of `IsRunning` gives.
pub data Poll : Type 0 where
  poll_running poll_stopped poll_failed poll_gone : Poll

-- The failures after a poll that found the container not running.
abbrev pub poll_failures : Poll → Monitor → ℕ
poll_failures poll_running m = 0
poll_failures poll_stopped m = m.failures + 1
poll_failures poll_failed m = m.failures + 1
poll_failures poll_gone m = m.failure_threshold

abbrev pub is_running : Poll → Bool
is_running poll_running = true
is_running poll_stopped = false
is_running poll_failed = false
is_running poll_gone = false

-- One tick of `monitorContainerLiveness`
unfoldable pub poll_liveness : Attempt → Poll → Monitor → Monitored
poll_liveness attempt poll m =
    if is_running poll
    then (record m { failures = 0 }, if ltb 0 m.failures then event_healthy ∷ [] else [], none)
    else if leb m.failure_threshold (poll_failures poll m)
    then (if m.policy.enabled && m.policy.restart_on_unhealthy
        then after_events (event_unhealthy ∷ [])
            (restart_monitored attempt (record m { failures = 0 }))
        else (record m { failures = 0 }, event_unhealthy ∷ [], none))
    else (record m { failures = poll_failures poll m }, [], none)
