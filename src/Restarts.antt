-- ===== src/Restarts.antt =====
-- ponos/pkg/containerManager: the restart policy of a container, from configBuilder.go and utils.go,
-- and the decisions of restartManager.go, which dockerManager.go makes again. Times are in
-- nanoseconds.
pub mod Backoff
pub mod Monitors
use hourglass_monorepo.Prelude.{
  ℕ, zero, suc, ◌*◌, Bool, true, false, not, ◌||◌, ◌&&◌, Option, none, some, List, [], ◌∷◌, ltb,
  leb, nat_beq, if◌then◌else◌,
}

-- `MaxRestarts`, an int; a negative one means no limit.
pub data MaxRestarts : Type 0 where
  unlimited : MaxRestarts
  up_to : ℕ → MaxRestarts

-- `RestartPolicy`. The multiplication by `BackoffMultiplier`, a float, is `backoff`, which is `none`
-- where the multiplier is zero.
pub record RestartPolicy : Type 0 where
  pub enabled : Bool
  pub max_restarts : MaxRestarts
  pub restart_delay : ℕ
  pub backoff : Option (ℕ → ℕ)
  pub max_backoff_delay : ℕ
  pub restart_timeout : ℕ
  pub restart_on_crash : Bool
  pub restart_on_oom : Bool
  pub restart_on_unhealthy : Bool

-- `HealthCheckConfig`
pub record HealthCheckConfig : Type 0 where
  pub health_enabled : Bool
  pub interval : ℕ
  pub timeout : ℕ
  pub retries : ℕ
  pub start_period : ℕ
  pub failure_threshold : ℕ

-- `LivenessConfig`, without the thresholds of resources.
pub record LivenessConfig : Type 0 where
  pub health_check_config : HealthCheckConfig
  pub restart_policy : RestartPolicy

abbrev pub seconds : ℕ → ℕ
seconds n = n * 1000000000

-- Multiplication by the default multiplier 2.0, which is exact below 2 ^ 53 nanoseconds.
abbrev pub default_backoff : ℕ → ℕ
default_backoff d = d * 2

-- `NewDefaultAvsPerformerLivenessConfig`
unfoldable pub default_liveness_config : LivenessConfig
default_liveness_config = record {
  health_check_config = record {
    health_enabled = true;
    interval = seconds 5;
    timeout = seconds 2;
    retries = 3;
    start_period = seconds 10;
    failure_threshold = 3;
  };
  restart_policy = record {
    enabled = true;
    max_restarts = up_to 5;
    restart_delay = seconds 2;
    backoff = some default_backoff;
    max_backoff_delay = seconds 30;
    restart_timeout = seconds 60;
    restart_on_crash = true;
    restart_on_oom = true;
    restart_on_unhealthy = true;
  };
}

abbrev pub or_default : ℕ → ℕ → ℕ
or_default n d = if nat_beq n 0 then d else n

abbrev pub or_default_restarts : MaxRestarts → MaxRestarts
or_default_restarts unlimited = unlimited
or_default_restarts (up_to n) = up_to (or_default n 5)

abbrev pub or_default_backoff : Option (ℕ → ℕ) → Option (ℕ → ℕ)
or_default_backoff none = some default_backoff
or_default_backoff (some scale) = some scale

-- `BuildRestartPolicy`; a nil policy is the empty one.
unfoldable pub build_restart_policy : RestartPolicy → RestartPolicy
build_restart_policy policy =
    let unset =
      not policy.restart_on_crash
      && (not policy.restart_on_oom && not policy.restart_on_unhealthy) in
    record {
      enabled = policy.enabled;
      max_restarts = or_default_restarts policy.max_restarts;
      restart_delay = or_default policy.restart_delay (seconds 2);
      backoff = or_default_backoff policy.backoff;
      max_backoff_delay = or_default policy.max_backoff_delay (seconds 30);
      restart_timeout = or_default policy.restart_timeout (seconds 60);
      restart_on_crash = policy.restart_on_crash || unset;
      restart_on_oom = policy.restart_on_oom || unset;
      restart_on_unhealthy = policy.restart_on_unhealthy;
    }

-- `RestartPolicy{}`
abbrev pub empty_restart_policy : RestartPolicy
empty_restart_policy = record {
  enabled = false;
  max_restarts = up_to 0;
  restart_delay = 0;
  backoff = none;
  max_backoff_delay = 0;
  restart_timeout = 0;
  restart_on_crash = false;
  restart_on_oom = false;
  restart_on_unhealthy = false;
}

-- Multiplication by `BackoffMultiplier`
abbrev pub scaled : Option (ℕ → ℕ) → ℕ → ℕ
scaled none d = 0
scaled (some scale) d = scale d

-- The loop of `calculateRestartDelay`, over the rounds that are left.
unfoldable pub back_off : RestartPolicy → ℕ → ℕ → ℕ
back_off policy zero delay = delay
back_off policy (suc rounds) delay =
    let rest = back_off policy rounds (scaled policy.backoff delay) in
    if ltb delay policy.max_backoff_delay then rest else delay

-- `calculateRestartDelay`
unfoldable pub calculate_restart_delay : RestartPolicy → ℕ → ℕ
calculate_restart_delay policy restart_count =
    if nat_beq restart_count 0
    then policy.restart_delay
    else let delay = back_off policy restart_count policy.restart_delay in
      if ltb policy.max_backoff_delay delay then policy.max_backoff_delay else delay

abbrev pub over_limit : MaxRestarts → ℕ → Bool
over_limit unlimited count = false
over_limit (up_to n) count = ltb 0 n && leb n count

-- `RestartDecision`, with the reason as a case.
pub data RestartDecision : Type 0 where
  policy_disabled limit_reached : RestartDecision
  restart_after : ℕ → RestartDecision

-- `ShouldRestart`
unfoldable pub should_restart : RestartPolicy → ℕ → RestartDecision
should_restart policy restart_count =
    if not policy.enabled
    then policy_disabled
    else if over_limit policy.max_restarts restart_count
    then limit_reached
    else restart_after (calculate_restart_delay policy restart_count)

-- `ContainerEventType`, where the code tells them apart; a failed restart carries whether its message
-- says "recreation needed".
pub data ContainerEvent : Type 0 where
  event_started event_healthy event_crashed event_oom_killed event_restarted : ContainerEvent
  event_restart_failed : Bool → ContainerEvent
  event_unhealthy event_restarting event_stopped : ContainerEvent

-- What the restart itself gives, where the code looks at the text of its error.
pub data RestartResult : Type 0 where
  restart_done no_such_container other_failure : RestartResult

pub data RestartError : Type 0 where
  restart_denied restart_cancelled restart_error no_monitor restarts_disabled over_restart_limit :
      RestartError

abbrev pub denial : RestartDecision → Option ℕ
denial policy_disabled = none
denial limit_reached = none
denial (restart_after delay) = some delay

-- `handleRestartError`
unfoldable pub handle_restart_error : RestartResult → Option RestartError
handle_restart_error restart_done = none
handle_restart_error no_such_container = none
handle_restart_error other_failure = some restart_error

abbrev pub result_event : RestartResult → ContainerEvent
result_event restart_done = event_restarted
result_event no_such_container = event_restart_failed true
result_event other_failure = event_restart_failed false

-- `AttemptRestart`, with whether its context ends during the delay and what the restart gives: the
-- events that it sends, and its error.
unfoldable pub attempt_restart :
    RestartPolicy → ℕ → Bool → RestartResult → List ContainerEvent × Option RestartError
attempt_restart policy restart_count ends result =
    elim (denial (should_restart policy restart_count)) [
      | none ↦ (event_restart_failed false ∷ [], some restart_denied)
      | some delay ↦
          if ltb 0 delay && ends
          then ([], some restart_cancelled)
          else (event_restarting ∷ result_event result ∷ [], handle_restart_error result)
    ]
