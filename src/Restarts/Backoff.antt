-- ===== src/Restarts/Backoff.antt =====
-- restartManager.go: bounds of the delay, and what a policy that was built without `Enabled` allows.
use hourglass_monorepo.Prelude.{ℕ, zero, suc, ◌≡◌, ◌≤◌, ◌<◌, true, false, some, arith}
use hourglass_monorepo.Restarts.{
  RestartPolicy, calculate_restart_delay, back_off, should_restart, restart_after, over_limit,
}

-- A restart that is allowed is one below the limit of an enabled policy, and its delay is at most the
-- cap, but for the first one, which waits for the initial delay whatever the cap.
pub should_restart_bounds :
    (policy : RestartPolicy) (restart_count delay : ℕ)
    → should_restart policy restart_count ≡ restart_after delay
    → (policy.enabled ≡ true)
      × (over_limit policy.max_restarts restart_count ≡ false)
      × (0 < restart_count → delay ≤ policy.max_backoff_delay)
      × (restart_count ≡ 0 → delay ≡ policy.restart_delay)
unfolding should_restart calculate_restart_delay
should_restart_bounds policy restart_count delay h =
    (ground arith, ground arith, λ p. ground arith, λ p. ground arith)

-- The delay never falls from one restart to the next, from the second on, where the multiplication
-- never makes a delay shorter.
back_off_grows :
    (policy : RestartPolicy) (n delay : ℕ) (scale : ℕ → ℕ)
    → policy.backoff ≡ some scale
    → ((d : ℕ) → d ≤ scale d)
    → back_off policy n delay ≤ back_off policy (suc n) delay
unfolding back_off
back_off_grows policy zero delay scale e grows = ground (arith, e, grows delay)
back_off_grows policy (suc n) delay scale e grows =
    ground (arith, e, grows delay, back_off_grows policy n (scale delay) scale e grows)

-- A multiplication that never shortens a delay makes no later delay shorter, from the second on.
calculate_restart_delay_grows :
    (policy : RestartPolicy) (n : ℕ) (scale : ℕ → ℕ)
    → policy.backoff ≡ some scale
    → ((d : ℕ) → d ≤ scale d)
    → calculate_restart_delay policy (suc n) ≤ calculate_restart_delay policy (suc (suc n))
unfolding calculate_restart_delay
calculate_restart_delay_grows policy n scale e grows =
    ground (arith, back_off_grows policy (suc n) policy.restart_delay scale e grows)
