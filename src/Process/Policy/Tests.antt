-- ===== src/Process/Policy/Tests.antt =====
-- internal/process/restart.go: tests after restart_test.go, and the theorems at concrete policies.
use randomshitgo_go.Prelude.{[], ◌∷◌, ◌≡◌, refl}
use randomshitgo_go.Prelude.Int.{pos, wrap64, ◌*ℤ◌}
use randomshitgo_go.Process.Policy.{
  Policy, new_policy, on_exit, pick_backoff, restart, World, at_policy,
}
use randomshitgo_go.Process.Policy.Attempts.{crashes}

-- Two backoffs, four attempts, a reset after five seconds.
abbrev on_failure : Policy
on_failure = new_policy "on-failure" (pos 500 ∷ pos 1000 ∷ []) (pos 4) (pos 5000)

third_crash : (on_exit (crashes (pos 1) 2 on_failure) (pos 1)).0 ≡ (restart, pos 1000000000)
unfolding on_exit crashes new_policy pick_backoff wrap64 ◌*ℤ◌
third_crash = refl

abbrev start : World
start = record { policy = on_failure; callbacks = 0 }

abbrev crashed : World
crashed = at_policy start (on_exit on_failure (pos 1)).1
