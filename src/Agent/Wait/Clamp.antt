-- ===== src/Agent/Wait/Clamp.antt =====
-- The timeout that is used.
use leartech_go_common.Base.{ℕ, ◌*◌, ◌≤◌, ◌<◌, ◌≡◌, arith, none, some}
use leartech_go_common.Base.Int.{ℤ, pos, wrap_int_id}
use leartech_go_common.Agent.Wait.{
  second, max_wait_timeout, in_seconds, clamp_timeout, clamp_wait_timeout,
}

in_seconds-exact : (s : ℕ) → s ≤ 9223372036 → in_seconds (pos s) ≡ pos (s * second)
unfolding in_seconds
in_seconds-exact s h = wrap_int_id (pos (s * second)) (omega arith, omega arith)

-- A wait of up to 9223372036 seconds, the last number whose nanoseconds fit, is what was asked for, or
-- the ceiling of an hour with a note that says what was asked for. The default is used if no positive
-- number was.
pub clamp_wait_timeout-bounds :
    (s : ℕ) (default : ℤ)
    → s ≤ 9223372036
    → (s ≡ 0 → clamp_wait_timeout (pos s) default ≡ (default, none))
      × (0 < s → s ≤ 3600 → clamp_wait_timeout (pos s) default ≡ (pos (s * second), none))
      × (3600 < s
          → clamp_wait_timeout (pos s) default ≡ (max_wait_timeout, some (pos (s * second))))
unfolding clamp_wait_timeout clamp_timeout
clamp_wait_timeout-bounds s default h =
    rw (in_seconds-exact s h) (λ e. ground arith, λ p q. ground arith, λ p. ground arith)
