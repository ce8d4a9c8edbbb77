-- ===== src/Limiter/Backoff.antt =====
-- The delay that a restart is given (`RestartLimiter::record_restart`, `peek_backoff`).
use acton_reactive.Shared.{ℕ, ◌^◌, ◌≤◌, ◌≡◌, refl, arith}
use acton_reactive.World.{F64, F64Laws}
use acton_reactive.Limiter.{RestartLimiter, from_millis, peek_backoff, record_restart}

module _ (F : F64) where
  -- A look at the next delay tells the delay that recording a restart returns, whenever that is.
  pub peek_backoff-record_restart :
      (l : RestartLimiter F) (now : ℕ) → (record_restart F now l).0 ≡ peek_backoff F l
  unfolding peek_backoff record_restart
  peek_backoff-record_restart l now = refl

  -- A restart never waits longer than the configured maximum, whatever the multiplier and the
  -- number of restarts so far, as long as the maximum is a number that f64 holds exactly.
  pub record_restart-le_max :
      (laws : F64Laws F) (l : RestartLimiter F) (now : ℕ)
      → l.config.max_backoff_ms ≤ 2 ^ 53
      → (record_restart F now l).0 ≤ from_millis l.config.max_backoff_ms
  unfolding record_restart
  record_restart-le_max laws l now h =
      let cap = l.config.max_backoff_ms in
      omega (
        arith,
        laws.cast_exact cap h,
        laws.cast_mono _ _
            (laws.fmax_fle _ _ (F.of_u64 cap) (laws.fmin_fle _ cap) (laws.zero_fle cap)),
      )
