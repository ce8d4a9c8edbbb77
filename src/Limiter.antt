-- ===== src/Limiter.antt =====
-- acton-reactive/src/actor/restart_limiter.rs: how many restarts a child may have in a sliding
-- window, and how long each waits. A clock reading is an argument of the operation that takes it.
pub mod Backoff
pub mod Window
use acton_reactive.Shared.{
  ℕ, ◌+◌, ◌-◌, ◌*◌, ◌%◌, ◌^◌, Bool, not, Option, some, none, List, [], ◌∷◌, ◌++◌, ltb, leb,
  if◌then◌else◌, length, keep,
}
use acton_reactive.World.{F64}

-- `Duration::from_secs` and `Duration::from_millis`, in nanoseconds.
abbrev pub from_secs : ℕ → ℕ
from_secs s = s * 1_000_000_000

abbrev pub from_millis : ℕ → ℕ
from_millis ms = ms * 1_000_000

-- A usize counter wraps.
abbrev pub usize : ℕ → ℕ
usize n = n % 2 ^ 64

-- `i32::try_from(n).unwrap_or(i32::MAX)`.
abbrev pub to_i32 : ℕ → ℕ
to_i32 n = if leb n 2_147_483_647 then n else 2_147_483_647

pub record RestartLimitExceeded : Type 0 where
  pub attempts : ℕ
  pub max_restarts : ℕ
  pub window_secs : ℕ

pub record RestartStats : Type 0 where
  pub restarts_in_window : ℕ
  pub consecutive_restarts : ℕ
  pub window_secs : ℕ
  pub max_restarts : ℕ

-- `now.duration_since(ts) < window`; `duration_since` stops at zero, as `-` does.
abbrev pub is_fresh : ℕ → ℕ → ℕ → Bool
is_fresh window now ts = ltb (now - ts) window

module _ (F : F64) where
  open F use {Float, of_u64, zero as zero_float, mul, powi, fmin, fmax, to_u64}

  pub record RestartLimiterConfig : Type 0 where
    pub enabled : Bool
    pub max_restarts : ℕ
    pub window_secs : ℕ
    pub initial_backoff_ms : ℕ
    pub max_backoff_ms : ℕ
    pub backoff_multiplier : Float

  -- The newest timestamp stands last.
  pub record RestartLimiter : Type 0 where
    pub config : RestartLimiterConfig
    pub restart_timestamps : List ℕ
    pub consecutive_restarts : ℕ

  unfoldable pub new : RestartLimiterConfig → RestartLimiter
  new c = record { config = c; restart_timestamps = []; consecutive_restarts = 0 }

  unfoldable pub window : RestartLimiter → ℕ
  window l = from_secs l.config.window_secs

  unfoldable pub prune_expired : ℕ → RestartLimiter → RestartLimiter
  unfolding window
  prune_expired now l = record l {
    restart_timestamps = keep (is_fresh (window l) now) l.restart_timestamps;
  }

  unfoldable pub refusal : RestartLimiter → Option RestartLimitExceeded
  refusal l =
      if leb l.config.max_restarts (length l.restart_timestamps)
      then some (record {
        attempts = length l.restart_timestamps;
        max_restarts = l.config.max_restarts;
        window_secs = l.config.window_secs;
      })
      else none

  -- `none` is `Ok(())`.
  unfoldable pub can_restart : ℕ → RestartLimiter → Option RestartLimitExceeded × RestartLimiter
  unfolding refusal prune_expired
  can_restart now l =
      if not l.config.enabled
      then (none, l)
      else let pruned = prune_expired now l in (refusal pruned, pruned)

  unfoldable pub peek_backoff : RestartLimiter → ℕ
  peek_backoff l =
      let backoff_ms =
        mul (of_u64 l.config.initial_backoff_ms)
          (powi l.config.backoff_multiplier (to_i32 l.consecutive_restarts)) in
      from_millis (to_u64 (fmax (fmin backoff_ms (of_u64 l.config.max_backoff_ms)) zero_float))

  unfoldable pub record_restart : ℕ → RestartLimiter → ℕ × RestartLimiter
  record_restart now l =
      let backoff_ms =
        mul (of_u64 l.config.initial_backoff_ms)
          (powi l.config.backoff_multiplier (to_i32 l.consecutive_restarts)) in
      let capped_backoff_ms =
        to_u64 (fmax (fmin backoff_ms (of_u64 l.config.max_backoff_ms)) zero_float) in
      (
        from_millis capped_backoff_ms,
        record l {
          restart_timestamps = l.restart_timestamps ++ now ∷ [];
          consecutive_restarts = usize (l.consecutive_restarts + 1);
        },
      )

  unfoldable pub reset_consecutive : RestartLimiter → RestartLimiter
  reset_consecutive l = record l { consecutive_restarts = 0 }

  unfoldable pub stats : RestartLimiter → RestartStats
  stats l = record {
    restarts_in_window = length l.restart_timestamps;
    consecutive_restarts = l.consecutive_restarts;
    window_secs = l.config.window_secs;
    max_restarts = l.config.max_restarts;
  }

  unfoldable pub restarts_in_window : RestartLimiter → ℕ
  restarts_in_window l = length l.restart_timestamps

  unfoldable pub clone : RestartLimiter → RestartLimiter
  clone l = record { config = l.config; restart_timestamps = []; consecutive_restarts = 0 }
