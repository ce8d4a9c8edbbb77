-- ===== src/RateLimiter.antt =====
-- acton-reactive/src/common/ipc/rate_limiter.rs: the token bucket of one IPC connection, its settings
-- from common/ipc/config.rs, and the check that common/ipc/listener.rs makes before a request. The
-- arithmetic of f64 and the conversions of `Duration` are parameters. Instants and durations are
-- numbers of nanoseconds, and each call is given its reading of the clock.
pub mod Bursts
pub mod Stalled
use acton_reactive.Shared.{
  ℕ, suc, ◌+◌, ◌-◌, ◌/◌, ◌^◌, ◌≡◌, ◌≤◌, Bool, true, false, not, Option, none, some, ltb,
  if◌then◌else◌,
}

-- `from_secs` is `Duration::from_secs_f64`, which panics on what is no duration: none.
pub record Floats : Type 1 where
  pub Float : Type 0
  pub of_u32 : ℕ → Float
  pub mul_add : Float → Float → Float → Float
  pub fmin : Float → Float → Float
  pub ge : Float → Float → Bool
  pub sub : Float → Float → Float
  pub div : Float → Float → Float
  pub as_secs : ℕ → Float
  pub from_secs : Float → Option ℕ

-- Of the order `fle`, which no NaN is in: a u32 is a float exactly; `min` passes over a NaN and is
-- otherwise the smaller one; rounding keeps the order; no time adds nothing. What is short of one
-- token stays so without a refill, and what it lacks divided by a rate of zero is no duration.
pub record FloatsLaws (F : Floats) : Type 1 where
  pub fle : F.Float → F.Float → Type 0
  pub fmin_right : (x : F.Float) (n : ℕ) → fle (F.fmin x (F.of_u32 n)) (F.of_u32 n)
  pub fmin_left : (x y : F.Float) (n : ℕ) → fle x (F.of_u32 n) → fle (F.fmin x y) (F.of_u32 n)
  pub ge_false : (x : F.Float) → fle x (F.of_u32 0) → F.ge x (F.of_u32 1) ≡ false
  pub sub_one :
      (x : F.Float) (n : ℕ)
      → suc n ≤ 2 ^ 32
      → fle x (F.of_u32 (suc n))
      → fle (F.sub x (F.of_u32 1)) (F.of_u32 n)
  pub no_time :
      (x : F.Float) (rate n : ℕ)
      → fle x (F.of_u32 n)
      → fle (F.mul_add (F.as_secs 0) (F.of_u32 rate) x) (F.of_u32 n)
  pub no_refill :
      (x y : F.Float) (n d : ℕ)
      → fle x (F.of_u32 n)
      → F.ge x (F.of_u32 1) ≡ false
      → F.ge (F.fmin (F.mul_add (F.as_secs d) (F.of_u32 0) x) y) (F.of_u32 1) ≡ false
  pub by_zero :
      (x : F.Float)
      → F.ge x (F.of_u32 1) ≡ false
      → F.from_secs (F.div (F.sub (F.of_u32 1) x) (F.of_u32 0)) ≡ none

pub record RateLimitConfig : Type 0 where
  pub enabled : Bool
  pub requests_per_second : ℕ
  pub burst_size : ℕ

-- `u64::try_from(duration.as_millis()).unwrap_or(u64::MAX)`.
abbrev pub as_millis : ℕ → ℕ
as_millis d = let ms = d / 1_000_000 in if ltb ms (2 ^ 64) then ms else 2 ^ 64 - 1

-- What the listener does with a request: it goes on, answers when to try again, or panics.
pub data RateCheck : Type 0 where
  allowed : RateCheck
  rate_limited : ℕ → RateCheck
  panicked : RateCheck

module _ (F : Floats) where
  open F use {Float, of_u32, mul_add, fmin, ge, sub, div, as_secs, from_secs}

  pub record RateLimiter : Type 0 where
    pub tokens : Float
    pub capacity : Float
    pub refill_rate : Float
    pub last_update : ℕ
    pub enabled : Bool

  unfoldable pub new_limiter : RateLimitConfig → ℕ → RateLimiter
  new_limiter config now = record {
    tokens = of_u32 config.burst_size;
    capacity = of_u32 config.burst_size;
    refill_rate = of_u32 config.requests_per_second;
    last_update = now;
    enabled = config.enabled;
  }

  -- `duration_since` is zero when the clock is behind.
  unfoldable pub refill : RateLimiter → ℕ → RateLimiter
  refill l now = record l {
    last_update = now;
    tokens = fmin (mul_add (as_secs (now - l.last_update)) l.refill_rate l.tokens) l.capacity;
  }

  abbrev pub take_token : RateLimiter → Bool × RateLimiter
  take_token l =
      if ge l.tokens (of_u32 1)
      then (true, record l { tokens = sub l.tokens (of_u32 1) })
      else (false, l)

  unfoldable pub try_acquire : RateLimiter → ℕ → Bool × RateLimiter
  unfolding refill
  try_acquire l now = if not l.enabled then (true, l) else take_token (refill l now)

  abbrev pub wait_for_token : RateLimiter → Option ℕ
  wait_for_token l =
      if ge l.tokens (of_u32 1)
      then some 0
      else from_secs (div (sub (of_u32 1) l.tokens) l.refill_rate)

  -- None where the conversion panics.
  unfoldable pub time_until_available : RateLimiter → ℕ → Option ℕ × RateLimiter
  unfolding refill
  time_until_available l now =
      if not l.enabled then (some 0, l) else (wait_for_token (refill l now), refill l now)

  unfoldable pub available_tokens : RateLimiter → ℕ → Float × RateLimiter
  unfolding refill
  available_tokens l now = ((refill l now).tokens, refill l now)

  abbrev pub limited : Option ℕ → RateCheck
  limited none = panicked
  limited (some d) = rate_limited (as_millis d)

  -- The two calls read the clock one after the other.
  unfoldable pub check_rate : RateLimiter → ℕ → ℕ → RateCheck × RateLimiter
  unfolding try_acquire time_until_available
  check_rate l now later =
      let (granted, l') = try_acquire l now in
      if granted
      then (allowed, l')
      else (limited (time_until_available l' later).0, (time_until_available l' later).1)
