-- ===== src/RateLimiter/Stalled.antt =====
-- A bucket that is never refilled.
use acton_reactive.Shared.{
  ℕ, ◌-◌, ◌≡◌, refl, ◌∙◌, sym, ap, subst, Bool, true, false, not, Option, none, some, List,
  if◌then◌else◌,
}
use acton_reactive.RateLimiter.{
  Floats, FloatsLaws, RateLimitConfig, RateLimiter, new_limiter, refill, try_acquire,
  time_until_available, wait_for_token, check_rate, limited, RateCheck, allowed, panicked,
}
use acton_reactive.RateLimiter.Bursts.{
  Call, calls, IsOf, calls-IsOf, new-IsOf, refill-IsOf, refill-le_burst,
}

module _ (F : Floats) where
  open F use {Float, of_u32, ge, sub, div, from_secs}

  -- A request that a limiter refuses leaves it refilled, and short of a token.
  refused :
      (l : RateLimiter F) (now : ℕ)
      → (try_acquire F l now).0 ≡ false
      → (l.enabled ≡ true)
        × (ge (refill F l now).tokens (of_u32 1) ≡ false)
        × ((try_acquire F l now).1 ≡ refill F l now)
  unfolding try_acquire
  refused l now h = by_cases l.enabled (ge (refill F l now).tokens (of_u32 1)) h
    where
      step : Bool → Bool → Bool × RateLimiter F
      step o g =
          if not o
          then (true, l)
          else if g
          then (true, record (refill F l now) { tokens = sub (refill F l now).tokens (of_u32 1) })
          else (false, refill F l now)

      by_cases :
          (o g : Bool)
          → (step o g).0 ≡ false
          → (o ≡ true) × (g ≡ false) × ((step o g).1 ≡ refill F l now)
      by_cases true true h = absurd (cc h)
      by_cases true false h = (refl, refl, refl)
      by_cases false g h = absurd (cc h)

  no_wait :
      (laws : FloatsLaws F) (config : RateLimitConfig) (l : RateLimiter F) (later : ℕ)
      → IsOf F config l
      → config.requests_per_second ≡ 0
      → laws.fle l.tokens (of_u32 config.burst_size)
      → ge l.tokens (of_u32 1) ≡ false
      → wait_for_token F (refill F l later) ≡ none
  unfolding refill
  no_wait laws config l later h stopped few short =
      let rate : l.refill_rate ≡ of_u32 0 = h.rate ∙ ap of_u32 stopped in
      let still : ge (refill F l later).tokens (of_u32 1) ≡ false =
        subst
          (λ r.
            ge (F.fmin (F.mul_add (F.as_secs (later - l.last_update)) r l.tokens) l.capacity)
              (of_u32 1)
            ≡ false)
          (sym rate)
          (laws.no_refill l.tokens l.capacity config.burst_size (later - l.last_update) few
            short) in
      let r = refill F l later in
      ap
        (λ (g : Bool).
          if g then some 0 else from_secs (div (sub (of_u32 1) r.tokens) r.refill_rate))
        still
      ∙ ap (λ x. from_secs (div (sub (of_u32 1) r.tokens) x)) rate
      ∙ laws.by_zero r.tokens still

  -- With limiting on and zero requests per second allowed, the listener panics at the first request
  -- that finds no token, in place of answering that the connection is limited.
  pub check_rate-panics :
      (laws : FloatsLaws F) (config : RateLimitConfig) (start now later : ℕ)
      (before : List (Call F))
      → config.requests_per_second ≡ 0
      → let l = calls F (new_limiter F config start) before in
        (try_acquire F l now).0 ≡ false → (check_rate F l now later).0 ≡ panicked
  unfolding check_rate time_until_available refill
  check_rate-panics laws config start now later before stopped denied =
      let l = calls F (new_limiter F config start) before in
      let settings =
        calls-IsOf F config (new_limiter F config start) before (new-IsOf F config start) in
      let (on, short, same) = refused l now denied in
      let r = refill F l now in
      let few : laws.fle r.tokens (of_u32 config.burst_size) =
        refill-le_burst F laws config l now settings in
      let gone =
        no_wait laws config r later (refill-IsOf F config l now settings) stopped few short in
      let next = (try_acquire F l now).1 in
      let answer : Bool → RateCheck × RateLimiter F = λ g. if g then (allowed, next) else (
        limited F (time_until_available F next later).0,
        (time_until_available F next later).1,
      ) in
      let asked : Bool → Option ℕ × RateLimiter F = λ o.
        if not o then (some 0, r) else (wait_for_token F (refill F r later), refill F r later) in
      ap (λ (g : Bool). (answer g).0) denied
      ∙ ap (λ x. limited F (time_until_available F x later).0) same
      ∙ ap (λ (o : Bool). limited F (asked o).0) on
      ∙ ap (limited F) gone
