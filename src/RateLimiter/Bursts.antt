-- ===== src/RateLimiter/Bursts.antt =====
-- How many requests pass at once, whatever came before.
use acton_reactive.Shared.{
  ℕ, zero, suc, ◌+◌, ◌-◌, ◌^◌, ◌≡◌, ◌≤◌, refl, ◌∙◌, sym, ap, subst, Bool, true, false, not, List,
  [], ◌∷◌, arith, if◌then◌else◌, Bool-cases, inl, inr,
}
use acton_reactive.RateLimiter.{
  Floats, FloatsLaws, RateLimitConfig, RateLimiter, new_limiter, refill, try_acquire,
  time_until_available, available_tokens,
}

module _ (F : Floats) where
  open F use {Float, of_u32, ge, sub}

  -- Calls of a limiter, each with its reading of the clock.
  pub data Call : Type 0 where
    acquires asks looks : ℕ → Call

  abbrev pub call : RateLimiter F → Call → RateLimiter F
  call l (acquires now) = (try_acquire F l now).1
  call l (asks now) = (time_until_available F l now).1
  call l (looks now) = (available_tokens F l now).1

  abbrev pub calls : RateLimiter F → List Call → RateLimiter F
  calls l [] = l
  calls l (c ∷ cs) = calls (call l c) cs

  -- How many of a number of requests pass that all read the same time.
  abbrev pub granted : ℕ → RateLimiter F → ℕ → ℕ
  granted zero l now = 0
  granted (suc k) l now =
      (if (try_acquire F l now).0 then 1 else 0) + granted k (try_acquire F l now).1 now

  -- The settings of a limiter stay those that it began with.
  pub record IsOf (config : RateLimitConfig) (l : RateLimiter F) : Type 0 where
    pub capacity : l.capacity ≡ of_u32 config.burst_size
    pub rate : l.refill_rate ≡ of_u32 config.requests_per_second
    pub enabled : l.enabled ≡ config.enabled

  pub refill-IsOf :
      (config : RateLimitConfig) (l : RateLimiter F) (now : ℕ)
      → IsOf config l
      → IsOf config (refill F l now)
  unfolding refill
  refill-IsOf config l now h = record { capacity = h.capacity; rate = h.rate; enabled = h.enabled }

  either-IsOf :
      (config : RateLimitConfig) {A : Type 0} (c : Bool) (x y : A × RateLimiter F)
      → IsOf config x.1
      → IsOf config y.1
      → IsOf config (if c then x else y).1
  either-IsOf config true x y h k = h
  either-IsOf config false x y h k = k

  pub try_acquire-IsOf :
      (config : RateLimitConfig) (l : RateLimiter F) (now : ℕ)
      → IsOf config l
      → IsOf config (try_acquire F l now).1
  unfolding try_acquire
  try_acquire-IsOf config l now h =
      let r = refill-IsOf config l now h in
      either-IsOf config (not l.enabled) _ _ h (
        either-IsOf config (ge (refill F l now).tokens (of_u32 1)) _ _
          (record { capacity = r.capacity; rate = r.rate; enabled = r.enabled }) r)

  call-IsOf :
      (config : RateLimitConfig) (l : RateLimiter F) (c : Call)
      → IsOf config l
      → IsOf config (call l c)
  unfolding time_until_available available_tokens
  call-IsOf config l (acquires now) h = try_acquire-IsOf config l now h
  call-IsOf config l (asks now) h =
      either-IsOf config (not l.enabled) _ _ h (refill-IsOf config l now h)
  call-IsOf config l (looks now) h = refill-IsOf config l now h

  pub calls-IsOf :
      (config : RateLimitConfig) (l : RateLimiter F) (cs : List Call)
      → IsOf config l
      → IsOf config (calls l cs)
  calls-IsOf config l [] h = h
  calls-IsOf config l (c ∷ cs) h = calls-IsOf config (call l c) cs (call-IsOf config l c h)

  pub new-IsOf : (config : RateLimitConfig) (now : ℕ) → IsOf config (new_limiter F config now)
  unfolding new_limiter
  new-IsOf config now = record { capacity = refl; rate = refl; enabled = refl }

  module _ (laws : FloatsLaws F) where
    open laws use {fle}

    -- A second refill at the same time adds nothing.
    refill_again :
        (config : RateLimitConfig) (l : RateLimiter F) (now n : ℕ)
        → IsOf config l
        → l.last_update ≡ now
        → fle l.tokens (of_u32 n)
        → fle (refill F l now).tokens (of_u32 n)
    unfolding refill
    refill_again config l now n h at few =
        let elapsed : now - l.last_update ≡ 0 = omega (arith, at) in
        laws.fmin_left _ l.capacity n (
          subst (λ rate. fle (F.mul_add (F.as_secs (now - l.last_update)) rate l.tokens) (of_u32 n))
            (sym h.rate)
            (subst
              (λ d.
                fle (F.mul_add (F.as_secs d) (of_u32 config.requests_per_second) l.tokens)
                  (of_u32 n))
              (sym elapsed) (laws.no_time l.tokens config.requests_per_second n few)))

    -- One request more, by whether there is a token.
    granted_next :
        (config : RateLimitConfig) (k : ℕ) (l : RateLimiter F) (now : ℕ) (enough : Bool)
        → IsOf config l
        → config.enabled ≡ true
        → ge (refill F l now).tokens (of_u32 1) ≡ enough
        → granted (suc k) l now ≡ (
            if enough
            then 1
              + granted k
                  (record (refill F l now) { tokens = sub (refill F l now).tokens (of_u32 1) })
                  now
            else granted k (refill F l now) now)
    unfolding try_acquire
    granted_next config k l now enough h on e =
        ap
          (λ o.
            (if (step o (ge (refill F l now).tokens (of_u32 1))).0 then 1 else 0)
            + granted k (step o (ge (refill F l now).tokens (of_u32 1))).1 now)
          (h.enabled ∙ on)
        ∙ ap (λ g. (if (step true g).0 then 1 else 0) + granted k (step true g).1 now) e
        ∙ same enough
      where
        step : Bool → Bool → Bool × RateLimiter F
        step o g =
            if not o
            then (true, l)
            else if g
            then (true, record (refill F l now) { tokens = sub (refill F l now).tokens (of_u32 1) })
            else (false, refill F l now)

        same :
            (g : Bool)
            → (if (step true g).0 then 1 else 0) + granted k (step true g).1 now ≡ (
                if g
                then 1
                  + granted k
                      (record (refill F l now) { tokens = sub (refill F l now).tokens (of_u32 1) })
                      now
                else granted k (refill F l now) now)
        same true = refl
        same false = omega arith

    granted_once :
        (config : RateLimitConfig) (k : ℕ) (l : RateLimiter F) (now n : ℕ)
        → IsOf config l
        → config.enabled ≡ true
        → n ≤ 2 ^ 32
        → fle (refill F l now).tokens (of_u32 n)
        → ((r : RateLimiter F) (m : ℕ)
            → IsOf config r
            → m ≤ 2 ^ 32
            → r.last_update ≡ now
            → fle r.tokens (of_u32 m)
            → granted k r now ≤ m)
        → granted (suc k) l now ≤ n
    unfolding refill
    granted_once config k l now n h on small few again =
        elim (Bool-cases (ge (refill F l now).tokens (of_u32 1))) [
          | inl enough ↦ with_token n small few enough
          | inr short ↦ omega (
            arith,
            again (refill F l now) n settings small refl few,
            granted_next config k l now false h on short,
          )
        ]
      where
        settings : IsOf config (refill F l now)
        settings = refill-IsOf config l now h

        with_token :
            (n : ℕ)
            → n ≤ 2 ^ 32
            → fle (refill F l now).tokens (of_u32 n)
            → ge (refill F l now).tokens (of_u32 1) ≡ true
            → granted (suc k) l now ≤ n
        with_token zero small few enough = absurd (cc (sym enough ∙ laws.ge_false _ few))
        with_token (suc n) small few enough =
            let r : RateLimiter F = record (refill F l now) {
              tokens = sub (refill F l now).tokens (of_u32 1);
            } in
            let s : IsOf config r = record {
              capacity = settings.capacity;
              rate = settings.rate;
              enabled = settings.enabled;
            } in
            let rest = again r n s (omega (arith, small)) refl (laws.sub_one _ n small few) in
            omega (arith, rest, granted_next config k l now true h on enough)

    granted_rest :
        (config : RateLimitConfig) (k : ℕ) (l : RateLimiter F) (now n : ℕ)
        → IsOf config l
        → config.enabled ≡ true
        → n ≤ 2 ^ 32
        → fle (refill F l now).tokens (of_u32 n)
        → granted k l now ≤ n
    granted_rest config zero l now n h on small few = omega arith
    granted_rest config (suc k) l now n h on small few =
        granted_once config k l now n h on small few (λ r m s fits at less.
          granted_rest config k r now m s on fits (refill_again config r now m s at less))

  pub refill-le_burst :
      (laws : FloatsLaws F) (config : RateLimitConfig) (l : RateLimiter F) (now : ℕ)
      → IsOf config l
      → laws.fle (refill F l now).tokens (of_u32 config.burst_size)
  unfolding refill
  refill-le_burst laws config l now settings =
      subst
        (λ c.
          laws.fle (F.fmin (F.mul_add (F.as_secs (now - l.last_update)) l.refill_rate l.tokens) c)
            (of_u32 config.burst_size))
        (sym settings.capacity) (laws.fmin_right _ config.burst_size)

  -- However a limiter was used before, at one reading of the clock no more requests pass than the
  -- size of the burst, if limiting is on.
  pub granted-le_burst :
      (laws : FloatsLaws F) (config : RateLimitConfig) (start now k : ℕ) (before : List Call)
      → config.enabled ≡ true
      → config.burst_size ≤ 2 ^ 32
      → granted k (calls (new_limiter F config start) before) now ≤ config.burst_size
  unfolding refill
  granted-le_burst laws config start now k before on small =
      let l = calls (new_limiter F config start) before in
      let settings =
        calls-IsOf config (new_limiter F config start) before (new-IsOf config start) in
      granted_rest laws config k l now config.burst_size settings on small
        (refill-le_burst laws config l now settings)
