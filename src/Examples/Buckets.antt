-- ===== src/Examples/Buckets.antt =====
-- A token bucket over whole numbers, with one value for all that is no number.
use Prim.Native.Nat.{min}
use acton_reactive.Shared.{
  ℕ, suc, ◌+◌, ◌*◌, ◌-◌, ◌/◌, ◌≤◌, ◌≡◌, refl, Bool, true, false, Option, none, some, [], ◌∷◌, leb,
  arith,
}
use acton_reactive.RateLimiter.{
  Floats, FloatsLaws, RateLimitConfig, new_limiter, refill, try_acquire, check_rate, panicked,
}
use acton_reactive.RateLimiter.Bursts.{acquires, asks, calls, granted, granted-le_burst}
use acton_reactive.RateLimiter.Stalled.{check_rate-panics}

abbrev sum : Option ℕ → Option ℕ → Option ℕ → Option ℕ
sum (some e) (some r) (some x) = some (e * r + x)
sum _ _ _ = none

abbrev smaller : Option ℕ → Option ℕ → Option ℕ
smaller (some x) (some y) = some (min x y)
smaller (some x) none = some x
smaller none y = y

abbrev at_least : Option ℕ → Option ℕ → Bool
at_least (some x) (some y) = leb y x
at_least _ _ = false

abbrev less : Option ℕ → Option ℕ → Option ℕ
less (some x) (some y) = some (x - y)
less _ _ = none

abbrev over : Option ℕ → Option ℕ → Option ℕ
over (some x) (some (suc y)) = some (x / suc y)
over _ _ = none

abbrev to_nanos : Option ℕ → Option ℕ
to_nanos none = none
to_nanos (some n) = some (n * 1_000_000_000)

abbrev whole : Floats
whole = record {
  Float = Option ℕ;
  of_u32 = λ n. some n;
  mul_add = sum;
  fmin = smaller;
  ge = at_least;
  sub = less;
  div = over;
  as_secs = λ d. some (d / 1_000_000_000);
  from_secs = to_nanos;
}

abbrev IsBelow : Option ℕ → Option ℕ → Type 0
IsBelow (some x) (some y) = x ≤ y
IsBelow _ _ = ⊥

whole_laws : FloatsLaws whole
whole_laws = record {
  fle = IsBelow;
  fmin_right = smaller_right;
  fmin_left = smaller_left;
  ge_false = none_left;
  sub_one = one_less;
  no_time = as_before;
  no_refill = still_short;
  by_zero = no_duration;
}
  where
    smaller_right : (x : Option ℕ) (n : ℕ) → IsBelow (smaller x (some n)) (some n)
    smaller_right (some x) n = omega arith
    smaller_right none n = omega arith

    smaller_left : (x y : Option ℕ) (n : ℕ) → IsBelow x (some n) → IsBelow (smaller x y) (some n)
    smaller_left (some x) (some y) n h = omega arith
    smaller_left (some x) none n h = h
    smaller_left none y n h = absurd h

    none_left : (x : Option ℕ) → IsBelow x (some 0) → at_least x (some 1) ≡ false
    none_left (some x) h = ground arith
    none_left none h = refl

    one_less :
        (x : Option ℕ) (n : ℕ)
        → suc n ≤ 4_294_967_296
        → IsBelow x (some (suc n))
        → IsBelow (less x (some 1)) (some n)
    one_less (some x) n small h = omega arith
    one_less none n small h = h

    as_before :
        (x : Option ℕ) (rate n : ℕ)
        → IsBelow x (some n)
        → IsBelow (sum (some 0) (some rate) x) (some n)
    as_before (some x) rate n h = omega arith
    as_before none rate n h = h

    still_short :
        (x y : Option ℕ) (n d : ℕ)
        → IsBelow x (some n)
        → at_least x (some 1) ≡ false
        → at_least (smaller (sum (some (d / 1_000_000_000)) (some 0) x) y) (some 1) ≡ false
    still_short (some x) (some y) n d h short = ground arith
    still_short (some x) none n d h short = ground arith
    still_short none y n d h short = absurd h

    no_duration :
        (x : Option ℕ)
        → at_least x (some 1) ≡ false
        → to_nanos (over (less (some 1) x) (some 0)) ≡ none
    no_duration (some x) short = refl
    no_duration none short = refl

abbrev steady : RateLimitConfig
steady = record { enabled = true; requests_per_second = 100; burst_size = 2 }

granted-le_burst_example :
    granted whole 9
      (calls whole (new_limiter whole steady 0) (acquires 5 ∷ asks 7 ∷ []))
      2_000_000_000
    ≤ 2
granted-le_burst_example =
    granted-le_burst whole whole_laws steady 0 2_000_000_000 9 (acquires 5 ∷ asks 7 ∷ []) refl
      (omega arith)

abbrev frozen : RateLimitConfig
frozen = record { enabled = true; requests_per_second = 0; burst_size = 1 }

no_token_left :
    (try_acquire whole (calls whole (new_limiter whole frozen 0) (acquires 5 ∷ [])) 2_000_000_000).0
    ≡ false
unfolding new_limiter try_acquire refill
no_token_left = refl

check_rate-panics_example :
    (check_rate whole
      (calls whole (new_limiter whole frozen 0) (acquires 5 ∷ []))
      2_000_000_000
      2_000_000_001).0
    ≡ panicked
check_rate-panics_example =
    check_rate-panics whole whole_laws frozen 0 2_000_000_000 2_000_000_001 (acquires 5 ∷ []) refl
      no_token_left
