-- ===== src/Limiter/Window.antt =====
-- The sliding window of `RestartLimiter`: a history of calls, each `can_restart` followed by
-- `record_restart` where it is allowed, as supervision/plan.rs makes them.
use acton_reactive.Shared.{
  ℕ, suc, ◌+◌, ◌≤◌, ◌<◌, ◌≡◌, refl, sym, subst, ◌∙◌, Bool, true, false, ◌&&◌, Option, some, none,
  List, [], ◌∷◌, ◌++◌, arith, leb, if◌then◌else◌, length, keep, Bool-cases, inl, inr,
}
use acton_reactive.World.{F64}
use acton_reactive.Limiter.{
  RestartLimiter, RestartLimiterConfig, RestartLimitExceeded, is_fresh, from_secs, new, can_restart,
  record_restart, window, prune_expired,
}

-- How many items pass a test.
abbrev pub count_if : (ℕ → Bool) → List ℕ → ℕ
count_if p [] = 0
count_if p (x ∷ xs) = let rest = count_if p xs in if p x then suc rest else rest

count_if-append :
    (p : ℕ → Bool) (xs ys : List ℕ) → count_if p (xs ++ ys) ≡ count_if p xs + count_if p ys
count_if-append p [] ys = omega arith
count_if-append p (x ∷ xs) ys = ground (arith, count_if-append p xs ys)

length-keep : (p : ℕ → Bool) (xs : List ℕ) → length (keep p xs) ≡ count_if p xs
length-keep p [] = refl
length-keep p (x ∷ xs) = ground (arith, length-keep p xs)

-- What is fresh later was fresh before, so a purge takes nothing that counts later.
count_if-keep :
    (w t t' : ℕ) (xs : List ℕ)
    → t ≤ t'
    → count_if (is_fresh w t') (keep (is_fresh w t) xs) ≡ count_if (is_fresh w t') xs
count_if-keep w t t' [] h = refl
count_if-keep w t t' (x ∷ xs) h = ground (arith, count_if-keep w t t' xs h)

count_if-le :
    (w t t' : ℕ) (xs : List ℕ) → t ≤ t' → count_if (is_fresh w t') xs ≤ count_if (is_fresh w t) xs
count_if-le w t t' [] h = omega arith
count_if-le w t t' (x ∷ xs) h = ground (arith, count_if-le w t t' xs h)

-- Each time in the list has fewer than `m` others after it that are less than `w` older.
abbrev Spaced : ℕ → ℕ → List ℕ → Type 0
Spaced w m [] = Unit {0}
Spaced w m (g ∷ gs) = (count_if (is_fresh w g) gs < m) × Spaced w m gs

-- The times in the window of length `w` that ends at `t`.
abbrev pub in_window : ℕ → ℕ → ℕ → Bool
in_window w t g = leb g t && is_fresh w t g

in_window-le :
    (w t g : ℕ) (gs : List ℕ) → g ≤ t → count_if (in_window w t) gs ≤ count_if (is_fresh w g) gs
in_window-le w t g [] h = omega arith
in_window-le w t g (x ∷ gs) h = ground (arith, in_window-le w t g gs h)

Spaced-le : (w m t : ℕ) (gs : List ℕ) → Spaced w m gs → count_if (in_window w t) gs ≤ m
Spaced-le w m t [] s = omega arith
Spaced-le w m t (g ∷ gs) s = ground (arith, Spaced-le w m t gs s.1, in_window-le w t g gs)

-- Clock readings, two for each call, that never go back.
abbrev pub Ordered : ℕ → List (ℕ × ℕ) → Type 0
Ordered last [] = Unit {0}
Ordered last ((asked, recorded) ∷ rest) =
    (last ≤ asked) × (asked ≤ recorded) × Ordered recorded rest

module _ (F : F64) where
  -- The limiter, and the times at which it recorded a restart, the newest first.
  pub record History : Type 0 where
    pub limiter : RestartLimiter F
    pub granted : List ℕ

  abbrev grant : ℕ → List ℕ → Option RestartLimitExceeded × RestartLimiter F → History
  grant recorded gs (none, l) = record {
    limiter = (record_restart F recorded l).1;
    granted = recorded ∷ gs;
  }
  grant recorded gs (some e, l) = record { limiter = l; granted = gs }

  abbrev pub attempt : ℕ × ℕ → History → History
  attempt (asked, recorded) h = grant recorded h.granted (can_restart F asked h.limiter)

  abbrev pub run : List (ℕ × ℕ) → History → History
  run [] h = h
  run (r ∷ rs) h = run rs (attempt r h)

  abbrev span : History → ℕ
  span h = from_secs h.limiter.config.window_secs

  record Inv (last : ℕ) (h : History) : Type 0 where
    enabled : h.limiter.config.enabled ≡ true
    covered :
        (t : ℕ)
        → last ≤ t
        → count_if (is_fresh (span h) t) h.granted
          ≤ count_if (is_fresh (span h) t) h.limiter.restart_timestamps
    spaced : Spaced (span h) h.limiter.config.max_restarts h.granted

  -- The two ends of a call, by the number of timestamps that a purge leaves.
  abbrev refused : ℕ → History → History
  refused asked h = record h { limiter = prune_expired F asked h.limiter }

  abbrev allowed : ℕ → ℕ → History → History
  allowed asked recorded h = record h {
    limiter = (record_restart F recorded (prune_expired F asked h.limiter)).1;
    granted = recorded ∷ h.granted;
  }

  abbrev is_full : ℕ → History → Bool
  is_full asked h =
      leb h.limiter.config.max_restarts
        (length (keep (is_fresh (span h) asked) h.limiter.restart_timestamps))

  attempt_full :
      (asked recorded : ℕ) (h : History)
      → h.limiter.config.enabled ≡ true
      → is_full asked h ≡ true
      → attempt (asked, recorded) h ≡ refused asked h
  unfolding can_restart window
  attempt_full asked recorded h on e = simp (on, e)

  attempt_free :
      (asked recorded : ℕ) (h : History)
      → h.limiter.config.enabled ≡ true
      → is_full asked h ≡ false
      → attempt (asked, recorded) h ≡ allowed asked recorded h
  unfolding can_restart window
  attempt_free asked recorded h on e = simp (on, e)

  refused-Inv :
      (last asked : ℕ) (h : History) → last ≤ asked → Inv last h → Inv asked (refused asked h)
  unfolding prune_expired
  refused-Inv last asked h p inv = record {
    enabled = inv.enabled;
    covered = λ t le. omega (
      arith,
      inv.covered t (omega arith),
      count_if-keep (span h) asked t h.limiter.restart_timestamps le,
    );
    spaced = inv.spaced;
  }

  allowed-Inv :
      (last asked recorded : ℕ) (h : History)
      → last ≤ asked
      → asked ≤ recorded
      → is_full asked h ≡ false
      → Inv last h
      → Inv recorded (allowed asked recorded h)
  unfolding prune_expired record_restart
  allowed-Inv last asked recorded h p q free inv = record {
    enabled = inv.enabled;
    covered = λ t le. ground (
      arith,
      inv.covered t (omega arith),
      count_if-keep (span h) asked t ts (omega arith),
      count_if-append (is_fresh (span h) t) (keep (is_fresh (span h) asked) ts) (recorded ∷ []),
    );
    spaced = (
      ground (
        arith,
        count_if-le (span h) asked recorded h.granted q,
        inv.covered asked p,
        length-keep (is_fresh (span h) asked) ts,
      ),
      inv.spaced,
    );
  }
    where
      ts : List ℕ
      ts = h.limiter.restart_timestamps

  Inv-later : (m n : ℕ) (h : History) → m ≤ n → Inv m h → Inv n h
  Inv-later m n h le inv = record {
    enabled = inv.enabled;
    covered = λ t p. inv.covered t (omega arith);
    spaced = inv.spaced;
  }

  attempt-Inv :
      (last asked recorded : ℕ) (h : History)
      → last ≤ asked
      → asked ≤ recorded
      → Inv last h
      → Inv recorded (attempt (asked, recorded) h)
  attempt-Inv last asked recorded h p q inv = elim (Bool-cases (is_full asked h)) [
    | inl full ↦
        subst (Inv recorded) (sym (attempt_full asked recorded h inv.enabled full))
          (Inv-later asked recorded _ q (refused-Inv last asked h p inv))
    | inr free ↦
        subst (Inv recorded) (sym (attempt_free asked recorded h inv.enabled free))
          (allowed-Inv last asked recorded h p q free inv)
  ]

  attempt-config : (r : ℕ × ℕ) (h : History) → (attempt r h).limiter.config ≡ h.limiter.config
  unfolding can_restart record_restart
  attempt-config r h = ground arith

  run-Inv :
      (last : ℕ) (rs : List (ℕ × ℕ)) (h : History)
      → Ordered last rs
      → Inv last h
      → (m : ℕ) × Inv m (run rs h)
  run-Inv last [] h o inv = (last, inv)
  run-Inv last ((asked, recorded) ∷ rs) h o inv =
      run-Inv recorded rs (attempt (asked, recorded) h) o.2
        (attempt-Inv last asked recorded h o.0 o.1 inv)

  run-config : (rs : List (ℕ × ℕ)) (h : History) → (run rs h).limiter.config ≡ h.limiter.config
  run-config [] h = refl
  run-config (r ∷ rs) h = run-config rs (attempt r h) ∙ attempt-config r h

  abbrev pub start : RestartLimiterConfig F → History
  start c = record { limiter = new F c; granted = [] }

  -- Whatever the moments at which restarts are asked for, on a clock that does not go back, and
  -- with the limiter enabled, no stretch of time as long as the window holds more recorded restarts
  -- than the configured maximum.
  pub granted-le_max :
      (c : RestartLimiterConfig F) (rs : List (ℕ × ℕ)) (t : ℕ)
      → c.enabled ≡ true
      → Ordered 0 rs
      → count_if (in_window (from_secs c.window_secs) t) (run rs (start c)).granted ≤ c.max_restarts
  unfolding new
  granted-le_max c rs t on o =
      let inv0 : Inv 0 (start c) = record {
        enabled = on;
        covered = λ t le. omega arith;
        spaced = tt;
      } in
      let (m, inv) = run-Inv 0 rs (start c) o inv0 in
      rw (run-config rs (start c)) at (
        Spaced-le (span (run rs (start c))) (run rs (start c)).limiter.config.max_restarts t _
          inv.spaced)
