-- ===== src/Examples/Limits.antt =====
-- The limiter at work.
use acton_reactive.Shared.{ℕ, ◌≤◌, ◌≡◌, refl, true, List, [], ◌∷◌, arith}
use acton_reactive.Examples.{exact, exact_laws}
use acton_reactive.Limiter.{
  RestartLimiterConfig, new, record_restart, peek_backoff, from_secs, from_millis,
}
use acton_reactive.Limiter.Backoff.{record_restart-le_max, peek_backoff-record_restart}
use acton_reactive.Limiter.Window.{granted-le_max, count_if, in_window, run, start}

-- `RestartLimiterConfig::default`.
abbrev pub default_config : RestartLimiterConfig exact
default_config = record {
  enabled = true;
  max_restarts = 5;
  window_secs = 60;
  initial_backoff_ms = 100;
  max_backoff_ms = 30_000;
  backoff_multiplier = 2;
}

second_backoff :
    (record_restart exact 2 (record_restart exact 1 (new exact default_config)).1).0
    ≡ from_millis 200
unfolding new record_restart
second_backoff = refl

record_restart-le_max_example :
    (record_restart exact 7 (new exact default_config)).0 ≤ from_millis 30_000
unfolding new
record_restart-le_max_example =
    record_restart-le_max exact exact_laws (new exact default_config) 7 (omega arith)

peek_backoff-record_restart_example :
    (record_restart exact 7 (new exact default_config)).0
    ≡ peek_backoff exact (new exact default_config)
peek_backoff-record_restart_example = peek_backoff-record_restart exact (new exact default_config) 7

abbrev readings : List (ℕ × ℕ)
readings = (1, 2) ∷ (3, 4) ∷ (5, 5) ∷ []

granted-le_max_example :
    count_if (in_window (from_secs 60) 9) (run exact readings (start exact default_config)).granted
    ≤ 5
granted-le_max_example = granted-le_max exact default_config readings 9 refl (omega arith)
