-- ===== src/Examples/Watching.antt =====
-- A watcher of a child that starts, runs, and is retired.
use acton_reactive.Shared.{ℕ, Bool, Option, some, none, List, [], ◌∷◌, if◌then◌else◌}
use acton_reactive.Examples.{small}
use acton_reactive.Status.{SupervisionStatus, SupervisionState}
use acton_reactive.Status.Waiting.{Watch, SupervisedChild}

-- The first status that the test accepts, of those that are still to come.
abbrev first_of :
    List (SupervisionStatus small)
    → (SupervisionStatus small → Bool)
    → Option (SupervisionStatus small) × List (SupervisionStatus small)
first_of [] p = (none, [])
first_of (s ∷ later) p = if p s then (some s, s ∷ later) else first_of later p

abbrev listed_statuses : Watch small
listed_statuses = record { Receiver = List (SupervisionStatus small); receive = first_of }

abbrev told : Option ℕ → ℕ → SupervisionState → SupervisionStatus small
told handle generation state = record {
  child = 7;
  handle = handle;
  generation = generation;
  state = state;
  restarts_in_window = 0;
  failure = none;
}

abbrev watcher : SupervisedChild small listed_statuses
watcher = record {
  ern = 7;
  supervisor = 100;
  status =
      told none 0 SupervisionState.starting
      ∷ told (some 70) 0 SupervisionState.running
      ∷ told none 0 SupervisionState.retired
      ∷ [];
}
