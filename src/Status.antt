-- ===== src/Status.antt =====
-- acton-reactive/src/actor/supervision/error.rs, status.rs, and the newtypes of
-- registry.rs: what the watchers of a supervised child are told. A text is the list of its
-- bytes; a generation is a u64.
pub mod Waiting
use acton_reactive.Shared.{
  ℕ, ◌+◌, ◌%◌, ◌^◌, Bool, true, false, ◌||◌, ◌&&◌, Option, some, none, List, ℕ_discrete, leb,
  decide, Result, ok, err, is_some,
}
use acton_reactive.World.{World}
use acton_reactive.Limiter.{RestartLimitExceeded}

pub data SupervisionState : Type 0 where
  starting running restart_pending restarting down escalated retired : SupervisionState

pub SupervisionState-discrete : Discrete SupervisionState
SupervisionState-discrete = hlevel

unfoldable pub is_terminal : SupervisionState → Bool
is_terminal down = true
is_terminal escalated = true
is_terminal retired = true
is_terminal _ = false

-- `RestartGeneration(0)` and `RestartGeneration::next`.
abbrev pub first_generation : ℕ
first_generation = 0

abbrev pub next_generation : ℕ → ℕ
next_generation g = (g + 1) % 2 ^ 64

-- The `reason` is a text.
pub data SupervisionError (Ern : Type 0) : Type 0 where
  duplicate_child unknown_child : Ern → SupervisionError Ern
  config_rejected : Ern → List ℕ → SupervisionError Ern
  supervisor_stopped : Ern → SupervisionError Ern
  restart_limit : Ern → RestartLimitExceeded → SupervisionError Ern
  child_stop_timeout : Ern → ℕ → SupervisionError Ern
  release_lost : Ern → SupervisionError Ern
  child_not_running : Ern → SupervisionState → SupervisionError Ern
  registration_lost : Ern → SupervisionError Ern

unfoldable pub failure_discrete :
    {Ern : Type 0} → Discrete Ern → Discrete (Option (SupervisionError Ern))
failure_discrete d = hlevel (d, ℕ_discrete)

module _ (W : World) where
  open W use {Ern, Handle}

  pub record SupervisionStatus : Type 0 where
    pub child : Ern
    pub handle : Option Handle
    pub generation : ℕ
    pub state : SupervisionState
    pub restarts_in_window : ℕ
    pub failure : Option (SupervisionError Ern)

  -- The test of `wait_running`, and of `wait_generation` with a generation to reach.
  unfoldable pub is_settled : SupervisionStatus → Bool
  unfolding is_terminal
  is_settled s =
      decide (SupervisionState-discrete s.state running) && is_some s.handle || is_terminal s.state

  unfoldable pub has_reached : ℕ → SupervisionStatus → Bool
  unfolding is_terminal
  has_reached g s =
      leb g s.generation && decide (SupervisionState-discrete s.state running) && is_some s.handle
      || is_terminal s.state

  unfoldable pub not_running :
      Ern → SupervisionStatus → Option (SupervisionError Ern) → SupervisionError Ern
  not_running ern s none = child_not_running ern s.state
  not_running ern s (some failure) = failure

  -- The first argument is the name that the `SupervisedChild` holds.
  unfoldable pub running_handle : Ern → SupervisionStatus → Result (SupervisionError Ern) Handle
  unfolding not_running
  running_handle ern s = handle_of (decide (SupervisionState-discrete s.state running)) s.handle
    where
      handle_of : Bool → Option Handle → Result (SupervisionError Ern) Handle
      handle_of true (some handle) = ok handle
      handle_of _ _ = err (not_running ern s s.failure)
