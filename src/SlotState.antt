-- ===== src/SlotState.antt =====
-- The state machine of a supervised child, `SlotState` in
-- acton-reactive/src/actor/supervision/registry.rs.
use acton_reactive.Shared.{Bool, true, false, ◌||◌}
use acton_reactive.Status.{SupervisionState}

pub data SlotState : Type 0 where
  pending starting running awaiting_backoff awaiting_restart restarting : SlotState
  expected_stop : Bool → SlotState
  down escalated retired : SlotState

unfoldable pub published : SlotState → SupervisionState
published pending = SupervisionState.starting
published starting = SupervisionState.starting
published running = SupervisionState.running
published awaiting_backoff = SupervisionState.restart_pending
published awaiting_restart = SupervisionState.restarting
published restarting = SupervisionState.restarting
published (expected_stop then_restart) = SupervisionState.restarting
published down = SupervisionState.down
published escalated = SupervisionState.escalated
published retired = SupervisionState.retired

abbrev pub is_running : SlotState → Bool
is_running starting = true
is_running running = true
is_running _ = false

abbrev pub accepts_termination : SlotState → Bool
accepts_termination starting = true
accepts_termination running = true
accepts_termination _ = false

abbrev pub is_being_started : SlotState → Bool
is_being_started starting = true
is_being_started restarting = true
is_being_started _ = false

abbrev pub is_queued_to_start : SlotState → Bool
is_queued_to_start pending = true
is_queued_to_start awaiting_restart = true
is_queued_to_start _ = false

abbrev pub is_unfinished_start : SlotState → Bool
is_unfinished_start s = is_queued_to_start s || is_being_started s

abbrev pub is_awaiting_backoff : SlotState → Bool
is_awaiting_backoff awaiting_backoff = true
is_awaiting_backoff _ = false

abbrev pub is_awaiting_group_restart : SlotState → Bool
is_awaiting_group_restart (expected_stop then_restart) = true
is_awaiting_group_restart _ = false

-- `ChildSlot::is_owed_an_incarnation`.
abbrev pub is_owed_an_incarnation : SlotState → Bool
is_owed_an_incarnation s =
    is_unfinished_start s || is_awaiting_backoff s || is_awaiting_group_restart s

-- `state == SlotState::Retired`.
abbrev pub is_retired : SlotState → Bool
is_retired retired = true
is_retired _ = false
