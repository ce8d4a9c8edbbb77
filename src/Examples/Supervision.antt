-- ===== src/Examples/Supervision.antt =====
-- A supervisor of two children, which are started, fail, and are stopped.
use acton_reactive.Shared.{
  ℕ, ◌≡◌, refl, ◌⊎◌, inr, Bool, true, false, Option, some, none, List, [], ◌∷◌, map, get_elem?, ok,
  ℕ_discrete,
}
use acton_reactive.Examples.{small, small_laws}
use acton_reactive.Examples.Limits.{default_config}
use acton_reactive.Policy.{permanent, panic, one_for_all}
use acton_reactive.Plan.{Readings}
use acton_reactive.SlotState.{
  SlotState, down, escalated, retired, running, awaiting_backoff, expected_stop,
}
use acton_reactive.Slot.{ChildSlot}
use acton_reactive.Registry.{empty, register_pending, PendingSlot}
use acton_reactive.Registry.Ends.{cancel_unfinished_starts, retire}
use acton_reactive.Registry.Invariant.{WellFormed}
use acton_reactive.Registry.Reuse.{register_pending-retire}
use acton_reactive.Registry.Published.{publish-Agree, Agree}
use acton_reactive.Registry.Told.{IsEnded, next_status_told}
use acton_reactive.Registry.Settled.{cancel_unfinished_starts_lem}
use acton_reactive.Engine.{
  Supervisor, ChildTerminated, SupervisedChildStarted, RestartDue, notify_parent, group_restart,
  stop_disowned,
}
use acton_reactive.Engine.Handlers.{
  supervise_deferred, launch_pending_starts, record_child_terminated, record_restart_due,
  record_started_child,
}
use acton_reactive.Limiter.{restarts_in_window, new, window, can_restart, record_restart}
use acton_reactive.Policy.{decide_strategy, should_restart}
use acton_reactive.Plan.{evaluate, charge, recover, plan_restart, sort_views}
use acton_reactive.Status.{is_settled, running_handle, SupervisionState, failure_discrete}
use acton_reactive.SlotState.{published, is_owed_an_incarnation}
use acton_reactive.Slot.{publish, publish_result, replace_if_changed, next_status}
use acton_reactive.Registry.{pending_slot, snapshot, snapshot_of, views}
use acton_reactive.Registry.Starts.{
  begin_start, begin_start_from, complete_start, started_slot, queue_restart,
}
use acton_reactive.Registry.Ends.{mark_terminal}
use acton_reactive.Engine.{resolve_limiter, status_channel}
use acton_reactive.Engine.Group.{
  answer, schedule_restart, begin_group_stops, park_group_for_restart, record_group_stop_landed,
  record_child_down,
}
use acton_reactive.Engine.Handlers.{terminate_slot}
use acton_reactive.Engine.System.{
  Reach, here, next, defers, launches, starts, terminates, Reach-WellFormed,
}
use acton_reactive.Engine.Launch.{record_started_child_held}
use acton_reactive.Engine.Stale.{record_child_terminated_ignored, record_restart_due_once}

abbrev fresh : Supervisor small
fresh = record {
  id = 100;
  parent = none;
  strategy = one_for_all;
  escalation = notify_parent;
  restart_limiter_config = none;
  default_limiter_config = default_config;
  has_token = true;
  supervision = empty small;
}

abbrev never : ℕ → Bool
never turn = false

-- Children 7 and 8 are recorded for a start.
abbrev recorded : Supervisor small
recorded = (supervise_deferred small (supervise_deferred small fresh 7 none).1 8 none).1

abbrev after_launch : Supervisor small
after_launch = (launch_pending_starts small recorded never).0

-- The incarnation of child 7, with the handle 70, reports.
abbrev report_of_7 : SupervisedChildStarted small
report_of_7 = record { child = 7; index = 0; outcome = ok 70 }

abbrev report_of_8 : SupervisedChildStarted small
report_of_8 = record { child = 8; index = 1; outcome = ok 80 }

abbrev up : Supervisor small
up =
    (record_started_child small (record_started_child small after_launch report_of_7 1).0
      report_of_8 2).0

abbrev crash_of_7 : ChildTerminated small
crash_of_7 = record { child_id = 7; reason = panic []; restart_policy = permanent }

abbrev clock : Readings
clock = record { now = 3; asked = 4; recorded = 5 }

abbrev crashed : Supervisor small
crashed = (record_child_terminated small up crash_of_7 clock).0

abbrev due_of_7 : RestartDue small
due_of_7 = record { child = 7; index = 0; generation = 0 }

up_to_crash : Reach small fresh crashed
up_to_crash =
    next
      (next
        (next (next (next (next here (defers 7 none)) (defers 8 none)) (launches never))
          (starts report_of_7 1))
        (starts report_of_8 2))
      (terminates crash_of_7 clock)

Reach-WellFormed_example : WellFormed small crashed.supervision
Reach-WellFormed_example = Reach-WellFormed small fresh crashed refl up_to_crash

-- Names all that a run computes with.
runs : Unit {0}
unfolding register_pending pending_slot publish publish_result replace_if_changed next_status
    failure_discrete published restarts_in_window begin_start begin_start_from complete_start
    started_slot resolve_limiter status_channel new snapshot snapshot_of views evaluate charge
    recover window can_restart record_restart plan_restart sort_views decide_strategy should_restart
    terminate_slot answer schedule_restart begin_group_stops park_group_for_restart mark_terminal
    record_group_stop_landed record_child_down queue_restart supervise_deferred
    launch_pending_starts record_child_terminated record_restart_due record_started_child ℕ_discrete
runs = tt

states : Supervisor small → List SlotState
states v = map (λ s. s.state) v.supervision.slots

-- One crash with the strategy one for all: the other child is stopped, and both come back.
crash_test :
    (states crashed ≡ awaiting_backoff ∷ expected_stop true ∷ [])
    × ((record_child_terminated small up crash_of_7 clock).1
        ≡ group_restart
            (80 ∷ [])
            (due_of_7 ∷ record { child = 8; index = 1; generation = 0 } ∷ [])
            100_000_000
          ∷ [])
unfolding states runs
crash_test = (refl, refl)

abbrev some_slot : ChildSlot small
some_slot = record {
  ern = 0;
  index = 0;
  handle = none;
  spawner = none;
  restart_policy = permanent;
  limiter = record { config = default_config; restart_timestamps = []; consecutive_restarts = 0 };
  generation = 0;
  state = SlotState.down;
  last_restart = none;
  status = record {
    child = 0;
    handle = none;
    generation = 0;
    state = SupervisionState.down;
    restarts_in_window = 0;
    failure = none;
  };
  failure = none;
}

abbrev slot_or : Option (ChildSlot small) → ChildSlot small
slot_or none = some_slot
slot_or (some s) = s

abbrev slot_in : Supervisor small → ℕ → ChildSlot small
slot_in v i = slot_or (get_elem? v.supervision.slots i)

-- A second notice of the same end is old news.
record_child_terminated_ignored_example :
    record_child_terminated small crashed crash_of_7 clock ≡ (crashed, [])
unfolding runs
record_child_terminated_ignored_example =
    record_child_terminated_ignored small crashed crash_of_7 clock
      (inr (0, slot_in crashed 0, refl, refl, inr (refl, refl)))

-- The timer of a crash, delivered twice.
record_restart_due_once_example :
    record_restart_due small (record_restart_due small crashed due_of_7) due_of_7
    ≡ record_restart_due small crashed due_of_7
record_restart_due_once_example = (record_restart_due_once small crashed due_of_7).0

-- A start that reports to the slot that waits for it.
record_started_child_held_example :
    ((s : ChildSlot small) × (get_elem?
          (record_started_child small after_launch report_of_7 1).0.supervision.slots
          0
        ≡ some s)
      × (◌≡◌ {A = ℕ} s.ern 7)
      × (s.handle ≡ some 70)
      × (s.state ≡ running))
    ⊎ (((record_started_child small after_launch report_of_7 1).1 ≡ stop_disowned 70 ∷ [])
        × ((record_started_child small after_launch report_of_7 1).0.supervision
            ≡ after_launch.supervision))
record_started_child_held_example =
    record_started_child_held small after_launch report_of_7 1 70 refl

cancel_unfinished_starts_lem_example :
    (cancel_unfinished_starts small crashed.supervision 100).0 ≡ 2
unfolding runs
cancel_unfinished_starts_lem_example =
    (cancel_unfinished_starts_lem small small_laws crashed.supervision 100 0 (slot_in crashed 0)
      (Reach-WellFormed small fresh crashed refl up_to_crash) refl).2

up-WellFormed : WellFormed small up.supervision
up-WellFormed = Reach-WellFormed small fresh up refl (
    next
      (next (next (next (next here (defers 7 none)) (defers 8 none)) (launches never))
        (starts report_of_7 1))
      (starts report_of_8 2))

-- Child 7 runs, and its watchers are told so.
next_status_told_example :
    (((slot_in up 0).state ≡ running)
      × ((h : ℕ) × ((slot_in up 0).handle ≡ some h)
          × (is_settled small (next_status small (slot_in up 0)) ≡ true)
          × (running_handle small 7 (next_status small (slot_in up 0)) ≡ ok h)))
    ⊎ (((((slot_in up 0).state ≡ down) × IsEnded small (slot_in up 0) SupervisionState.down)
          ⊎ ((((slot_in up 0).state ≡ escalated)
                × IsEnded small (slot_in up 0) SupervisionState.escalated)
              ⊎ (((slot_in up 0).state ≡ retired)
                  × IsEnded small (slot_in up 0) SupervisionState.retired)))
        ⊎ ((is_settled small (next_status small (slot_in up 0)) ≡ false)
            × ((is_owed_an_incarnation (slot_in up 0).state ≡ true)
                ⊎ ((slot_in up 0).state ≡ expected_stop false))))
unfolding runs
next_status_told_example = next_status_told small up.supervision 0 (slot_in up 0) up-WellFormed refl

-- Child 7 is released and recorded again.
abbrev again_7 : PendingSlot small
again_7 = record {
  ern = 7;
  spawner = 7;
  restart_policy = permanent;
  limiter = some_slot.limiter;
  status = some_slot.status;
}

register_pending-retire_example :
    (register_pending small (retire small up.supervision 7).1 again_7).0 ≡ ok 2
unfolding runs
register_pending-retire_example =
    (register_pending-retire small up.supervision again_7 up-WellFormed).0

-- Child 7 publishes once more, with nothing new to tell.
publish-Agree_example :
    (((publish_result small (slot_in up 0)).0 ≡ true)
      × ((publish small (slot_in up 0)).status ≡ next_status small (slot_in up 0)))
    ⊎ (((publish_result small (slot_in up 0)).0 ≡ false)
        × ((publish small (slot_in up 0)).status ≡ (slot_in up 0).status)
        × Agree small (publish small (slot_in up 0)).status (next_status small (slot_in up 0)))
publish-Agree_example = publish-Agree small small_laws (slot_in up 0)
