-- ===== src/Engine/Group.antt =====
-- How a supervisor answers a child that ended: `schedule_restart`, `begin_group_stops`,
-- `park_group_for_restart`, `record_group_stop_landed`, `record_child_down` and
-- `record_child_escalated` of acton-reactive/src/actor/supervision/engine.rs.
use acton_reactive.Shared.{
  ℕ, Bool, true, false, Option, some, none, List, [], ◌∷◌, ◌++◌, get_elem?, if◌then◌else◌, contains,
  ℕ_discrete,
}
use acton_reactive.World.{World}
use acton_reactive.Limiter.{RestartLimitExceeded, RestartStats}
use acton_reactive.Plan.{RestartPlan, SupervisionOutcome}
use acton_reactive.Plan
use acton_reactive.Status.{restart_limit}
use acton_reactive.SlotState.{awaiting_backoff, expected_stop, down, escalated}
use acton_reactive.Slot.{ChildSlot, publish, is_restartable}
use acton_reactive.Registry.{SupervisionRegistry, set_slot}
use acton_reactive.Registry.Ends.{mark_terminal}
use acton_reactive.Engine.{
  RestartDue, Effect, Supervisor, Escalation, notify_parent, stop_supervisor, group_restart,
  tell_parent, stop_self, forget_ipc_names, with_supervision,
}

module _ (W : World) where
  open W use {Ern, Handle}

  abbrev pub stopped_slot : Bool → ChildSlot W → ChildSlot W
  stopped_slot then_restart s = publish W (record s { state = expected_stop then_restart })

  abbrev pub handle_first : Option Handle → List Handle → List Handle
  handle_first none hs = hs
  handle_first (some h) hs = h ∷ hs

  -- The loop of `begin_group_stops`; the handles come in the order of the plan.
  unfoldable pub stop_each :
      List ℕ → List ℕ → SupervisionRegistry W → List Handle × SupervisionRegistry W
  stop_each [] restart r = ([], r)
  stop_each (i ∷ rest) restart r = elim (get_elem? r.slots i) [
    | none ↦ stop_each rest restart r
    | some s ↦
        let (hs, r') =
          stop_each rest restart
            (set_slot W r i (stopped_slot (contains ℕ_discrete restart i) s)) in
        (handle_first s.handle hs, r')
  ]

  unfoldable pub begin_group_stops :
      RestartPlan → SupervisionRegistry W → List Handle × SupervisionRegistry W
  unfolding stop_each
  begin_group_stops plan r = stop_each plan.stop plan.restart r

  abbrev pub parked_slot : ChildSlot W → ChildSlot W
  parked_slot s = publish W (record s { handle = none; state = awaiting_backoff })

  abbrev pub due : ℕ → ChildSlot W → RestartDue W
  due i s = record { child = s.ern; index = i; generation = s.generation }

  -- The loop of `park_group_for_restart`.
  unfoldable pub park_each :
      List ℕ → List ℕ → SupervisionRegistry W → List (RestartDue W) × SupervisionRegistry W
  park_each [] stop r = ([], r)
  park_each (i ∷ rest) stop r = elim (get_elem? r.slots i) [
    | none ↦ park_each rest stop r
    | some s ↦
        let (ds, r') =
          park_each rest stop
            (if contains ℕ_discrete stop i then r else set_slot W r i (parked_slot s)) in
        (due i s ∷ ds, r')
  ]

  unfoldable pub park_group_for_restart :
      RestartPlan → SupervisionRegistry W → List (RestartDue W) × SupervisionRegistry W
  unfolding park_each
  park_group_for_restart plan r = park_each plan.restart plan.stop r

  unfoldable pub schedule_restart : Supervisor W → RestartPlan → ℕ → Supervisor W × List (Effect W)
  schedule_restart v plan backoff =
      let (stops, r) = begin_group_stops plan v.supervision in
      let (dues, r') = park_group_for_restart plan r in
      (with_supervision W v r', group_restart stops dues backoff ∷ [])

  -- Only a child that the supervisor can restart has IPC names that it keeps.
  abbrev pub forget_names : SupervisionRegistry W → ℕ → Ern → List (Effect W)
  forget_names r i child = elim (get_elem? r.slots i) [
    | none ↦ []
    | some s ↦ if is_restartable W s then forget_ipc_names child ∷ [] else []
  ]

  unfoldable pub record_child_down : Supervisor W → ℕ → Ern → Supervisor W × List (Effect W)
  record_child_down v i child =
      let r = mark_terminal W v.supervision i down none in
      (with_supervision W v r, forget_names r i child)

  unfoldable pub record_group_stop_landed :
      Supervisor W → ℕ → Ern → Bool → Supervisor W × List (Effect W)
  unfolding record_child_down
  record_group_stop_landed v i child false = record_child_down v i child
  record_group_stop_landed v i child true = elim (get_elem? v.supervision.slots i) [
    | none ↦ (v, [])
    | some s ↦ (with_supervision W v (set_slot W v.supervision i (parked_slot s)), [])
  ]

  abbrev pub stats_of : RestartLimitExceeded → RestartStats
  stats_of e = record {
    restarts_in_window = e.attempts;
    consecutive_restarts = e.attempts;
    window_secs = e.window_secs;
    max_restarts = e.max_restarts;
  }

  abbrev pub notify_if_parent : Option Handle → Ern → RestartStats → List (Effect W)
  notify_if_parent none child stats = []
  notify_if_parent (some parent) child stats = tell_parent child stats ∷ []

  abbrev pub apply_escalation : Escalation → Supervisor W → Ern → RestartStats → List (Effect W)
  apply_escalation notify_parent v child stats = notify_if_parent v.parent child stats
  apply_escalation stop_supervisor v child stats = if v.has_token then stop_self ∷ [] else []

  unfoldable pub record_child_escalated :
      Supervisor W → ℕ → Ern → RestartLimitExceeded → Supervisor W × List (Effect W)
  record_child_escalated v i child exceeded =
      let r = mark_terminal W v.supervision i escalated (some (restart_limit child exceeded)) in
      (
        with_supervision W v r,
        forget_names r i child ++ apply_escalation v.escalation v child (stats_of exceeded),
      )

  -- The `match` at the end of `record_child_terminated`.
  unfoldable pub answer :
      SupervisionOutcome → Supervisor W → ℕ → Ern → Supervisor W × List (Effect W)
  answer Plan.ignore v i child = (v, [])
  answer (Plan.group_stop_landed then_restart) v i child =
      record_group_stop_landed v i child then_restart
  answer Plan.forget v i child = record_child_down v i child
  answer (Plan.give_up exceeded) v i child = record_child_escalated v i child exceeded
  answer (Plan.restart plan backoff) v i child = schedule_restart v plan backoff
