-- ===== src/Registry/Starts.antt =====
-- The queue of starts: `begin_start`, `complete_start` and `queue_restart` of
-- acton-reactive/src/actor/supervision/registry.rs.
use acton_reactive.Shared.{
  ℕ, Bool, true, false, ◌&&◌, Option, some, none, List, [], ◌∷◌, ◌++◌, get_elem?, if◌then◌else◌,
  decide, ◌==◌, ite,
}
use acton_reactive.World.{World}
use acton_reactive.Status.{next_generation}
use acton_reactive.SlotState.{
  SlotState, pending, starting, running, awaiting_restart, restarting, is_awaiting_backoff,
}
use acton_reactive.Slot.{ChildSlot, publish}
use acton_reactive.Registry.{SupervisionRegistry, set_slot}

pub data StartRecorded : Type 0 where
  first restart refused : StartRecorded

module _ (W : World) where
  open W use {Ern, ern_discrete, Handle, Spawner}

  pub record StartTicket : Type 0 where
    pub index : ℕ
    pub ern : Ern
    pub spawner : Spawner

  abbrev pub launched : SlotState → Option SlotState
  launched pending = some starting
  launched awaiting_restart = some restarting
  launched _ = none

  -- The slot launched, with its spawner, or `none` where the loop goes on.
  abbrev pub launch : Option (ChildSlot W) → Option (Spawner × ChildSlot W)
  launch none = none
  launch (some s) = elim (launched s.state) [
    | none ↦ none
    | some next ↦ elim s.spawner [
      | none ↦ none
      | some spawner ↦ some (spawner, publish W (record s { state = next }))
    ]
  ]

  -- The queue is the first argument; what is left of it goes back into the registry.
  unfoldable pub begin_start_from :
      List ℕ → SupervisionRegistry W → Option StartTicket × SupervisionRegistry W
  begin_start_from [] r = (none, record r { pending_starts = [] })
  begin_start_from (i ∷ rest) r = elim (launch (get_elem? r.slots i)) [
    | none ↦ begin_start_from rest r
    | some (spawner, s) ↦ (
      some (record { index = i; ern = s.ern; spawner = spawner }),
      set_slot W (record r { pending_starts = rest }) i s,
    )
  ]

  unfoldable pub begin_start : SupervisionRegistry W → Option StartTicket × SupervisionRegistry W
  begin_start r = begin_start_from r.pending_starts r

  -- Whether a slot in this state was being restarted, or started; `none` where it was neither.
  abbrev pub restarted : SlotState → Option Bool
  restarted starting = some false
  restarted restarting = some true
  restarted _ = none

  unfoldable pub started_slot : ChildSlot W → Handle → ℕ → Bool → ChildSlot W
  started_slot s handle now true = publish W (record s {
    handle = some handle;
    generation = next_generation s.generation;
    last_restart = some now;
    state = running;
  })
  started_slot s handle now false = publish W (record s { handle = some handle; state = running })

  abbrev pub recorded_as : Bool → StartRecorded
  recorded_as true = restart
  recorded_as false = first

  -- What `complete_start` does at the slot, if it does not refuse.
  abbrev pub completion :
      Ern → Handle → ℕ → Option (ChildSlot W) → Option (StartRecorded × ChildSlot W)
  completion ern handle now none = none
  completion ern handle now (some s) = elim (restarted s.state) [
    | none ↦ none
    | some again ↦
        ite (ern_discrete s.ern ern) (some (recorded_as again, started_slot s handle now again))
          none
  ]

  unfoldable pub complete_start :
      SupervisionRegistry W → ℕ → Ern → Handle → ℕ → StartRecorded × SupervisionRegistry W
  complete_start r index ern handle now =
      elim (completion ern handle now (get_elem? r.slots index)) [
        | none ↦ (refused, r)
        | some (how, s) ↦ (how, set_slot W r index s)
      ]

  abbrev pub requeued : Ern → ℕ → Option (ChildSlot W) → Option (ChildSlot W)
  requeued ern generation none = none
  requeued ern generation (some s) =
      if is_awaiting_backoff s.state
        && decide (ern_discrete s.ern ern)
        && s.generation == generation
      then some (publish W (record s { state = awaiting_restart }))
      else none

  unfoldable pub queue_restart : SupervisionRegistry W → ℕ → Ern → ℕ → Bool × SupervisionRegistry W
  queue_restart r index ern generation = elim (requeued ern generation (get_elem? r.slots index)) [
    | none ↦ (false, r)
    | some s ↦
        (true, set_slot W (record r { pending_starts = r.pending_starts ++ index ∷ [] }) index s)
  ]
