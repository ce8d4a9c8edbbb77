-- ===== src/Registry/Told.antt =====
-- What the watchers of a child make of what its slot publishes.
use acton_reactive.Shared.{
  refl, Option, none, ◌⊎◌, inl, inr, ℕ, get_elem?, ◌≡◌, true, false, ok, err, some, arith,
}
use acton_reactive.World.{World}
use acton_reactive.Status.{
  SupervisionState, SupervisionError, child_not_running, is_settled, is_terminal, running_handle,
  not_running,
}
use acton_reactive.SlotState.{
  SlotState, pending, starting, awaiting_backoff, awaiting_restart, restarting, expected_stop, down,
  escalated, retired, running, published, is_owed_an_incarnation,
}
use acton_reactive.Slot.{ChildSlot, next_status}
use acton_reactive.Registry.{SupervisionRegistry}
use acton_reactive.Registry.Invariant.{SlotFits, WellFormed}

module _ (W : World) where
  -- The failure that a slot recorded, or else what stands in its place.
  abbrev pub failure_or :
      Option (SupervisionError W.Ern) → SupervisionError W.Ern → SupervisionError W.Ern
  failure_or none e = e
  failure_or (some failure) e = failure

  -- The wait ends without a handle, with the failure of the slot, or else with a given state.
  abbrev pub IsEnded : ChildSlot W → SupervisionState → Type 0
  IsEnded s ended =
      (is_settled W (next_status W s) ≡ true)
      × (running_handle W s.ern (next_status W s)
          ≡ err (failure_or s.failure (child_not_running s.ern ended)))

  told_cases :
      (t : SlotState)
      → (t ≡ running)
        ⊎ (((t ≡ down) ⊎ ((t ≡ escalated) ⊎ (t ≡ retired)))
            ⊎ ((is_owed_an_incarnation t ≡ true) ⊎ (t ≡ expected_stop false)))
  told_cases pending = inr (inr (inl refl))
  told_cases starting = inr (inr (inl refl))
  told_cases running = inl refl
  told_cases awaiting_backoff = inr (inr (inl refl))
  told_cases awaiting_restart = inr (inr (inl refl))
  told_cases restarting = inr (inr (inl refl))
  told_cases (expected_stop true) = inr (inr (inl refl))
  told_cases (expected_stop false) = inr (inr (inr refl))
  told_cases down = inr (inl (inl refl))
  told_cases escalated = inr (inl (inr (inl refl)))
  told_cases retired = inr (inl (inr (inr refl)))

  settled_told :
      (s : ChildSlot W)
      → (is_owed_an_incarnation s.state ≡ true) ⊎ (s.state ≡ expected_stop false)
      → is_settled W (next_status W s) ≡ false
  unfolding is_settled is_terminal next_status published
  settled_told s waits = ground arith

  running_told :
      (s : ChildSlot W)
      → SlotFits W s
      → s.state ≡ running
      → (h : W.Handle) × (s.handle ≡ some h)
        × (is_settled W (next_status W s) ≡ true)
        × (running_handle W s.ern (next_status W s) ≡ ok h)
  unfolding is_settled is_terminal next_status published running_handle
  running_told s f r = ground (arith, f.held)

  down_told : (s : ChildSlot W) → s.state ≡ down → IsEnded s SupervisionState.down
  unfolding is_settled is_terminal next_status published running_handle not_running
  down_told s t = ground arith

  escalated_told : (s : ChildSlot W) → s.state ≡ escalated → IsEnded s SupervisionState.escalated
  unfolding is_settled is_terminal next_status published running_handle not_running
  escalated_told s t = ground arith

  retired_told : (s : ChildSlot W) → s.state ≡ retired → IsEnded s SupervisionState.retired
  unfolding is_settled is_terminal next_status published running_handle not_running
  retired_told s t = ground arith

  -- In a well-formed registry, what a slot publishes gives a watcher that waits for a running child
  -- the handle that the slot holds, if the child runs; ends the wait with the failure of the slot,
  -- or else with its state, if that is down, escalated or retired; and makes the watcher wait on in
  -- every other state, and then the child is owed a start, or is being stopped.
  pub next_status_told :
      (r : SupervisionRegistry W) (i : ℕ) (s : ChildSlot W)
      → WellFormed W r
      → get_elem? r.slots i ≡ some s
      → ((s.state ≡ running)
          × ((h : W.Handle) × (s.handle ≡ some h)
              × (is_settled W (next_status W s) ≡ true)
              × (running_handle W s.ern (next_status W s) ≡ ok h)))
        ⊎ ((((s.state ≡ down) × IsEnded s SupervisionState.down)
              ⊎ (((s.state ≡ escalated) × IsEnded s SupervisionState.escalated)
                  ⊎ ((s.state ≡ retired) × IsEnded s SupervisionState.retired)))
            ⊎ ((is_settled W (next_status W s) ≡ false)
                × ((is_owed_an_incarnation s.state ≡ true) ⊎ (s.state ≡ expected_stop false))))
  next_status_told r i s w at = elim (told_cases s.state) [
    | inl runs ↦ inl (runs, running_told s (w.fit i s at) runs)
    | inr (inl (inl ends)) ↦ inr (inl (inl (ends, down_told s ends)))
    | inr (inl (inr (inl ends))) ↦ inr (inl (inr (inl (ends, escalated_told s ends))))
    | inr (inl (inr (inr ends))) ↦ inr (inl (inr (inr (ends, retired_told s ends))))
    | inr (inr waits) ↦ inr (inr (settled_told s waits, waits))
  ]
