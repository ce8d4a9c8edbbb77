-- ===== src/Registry/Invariant.antt =====
-- What holds of a registry between two operations.
use acton_reactive.Shared.{ℕ, ◌≡◌, Bool, true, false, some, List, get_elem?, In, is_some}
use acton_reactive.Shared.Table.{get}
use acton_reactive.World.{World}
use acton_reactive.SlotState.{
  SlotState, pending, starting, running, awaiting_backoff, awaiting_restart, restarting,
  expected_stop, is_queued_to_start, is_retired,
}
use acton_reactive.Slot.{ChildSlot}
use acton_reactive.Registry.{SupervisionRegistry}

-- The states that a child with no blueprint never has.
abbrev pub needs_spawner : SlotState → Bool
needs_spawner pending = true
needs_spawner starting = true
needs_spawner awaiting_backoff = true
needs_spawner awaiting_restart = true
needs_spawner restarting = true
needs_spawner (expected_stop then_restart) = then_restart
needs_spawner _ = false

-- The states in which there is an incarnation to hold on to.
abbrev pub has_incarnation : SlotState → Bool
has_incarnation running = true
has_incarnation (expected_stop then_restart) = true
has_incarnation _ = false

module _ (W : World) where
  open W use {Ern, ern_discrete}

  pub record SlotFits (s : ChildSlot W) : Type 0 where
    pub held : is_some s.handle ≡ has_incarnation s.state
    pub startable : needs_spawner s.state ≡ true → is_some s.spawner ≡ true

  -- A name leads to the one slot of that name that is not retired.
  pub record Names (slots : List (ChildSlot W)) (by_ern : List (Ern × ℕ)) : Type 0 where
    pub indexed : (i : ℕ) (s : ChildSlot W) → get_elem? slots i ≡ some s → s.index ≡ i
    pub named :
        (e : Ern) (i : ℕ)
        → get ern_discrete e by_ern ≡ some i
        → (s : ChildSlot W) × (get_elem? slots i ≡ some s)
          × (s.ern ≡ e)
          × (is_retired s.state ≡ false)
    pub findable :
        (i : ℕ) (s : ChildSlot W)
        → get_elem? slots i ≡ some s
        → is_retired s.state ≡ false
        → get ern_discrete s.ern by_ern ≡ some i

  abbrev pub AllFit : List (ChildSlot W) → Type 0
  AllFit slots = (i : ℕ) (s : ChildSlot W) → get_elem? slots i ≡ some s → SlotFits s

  -- A slot that waits for a start task is in the queue.
  abbrev pub AllQueued : List (ChildSlot W) → List ℕ → Type 0
  AllQueued slots queue =
      (i : ℕ) (s : ChildSlot W)
      → get_elem? slots i ≡ some s
      → is_queued_to_start s.state ≡ true
      → In i queue

  pub record WellFormed (r : SupervisionRegistry W) : Type 0 where
    pub names : Names r.slots r.by_ern
    pub fit : AllFit r.slots
    pub queued : AllQueued r.slots r.pending_starts
