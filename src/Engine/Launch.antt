-- ===== src/Engine/Launch.antt =====
-- The start queue is worked off, and no child that was started is lost.
use acton_reactive.Shared.{
  ℕ, ◌≡◌, refl, ◌⊎◌, inl, inr, Option, some, none, [], ◌∷◌, get_elem?, arith, Option-cases,
  get_elem?-set_self, ok,
}
use acton_reactive.World.{World}
use acton_reactive.SlotState.{running}
use acton_reactive.Slot.{ChildSlot, publish}
use acton_reactive.Registry.Starts.{completion, complete_start, started_slot, StartRecorded}
use acton_reactive.Engine.{Supervisor, SupervisedChildStarted, stop_disowned}
use acton_reactive.Engine.Handlers.{record_started_child, record_outcome}

module _ (W : World) where
  completion_lem :
      (ern : W.Ern) (handle : W.Handle) (now : ℕ) (o : Option (ChildSlot W)) (how : StartRecorded)
      (s' : ChildSlot W)
      → completion W ern handle now o ≡ some (how, s')
      → (s : ChildSlot W) × (o ≡ some s)
        × (s'.ern ≡ ern)
        × (s'.handle ≡ some handle)
        × (s'.state ≡ running)
  unfolding started_slot publish
  completion_lem ern handle now none how s' h = absurd (cc h)
  completion_lem ern handle now (some s) how s' h =
      (s, refl, ground arith, ground arith, ground arith)

  -- A child that was started is never lost: its handle is held by its slot, which runs, or the
  -- supervisor has it stopped.
  pub record_started_child_held :
      (v : Supervisor W) (m : SupervisedChildStarted W) (now : ℕ) (handle : W.Handle)
      → m.outcome ≡ ok handle
      → let (v', effects) = record_started_child W v m now in
        ((s : ChildSlot W) × (get_elem? v'.supervision.slots m.index ≡ some s)
          × (s.ern ≡ m.child)
          × (s.handle ≡ some handle)
          × (s.state ≡ running))
        ⊎ ((effects ≡ stop_disowned handle ∷ []) × (v'.supervision ≡ v.supervision))
  unfolding record_started_child complete_start
  record_started_child_held v m now handle h =
      elim (Option-cases
        (completion W m.child handle now (get_elem? v.supervision.slots m.index))) [
          | inl gone ↦
              rw (h, record_started_child, record_outcome, complete_start, gone) (inr (refl, refl))
          | inr ((how, s'), e) ↦
              let (s, at, name, held, runs) = completion_lem m.child handle now _ how s' e in
              rw (h, record_started_child, record_outcome, complete_start, e)
                (inl (s', get_elem?-set_self v.supervision.slots m.index s' s at, name, held, runs))
        ]
