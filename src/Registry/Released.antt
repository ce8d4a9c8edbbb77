-- ===== src/Registry/Released.antt =====
-- The operations that settle one slot keep `WellFormed`.
use acton_reactive.Shared.{
  ℕ, ◌≡◌, refl, ◌⊎◌, inl, inr, false, Option, some, none, get_elem?, arith, Option-cases,
}
use acton_reactive.Shared.Table.{remove_absent}
use acton_reactive.World.{World}
use acton_reactive.Status.{SupervisionError}
use acton_reactive.SlotState.{SlotState, is_retired, down, escalated}
use acton_reactive.Slot.{ChildSlot, publish}
use acton_reactive.Registry.{SupervisionRegistry, index_of}
use acton_reactive.Registry.Ends.{
  mark_terminal, fail_start, failed_slot, owed, retire, replace_legacy, slot_at,
}
use acton_reactive.Registry.Invariant.{WellFormed}
use acton_reactive.Registry.Kept.{WellFormed-set, WellFormed-remove}
use acton_reactive.Registry.Failed.{
  failed_slot-SlotFits, failed_slot-index, failed_slot-state, owed_lem, owed-live,
}

module _ (W : World) where
  open W use {Ern, ern_discrete, Handle}

  pub mark_terminal-WellFormed :
      (r : SupervisionRegistry W) (i : ℕ) (state : SlotState)
      (failure : Option (SupervisionError Ern))
      → (state ≡ down) ⊎ (state ≡ escalated)
      → ((s : ChildSlot W) → get_elem? r.slots i ≡ some s → is_retired s.state ≡ false)
      → WellFormed W r
      → WellFormed W (mark_terminal W r i state failure)
  unfolding mark_terminal publish
  mark_terminal-WellFormed r i state failure final live w =
      elim (Option-cases (get_elem? r.slots i)) [
        | inl absent ↦ rw (absent, mark_terminal) w
        | inr (s, at) ↦
            rw (at, mark_terminal)
              (WellFormed-set W r r.pending_starts i s _ at refl refl (live s at) (ground arith)
                (record { held = ground arith; startable = λ q. ground arith })
                (λ q. absurd (ground arith)) (λ j o m. m) w)
      ]

  -- A name in use leads to a slot.
  pub slot_at_lem :
      (r : SupervisionRegistry W) (ern : Ern)
      → WellFormed W r
      → ((index_of W r ern ≡ none) × (slot_at W r (index_of W r ern) ≡ none))
        ⊎ ((i : ℕ) × (s : ChildSlot W) × (index_of W r ern ≡ some i)
            × (get_elem? r.slots i ≡ some s)
            × (s.ern ≡ ern)
            × (is_retired s.state ≡ false)
            × (slot_at W r (index_of W r ern) ≡ some (i, s)))
  slot_at_lem r ern w = elim (Option-cases (index_of W r ern)) [
    | inl unknown ↦ inl (unknown, rw (unknown, slot_at))
    | inr (i, known) ↦
        let (s, at, name, live) = w.names.named ern i known in
        inr (i, s, known, at, name, live, rw (known, slot_at, at))
  ]

  pub retire-WellFormed :
      (r : SupervisionRegistry W) (ern : Ern) → WellFormed W r → WellFormed W (retire W r ern).1
  unfolding retire publish
  retire-WellFormed r ern w = elim (slot_at_lem r ern w) [
    | inl (unknown, no_slot) ↦
        rw (no_slot, retire, remove_absent ern_discrete ern r.by_ern unknown) w
    | inr (i, s, known, at, name, live, found) ↦
        rw (found, retire, ← name)
          (WellFormed-remove W r i s _ at refl live refl
            (record { held = refl; startable = λ q. absurd (cc q) }) w)
  ]

  pub replace_legacy-WellFormed :
      (r : SupervisionRegistry W) (ern : Ern) (handle : Handle)
      → WellFormed W r
      → WellFormed W (replace_legacy W r ern handle).1
  unfolding replace_legacy publish
  replace_legacy-WellFormed r ern handle w = elim (slot_at_lem r ern w) [
    | inl (unknown, no_slot) ↦ rw (no_slot, replace_legacy) w
    | inr (i, s, known, at, name, live, found) ↦
        rw (found, replace_legacy)
          (WellFormed-set W r r.pending_starts i s _ at refl refl live refl
            (record { held = refl; startable = λ q. absurd (cc q) }) (λ q. absurd (cc q))
            (λ j o m. m) w)
  ]

  pub fail_start-WellFormed :
      (r : SupervisionRegistry W) (i : ℕ) (e : SupervisionError Ern)
      → WellFormed W r
      → WellFormed W (fail_start W r i e)
  unfolding fail_start
  fail_start-WellFormed r i e w = elim (Option-cases (owed W (get_elem? r.slots i))) [
    | inl no_change ↦ rw (no_change, fail_start) w
    | inr (s, o) ↦
        let (at, is_owed) = owed_lem W (get_elem? r.slots i) s o in
        rw (o, fail_start)
          (WellFormed-remove W r i s (failed_slot W s e) at (failed_slot-index W s e)
            (owed-live W s.state is_owed) (failed_slot-state W s e) (failed_slot-SlotFits W s e) w)
  ]
