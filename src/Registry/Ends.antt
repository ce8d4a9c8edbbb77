-- ===== src/Registry/Ends.antt =====
-- How a slot ends: `mark_terminal`, `fail_start`, `cancel_unfinished_starts`, `retire`, and
-- `replace_legacy`, of acton-reactive/src/actor/supervision/registry.rs.
use acton_reactive.Shared.{
  ℕ, Option, some, none, List, [], ◌∷◌, map, length, get_elem?, keep, if◌then◌else◌, Result, ok,
  err,
}
use acton_reactive.Shared.Table.{remove}
use acton_reactive.World.{World}
use acton_reactive.Status.{SupervisionError, unknown_child, supervisor_stopped}
use acton_reactive.SlotState.{SlotState, running, retired, is_owed_an_incarnation}
use acton_reactive.Slot.{ChildSlot, publish}
use acton_reactive.Registry.{SupervisionRegistry, set_slot, index_of}

module _ (W : World) where
  open W use {Ern, ern_discrete, Handle}

  abbrev pub or_kept :
      Option (SupervisionError Ern) → Option (SupervisionError Ern) → Option (SupervisionError Ern)
  or_kept none old = old
  or_kept (some e) old = some e

  unfoldable pub mark_terminal :
      SupervisionRegistry W → ℕ → SlotState → Option (SupervisionError Ern) → SupervisionRegistry W
  mark_terminal r index state failure = elim (get_elem? r.slots index) [
    | none ↦ r
    | some s ↦
        set_slot W r index (
          publish W
            (record s { handle = none; failure = or_kept failure s.failure; state = state }))
  ]

  unfoldable pub failed_slot : ChildSlot W → SupervisionError Ern → ChildSlot W
  failed_slot s e = publish W (record s { handle = none; failure = some e; state = retired })

  -- The slot whose start is to fail, if it is owed an incarnation.
  abbrev pub owed : Option (ChildSlot W) → Option (ChildSlot W)
  owed none = none
  owed (some s) = if is_owed_an_incarnation s.state then some s else none

  unfoldable pub fail_start :
      SupervisionRegistry W → ℕ → SupervisionError Ern → SupervisionRegistry W
  fail_start r index e = elim (owed (get_elem? r.slots index)) [
    | none ↦ r
    | some s ↦
        set_slot W (record r { by_ern = remove ern_discrete s.ern r.by_ern }) index
          (failed_slot s e)
  ]

  unfoldable pub unfinished : SupervisionRegistry W → List ℕ
  unfinished r = map (λ s. s.index) (keep (λ s. is_owed_an_incarnation s.state) r.slots)

  unfoldable pub fail_all :
      List ℕ → SupervisionError Ern → SupervisionRegistry W → SupervisionRegistry W
  fail_all [] e r = r
  fail_all (i ∷ rest) e r = fail_all rest e (fail_start r i e)

  unfoldable pub cancel_unfinished_starts : SupervisionRegistry W → Ern → ℕ × SupervisionRegistry W
  unfolding unfinished fail_all
  cancel_unfinished_starts r supervisor = (
    length (unfinished r),
    fail_all (unfinished r) (supervisor_stopped supervisor) (record r { pending_starts = [] }),
  )

  -- A name leads to an index, and the index to a slot.
  abbrev pub slot_at : SupervisionRegistry W → Option ℕ → Option (ℕ × ChildSlot W)
  slot_at r none = none
  slot_at r (some i) = elim (get_elem? r.slots i) [ none ↦ none | some s ↦ some (i, s) ]

  unfoldable pub replace_legacy :
      SupervisionRegistry W
      → Ern
      → Handle
      → Result (SupervisionError Ern) (Unit {0}) × SupervisionRegistry W
  replace_legacy r ern handle = elim (slot_at r (index_of W r ern)) [
    | none ↦ (err (unknown_child ern), r)
    | some (i, s) ↦
        (ok tt, set_slot W r i (publish W (record s { handle = some handle; state = running })))
  ]

  -- The name is forgotten even where it leads to no slot.
  unfoldable pub retire :
      SupervisionRegistry W
      → Ern
      → Result (SupervisionError Ern) (Option Handle) × SupervisionRegistry W
  retire r ern =
      let r' = record r { by_ern = remove ern_discrete ern r.by_ern } in
      elim (slot_at r (index_of W r ern)) [
        | none ↦ (err (unknown_child ern), r')
        | some (i, s) ↦
            (ok s.handle, set_slot W r' i (publish W (record s { handle = none; state = retired })))
      ]
