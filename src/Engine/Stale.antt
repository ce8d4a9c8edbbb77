-- ===== src/Engine/Stale.antt =====
-- Messages that come too late, or twice, change nothing.
use acton_reactive.Shared.{
  ℕ, ◌≡◌, refl, ◌∙◌, sym, ap, ◌⊎◌, inl, inr, true, false, Option, some, none, [], ◌∷◌, ◌++◌,
  get_elem?, set_same, arith, Option-cases, get_elem?-set_self,
}
use acton_reactive.World.{World}
use acton_reactive.Plan.{Readings, evaluate, ignore}
use acton_reactive.SlotState.{accepts_termination, is_awaiting_group_restart, is_awaiting_backoff}
use acton_reactive.Slot.{ChildSlot, publish}
use acton_reactive.Registry.{index_of, snapshot_of, set_slot, views}
use acton_reactive.Registry.Starts.{requeued, queue_restart}
use acton_reactive.Engine.{Supervisor, ChildTerminated, RestartDue}
use acton_reactive.Engine.Group.{answer}
use acton_reactive.Engine.Handlers.{record_child_terminated, terminate_slot, record_restart_due}

module _ (W : World) where
  -- The end of a child that the supervisor does not know, or asked for by stopping, or of which it
  -- has heard already.
  abbrev pub OldNews : Supervisor W → ChildTerminated W → Type 0
  OldNews v notice =
      (index_of W v.supervision notice.child_id ≡ none)
      ⊎ ((i : ℕ) × (s : ChildSlot W) × (index_of W v.supervision notice.child_id ≡ some i)
          × (get_elem? v.supervision.slots i ≡ some s)
          × ((v.supervision.shutting_down ≡ true)
              ⊎ ((accepts_termination s.state ≡ false)
                  × (is_awaiting_group_restart s.state ≡ false))))

  evaluate_ignored :
      (v : Supervisor W) (notice : ChildTerminated W) (s : ChildSlot W) (clock : Readings)
      → (v.supervision.shutting_down ≡ true)
        ⊎ ((accepts_termination s.state ≡ false) × (is_awaiting_group_restart s.state ≡ false))
      → evaluate W.f64 notice.restart_policy notice.reason
          (snapshot_of W v.supervision.shutting_down s)
          v.strategy
          s.limiter
          (views W v.supervision)
          clock
        ≡ (ignore, s.limiter)
  unfolding evaluate snapshot_of
  evaluate_ignored v notice s clock h = ground arith

  -- Such a notice changes nothing in the supervisor and has no effect: no child is restarted, no
  -- restart is charged.
  pub record_child_terminated_ignored :
      (v : Supervisor W) (notice : ChildTerminated W) (clock : Readings)
      → OldNews v notice
      → record_child_terminated W v notice clock ≡ (v, [])
  unfolding record_child_terminated terminate_slot answer
  record_child_terminated_ignored v notice clock (inl unknown) =
      rw (unknown, record_child_terminated)
  record_child_terminated_ignored v notice clock (inr (i, s, known, at, h)) =
      rw (known, record_child_terminated, at)
        (rw (terminate_slot, evaluate_ignored v notice s clock h)
          (ap (λ xs. (record v { supervision = record v.supervision { slots = xs } }, []))
            (set_same v.supervision.slots i s at)))

  requeued_twice :
      (due : RestartDue W) (o : Option (ChildSlot W)) (s' : ChildSlot W)
      → requeued W due.child due.generation o ≡ some s'
      → (requeued W due.child due.generation (some s') ≡ none)
        × ((s : ChildSlot W) × (o ≡ some s)
            × (is_awaiting_backoff s.state ≡ true)
            × (s.ern ≡ due.child)
            × (s.generation ≡ due.generation))
  unfolding publish
  requeued_twice due none s' h = absurd (cc h)
  requeued_twice due (some s) s' h =
      (ground arith, (s, refl, ground arith, ground arith, ground arith))

  restart_due_unchanged :
      (v : Supervisor W) (due : RestartDue W)
      → requeued W due.child due.generation (get_elem? v.supervision.slots due.index) ≡ none
      → record_restart_due W v due ≡ v
  unfolding record_restart_due queue_restart
  restart_due_unchanged v due gone = rw (record_restart_due, queue_restart, gone) refl

  -- The supervisor once a timer was answered.
  abbrev answered : Supervisor W → RestartDue W → ChildSlot W → Supervisor W
  answered v due s = record v {
    supervision =
        set_slot W
          (record v.supervision { pending_starts = v.supervision.pending_starts ++ due.index ∷ [] })
          due.index s;
  }

  restart_due_answered :
      (v : Supervisor W) (due : RestartDue W) (s : ChildSlot W)
      → requeued W due.child due.generation (get_elem? v.supervision.slots due.index) ≡ some s
      → record_restart_due W v due ≡ answered v due s
  unfolding record_restart_due queue_restart
  restart_due_answered v due s e = rw (record_restart_due, queue_restart, e) refl

  -- A timer has an effect only on the child that it was set for, in the generation that it was set
  -- for, while that child still waits for it; and it has it once: if it is delivered again, nothing
  -- more happens.
  pub record_restart_due_once :
      (v : Supervisor W) (due : RestartDue W)
      → (record_restart_due W (record_restart_due W v due) due ≡ record_restart_due W v due)
        × ((record_restart_due W v due ≡ v)
            ⊎ ((s : ChildSlot W) × (get_elem? v.supervision.slots due.index ≡ some s)
                × (is_awaiting_backoff s.state ≡ true)
                × (s.ern ≡ due.child)
                × (s.generation ≡ due.generation)))
  record_restart_due_once v due =
      elim (Option-cases
        (requeued W due.child due.generation (get_elem? v.supervision.slots due.index))) [
          | inl gone ↦
              let same = restart_due_unchanged v due gone in
              (ap (λ u. record_restart_due W u due) same, inl same)
          | inr (s', e) ↦
              let (again, (s, at, waits, name, gen)) = requeued_twice due _ s' e in
              let done = restart_due_answered v due s' e in
              let there = get_elem?-set_self v.supervision.slots due.index s' s at in
              (
                ap (λ u. record_restart_due W u due) done
                    ∙ restart_due_unchanged (answered v due s') due
                        (ap (requeued W due.child due.generation) there ∙ again)
                    ∙ sym done,
                inr (s, at, waits, name, gen),
              )
        ]
