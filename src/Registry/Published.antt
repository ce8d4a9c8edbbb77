-- ===== src/Registry/Published.antt =====
-- What stands in the channel of a slot after `publish`.
use acton_reactive.Shared.{
  ◌≡◌, refl, ◌∙◌, sym, subst, ◌⊎◌, inl, inr, true, false, arith, Bool-cases,
}
use acton_reactive.World.{World, WatchLaws}
use acton_reactive.Status.{SupervisionStatus}
use acton_reactive.Slot.{
  ChildSlot, next_status, is_unchanged, replace_if_changed, publish_result, publish,
}

module _ (W : World) where
  -- Two statuses that watchers cannot tell apart but for the handle.
  abbrev pub Agree : SupervisionStatus W → SupervisionStatus W → Type 0
  Agree a b =
      (a.generation ≡ b.generation)
      × (a.state ≡ b.state)
      × (a.restarts_in_window ≡ b.restarts_in_window)
      × (a.failure ≡ b.failure)

  is_unchanged-Agree :
      (current next : SupervisionStatus W) → is_unchanged W current next ≡ true → Agree current next
  unfolding is_unchanged
  is_unchanged-Agree current next h = (ground arith, ground arith, ground arith, ground arith)

  replaced :
      (current next : SupervisionStatus W)
      → let (woken, told) = replace_if_changed W next current in
        ((woken ≡ true) × (told ≡ next)) ⊎ ((woken ≡ false) × (told ≡ current) × Agree current next)
  unfolding replace_if_changed
  replaced current next = elim (Bool-cases (is_unchanged W current next)) [
    | inl same ↦ inr (rw same refl, rw same refl, is_unchanged-Agree current next same)
    | inr differs ↦ inl (rw differs refl, rw differs refl)
  ]

  -- Publishing wakes the watchers with the whole status of the slot, or it wakes nobody and leaves
  -- the channel as it is, and then the channel already told the slot's generation, state, restarts
  -- in the window and failure.
  pub publish-Agree :
      (laws : WatchLaws W) (s : ChildSlot W)
      → let told = W.borrow (SupervisionStatus W) (publish W s).status in
        let woken = (publish_result W s).0 in
        ((woken ≡ true) × (told ≡ next_status W s))
        ⊎ ((woken ≡ false)
            × (told ≡ W.borrow (SupervisionStatus W) s.status)
            × Agree told (next_status W s))
  unfolding publish publish_result
  publish-Agree laws s =
      let before = W.borrow (SupervisionStatus W) s.status in
      let f = replace_if_changed W (next_status W s) in
      let after = laws.borrow-send (SupervisionStatus W) s.status f in
      let woke = laws.send-result (SupervisionStatus W) s.status f in
      elim (replaced before (next_status W s)) [
        | inl (w, t) ↦ inl (woke ∙ w, after ∙ t)
        | inr (w, t, a) ↦
            inr (woke ∙ w, after ∙ t, subst (λ x. Agree x (next_status W s)) (sym (after ∙ t)) a)
      ]
