-- ===== src/Registry/Settled.antt =====
-- What a supervisor that stops leaves (`cancel_unfinished_starts`), and that it keeps `WellFormed`.
use acton_reactive.Shared.{
  ℕ, ◌≡◌, ◌∙◌, sym, ap, length-map, inl, inr, true, false, some, none, Option, List, [], ◌∷◌, keep,
  length, get_elem?, arith, Option-cases, Bool-cases, ◌⊎◌, refl, subst, ℕ_discrete,
}
use acton_reactive.World.{World, WatchLaws}
use acton_reactive.Status.{SupervisionError, SupervisionStatus, supervisor_stopped}
use acton_reactive.SlotState.{retired, is_queued_to_start, is_owed_an_incarnation}
use acton_reactive.Slot.{ChildSlot, publish, publish_result, next_status}
use acton_reactive.Registry.Published.{Agree, publish-Agree}
use acton_reactive.Registry.{SupervisionRegistry}
use acton_reactive.Registry.Ends.{
  fail_start, failed_slot, cancel_unfinished_starts, fail_all, unfinished,
}
use acton_reactive.Registry.Invariant.{WellFormed}
use acton_reactive.Registry.Failed.{
  fail_all-Sound, ended, fail_start-get_ne, is_in, fail_all-get, unfinished-is_in, ended_owed,
  fail_all-queue,
}

module _ (W : World) where
  open W use {Ern, ern_discrete, Handle}

  -- What a slot that was owed an incarnation is afterwards: retired, without a handle, with the
  -- error that the supervisor stopped, the same child and incarnation, and its watchers know it.
  abbrev pub IsAbandoned : Ern → ChildSlot W → ChildSlot W → Type 0
  IsAbandoned supervisor s t =
      (t.state ≡ retired)
      × (t.handle ≡ none)
      × (t.failure ≡ some (supervisor_stopped supervisor))
      × (t.ern ≡ s.ern)
      × (t.index ≡ s.index)
      × (t.generation ≡ s.generation)
      × Agree W (W.borrow (SupervisionStatus W) t.status) (next_status W t)

  publish-told :
      (laws : WatchLaws W) (s : ChildSlot W)
      → Agree W (W.borrow (SupervisionStatus W) (publish W s).status) (next_status W s)
  publish-told laws s = elim (publish-Agree W laws s) [
    | inl (woken, told) ↦
        subst (λ x. Agree W x (next_status W s)) (sym told) (refl, refl, refl, refl)
    | inr (woken, told, agree) ↦ agree
  ]

  failed_slot-IsAbandoned :
      (laws : WatchLaws W) (supervisor : Ern) (s : ChildSlot W)
      → IsAbandoned supervisor s (failed_slot W s (supervisor_stopped supervisor))
  unfolding failed_slot publish publish_result next_status
  failed_slot-IsAbandoned laws supervisor s = (
    refl,
    refl,
    refl,
    refl,
    refl,
    refl,
    publish-told laws (record s {
      handle = none;
      failure = some (supervisor_stopped supervisor);
      state = retired;
    }),
  )

  failed_or_left :
      (laws : WatchLaws W) (supervisor : Ern) (s : ChildSlot W) (o : Option (ChildSlot W))
      → o ≡ some (ended W true s (supervisor_stopped supervisor))
      → ((is_owed_an_incarnation s.state ≡ true)
          × ((t : ChildSlot W) × (o ≡ some t) × IsAbandoned supervisor s t))
        ⊎ ((is_owed_an_incarnation s.state ≡ false) × (o ≡ some s))
  failed_or_left laws supervisor s o after = elim (Bool-cases (is_owed_an_incarnation s.state)) [
    | inl owed ↦ inl (
      owed,
      (
        failed_slot W s (supervisor_stopped supervisor),
        after ∙ rw owed refl,
        failed_slot-IsAbandoned laws supervisor s,
      ),
    )
    | inr not_owed ↦ inr (not_owed, after ∙ rw not_owed refl)
  ]

  -- When a supervisor stops, every child that is still owed an incarnation, whatever stage its
  -- start had reached, is retired without a handle, with the error that this supervisor stopped,
  -- and its watchers are told so; every other slot is left alone; no start is left to launch; and
  -- the count returned is that of the children abandoned. The registry is well formed, and the
  -- watch channels are as documented.
  pub cancel_unfinished_starts_lem :
      (laws : WatchLaws W) (r : SupervisionRegistry W) (supervisor : Ern) (j : ℕ) (s : ChildSlot W)
      → WellFormed W r
      → get_elem? r.slots j ≡ some s
      → let (count, r') = cancel_unfinished_starts W r supervisor in
        (((is_owed_an_incarnation s.state ≡ true)
            × ((t : ChildSlot W) × (get_elem? r'.slots j ≡ some t) × IsAbandoned supervisor s t))
          ⊎ ((is_owed_an_incarnation s.state ≡ false) × (get_elem? r'.slots j ≡ some s)))
        × (r'.pending_starts ≡ [])
        × (count ≡ length (keep (λ t. is_owed_an_incarnation t.state) r.slots))
  unfolding cancel_unfinished_starts
  cancel_unfinished_starts_lem laws r supervisor j s w at =
      let e = supervisor_stopped supervisor in
      let all = unfinished W r in
      (
        failed_or_left laws supervisor s _ (
            fail_all-get W all e (record r { pending_starts = [] }) j s at
            ∙ ap some (ended_owed W (is_in W j all) s e (unfinished-is_in W r j s w.names at))),
        fail_all-queue W all e (record r { pending_starts = [] }),
        unfold unfinished in length-map (λ t. t.index) _,
      )

  fail_start_absent :
      (r : SupervisionRegistry W) (i : ℕ) (e : SupervisionError Ern)
      → get_elem? r.slots i ≡ none
      → fail_start W r i e ≡ r
  unfolding fail_start
  fail_start_absent r i e h = rw (h, fail_start)

  fail_start-none :
      (r : SupervisionRegistry W) (i : ℕ) (e : SupervisionError Ern) (j : ℕ)
      → get_elem? r.slots j ≡ none
      → get_elem? (fail_start W r i e).slots j ≡ none
  fail_start-none r i e j h = elim (ℕ_discrete i j) [
    | yes same ↦ rw (fail_start_absent r i e (ap (get_elem? r.slots) same ∙ h)) h
    | no other ↦ fail_start-get_ne W r i e j other ∙ h
  ]

  fail_all-none :
      (is : List ℕ) (e : SupervisionError Ern) (r : SupervisionRegistry W) (j : ℕ)
      → get_elem? r.slots j ≡ none
      → get_elem? (fail_all W is e r).slots j ≡ none
  unfolding fail_all
  fail_all-none [] e r j h = h
  fail_all-none (i ∷ is) e r j h =
      fail_all-none is e (fail_start W r i e) j (fail_start-none r i e j h)

  ended-unqueued :
      (s : ChildSlot W) (e : SupervisionError Ern)
      → is_queued_to_start (ended W true s e).state ≡ false
  unfolding failed_slot publish
  ended-unqueued s e = ground arith

  pub cancel_unfinished_starts-WellFormed :
      (r : SupervisionRegistry W) (supervisor : Ern)
      → WellFormed W r
      → WellFormed W (cancel_unfinished_starts W r supervisor).1
  unfolding cancel_unfinished_starts
  cancel_unfinished_starts-WellFormed r supervisor w =
      let e = supervisor_stopped supervisor in
      let sound =
        fail_all-Sound W (unfinished W r) e (record r { pending_starts = [] })
          (record { names = w.names; fit = w.fit }) in
      record {
        names = sound.names;
        fit = sound.fit;
        queued = λ j t h q. elim (Option-cases (get_elem? r.slots j)) [
          | inl absent ↦ absurd (
              cc (
                sym h
                ∙ fail_all-none (unfinished W r) e (record r { pending_starts = [] }) j absent))
          | inr (s, at) ↦
              let same : some (ended W true s e) ≡ some t =
                sym (
                  ap some (
                    ended_owed W (is_in W j (unfinished W r)) s e
                      (unfinished-is_in W r j s w.names at)))
                ∙ sym (fail_all-get W (unfinished W r) e (record r { pending_starts = [] }) j s at)
                ∙ h in
              absurd (cc (ended-unqueued s e, same, q))
        ];
      }
