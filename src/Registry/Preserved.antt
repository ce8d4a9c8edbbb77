-- ===== src/Registry/Preserved.antt =====
-- Every operation of the registry keeps `WellFormed`.
use acton_reactive.Shared.{
  ℕ, ◌≡◌, refl, ◌≢◌, ◌∙◌, sym, ap, inl, inr, true, false, Option, some, none, List, [], ◌∷◌, ◌++◌,
  length, get_elem?, is_some, arith, In-append_left, In-append_last, Bool-cases, Option-cases,
}
use acton_reactive.World.{World}
use acton_reactive.SlotState.{is_queued_to_start, is_retired}
use acton_reactive.Slot.{ChildSlot, publish}
use acton_reactive.Registry.{
  SupervisionRegistry, NewSlot, PendingSlot, set_slot, index_of, empty, register, register_pending,
  new_slot, pending_slot,
}
use acton_reactive.Registry.Starts.{
  begin_start_from, begin_start, complete_start, queue_restart, launch, completion, requeued,
  StartRecorded, started_slot,
}
use acton_reactive.Registry.Invariant.{SlotFits, WellFormed}
use acton_reactive.Registry.Kept.{WellFormed-set, WellFormed-append}

module _ (W : World) where
  open W use {Ern, ern_discrete, Handle, Spawner}

  pub empty-WellFormed : WellFormed W (empty W)
  empty-WellFormed = record {
    names = record {
      indexed = λ i s h. cc;
      named = λ e i h. absurd (cc h);
      findable = λ i s h l. cc;
    };
    fit = λ i s h. absurd (cc h);
    queued = λ i s h q. absurd (cc h);
  }

  not_some : {A : Type 0} (o : Option A) → is_some o ≡ false → o ≡ none
  not_some o h = ground arith

  pub register-WellFormed :
      (r : SupervisionRegistry W) (n : NewSlot W) → WellFormed W r → WellFormed W (register W r n).1
  unfolding register publish
  register-WellFormed r n w = elim (Bool-cases (is_some (index_of W r n.ern))) [
    | inl known ↦ rw known w
    | inr fresh ↦ rw fresh (
        WellFormed-append W r r.pending_starts (publish W (new_slot W n (length r.slots)))
          (not_some _ fresh) refl refl (record { held = refl; startable = λ h. cc })
          (λ h. absurd (cc h)) (λ j m. m) w)
  ]

  pub register_pending-WellFormed :
      (r : SupervisionRegistry W) (n : PendingSlot W)
      → WellFormed W r
      → WellFormed W (register_pending W r n).1
  unfolding register_pending publish
  register_pending-WellFormed r n w = elim (Bool-cases (is_some (index_of W r n.ern))) [
    | inl known ↦ rw known w
    | inr fresh ↦ rw fresh (
        WellFormed-append W r (r.pending_starts ++ length r.slots ∷ [])
          (publish W (pending_slot W n (length r.slots))) (not_some _ fresh) refl refl
          (record { held = refl; startable = λ h. refl })
          (λ h. In-append_last (length r.slots) r.pending_starts)
          (λ j m. In-append_left j r.pending_starts _ m) w)
  ]

  -- What a change of a slot that stays in the registry keeps.
  record Keeps (s s' : ChildSlot W) : Type 0 where
    same_ern : s'.ern ≡ s.ern
    same_index : s'.index ≡ s.index
    live : is_retired s.state ≡ false
    live' : is_retired s'.state ≡ false
    fits : SlotFits W s → SlotFits W s'

  launch-Keeps :
      (o : Option (ChildSlot W)) (spawner : Spawner) (s' : ChildSlot W)
      → launch W o ≡ some (spawner, s')
      → (s : ChildSlot W) × (o ≡ some s) × Keeps s s' × (is_queued_to_start s'.state ≡ false)
  unfolding publish
  launch-Keeps none spawner s' h = absurd (cc h)
  launch-Keeps (some s) spawner s' h = (
    s,
    refl,
    record {
      same_ern = ground arith;
      same_index = ground arith;
      live = ground arith;
      live' = ground arith;
      fits = λ f. record { held = ground arith; startable = λ q. ground arith };
    },
    ground arith,
  )

  -- A slot that a start task is owed is launched when its turn comes.
  launch_queued :
      (s : ChildSlot W)
      → SlotFits W s
      → is_queued_to_start s.state ≡ true
      → launch W (some s) ≢ none
  launch_queued s f q e = ground arith

  begin_start_from-WellFormed :
      (queue : List ℕ) (r : SupervisionRegistry W)
      → WellFormed W (record r { pending_starts = queue })
      → WellFormed W (begin_start_from W queue r).1
  unfolding begin_start_from
  begin_start_from-WellFormed [] r w = w
  begin_start_from-WellFormed (i ∷ rest) r w =
      elim (Option-cases (launch W (get_elem? r.slots i))) [
        | inl skip ↦
            rw (skip, begin_start_from)
              (begin_start_from-WellFormed rest r (record {
                names = w.names;
                fit = w.fit;
                queued = λ j s h q. elim (w.queued j s h q) [
                  | inl e ↦ absurd (
                      launch_queued s (w.fit j s h) q
                        (cc (sym skip ∙ ap (λ k. launch W (get_elem? r.slots k)) (sym e))))
                  | inr m ↦ m
                ];
              }))
        | inr ((spawner, s'), e) ↦
            let (s, at, k, unqueued) = launch-Keeps (get_elem? r.slots i) spawner s' e in
            rw (e, begin_start_from)
              (WellFormed-set W (record r { pending_starts = i ∷ rest }) rest i s s' at k.same_ern
                k.same_index k.live k.live' (k.fits (w.fit i s at))
                (λ q. absurd (cc (sym q ∙ unqueued)))
                (λ j o m. elim m [ inl e' ↦ absurd (o e') | inr m' ↦ m' ]) w)
      ]

  pub begin_start-WellFormed :
      (r : SupervisionRegistry W) → WellFormed W r → WellFormed W (begin_start W r).1
  unfolding begin_start
  begin_start-WellFormed r w = begin_start_from-WellFormed r.pending_starts r w

  completion-Keeps :
      (ern : Ern) (handle : Handle) (now : ℕ) (o : Option (ChildSlot W)) (how : StartRecorded)
      (s' : ChildSlot W)
      → completion W ern handle now o ≡ some (how, s')
      → (s : ChildSlot W) × (o ≡ some s) × Keeps s s' × (is_queued_to_start s'.state ≡ false)
  unfolding publish started_slot
  completion-Keeps ern handle now none how s' h = absurd (cc h)
  completion-Keeps ern handle now (some s) how s' h = (
    s,
    refl,
    record {
      same_ern = ground arith;
      same_index = ground arith;
      live = ground arith;
      live' = ground arith;
      fits = λ f. record { held = ground arith; startable = λ q. ground arith };
    },
    ground arith,
  )

  -- A slot changes, stays, and does not come to wait for a start task.
  Keeps-WellFormed :
      (r : SupervisionRegistry W) (i : ℕ) (s s' : ChildSlot W)
      → get_elem? r.slots i ≡ some s
      → Keeps s s'
      → is_queued_to_start s'.state ≡ false
      → WellFormed W r
      → WellFormed W (set_slot W r i s')
  Keeps-WellFormed r i s s' at k unqueued w =
      WellFormed-set W r r.pending_starts i s s' at k.same_ern k.same_index k.live k.live'
        (k.fits (w.fit i s at)) (λ q. absurd (cc (sym q ∙ unqueued))) (λ j o m. m) w

  pub complete_start-WellFormed :
      (r : SupervisionRegistry W) (i : ℕ) (ern : Ern) (handle : Handle) (now : ℕ)
      → WellFormed W r
      → WellFormed W (complete_start W r i ern handle now).1
  unfolding complete_start
  complete_start-WellFormed r i ern handle now w =
      elim (Option-cases (completion W ern handle now (get_elem? r.slots i))) [
        | inl no_change ↦ rw (no_change, complete_start) w
        | inr ((how, s'), e) ↦
            let (s, at, k, unqueued) =
              completion-Keeps ern handle now (get_elem? r.slots i) how s' e in
            rw (e, complete_start) (Keeps-WellFormed r i s s' at k unqueued w)
      ]

  requeued-Keeps :
      (ern : Ern) (generation : ℕ) (o : Option (ChildSlot W)) (s' : ChildSlot W)
      → requeued W ern generation o ≡ some s'
      → (s : ChildSlot W) × (o ≡ some s) × Keeps s s'
  unfolding publish
  requeued-Keeps ern generation none s' h = absurd (cc h)
  requeued-Keeps ern generation (some s) s' h = (
    s,
    refl,
    record {
      same_ern = ground arith;
      same_index = ground arith;
      live = ground arith;
      live' = ground arith;
      fits = λ f. record { held = ground arith; startable = λ q. ground arith };
    },
  )

  pub queue_restart-WellFormed :
      (r : SupervisionRegistry W) (i : ℕ) (ern : Ern) (generation : ℕ)
      → WellFormed W r
      → WellFormed W (queue_restart W r i ern generation).1
  unfolding queue_restart
  queue_restart-WellFormed r i ern generation w =
      elim (Option-cases (requeued W ern generation (get_elem? r.slots i))) [
        | inl no_change ↦ rw (no_change, queue_restart) w
        | inr (s', e) ↦
            let (s, at, k) = requeued-Keeps ern generation (get_elem? r.slots i) s' e in
            rw (e, queue_restart)
              (WellFormed-set W r (r.pending_starts ++ i ∷ []) i s s' at k.same_ern k.same_index
                k.live k.live' (k.fits (w.fit i s at)) (λ q. In-append_last i r.pending_starts)
                (λ j o m. In-append_left j r.pending_starts _ m) w)
      ]
