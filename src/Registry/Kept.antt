-- ===== src/Registry/Kept.antt =====
-- One slot changes, ends or is added: the registry stays well formed.
use acton_reactive.Shared.{
  ℕ, ◌≡◌, ◌≢◌, ◌∙◌, sym, ap, inl, inr, true, false, some, none, List, [], ◌∷◌, ◌++◌, length,
  get_elem?, In, get_elem?-append_cases,
}
use acton_reactive.Shared.Table.{get, put, remove}
use acton_reactive.World.{World}
use acton_reactive.SlotState.{retired, is_queued_to_start, is_retired}
use acton_reactive.Slot.{ChildSlot}
use acton_reactive.Registry.{SupervisionRegistry, set_slot}
use acton_reactive.Registry.Invariant.{SlotFits, WellFormed}
use acton_reactive.Registry.Slots.{
  AllFit-set, AllFit-append, Names-set, Names-append, Names-remove, AllQueued-set,
}

module _ (W : World) where
  open W use {Ern, ern_discrete}

  -- One slot changes and stays in the registry.
  pub WellFormed-set :
      (r : SupervisionRegistry W) (queue : List ℕ) (i : ℕ) (s s' : ChildSlot W)
      → get_elem? r.slots i ≡ some s
      → s'.ern ≡ s.ern
      → s'.index ≡ s.index
      → is_retired s.state ≡ false
      → is_retired s'.state ≡ false
      → SlotFits W s'
      → (is_queued_to_start s'.state ≡ true → In i queue)
      → ((j : ℕ) → j ≢ i → In j r.pending_starts → In j queue)
      → WellFormed W r
      → WellFormed W (set_slot W (record r { pending_starts = queue }) i s')
  WellFormed-set r queue i s s' at same_ern same_index live live' fits here rest w = record {
    names = Names-set W r.slots r.by_ern i s s' at same_ern same_index live live' w.names;
    fit = AllFit-set W r.slots i s' w.fit fits;
    queued = AllQueued-set W r.slots r.pending_starts queue i s' w.queued here rest;
  }

  -- One slot is retired.
  pub WellFormed-remove :
      (r : SupervisionRegistry W) (i : ℕ) (s s' : ChildSlot W)
      → get_elem? r.slots i ≡ some s
      → s'.index ≡ s.index
      → is_retired s.state ≡ false
      → s'.state ≡ retired
      → SlotFits W s'
      → WellFormed W r
      → WellFormed W (set_slot W (record r { by_ern = remove ern_discrete s.ern r.by_ern }) i s')
  WellFormed-remove r i s s' at same_index live dead fits w = record {
    names = Names-remove W r.slots r.by_ern i s s' at same_index live (ap is_retired dead) w.names;
    fit = AllFit-set W r.slots i s' w.fit fits;
    queued =
        AllQueued-set W r.slots r.pending_starts r.pending_starts i s' w.queued
          (λ q. cc (sym q ∙ ap is_queued_to_start dead)) (λ j o m. m);
  }

  -- A slot is added at the end, under a name that is free.
  pub WellFormed-append :
      (r : SupervisionRegistry W) (queue : List ℕ) (s : ChildSlot W)
      → get ern_discrete s.ern r.by_ern ≡ none
      → s.index ≡ length r.slots
      → is_retired s.state ≡ false
      → SlotFits W s
      → (is_queued_to_start s.state ≡ true → In (length r.slots) queue)
      → ((j : ℕ) → In j r.pending_starts → In j queue)
      → WellFormed W r
      → WellFormed W (record r {
        slots = r.slots ++ s ∷ [];
        by_ern = put ern_discrete s.ern (length r.slots) r.by_ern;
        pending_starts = queue;
      })
  WellFormed-append r queue s fresh at live fits here rest w = record {
    names = Names-append W r.slots r.by_ern s fresh at live w.names;
    fit = AllFit-append W r.slots s w.fit fits;
    queued = λ j t h q. elim (get_elem?-append_cases r.slots j s t h) [
      | inl new ↦ rw new.0 (here (rw new.1 at q))
      | inr old ↦ rest j (w.queued j t old q)
    ];
  }
