-- ===== src/Registry/Slots.antt =====
-- One slot changes, ends or is added: what that does to the parts of the invariant.
use acton_reactive.Shared.{
  ℕ, ◌≡◌, ◌≢◌, ◌∙◌, sym, ap, inl, inr, true, false, some, none, List, [], ◌∷◌, ◌++◌, length,
  get_elem?, set, In, arith, get_elem?-set_cases, get_elem?-set_self, get_elem?-set_ne,
  get_elem?-append_cases, get_elem?-append_last, get_elem?-append_left, lt-length_of_get,
  ℕ_discrete,
}
use acton_reactive.Shared.Table.{
  get, put, remove, get-put_self, get-put_ne, get-remove_self, get-remove_ne,
}
use acton_reactive.World.{World}
use acton_reactive.SlotState.{is_queued_to_start, is_retired}
use acton_reactive.Slot.{ChildSlot}
use acton_reactive.Registry.Invariant.{SlotFits, Names, AllFit, AllQueued}

module _ (W : World) where
  open W use {Ern, ern_discrete}

  pub AllFit-set :
      (slots : List (ChildSlot W)) (i : ℕ) (s : ChildSlot W)
      → AllFit W slots
      → SlotFits W s
      → AllFit W (set slots i s)
  AllFit-set slots i s all fits j t h = elim (get_elem?-set_cases slots i j s t h) [
    | inl new ↦ rw new.1 fits
    | inr old ↦ all j t old.1
  ]

  pub AllFit-append :
      (slots : List (ChildSlot W)) (s : ChildSlot W)
      → AllFit W slots
      → SlotFits W s
      → AllFit W (slots ++ s ∷ [])
  AllFit-append slots s all fits j t h = elim (get_elem?-append_cases slots j s t h) [
    | inl new ↦ rw new.1 fits
    | inr old ↦ all j t old
  ]

  pub get_unique :
      (slots : List (ChildSlot W)) (i j : ℕ) (s t : ChildSlot W)
      → get_elem? slots i ≡ some s
      → get_elem? slots j ≡ some t
      → i ≡ j
      → s ≡ t
  get_unique slots i j s t h k e = cc (ap (get_elem? slots) e)

  pub Names-set :
      (slots : List (ChildSlot W)) (by_ern : List (Ern × ℕ)) (i : ℕ) (s s' : ChildSlot W)
      → get_elem? slots i ≡ some s
      → s'.ern ≡ s.ern
      → s'.index ≡ s.index
      → is_retired s.state ≡ false
      → is_retired s'.state ≡ false
      → Names W slots by_ern
      → Names W (set slots i s') by_ern
  Names-set slots by_ern i s s' at same_ern same_index live live' n = record {
    indexed = λ j t h. elim (get_elem?-set_cases slots i j s' t h) [
      | inl new ↦ rw (new.1, new.0) (same_index ∙ n.indexed i s at)
      | inr old ↦ n.indexed j t old.1
    ];
    named = λ e j h. elim (ℕ_discrete i j) [
      | yes same ↦
          let (t, there, name, alive) = n.named e j h in
          (
            s',
            rw (← same) (get_elem?-set_self slots i s' s at),
            same_ern ∙ ap (λ u. u.ern) (get_unique slots i j s t at there same) ∙ name,
            live',
          )
      | no other ↦
          let (t, there, name, alive) = n.named e j h in
          (t, get_elem?-set_ne slots i j s' other ∙ there, name, alive)
    ];
    findable = λ j t h alive. elim (get_elem?-set_cases slots i j s' t h) [
      | inl new ↦ rw (new.1, new.0, same_ern) (n.findable i s at live)
      | inr old ↦ n.findable j t old.1 alive
    ];
  }

  pub Names-append :
      (slots : List (ChildSlot W)) (by_ern : List (Ern × ℕ)) (s : ChildSlot W)
      → get ern_discrete s.ern by_ern ≡ none
      → s.index ≡ length slots
      → is_retired s.state ≡ false
      → Names W slots by_ern
      → Names W (slots ++ s ∷ []) (put ern_discrete s.ern (length slots) by_ern)
  Names-append slots by_ern s fresh at live n = record {
    indexed = λ j t h. elim (get_elem?-append_cases slots j s t h) [
      | inl new ↦ rw (new.1, new.0) at
      | inr old ↦ n.indexed j t old
    ];
    named = λ e j h. elim (ern_discrete s.ern e) [
      | yes same ↦
          let last : length slots ≡ j =
            ground (arith, get-put_self ern_discrete s.ern (length slots) by_ern) in
          (s, rw (← last) (get_elem?-append_last slots s), same, live)
      | no other ↦
          let (t, there, name, alive) =
            n.named e j (sym (get-put_ne ern_discrete s.ern e (length slots) by_ern other) ∙ h) in
          (
            t,
            get_elem?-append_left slots (s ∷ []) j (lt-length_of_get slots j t there) ∙ there,
            name,
            alive,
          )
    ];
    findable = λ j t h alive. elim (get_elem?-append_cases slots j s t h) [
      | inl new ↦ rw (new.1, new.0) (get-put_self ern_discrete s.ern (length slots) by_ern)
      | inr old ↦
          let known = n.findable j t old alive in
          get-put_ne ern_discrete s.ern t.ern (length slots) by_ern
            (λ e. cc (sym fresh ∙ ap (λ x. get ern_discrete x by_ern) e ∙ known))
          ∙ known
    ];
  }

  -- A name is forgotten together with the life of its slot.
  pub Names-remove :
      (slots : List (ChildSlot W)) (by_ern : List (Ern × ℕ)) (i : ℕ) (s s' : ChildSlot W)
      → get_elem? slots i ≡ some s
      → s'.index ≡ s.index
      → is_retired s.state ≡ false
      → is_retired s'.state ≡ true
      → Names W slots by_ern
      → Names W (set slots i s') (remove ern_discrete s.ern by_ern)
  Names-remove slots by_ern i s s' at same_index live dead n = record {
    indexed = λ j t h. elim (get_elem?-set_cases slots i j s' t h) [
      | inl new ↦ rw (new.1, new.0) (same_index ∙ n.indexed i s at)
      | inr old ↦ n.indexed j t old.1
    ];
    named = λ e j h. elim (ern_discrete s.ern e) [
      | yes same ↦ absurd (
          cc (
            sym (get-remove_self ern_discrete s.ern by_ern)
            ∙ ap (λ x. get ern_discrete x (remove ern_discrete s.ern by_ern)) same
            ∙ h))
      | no other ↦
          let (t, there, name, alive) =
            n.named e j (sym (get-remove_ne ern_discrete s.ern e by_ern other) ∙ h) in
          (
            t,
            get_elem?-set_ne slots i j s'
                  (λ e'. other (ap (λ u. u.ern) (get_unique slots i j s t at there e') ∙ name))
                ∙ there,
            name,
            alive,
          )
    ];
    findable = λ j t h alive. elim (get_elem?-set_cases slots i j s' t h) [
      | inl new ↦ absurd (cc (sym dead ∙ ap (λ u. is_retired u.state) (sym new.1) ∙ alive))
      | inr old ↦
          let known = n.findable j t old.1 alive in
          get-remove_ne ern_discrete s.ern t.ern by_ern (λ e.
            old.0 (
              cc
                (sym known ∙ ap (λ x. get ern_discrete x by_ern) (sym e) ∙ n.findable i s at live)))
          ∙ known
    ];
  }

  pub AllQueued-set :
      (slots : List (ChildSlot W)) (queue queue' : List ℕ) (i : ℕ) (s' : ChildSlot W)
      → AllQueued W slots queue
      → (is_queued_to_start s'.state ≡ true → In i queue')
      → ((j : ℕ) → j ≢ i → In j queue → In j queue')
      → AllQueued W (set slots i s') queue'
  AllQueued-set slots queue queue' i s' all here rest j t h q =
      elim (get_elem?-set_cases slots i j s' t h) [
        | inl new ↦ rw new.0 (here (rw new.1 at q))
        | inr old ↦ rest j old.0 (all j t old.1 q)
      ]
