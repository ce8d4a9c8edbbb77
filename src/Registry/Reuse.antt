-- ===== src/Registry/Reuse.antt =====
-- A name that is released can be registered again.
use acton_reactive.Shared.{
  arith, ℕ, ◌+◌, ◌++◌, List, [], ◌∷◌, ◌≢◌, sym, subst, length-append, get_elem?-append_last,
  get_elem?-set_ne, ◌≡◌, refl, ◌∙◌, ap, ◌⊎◌, inl, inr, true, some, none, length, get_elem?, ok, err,
  length-set, get_elem?-set_self, get_elem?-append_left, lt-length_of_get,
}
use acton_reactive.Shared.Table.{
  get-put_self, get-put_ne, get-remove_ne, get-remove_self, remove_absent,
}
use acton_reactive.World.{World}
use acton_reactive.Status.{unknown_child}
use acton_reactive.SlotState.{is_retired, pending}
use acton_reactive.Slot.{ChildSlot, publish}
use acton_reactive.Registry.{
  SupervisionRegistry, PendingSlot, pending_slot, index_of, register_pending,
}
use acton_reactive.Registry.Ends.{retire, slot_at}
use acton_reactive.Registry.Invariant.{WellFormed}
use acton_reactive.Registry.Released.{slot_at_lem}

module _ (W : World) where
  open W use {Ern, ern_discrete}

  retired_name :
      (r : SupervisionRegistry W) (ern : Ern) (i : ℕ) (s : ChildSlot W)
      → slot_at W r (index_of W r ern) ≡ some (i, s)
      → get_elem? r.slots i ≡ some s
      → let (released, r') = retire W r ern in
        (released ≡ ok s.handle)
        × (index_of W r' ern ≡ none)
        × (length r'.slots ≡ length r.slots)
        × ((t : ChildSlot W) × (get_elem? r'.slots i ≡ some t)
            × (is_retired t.state ≡ true)
            × (t.ern ≡ s.ern))
  unfolding retire publish
  retired_name r ern i s found at =
      rw (found, retire)
        (
          refl,
          get-remove_self ern_discrete ern r.by_ern,
          length-set r.slots i _,
          (_, get_elem?-set_self r.slots i _ s at, refl, refl),
        )

  -- A child that was recorded for a start: its name leads to a new slot behind all others, the slot
  -- holds what was given and waits for its first start, and the start is the last in the queue.
  abbrev pub IsRecorded : ℕ → List ℕ → PendingSlot W → SupervisionRegistry W → Type 0
  IsRecorded count queue n r' =
      (index_of W r' n.ern ≡ some (count))
      × (r'.pending_starts ≡ queue ++ count ∷ [])
      × (length r'.slots ≡ count + 1)
      × ((t : ChildSlot W) × (get_elem? r'.slots (count) ≡ some t)
          × (t.ern ≡ n.ern)
          × (t.index ≡ count)
          × (t.state ≡ pending)
          × (t.handle ≡ none)
          × (t.spawner ≡ some n.spawner)
          × (t.restart_policy ≡ n.restart_policy)
          × (t.limiter ≡ n.limiter)
          × (t.generation ≡ 0)
          × (t.failure ≡ none))

  -- Every slot of another name, and every other name, is as before.
  abbrev pub IsElsewhereSame : SupervisionRegistry W → Ern → SupervisionRegistry W → Type 0
  IsElsewhereSame r ern r' =
      ((j : ℕ) (s : ChildSlot W)
        → get_elem? r.slots j ≡ some s
        → s.ern ≢ ern
        → get_elem? r'.slots j ≡ some s)
      × ((other : Ern) → ern ≢ other → index_of W r' other ≡ index_of W r other)

  registered_new :
      (r : SupervisionRegistry W) (n : PendingSlot W)
      → index_of W r n.ern ≡ none
      → ((register_pending W r n).0 ≡ ok (length r.slots))
        × IsRecorded (length r.slots) r.pending_starts n (register_pending W r n).1
  unfolding register_pending pending_slot publish
  registered_new r n free =
      rw (free, register_pending)
        (
          refl,
          (
            get-put_self ern_discrete n.ern (length r.slots) r.by_ern,
            refl,
            length-append r.slots _,
            (
              _,
              get_elem?-append_last r.slots _,
              refl,
              refl,
              refl,
              refl,
              refl,
              refl,
              refl,
              refl,
              refl,
            ),
          ),
        )

  registered_elsewhere :
      (r : SupervisionRegistry W) (n : PendingSlot W) (other : Ern)
      → index_of W r n.ern ≡ none
      → n.ern ≢ other
      → index_of W (register_pending W r n).1 other ≡ index_of W r other
  unfolding register_pending
  registered_elsewhere r n other free ne =
      rw (free, register_pending) (get-put_ne ern_discrete n.ern other (length r.slots) r.by_ern ne)

  retire-pending_starts :
      (r : SupervisionRegistry W) (ern : Ern) → (retire W r ern).1.pending_starts ≡ r.pending_starts
  unfolding retire
  retire-pending_starts r ern = ground arith

  retired_elsewhere :
      (r : SupervisionRegistry W) (ern : Ern) (i : ℕ) (s : ChildSlot W)
      → slot_at W r (index_of W r ern) ≡ some (i, s)
      → get_elem? r.slots i ≡ some s
      → s.ern ≡ ern
      → IsElsewhereSame r ern (retire W r ern).1
  unfolding retire
  retired_elsewhere r ern i s found at name =
      rw (found, retire)
        (
          λ j t there other.
              get_elem?-set_ne r.slots i j _ (λ e. other (
                ap (λ u. u.ern) (some_same t s (sym there ∙ ap (get_elem? r.slots) (sym e) ∙ at))
                ∙ name))
              ∙ there,
          λ other ne. get-remove_ne ern_discrete ern other r.by_ern ne,
        )
    where
      some_same : (t u : ChildSlot W) → some t ≡ some u → t ≡ u
      some_same t u e = cc e

  registered_old :
      (r : SupervisionRegistry W) (n : PendingSlot W) (i : ℕ) (t : ChildSlot W)
      → index_of W r n.ern ≡ none
      → get_elem? r.slots i ≡ some t
      → get_elem? (register_pending W r n).1.slots i ≡ some t
  unfolding register_pending
  registered_old r n i t free at =
      rw (free, register_pending)
        (get_elem?-append_left r.slots _ i (lt-length_of_get r.slots i t at) ∙ at)

  -- Once a child is released, its name is free: a child of that name can be recorded for a start,
  -- and gets a slot of its own behind all others, to which its name leads, which waits for its first
  -- start and is the last in the queue. Releasing hands out the handle that the slot held and leaves
  -- the slot retired under its old name, also after the name is taken again; a name that is not in
  -- use is refused, and releasing it changes nothing. Other names, and slots of other names, are as
  -- before.
  pub register_pending-retire :
      (r : SupervisionRegistry W) (n : PendingSlot W)
      → WellFormed W r
      → let (released, r') = retire W r n.ern in
        let (accepted, r'') = register_pending W r' n in
        (accepted ≡ ok (length r.slots))
        × IsRecorded (length r.slots) r.pending_starts n r''
        × IsElsewhereSame r n.ern r''
        × (((index_of W r n.ern ≡ none) × (released ≡ err (unknown_child n.ern)) × (r' ≡ r))
            ⊎ ((i : ℕ) × (s : ChildSlot W) × (index_of W r n.ern ≡ some i)
                × (get_elem? r.slots i ≡ some s)
                × (released ≡ ok s.handle)
                × ((t : ChildSlot W) × (get_elem? r''.slots i ≡ some t)
                    × (is_retired t.state ≡ true)
                    × (t.ern ≡ n.ern))))
  unfolding retire
  register_pending-retire r n w = elim (slot_at_lem W r n.ern w) [
    | inl (unknown, no_slot) ↦
        let same : retire W r n.ern ≡ (err (unknown_child n.ern), r) =
          rw (no_slot, retire, remove_absent ern_discrete n.ern r.by_ern unknown) refl in
        let new = registered_new r n unknown in
        rw same (
          new.0,
          new.1,
          (
            λ j s there other. registered_old r n j s unknown there,
            λ other ne. registered_elsewhere r n other unknown ne,
          ),
          inl (unknown, refl, refl),
        )
    | inr (i, s, known, at, name, live, found) ↦
        let r' = (retire W r n.ern).1 in
        let (released, free, size, (t, there, over, old)) = retired_name r n.ern i s found at in
        let new = registered_new r' n free in
        let elsewhere = retired_elsewhere r n.ern i s found at name in
        (
          new.0 ∙ ap ok size,
          subst (λ q. IsRecorded (length r.slots) q n (register_pending W r' n).1)
              (retire-pending_starts r n.ern)
              (subst (λ c. IsRecorded c r'.pending_starts n (register_pending W r' n).1) size
                new.1),
          (
            λ j u held other. registered_old r' n j u free (elsewhere.0 j u held other),
            λ other ne. registered_elsewhere r' n other free ne ∙ elsewhere.1 other ne,
          ),
          inr (
            i,
            s,
            known,
            at,
            released,
            (t, registered_old r' n i t free there, over, old ∙ name),
          ),
        )
  ]
