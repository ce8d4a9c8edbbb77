-- ===== src/Registry/Failed.antt =====
-- A start that fails (`fail_start`), one after another: what becomes of each slot.
use acton_reactive.Shared.{
  ℕ, ◌≡◌, refl, ◌≢◌, ◌∙◌, sym, ap, subst, inl, inr, Bool, true, false, ◌&&◌, ◌||◌, Option, some,
  none, List, [], ◌∷◌, get_elem?, In, arith, Bool-cases, Option-cases, if◌then◌else◌, ◌==◌, In-map,
  In-get, keep-In, get_elem?-set_self, get_elem?-set_ne, ℕ_discrete,
}
use acton_reactive.World.{World}
use acton_reactive.Status.{SupervisionError}
use acton_reactive.SlotState.{SlotState, is_retired, retired, is_owed_an_incarnation}
use acton_reactive.Slot.{ChildSlot, publish}
use acton_reactive.Registry.{SupervisionRegistry}
use acton_reactive.Registry.Ends.{fail_start, failed_slot, owed, fail_all, unfinished}
use acton_reactive.Registry.Invariant.{SlotFits, AllFit, Names}
use acton_reactive.Registry.Slots.{AllFit-set, Names-remove}

module _ (W : World) where
  open W use {Ern, ern_discrete, Handle}

  -- Names and slots without the queue: a supervisor that stops empties the queue first.
  pub record Sound (r : SupervisionRegistry W) : Type 0 where
    pub names : Names W r.slots r.by_ern
    pub fit : AllFit W r.slots

  pub failed_slot-SlotFits :
      (s : ChildSlot W) (e : SupervisionError Ern) → SlotFits W (failed_slot W s e)
  unfolding failed_slot publish
  failed_slot-SlotFits s e = record { held = refl; startable = λ q. absurd (cc q) }

  pub failed_slot-index :
      (s : ChildSlot W) (e : SupervisionError Ern) → (failed_slot W s e).index ≡ s.index
  unfolding failed_slot publish
  failed_slot-index s e = refl

  pub failed_slot-state :
      (s : ChildSlot W) (e : SupervisionError Ern) → (failed_slot W s e).state ≡ retired
  unfolding failed_slot publish
  failed_slot-state s e = refl

  pub owed_lem :
      (o : Option (ChildSlot W)) (s : ChildSlot W)
      → owed W o ≡ some s
      → (o ≡ some s) × (is_owed_an_incarnation s.state ≡ true)
  owed_lem none s h = absurd (cc h)
  owed_lem (some t) s h = ground arith

  pub owed-live : (s : SlotState) → is_owed_an_incarnation s ≡ true → is_retired s ≡ false
  owed-live s h = ground arith

  pub fail_start-Sound :
      (r : SupervisionRegistry W) (i : ℕ) (e : SupervisionError Ern)
      → Sound r
      → Sound (fail_start W r i e)
  unfolding fail_start failed_slot publish
  fail_start-Sound r i e w = elim (Option-cases (owed W (get_elem? r.slots i))) [
    | inl no_change ↦ rw (no_change, fail_start) w
    | inr (s, o) ↦
        let (at, is_owed) = owed_lem (get_elem? r.slots i) s o in
        rw (o, fail_start)
          (record {
            names =
                Names-remove W r.slots r.by_ern i s _ at refl (owed-live s.state is_owed) refl
                  w.names;
            fit = AllFit-set W r.slots i _ w.fit (failed_slot-SlotFits s e);
          })
  ]

  pub fail_start-queue :
      (r : SupervisionRegistry W) (i : ℕ) (e : SupervisionError Ern)
      → (fail_start W r i e).pending_starts ≡ r.pending_starts
  unfolding fail_start
  fail_start-queue r i e = ground arith

  pub fail_all-Sound :
      (is : List ℕ) (e : SupervisionError Ern) (r : SupervisionRegistry W)
      → Sound r
      → Sound (fail_all W is e r)
  unfolding fail_all
  fail_all-Sound [] e r w = w
  fail_all-Sound (i ∷ is) e r w =
      fail_all-Sound is e (fail_start W r i e) (fail_start-Sound r i e w)

  -- A slot once its start has failed, if it was owed one.
  abbrev pub ended : Bool → ChildSlot W → SupervisionError Ern → ChildSlot W
  ended asked s e = if asked && is_owed_an_incarnation s.state then failed_slot W s e else s

  pub fail_start-get_self :
      (r : SupervisionRegistry W) (i : ℕ) (e : SupervisionError Ern) (s : ChildSlot W)
      → get_elem? r.slots i ≡ some s
      → get_elem? (fail_start W r i e).slots i ≡ some (ended true s e)
  unfolding fail_start
  fail_start-get_self r i e s at = elim (Bool-cases (is_owed_an_incarnation s.state)) [
    | inl is_owed ↦
        rw (fail_start, at, is_owed) (get_elem?-set_self r.slots i (failed_slot W s e) s at)
    | inr not_owed ↦ rw (fail_start, at, not_owed) at
  ]

  pub fail_start-get_ne :
      (r : SupervisionRegistry W) (i : ℕ) (e : SupervisionError Ern) (j : ℕ)
      → i ≢ j
      → get_elem? (fail_start W r i e).slots j ≡ get_elem? r.slots j
  unfolding fail_start
  fail_start-get_ne r i e j ne = elim (Option-cases (owed W (get_elem? r.slots i))) [
    | inl no_change ↦ rw (no_change, fail_start)
    | inr (t, o) ↦ rw (o, fail_start) (get_elem?-set_ne r.slots i j (failed_slot W t e) ne)
  ]

  pub eq→== : (i j : ℕ) → i ≡ j → (i == j) ≡ true
  eq→== i j h = ground arith

  pub ne→== : (i j : ℕ) → i ≢ j → (i == j) ≡ false
  ne→== i j h = ground arith

  pub fail_start-get :
      (r : SupervisionRegistry W) (i : ℕ) (e : SupervisionError Ern) (j : ℕ) (s : ChildSlot W)
      → get_elem? r.slots j ≡ some s
      → get_elem? (fail_start W r i e).slots j ≡ some (ended (i == j) s e)
  fail_start-get r i e j s at = elim (ℕ_discrete i j) [
    | yes same ↦ rw (eq→== i j same) (
        ap (get_elem? (fail_start W r i e).slots) (sym same)
        ∙ fail_start-get_self r i e s (ap (get_elem? r.slots) same ∙ at))
    | no other ↦ rw (ne→== i j other) (fail_start-get_ne r i e j other ∙ at)
  ]

  -- Whether an index is in a list.
  abbrev pub is_in : ℕ → List ℕ → Bool
  is_in j [] = false
  is_in j (i ∷ is) = i == j || is_in j is

  pub In→is-In : (j : ℕ) (is : List ℕ) → In j is → is_in j is ≡ true
  In→is-In j [] m = absurd m
  In→is-In j (i ∷ is) m = ground (arith, In→is-In j is)

  pub ended_twice :
      (asked again : Bool) (s : ChildSlot W) (e : SupervisionError Ern)
      → ended again (ended asked s e) e ≡ ended (asked || again) s e
  unfolding failed_slot publish
  ended_twice asked again s e = ground arith

  pub fail_all-get :
      (is : List ℕ) (e : SupervisionError Ern) (r : SupervisionRegistry W) (j : ℕ) (s : ChildSlot W)
      → get_elem? r.slots j ≡ some s
      → get_elem? (fail_all W is e r).slots j ≡ some (ended (is_in j is) s e)
  unfolding fail_all
  fail_all-get [] e r j s at = at
  fail_all-get (i ∷ is) e r j s at =
      fail_all-get is e (fail_start W r i e) j (ended (i == j) s e) (fail_start-get r i e j s at)
      ∙ ap some (ended_twice (i == j) (is_in j is) s e)

  pub unfinished-is_in :
      (r : SupervisionRegistry W) (j : ℕ) (s : ChildSlot W)
      → Names W r.slots r.by_ern
      → get_elem? r.slots j ≡ some s
      → is_owed_an_incarnation s.state ≡ true
      → is_in j (unfinished W r) ≡ true
  unfolding unfinished
  unfinished-is_in r j s n at is_owed = In→is-In j _ (
      subst (λ k. In k (unfinished W r)) (n.indexed j s at)
        (In-map (λ t. t.index) s _
          (keep-In s (λ t. is_owed_an_incarnation t.state) r.slots (In-get r.slots j s at)
            is_owed)))

  pub ended_owed :
      (asked : Bool) (s : ChildSlot W) (e : SupervisionError Ern)
      → (is_owed_an_incarnation s.state ≡ true → asked ≡ true)
      → ended asked s e ≡ ended true s e
  ended_owed asked s e h = ground arith

  pub fail_all-queue :
      (is : List ℕ) (e : SupervisionError Ern) (r : SupervisionRegistry W)
      → (fail_all W is e r).pending_starts ≡ r.pending_starts
  unfolding fail_all
  fail_all-queue [] e r = refl
  fail_all-queue (i ∷ is) e r = fail_all-queue is e (fail_start W r i e) ∙ fail_start-queue r i e
