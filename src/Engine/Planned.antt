-- ===== src/Engine/Planned.antt =====
-- Carrying out a restart plan keeps the registry well formed.
use acton_reactive.Shared.{
  ℕ, ◌≡◌, refl, ◌∙◌, sym, ap, inl, inr, true, false, some, List, [], ◌∷◌, get_elem?, In, is_some,
  Bool-cases, contains, ℕ_discrete, get_elem?-set_self, get_elem?-set_ne,
}
use acton_reactive.World.{World}
use acton_reactive.Plan.{RestartPlan}
use acton_reactive.SlotState.{is_retired}
use acton_reactive.Slot.{ChildSlot, publish}
use acton_reactive.Registry.{SupervisionRegistry, set_slot}
use acton_reactive.Registry.Invariant.{WellFormed}
use acton_reactive.Registry.Kept.{WellFormed-set}
use acton_reactive.Engine.{Supervisor}
use acton_reactive.Engine.Group.{
  stopped_slot, parked_slot, stop_each, park_each, begin_group_stops, park_group_for_restart,
  schedule_restart,
}

module _ (W : World) where
  -- A slot of a live child that can be restarted.
  abbrev pub ParkFits : SupervisionRegistry W → ℕ → Type 0
  ParkFits r k =
      (s : ChildSlot W) × (get_elem? r.slots k ≡ some s)
      × (is_retired s.state ≡ false)
      × (is_some s.spawner ≡ true)

  -- A slot of a child that is running, and can be restarted if it is to be.
  abbrev pub StopFits : SupervisionRegistry W → List ℕ → ℕ → Type 0
  StopFits r restart k =
      (s : ChildSlot W) × (get_elem? r.slots k ≡ some s)
      × (is_retired s.state ≡ false)
      × (is_some s.handle ≡ true)
      × (contains ℕ_discrete restart k ≡ true → is_some s.spawner ≡ true)

  pub record PlanFits (r : SupervisionRegistry W) (plan : RestartPlan) : Type 0 where
    pub stops : (k : ℕ) → In k plan.stop → StopFits r plan.restart k
    pub parks : (k : ℕ) → In k plan.restart → ParkFits r k

  pub ParkFits-set :
      (r : SupervisionRegistry W) (i k : ℕ) (s s' : ChildSlot W)
      → get_elem? r.slots i ≡ some s
      → is_retired s'.state ≡ false
      → s'.spawner ≡ s.spawner
      → ParkFits r k
      → ParkFits (set_slot W r i s') k
  ParkFits-set r i k s s' at live same (t, there, alive, can) = elim (ℕ_discrete i k) [
    | yes e ↦
        let both : some s ≡ some t = sym at ∙ ap (get_elem? r.slots) e ∙ there in
        (
          s',
          rw (← e) (get_elem?-set_self r.slots i s' s at),
          live,
          ap is_some (same ∙ ap (λ u. u.spawner) (unwrap both)) ∙ can,
        )
    | no n ↦ (t, get_elem?-set_ne r.slots i k s' n ∙ there, alive, can)
  ]
    where
      unwrap : {s t : ChildSlot W} → some s ≡ some t → s ≡ t
      unwrap e = cc

  pub StopFits-set :
      (r : SupervisionRegistry W) (restart : List ℕ) (i k : ℕ) (s s' : ChildSlot W)
      → get_elem? r.slots i ≡ some s
      → is_retired s'.state ≡ false
      → s'.spawner ≡ s.spawner
      → s'.handle ≡ s.handle
      → StopFits r restart k
      → StopFits (set_slot W r i s') restart k
  StopFits-set r restart i k s s' at live same held (t, there, alive, runs, can) =
      elim (ℕ_discrete i k) [
        | yes e ↦
            let both = unwrap (sym at ∙ ap (get_elem? r.slots) e ∙ there) in
            (
              s',
              rw (← e) (get_elem?-set_self r.slots i s' s at),
              live,
              ap is_some (held ∙ ap (λ u. u.handle) both) ∙ runs,
              λ q. ap is_some (same ∙ ap (λ u. u.spawner) both) ∙ can q,
            )
        | no n ↦ (t, get_elem?-set_ne r.slots i k s' n ∙ there, alive, runs, can)
      ]
    where
      unwrap : {s t : ChildSlot W} → some s ≡ some t → s ≡ t
      unwrap e = cc

  stop_each-keeps :
      (stops restart : List ℕ) (r : SupervisionRegistry W)
      → ((k : ℕ) → In k stops → StopFits r restart k)
      → WellFormed W r
      → WellFormed W (stop_each W stops restart r).1
        × ((k : ℕ) → ParkFits r k → ParkFits (stop_each W stops restart r).1 k)
  unfolding stop_each publish
  stop_each-keeps [] restart r fits w = (w, λ k p. p)
  stop_each-keeps (i ∷ rest) restart r fits w =
      let (s, at, live, runs, can) = fits i (inl refl) in
      let again = contains ℕ_discrete restart i in
      let s' = stopped_slot W again s in
      let w' =
        WellFormed-set W r r.pending_starts i s s' at refl refl live refl
          (record { held = runs; startable = can }) (λ q. absurd (cc q)) (λ j o m. m) w in
      let ih =
        stop_each-keeps rest restart (set_slot W r i s')
          (λ k m. StopFits-set r restart i k s s' at refl refl refl (fits k (inr m))) w' in
      rw (at, stop_each) (ih.0, λ k p. ih.1 k (ParkFits-set r i k s s' at refl refl p))

  park_each-WellFormed :
      (parks stops : List ℕ) (r : SupervisionRegistry W)
      → ((k : ℕ) → In k parks → ParkFits r k)
      → WellFormed W r
      → WellFormed W (park_each W parks stops r).1
  unfolding park_each publish
  park_each-WellFormed [] stops r fits w = w
  park_each-WellFormed (i ∷ rest) stops r fits w =
      let (s, at, live, can) = fits i (inl refl) in
      let s' = parked_slot W s in
      elim (Bool-cases (contains ℕ_discrete stops i)) [
        | inl stopped ↦
            rw (at, park_each, stopped)
              (park_each-WellFormed rest stops r (λ k m. fits k (inr m)) w)
        | inr parked ↦
            rw (at, park_each, parked)
              (park_each-WellFormed rest stops (set_slot W r i s')
                (λ k m. ParkFits-set r i k s s' at refl refl (fits k (inr m)))
                (WellFormed-set W r r.pending_starts i s s' at refl refl live refl
                  (record { held = refl; startable = λ q. can }) (λ q. absurd (cc q)) (λ j o m. m)
                  w))
      ]

  pub schedule_restart-WellFormed :
      (v : Supervisor W) (plan : RestartPlan) (backoff : ℕ)
      → PlanFits v.supervision plan
      → WellFormed W v.supervision
      → WellFormed W (schedule_restart W v plan backoff).0.supervision
  unfolding schedule_restart begin_group_stops park_group_for_restart
  schedule_restart-WellFormed v plan backoff fits w =
      let stopped = stop_each-keeps plan.stop plan.restart v.supervision fits.stops w in
      park_each-WellFormed plan.restart plan.stop _ (λ k m. stopped.1 k (fits.parks k m)) stopped.0
