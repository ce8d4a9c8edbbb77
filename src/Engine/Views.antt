-- ===== src/Engine/Views.antt =====
-- The plan of a supervisor's strategy fits the registry whose views it was made from.
use acton_reactive.Shared.{
  ℕ, ◌≡◌, ◌∙◌, sym, ap, Bool, true, false, not, ◌&&◌, Option, some, none, List, get_elem?, In,
  is_some, arith, contains→In, ℕ_discrete, In-keep, map-In, get_of_In, ◌==◌,
}
use acton_reactive.World.{World}
use acton_reactive.Policy.{
  SupervisionStrategy, one_for_one, one_for_all, rest_for_one, apply_strategy,
}
use acton_reactive.Plan.{SlotView, plan_restart}
use acton_reactive.Plan.Order.{Reported, group_members, In-indices-keep}
use acton_reactive.SlotState.{is_retired}
use acton_reactive.Slot.{ChildSlot, view}
use acton_reactive.Registry.{SupervisionRegistry, views, live_slots}
use acton_reactive.Registry.Invariant.{WellFormed}
use acton_reactive.Engine.Planned.{ParkFits, StopFits, PlanFits}

module _ (W : World) (r : SupervisionRegistry W) (w : WellFormed W r) where
  -- Every view is that of a live slot, found at its index.
  view_slot :
      (v : SlotView)
      → In v (views W r)
      → (s : ChildSlot W) × (get_elem? r.slots v.index ≡ some s)
        × (is_retired s.state ≡ false)
        × (v ≡ view W s)
  unfolding views
  view_slot v m =
      let (s, live, e) = map-In (view W) v (live_slots W r) m in
      let (there, alive) = In-keep s (λ t. not (is_retired t.state)) r.slots live in
      let (i, at) = get_of_In r.slots s there in
      (
        s,
        ap (get_elem? r.slots) (ap (λ u. u.index) e ∙ w.names.indexed i s at) ∙ at,
        ground arith,
        e,
      )

  reported_park : (k : ℕ) → Reported (views W r) k (λ v. v.restartable ≡ true) → ParkFits W r k
  reported_park k (v, m, e, can) =
      let (s, at, live, same) = view_slot v m in
      (s, ap (get_elem? r.slots) e ∙ at, live, sym (ap (λ u. u.restartable) same) ∙ can)

  reported_stop :
      (restart : List ℕ) (k : ℕ)
      → (In k restart → Reported (views W r) k (λ v. v.restartable ≡ true))
      → Reported (views W r) k (λ v. v.alive ≡ true)
      → StopFits W r restart k
  reported_stop restart k known (v, m, e, alive) =
      let (s, at, live, same) = view_slot v m in
      (
        s,
        ap (get_elem? r.slots) e ∙ at,
        live,
        runs s (sym (ap (λ u. u.alive) same) ∙ alive),
        λ q.
            let (s', at', live', can) =
              reported_park k (known (contains→In ℕ_discrete restart k q)) in
            let both : some s ≡ some s' = sym (ap (get_elem? r.slots) e ∙ at) ∙ at' in
            ap (spawned s) both ∙ can,
      )
    where
      runs : (s : ChildSlot W) → (view W s).alive ≡ true → is_some s.handle ≡ true
      runs s h = ground arith

      spawned : ChildSlot W → Option (ChildSlot W) → Bool
      spawned s none = is_some s.spawner
      spawned s (some t) = is_some t.spawner

  group_fits :
      (from failed : ℕ)
      → PlanFits W r (plan_restart (apply_strategy rest_for_one from) failed (views W r))
  group_fits from failed = record {
    stops = λ k m.
        reported_stop _ k
          (λ q.
            let (v, n, e, p) = (group_members from failed k (views W r)).0.0 q in (v, n, e, p.1))
          (let (v, n, e, p) = (group_members from failed k (views W r)).1.0 m in (v, n, e, p.1));
    parks = λ k m.
        reported_park k
          (let (v, n, e, p) = (group_members from failed k (views W r)).0.0 m in (v, n, e, p.1));
  }

  pub plan-PlanFits :
      (strategy : SupervisionStrategy) (failed : ℕ)
      → PlanFits W r (plan_restart (apply_strategy strategy failed) failed (views W r))
  unfolding plan_restart
  plan-PlanFits one_for_one failed = record {
    stops = λ k m. absurd m;
    parks = λ k m. reported_park k (
        let (v, n, e, p) =
          (In-indices-keep k (λ v. v.index == failed && v.restartable) (views W r)).0 m in
        (v, n, e, ground arith));
  }
  plan-PlanFits one_for_all failed = group_fits 0 failed
  plan-PlanFits rest_for_one failed = group_fits failed failed
