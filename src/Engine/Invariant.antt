-- ===== src/Engine/Invariant.antt =====
-- Every supervision message leaves the supervisor's registry well formed.
use acton_reactive.Shared.{
  ℕ, zero, suc, ◌+◌, ◌≡◌, refl, ◌∙◌, sym, ap, inl, inr, Bool, true, false, some, none, get_elem?,
  arith, Bool-cases, Option-cases, get_elem?-set_self, Result, ok, err,
}
use acton_reactive.World.{World}
use acton_reactive.Limiter.{RestartLimiter}
use acton_reactive.Registry.Starts.{begin_start}
use acton_reactive.Plan.{
  Readings, SupervisionOutcome, RestartPlan, evaluate, ignore, group_stop_landed, forget, give_up,
  restart, group_stop,
}
use acton_reactive.Plan.Verdict.{evaluate_restart, evaluate_landed}
use acton_reactive.Status.{SupervisionError}
use acton_reactive.SlotState.{is_retired, expected_stop}
use acton_reactive.Slot.{ChildSlot, publish}
use acton_reactive.Registry.{
  SupervisionRegistry, set_slot, snapshot_of, views, index_of, begin_shutdown,
}
use acton_reactive.Registry.Invariant.{needs_spawner, WellFormed}
use acton_reactive.Registry.Kept.{WellFormed-set}
use acton_reactive.Registry.Preserved.{begin_start-WellFormed, complete_start-WellFormed}
use acton_reactive.Registry.Released.{mark_terminal-WellFormed, fail_start-WellFormed}
use acton_reactive.Registry.Settled.{cancel_unfinished_starts-WellFormed}
use acton_reactive.Engine.{Supervisor, ChildTerminated, SupervisedChildStarted, with_supervision}
use acton_reactive.Engine.Planned.{
  PlanFits, ParkFits-set, StopFits-set, schedule_restart-WellFormed,
}
use acton_reactive.Engine.Views.{plan-PlanFits}
use acton_reactive.Engine.Group.{
  answer, parked_slot, record_child_down, record_group_stop_landed, record_child_escalated,
}
use acton_reactive.Engine.Handlers.{
  launch_from, launch_pending_starts, terminate_slot, record_child_terminated, record_outcome,
  record_started_child, shutdown_supervision,
}

module _ (W : World) where
  open W use {f64}

  launch_from-WellFormed :
      (fuel : ℕ) (is_cancelled : ℕ → Bool) (turn : ℕ) (r : SupervisionRegistry W)
      → WellFormed W r
      → WellFormed W (launch_from W fuel is_cancelled turn r).1
  unfolding launch_from
  launch_from-WellFormed zero is_cancelled turn r w = w
  launch_from-WellFormed (suc fuel) is_cancelled turn r w = elim (Bool-cases (is_cancelled turn)) [
    | inl stop ↦ rw (stop, launch_from) w
    | inr go ↦ elim (Option-cases (begin_start W r).0) [
      | inl idle ↦ rw (go, launch_from, idle) (begin_start-WellFormed W r w)
      | inr (ticket, e) ↦
          rw (go, launch_from, e)
            (launch_from-WellFormed fuel is_cancelled (turn + 1) (begin_start W r).1
              (begin_start-WellFormed W r w))
    ]
  ]

  -- A live child's slot in a well-formed registry.
  record Found (r : SupervisionRegistry W) (i : ℕ) (s : ChildSlot W) : Type 0 where
    at : get_elem? r.slots i ≡ some s
    live : is_retired s.state ≡ false
    whole : WellFormed W r

  live_at :
      (r : SupervisionRegistry W) (i : ℕ) (s t : ChildSlot W)
      → Found r i s
      → get_elem? r.slots i ≡ some t
      → is_retired t.state ≡ false
  live_at r i s t f h = cc (sym f.at ∙ h, f.live)

  landed-WellFormed :
      (v : Supervisor W) (i : ℕ) (s : ChildSlot W) (child : W.Ern) (then_restart : Bool)
      → Found v.supervision i s
      → s.state ≡ expected_stop then_restart
      → WellFormed W (record_group_stop_landed W v i child then_restart).0.supervision
  unfolding record_group_stop_landed publish
  landed-WellFormed v i s child false f h =
      mark_terminal-WellFormed W v.supervision i _ none (inl refl)
        (λ t e. live_at v.supervision i s t f e) f.whole
  landed-WellFormed v i s child true f h =
      let can = (f.whole.fit i s f.at).startable (ap needs_spawner h) in
      rw (f.at, record_group_stop_landed)
        (WellFormed-set W v.supervision v.supervision.pending_starts i s (parked_slot W s) f.at refl
          refl f.live refl (record { held = refl; startable = λ q. can }) (λ q. absurd (cc q))
          (λ j o m. m) f.whole)

  -- What `evaluate` may answer about a slot.
  abbrev Answers : Supervisor W → ℕ → ChildSlot W → SupervisionOutcome → Type 0
  Answers v i s (restart plan backoff) = PlanFits W v.supervision plan
  Answers v i s (group_stop_landed then_restart) = s.state ≡ expected_stop then_restart
  Answers v i s _ = Unit {0}

  answer-WellFormed :
      (outcome : SupervisionOutcome) (v : Supervisor W) (i : ℕ) (s : ChildSlot W) (child : W.Ern)
      → Found v.supervision i s
      → Answers v i s outcome
      → WellFormed W (answer W outcome v i child).0.supervision
  unfolding answer record_child_down record_child_escalated
  answer-WellFormed ignore v i s child f a = f.whole
  answer-WellFormed (group_stop_landed b) v i s child f a = landed-WellFormed v i s child b f a
  answer-WellFormed forget v i s child f a =
      mark_terminal-WellFormed W v.supervision i _ none (inl refl)
        (λ t e. live_at v.supervision i s t f e) f.whole
  answer-WellFormed (give_up exceeded) v i s child f a =
      mark_terminal-WellFormed W v.supervision i _ _ (inr refl)
        (λ t e. live_at v.supervision i s t f e) f.whole
  answer-WellFormed (restart plan backoff) v i s child f a =
      schedule_restart-WellFormed W v plan backoff a f.whole

  -- A slot with another limiter.
  recharged : ChildSlot W → RestartLimiter f64 → ChildSlot W
  recharged s l = record s { limiter = l }

  recharged-Found :
      (r : SupervisionRegistry W) (i : ℕ) (s : ChildSlot W) (l : RestartLimiter f64)
      → Found r i s
      → Found (set_slot W r i (recharged s l)) i (recharged s l)
  unfolding recharged
  recharged-Found r i s l f = record {
    at = get_elem?-set_self r.slots i _ s f.at;
    live = f.live;
    whole =
        let fits = f.whole.fit i s f.at in
        WellFormed-set W r r.pending_starts i s (record s { limiter = l }) f.at refl refl f.live
          f.live (record { held = fits.held; startable = fits.startable }) (f.whole.queued i s f.at)
          (λ j o m. m) f.whole;
  }

  recharged-PlanFits :
      (r : SupervisionRegistry W) (i : ℕ) (s : ChildSlot W) (l : RestartLimiter f64)
      (plan : RestartPlan)
      → Found r i s
      → PlanFits W r plan
      → PlanFits W (set_slot W r i (recharged s l)) plan
  unfolding recharged
  recharged-PlanFits r i s l plan f p = record {
    stops = λ k m. StopFits-set W r plan.restart i k s _ f.at f.live refl refl (p.stops k m);
    parks = λ k m. ParkFits-set W r i k s _ f.at f.live refl (p.parks k m);
  }

  expected_inv :
      (shutting_down : Bool) (s : ChildSlot W) (b : Bool)
      → (snapshot_of W shutting_down s).expected ≡ some (group_stop b)
      → s.state ≡ expected_stop b
  unfolding snapshot_of
  expected_inv shutting_down s b h = ground arith

  snapshot-index :
      (shutting_down : Bool) (s : ChildSlot W) → (snapshot_of W shutting_down s).index ≡ s.index
  unfolding snapshot_of
  snapshot-index shutting_down s = refl

  evaluated-Answers :
      (v : Supervisor W) (notice : ChildTerminated W) (i : ℕ) (s : ChildSlot W) (clock : Readings)
      (l : RestartLimiter f64) (outcome : SupervisionOutcome)
      → Found v.supervision i s
      → (evaluate f64 notice.restart_policy notice.reason
          (snapshot_of W v.supervision.shutting_down s)
          v.strategy
          s.limiter
          (views W v.supervision)
          clock).0
        ≡ outcome
      → Answers
          (with_supervision W v (set_slot W v.supervision i (recharged s l)))
          i
          (recharged s l)
          outcome
  unfolding recharged
  evaluated-Answers v notice i s clock l ignore f h = tt
  evaluated-Answers v notice i s clock l (group_stop_landed b) f h =
      expected_inv v.supervision.shutting_down s b (evaluate_landed f64 _ _ _ _ _ _ clock b h)
  evaluated-Answers v notice i s clock l forget f h = tt
  evaluated-Answers v notice i s clock l (give_up exceeded) f h = tt
  evaluated-Answers v notice i s clock l (restart plan backoff) f h =
      rw (evaluate_restart f64 _ _ _ _ _ _ clock plan backoff h) (
        recharged-PlanFits v.supervision i s l _ f
          (plan-PlanFits W v.supervision f.whole v.strategy _))

  terminate_slot-WellFormed :
      (v : Supervisor W) (notice : ChildTerminated W) (i : ℕ) (s : ChildSlot W) (clock : Readings)
      → Found v.supervision i s
      → WellFormed W (terminate_slot W v notice i s clock).0.supervision
  unfolding terminate_slot recharged
  terminate_slot-WellFormed v notice i s clock f =
      let (outcome, l) =
        evaluate f64 notice.restart_policy notice.reason
          (snapshot_of W v.supervision.shutting_down s) v.strategy s.limiter (views W v.supervision)
          clock in
      answer-WellFormed outcome
        (with_supervision W v (set_slot W v.supervision i (record s { limiter = l }))) i
        (recharged s l) notice.child_id (recharged-Found v.supervision i s l f)
        (evaluated-Answers v notice i s clock l outcome f refl)

  -- Whatever a child's end is answered with, on any clock, the registry stays well formed.
  pub record_child_terminated-WellFormed :
      (v : Supervisor W) (notice : ChildTerminated W) (clock : Readings)
      → WellFormed W v.supervision
      → WellFormed W (record_child_terminated W v notice clock).0.supervision
  unfolding record_child_terminated
  record_child_terminated-WellFormed v notice clock w =
      elim (Option-cases (index_of W v.supervision notice.child_id)) [
        | inl unknown ↦ rw (unknown, record_child_terminated) w
        | inr (i, known) ↦
            let (s, at, name, live) = w.names.named notice.child_id i known in
            rw (known, record_child_terminated, at)
              (terminate_slot-WellFormed v notice i s clock
                (record { at = at; live = live; whole = w }))
      ]

  pub record_started_child-WellFormed :
      (v : Supervisor W) (m : SupervisedChildStarted W) (now : ℕ)
      → WellFormed W v.supervision
      → WellFormed W (record_started_child W v m now).0.supervision
  unfolding record_started_child
  record_started_child-WellFormed v m now w = go m.outcome
    where
      go :
          (o : Result (SupervisionError W.Ern) W.Handle)
          → WellFormed W (record_outcome W v m o now).0.supervision
      go (ok handle) = complete_start-WellFormed W v.supervision m.index m.child handle now w
      go (err e) = fail_start-WellFormed W v.supervision m.index e w

  pub launch_pending_starts-WellFormed :
      (v : Supervisor W) (is_cancelled : ℕ → Bool)
      → WellFormed W v.supervision
      → WellFormed W (launch_pending_starts W v is_cancelled).0.supervision
  unfolding launch_pending_starts
  launch_pending_starts-WellFormed v is_cancelled w =
      launch_from-WellFormed _ is_cancelled 0 v.supervision w

  pub shutdown_supervision-WellFormed :
      (v : Supervisor W)
      → WellFormed W v.supervision
      → WellFormed W (shutdown_supervision W v).supervision
  unfolding shutdown_supervision begin_shutdown
  shutdown_supervision-WellFormed v w =
      cancel_unfinished_starts-WellFormed W _ v.id
        (record { names = w.names; fit = w.fit; queued = w.queued })
