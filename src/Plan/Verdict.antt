-- ===== src/Plan/Verdict.antt =====
-- What `evaluate` answers, and what it does to the limiter.
use acton_reactive.Shared.{
  ℕ, ◌-◌, ◌*◌, ◌≤◌, ltb, length, keep, leb, leb→le, leb→lt, subst, ◌<◌, ◌≡◌, refl, ◌∙◌, ◌≢◌, ◌⊎◌,
  inl, inr, Bool, true, false, some, none, List, arith, ◌==◌, In, keep-In, In-map, Option-cases,
  Bool-cases, ap, sym, if◌then◌else◌, ◌&&◌,
}
use acton_reactive.World.{F64}
use acton_reactive.Plan.{
  SlotView, SlotSnapshot, RestartPlan, restart, give_up, forget, group_stop_landed, group_stop,
  Readings, is_empty, recover, evaluate, plan_restart, charge, is_no_restart,
}
use acton_reactive.Plan.Order.{group_members}
use acton_reactive.Policy.{
  RestartPolicy, TerminationReason, SupervisionStrategy, SupervisionDecision, one_for_one,
  one_for_all, rest_for_one, should_restart, decide_strategy, apply_strategy,
}
use acton_reactive.Limiter.{
  reset_consecutive, refusal, prune_expired, window, RestartLimiter, RestartLimitExceeded,
  can_restart, record_restart,
}

-- A child whose end is a failure to be answered.
pub record Failed (policy : RestartPolicy) (reason : TerminationReason) (slot : SlotSnapshot)
    : Type 0 where
  pub unexpected : slot.expected ≡ none
  pub restartable : slot.restartable ≡ true
  pub allowed : should_restart policy reason ≡ true

-- Either the child's end is a failure, or it costs nothing.
Failed-or_spared :
    (policy : RestartPolicy) (reason : TerminationReason) (slot : SlotSnapshot)
    → Failed policy reason slot
      ⊎ ((slot.expected ≢ none)
          ⊎ ((slot.restartable ≡ false) ⊎ (should_restart policy reason ≡ false)))
Failed-or_spared policy reason slot = elim (Option-cases slot.expected) [
  | inr (e, h) ↦ inr (inl (λ n. cc (sym h ∙ n)))
  | inl h ↦ elim (Bool-cases slot.restartable) [
    | inr r ↦ inr (inr (inl r))
    | inl r ↦ elim (Bool-cases (should_restart policy reason)) [
      | inl s ↦ inl (record { unexpected = h; restartable = r; allowed = s })
      | inr s ↦ inr (inr (inr s))
    ]
  ]
]

module _ (F : F64) where
  -- A child's end costs its limiter nothing if the supervisor asked for it, if the child cannot be
  -- restarted, or if its policy forbids it; and then the answer is neither a restart nor to give up.
  pub evaluate_spared :
      (policy : RestartPolicy) (reason : TerminationReason) (slot : SlotSnapshot)
      (strategy : SupervisionStrategy) (l : RestartLimiter F) (slots : List SlotView) (r : Readings)
      → (slot.expected ≢ none)
        ⊎ ((slot.restartable ≡ false) ⊎ (should_restart policy reason ≡ false))
      → let (outcome, l') = evaluate F policy reason slot strategy l slots r in
        (l' ≡ l)
        × ((plan : RestartPlan) (backoff : ℕ) → outcome ≢ restart plan backoff)
        × ((e : RestartLimitExceeded) → outcome ≢ give_up e)
  unfolding evaluate decide_strategy
  evaluate_spared policy reason slot strategy l slots r h =
      (ground arith, λ plan backoff e. ground arith, λ x e. ground arith)

  evaluate-Failed :
      (policy : RestartPolicy) (reason : TerminationReason) (slot : SlotSnapshot)
      (strategy : SupervisionStrategy) (l : RestartLimiter F) (slots : List SlotView) (r : Readings)
      → Failed policy reason slot
      → evaluate F policy reason slot strategy l slots r
        ≡ charge F (apply_strategy strategy slot.index) slot slots r (recover F slot r.now l)
  unfolding evaluate decide_strategy
  evaluate-Failed policy reason slot strategy l slots r f =
      simp (f.unexpected, f.restartable, f.allowed) (is_restart strategy)
    where
      is_restart :
          (s : SupervisionStrategy)
          → (if is_no_restart (apply_strategy s slot.index)
              then (forget, l)
              else charge F (apply_strategy s slot.index) slot slots r (recover F slot r.now l))
            ≡ charge F (apply_strategy s slot.index) slot slots r (recover F slot r.now l)
      is_restart one_for_one = refl
      is_restart one_for_all = refl
      is_restart rest_for_one = refl

  charge_passed :
      (d : SupervisionDecision) (slot : SlotSnapshot) (slots : List SlotView) (r : Readings)
      (l : RestartLimiter F)
      → (can_restart F r.asked l).0 ≡ none
      → is_empty (plan_restart d slot.index slots) ≡ false
      → let (backoff, charged) = record_restart F r.recorded (can_restart F r.asked l).1 in
        charge F d slot slots r l ≡ (restart (plan_restart d slot.index slots) backoff, charged)
  unfolding charge
  charge_passed d slot slots r l h n = ground arith

  is_empty-In : (p : RestartPlan) (k : ℕ) → In k p.restart → is_empty p ≡ false
  is_empty-In p k m = ground arith

  -- The restarts of a limiter that are not older than its window.
  abbrev pub recent : ℕ → RestartLimiter F → List ℕ
  recent now l =
      keep (λ at. ltb (now - at) (l.config.window_secs * 1_000_000_000)) l.restart_timestamps

  recover_keeps :
      (slot : SlotSnapshot) (now : ℕ) (l : RestartLimiter F)
      → ((recover F slot now l).config ≡ l.config)
        × ((recover F slot now l).restart_timestamps ≡ l.restart_timestamps)
        × ((recover F slot now l).consecutive_restarts ≤ l.consecutive_restarts)
  unfolding recover reset_consecutive
  recover_keeps slot now l = (ground arith, ground arith, ground arith)

  -- What a refusal says: how many restarts lie in the window, the maximum, and the window.
  abbrev pub figures : ℕ → RestartLimiter F → RestartLimitExceeded
  figures now l = record {
    attempts = length (recent now l);
    max_restarts = l.config.max_restarts;
    window_secs = l.config.window_secs;
  }

  charge_off :
      (d : SupervisionDecision) (slot : SlotSnapshot) (slots : List SlotView) (r : Readings)
      (l : RestartLimiter F) (e : RestartLimitExceeded)
      → l.config.enabled ≡ false
      → (charge F d slot slots r l).0 ≢ give_up e
  unfolding charge can_restart
  charge_off d slot slots r l e off h = ground arith

  charge_few :
      (d : SupervisionDecision) (slot : SlotSnapshot) (slots : List SlotView) (r : Readings)
      (l : RestartLimiter F) (e : RestartLimitExceeded)
      → length (recent r.asked l) < l.config.max_restarts
      → (charge F d slot slots r l).0 ≢ give_up e
  unfolding charge can_restart refusal prune_expired window
  charge_few d slot slots r l e few h = ground arith

  charge_many :
      (d : SupervisionDecision) (slot : SlotSnapshot) (slots : List SlotView) (r : Readings)
      (l : RestartLimiter F)
      → l.config.enabled ≡ true
      → l.config.max_restarts ≤ length (recent r.asked l)
      → charge F d slot slots r l
        ≡ (give_up (figures r.asked l), record l { restart_timestamps = recent r.asked l })
  unfolding charge can_restart refusal prune_expired window
  charge_many d slot slots r l on many = ground arith

  recent-recover :
      (slot : SlotSnapshot) (now asked : ℕ) (l : RestartLimiter F)
      → recent asked (recover F slot now l) ≡ recent asked l
  unfolding recover reset_consecutive
  recent-recover slot now asked l = ground arith

  figures-recover :
      (slot : SlotSnapshot) (now asked : ℕ) (l : RestartLimiter F)
      → figures asked (recover F slot now l) ≡ figures asked l
  unfolding recover reset_consecutive
  figures-recover slot now asked l = ground arith

  -- A failure is given up on exactly if limiting is on and as many restarts as the maximum, or more,
  -- lie in the window that ends when the limiter is asked; the refusal then shows the number of those
  -- restarts, the maximum and the window, and the limiter is not charged: it keeps those restarts
  -- and its settings, and counts no more restarts in a row than before.
  pub evaluate_refused :
      (policy : RestartPolicy) (reason : TerminationReason) (slot : SlotSnapshot)
      (strategy : SupervisionStrategy) (l : RestartLimiter F) (slots : List SlotView) (r : Readings)
      → Failed policy reason slot
      → let (outcome, l') = evaluate F policy reason slot strategy l slots r in
        ((l.config.enabled ≡ true)
          × (l.config.max_restarts ≤ length (recent r.asked l))
          × (outcome ≡ give_up (figures r.asked l))
          × (l'.config ≡ l.config)
          × (l'.restart_timestamps ≡ recent r.asked l)
          × (l'.consecutive_restarts ≤ l.consecutive_restarts))
        ⊎ (((l.config.enabled ≡ false) ⊎ (length (recent r.asked l) < l.config.max_restarts))
            × ((e : RestartLimitExceeded) → outcome ≢ give_up e))
  evaluate_refused policy reason slot strategy l slots r f =
      let fresh = recover F slot r.now l in
      let kept = recover_keeps slot r.now l in
      let same = evaluate-Failed policy reason slot strategy l slots r f in
      let d = apply_strategy strategy slot.index in
      let enabled = ap (λ c. c.enabled) kept.0 in
      elim (Bool-cases l.config.enabled) [
        | inr off ↦ inr (
          inl off,
          λ e h. charge_off d slot slots r fresh e (enabled ∙ off) (ap (λ p. p.0) (sym same) ∙ h),
        )
        | inl on ↦ elim (Bool-cases (leb l.config.max_restarts (length (recent r.asked l)))) [
          | inl over ↦
              let many = leb→le _ _ over in
              let size = ap length (recent-recover slot r.now r.asked l) in
              let answer =
                same
                ∙ charge_many d slot slots r fresh (enabled ∙ on)
                    (omega (arith, many, size, ap (λ c. c.max_restarts) kept.0)) in
              inl (
                on,
                many,
                ap (λ p. p.0) answer ∙ ap give_up (figures-recover slot r.now r.asked l),
                ap (λ p. p.1.config) answer ∙ kept.0,
                ap (λ p. p.1.restart_timestamps) answer ∙ recent-recover slot r.now r.asked l,
                subst (λ n. n ≤ l.consecutive_restarts)
                    (sym (ap (λ p. p.1.consecutive_restarts) answer)) kept.2,
              )
          | inr under ↦
              let few = leb→lt _ _ under in
              inr (
                inr few,
                λ e h.
                    charge_few d slot slots r fresh e
                      (omega (
                        arith,
                        few,
                        ap length (recent-recover slot r.now r.asked l),
                        ap (λ c. c.max_restarts) kept.0,
                      ))
                      (ap (λ p. p.0) (sym same) ∙ h),
              )
        ]
      ]

  -- The child whose end is answered is among those to restart, and not among those to stop.
  plan_has_failed :
      (strategy : SupervisionStrategy) (failed : ℕ) (slots : List SlotView) (v : SlotView)
      → In v slots
      → v.index ≡ failed
      → v.restartable ≡ true
      → let plan = plan_restart (apply_strategy strategy failed) failed slots in
        In failed plan.restart × (¬ In failed plan.stop)
  unfolding plan_restart
  plan_has_failed one_for_one failed slots v m e r = (
    rw (← e) (
        In-map (λ w. w.index) v _
          (keep-In v (λ w. w.index == v.index && w.restartable) slots m (ground arith))),
    λ h. h,
  )
  plan_has_failed one_for_all failed slots v m e r =
      let members = group_members 0 failed failed slots in
      (
        members.0.1 (v, m, sym e, (omega arith, r)),
        λ h. (members.1.0 h).3.2 (sym (members.1.0 h).2),
      )
  plan_has_failed rest_for_one failed slots v m e r =
      let members = group_members failed failed failed slots in
      (
        members.0.1 (v, m, sym e, (omega arith, r)),
        λ h. (members.1.0 h).3.2 (sym (members.1.0 h).2),
      )

  -- A failure that the limiter lets pass is charged once, and the answer is always a restart that
  -- brings the failed child back and stops others only, with the delay that the charge returned.
  pub evaluate_restarts :
      (policy : RestartPolicy) (reason : TerminationReason) (slot : SlotSnapshot)
      (strategy : SupervisionStrategy) (l : RestartLimiter F) (slots : List SlotView) (r : Readings)
      (v : SlotView)
      → Failed policy reason slot
      → (can_restart F r.asked (recover F slot r.now l)).0 ≡ none
      → In v slots
      → v.index ≡ slot.index
      → v.restartable ≡ true
      → let (backoff, charged) =
          record_restart F r.recorded (can_restart F r.asked (recover F slot r.now l)).1 in
        let plan = plan_restart (apply_strategy strategy slot.index) slot.index slots in
        (evaluate F policy reason slot strategy l slots r ≡ (restart plan backoff, charged))
        × In slot.index plan.restart
        × (¬ In slot.index plan.stop)
  evaluate_restarts policy reason slot strategy l slots r v f h m e ok =
      let has = plan_has_failed strategy slot.index slots v m e ok in
      (
        evaluate-Failed policy reason slot strategy l slots r f
            ∙ charge_passed _ slot slots r _ h (is_empty-In _ slot.index has.0),
        has.0,
        has.1,
      )

  charge_restart :
      (d : SupervisionDecision) (slot : SlotSnapshot) (slots : List SlotView) (r : Readings)
      (l : RestartLimiter F) (plan : RestartPlan) (backoff : ℕ)
      → (charge F d slot slots r l).0 ≡ restart plan backoff
      → plan ≡ plan_restart d slot.index slots
  unfolding charge
  charge_restart d slot slots r l plan backoff h = ground arith

  -- A restart that `evaluate` answers is the plan of the supervisor's strategy.
  pub evaluate_restart :
      (policy : RestartPolicy) (reason : TerminationReason) (slot : SlotSnapshot)
      (strategy : SupervisionStrategy) (l : RestartLimiter F) (slots : List SlotView) (r : Readings)
      (plan : RestartPlan) (backoff : ℕ)
      → (evaluate F policy reason slot strategy l slots r).0 ≡ restart plan backoff
      → plan ≡ plan_restart (apply_strategy strategy slot.index) slot.index slots
  evaluate_restart policy reason slot strategy l slots r plan backoff h =
      elim (Failed-or_spared policy reason slot) [
        | inl f ↦
            charge_restart _ slot slots r _ plan backoff
              (ap (λ p. p.0) (sym (evaluate-Failed policy reason slot strategy l slots r f)) ∙ h)
        | inr s ↦
            absurd ((evaluate_spared policy reason slot strategy l slots r s).1 plan backoff h)
      ]

  -- `evaluate` answers that a group stop landed only where one was expected.
  pub evaluate_landed :
      (policy : RestartPolicy) (reason : TerminationReason) (slot : SlotSnapshot)
      (strategy : SupervisionStrategy) (l : RestartLimiter F) (slots : List SlotView) (r : Readings)
      (then_restart : Bool)
      → (evaluate F policy reason slot strategy l slots r).0 ≡ group_stop_landed then_restart
      → slot.expected ≡ some (group_stop then_restart)
  unfolding evaluate charge
  evaluate_landed policy reason slot strategy l slots r then_restart h = ground arith
