-- ===== src/Examples/Plans.antt =====
-- Plans and verdicts for three children.
use acton_reactive.Shared.{
  ◌≤◌, ◌<◌, ◌⊎◌, ◌≢◌, false, ◌≡◌, refl, inl, inr, true, none, List, [], ◌∷◌, arith, In,
}
use acton_reactive.Examples.{exact}
use acton_reactive.Examples.Limits.{default_config}
use acton_reactive.Limiter.{
  RestartLimiter, RestartLimitExceeded, RestartLimiterConfig, new, can_restart,
}
use acton_reactive.Policy.{
  permanent, temporary, normal, should_restart, one_for_all, restart_from, restart_all,
}
use acton_reactive.Plan.{
  SupervisionOutcome, SlotView, SlotSnapshot, Readings, plan_restart, sort_views, evaluate, recover,
  give_up,
}
use acton_reactive.Plan.Order.{Ascending, Descending, group_order, group_members}
use acton_reactive.Plan.Verdict.{Failed, evaluate_spared, evaluate_refused, evaluate_restarts}

abbrev first_view : SlotView
first_view = record { index = 0; restartable = true; alive = true }

abbrev second_view : SlotView
second_view = record { index = 1; restartable = true; alive = true }

abbrev third_view : SlotView
third_view = record { index = 2; restartable = true; alive = true }

abbrev three : List SlotView
three = third_view ∷ first_view ∷ second_view ∷ []

group_plan_test :
    plan_restart (restart_from 1) 1 three ≡ record { stop = 2 ∷ []; restart = 1 ∷ 2 ∷ [] }
unfolding plan_restart sort_views
group_plan_test = refl

group_order_example :
    Ascending (plan_restart (restart_from 1) 1 three).restart
    × Descending (plan_restart (restart_from 1) 1 three).stop
group_order_example = group_order 1 1 three

group_members_example : In 2 (plan_restart (restart_from 1) 1 three).stop
unfolding plan_restart
group_members_example =
    (group_members 1 1 2 three).1.1
      (third_view, inl refl, refl, (omega arith, refl, λ e. omega arith))

abbrev crashed_slot : SlotSnapshot
crashed_slot = record { index = 1; restartable = true; expected = none; last_restart = none }

abbrev clock : Readings
clock = record { now = 5; asked = 6; recorded = 7 }

abbrev strict_config : RestartLimiterConfig exact
strict_config = record default_config { max_restarts = 0 }

failed_lem : Failed permanent normal crashed_slot
unfolding should_restart
failed_lem = record { unexpected = refl; restartable = refl; allowed = refl }

evaluate_spared_example :
    (evaluate exact temporary normal crashed_slot one_for_all
      (new exact default_config)
      three
      clock).1
    ≡ new exact default_config
unfolding should_restart
evaluate_spared_example =
    (evaluate_spared exact temporary normal crashed_slot one_for_all (new exact default_config)
      three clock (inr (inr refl))).0

-- The child is at its maximum of no restarts.
abbrev refused_answer : SupervisionOutcome × RestartLimiter exact
refused_answer =
    evaluate exact permanent normal crashed_slot one_for_all (new exact strict_config) three clock

evaluate_refused_example :
    ((true ≡ true)
      × (0 ≤ 0)
      × (refused_answer.0 ≡ give_up (record { attempts = 0; max_restarts = 0; window_secs = 60 }))
      × (refused_answer.1.config ≡ strict_config)
      × (refused_answer.1.restart_timestamps ≡ [])
      × (refused_answer.1.consecutive_restarts ≤ 0))
    ⊎ (((true ≡ false) ⊎ (0 < 0)) × ((e : RestartLimitExceeded) → refused_answer.0 ≢ give_up e))
unfolding new
evaluate_refused_example =
    evaluate_refused exact permanent normal crashed_slot one_for_all (new exact strict_config) three
      clock failed_lem

passing_test :
    (can_restart exact 6 (recover exact crashed_slot 5 (new exact default_config))).0 ≡ none
unfolding can_restart recover new
passing_test = refl

evaluate_restarts_example : In 1 (plan_restart restart_all 1 three).restart
evaluate_restarts_example =
    (evaluate_restarts exact permanent normal crashed_slot one_for_all (new exact default_config)
      three clock second_view failed_lem passing_test (inr (inr (inl refl))) refl refl).1
