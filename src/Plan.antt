-- ===== src/Plan.antt =====
-- acton-reactive/src/actor/supervision/plan.rs: what a supervisor does about a child that ended,
-- as a value. `Instant::now()` is read at three places, whose readings are arguments.
pub mod Order
pub mod Verdict
use acton_reactive.Shared.{
  ℕ, ◌+◌, ◌-◌, ◌≤◌, Bool, true, false, not, ◌&&◌, Option, some, none, List, [], ◌∷◌, map, reverse,
  ltb, leb, ◌==◌, if◌then◌else◌, keep,
}
use acton_reactive.World.{F64}
use acton_reactive.Policy.{
  RestartPolicy, TerminationReason, SupervisionStrategy, SupervisionDecision, restart_child,
  restart_all, restart_from, no_restart, escalate, decide_strategy,
}
use acton_reactive.Limiter.{
  RestartLimiter, RestartLimitExceeded, window, can_restart, record_restart, reset_consecutive,
}

pub record RestartPlan : Type 0 where
  pub stop : List ℕ
  pub restart : List ℕ

abbrev pub empty_plan : RestartPlan
empty_plan = record { stop = []; restart = [] }

abbrev is_nil : List ℕ → Bool
is_nil [] = true
is_nil (x ∷ xs) = false

abbrev pub is_empty : RestartPlan → Bool
is_empty p = is_nil p.stop && is_nil p.restart

pub record SlotView : Type 0 where
  pub index : ℕ
  pub restartable : Bool
  pub alive : Bool

pub data ExpectedTermination : Type 0 where
  shutdown : ExpectedTermination
  group_stop : Bool → ExpectedTermination
  stale : ExpectedTermination

pub record SlotSnapshot : Type 0 where
  pub index : ℕ
  pub restartable : Bool
  pub expected : Option ExpectedTermination
  pub last_restart : Option ℕ

pub data SupervisionOutcome : Type 0 where
  ignore : SupervisionOutcome
  group_stop_landed : Bool → SupervisionOutcome
  forget : SupervisionOutcome
  restart : RestartPlan → ℕ → SupervisionOutcome
  give_up : RestartLimitExceeded → SupervisionOutcome

-- `sort_unstable_by_key(|slot| slot.index)`.
pub insert_view : SlotView → List SlotView → List SlotView
insert_view v [] = v ∷ []
insert_view v (x ∷ xs) = if leb v.index x.index then v ∷ x ∷ xs else x ∷ insert_view v xs

unfoldable pub sort_views : List SlotView → List SlotView
unfolding insert_view
sort_views [] = []
sort_views (v ∷ vs) = insert_view v (sort_views vs)

abbrev pub indices : List SlotView → List ℕ
indices = map λ v. v.index

abbrev pub stops_with : ℕ → SlotView → Bool
stops_with failed v = v.alive && not (v.index == failed)

pub group_plan : ℕ → ℕ → List SlotView → RestartPlan
group_plan from failed slots =
    let affected = sort_views (keep (λ v. leb from v.index) slots) in
    record {
      stop = indices (keep (stops_with failed) (reverse affected));
      restart = indices (keep (λ v. v.restartable) affected);
    }

unfoldable pub plan_restart : SupervisionDecision → ℕ → List SlotView → RestartPlan
unfolding group_plan
plan_restart restart_child failed slots = record {
  stop = [];
  restart = indices (keep (λ v. v.index == failed && v.restartable) slots);
}
plan_restart restart_all failed slots = group_plan 0 failed slots
plan_restart (restart_from i) failed slots = group_plan i failed slots
plan_restart no_restart failed slots = empty_plan
plan_restart escalate failed slots = empty_plan

abbrev is_no_restart : SupervisionDecision → Bool
is_no_restart no_restart = true
is_no_restart _ = false

-- The readings of `Instant::now()`: by the caller, in `can_restart`, in `record_restart`.
pub record Readings : Type 0 where
  pub now : ℕ
  pub asked : ℕ
  pub recorded : ℕ

-- `now.saturating_duration_since(last) > recovery_window`.
abbrev pub has_recovered : ℕ → Option ℕ → ℕ → Bool
has_recovered now none recovery_window = false
has_recovered now (some last) recovery_window = ltb recovery_window (now - last)

module _ (F : F64) where
  -- Step 4: a child that stayed up longer than the window starts its backoff over.
  unfoldable pub recover : SlotSnapshot → ℕ → RestartLimiter F → RestartLimiter F
  recover slot now l =
      if has_recovered now slot.last_restart (window F l) then reset_consecutive F l else l

  planned : RestartPlan → ℕ → SupervisionOutcome
  planned plan backoff = if is_empty plan then forget else restart plan backoff

  -- Steps 5 and 6.
  unfoldable pub charge :
      SupervisionDecision
      → SlotSnapshot
      → List SlotView
      → Readings
      → RestartLimiter F
      → SupervisionOutcome × RestartLimiter F
  unfolding planned
  charge decision slot slots r l =
      let (refusal, asked) = can_restart F r.asked l in
      elim refusal [
        | some exceeded ↦ (give_up exceeded, asked)
        | none ↦
            let (backoff, charged) = record_restart F r.recorded asked in
            (planned (plan_restart decision slot.index slots) backoff, charged)
      ]

  -- Steps 2 and 3.
  pub judge :
      RestartPolicy
      → TerminationReason
      → SlotSnapshot
      → SupervisionStrategy
      → RestartLimiter F
      → List SlotView
      → Readings
      → SupervisionOutcome × RestartLimiter F
  judge policy reason slot strategy l slots r =
      let decision = decide_strategy strategy policy reason slot.index in
      if not slot.restartable
      then (forget, l)
      else if is_no_restart decision
      then (forget, l)
      else charge decision slot slots r (recover slot r.now l)

  abbrev answer_expected :
      Option ExpectedTermination
      → SupervisionOutcome × RestartLimiter F
      → RestartLimiter F
      → SupervisionOutcome × RestartLimiter F
  answer_expected (some (group_stop then_restart)) judged l = (group_stop_landed then_restart, l)
  answer_expected (some shutdown) judged l = (ignore, l)
  answer_expected (some stale) judged l = (ignore, l)
  answer_expected none judged l = judged

  -- The limiter comes back as the call leaves it.
  unfoldable pub evaluate :
      RestartPolicy
      → TerminationReason
      → SlotSnapshot
      → SupervisionStrategy
      → RestartLimiter F
      → List SlotView
      → Readings
      → SupervisionOutcome × RestartLimiter F
  unfolding judge
  evaluate policy reason slot strategy l slots r =
      answer_expected slot.expected (judge policy reason slot strategy l slots r) l
