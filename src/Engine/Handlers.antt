-- ===== src/Engine/Handlers.antt =====
-- The handlers of the supervision messages in acton-reactive/src/actor/supervision/engine.rs.
use acton_reactive.Shared.{
  ℕ, zero, suc, ◌+◌, Bool, true, false, Option, some, none, List, [], ◌∷◌, get_elem?, if◌then◌else◌,
  length, Result, ok, err,
}
use acton_reactive.World.{World}
use acton_reactive.Limiter.{RestartLimiterConfig}
use acton_reactive.Plan.{Readings, evaluate}
use acton_reactive.Status.{SupervisionError}
use acton_reactive.Slot.{ChildSlot}
use acton_reactive.Registry.{
  SupervisionRegistry, set_slot, index_of, snapshot_of, views, register, register_pending,
  begin_shutdown,
}
use acton_reactive.Registry.Starts.{
  StartRecorded, first, restart, refused, begin_start, complete_start, queue_restart,
}
use acton_reactive.Registry.Ends.{fail_start, retire, cancel_unfinished_starts}
use acton_reactive.Engine.{
  Supervisor, Effect, RestartDue, ChildTerminated, SupervisedChildStarted, RegisterSupervisedChild,
  UnregisterSupervisedChild, report, report_release, start_child, stop_disowned, stop_child,
  forget_ipc_names, rebind_ipc_names, with_supervision, resolve_limiter, status_channel,
}
use acton_reactive.Engine.Group.{answer}

module _ (W : World) where
  open W use {Ern, Handle, Spawner, f64, child_id, spawner_policy}

  abbrev pub no_value : Result (SupervisionError Ern) ℕ → Result (SupervisionError Ern) (Unit {0})
  no_value (ok index) = ok tt
  no_value (err e) = err e

  unfoldable pub register_supervised_child :
      Supervisor W → RegisterSupervisedChild W → Supervisor W × List (Effect W)
  register_supervised_child v m =
      let (outcome, r) = register W v.supervision (record {
        ern = m.child;
        handle = m.handle;
        spawner = m.spawner;
        restart_policy = m.restart_policy;
        limiter = resolve_limiter W v m.limiter;
        status = m.status;
      }) in
      (with_supervision W v r, if m.wants_outcome then report (no_value outcome) ∷ [] else [])

  abbrev pub release_effects :
      UnregisterSupervisedChild W → Result (SupervisionError Ern) (Option Handle) → List (Effect W)
  release_effects m (ok handle) =
      if m.stopping
      then forget_ipc_names m.child ∷ report_release (ok handle) ∷ []
      else report_release (ok handle) ∷ []
  release_effects m (err e) = report_release (err e) ∷ []

  unfoldable pub unregister_supervised_child :
      Supervisor W → UnregisterSupervisedChild W → Supervisor W × List (Effect W)
  unregister_supervised_child v m =
      let (outcome, r) = retire W v.supervision m.child in
      (with_supervision W v r, release_effects m outcome)

  -- Records a child for a start by the loop. The result is that of the call.
  unfoldable pub supervise_deferred :
      Supervisor W
      → Spawner
      → Option (RestartLimiterConfig f64)
      → Result (SupervisionError Ern) (Unit {0}) × Supervisor W
  supervise_deferred v spawner limiter =
      let (outcome, r) = register_pending W v.supervision (record {
        ern = child_id spawner;
        spawner = spawner;
        restart_policy = spawner_policy spawner;
        limiter = resolve_limiter W v limiter;
        status = status_channel W (child_id spawner) none;
      }) in
      (no_value outcome, with_supervision W v r)

  abbrev pub stop_unregistered : Handle → Result (SupervisionError Ern) (Unit {0}) → List (Effect W)
  stop_unregistered handle (ok u) = []
  stop_unregistered handle (err e) = stop_child handle ∷ []

  -- `supervise_with`, from what the spawner's `spawn` came to.
  unfoldable pub supervise_with :
      Supervisor W
      → Spawner
      → Option (RestartLimiterConfig f64)
      → Result (SupervisionError Ern) Handle
      → Result (SupervisionError Ern) (Unit {0}) × Supervisor W × List (Effect W)
  supervise_with v spawner limiter (err e) = (err e, v, [])
  supervise_with v spawner limiter (ok handle) =
      let (outcome, r) = register W v.supervision (record {
        ern = child_id spawner;
        handle = handle;
        spawner = some spawner;
        restart_policy = spawner_policy spawner;
        limiter = resolve_limiter W v limiter;
        status = status_channel W (child_id spawner) (some handle);
      }) in
      (no_value outcome, with_supervision W v r, stop_unregistered handle (no_value outcome))

  -- The loop of `launch_pending_starts`, on fuel. The cancellation token is read before each turn.
  unfoldable pub launch_from :
      ℕ → (ℕ → Bool) → ℕ → SupervisionRegistry W → List (Effect W) × SupervisionRegistry W
  launch_from zero is_cancelled turn r = ([], r)
  launch_from (suc fuel) is_cancelled turn r = elim (is_cancelled turn) [
    | true ↦ ([], r)
    | false ↦ elim (begin_start W r).0 [
      | none ↦ ([], (begin_start W r).1)
      | some ticket ↦
          let (es, r') = launch_from fuel is_cancelled (turn + 1) (begin_start W r).1 in
          (start_child ticket ∷ es, r')
    ]
  ]

  unfoldable pub launch_pending_starts : Supervisor W → (ℕ → Bool) → Supervisor W × List (Effect W)
  unfolding launch_from
  launch_pending_starts v is_cancelled =
      let (es, r) =
        launch_from (length v.supervision.pending_starts + 1) is_cancelled 0 v.supervision in
      (with_supervision W v r, es)

  -- `evaluate` works on the limiter in the slot.
  unfoldable pub terminate_slot :
      Supervisor W → ChildTerminated W → ℕ → ChildSlot W → Readings → Supervisor W × List (Effect W)
  terminate_slot v notice i s clock =
      let (outcome, l) =
        evaluate f64 notice.restart_policy notice.reason
          (snapshot_of W v.supervision.shutting_down s) v.strategy s.limiter (views W v.supervision)
          clock in
      answer W outcome
        (with_supervision W v (set_slot W v.supervision i (record s { limiter = l }))) i
        notice.child_id

  unfoldable pub record_child_terminated :
      Supervisor W → ChildTerminated W → Readings → Supervisor W × List (Effect W)
  unfolding terminate_slot
  record_child_terminated v notice clock = elim (index_of W v.supervision notice.child_id) [
    | none ↦ (v, [])
    | some i ↦ elim (get_elem? v.supervision.slots i) [
      | none ↦ (v, [])
      | some s ↦ terminate_slot v notice i s clock
    ]
  ]

  unfoldable pub record_restart_due : Supervisor W → RestartDue W → Supervisor W
  record_restart_due v due =
      with_supervision W v (queue_restart W v.supervision due.index due.child due.generation).1

  abbrev pub started_effects : SupervisedChildStarted W → Handle → StartRecorded → List (Effect W)
  started_effects m handle first = []
  started_effects m handle restart = rebind_ipc_names m.child handle ∷ []
  started_effects m handle refused = stop_disowned handle ∷ []

  abbrev pub record_outcome :
      Supervisor W
      → SupervisedChildStarted W
      → Result (SupervisionError Ern) Handle
      → ℕ
      → Supervisor W × List (Effect W)
  record_outcome v m (ok handle) now =
      let (recorded, r) = complete_start W v.supervision m.index m.child handle now in
      (with_supervision W v r, started_effects m handle recorded)
  record_outcome v m (err e) now = (with_supervision W v (fail_start W v.supervision m.index e), [])

  unfoldable pub record_started_child :
      Supervisor W → SupervisedChildStarted W → ℕ → Supervisor W × List (Effect W)
  record_started_child v m now = record_outcome v m m.outcome now

  unfoldable pub cancel_unfinished_children : Supervisor W → Supervisor W
  cancel_unfinished_children v =
      with_supervision W v (cancel_unfinished_starts W v.supervision v.id).1

  -- The first two steps of `shutdown_cleanup`.
  unfoldable pub shutdown_supervision : Supervisor W → Supervisor W
  unfolding cancel_unfinished_children
  shutdown_supervision v =
      cancel_unfinished_children (with_supervision W v (begin_shutdown W v.supervision))

  abbrev pub stop_released : Result (SupervisionError Ern) (Option Handle) → List (Effect W)
  stop_released (ok (some handle)) = stop_child handle ∷ []
  stop_released (ok none) = []
  stop_released (err e) = []

  unfoldable pub unsupervise : Supervisor W → Ern → Supervisor W × List (Effect W)
  unsupervise v child =
      let (outcome, r) = retire W v.supervision child in
      (with_supervision W v r, stop_released outcome)
