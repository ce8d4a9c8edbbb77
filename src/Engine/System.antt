-- ===== src/Engine/System.antt =====
-- A supervisor over time: any sequence of calls and messages, on any clock.
use acton_reactive.Shared.{ℕ, ◌≡◌, Bool, Option, Result}
use acton_reactive.World.{World}
use acton_reactive.Limiter.{RestartLimiterConfig}
use acton_reactive.Plan.{Readings}
use acton_reactive.Status.{SupervisionError}
use acton_reactive.Registry.{empty}
use acton_reactive.Registry.Invariant.{WellFormed}
use acton_reactive.Registry.Preserved.{
  empty-WellFormed, register-WellFormed, register_pending-WellFormed, queue_restart-WellFormed,
}
use acton_reactive.Registry.Released.{retire-WellFormed}
use acton_reactive.Engine.{
  Supervisor, ChildTerminated, SupervisedChildStarted, RegisterSupervisedChild,
  UnregisterSupervisedChild, RestartDue,
}
use acton_reactive.Engine.Handlers.{
  register_supervised_child, unregister_supervised_child, supervise_with, supervise_deferred,
  launch_pending_starts, record_child_terminated, record_restart_due, record_started_child,
  shutdown_supervision, unsupervise,
}
use acton_reactive.Engine.Invariant.{
  record_child_terminated-WellFormed, record_started_child-WellFormed,
  launch_pending_starts-WellFormed, shutdown_supervision-WellFormed,
}

module _ (W : World) where
  open W use {Ern, Handle, Spawner, f64}

  -- What can happen to a supervisor.
  pub data Step (v : Supervisor W) : Supervisor W → Type 0 where
    registers : (m : RegisterSupervisedChild W) → Step v (register_supervised_child W v m).0
    unregisters : (m : UnregisterSupervisedChild W) → Step v (unregister_supervised_child W v m).0
    supervises :
        (spawner : Spawner) (limiter : Option (RestartLimiterConfig f64))
        (spawned : Result (SupervisionError Ern) Handle)
        → Step v (supervise_with W v spawner limiter spawned).1
    defers :
        (spawner : Spawner) (limiter : Option (RestartLimiterConfig f64))
        → Step v (supervise_deferred W v spawner limiter).1
    launches : (is_cancelled : ℕ → Bool) → Step v (launch_pending_starts W v is_cancelled).0
    starts : (m : SupervisedChildStarted W) (now : ℕ) → Step v (record_started_child W v m now).0
    terminates :
        (notice : ChildTerminated W) (clock : Readings)
        → Step v (record_child_terminated W v notice clock).0
    falls_due : (due : RestartDue W) → Step v (record_restart_due W v due)
    unsupervises : (child : Ern) → Step v (unsupervise W v child).0
    shuts_down : Step v (shutdown_supervision W v)

  pub data Reach (v : Supervisor W) : Supervisor W → Type 0 where
    here : Reach v v
    next : {u t : Supervisor W} → Reach v u → Step u t → Reach v t

  Step-WellFormed :
      {v u : Supervisor W} → Step v u → WellFormed W v.supervision → WellFormed W u.supervision
  unfolding register_supervised_child unregister_supervised_child supervise_with supervise_deferred
      record_restart_due unsupervise
  Step-WellFormed {v} (registers m) w = register-WellFormed W v.supervision _ w
  Step-WellFormed {v} (unregisters m) w = retire-WellFormed W v.supervision m.child w
  Step-WellFormed {v} (supervises spawner limiter (Result.ok handle)) w =
      register-WellFormed W v.supervision _ w
  Step-WellFormed {v} (supervises spawner limiter (Result.err e)) w = w
  Step-WellFormed {v} (defers spawner limiter) w = register_pending-WellFormed W v.supervision _ w
  Step-WellFormed {v} (launches is_cancelled) w =
      launch_pending_starts-WellFormed W v is_cancelled w
  Step-WellFormed {v} (starts m now) w = record_started_child-WellFormed W v m now w
  Step-WellFormed {v} (terminates notice clock) w =
      record_child_terminated-WellFormed W v notice clock w
  Step-WellFormed {v} (falls_due due) w =
      queue_restart-WellFormed W v.supervision due.index due.child due.generation w
  Step-WellFormed {v} (unsupervises child) w = retire-WellFormed W v.supervision child w
  Step-WellFormed {v} shuts_down w = shutdown_supervision-WellFormed W v w

  -- A supervisor that begins with no child has a well-formed registry after any calls and messages,
  -- in any order and on any clock: a name leads to the one slot of that name that is not retired; a
  -- slot holds a handle exactly in the states that have an incarnation; a slot that is to be started
  -- has a blueprint; and one that waits for a start task is in the queue of starts.
  pub Reach-WellFormed :
      (v u : Supervisor W) → v.supervision ≡ empty W → Reach v u → WellFormed W u.supervision
  Reach-WellFormed v u e here = rw e (empty-WellFormed W)
  Reach-WellFormed v u e (next r s) = Step-WellFormed s (Reach-WellFormed v _ e r)
