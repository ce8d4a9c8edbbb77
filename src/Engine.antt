-- ===== src/Engine.antt =====
-- acton-reactive/src/actor/supervision/engine.rs: what a supervisor does on each of its
-- supervision messages. A handler returns the new state and its effects in order: tasks that it
-- starts, actors that it stops, and what it reports.
pub mod Group
pub mod Handlers
mod Planned
mod Views
pub mod Invariant
pub mod System
pub mod Launch
pub mod Stale
use acton_reactive.Shared.{ℕ, Bool, true, false, Option, some, none, List, [], ◌∷◌, Result}
use acton_reactive.World.{World}
use acton_reactive.Policy.{RestartPolicy, TerminationReason, SupervisionStrategy}
use acton_reactive.Limiter.{RestartLimiterConfig, RestartLimiter, RestartStats}
use acton_reactive.Limiter
use acton_reactive.Status.{SupervisionError, SupervisionStatus, SupervisionState}
use acton_reactive.Registry.{SupervisionRegistry}
use acton_reactive.Registry.Starts.{StartTicket}

pub data Escalation : Type 0 where
  notify_parent stop_supervisor : Escalation

module _ (W : World) where
  open W use {Ern, Handle, Spawner, f64, Sender, channel}

  -- `message::RestartDue`.
  pub record RestartDue : Type 0 where
    pub child : Ern
    pub index : ℕ
    pub generation : ℕ

  -- `message::ChildTerminated`.
  pub record ChildTerminated : Type 0 where
    pub child_id : Ern
    pub reason : TerminationReason
    pub restart_policy : RestartPolicy

  -- `message::SupervisedChildStarted`.
  pub record SupervisedChildStarted : Type 0 where
    pub child : Ern
    pub index : ℕ
    pub outcome : Result (SupervisionError Ern) Handle

  -- `message::RegisterSupervisedChild`; `wants_outcome` is whether it has an outcome cell.
  pub record RegisterSupervisedChild : Type 0 where
    pub child : Ern
    pub handle : Handle
    pub spawner : Option Spawner
    pub restart_policy : RestartPolicy
    pub limiter : Option (RestartLimiterConfig f64)
    pub status : Sender (SupervisionStatus W)
    pub wants_outcome : Bool

  -- `message::UnregisterSupervisedChild`.
  pub record UnregisterSupervisedChild : Type 0 where
    pub child : Ern
    pub stopping : Bool

  pub data Effect : Type 0 where
    -- A start task for a child.
    start_child : StartTicket W → Effect
    -- A task that stops a child that nobody supervises.
    stop_disowned : Handle → Effect
    -- A task that stops children one after the other, waits, and sends the messages one by one.
    group_restart : List Handle → List RestartDue → ℕ → Effect
    tell_parent : Ern → RestartStats → Effect
    stop_self : Effect
    forget_ipc_names : Ern → Effect
    rebind_ipc_names : Ern → Handle → Effect
    report : Result (SupervisionError Ern) (Unit {0}) → Effect
    report_release : Result (SupervisionError Ern) (Option Handle) → Effect
    -- A child stopped in the handler itself.
    stop_child : Handle → Effect

  pub record Supervisor : Type 0 where
    pub id : Ern
    pub parent : Option Handle
    pub strategy : SupervisionStrategy
    pub escalation : Escalation
    pub restart_limiter_config : Option (RestartLimiterConfig f64)
    -- The configuration that `RestartLimiter::default` takes.
    pub default_limiter_config : RestartLimiterConfig f64
    -- Whether the actor has a cancellation token.
    pub has_token : Bool
    pub supervision : SupervisionRegistry W

  abbrev pub with_supervision : Supervisor → SupervisionRegistry W → Supervisor
  with_supervision v r = record v { supervision = r }

  limiter_config :
      Option (RestartLimiterConfig f64)
      → Option (RestartLimiterConfig f64)
      → RestartLimiterConfig f64
      → RestartLimiterConfig f64
  limiter_config (some child) own fallback = child
  limiter_config none (some own) fallback = own
  limiter_config none none fallback = fallback

  -- The child's configuration, or the supervisor's, or the default.
  unfoldable pub resolve_limiter :
      Supervisor → Option (RestartLimiterConfig f64) → RestartLimiter f64
  unfolding limiter_config
  resolve_limiter v child =
      Limiter.new f64 (limiter_config child v.restart_limiter_config v.default_limiter_config)

  unfoldable pub status_channel : Ern → Option Handle → Sender (SupervisionStatus W)
  status_channel child handle = channel (SupervisionStatus W) (record {
    child = child;
    handle = handle;
    generation = 0;
    state = SupervisionState.starting;
    restarts_in_window = 0;
    failure = none;
  })
