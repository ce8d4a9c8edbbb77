-- ===== src/Slot.antt =====
-- `ChildSlot` in acton-reactive/src/actor/supervision/registry.rs: the record of one child.
use acton_reactive.Shared.{ℕ, Bool, true, false, ◌&&◌, Option, ◌==◌, if◌then◌else◌, decide, is_some}
use acton_reactive.World.{World}
use acton_reactive.Policy.{RestartPolicy}
use acton_reactive.Limiter.{RestartLimiter, restarts_in_window}
use acton_reactive.Plan.{SlotView}
use acton_reactive.Status.{
  SupervisionState-discrete, SupervisionError, SupervisionStatus, failure_discrete,
}
use acton_reactive.SlotState.{SlotState, published, is_running}

module _ (W : World) where
  open W use {Ern, ern_discrete, Handle, Spawner, f64, Sender, borrow, send_if_modified}

  pub record ChildSlot : Type 0 where
    pub ern : Ern
    pub index : ℕ
    pub handle : Option Handle
    pub spawner : Option Spawner
    pub restart_policy : RestartPolicy
    pub limiter : RestartLimiter f64
    pub generation : ℕ
    pub state : SlotState
    pub last_restart : Option ℕ
    pub status : Sender (SupervisionStatus W)
    pub failure : Option (SupervisionError Ern)

  abbrev pub is_restartable : ChildSlot → Bool
  is_restartable s = is_some s.spawner

  abbrev pub view : ChildSlot → SlotView
  view s = record {
    index = s.index;
    restartable = is_restartable s;
    alive = is_some s.handle && is_running s.state;
  }

  -- What `publish` would tell now.
  unfoldable pub next_status : ChildSlot → SupervisionStatus W
  next_status s = record {
    child = s.ern;
    handle = s.handle;
    generation = s.generation;
    state = published s.state;
    restarts_in_window = restarts_in_window f64 s.limiter;
    failure = s.failure;
  }

  -- The comparison leaves the child and the handle out.
  unfoldable pub is_unchanged : SupervisionStatus W → SupervisionStatus W → Bool
  is_unchanged current next =
      current.generation == next.generation
      && decide (SupervisionState-discrete current.state next.state)
      && current.restarts_in_window == next.restarts_in_window
      && decide (failure_discrete ern_discrete current.failure next.failure)

  unfoldable pub replace_if_changed :
      SupervisionStatus W → SupervisionStatus W → Bool × SupervisionStatus W
  unfolding is_unchanged
  replace_if_changed next current =
      if is_unchanged current next then (false, current) else (true, next)

  unfoldable pub publish_result : ChildSlot → Bool × Sender (SupervisionStatus W)
  publish_result s =
      send_if_modified (SupervisionStatus W) s.status (replace_if_changed (next_status s))

  -- The slot after `publish`.
  unfoldable pub publish : ChildSlot → ChildSlot
  publish s = record s { status = (publish_result s).1 }
