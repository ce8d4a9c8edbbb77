-- ===== src/Registry.antt =====
-- `SupervisionRegistry` in acton-reactive/src/actor/supervision/registry.rs: the children of one
-- supervisor, as slots in the order of registration, an index by name, and a queue of starts.
pub mod Starts
pub mod Ends
pub mod Invariant
pub mod Slots
pub mod Kept
pub mod Preserved
mod Failed
pub mod Released
pub mod Settled
pub mod Told
pub mod Reuse
pub mod Published
use acton_reactive.Shared.{
  ℕ, Bool, true, false, not, ◌&&◌, Option, some, none, List, [], ◌∷◌, ◌++◌, map, length, get_elem?,
  set, keep, is_some, if◌then◌else◌, Result, ok, err,
}
use acton_reactive.Shared.Table.{get, put}
use acton_reactive.World.{World}
use acton_reactive.Policy.{RestartPolicy}
use acton_reactive.Limiter.{RestartLimiter}
use acton_reactive.Plan.{SlotView, SlotSnapshot, ExpectedTermination}
use acton_reactive.Plan
use acton_reactive.Status.{SupervisionError, SupervisionStatus, duplicate_child, first_generation}
use acton_reactive.SlotState.{SlotState, running, pending, accepts_termination, is_retired}
use acton_reactive.Slot.{ChildSlot, is_restartable, view, publish}

module _ (W : World) where
  open W use {Ern, ern_discrete, Handle, Spawner, f64, Sender}

  pub record NewSlot : Type 0 where
    pub ern : Ern
    pub handle : Handle
    pub spawner : Option Spawner
    pub restart_policy : RestartPolicy
    pub limiter : RestartLimiter f64
    pub status : Sender (SupervisionStatus W)

  pub record PendingSlot : Type 0 where
    pub ern : Ern
    pub spawner : Spawner
    pub restart_policy : RestartPolicy
    pub limiter : RestartLimiter f64
    pub status : Sender (SupervisionStatus W)

  -- The queue's front is the head of the list.
  pub record SupervisionRegistry : Type 0 where
    pub slots : List (ChildSlot W)
    pub by_ern : List (Ern × ℕ)
    pub pending_starts : List ℕ
    pub shutting_down : Bool

  abbrev pub empty : SupervisionRegistry
  empty = record { slots = []; by_ern = []; pending_starts = []; shutting_down = false }

  abbrev pub index_of : SupervisionRegistry → Ern → Option ℕ
  index_of r ern = get ern_discrete ern r.by_ern

  -- A write through `slots.get_mut`.
  abbrev pub set_slot : SupervisionRegistry → ℕ → ChildSlot W → SupervisionRegistry
  set_slot r i s = record r { slots = set r.slots i s }

  unfoldable pub new_slot : NewSlot → ℕ → ChildSlot W
  new_slot n index = record {
    ern = n.ern;
    index = index;
    handle = some n.handle;
    spawner = n.spawner;
    restart_policy = n.restart_policy;
    limiter = n.limiter;
    generation = first_generation;
    state = running;
    last_restart = none;
    status = n.status;
    failure = none;
  }

  unfoldable pub register :
      SupervisionRegistry → NewSlot → Result (SupervisionError Ern) ℕ × SupervisionRegistry
  unfolding new_slot
  register r n =
      if is_some (index_of r n.ern)
      then (err (duplicate_child n.ern), r)
      else let index = length r.slots in
        (
          ok index,
          record r {
            slots = r.slots ++ publish W (new_slot n index) ∷ [];
            by_ern = put ern_discrete n.ern index r.by_ern;
          },
        )

  unfoldable pub pending_slot : PendingSlot → ℕ → ChildSlot W
  pending_slot n index = record {
    ern = n.ern;
    index = index;
    handle = none;
    spawner = some n.spawner;
    restart_policy = n.restart_policy;
    limiter = n.limiter;
    generation = first_generation;
    state = pending;
    last_restart = none;
    status = n.status;
    failure = none;
  }

  unfoldable pub register_pending :
      SupervisionRegistry → PendingSlot → Result (SupervisionError Ern) ℕ × SupervisionRegistry
  unfolding pending_slot
  register_pending r n =
      if is_some (index_of r n.ern)
      then (err (duplicate_child n.ern), r)
      else let index = length r.slots in
        (
          ok index,
          record r {
            slots = r.slots ++ publish W (pending_slot n index) ∷ [];
            by_ern = put ern_discrete n.ern index r.by_ern;
            pending_starts = r.pending_starts ++ index ∷ [];
          },
        )

  abbrev pub live_slots : SupervisionRegistry → List (ChildSlot W)
  live_slots r = keep (λ s. not (is_retired s.state)) r.slots

  unfoldable pub views : SupervisionRegistry → List SlotView
  views r = map (view W) (live_slots r)

  abbrev pub expected_of : SlotState → Option ExpectedTermination
  expected_of (SlotState.expected_stop then_restart) = some (Plan.group_stop then_restart)
  expected_of s = if accepts_termination s then none else some Plan.stale

  unfoldable pub snapshot_of : Bool → ChildSlot W → SlotSnapshot
  snapshot_of shutting_down s = record {
    index = s.index;
    restartable = is_restartable W s;
    expected = if shutting_down then some Plan.shutdown else expected_of s.state;
    last_restart = s.last_restart;
  }

  unfoldable pub snapshot : SupervisionRegistry → ℕ → Option SlotSnapshot
  unfolding snapshot_of
  snapshot r index = elim (get_elem? r.slots index) [
    | none ↦ none
    | some s ↦ some (snapshot_of r.shutting_down s)
  ]

  handles_of : List (ChildSlot W) → List Handle
  handles_of [] = []
  handles_of (s ∷ ss) = elim s.handle [ none ↦ handles_of ss | some h ↦ h ∷ handles_of ss ]

  unfoldable pub live_handles : SupervisionRegistry → List Handle
  unfolding handles_of
  live_handles r = handles_of (live_slots r)

  unfoldable pub engine_managed_children : SupervisionRegistry → List Ern
  engine_managed_children r =
      map (λ s. s.ern) (keep (λ s. not (is_retired s.state) && is_restartable W s) r.slots)

  unfoldable pub begin_shutdown : SupervisionRegistry → SupervisionRegistry
  begin_shutdown r = record r { shutting_down = true }
