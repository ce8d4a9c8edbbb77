-- ===== src/Status/Waiting.antt =====
-- `SupervisedChild` in acton-reactive/src/actor/supervision/status.rs: a watcher that waits for a
-- child to run. The receiving end of the channel is tokio's, so it is a parameter.
use acton_reactive.Shared.{ℕ, ◌≤◌, ◌≡◌, ◌⊎◌, Bool, true, Option, some, none, Result, ok, err}
use acton_reactive.World.{World}
use acton_reactive.Status.{
  SupervisionStatus, SupervisionError, running, is_terminal, is_settled, has_reached,
  running_handle, not_running, supervisor_stopped,
}

module _ (W : World) where
  open W use {Ern, Handle}

  -- `watch::Receiver`; the wait ends with a status, or with `none` when the channel is closed.
  pub record Watch : Type 1 where
    pub Receiver : Type 0
    pub receive : Receiver → (SupervisionStatus W → Bool) → Option (SupervisionStatus W) × Receiver

  -- A wait ends with a status only if the test accepts it.
  abbrev pub Accepts : Watch → Type 0
  Accepts watch =
      (r : watch.Receiver) (p : SupervisionStatus W → Bool) (s : SupervisionStatus W)
      → (watch.receive r p).0 ≡ some s
      → p s ≡ true

module _ (W : World) (watch : Watch W) where
  open W use {Ern, Handle}

  pub record SupervisedChild : Type 0 where
    pub ern : Ern
    pub supervisor : Ern
    pub status : watch.Receiver

  abbrev pub received :
      SupervisedChild
      → Option (SupervisionStatus W)
      → Result (SupervisionError Ern) (SupervisionStatus W)
  received c (some status) = ok status
  received c none = err (supervisor_stopped c.supervisor)

  unfoldable pub wait_for :
      SupervisedChild
      → (SupervisionStatus W → Bool)
      → Result (SupervisionError Ern) (SupervisionStatus W) × SupervisedChild
  wait_for c predicate =
      let (status, r) = watch.receive c.status predicate in
      (received c status, record c { status = r })

  abbrev pub handed :
      SupervisedChild
      → Result (SupervisionError Ern) (SupervisionStatus W)
      → Result (SupervisionError Ern) Handle
  handed c (ok status) = running_handle W c.ern status
  handed c (err e) = err e

  unfoldable pub wait_running :
      SupervisedChild → Result (SupervisionError Ern) Handle × SupervisedChild
  unfolding wait_for
  wait_running c = let (status, c') = wait_for c (is_settled W) in (handed c' status, c')

  unfoldable pub wait_generation :
      SupervisedChild → ℕ → Result (SupervisionError Ern) Handle × SupervisedChild
  unfolding wait_for
  wait_generation c generation =
      let (status, c') = wait_for c (has_reached W generation) in (handed c' status, c')

  -- How a wait for a generation may end.
  abbrev pub Ends :
      SupervisedChild
      → ℕ
      → (SupervisionStatus W → Bool)
      → Result (SupervisionError Ern) Handle
      → Type 0
  Ends c generation test result =
      ((watch.receive c.status test).0 ≡ none × result ≡ err (supervisor_stopped c.supervisor))
      ⊎ ((s : SupervisionStatus W) × ((watch.receive c.status test).0 ≡ some s)
          × (((h : Handle) × (result ≡ ok h)
                × (s.handle ≡ some h)
                × (s.state ≡ running)
                × (generation ≤ s.generation))
              ⊎ ((is_terminal s.state ≡ true) × (result ≡ err (not_running W c.ern s s.failure)))))
