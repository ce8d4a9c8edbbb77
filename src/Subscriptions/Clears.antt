-- ===== src/Subscriptions/Clears.antt =====
-- An operation that changes a table clears the cache of routes.
use acton_reactive.Shared.{
  ◌≤◌, ◌≡◌, refl, Option, none, some, List, [], arith, Option-cases, Bool-cases, inl, inr, ◌⊎◌,
  Result, ok, err, ltb, length,
}
use acton_reactive.Shared.Sets.{insert_all}
use acton_reactive.Subscriptions.Patterns.{
  Text, SubscriptionPattern, pattern_discrete, validate_patterns, PatternSubscriptionError,
}
use acton_reactive.Subscriptions.{
  ConnectionId, Outside, Route, ConnectionInfo, SubscriptionManager, connection, is_nil,
}
use acton_reactive.Subscriptions.Connections.{
  remove_connection, insert_connection, unregister_connection,
}
use acton_reactive.Subscriptions.Changes.{
  subscribe, unsubscribe, subscribe_patterns, unsubscribe_patterns, with_validated, add_patterns,
  take_patterns, take_selected,
}
use acton_reactive.Subscriptions.Stamps.{Stamped, cleared-Stamped}

module _ (O : Outside) where
  -- The cache is cleared, or nothing happens.
  abbrev pub Clears : SubscriptionManager O → SubscriptionManager O → Type 0
  Clears m m' = (m' ≡ m) ⊎ ((m.next_id ≤ m'.next_id) × (m'.routes ≡ []))

  pub Clears-Stamped :
      (name : Text) (held : Route) (m m' : SubscriptionManager O)
      → Clears m m'
      → Stamped O name held m
      → Stamped O name held m'
  Clears-Stamped name held m m' (inl e) h = rw e h
  Clears-Stamped name held m m' (inr (le, e)) h = cleared-Stamped O name held m m' h le e

  pub insert_connection-Clears :
      (m : SubscriptionManager O) (id : ConnectionId) (info : ConnectionInfo O)
      → (m.next_id ≤ (insert_connection O m id info).next_id)
        × ((insert_connection O m id info).routes ≡ [])
  unfolding insert_connection remove_connection
  insert_connection-Clears m id info = (ground arith, refl)

  pub unregister-Clears :
      (m : SubscriptionManager O) (id : ConnectionId) → Clears m (unregister_connection O m id)
  unfolding unregister_connection remove_connection
  unregister-Clears m id = inr (ground arith, refl)

  pub subscribe-Clears :
      (m : SubscriptionManager O) (id : ConnectionId) (names : List Text)
      → Clears m (subscribe O m id names).0
  unfolding subscribe
  subscribe-Clears m id names = elim (Option-cases (connection O m id)) [
    | inl unknown ↦ inl (rw (unknown, subscribe) refl)
    | inr (info, at) ↦ inr (rw (at, subscribe) (omega arith), rw (at, subscribe) refl)
  ]

  pub unsubscribe-Clears :
      (m : SubscriptionManager O) (id : ConnectionId) (names : List Text)
      → Clears m (unsubscribe O m id names).0
  unfolding unsubscribe
  unsubscribe-Clears m id names = elim (Option-cases (connection O m id)) [
    | inl unknown ↦ inl (rw (unknown, unsubscribe) refl)
    | inr (info, at) ↦ inr (rw (at, unsubscribe) (omega arith), rw (at, unsubscribe) refl)
  ]

  pub with_validated-Clears :
      (apply : SubscriptionManager O
        → ConnectionId
        → ConnectionInfo O
        → List SubscriptionPattern
        → SubscriptionManager O × Result PatternSubscriptionError (List Text))
      (m : SubscriptionManager O) (id : ConnectionId)
      (r : Result PatternSubscriptionError (List SubscriptionPattern))
      (o : Option (ConnectionInfo O))
      → ((info : ConnectionInfo O) (validated : List SubscriptionPattern)
          → Clears m (apply m id info validated).0)
      → Clears m (with_validated O apply m id r o).0
  with_validated-Clears apply m id (err e) o h = inl refl
  with_validated-Clears apply m id (ok validated) none h = inl refl
  with_validated-Clears apply m id (ok validated) (some info) h = h info validated

  pub add_patterns-Clears :
      (m : SubscriptionManager O) (id : ConnectionId) (info : ConnectionInfo O)
      (validated : List SubscriptionPattern)
      → Clears m (add_patterns O m id info validated).0
  unfolding add_patterns
  add_patterns-Clears m id info validated =
      elim (Bool-cases
        (ltb 128 (length (insert_all pattern_discrete validated info.subscribed_patterns)))) [
          | inl over ↦ inl (rw (add_patterns, over) refl)
          | inr fits ↦ inr (rw (add_patterns, fits) (omega arith), rw (add_patterns, fits) refl)
        ]

  pub subscribe_patterns-Clears :
      (m : SubscriptionManager O) (id : ConnectionId) (values : List Text)
      → Clears m (subscribe_patterns O m id values).0
  unfolding subscribe_patterns
  subscribe_patterns-Clears m id values =
      with_validated-Clears (add_patterns O) m id (validate_patterns values) (connection O m id)
        (λ info validated. add_patterns-Clears m id info validated)

  pub unsubscribe_patterns-Clears :
      (m : SubscriptionManager O) (id : ConnectionId) (values : List Text)
      → Clears m (unsubscribe_patterns O m id values).0
  unfolding unsubscribe_patterns take_patterns
  unsubscribe_patterns-Clears m id values =
      with_validated-Clears (take_selected O (is_nil values)) m id (validate_patterns values)
        (connection O m id) (λ info validated. inr (omega arith, refl))
