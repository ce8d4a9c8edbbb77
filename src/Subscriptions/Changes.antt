-- ===== src/Subscriptions/Changes.antt =====
-- `subscribe`, `unsubscribe` and the same for patterns:
-- acton-reactive/src/common/ipc/subscription_manager.rs.
use acton_reactive.Shared.{
  Bool, Option, none, some, List, [], ltb, length, if◌then◌else◌, Result, ok, err, ℕ_discrete,
}
use acton_reactive.Shared.Table.{put}
use acton_reactive.Shared.Sets.{insert_all}
use acton_reactive.Subscriptions.Patterns.{
  Text, text_discrete, SubscriptionPattern, pattern_discrete, PatternSubscriptionError,
  too_many_patterns, unknown_connection, validate_patterns, sorted_patterns,
}
use acton_reactive.Subscriptions.{
  ConnectionInfo, SubscriptionManager, Work, drop_all, ConnectionId, Outside, connection, is_nil,
  SubscriptionStats, choose_all,
}

module _ (O : Outside) where
  unfoldable pub subscribe :
      SubscriptionManager O → ConnectionId → List Text → SubscriptionManager O × List Text
  subscribe m id message_types = elim (connection O m id) [
    | none ↦ (m, [])
    | some info ↦
        let w = choose_all text_discrete id message_types (record {
          chosen = info.subscribed_types;
          index = m.exact;
          changed = m.stats.subscriptions_added;
        }) in
        (
          record m {
            connections =
                put ℕ_discrete id (record info { subscribed_types = w.chosen }) m.connections;
            exact = w.index;
            stats = record m.stats { subscriptions_added = w.changed };
            routes = [];
          },
          w.chosen,
        )
  ]

  -- An empty batch takes the patterns first, and then all names.
  unfoldable pub drop_patterns_first :
      ConnectionId → Bool → SubscriptionManager O → ConnectionInfo O → Work SubscriptionPattern
  drop_patterns_first id everything m info =
      drop_all pattern_discrete id (if everything then info.subscribed_patterns else []) (record {
        chosen = info.subscribed_patterns;
        index = m.patterns;
        changed = m.stats.subscriptions_removed;
      })

  unfoldable pub unsubscribe :
      SubscriptionManager O → ConnectionId → List Text → SubscriptionManager O × List Text
  unsubscribe m id message_types = elim (connection O m id) [
    | none ↦ (m, [])
    | some info ↦
        let everything = is_nil message_types in
        let p = drop_patterns_first id everything m info in
        let w =
          drop_all text_discrete id (if everything then info.subscribed_types else message_types)
            (record { chosen = info.subscribed_types; index = m.exact; changed = p.changed }) in
        (
          record m {
            connections =
                put ℕ_discrete id
                  (record info { subscribed_types = w.chosen; subscribed_patterns = p.chosen })
                  m.connections;
            exact = w.index;
            patterns = p.index;
            stats = record m.stats { subscriptions_removed = w.changed };
            routes = [];
          },
          w.chosen,
        )
  ]

  -- A new set of patterns of one connection.
  abbrev pub with_patterns :
      SubscriptionManager O
      → ConnectionId
      → ConnectionInfo O
      → Work SubscriptionPattern
      → SubscriptionStats
      → SubscriptionManager O × Result PatternSubscriptionError (List Text)
  with_patterns m id info w stats = (
    record m {
      connections =
          put ℕ_discrete id (record info { subscribed_patterns = w.chosen }) m.connections;
      patterns = w.index;
      stats = stats;
      routes = [];
    },
    ok (sorted_patterns w.chosen),
  )

  unfoldable pub add_patterns :
      SubscriptionManager O
      → ConnectionId
      → ConnectionInfo O
      → List SubscriptionPattern
      → SubscriptionManager O × Result PatternSubscriptionError (List Text)
  add_patterns m id info validated =
      if ltb 128 (length (insert_all pattern_discrete validated info.subscribed_patterns))
      then (m, err too_many_patterns)
      else let w = choose_all pattern_discrete id validated (record {
        chosen = info.subscribed_patterns;
        index = m.patterns;
        changed = m.stats.subscriptions_added;
      }) in
        with_patterns m id info w (record m.stats { subscriptions_added = w.changed })

  -- The selectors are validated first, then the connection is looked up.
  abbrev pub with_validated :
      (SubscriptionManager O
        → ConnectionId
        → ConnectionInfo O
        → List SubscriptionPattern
        → SubscriptionManager O × Result PatternSubscriptionError (List Text))
      → SubscriptionManager O
      → ConnectionId
      → Result PatternSubscriptionError (List SubscriptionPattern)
      → Option (ConnectionInfo O)
      → SubscriptionManager O × Result PatternSubscriptionError (List Text)
  with_validated apply m id (err e) info = (m, err e)
  with_validated apply m id (ok validated) none = (m, err unknown_connection)
  with_validated apply m id (ok validated) (some info) = apply m id info validated

  unfoldable pub subscribe_patterns :
      SubscriptionManager O
      → ConnectionId
      → List Text
      → SubscriptionManager O × Result PatternSubscriptionError (List Text)
  unfolding add_patterns
  subscribe_patterns m id values =
      with_validated add_patterns m id (validate_patterns values) (connection O m id)

  unfoldable pub take_patterns :
      SubscriptionManager O
      → ConnectionId
      → ConnectionInfo O
      → List SubscriptionPattern
      → SubscriptionManager O × Result PatternSubscriptionError (List Text)
  take_patterns m id info selected =
      let w = drop_all pattern_discrete id selected (record {
        chosen = info.subscribed_patterns;
        index = m.patterns;
        changed = m.stats.subscriptions_removed;
      }) in
      with_patterns m id info w (record m.stats { subscriptions_removed = w.changed })

  -- An empty batch selects all.
  abbrev pub take_selected :
      Bool
      → SubscriptionManager O
      → ConnectionId
      → ConnectionInfo O
      → List SubscriptionPattern
      → SubscriptionManager O × Result PatternSubscriptionError (List Text)
  take_selected everything m id info validated =
      take_patterns m id info (if everything then info.subscribed_patterns else validated)

  unfoldable pub unsubscribe_patterns :
      SubscriptionManager O
      → ConnectionId
      → List Text
      → SubscriptionManager O × Result PatternSubscriptionError (List Text)
  unfolding take_patterns
  unsubscribe_patterns m id values =
      with_validated (take_selected (is_nil values)) m id (validate_patterns values)
        (connection O m id)
