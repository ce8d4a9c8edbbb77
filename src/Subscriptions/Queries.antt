-- ===== src/Subscriptions/Queries.antt =====
-- What a subscription manager answers about its connections, without a change:
-- acton-reactive/src/common/ipc/subscription_manager.rs.
use acton_reactive.Shared.{
  ℕ, ◌+◌, Bool, false, not, ◌||◌, Option, none, some, List, [], ◌∷◌, length,
}
use acton_reactive.Subscriptions.Patterns.{Text, sorted_patterns}
use acton_reactive.Subscriptions.{
  ConnectionId, PeerCredentials, Outside, is_nil, IpcConnectionContext, SubscriptionManager,
  connection,
}

module _ (O : Outside) where
  abbrev context_of : Option (IpcConnectionContext O × O.Policy) → Option (IpcConnectionContext O)
  context_of none = none
  context_of (some (context, policy)) = some context

  unfoldable connection_context :
      SubscriptionManager O → ConnectionId → Option (IpcConnectionContext O)
  connection_context m id = elim (connection O m id) [
    | none ↦ none
    | some info ↦ context_of info.security
  ]

  unfoldable peer_credentials : SubscriptionManager O → ConnectionId → Option PeerCredentials
  peer_credentials m id = elim (connection O m id) [ none ↦ none | some info ↦ info.peer ]

  unfoldable peer_pid : SubscriptionManager O → ConnectionId → Option ℕ
  unfolding peer_credentials
  peer_pid m id = elim (peer_credentials m id) [ none ↦ none | some peer ↦ peer.pid ]

  unfoldable pub get_subscriptions : SubscriptionManager O → ConnectionId → List Text
  get_subscriptions m id = elim (connection O m id) [
    | none ↦ []
    | some info ↦ info.subscribed_types
  ]

  unfoldable pub get_pattern_subscriptions : SubscriptionManager O → ConnectionId → List Text
  get_pattern_subscriptions m id = elim (connection O m id) [
    | none ↦ []
    | some info ↦ sorted_patterns info.subscribed_patterns
  ]

  unfoldable pub has_subscriptions : SubscriptionManager O → ConnectionId → Bool
  has_subscriptions m id = elim (connection O m id) [
    | none ↦ false
    | some info ↦ not (is_nil info.subscribed_types) || not (is_nil info.subscribed_patterns)
  ]

  unfoldable connection_count : SubscriptionManager O → ℕ
  connection_count m = length m.connections

  unfoldable subscribed_types_count : SubscriptionManager O → ℕ
  subscribed_types_count m = length m.exact

  unfoldable subscribed_patterns_count : SubscriptionManager O → ℕ
  subscribed_patterns_count m = length m.patterns

  unfoldable entries : {K : Type 0} → List (K × List ConnectionId) → ℕ
  entries [] = 0
  entries ((key, ids) ∷ index) = length ids + entries index

  unfoldable total_subscriptions : SubscriptionManager O → ℕ
  unfolding entries
  total_subscriptions m = entries m.exact + entries m.patterns
