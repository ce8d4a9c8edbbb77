-- ===== src/Subscriptions/Connections.antt =====
-- How connections come and go, and the names of Rust types:
-- acton-reactive/src/common/ipc/subscription_manager.rs.
use acton_reactive.Shared.{ℕ, ◌+◌, Bool, Option, none, some, [], is_some, ℕ_discrete}
use acton_reactive.Shared.Table.{get, put, remove}
use acton_reactive.Shared.Sets.{insert}
use acton_reactive.Subscriptions.Patterns.{Text, text_discrete, pattern_discrete}
use acton_reactive.Subscriptions.{
  PeerCredentials, IpcConnectionContext, ConnectionInfo, SubscriptionManager, ConnectionId, Outside,
  fetch_add, connection, subscription_count, SubscriptionStats, remove_indices,
}

module _ (O : Outside) where
  open O use {PushSender, Identity, Policy, TypeId}

  abbrev pub removed_count : Option (ConnectionInfo O) → ℕ
  removed_count none = 0
  removed_count (some info) = subscription_count O info

  abbrev pub add_removed : ℕ → SubscriptionStats → SubscriptionStats
  add_removed n stats = record stats {
    subscriptions_removed = fetch_add stats.subscriptions_removed n;
  }

  unfoldable pub remove_connection :
      SubscriptionManager O → ConnectionId → Option (ConnectionInfo O) × SubscriptionManager O
  remove_connection m id = elim (connection O m id) [
    | none ↦ (none, m)
    | some info ↦ (
      some info,
      record m {
        connections = remove ℕ_discrete id m.connections;
        cancelled = insert ℕ_discrete info.cancellation m.cancelled;
        exact = remove_indices text_discrete info.subscribed_types id m.exact;
        patterns = remove_indices pattern_discrete info.subscribed_patterns id m.patterns;
      },
    )
  ]

  unfoldable pub insert_connection :
      SubscriptionManager O → ConnectionId → ConnectionInfo O → SubscriptionManager O
  unfolding remove_connection
  insert_connection m id info =
      let (removed, m') = remove_connection m id in
      record m' {
        stats = add_removed (removed_count removed) m'.stats;
        connections = put ℕ_discrete id info m'.connections;
        routes = [];
      }

  unfoldable pub register_connection_with_token :
      SubscriptionManager O
      → ConnectionId
      → PushSender
      → Option PeerCredentials
      → ℕ
      → SubscriptionManager O
  register_connection_with_token m id push_sender peer cancellation =
      insert_connection (record m { next_id = m.next_id + 1 }) id
        (record {
          incarnation = m.next_id;
          cancellation = cancellation;
          security = none;
          push_sender = push_sender;
          peer = peer;
          subscribed_types = [];
          subscribed_patterns = [];
        })

  -- With a new token.
  unfoldable pub register_connection :
      SubscriptionManager O
      → ConnectionId
      → PushSender
      → Option PeerCredentials
      → SubscriptionManager O
  register_connection m id push_sender peer =
      register_connection_with_token (record m { next_id = m.next_id + 1 }) id push_sender peer
        m.next_id

  unfoldable pub register_authenticated_connection :
      SubscriptionManager O
      → ConnectionId
      → PushSender
      → IpcConnectionContext O
      → Policy
      → SubscriptionManager O
  register_authenticated_connection m id push_sender context policy =
      insert_connection (record m { next_id = m.next_id + 1 }) id
        (record {
          incarnation = m.next_id;
          cancellation = context.cancellation;
          peer = context.peer;
          security = some (context, policy);
          push_sender = push_sender;
          subscribed_types = [];
          subscribed_patterns = [];
        })

  unfoldable pub unregister_connection :
      SubscriptionManager O → ConnectionId → SubscriptionManager O
  unregister_connection m id =
      let (removed, m') = remove_connection m id in
      record m' { stats = add_removed (removed_count removed) m'.stats; routes = [] }

  unfoldable pub revoke_connection :
      SubscriptionManager O → ConnectionId → SubscriptionManager O × Bool
  unfolding unregister_connection
  revoke_connection m id = (unregister_connection m id, is_some (connection O m id))

  unfoldable pub register_type_mapping :
      SubscriptionManager O → TypeId → Text → SubscriptionManager O
  register_type_mapping m type_id type_name = record m {
    type_id_to_name = put O.type_id_discrete type_id type_name m.type_id_to_name;
  }

  unfoldable pub get_type_name : SubscriptionManager O → TypeId → Option Text
  get_type_name m type_id = get O.type_id_discrete type_id m.type_id_to_name
