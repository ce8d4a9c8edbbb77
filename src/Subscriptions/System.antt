-- ===== src/Subscriptions/System.antt =====
-- A subscription manager over time: any sequence of operations, with the parts of a forwarding
-- anywhere between them.
use acton_reactive.Shared.{ℕ, refl, Bool, Option, List, ℕ_discrete, inr}
use acton_reactive.Shared.Sets.{insert}
use acton_reactive.Subscriptions.Patterns.{Text}
use acton_reactive.Subscriptions.{
  ConnectionId, Outside, Route, PeerCredentials, IpcConnectionContext, SubscriptionManager, new,
}
use acton_reactive.Subscriptions.Connections.{
  register_connection, register_connection_with_token, register_authenticated_connection,
  unregister_connection, revoke_connection, register_type_mapping,
}
use acton_reactive.Subscriptions.Changes.{
  subscribe, unsubscribe, subscribe_patterns, unsubscribe_patterns,
}
use acton_reactive.Subscriptions.Delivery.{
  SendOutcome, DeliveryCandidate, begin_forward, finish_candidate,
}
use acton_reactive.Subscriptions.Invariant.{
  Consistent, insert_connection-Consistent, unregister_connection-Consistent, new-Consistent,
}
use acton_reactive.Subscriptions.Kept.{
  subscribe-Consistent, unsubscribe-Consistent, subscribe_patterns-Consistent,
  unsubscribe_patterns-Consistent,
}
use acton_reactive.Subscriptions.Stamps.{Stamped, recipients-Stamped}
use acton_reactive.Subscriptions.Steady.{
  SameTables-Consistent, SameTables-Stamped, finish-SameTables, cancels-SameTables, maps-SameTables,
  later-Stamped, later-Consistent, begin_forward-Consistent, begin_forward-Stamped,
}
use acton_reactive.Subscriptions.Clears.{
  Clears-Stamped, insert_connection-Clears, unregister-Clears, subscribe-Clears, unsubscribe-Clears,
  subscribe_patterns-Clears, unsubscribe_patterns-Clears,
}

module _ (O : Outside) where
  open O use {PushSender, Policy, TypeId}

  -- What can happen to a manager; `cancels` is a token that somebody else cancels.
  pub data Step (m : SubscriptionManager O) : SubscriptionManager O → Type 0 where
    registers :
        (id : ConnectionId) (sender : PushSender) (peer : Option PeerCredentials)
        → Step m (register_connection O m id sender peer)
    registers_with_token :
        (id : ConnectionId) (sender : PushSender) (peer : Option PeerCredentials) (token : ℕ)
        → Step m (register_connection_with_token O m id sender peer token)
    registers_authenticated :
        (id : ConnectionId) (sender : PushSender) (context : IpcConnectionContext O)
        (policy : Policy)
        → Step m (register_authenticated_connection O m id sender context policy)
    unregisters : (id : ConnectionId) → Step m (unregister_connection O m id)
    revokes : (id : ConnectionId) → Step m (revoke_connection O m id).0
    subscribes : (id : ConnectionId) (names : List Text) → Step m (subscribe O m id names).0
    unsubscribes : (id : ConnectionId) (names : List Text) → Step m (unsubscribe O m id names).0
    subscribes_patterns :
        (id : ConnectionId) (values : List Text) → Step m (subscribe_patterns O m id values).0
    unsubscribes_patterns :
        (id : ConnectionId) (values : List Text) → Step m (unsubscribe_patterns O m id values).0
    maps_type : (type_id : TypeId) (name : Text) → Step m (register_type_mapping O m type_id name)
    begins :
        (name : Text) (outcome : ConnectionId → SendOutcome)
        → Step m (begin_forward O m name outcome).manager
    finishes :
        (name : Text) (route : Route) (c : DeliveryCandidate O) (authorized : Bool)
        (outcome : SendOutcome)
        → Step m (finish_candidate O m name route c authorized outcome).1
    cancels : (token : ℕ) → Step m (record m { cancelled = insert ℕ_discrete token m.cancelled })

  pub data Reach (m : SubscriptionManager O) : SubscriptionManager O → Type 0 where
    here : Reach m m
    next : {u t : SubscriptionManager O} → Reach m u → Step u t → Reach m t

  pub Step-Consistent :
      {m m' : SubscriptionManager O} → Step m m' → Consistent O m → Consistent O m'
  unfolding register_connection register_connection_with_token register_authenticated_connection
      revoke_connection
  Step-Consistent {m} (registers id sender peer) c =
      insert_connection-Consistent O _ id _ refl refl
        (later-Consistent O _ 1 (later-Consistent O m 1 c))
  Step-Consistent {m} (registers_with_token id sender peer token) c =
      insert_connection-Consistent O _ id _ refl refl (later-Consistent O m 1 c)
  Step-Consistent {m} (registers_authenticated id sender context policy) c =
      insert_connection-Consistent O _ id _ refl refl (later-Consistent O m 1 c)
  Step-Consistent {m} (unregisters id) c = unregister_connection-Consistent O m id c
  Step-Consistent {m} (revokes id) c = unregister_connection-Consistent O m id c
  Step-Consistent {m} (subscribes id names) c = subscribe-Consistent O m id names c
  Step-Consistent {m} (unsubscribes id names) c = unsubscribe-Consistent O m id names c
  Step-Consistent {m} (subscribes_patterns id values) c =
      subscribe_patterns-Consistent O m id values c
  Step-Consistent {m} (unsubscribes_patterns id values) c =
      unsubscribe_patterns-Consistent O m id values c
  Step-Consistent {m} (maps_type type_id name) c =
      SameTables-Consistent O m _ (maps-SameTables O m type_id name) c
  Step-Consistent {m} (begins name outcome) c = begin_forward-Consistent O m name outcome c
  Step-Consistent {m} (finishes name route d authorized outcome) c =
      SameTables-Consistent O m _ (finish-SameTables O m name route d authorized outcome) c
  Step-Consistent {m} (cancels token) c =
      SameTables-Consistent O m _ (cancels-SameTables O m token) c

  pub Step-Stamped :
      (name : Text) (held : Route) {m m' : SubscriptionManager O}
      → Step m m'
      → Stamped O name held m
      → Stamped O name held m'
  unfolding register_connection register_connection_with_token register_authenticated_connection
      revoke_connection
  Step-Stamped name held {m} (registers id sender peer) h =
      Clears-Stamped O name held _ _ (inr (insert_connection-Clears O _ id _))
        (later-Stamped O name held _ 1 (later-Stamped O name held m 1 h))
  Step-Stamped name held {m} (registers_with_token id sender peer token) h =
      Clears-Stamped O name held _ _ (inr (insert_connection-Clears O _ id _))
        (later-Stamped O name held m 1 h)
  Step-Stamped name held {m} (registers_authenticated id sender context policy) h =
      Clears-Stamped O name held _ _ (inr (insert_connection-Clears O _ id _))
        (later-Stamped O name held m 1 h)
  Step-Stamped name held {m} (unregisters id) h =
      Clears-Stamped O name held m _ (unregister-Clears O m id) h
  Step-Stamped name held {m} (revokes id) h =
      Clears-Stamped O name held m _ (unregister-Clears O m id) h
  Step-Stamped name held {m} (subscribes id names) h =
      Clears-Stamped O name held m _ (subscribe-Clears O m id names) h
  Step-Stamped name held {m} (unsubscribes id names) h =
      Clears-Stamped O name held m _ (unsubscribe-Clears O m id names) h
  Step-Stamped name held {m} (subscribes_patterns id values) h =
      Clears-Stamped O name held m _ (subscribe_patterns-Clears O m id values) h
  Step-Stamped name held {m} (unsubscribes_patterns id values) h =
      Clears-Stamped O name held m _ (unsubscribe_patterns-Clears O m id values) h
  Step-Stamped name held {m} (maps_type type_id k) h =
      SameTables-Stamped O name held m _ (maps-SameTables O m type_id k) h
  Step-Stamped name held {m} (begins k outcome) h =
      begin_forward-Stamped O m k name outcome held (recipients-Stamped O m k name held h)
  Step-Stamped name held {m} (finishes k route d authorized outcome) h =
      SameTables-Stamped O name held m _ (finish-SameTables O m k route d authorized outcome) h
  Step-Stamped name held {m} (cancels token) h =
      SameTables-Stamped O name held m _ (cancels-SameTables O m token) h

  pub Reach-keeps : (m u : SubscriptionManager O) → Consistent O m → Reach m u → Consistent O u
  Reach-keeps m u c here = c
  Reach-keeps m u c (next r s) = Step-Consistent s (Reach-keeps m _ c r)

  pub Reach-Stamped :
      (name : Text) (held : Route) (m u : SubscriptionManager O)
      → Stamped O name held m
      → Reach m u
      → Stamped O name held u
  Reach-Stamped name held m u h here = h
  Reach-Stamped name held m u h (next r s) =
      Step-Stamped name held s (Reach-Stamped name held m _ h r)

  -- After any operations, in any order, also with parts of forwardings between them: the index by
  -- name and the index by pattern agree with the sets of the connections, in both directions, and
  -- hold no empty set; no connection has more than 128 patterns; and each of the at most 1024 routes
  -- in the cache is for a name of at most 256 bytes and lists, once each, exactly the connections
  -- that are subscribed to that name, literally or by a pattern.
  pub Reach-Consistent : (u : SubscriptionManager O) → Reach (new O) u → Consistent O u
  Reach-Consistent u r = Reach-keeps (new O) u (new-Consistent O) r
