-- ===== src/Broker.antt =====
-- acton-reactive/src/common/broker.rs, with message/subscribe_broker.rs, unsubscribe_broker.rs and
-- the requests of traits/subscribable.rs: which actors are subscribed to which types of messages, and
-- to whom a broadcast goes. Actors' inboxes are tokio's, so a broadcast is the list of what is sent to
-- which handle; the sends run together, so its order means nothing. Two handles are equal if their
-- actors' names are.
pub mod Members
pub mod Broadcasts
pub mod Forwarded
use acton_reactive.Shared.{
  ℕ, Bool, true, false, not, ◌&&◌, ◌||◌, Option, none, some, List, [], ◌∷◌, map, keep, decide,
  if◌then◌else◌, Result, ok, err,
}
use acton_reactive.Shared.Table.{get, put, remove}
use acton_reactive.World.{World}
use acton_reactive.Subscriptions.{Outside, ConnectionId, SubscriptionManager, is_nil}
use acton_reactive.Subscriptions.Patterns.{Text}
use acton_reactive.Subscriptions.Delivery.{SendOutcome, Begun, begin_forward}
use acton_reactive.TypeRegistry.{
  Serde, SerializeError, IpcTypeRegistry, get_type_name_by_id, serialize_by_type_id,
}

module _ (W : World) where
  open W use {Ern, ern_discrete, Handle, handle_id}

  abbrev pub Subscriber : Type 0
  Subscriber = Ern × Handle

  -- Equality of entries of a set: by the name and by the handle, which is by its name.
  abbrev pub same_subscriber : Subscriber → Subscriber → Bool
  same_subscriber (id, handle) (id', handle') =
      decide (ern_discrete id id') && decide (ern_discrete (handle_id handle) (handle_id handle'))

  abbrev pub has_subscriber : List Subscriber → Subscriber → Bool
  has_subscriber [] s = false
  has_subscriber (t ∷ set) s = same_subscriber t s || has_subscriber set s

  -- `HashSet::insert` keeps an equal entry that is there.
  abbrev pub insert_subscriber : Subscriber → List Subscriber → List Subscriber
  insert_subscriber s set = if has_subscriber set s then set else s ∷ set

  abbrev pub drop_subscriber : Subscriber → List Subscriber → List Subscriber
  drop_subscriber s set = keep (λ t. not (same_subscriber t s)) set

  abbrev pub or_default : Option (List Subscriber) → List Subscriber
  or_default none = []
  or_default (some set) = set

  abbrev pub without : Ern → List Subscriber → List Subscriber
  without id set = keep (λ t. not (decide (ern_discrete t.0 id))) set

  module _ (O : Outside) where
    open O use {TypeId, type_id_discrete}

    abbrev pub Subscribers : Type 0
    Subscribers = List (TypeId × List Subscriber)

    pub record SubscribeBroker : Type 0 where
      pub subscriber_id : Ern
      pub message_type_id : TypeId
      pub subscriber_context : Handle

    pub record RemoveSubscription : Type 0 where
      pub subscriber_id : Ern
      pub message_type_id : TypeId
      pub subscriber_context : Handle

    -- The requests that an actor's handle makes.
    abbrev pub subscription_of : Handle → TypeId → SubscribeBroker
    subscription_of handle type_id = record {
      subscriber_id = handle_id handle;
      message_type_id = type_id;
      subscriber_context = handle;
    }

    abbrev pub unsubscription_of : Handle → TypeId → RemoveSubscription
    unsubscription_of handle type_id = record {
      subscriber_id = handle_id handle;
      message_type_id = type_id;
      subscriber_context = handle;
    }

    unfoldable pub handle_subscribe : Subscribers → SubscribeBroker → Subscribers
    handle_subscribe subscribers m =
        put type_id_discrete m.message_type_id
          (insert_subscriber (m.subscriber_id, m.subscriber_context)
            (or_default (get type_id_discrete m.message_type_id subscribers)))
          subscribers

    -- The now empty set is dropped.
    unfoldable pub remove_subscription : Subscribers → TypeId → Subscriber → Subscribers
    remove_subscription subscribers type_id subscriber =
        elim (get type_id_discrete type_id subscribers) [
          | none ↦ subscribers
          | some set ↦
              let rest = drop_subscriber subscriber set in
              if is_nil rest
              then remove type_id_discrete type_id subscribers
              else put type_id_discrete type_id rest subscribers
        ]

    unfoldable pub handle_unsubscribe : Subscribers → RemoveSubscription → Subscribers
    unfolding remove_subscription
    handle_unsubscribe subscribers m =
        remove_subscription subscribers m.message_type_id (m.subscriber_id, m.subscriber_context)

    unfoldable pub remove_all_subscriptions : Subscribers → Ern → Subscribers
    remove_all_subscriptions [] id = []
    remove_all_subscriptions ((type_id, set) ∷ subscribers) id =
        let rest = remove_all_subscriptions subscribers id in
        if is_nil (without id set) then rest else (type_id, without id set) ∷ rest

    module _ (D : Serde) where
      open D use {Message, Value}

      pub record BrokerRequest : Type 0 where
        pub message : Message
        pub message_type_id : TypeId

      unfoldable pub broadcast : Subscribers → BrokerRequest → List (Handle × Message)
      broadcast subscribers request =
          map (λ s. (s.1, request.message))
            (or_default (get type_id_discrete request.message_type_id subscribers))

      abbrev pub forward_value :
          Option Text
          → Result SerializeError Value
          → SubscriptionManager O
          → (ConnectionId → SendOutcome)
          → Option (Value × Begun O)
      forward_value none payload sub_mgr outcome = none
      forward_value (some type_name) (err e) sub_mgr outcome = none
      forward_value (some type_name) (ok payload_json) sub_mgr outcome =
          some (payload_json, begin_forward O sub_mgr type_name outcome)

      -- What goes to IPC connections: the payload, and the first part of its forwarding.
      unfoldable pub forward_to_ipc :
          Option (SubscriptionManager O)
          → IpcTypeRegistry O D
          → BrokerRequest
          → (ConnectionId → SendOutcome)
          → Option (Value × Begun O)
      forward_to_ipc none registry request outcome = none
      forward_to_ipc (some sub_mgr) registry request outcome =
          forward_value (get_type_name_by_id O D registry request.message_type_id)
            (serialize_by_type_id O D registry request.message_type_id request.message) sub_mgr
            outcome

      unfoldable pub handle_request :
          Subscribers
          → Option (SubscriptionManager O)
          → IpcTypeRegistry O D
          → BrokerRequest
          → (ConnectionId → SendOutcome)
          → List (Handle × Message) × Option (Value × Begun O)
      unfolding broadcast forward_to_ipc
      handle_request subscribers sub_mgr registry request outcome =
          (broadcast subscribers request, forward_to_ipc sub_mgr registry request outcome)
