-- ===== src/Broker/Forwarded.antt =====
-- The handler of a broadcast: what local actors and what IPC connections get.
use acton_reactive.Shared.{
  ◌≡◌, refl, true, Option, none, some, List, map, contains, ◌↔◌, ◌⊎◌, inl, inr, Result, ok, err,
  ℕ_discrete,
}
use acton_reactive.Shared.Sets.{Distinct}
use acton_reactive.World.{World}
use acton_reactive.Subscriptions.{Outside, ConnectionId, ConnectionInfo, SubscriptionManager}
use acton_reactive.Subscriptions.Patterns.{Text}
use acton_reactive.Subscriptions.Delivery.{SendOutcome, Begun, begin_forward}
use acton_reactive.Subscriptions.Invariant.{Consistent}
use acton_reactive.Subscriptions.Forwarding.{IsListening, begin_forward_lem}
use acton_reactive.TypeRegistry.{
  Serde, SerializeError, IpcTypeRegistry, get_type_name_by_id, serialize_by_type_id,
}
use acton_reactive.Broker.{BrokerRequest, forward_to_ipc, forward_value, handle_request}
use acton_reactive.Broker.Broadcasts.{Event, after, listens, broadcast_lem}

module _ (W : World) (O : Outside) (D : Serde) where
  open W use {Ern, ern_discrete, Handle, handle_id}
  open D use {Message, Value}

  -- Nothing goes to IPC, because the type has no name there or the message cannot be serialized.
  abbrev pub IsKept : IpcTypeRegistry O D → BrokerRequest W O D → Option (Value × Begun O) → Type 0
  IsKept registry request forwarded =
      (forwarded ≡ none)
      × ((get_type_name_by_id O D registry request.message_type_id ≡ none)
          ⊎ ((e : SerializeError) × (serialize_by_type_id O D registry request.message_type_id
                  request.message
                ≡ err e)))

  -- The payload goes out under the type's name, at once to exactly the connections that listen to
  -- that name and need no authorization.
  abbrev pub IsForwarded :
      SubscriptionManager O
      → IpcTypeRegistry O D
      → BrokerRequest W O D
      → Option (Value × Begun O)
      → Type 0
  IsForwarded sub_mgr registry request forwarded =
      (name : Text) × (payload : Value) × (b : Begun O) × (forwarded ≡ some (payload, b))
      × (get_type_name_by_id O D registry request.message_type_id ≡ some name)
      × (serialize_by_type_id O D registry request.message_type_id request.message ≡ ok payload)
      × Distinct ℕ_discrete b.sent_to
      × ((id : ConnectionId)
          → (contains ℕ_discrete b.sent_to id ≡ true) ↔ (
              (info : ConnectionInfo O) × IsListening O sub_mgr name id info
              × (info.security ≡ none)))

  forwarded :
      (sub_mgr : SubscriptionManager O) (registry : IpcTypeRegistry O D)
      (request : BrokerRequest W O D) (outcome : ConnectionId → SendOutcome)
      → Consistent O sub_mgr
      → (o : Option Text) (r : Result SerializeError Value)
      → get_type_name_by_id O D registry request.message_type_id ≡ o
      → serialize_by_type_id O D registry request.message_type_id request.message ≡ r
      → IsKept registry request (forward_value W O D o r sub_mgr outcome)
        ⊎ IsForwarded sub_mgr registry request (forward_value W O D o r sub_mgr outcome)
  forwarded sub_mgr registry request outcome c none r name value = inl (refl, inl name)
  forwarded sub_mgr registry request outcome c (some n) (err e) name value =
      inl (refl, inr (e, value))
  forwarded sub_mgr registry request outcome c (some n) (ok payload) name value =
      let sends = begin_forward_lem O sub_mgr n outcome c in
      inr (n, payload, begin_forward O sub_mgr n outcome, refl, name, value, sends.0, sends.1)

  -- The handler of a broadcast, with IPC running, tells each local actor that is subscribed once, and
  -- then either nobody over IPC, because the type is not registered there or its serializer failed,
  -- or at once exactly the connections that listen to the registered name of the type and need no
  -- authorization, once each.
  pub handle_request_lem :
      (past : List (Event W O)) (sub_mgr : SubscriptionManager O) (registry : IpcTypeRegistry O D)
      (request : BrokerRequest W O D) (outcome : ConnectionId → SendOutcome)
      → Consistent O sub_mgr
      → let (local, remote) =
          handle_request W O D (after W O past) (some sub_mgr) registry request outcome in
        ((id : Ern)
          → contains ern_discrete (map (λ d. handle_id d.0) local) id
            ≡ listens W O past request.message_type_id id)
        × Distinct ern_discrete (map (λ d. handle_id d.0) local)
        × (IsKept registry request remote ⊎ IsForwarded sub_mgr registry request remote)
  unfolding handle_request forward_to_ipc
  handle_request_lem past sub_mgr registry request outcome c =
      let sends = broadcast_lem W O D past request in
      (sends.0, sends.1, forwarded sub_mgr registry request outcome c _ _ refl refl)
