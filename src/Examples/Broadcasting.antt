-- ===== src/Examples/Broadcasting.antt =====
-- A broker and a registry of types at work.
use acton_reactive.Shared.{
  ℕ, ◌≡◌, refl, ◌≢◌, some, List, [], ◌∷◌, map, contains, ◌⊎◌, Result, ok, err, ℕ_discrete,
}
use acton_reactive.Shared.Sets.{Distinct}
use acton_reactive.Examples.{small}
use acton_reactive.Examples.Subscribers.{plain, busy, busy-Consistent, all_sent, price}
use acton_reactive.Subscriptions.Patterns.{Text}
use acton_reactive.TypeRegistry.{
  Serde, MessageType, IpcTypeRegistry, new_registry, register_type, deserialize,
  get_type_name_by_id, serialize_by_type_id, as_serialization_error, as_serialize_error,
  register_type_lem,
}
use acton_reactive.Broker.{
  BrokerRequest, broadcast, handle_request, handle_subscribe, handle_unsubscribe,
  remove_subscription, remove_all_subscriptions,
}
use acton_reactive.Broker.Broadcasts.{
  Event, subscribes, unsubscribes, stops, after, listens, broadcast_lem,
}
use acton_reactive.Broker.Forwarded.{IsKept, IsForwarded, handle_request_lem}

-- Messages and values are numbers.
abbrev counting : Serde
counting = record { Message = ℕ; Value = ℕ; to_vec = λ n. ok (n ∷ []) }

abbrev first_byte : List ℕ → Result Text ℕ
first_byte [] = err []
first_byte (n ∷ rest) = ok n

abbrev quote : MessageType plain counting
quote = record { type_id = 5; type_name = 81 ∷ []; from_slice = first_byte; to_value = λ n. ok n }

abbrev registered : IpcTypeRegistry plain counting
registered = register_type plain counting (new_registry plain counting) quote price

abbrev request : BrokerRequest small plain counting
request = record { message = 9; message_type_id = 5 }

-- Actor 1 subscribes twice, actor 2 changes its mind, actor 3 stops.
abbrev asked_before : List (Event small plain)
asked_before =
    stops 3
    ∷ unsubscribes 2 5
    ∷ subscribes 3 5
    ∷ subscribes 2 5
    ∷ subscribes 1 5
    ∷ subscribes 1 5
    ∷ []

told : broadcast small plain counting (after small plain asked_before) request ≡ (1, 9) ∷ []
unfolding ℕ_discrete broadcast handle_subscribe handle_unsubscribe remove_subscription
    remove_all_subscriptions
told = refl

broadcast_lem_example :
    ((id : ℕ)
      → contains ℕ_discrete
          (map (λ d. d.0) (broadcast small plain counting (after small plain asked_before) request))
          id
        ≡ listens small plain asked_before 5 id)
    × Distinct ℕ_discrete
        (map (λ d. d.0) (broadcast small plain counting (after small plain asked_before) request))
    × (map (λ d. d.1) (broadcast small plain counting (after small plain asked_before) request)
        ≡ map (λ d. 9) (broadcast small plain counting (after small plain asked_before) request))
broadcast_lem_example = broadcast_lem small plain counting asked_before request

handle_request_lem_example :
    ((id : ℕ)
      → contains ℕ_discrete
          (map
            (λ d. d.0)
            (handle_request small plain counting
              (after small plain asked_before)
              (some busy)
              registered
              request
              all_sent).0)
          id
        ≡ listens small plain asked_before 5 id)
    × Distinct ℕ_discrete (
        map
          (λ d. d.0)
          (handle_request small plain counting
            (after small plain asked_before)
            (some busy)
            registered
            request
            all_sent).0)
    × (IsKept small plain counting registered request
          (handle_request small plain counting
            (after small plain asked_before)
            (some busy)
            registered
            request
            all_sent).1
        ⊎ IsForwarded small plain counting busy registered request
            (handle_request small plain counting
              (after small plain asked_before)
              (some busy)
              registered
              request
              all_sent).1)
handle_request_lem_example =
    handle_request_lem small plain counting asked_before busy registered request all_sent
      busy-Consistent

register_type_lem_example :
    ((bytes : List ℕ)
      → deserialize plain counting registered price bytes
        ≡ as_serialization_error (first_byte bytes))
    × (get_type_name_by_id plain counting registered 5 ≡ some price)
    × ((m : ℕ) → serialize_by_type_id plain counting registered 5 m ≡ as_serialize_error (ok m))
    × ((other : Text) (bytes : List ℕ)
        → price ≢ other
        → deserialize plain counting registered other bytes
          ≡ deserialize plain counting (new_registry plain counting) other bytes)
    × ((t : ℕ)
        → 5 ≢ t
        → get_type_name_by_id plain counting registered t
          ≡ get_type_name_by_id plain counting (new_registry plain counting) t)
    × ((t m : ℕ)
        → 5 ≢ t
        → serialize_by_type_id plain counting registered t m
          ≡ serialize_by_type_id plain counting (new_registry plain counting) t m)
register_type_lem_example =
    register_type_lem plain counting (new_registry plain counting) quote price
