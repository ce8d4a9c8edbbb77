-- ===== src/Examples/Subscribers.antt =====
-- A subscription manager at work: connection 7 needs no authorization, connection 8 does.
use acton_reactive.Shared.{
  ℕ, ◌<◌, ◌≤◌, ◌≡◌, refl, ◌↔◌, true, false, ◌&&◌, ◌||◌, not, none, some, List, [], ◌∷◌, ◌++◌,
  ℕ_discrete, In, inl, ◌⊎◌, ok, err, decide, is_some, contains, length,
}
use acton_reactive.Shared.Sets.{Distinct}
use acton_reactive.Subscriptions.Patterns.{
  Text, text_discrete, SubscriptionPattern, try_from, matches, has_star, strip_suffix,
  pattern_discrete, starts_with, collect_patterns, validate_patterns, PatternSubscriptionError,
  sorted_patterns, insert_sorted, text_le, star, invalid_pattern,
}
use acton_reactive.Subscriptions.{
  ConnectionId, Outside, IpcConnectionContext, ConnectionInfo, SubscriptionManager, connection, new,
  choose_all, choose_one, add_index, is_nil,
}
use acton_reactive.Subscriptions.Connections.{
  register_connection, register_connection_with_token, register_authenticated_connection,
  insert_connection, remove_connection, revoke_connection,
}
use acton_reactive.Subscriptions.Changes.{
  subscribe, unsubscribe, subscribe_patterns, unsubscribe_patterns, add_patterns,
}
use acton_reactive.Subscriptions.Delivery.{
  SendOutcome, sent, DeliveryCandidate, begin_forward, finish_candidate, recipients, computed_ids,
  matching, remember, make_room, directs, candidates, visit, is_session,
}
use acton_reactive.Subscriptions.Invariant.{Consistent}
use acton_reactive.Subscriptions.Routes.{names_of}
use acton_reactive.Subscriptions.System.{
  registers, registers_authenticated, subscribes, subscribes_patterns, Reach, here, next,
  Reach-Consistent,
}
use acton_reactive.Subscriptions.Forwarding.{IsListening, begin_forward_lem, finish_candidate_lem}
use acton_reactive.Subscriptions.Revocation.{revoked_candidate_not_told}
use acton_reactive.Subscriptions.Selectors.{IsSelector, try_from-matches}
use acton_reactive.Subscriptions.Effects.{has_name, has_pattern, subscribe_lem}
use acton_reactive.Subscriptions.Unsubscribing.{unsubscribe_lem}
use acton_reactive.Subscriptions.Batches.{
  IsRefused, Unfit, Exceeds, IsAdded, subscribe_patterns_lem,
}
use acton_reactive.Subscriptions.Withdrawals.{IsTaken, unsubscribe_patterns_lem}

-- Numbers in place of queues, identities, policies and identifiers of types.
abbrev pub plain : Outside
plain = record {
  PushSender = ℕ;
  Identity = ℕ;
  Policy = ℕ;
  TypeId = ℕ;
  type_id_discrete = ℕ_discrete;
}

abbrev pub price : Text
price = 112 ∷ 46 ∷ 97 ∷ []

abbrev prices : Text
prices = 112 ∷ 46 ∷ 42 ∷ []

abbrev context : IpcConnectionContext plain
context = record { session = 3; peer = none; identity = 1; cancellation = 50 }

abbrev with_one : SubscriptionManager plain
with_one = register_connection plain (new plain) 7 70 none

abbrev with_two : SubscriptionManager plain
with_two = register_authenticated_connection plain with_one 8 80 context 0

abbrev with_name : SubscriptionManager plain
with_name = (subscribe plain with_two 7 (price ∷ [])).0

abbrev pub busy : SubscriptionManager plain
busy = (subscribe_patterns plain with_name 8 (prices ∷ [])).0

busy_reached : Reach plain (new plain) busy
busy_reached =
    next
      (next (next (next here (registers 7 70 none)) (registers_authenticated 8 80 context 0))
        (subscribes 7 (price ∷ [])))
      (subscribes_patterns 8 (prices ∷ []))

abbrev pub all_sent : ConnectionId → SendOutcome
all_sent id = sent

abbrev asked : DeliveryCandidate plain
asked = record { conn_id = 8; incarnation = 2; context = context; policy = 0 }

asked_waits : In asked (begin_forward plain busy price all_sent).waiting
unfolding ℕ_discrete text_discrete pattern_discrete try_from strip_suffix has_star collect_patterns
    validate_patterns starts_with matches choose_all choose_one add_index register_connection
    register_connection_with_token register_authenticated_connection insert_connection
    remove_connection subscribe subscribe_patterns begin_forward recipients computed_ids matching
    remember make_room directs candidates visit
asked_waits = inl refl

pub busy-Consistent : Consistent plain busy
busy-Consistent = Reach-Consistent plain busy busy_reached

Reach-Consistent_example : Consistent plain busy
Reach-Consistent_example = Reach-Consistent plain busy busy_reached

finish_candidate_lem_example :
    ((finish_candidate plain
        (begin_forward plain busy price all_sent).manager
        price
        (begin_forward plain busy price all_sent).route
        asked
        true
        sent).0
      ≡ true)
    ↔ ((true ≡ true)
        × ((info : ConnectionInfo plain) × IsListening plain
              (begin_forward plain busy price all_sent).manager
              price
              8
              info
            × (info.incarnation ≡ 2)
            × (is_session plain context info.security ≡ true)))
finish_candidate_lem_example =
    finish_candidate_lem plain busy (begin_forward plain busy price all_sent).manager price all_sent
      asked true sent busy-Consistent asked_waits here

revoked_candidate_not_told_example :
    (finish_candidate plain
      (register_authenticated_connection plain
        (revoke_connection plain (begin_forward plain busy price all_sent).manager 8).0
        8
        81
        context
        0)
      price
      (begin_forward plain busy price all_sent).route
      asked
      true
      sent).0
    ≡ false
revoked_candidate_not_told_example =
    revoked_candidate_not_told plain busy (begin_forward plain busy price all_sent).manager _ price
      all_sent asked true sent busy_reached asked_waits here
      (next here (registers_authenticated 8 81 context 0))

-- In the first part connection 7 is sent to, and connection 8 is left for its policy.
first_part : (begin_forward plain busy price all_sent).sent_to ≡ 7 ∷ []
unfolding ℕ_discrete text_discrete pattern_discrete try_from strip_suffix has_star collect_patterns
    validate_patterns starts_with matches choose_all choose_one add_index register_connection
    register_connection_with_token register_authenticated_connection insert_connection
    remove_connection subscribe subscribe_patterns begin_forward recipients computed_ids matching
    remember make_room directs candidates visit
first_part = refl

begin_forward_lem_example :
    Distinct ℕ_discrete (begin_forward plain busy price all_sent).sent_to
    × ((id : ConnectionId)
        → (contains ℕ_discrete (begin_forward plain busy price all_sent).sent_to id ≡ true) ↔ (
            (info : ConnectionInfo plain) × IsListening plain busy price id info
            × (info.security ≡ none)))
    × ((c : DeliveryCandidate plain)
        → In c (begin_forward plain busy price all_sent).waiting ↔ (
            (info : ConnectionInfo plain) × IsListening plain busy price c.conn_id info
            × (info.security ≡ some (c.context, c.policy))
            × (info.incarnation ≡ c.incarnation)))
begin_forward_lem_example = begin_forward_lem plain busy price all_sent busy-Consistent

try_from-matches_example :
    ((p : SubscriptionPattern) × (prefix : Text) × (try_from prices ≡ ok p)
      × IsSelector prices prefix
      × (length prices ≤ 256)
      × ((name : Text) → (matches p name ≡ true) ↔ ((rest : Text) × (name ≡ prefix ++ rest))))
    ⊎ ((e : PatternSubscriptionError) × (try_from prices ≡ err e)
        × ((prefix : Text) → IsSelector prices prefix → 256 < length prices))
try_from-matches_example = try_from-matches prices

subscribe_lem_example :
    ((j : ConnectionId) (name : Text)
      → has_name plain with_name j name ≡ (
          has_name plain with_two j name
          || (decide (ℕ_discrete 7 j)
              && (is_some (connection plain with_two 7)
                  && contains text_discrete (price ∷ []) name))))
    × ((j : ConnectionId) (p : SubscriptionPattern)
        → has_pattern plain with_name j p ≡ has_pattern plain with_two j p)
    × ((subscribe plain with_two 7 (price ∷ [])).1 ≡ names_of plain (connection plain with_name 7))
subscribe_lem_example = subscribe_lem plain with_two 7 (price ∷ [])

abbrev no_names : List Text
no_names = []

abbrev silenced : SubscriptionManager plain
silenced = (unsubscribe plain busy 8 no_names).0

unsubscribe_lem_example :
    ((j : ConnectionId) (name : Text)
      → has_name plain silenced j name ≡ (
          has_name plain busy j name
          && not (
              decide (ℕ_discrete 8 j)
              && (is_nil no_names || contains text_discrete no_names name))))
    × ((j : ConnectionId) (p : SubscriptionPattern)
        → has_pattern plain silenced j p
          ≡ (has_pattern plain busy j p && not (decide (ℕ_discrete 8 j) && is_nil no_names)))
    × ((unsubscribe plain busy 8 no_names).1 ≡ names_of plain (connection plain silenced 8))
unsubscribe_lem_example = unsubscribe_lem plain busy 8 no_names

subscribe_patterns_lem_example :
    IsRefused plain
      (λ e. Unfit plain e busy 7 (prices ∷ []) ⊎ Exceeds plain e busy 7 (prices ∷ []))
      busy
      (subscribe_patterns plain busy 7 (prices ∷ []))
    ⊎ IsAdded plain busy 7 (prices ∷ []) (subscribe_patterns plain busy 7 (prices ∷ []))
subscribe_patterns_lem_example = subscribe_patterns_lem plain busy 7 (prices ∷ []) busy-Consistent

unsubscribe_patterns_lem_example :
    IsRefused plain
      (λ e. Unfit plain e busy 8 (prices ∷ []))
      busy
      (unsubscribe_patterns plain busy 8 (prices ∷ []))
    ⊎ IsTaken plain busy 8 (prices ∷ []) (unsubscribe_patterns plain busy 8 (prices ∷ []))
unsubscribe_patterns_lem_example =
    unsubscribe_patterns_lem plain busy 8 (prices ∷ []) busy-Consistent

-- A reply is in dictionary order, and one bad text refuses the batch.
sorted_reply :
    (subscribe_patterns plain busy 8 ((97 ∷ star ∷ []) ∷ [])).1
    ≡ ok ((97 ∷ star ∷ []) ∷ prices ∷ [])
unfolding ℕ_discrete text_discrete pattern_discrete try_from strip_suffix has_star collect_patterns
    validate_patterns starts_with matches choose_all choose_one add_index register_connection
    register_connection_with_token register_authenticated_connection insert_connection
    remove_connection subscribe subscribe_patterns add_patterns sorted_patterns insert_sorted
    text_le
sorted_reply = refl

refused_reply : (subscribe_patterns plain busy 8 (prices ∷ price ∷ [])).1 ≡ err invalid_pattern
unfolding ℕ_discrete text_discrete pattern_discrete try_from strip_suffix has_star collect_patterns
    validate_patterns starts_with matches choose_all choose_one add_index register_connection
    register_connection_with_token register_authenticated_connection insert_connection
    remove_connection subscribe subscribe_patterns add_patterns
refused_reply = refl
