-- ===== src/Subscriptions/Delivery.antt =====
-- `recipients`, `forward_to_subscribers` and `send_notification` of
-- acton-reactive/src/common/ipc/subscription_manager.rs. Forwarding runs in parts, and the lock of
-- the state is free between them: the first sends to connections that need no authorization and
-- lists the others as candidates; then, for each candidate, the policy answers, and a last part
-- checks again and sends. The answers of queues and policies are arguments.
use acton_reactive.Shared.{
  ℕ, ◌+◌, Bool, true, false, not, ◌&&◌, ◌||◌, Option, none, some, List, [], ◌∷◌, ◌++◌, leb, ◌==◌,
  length, contains, is_some, if◌then◌else◌, ℕ_discrete,
}
use acton_reactive.Shared.Table.{get, put, remove}
use acton_reactive.Shared.Sets.{insert_all}
use acton_reactive.Subscriptions.Patterns.{Text, text_discrete, SubscriptionPattern, matches}
use acton_reactive.Subscriptions.{
  ConnectionId, SubscriptionStats, fetch_add, Outside, or_empty, Route, IpcConnectionContext,
  same_session, ConnectionInfo, info_matches, SubscriptionManager, connection,
}

-- What `try_send` answers.
pub data SendOutcome : Type 0 where
  sent full closed : SendOutcome

unfoldable pub matching :
    List (SubscriptionPattern × List ConnectionId) → Text → List ConnectionId → List ConnectionId
matching [] name ids = ids
matching ((pattern, subscribers) ∷ patterns) name ids =
    matching patterns name
      (if matches pattern name then insert_all ℕ_discrete subscribers ids else ids)

abbrev pub route_limit : ℕ
route_limit = 1024

-- An entry is dropped from a full cache; which one is not specified, here it is the first.
unfoldable pub evict : List (Text × Route) → List (Text × Route)
evict [] = []
evict ((name, route) ∷ routes) = remove text_discrete name ((name, route) ∷ routes)

unfoldable pub make_room : Text → List (Text × Route) → List (Text × Route)
unfolding evict
make_room name routes =
    if leb route_limit (length routes) && not (is_some (get text_discrete name routes))
    then evict routes
    else routes

module _ (O : Outside) where
  open O use {PushSender, Policy}

  unfoldable pub computed_ids : SubscriptionManager O → Text → List ConnectionId
  computed_ids m name = matching m.patterns name (or_empty (get text_discrete name m.exact))

  -- A route that was just computed.
  unfoldable pub remember : SubscriptionManager O → Text → Route → SubscriptionManager O
  remember m name route =
      if leb (length name) 256
      then record m { routes = put text_discrete name route (make_room name m.routes) }
      else m

  unfoldable pub recipients : SubscriptionManager O → Text → Route × SubscriptionManager O
  unfolding remember computed_ids
  recipients m name = elim (get text_discrete name m.routes) [
    | some route ↦ (route, m)
    | none ↦
        let route : Route = record { stamp = m.next_id; ids = computed_ids m name } in
        (route, remember (record m { next_id = m.next_id + 1 }) name route)
  ]

  pub record DeliveryCandidate : Type 0 where
    pub conn_id : ConnectionId
    pub incarnation : ℕ
    pub context : IpcConnectionContext O
    pub policy : Policy

  abbrev pub is_cancelled : SubscriptionManager O → ConnectionInfo O → Bool
  is_cancelled m info = contains ℕ_discrete m.cancelled info.cancellation

  abbrev pub count_outcome : SendOutcome → SubscriptionStats → SubscriptionStats
  count_outcome sent stats = record stats {
    push_notifications_sent = fetch_add stats.push_notifications_sent 1;
  }
  count_outcome full stats = record stats {
    push_notifications_dropped = fetch_add stats.push_notifications_dropped 1;
  }
  count_outcome closed stats = record stats {
    push_notifications_dropped = fetch_add stats.push_notifications_dropped 1;
  }

  unfoldable pub send_notification : SubscriptionManager O → SendOutcome → SubscriptionManager O
  send_notification m outcome = record m { stats = count_outcome outcome m.stats }

  -- What one recipient is in for: nothing, a notification now, or the question to its policy.
  pub data Visit : Type 0 where
    skipped : Visit
    direct : Visit
    candidate : DeliveryCandidate → Visit

  abbrev pub visit_info : SubscriptionManager O → ConnectionId → ConnectionInfo O → Visit
  visit_info m id info = if is_cancelled m info then skipped else elim info.security [
    | none ↦ direct
    | some (context, policy) ↦ candidate (record {
      conn_id = id;
      incarnation = info.incarnation;
      context = context;
      policy = policy;
    })
  ]

  unfoldable pub visit : SubscriptionManager O → ConnectionId → Visit
  visit m id = elim (connection O m id) [ none ↦ skipped | some info ↦ visit_info m id info ]

  abbrev pub direct_of : Visit → ConnectionId → List ConnectionId
  direct_of direct id = id ∷ []
  direct_of _ id = []

  abbrev pub candidate_of : Visit → List DeliveryCandidate
  candidate_of (candidate c) = c ∷ []
  candidate_of _ = []

  -- The loop over the recipients: whom a notification is sent to, and the candidates.
  unfoldable pub directs : SubscriptionManager O → List ConnectionId → List ConnectionId
  unfolding visit
  directs m [] = []
  directs m (id ∷ ids) = direct_of (visit m id) id ++ directs m ids

  unfoldable pub candidates : SubscriptionManager O → List ConnectionId → List DeliveryCandidate
  unfolding visit
  candidates m [] = []
  candidates m (id ∷ ids) = candidate_of (visit m id) ++ candidates m ids

  unfoldable pub send_all :
      (ConnectionId → SendOutcome)
      → List ConnectionId
      → SubscriptionManager O
      → SubscriptionManager O
  unfolding send_notification
  send_all outcome [] m = m
  send_all outcome (id ∷ ids) m = send_all outcome ids (send_notification m (outcome id))

  -- The first part, up to `drop(state)`.
  pub record Begun : Type 0 where
    pub route : Route
    pub waiting : List DeliveryCandidate
    pub sent_to : List ConnectionId
    pub manager : SubscriptionManager O

  unfoldable pub begin_forward : SubscriptionManager O → Text → (ConnectionId → SendOutcome) → Begun
  unfolding recipients directs candidates send_all
  begin_forward m name outcome =
      let (route, m') = recipients m name in
      let to = directs m' route.ids in
      record {
        route = route;
        waiting = candidates m' route.ids;
        sent_to = to;
        manager = send_all outcome to m';
      }

  abbrev pub is_route : Route → Option Route → Bool
  is_route route none = false
  is_route route (some current) = current.stamp == route.stamp

  abbrev pub is_session : IpcConnectionContext O → Option (IpcConnectionContext O × Policy) → Bool
  is_session context none = false
  is_session context (some (current, policy)) = same_session O current context

  -- Whether a candidate that the policy accepted still gets the notification.
  unfoldable pub still_due : SubscriptionManager O → Text → Route → DeliveryCandidate → Bool
  still_due m name route c = elim (connection O m c.conn_id) [
    | none ↦ false
    | some info ↦
        info.incarnation == c.incarnation
        && (is_session c.context info.security
            && (not (is_cancelled m info)
                && (is_route route (get text_discrete name m.routes) || info_matches O info name)))
  ]

  -- The part that follows the answer of the policy: whether a notification is sent, and the state.
  unfoldable pub finish_candidate :
      SubscriptionManager O
      → Text
      → Route
      → DeliveryCandidate
      → Bool
      → SendOutcome
      → Bool × SubscriptionManager O
  unfolding still_due send_notification
  finish_candidate m name route c authorized outcome =
      if not authorized
      then (
        false,
        record m {
          stats = record m.stats {
            push_notifications_dropped = fetch_add m.stats.push_notifications_dropped 1;
          };
        },
      )
      else if still_due m name route c
      then (true, send_notification m outcome)
      else (false, m)
