-- ===== src/Subscriptions/Forwarding.antt =====
-- A forwarding from its beginning to its end, with other operations between its parts.
use acton_reactive.Shared.{
  ◌≡◌, refl, ◌∙◌, sym, ap, Bool, true, false, ◌&&◌, none, some, In, arith, contains, ℕ_discrete,
  Option-cases, inl, inr, ◌↔◌,
}
use acton_reactive.Shared.Table.{get}
use acton_reactive.Shared.Sets.{Distinct}
use acton_reactive.Subscriptions.Patterns.{Text, text_discrete}
use acton_reactive.Subscriptions.{
  ConnectionId, Outside, Route, ConnectionInfo, SubscriptionManager, connection, info_matches,
}
use acton_reactive.Subscriptions.Delivery.{
  SendOutcome, recipients, is_cancelled, candidate, visit, DeliveryCandidate, begin_forward,
  still_due, finish_candidate, is_session, is_route,
}
use acton_reactive.Subscriptions.Routes.{wants}
use acton_reactive.Subscriptions.Invariant.{Consistent}
use acton_reactive.Subscriptions.Cache.{recipients-IsAnswer, recipients-connections}
use acton_reactive.Subscriptions.Stamps.{Stamped, answer-Stamped}
use acton_reactive.Subscriptions.Sent.{is_direct, contains-directs, directs-Distinct, In-candidates}
use acton_reactive.Subscriptions.Steady.{begin_forward-Stamped, begin_forward-Consistent}
use acton_reactive.Subscriptions.System.{Reach, Reach-Stamped, Reach-keeps}

module _ (O : Outside) where
  -- A connection that is registered, not cancelled, and subscribed to a name.
  abbrev pub IsListening : SubscriptionManager O → Text → ConnectionId → ConnectionInfo O → Type 0
  IsListening m name id info =
      (connection O m id ≡ some info)
      × (info_matches O info name ≡ true)
      × (is_cancelled O m info ≡ false)

  visit_same :
      (m m' : SubscriptionManager O) (id : ConnectionId)
      → m'.connections ≡ m.connections
      → m'.cancelled ≡ m.cancelled
      → visit O m' id ≡ visit O m id
  unfolding visit
  visit_same m m' id conns cancelled = elim (Option-cases (connection O m id)) [
    | inl unknown ↦ rw (visit, conns, unknown) refl
    | inr (info, at) ↦ rw (visit, conns, at, cancelled) refl
  ]

  visit-recipients :
      (m : SubscriptionManager O) (name : Text) (id : ConnectionId)
      → visit O (recipients O m name).1 id ≡ visit O m id
  visit-recipients m name id =
      let same = recipients-connections O m name in
      visit_same m (recipients O m name).1 id same.0 same.1

  direct_lem :
      (m : SubscriptionManager O) (name : Text) (id : ConnectionId)
      → (wants O (connection O m id) name && is_direct O (visit O m id)) ≡ true
      → (info : ConnectionInfo O) × IsListening m name id info × (info.security ≡ none)
  unfolding visit
  direct_lem m name id h = elim (Option-cases (connection O m id)) [
    | inl unknown ↦ absurd (cc (sym (rw (unknown, visit) at h)))
    | inr (info, at) ↦ (info, (at, ground arith, ground arith), ground arith)
  ]

  direct_of_lem :
      (m : SubscriptionManager O) (name : Text) (id : ConnectionId) (info : ConnectionInfo O)
      → IsListening m name id info
      → info.security ≡ none
      → (wants O (connection O m id) name && is_direct O (visit O m id)) ≡ true
  unfolding visit
  direct_of_lem m name id info h open_ = rw (h.0, h.1, h.2, open_, visit) refl

  candidate_lem :
      (m : SubscriptionManager O) (name : Text) (c : DeliveryCandidate O)
      → wants O (connection O m c.conn_id) name ≡ true
      → visit O m c.conn_id ≡ candidate c
      → (info : ConnectionInfo O) × IsListening m name c.conn_id info
        × (info.security ≡ some (c.context, c.policy))
        × (info.incarnation ≡ c.incarnation)
  unfolding visit
  candidate_lem m name c w v = elim (Option-cases (connection O m c.conn_id)) [
    | inl unknown ↦ absurd (cc (sym (rw unknown at w)))
    | inr (info, at) ↦ (info, (at, ground arith, ground arith), ground arith, ground arith)
  ]

  candidate_of_lem :
      (m : SubscriptionManager O) (name : Text) (c : DeliveryCandidate O) (info : ConnectionInfo O)
      → IsListening m name c.conn_id info
      → info.security ≡ some (c.context, c.policy)
      → info.incarnation ≡ c.incarnation
      → (wants O (connection O m c.conn_id) name ≡ true) × (visit O m c.conn_id ≡ candidate c)
  unfolding visit
  candidate_of_lem m name c info h secure same =
      (rw h.0 h.1, rw (h.0, h.2, secure, same, visit) refl)

  -- The first part of a forwarding sends at once to exactly the connections that are registered,
  -- not cancelled, subscribed to the name, literally or by a pattern, and need no authorization,
  -- and once to each, however many of their subscriptions match; and it puts exactly those that are
  -- so but need an authorization on the list of candidates, with what they had at that time.
  pub begin_forward_lem :
      (m : SubscriptionManager O) (name : Text) (outcome : ConnectionId → SendOutcome)
      → Consistent O m
      → let b = begin_forward O m name outcome in
        Distinct ℕ_discrete b.sent_to
        × ((id : ConnectionId)
            → (contains ℕ_discrete b.sent_to id ≡ true)
              ↔ ((info : ConnectionInfo O) × IsListening m name id info × (info.security ≡ none)))
        × ((c : DeliveryCandidate O)
            → In c b.waiting ↔ (
                (info : ConnectionInfo O) × IsListening m name c.conn_id info
                × (info.security ≡ some (c.context, c.policy))
                × (info.incarnation ≡ c.incarnation)))
  unfolding begin_forward
  begin_forward_lem m name outcome consistent =
      let r = (recipients O m name).0 in
      let m' = (recipients O m name).1 in
      let answer = recipients-IsAnswer O m name consistent in
      let sends = λ (id : ConnectionId).
        contains-directs O m' r.ids id ∙ rw (answer.agree id, visit-recipients m name id) refl in
      (
        directs-Distinct O m' r.ids answer.distinct,
        λ id. (
          λ h. direct_lem m name id (sym (sends id) ∙ h),
          λ (info, listens, open_). sends id ∙ direct_of_lem m name id info listens open_,
        ),
        λ c. (
          λ h.
              let (asked, seen) = (In-candidates O m' r.ids c).0 h in
              candidate_lem m name c (sym (answer.agree c.conn_id) ∙ asked)
                (sym (visit-recipients m name c.conn_id) ∙ seen),
          λ (info, listens, secure, same).
              let (asked, seen) = candidate_of_lem m name c info listens secure same in
              (In-candidates O m' r.ids c).1
                (answer.agree c.conn_id ∙ asked, visit-recipients m name c.conn_id ∙ seen),
        ),
      )

  -- Where the route in the cache is still the same, its connections still want the name.
  shortcut :
      (u : SubscriptionManager O) (name : Text) (held : Route) (id : ConnectionId)
      → Consistent O u
      → Stamped O name held u
      → contains ℕ_discrete held.ids id ≡ true
      → is_route O held (get text_discrete name u.routes) ≡ true
      → wants O (connection O u id) name ≡ true
  shortcut u name held id consistent stamped asked same =
      elim (Option-cases (get text_discrete name u.routes)) [
        | inl gone ↦ absurd (cc (sym (rw gone at same)))
        | inr (r, at) ↦
            let e : r.ids ≡ held.ids = stamped.same r at (ground arith) in
            sym ((consistent.routes name r at).agree id)
            ∙ ap (λ ids. contains ℕ_discrete ids id) e
            ∙ asked
      ]

  still_due_lem :
      (u : SubscriptionManager O) (name : Text) (held : Route) (c : DeliveryCandidate O)
      → (is_route O held (get text_discrete name u.routes) ≡ true
          → wants O (connection O u c.conn_id) name ≡ true)
      → still_due O u name held c ≡ true
      → (info : ConnectionInfo O) × IsListening u name c.conn_id info
        × (info.incarnation ≡ c.incarnation)
        × (is_session O c.context info.security ≡ true)
  unfolding still_due
  still_due_lem u name held c short h = elim (Option-cases (connection O u c.conn_id)) [
    | inl unknown ↦ absurd (cc (sym (rw (unknown, still_due) at h)))
    | inr (info, at) ↦
        let due = rw (at, still_due) at h in
        let short' = rw at at short in
        (info, (at, ground arith, ground arith), ground arith, ground arith)
  ]

  still_due_of_lem :
      (u : SubscriptionManager O) (name : Text) (held : Route) (c : DeliveryCandidate O)
      (info : ConnectionInfo O)
      → IsListening u name c.conn_id info
      → info.incarnation ≡ c.incarnation
      → is_session O c.context info.security ≡ true
      → still_due O u name held c ≡ true
  unfolding still_due
  still_due_of_lem u name held c info h same session = rw (h.0, still_due) (ground arith)

  finished :
      (u : SubscriptionManager O) (name : Text) (held : Route) (c : DeliveryCandidate O)
      (authorized : Bool) (outcome : SendOutcome)
      → (finish_candidate O u name held c authorized outcome).0
        ≡ (authorized && still_due O u name held c)
  unfolding finish_candidate
  finished u name held c authorized outcome = ground arith

  -- A candidate of a forwarding gets the notification, whatever operations came in between, exactly
  -- if the policy allows it and the connection is, at that moment, registered under the same
  -- incarnation and session, not cancelled, and subscribed to the name; also where the code takes
  -- the unchanged route of the cache for that.
  pub finish_candidate_lem :
      (m u : SubscriptionManager O) (name : Text) (outcome : ConnectionId → SendOutcome)
      (c : DeliveryCandidate O) (authorized : Bool) (answer : SendOutcome)
      → Consistent O m
      → let b = begin_forward O m name outcome in
        In c b.waiting
        → Reach O b.manager u
        → ((finish_candidate O u name b.route c authorized answer).0 ≡ true) ↔ (
            (authorized ≡ true)
            × ((info : ConnectionInfo O) × IsListening u name c.conn_id info
                × (info.incarnation ≡ c.incarnation)
                × (is_session O c.context info.security ≡ true)))
  unfolding begin_forward
  finish_candidate_lem m u name outcome c authorized answer consistent waits steps =
      let b = begin_forward O m name outcome in
      let stamped =
        Reach-Stamped O name b.route b.manager u
          (begin_forward-Stamped O m name name outcome b.route (answer-Stamped O m name consistent))
          steps in
      let later =
        Reach-keeps O b.manager u (begin_forward-Consistent O m name outcome consistent) steps in
      let asked = ((In-candidates O (recipients O m name).1 b.route.ids c).0 waits).0 in
      let result = finished u name b.route c authorized answer in
      (
        λ h.
            let both = and_cases authorized (still_due O u name b.route c) (sym result ∙ h) in
            (
              both.0,
              still_due_lem u name b.route c (shortcut u name b.route c.conn_id later stamped asked)
                  both.1,
            ),
        λ (allowed, (info, listens, same, session)).
            result ∙ rw (allowed, still_due_of_lem u name b.route c info listens same session) refl,
      )
    where
      and_cases : (a b : Bool) → (a && b) ≡ true → (a ≡ true) × (b ≡ true)
      and_cases true b h = (refl, h)
      and_cases false b h = absurd (cc h)
