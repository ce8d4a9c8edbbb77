-- ===== src/Subscriptions/Revocation.antt =====
-- What revoking a connection does to the notifications that are on their way to it.
use acton_reactive.Shared.{
  ℕ, ◌+◌, ◌≤◌, ◌<◌, ◌≡◌, refl, ◌≢◌, ◌∙◌, sym, ap, Bool, false, some, arith, In, Option-cases, inl,
  inr,
}
use acton_reactive.Subscriptions.Patterns.{Text}
use acton_reactive.Subscriptions.{
  ConnectionId, Outside, Route, SubscriptionManager, connection, new,
}
use acton_reactive.Subscriptions.Connections.{
  register_connection, register_connection_with_token, register_authenticated_connection,
  revoke_connection, register_type_mapping,
}
use acton_reactive.Subscriptions.Delivery.{
  SendOutcome, recipients, DeliveryCandidate, begin_forward, finish_candidate, directs, still_due,
}
use acton_reactive.Subscriptions.Cache.{recipients-connections}
use acton_reactive.Subscriptions.Steady.{send_all-SameTables, finish-SameTables}
use acton_reactive.Subscriptions.System.{
  Step, registers, registers_with_token, registers_authenticated, unregisters, revokes, subscribes,
  unsubscribes, subscribes_patterns, unsubscribes_patterns, maps_type, begins, finishes, cancels,
  Reach, here, next, Reach-Consistent,
}
use acton_reactive.Subscriptions.Forwarding.{begin_forward_lem}
use acton_reactive.Subscriptions.Incarnations.{
  incarnation_of, Renews, Same-Renews, insert_connection-Renews, unregister-Renews,
  subscribe-Renews, unsubscribe-Renews, unregister-gone, subscribe_patterns-Renews,
  unsubscribe_patterns-Renews,
}

module _ (O : Outside) where
  begin_forward-Renews :
      (m : SubscriptionManager O) (name : Text) (outcome : ConnectionId → SendOutcome)
      → Renews O m (begin_forward O m name outcome).manager
  unfolding begin_forward
  begin_forward-Renews m name outcome =
      let r = recipients O m name in
      let same = recipients-connections O m name in
      let sent = send_all-SameTables O outcome (directs O r.1 r.0.ids) r.1 in
      Same-Renews O m _ (sent.connections ∙ same.0) (omega (arith, sent.next_id, same.2))

  Step-Renews : {m m' : SubscriptionManager O} → Step O m m' → Renews O m m'
  unfolding register_connection register_connection_with_token register_authenticated_connection
      revoke_connection register_type_mapping
  Step-Renews {m} (registers id sender peer) =
      insert_connection-Renews O m (m.next_id + 1 + 1) id _ (omega arith) (omega arith)
  Step-Renews {m} (registers_with_token id sender peer token) =
      insert_connection-Renews O m (m.next_id + 1) id _ (omega arith) (omega arith)
  Step-Renews {m} (registers_authenticated id sender context policy) =
      insert_connection-Renews O m (m.next_id + 1) id _ (omega arith) (omega arith)
  Step-Renews {m} (unregisters id) = unregister-Renews O m id
  Step-Renews {m} (revokes id) = unregister-Renews O m id
  Step-Renews {m} (subscribes id names) = subscribe-Renews O m id names
  Step-Renews {m} (unsubscribes id names) = unsubscribe-Renews O m id names
  Step-Renews {m} (subscribes_patterns id values) = subscribe_patterns-Renews O m id values
  Step-Renews {m} (unsubscribes_patterns id values) = unsubscribe_patterns-Renews O m id values
  Step-Renews {m} (maps_type type_id k) = Same-Renews O m _ refl (omega arith)
  Step-Renews {m} (begins k outcome) = begin_forward-Renews m k outcome
  Step-Renews {m} (finishes k route d authorized outcome) =
      let same = finish-SameTables O m k route d authorized outcome in
      Same-Renews O m _ same.connections (omega (arith, same.next_id))
  Step-Renews {m} (cancels token) = Same-Renews O m _ refl (omega arith)

  -- An incarnation that a connection does not have, and never will again.
  record IsOver (id : ConnectionId) (i : ℕ) (m : SubscriptionManager O) : Type 0 where
    pub old : i < m.next_id
    pub gone : incarnation_of O (connection O m id) ≢ some i

  Reach-IsOver :
      (id : ConnectionId) (i : ℕ) (m u : SubscriptionManager O)
      → IsOver id i m
      → Reach O m u
      → IsOver id i u
  Reach-IsOver id i m u h here = h
  Reach-IsOver id i m u h (next {u = t} r s) =
      let before = Reach-IsOver id i m t h r in
      let step = Step-Renews s in
      record {
        old = omega (arith, before.old, step.grows);
        gone = λ e. elim (step.each id) [
          | inl same ↦ before.gone (sym same ∙ e)
          | inr (inl none_) ↦ cc (sym none_ ∙ e)
          | inr (inr (k, at, least, most)) ↦
              let eq : k ≡ i = cc (sym at ∙ e) in omega (arith, before.old, least, eq)
        ];
      }

  Reach-old :
      (m u : SubscriptionManager O) (id : ConnectionId) (i : ℕ)
      → ((j : ConnectionId) (k : ℕ) → incarnation_of O (connection O m j) ≡ some k → k < m.next_id)
      → Reach O m u
      → incarnation_of O (connection O u id) ≡ some i
      → i < u.next_id
  Reach-old m u id i h here at = h id i at
  Reach-old m u id i h (next {u = t} r s) at =
      let step = Step-Renews s in
      elim (step.each id) [
        | inl same ↦ omega (arith, step.grows, Reach-old m t id i h r (sym same ∙ at))
        | inr (inl none_) ↦ absurd (cc (sym none_ ∙ at))
        | inr (inr (k, at', least, most)) ↦
            let eq : k ≡ i = cc (sym at' ∙ at) in omega (arith, most, eq)
      ]

  Reach-grows : (m u : SubscriptionManager O) → Reach O m u → m.next_id ≤ u.next_id
  Reach-grows m u here = omega arith
  Reach-grows m u (next {u = t} r s) =
      let step = Step-Renews s in omega (arith, step.grows, Reach-grows m t r)

  not_due :
      (u : SubscriptionManager O) (name : Text) (route : Route) (c : DeliveryCandidate O)
      → incarnation_of O (connection O u c.conn_id) ≢ some c.incarnation
      → still_due O u name route c ≡ false
  unfolding still_due
  not_due u name route c gone = elim (Option-cases (connection O u c.conn_id)) [
    | inl unknown ↦ rw (unknown, still_due) refl
    | inr (info, at) ↦
        let ne : info.incarnation ≢ c.incarnation =
          λ e. gone (ap (incarnation_of O) at ∙ ap (λ i. some i) e) in
        rw (at, still_due) (ground arith)
  ]

  -- When a connection is revoked, no forwarding that was under way, however far its policy has come,
  -- sends anything to it any more: not after any further operations, and not when the same number
  -- was registered again in between, even for the same session.
  pub revoked_candidate_not_told :
      (m v u : SubscriptionManager O) (name : Text) (outcome : ConnectionId → SendOutcome)
      (c : DeliveryCandidate O) (authorized : Bool) (answer : SendOutcome)
      → Reach O (new O) m
      → let b = begin_forward O m name outcome in
        In c b.waiting
        → Reach O b.manager v
        → Reach O (revoke_connection O v c.conn_id).0 u
        → (finish_candidate O u name b.route c authorized answer).0 ≡ false
  unfolding finish_candidate revoke_connection
  revoked_candidate_not_told m v u name outcome c authorized answer start waits meanwhile later =
      let b = begin_forward O m name outcome in
      let (info, listens, secure, same) =
        ((begin_forward_lem O m name outcome (Reach-Consistent O m start)).2 c).0 waits in
      let had : incarnation_of O (connection O m c.conn_id) ≡ some c.incarnation =
        ap (incarnation_of O) listens.0 ∙ ap (λ i. some i) same in
      let old = Reach-old (new O) m c.conn_id c.incarnation (λ j k e. absurd (cc e)) start had in
      let begun = begin_forward-Renews m name outcome in
      let revoked = unregister-Renews O v c.conn_id in
      let over : IsOver c.conn_id c.incarnation (revoke_connection O v c.conn_id).0 = record {
        old = omega (arith, old, begun.grows, Reach-grows b.manager v meanwhile, revoked.grows);
        gone = λ e. cc (sym (ap (incarnation_of O) (unregister-gone O v c.conn_id)) ∙ e);
      } in
      let after = Reach-IsOver c.conn_id c.incarnation _ u over later in
      let silent = not_due u name b.route c after.gone in rw silent ground arith
