-- ===== src/Subscriptions/Incarnations.antt =====
-- Incarnations: what a connection's number is after an operation, and that no number comes back.
use acton_reactive.Shared.{
  ℕ, ◌≤◌, ◌<◌, ◌≡◌, refl, ◌∙◌, sym, ap, subst, Option, none, some, List, arith, ℕ_discrete,
  Option-cases, Bool-cases, inl, inr, ◌⊎◌, Result, ok, err, ltb, length,
}
use acton_reactive.Shared.Table.{get, put, remove}
use acton_reactive.Shared.Sets.{insert_all, at_put}
use acton_reactive.Shared.Table.{get-put_self, get-put_ne, get-remove_self, get-remove_ne}
use acton_reactive.Subscriptions.Patterns.{
  Text, SubscriptionPattern, pattern_discrete, validate_patterns, PatternSubscriptionError,
}
use acton_reactive.Subscriptions.{
  ConnectionId, Outside, ConnectionInfo, SubscriptionManager, connection, is_nil,
}
use acton_reactive.Subscriptions.Connections.{
  remove_connection, insert_connection, unregister_connection,
}
use acton_reactive.Subscriptions.Changes.{
  subscribe, unsubscribe, subscribe_patterns, unsubscribe_patterns, with_validated, add_patterns,
  take_patterns, take_selected,
}

module _ (O : Outside) where
  abbrev pub incarnation_of : Option (ConnectionInfo O) → Option ℕ
  incarnation_of none = none
  incarnation_of (some info) = some info.incarnation

  -- The incarnation of one connection after an operation: as before, none, or a new one.
  abbrev pub Renewed : ℕ → ℕ → Option ℕ → Option ℕ → Type 0
  Renewed n n' before after =
      (after ≡ before) ⊎ ((after ≡ none) ⊎ ((i : ℕ) × (after ≡ some i) × (n ≤ i) × (i < n')))

  pub record Renews (m m' : SubscriptionManager O) : Type 0 where
    pub grows : m.next_id ≤ m'.next_id
    pub each :
        (j : ConnectionId)
        → Renewed m.next_id m'.next_id
            (incarnation_of (connection O m j))
            (incarnation_of (connection O m' j))

  put-incarnation :
      (m : SubscriptionManager O) (id j : ConnectionId) (info info' : ConnectionInfo O)
      → connection O m id ≡ some info
      → info'.incarnation ≡ info.incarnation
      → incarnation_of (get ℕ_discrete j (put ℕ_discrete id info' m.connections))
        ≡ incarnation_of (connection O m j)
  put-incarnation m id j info info' at same =
      at_put ℕ_discrete id j info' m.connections incarnation_of _
        (λ e.
          ap (λ i. some i) same
          ∙ ap incarnation_of (sym at)
          ∙ ap (λ x. incarnation_of (connection O m x)) e)
        (λ ne. refl)

  remove-Renewed :
      (n n' : ℕ) (id j : ConnectionId) (conns : List (ConnectionId × ConnectionInfo O))
      → Renewed n n'
          (incarnation_of (get ℕ_discrete j conns))
          (incarnation_of (get ℕ_discrete j (remove ℕ_discrete id conns)))
  remove-Renewed n n' id j conns = elim (ℕ_discrete id j) [
    | yes e ↦ inr (
        inl (
          subst (λ x. incarnation_of (get ℕ_discrete x (remove ℕ_discrete id conns)) ≡ none) e
            (ap incarnation_of (get-remove_self ℕ_discrete id conns))))
    | no ne ↦ inl (ap incarnation_of (get-remove_ne ℕ_discrete id j conns ne))
  ]

  new-Renewed :
      (n n' : ℕ) (id j : ConnectionId) (info : ConnectionInfo O)
      (conns : List (ConnectionId × ConnectionInfo O)) (before : Option ℕ)
      → n ≤ info.incarnation
      → info.incarnation < n'
      → Renewed n n' before (incarnation_of (get ℕ_discrete j conns))
      → Renewed n n' before (incarnation_of (get ℕ_discrete j (put ℕ_discrete id info conns)))
  new-Renewed n n' id j info conns before least most h = elim (ℕ_discrete id j) [
    | yes e ↦ inr (
        inr (
          info.incarnation,
          subst
              (λ x.
                incarnation_of (get ℕ_discrete x (put ℕ_discrete id info conns))
                ≡ some info.incarnation)
              e (ap incarnation_of (get-put_self ℕ_discrete id info conns)),
          least,
          most,
        ))
    | no ne ↦
        subst (Renewed n n' before)
          (ap incarnation_of (sym (get-put_ne ℕ_discrete id j info conns ne))) h
  ]

  remove_connection-Renewed :
      (m : SubscriptionManager O) (n n' : ℕ) (id j : ConnectionId)
      → Renewed n n'
          (incarnation_of (connection O m j))
          (incarnation_of (connection O (remove_connection O m id).1 j))
  unfolding remove_connection
  remove_connection-Renewed m n n' id j = elim (Option-cases (connection O m id)) [
    | inl unknown ↦ rw (unknown, remove_connection) (inl refl)
    | inr (info, at) ↦ rw (at, remove_connection) (remove-Renewed n n' id j m.connections)
  ]

  remove_connection-next_id :
      (m : SubscriptionManager O) (id : ConnectionId)
      → (remove_connection O m id).1.next_id ≡ m.next_id
  unfolding remove_connection
  remove_connection-next_id m id = ground arith

  pub insert_connection-Renews :
      (m : SubscriptionManager O) (top : ℕ) (id : ConnectionId) (info : ConnectionInfo O)
      → m.next_id ≤ info.incarnation
      → info.incarnation < top
      → Renews m (insert_connection O (record m { next_id = top }) id info)
  unfolding insert_connection
  insert_connection-Renews m top id info least most =
      let start : SubscriptionManager O = record m { next_id = top } in
      let same = remove_connection-next_id start id in
      let after = (remove_connection O start id).1 in
      record {
        grows = omega (arith, same, least, most);
        each = λ j.
            new-Renewed m.next_id after.next_id id j info after.connections
              (incarnation_of (connection O m j)) least (omega (arith, same, most))
              (remove_connection-Renewed start m.next_id after.next_id id j);
      }

  pub unregister-Renews :
      (m : SubscriptionManager O) (id : ConnectionId) → Renews m (unregister_connection O m id)
  unfolding unregister_connection
  unregister-Renews m id = record {
    grows = omega (arith, remove_connection-next_id m id);
    each = λ j. remove_connection-Renewed m _ _ id j;
  }

  pub Same-Renews :
      (m m' : SubscriptionManager O)
      → m'.connections ≡ m.connections
      → m.next_id ≤ m'.next_id
      → Renews m m'
  Same-Renews m m' same grows = record {
    grows = grows;
    each = λ j. inl (ap (λ conns. incarnation_of (get ℕ_discrete j conns)) same);
  }

  -- An entry that is written again under its incarnation.
  Put-Renews :
      (m m' : SubscriptionManager O) (id : ConnectionId) (info info' : ConnectionInfo O)
      → connection O m id ≡ some info
      → info'.incarnation ≡ info.incarnation
      → m'.connections ≡ put ℕ_discrete id info' m.connections
      → m'.next_id ≡ m.next_id
      → Renews m m'
  Put-Renews m m' id info info' at same conns next_id = record {
    grows = omega (arith, next_id);
    each = λ j. inl (
        ap (λ c. incarnation_of (get ℕ_discrete j c)) conns
        ∙ put-incarnation m id j info info' at same);
  }

  unchanged-Renews : (m : SubscriptionManager O) → Renews m m
  unchanged-Renews m = Same-Renews m m refl (omega arith)

  pub subscribe-Renews :
      (m : SubscriptionManager O) (id : ConnectionId) (names : List Text)
      → Renews m (subscribe O m id names).0
  unfolding subscribe
  subscribe-Renews m id names = elim (Option-cases (connection O m id)) [
    | inl unknown ↦ rw (unknown, subscribe) (unchanged-Renews m)
    | inr (info, at) ↦ rw (at, subscribe) (Put-Renews m _ id info _ at refl refl refl)
  ]

  pub unsubscribe-Renews :
      (m : SubscriptionManager O) (id : ConnectionId) (names : List Text)
      → Renews m (unsubscribe O m id names).0
  unfolding unsubscribe
  unsubscribe-Renews m id names = elim (Option-cases (connection O m id)) [
    | inl unknown ↦ rw (unknown, unsubscribe) (unchanged-Renews m)
    | inr (info, at) ↦ rw (at, unsubscribe) (Put-Renews m _ id info _ at refl refl refl)
  ]

  with_validated-Renews :
      (apply : SubscriptionManager O
        → ConnectionId
        → ConnectionInfo O
        → List SubscriptionPattern
        → SubscriptionManager O × Result PatternSubscriptionError (List Text))
      (m : SubscriptionManager O) (id : ConnectionId)
      (r : Result PatternSubscriptionError (List SubscriptionPattern))
      (o : Option (ConnectionInfo O))
      → ((info : ConnectionInfo O) (validated : List SubscriptionPattern)
          → o ≡ some info
          → Renews m (apply m id info validated).0)
      → Renews m (with_validated O apply m id r o).0
  with_validated-Renews apply m id (err e) o h = unchanged-Renews m
  with_validated-Renews apply m id (ok validated) none h = unchanged-Renews m
  with_validated-Renews apply m id (ok validated) (some info) h = h info validated refl

  add_patterns-Renews :
      (m : SubscriptionManager O) (id : ConnectionId) (info : ConnectionInfo O)
      (validated : List SubscriptionPattern)
      → connection O m id ≡ some info
      → Renews m (add_patterns O m id info validated).0
  unfolding add_patterns
  add_patterns-Renews m id info validated at =
      elim (Bool-cases
        (ltb 128 (length (insert_all pattern_discrete validated info.subscribed_patterns)))) [
          | inl over ↦ rw (add_patterns, over) (unchanged-Renews m)
          | inr fits ↦ rw (add_patterns, fits) (Put-Renews m _ id info _ at refl refl refl)
        ]

  pub subscribe_patterns-Renews :
      (m : SubscriptionManager O) (id : ConnectionId) (values : List Text)
      → Renews m (subscribe_patterns O m id values).0
  unfolding subscribe_patterns
  subscribe_patterns-Renews m id values =
      with_validated-Renews (add_patterns O) m id (validate_patterns values) (connection O m id)
        (add_patterns-Renews m id)

  pub unsubscribe_patterns-Renews :
      (m : SubscriptionManager O) (id : ConnectionId) (values : List Text)
      → Renews m (unsubscribe_patterns O m id values).0
  unfolding unsubscribe_patterns take_patterns
  unsubscribe_patterns-Renews m id values =
      with_validated-Renews (take_selected O (is_nil values)) m id (validate_patterns values)
        (connection O m id) (λ info validated at. Put-Renews m _ id info _ at refl refl refl)

  pub unregister-gone :
      (m : SubscriptionManager O) (id : ConnectionId)
      → connection O (unregister_connection O m id) id ≡ none
  unfolding unregister_connection remove_connection
  unregister-gone m id = elim (Option-cases (connection O m id)) [
    | inl unknown ↦ rw (unknown, unregister_connection, remove_connection) unknown
    | inr (info, at) ↦
        rw (at, unregister_connection, remove_connection)
          (get-remove_self ℕ_discrete id m.connections)
  ]
