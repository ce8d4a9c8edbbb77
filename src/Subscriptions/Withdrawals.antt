-- ===== src/Subscriptions/Withdrawals.antt =====
-- What `unsubscribe_patterns`, which validates a whole batch first, does to who is subscribed to
-- what.
use acton_reactive.Shared.{
  ◌≡◌, refl, ◌∙◌, sym, ap, true, not, if◌then◌else◌, ◌&&◌, ◌||◌, Option, none, some, List, decide,
  is_some, contains, arith, subst, length, ◌≤◌, ℕ_discrete, inl, inr, ◌⊎◌, Result, ok,
}
use acton_reactive.Shared.Sets.{at_put}
use acton_reactive.Subscriptions.Patterns.{
  Text, text_discrete, SubscriptionPattern, pattern_discrete, PatternSubscriptionError,
  unknown_connection, sorted_patterns,
}
use acton_reactive.Subscriptions.{
  ConnectionId, Outside, ConnectionInfo, SubscriptionManager, connection, Work, drop_all, is_nil,
}
use acton_reactive.Subscriptions.Changes.{
  unsubscribe_patterns, with_validated, take_patterns, take_selected, with_patterns,
}
use acton_reactive.Subscriptions.Choosing.{contains-drop_all}
use acton_reactive.Subscriptions.Routes.{names_of, patterns_of}
use acton_reactive.Subscriptions.Effects.{has_name, has_pattern}
use acton_reactive.Subscriptions.Batches.{IsRefused, Unfit, IsListed, sorted_patterns-IsListed}
use acton_reactive.Subscriptions.Invariant.{Consistent}
use acton_reactive.Subscriptions.Kept.{take_patterns-Consistent}
use acton_reactive.Subscriptions.Accepted.{AllValid, Stand, validate_patterns_lem}

module _ (O : Outside) where
  -- A batch that is taken away; an empty one stands for all patterns.
  abbrev pub IsTaken :
      SubscriptionManager O
      → ConnectionId
      → List Text
      → SubscriptionManager O × Result PatternSubscriptionError (List Text)
      → Type 0
  IsTaken m id values (m', reply) =
      (length values ≤ 128)
      × AllValid values
      × (is_some (connection O m id) ≡ true)
      × ((j : ConnectionId) (p : SubscriptionPattern)
          → has_pattern O m' j p ≡ (
              has_pattern O m j p
              && not (
                  decide (ℕ_discrete id j)
                  && (is_nil values || contains text_discrete values p.text))))
      × ((j : ConnectionId) (name : Text) → has_name O m' j name ≡ has_name O m j name)
      × IsListed O m' id reply

  taken :
      (m : SubscriptionManager O) (id : ConnectionId) (values : List Text) (info : ConnectionInfo O)
      (batch : List SubscriptionPattern)
      → connection O m id ≡ some info
      → (length values ≤ 128) × AllValid values × Stand values batch
      → Consistent O m
      → IsTaken m id values (take_selected O (is_nil values) m id info batch)
  unfolding take_patterns
  taken m id values info batch at valid c =
      let selected = if is_nil values then info.subscribed_patterns else batch in
      let start : Work SubscriptionPattern = record {
        chosen = info.subscribed_patterns;
        index = m.patterns;
        changed = m.stats.subscriptions_removed;
      } in
      let w = drop_all pattern_discrete id selected start in
      let info' : ConnectionInfo O = record info { subscribed_patterns = w.chosen } in
      let whole =
        with_patterns O m id info w (record m.stats { subscriptions_removed = w.changed }) in
      let kept : patterns_of O (connection O whole.0 id) ≡ w.chosen =
        at_put ℕ_discrete id id info' m.connections (patterns_of O) w.chosen (λ same. refl)
          (λ ne. absurd (ne refl)) in
      let rest : IsListed O whole.0 id whole.1 =
        subst (λ ps. IsListed O whole.0 id (ok (sorted_patterns ps))) kept
          (sorted_patterns-IsListed O whole.0 id
            (take_patterns-Consistent O m id info selected c at)) in
      (
        valid.0,
        valid.1,
        rw at refl,
        λ j p.
            at_put ℕ_discrete id j info' m.connections
              (λ o. contains pattern_discrete (patterns_of O o) p) _
              (λ same.
                let before : has_pattern O m j p
                    ≡ contains pattern_discrete info.subscribed_patterns p =
                  ap (λ x. has_pattern O m x p) (sym same)
                  ∙ ap (λ o. contains pattern_discrete (patterns_of O o) p) at in
                contains-drop_all pattern_discrete id selected p start ∙ ground (arith, valid.2 p))
              (λ ne. ground arith),
        λ j name.
            at_put ℕ_discrete id j info' m.connections
              (λ o. contains text_discrete (names_of O o) name) _
              (λ same.
                ap (λ o. contains text_discrete (names_of O o) name) (sym at)
                ∙ ap (λ x. has_name O m x name) same)
              (λ ne. refl),
        rest,
      )

  -- In a consistent manager a batch of selectors to unsubscribe from is taken as a whole or not at
  -- all. Either it is refused, the manager is as before and the reply is the reason: it has more
  -- than 128 texts, or one of them is longer than 256 bytes or is not a selector, or the connection
  -- is not registered. Or it has at most 128 texts, each a selector of at most 256 bytes, the
  -- connection is registered and lost exactly the patterns of the batch, or all of them when the
  -- batch is empty, while no other connection and no literal name changed; and the reply lists the
  -- patterns that the connection has left in dictionary order, each once.
  pub unsubscribe_patterns_lem :
      (m : SubscriptionManager O) (id : ConnectionId) (values : List Text)
      → Consistent O m
      → IsRefused O (λ e. Unfit O e m id values) m (unsubscribe_patterns O m id values)
        ⊎ IsTaken m id values (unsubscribe_patterns O m id values)
  unfolding unsubscribe_patterns
  unsubscribe_patterns_lem m id values c = elim (validate_patterns_lem values) [
    | inr (e, refused, fault) ↦ rw refused (inl (refl, (e, refl, inl fault)))
    | inl (batch, valid, short, all, stand) ↦
        rw valid (by_connection batch (short, all, stand) (connection O m id) refl)
  ]
    where
      by_connection :
          (batch : List SubscriptionPattern)
          → (length values ≤ 128) × AllValid values × Stand values batch
          → (o : Option (ConnectionInfo O)) → connection O m id ≡ o
          → IsRefused O
              (λ e. Unfit O e m id values)
              m
              (with_validated O (take_selected O (is_nil values)) m id (ok batch) o)
            ⊎ IsTaken m id values
                (with_validated O (take_selected O (is_nil values)) m id (ok batch) o)
      by_connection batch valid none at = inl (refl, (unknown_connection, refl, inr (refl, at)))
      by_connection batch valid (some info) at = inr (taken m id values info batch at valid c)
