-- ===== src/Subscriptions/Unsubscribing.antt =====
-- What the operations that take names and patterns away do to who is subscribed to what.
use acton_reactive.Shared.{
  ◌≡◌, refl, ◌∙◌, sym, ap, Bool, false, not, ◌&&◌, ◌||◌, Option, none, List, [], decide, contains,
  arith, if◌then◌else◌, ℕ_discrete, Option-cases, inl, inr,
}
use acton_reactive.Shared.Sets.{at_put}
use acton_reactive.Subscriptions.Patterns.{
  Text, text_discrete, SubscriptionPattern, pattern_discrete,
}
use acton_reactive.Subscriptions.{
  ConnectionId, Outside, ConnectionInfo, SubscriptionManager, connection, Work, is_nil, drop_all,
}
use acton_reactive.Subscriptions.Changes.{unsubscribe, drop_patterns_first}
use acton_reactive.Subscriptions.Choosing.{contains-drop_all}
use acton_reactive.Subscriptions.Routes.{names_of, patterns_of}
use acton_reactive.Subscriptions.Effects.{has_name, has_pattern}

module _ (O : Outside) where
  -- Unsubscribing takes exactly the given names from exactly the given connection, and from nobody
  -- else anything; an empty batch takes all its names and all its patterns, any other batch no
  -- pattern. The names that it returns are those that the connection has left.
  pub unsubscribe_lem :
      (m : SubscriptionManager O) (id : ConnectionId) (names : List Text)
      → let (m', reply) = unsubscribe O m id names in
        ((j : ConnectionId) (name : Text)
          → has_name O m' j name ≡ (
              has_name O m j name
              && not (
                  decide (ℕ_discrete id j) && (is_nil names || contains text_discrete names name))))
        × ((j : ConnectionId) (p : SubscriptionPattern)
            → has_pattern O m' j p
              ≡ (has_pattern O m j p && not (decide (ℕ_discrete id j) && is_nil names)))
        × (reply ≡ names_of O (connection O m' id))
  unfolding unsubscribe drop_patterns_first
  unsubscribe_lem m id names = elim (Option-cases (connection O m id)) [
    | inl unknown ↦
        rw (unknown, unsubscribe)
          (
            λ j name.
                nothing_to_take (λ o. contains text_discrete (names_of O o) name) id j m _ unknown
                  refl,
            λ j p.
                nothing_to_take (λ o. contains pattern_discrete (patterns_of O o) p) id j m _
                  unknown refl,
            rw unknown refl,
          )
    | inr (info, at) ↦
        let everything = is_nil names in
        let p = drop_patterns_first O id everything m info in
        let start : Work Text = record {
          chosen = info.subscribed_types;
          index = m.exact;
          changed = p.changed;
        } in
        let keys = if everything then info.subscribed_types else names in
        let w = drop_all text_discrete id keys start in
        let info' : ConnectionInfo O = record info {
          subscribed_types = w.chosen;
          subscribed_patterns = p.chosen;
        } in
        rw (at, unsubscribe)
          (
            λ j name.
                at_put ℕ_discrete id j info' m.connections
                  (λ o. contains text_discrete (names_of O o) name) _
                  (λ same.
                    let before : has_name O m j name
                        ≡ contains text_discrete info.subscribed_types name =
                      ap (λ x. has_name O m x name) (sym same)
                      ∙ ap (λ o. contains text_discrete (names_of O o) name) at in
                    contains-drop_all text_discrete id keys name start ∙ ground arith)
                  (λ ne. ground arith),
            λ j q.
                at_put ℕ_discrete id j info' m.connections
                  (λ o. contains pattern_discrete (patterns_of O o) q) _
                  (λ same.
                    let before : has_pattern O m j q
                        ≡ contains pattern_discrete info.subscribed_patterns q =
                      ap (λ x. has_pattern O m x q) (sym same)
                      ∙ ap (λ o. contains pattern_discrete (patterns_of O o) q) at in
                    contains-drop_all pattern_discrete id
                      (if everything then info.subscribed_patterns else []) q
                      (record {
                        chosen = info.subscribed_patterns;
                        index = m.patterns;
                        changed = m.stats.subscriptions_removed;
                      })
                    ∙ ground arith)
                  (λ ne. ground arith),
            sym (
                at_put ℕ_discrete id id info' m.connections (names_of O) w.chosen (λ same. refl)
                  (λ ne. absurd (ne refl))),
          )
  ]
    where
      nothing_to_take :
          (f : Option (ConnectionInfo O) → Bool) (id j : ConnectionId) (m : SubscriptionManager O)
          (b : Bool)
          → connection O m id ≡ none
          → f none ≡ false
          → f (connection O m j) ≡ (f (connection O m j) && not (decide (ℕ_discrete id j) && b))
      nothing_to_take f id j m b unknown empty = elim (ℕ_discrete id j) [
        | yes e ↦
            let absent : f (connection O m j) ≡ false =
              ap (λ x. f (connection O m x)) (sym e) ∙ ap f unknown ∙ empty in
            ground arith
        | no n ↦ ground arith
      ]
