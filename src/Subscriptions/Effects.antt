-- ===== src/Subscriptions/Effects.antt =====
-- What each operation does to who is subscribed to what.
use acton_reactive.Shared.{
  ◌≡◌, refl, ◌∙◌, sym, ap, Bool, ◌&&◌, ◌||◌, List, decide, is_some, contains, arith, ℕ_discrete,
  Option-cases, inl, inr,
}
use acton_reactive.Shared.Sets.{at_put}
use acton_reactive.Subscriptions.Patterns.{
  Text, text_discrete, SubscriptionPattern, pattern_discrete,
}
use acton_reactive.Subscriptions.{
  ConnectionId, Outside, ConnectionInfo, SubscriptionManager, connection, Work, choose_all,
}
use acton_reactive.Subscriptions.Changes.{subscribe}
use acton_reactive.Subscriptions.Choosing.{contains-choose_all}
use acton_reactive.Subscriptions.Routes.{names_of, patterns_of}

module _ (O : Outside) where
  -- Whether a connection is subscribed to a name literally.
  abbrev pub has_name : SubscriptionManager O → ConnectionId → Text → Bool
  has_name m id name = contains text_discrete (names_of O (connection O m id)) name

  abbrev pub has_pattern : SubscriptionManager O → ConnectionId → SubscriptionPattern → Bool
  has_pattern m id p = contains pattern_discrete (patterns_of O (connection O m id)) p

  -- Subscribing adds exactly the given names to exactly the given connection, if it is registered,
  -- and takes no pattern from anybody or to anybody; the names that it returns are those that the
  -- connection then has.
  pub subscribe_lem :
      (m : SubscriptionManager O) (id : ConnectionId) (names : List Text)
      → let (m', reply) = subscribe O m id names in
        ((j : ConnectionId) (name : Text)
          → has_name m' j name ≡ (
              has_name m j name
              || (decide (ℕ_discrete id j)
                  && (is_some (connection O m id) && contains text_discrete names name))))
        × ((j : ConnectionId) (p : SubscriptionPattern) → has_pattern m' j p ≡ has_pattern m j p)
        × (reply ≡ names_of O (connection O m' id))
  unfolding subscribe
  subscribe_lem m id names = elim (Option-cases (connection O m id)) [
    | inl unknown ↦ rw (unknown, subscribe) (λ j name. ground arith, λ j p. refl, rw unknown refl)
    | inr (info, at) ↦
        let start : Work Text = record {
          chosen = info.subscribed_types;
          index = m.exact;
          changed = m.stats.subscriptions_added;
        } in
        let w = choose_all text_discrete id names start in
        let info' : ConnectionInfo O = record info { subscribed_types = w.chosen } in
        rw (at, subscribe)
          (
            λ j name.
                at_put ℕ_discrete id j info' m.connections
                  (λ o. contains text_discrete (names_of O o) name) _
                  (λ same.
                    let before : has_name m j name
                        ≡ contains text_discrete info.subscribed_types name =
                      ap (λ x. has_name m x name) (sym same)
                      ∙ ap (λ o. contains text_discrete (names_of O o) name) at in
                    contains-choose_all text_discrete id names name start ∙ ground arith)
                  (λ ne. ground arith),
            λ j p.
                at_put ℕ_discrete id j info' m.connections
                  (λ o. contains pattern_discrete (patterns_of O o) p) _
                  (λ same.
                    ap (λ o. contains pattern_discrete (patterns_of O o) p) (sym at)
                    ∙ ap (λ x. has_pattern m x p) same)
                  (λ ne. refl),
            sym (
                at_put ℕ_discrete id id info' m.connections (names_of O) w.chosen (λ same. refl)
                  (λ ne. absurd (ne refl))),
          )
  ]
