-- ===== src/Subscriptions/Kept.antt =====
-- Each way to subscribe and unsubscribe keeps `Consistent`.
use acton_reactive.Shared.{
  ◌≤◌, ◌≡◌, refl, ◌∙◌, sym, ap, subst, Option, none, some, List, [], ◌∷◌, length, arith, ltb,
  if◌then◌else◌, ℕ_discrete, Bool-cases, Option-cases, inl, inr, Result, ok, err,
}
use acton_reactive.Shared.Table.{put}
use acton_reactive.Shared.Sets.{insert_all, discard}
use acton_reactive.Subscriptions.Patterns.{
  Text, text_discrete, SubscriptionPattern, pattern_discrete, validate_patterns,
  PatternSubscriptionError,
}
use acton_reactive.Subscriptions.{
  ConnectionId, Outside, Work, ConnectionInfo, SubscriptionManager, connection, is_nil, choose_one,
  choose_all, drop_one, drop_all, SubscriptionStats,
}
use acton_reactive.Subscriptions.Changes.{
  subscribe, unsubscribe, with_patterns, with_validated, take_selected, drop_patterns_first,
  add_patterns, take_patterns, subscribe_patterns, unsubscribe_patterns,
}
use acton_reactive.Subscriptions.Side.{Side, Side-keep, Side-choose, Side-drop}
use acton_reactive.Subscriptions.Routes.{names_of, patterns_of}
use acton_reactive.Subscriptions.Invariant.{Consistent, cleared, PatternLimit-put}

module _ {K : Type 0} (d : Discrete K) where
  pub chosen-choose_all :
      (id : ConnectionId) (keys : List K) (w : Work K)
      → (choose_all d id keys w).chosen ≡ insert_all d keys w.chosen
  unfolding choose_all choose_one
  chosen-choose_all id [] w = refl
  chosen-choose_all id (key ∷ keys) w =
      chosen-choose_all id keys (choose_one d id key w) ∙ ap (insert_all d keys) (ground arith)

  length-discard-le : (x : K) (s : List K) → length (discard d x s) ≤ length s
  length-discard-le x [] = omega arith
  length-discard-le x (y ∷ s) = ground (arith, length-discard-le x s)

  pub length-drop_all-le :
      (id : ConnectionId) (keys : List K) (w : Work K)
      → length (drop_all d id keys w).chosen ≤ length w.chosen
  unfolding drop_all drop_one
  length-drop_all-le id [] w = omega arith
  length-drop_all-le id (key ∷ keys) w =
      let rest = length-drop_all-le id keys (drop_one d id key w) in
      ground (arith, length-discard-le key w.chosen)

module _ (O : Outside) where
  pub subscribe-Consistent :
      (m : SubscriptionManager O) (id : ConnectionId) (message_types : List Text)
      → Consistent O m
      → Consistent O (subscribe O m id message_types).0
  unfolding subscribe
  subscribe-Consistent m id message_types c = elim (Option-cases (connection O m id)) [
    | inl unknown ↦ rw (unknown, subscribe) c
    | inr (info, at) ↦
        rw (at, subscribe)
          (cleared O _
            (record {
              types =
                  Side-choose text_discrete (names_of O) m.connections m.exact id info _
                    message_types m.stats.subscriptions_added c.types at refl;
              patterns =
                  Side-keep pattern_discrete (patterns_of O) m.connections m.patterns id _
                    c.patterns (ap (patterns_of O) (sym at));
              limit =
                  PatternLimit-put O m.connections id _ c.limit
                    (subst (λ o. length (patterns_of O o) ≤ 128) at (c.limit id));
            })
            refl)
  ]

  -- The patterns of one connection change.
  with_patterns-Consistent :
      (m : SubscriptionManager O) (id : ConnectionId) (info : ConnectionInfo O)
      (w : Work SubscriptionPattern) (stats : SubscriptionStats)
      → Consistent O m
      → connection O m id ≡ some info
      → Side pattern_discrete
          (patterns_of O)
          (put ℕ_discrete id (record info { subscribed_patterns = w.chosen }) m.connections)
          w.index
      → length w.chosen ≤ 128
      → Consistent O (with_patterns O m id info w stats).0
  with_patterns-Consistent m id info w stats c at side few =
      cleared O _
        (record {
          types =
              Side-keep text_discrete (names_of O) m.connections m.exact id _ c.types
                (ap (names_of O) (sym at));
          patterns = side;
          limit = PatternLimit-put O m.connections id _ c.limit few;
        })
        refl

  pub add_patterns-Consistent :
      (m : SubscriptionManager O) (id : ConnectionId) (info : ConnectionInfo O)
      (validated : List SubscriptionPattern)
      → Consistent O m
      → connection O m id ≡ some info
      → Consistent O (add_patterns O m id info validated).0
  unfolding add_patterns
  add_patterns-Consistent m id info validated c at =
      let start : Work SubscriptionPattern = record {
        chosen = info.subscribed_patterns;
        index = m.patterns;
        changed = m.stats.subscriptions_added;
      } in
      let total = insert_all pattern_discrete validated info.subscribed_patterns in
      elim (Bool-cases (ltb 128 (length total))) [
        | inl over ↦ rw (over, add_patterns) c
        | inr fits ↦
            rw (fits, add_patterns)
              (with_patterns-Consistent m id info (choose_all pattern_discrete id validated start) _
                c at
                (Side-choose pattern_discrete (patterns_of O) m.connections m.patterns id info _
                  validated m.stats.subscriptions_added c.patterns at refl)
                (rw (chosen-choose_all pattern_discrete id validated start) (ground arith)))
      ]

  -- Validation and lookup change nothing by themselves.
  with_validated-Consistent :
      (apply : SubscriptionManager O
        → ConnectionId
        → ConnectionInfo O
        → List SubscriptionPattern
        → SubscriptionManager O × Result PatternSubscriptionError (List Text))
      (m : SubscriptionManager O) (id : ConnectionId)
      (r : Result PatternSubscriptionError (List SubscriptionPattern))
      (o : Option (ConnectionInfo O))
      → Consistent O m
      → ((info : ConnectionInfo O) (validated : List SubscriptionPattern)
          → o ≡ some info
          → Consistent O (apply m id info validated).0)
      → Consistent O (with_validated O apply m id r o).0
  with_validated-Consistent apply m id (err e) o c h = c
  with_validated-Consistent apply m id (ok validated) none c h = c
  with_validated-Consistent apply m id (ok validated) (some info) c h = h info validated refl

  pub subscribe_patterns-Consistent :
      (m : SubscriptionManager O) (id : ConnectionId) (values : List Text)
      → Consistent O m
      → Consistent O (subscribe_patterns O m id values).0
  unfolding subscribe_patterns
  subscribe_patterns-Consistent m id values c =
      with_validated-Consistent (add_patterns O) m id (validate_patterns values) (connection O m id)
        c (λ info validated at. add_patterns-Consistent m id info validated c at)

  pub take_patterns-Consistent :
      (m : SubscriptionManager O) (id : ConnectionId) (info : ConnectionInfo O)
      (selected : List SubscriptionPattern)
      → Consistent O m
      → connection O m id ≡ some info
      → Consistent O (take_patterns O m id info selected).0
  unfolding take_patterns
  take_patterns-Consistent m id info selected c at =
      let start : Work SubscriptionPattern = record {
        chosen = info.subscribed_patterns;
        index = m.patterns;
        changed = m.stats.subscriptions_removed;
      } in
      let few = subst (λ o. length (patterns_of O o) ≤ 128) at (c.limit id) in
      with_patterns-Consistent m id info (drop_all pattern_discrete id selected start) _ c at
        (Side-drop pattern_discrete (patterns_of O) m.connections m.patterns id info _ selected
          m.stats.subscriptions_removed c.patterns at refl)
        (omega (arith, few, length-drop_all-le pattern_discrete id selected start))

  pub unsubscribe_patterns-Consistent :
      (m : SubscriptionManager O) (id : ConnectionId) (values : List Text)
      → Consistent O m
      → Consistent O (unsubscribe_patterns O m id values).0
  unfolding unsubscribe_patterns
  unsubscribe_patterns-Consistent m id values c =
      with_validated-Consistent (take_selected O (is_nil values)) m id (validate_patterns values)
        (connection O m id) c
        (λ info validated at.
          take_patterns-Consistent m id info
            (if is_nil values then info.subscribed_patterns else validated) c at)

  pub unsubscribe-Consistent :
      (m : SubscriptionManager O) (id : ConnectionId) (message_types : List Text)
      → Consistent O m
      → Consistent O (unsubscribe O m id message_types).0
  unfolding unsubscribe drop_patterns_first
  unsubscribe-Consistent m id message_types c = elim (Option-cases (connection O m id)) [
    | inl unknown ↦ rw (unknown, unsubscribe) c
    | inr (info, at) ↦
        let everything = is_nil message_types in
        let p = drop_patterns_first O id everything m info in
        let start : Work SubscriptionPattern = record {
          chosen = info.subscribed_patterns;
          index = m.patterns;
          changed = m.stats.subscriptions_removed;
        } in
        let few = subst (λ o. length (patterns_of O o) ≤ 128) at (c.limit id) in
        rw (at, unsubscribe)
          (cleared O _
            (record {
              types =
                  Side-drop text_discrete (names_of O) m.connections m.exact id info _
                    (if everything then info.subscribed_types else message_types) p.changed c.types
                    at refl;
              patterns =
                  Side-drop pattern_discrete (patterns_of O) m.connections m.patterns id info _
                    (if everything then info.subscribed_patterns else [])
                    m.stats.subscriptions_removed c.patterns at refl;
              limit = PatternLimit-put O m.connections id _ c.limit (
                  omega (
                    arith,
                    few,
                    length-drop_all-le pattern_discrete id
                        (if everything then info.subscribed_patterns else []) start,
                  ));
            })
            refl)
  ]
