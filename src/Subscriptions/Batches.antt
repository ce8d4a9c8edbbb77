-- ===== src/Subscriptions/Batches.antt =====
-- What the operations on patterns, which validate a whole batch first, do to who is subscribed to
-- what.
use acton_reactive.Shared.{
  ◌≤◌, ◌≡◌, refl, ◌∙◌, sym, ap, subst, true, false, ◌&&◌, ◌||◌, Option, none, some, List, [], ◌∷◌,
  decide, is_some, contains, arith, ℕ_discrete, Bool-cases, inl, inr, ◌⊎◌, Result, ok, err, length,
  ltb, ltb→lt, ◌<◌,
}
use acton_reactive.Shared.Table.{get, put}
use acton_reactive.Shared.Sets.{
  at_put, insert_all, Distinct, insert_all-Distinct, contains-insert_all,
}
use acton_reactive.Subscriptions.Invariant.{Consistent}
use acton_reactive.Subscriptions.Kept.{add_patterns-Consistent}
use acton_reactive.Subscriptions.Accepted.{AllValid, Stand, BatchFault, validate_patterns_lem}
use acton_reactive.Subscriptions.Sorting.{
  IsSorted, sorted_patterns-IsSorted, sorted_patterns-Distinct, contains-sorted_patterns,
}
use acton_reactive.Subscriptions.Patterns.{
  Text, text_discrete, SubscriptionPattern, pattern_discrete, PatternSubscriptionError,
  too_many_patterns, unknown_connection, sorted_patterns,
}
use acton_reactive.Subscriptions.{
  ConnectionId, Outside, ConnectionInfo, SubscriptionManager, connection, Work, choose_all,
  choose_one,
}
use acton_reactive.Subscriptions.Changes.{
  subscribe_patterns, with_validated, add_patterns, with_patterns,
}
use acton_reactive.Subscriptions.Choosing.{contains-choose_all}
use acton_reactive.Subscriptions.Routes.{names_of, patterns_of}
use acton_reactive.Subscriptions.Effects.{has_name, has_pattern}

module _ {K : Type 0} (d : Discrete K) where
  chosen-choose_all :
      (id : ConnectionId) (keys : List K) (w : Work K)
      → (choose_all d id keys w).chosen ≡ insert_all d keys w.chosen
  unfolding choose_all choose_one
  chosen-choose_all id [] w = refl
  chosen-choose_all id (key ∷ keys) w =
      chosen-choose_all id keys (choose_one d id key w) ∙ ap (insert_all d keys) ground arith

module _ (O : Outside) where
  -- Why a whole batch is refused: for what its texts are, or because the connection is not there.
  abbrev pub Unfit :
      PatternSubscriptionError → SubscriptionManager O → ConnectionId → List Text → Type 0
  Unfit e m id values =
      BatchFault e values ⊎ ((e ≡ unknown_connection) × (connection O m id ≡ none))

  -- The patterns of the connection and those of the batch are together more than 128.
  abbrev pub Exceeds :
      PatternSubscriptionError → SubscriptionManager O → ConnectionId → List Text → Type 0
  Exceeds e m id values =
      (e ≡ too_many_patterns)
      × ((all : List SubscriptionPattern) × Distinct pattern_discrete all
          × ((p : SubscriptionPattern)
              → contains pattern_discrete all p
                ≡ (contains text_discrete values p.text || has_pattern O m id p))
          × (128 < length all))

  -- A batch that is refused leaves the manager as it was, and the reply is the reason.
  abbrev pub IsRefused :
      (PatternSubscriptionError → Type 0)
      → SubscriptionManager O
      → SubscriptionManager O × Result PatternSubscriptionError (List Text)
      → Type 0
  IsRefused Reason m (m', reply) =
      (m' ≡ m) × ((e : PatternSubscriptionError) × (reply ≡ err e) × Reason e)

  -- The reply lists the texts of the connection's patterns, in order and each once.
  abbrev pub IsListed :
      SubscriptionManager O → ConnectionId → Result PatternSubscriptionError (List Text) → Type 0
  IsListed m id reply =
      (texts : List Text) × (reply ≡ ok texts)
      × IsSorted texts
      × Distinct text_discrete texts
      × ((t : Text) → contains text_discrete texts t ≡ has_pattern O m id (record { text = t }))

  pub sorted_patterns-IsListed :
      (m : SubscriptionManager O) (id : ConnectionId)
      → Consistent O m
      → IsListed m id (ok (sorted_patterns (patterns_of O (connection O m id))))
  sorted_patterns-IsListed m id c =
      let ps = patterns_of O (connection O m id) in
      (
        sorted_patterns ps,
        refl,
        sorted_patterns-IsSorted ps,
        sorted_patterns-Distinct ps (c.patterns.distinct id),
        λ t. contains-sorted_patterns ps (record { text = t }),
      )

  -- A batch that is taken.
  abbrev pub IsAdded :
      SubscriptionManager O
      → ConnectionId
      → List Text
      → SubscriptionManager O × Result PatternSubscriptionError (List Text)
      → Type 0
  IsAdded m id values (m', reply) =
      (length values ≤ 128)
      × AllValid values
      × (is_some (connection O m id) ≡ true)
      × ((j : ConnectionId) (p : SubscriptionPattern)
          → has_pattern O m' j p ≡ (
              has_pattern O m j p
              || (decide (ℕ_discrete id j) && contains text_discrete values p.text)))
      × ((j : ConnectionId) (name : Text) → has_name O m' j name ≡ has_name O m j name)
      × (length (patterns_of O (connection O m' id)) ≤ 128)
      × IsListed m' id reply

  added :
      (m : SubscriptionManager O) (id : ConnectionId) (values : List Text) (info : ConnectionInfo O)
      (batch : List SubscriptionPattern)
      → connection O m id ≡ some info
      → (length values ≤ 128) × AllValid values × Stand values batch
      → Consistent O m
      → Consistent O (add_patterns O m id info batch).0
      → ltb 128 (length (insert_all pattern_discrete batch info.subscribed_patterns)) ≡ false
      → IsAdded m id values (add_patterns O m id info batch)
  unfolding add_patterns
  added m id values info batch at valid c c' few =
      let start : Work SubscriptionPattern = record {
        chosen = info.subscribed_patterns;
        index = m.patterns;
        changed = m.stats.subscriptions_added;
      } in
      let w = choose_all pattern_discrete id batch start in
      let info' : ConnectionInfo O = record info { subscribed_patterns = w.chosen } in
      let kept : patterns_of O (get ℕ_discrete id (put ℕ_discrete id info' m.connections))
          ≡ w.chosen =
        at_put ℕ_discrete id id info' m.connections (patterns_of O) w.chosen (λ same. refl)
          (λ ne. absurd (ne refl)) in
      let within : length w.chosen ≤ 128 =
        ground (arith, chosen-choose_all pattern_discrete id batch start) in
      let whole =
        with_patterns O m id info w (record m.stats { subscriptions_added = w.changed }) in
      let rest : IsListed whole.0 id whole.1 =
        subst (λ ps. IsListed whole.0 id (ok (sorted_patterns ps))) kept
          (sorted_patterns-IsListed whole.0 id (rw few at c')) in
      rw (few) (
        valid.0,
        valid.1,
        rw at refl,
        λ j p.
            at_put ℕ_discrete id j info' m.connections
              (λ o. contains pattern_discrete (patterns_of O o) p) _
              (λ same.
                let before : has_pattern O m j p
                    ≡ contains pattern_discrete info.subscribed_patterns p =
                  ap (λ x. has_pattern O m x p) (sym same)
                  ∙ ap (λ o. contains pattern_discrete (patterns_of O o) p) at in
                contains-choose_all pattern_discrete id batch p start ∙ ground (arith, valid.2 p))
              (λ ne. ground arith),
        λ j name.
            at_put ℕ_discrete id j info' m.connections
              (λ o. contains text_discrete (names_of O o) name) _
              (λ same.
                ap (λ o. contains text_discrete (names_of O o) name) (sym at)
                ∙ ap (λ x. has_name O m x name) same)
              (λ ne. refl),
        subst (λ ps. length ps ≤ 128) (sym kept) within,
        rest,
      )

  exceeding :
      (m : SubscriptionManager O) (id : ConnectionId) (values : List Text) (info : ConnectionInfo O)
      (batch : List SubscriptionPattern)
      → connection O m id ≡ some info
      → Stand values batch
      → Consistent O m
      → ltb 128 (length (insert_all pattern_discrete batch info.subscribed_patterns)) ≡ true
      → Exceeds too_many_patterns m id values
  exceeding m id values info batch at stand c many = (
    refl,
    (
      insert_all pattern_discrete batch info.subscribed_patterns,
      insert_all-Distinct pattern_discrete batch info.subscribed_patterns
          (subst (λ o. Distinct pattern_discrete (patterns_of O o)) at (c.patterns.distinct id)),
      λ p.
          let here : has_pattern O m id p ≡ contains pattern_discrete info.subscribed_patterns p =
            ap (λ o. contains pattern_discrete (patterns_of O o) p) at in
          contains-insert_all pattern_discrete batch p info.subscribed_patterns
          ∙ ground (arith, stand p, here),
      ltb→lt _ _ many,
    ),
  )

  -- In a consistent manager a batch of selectors to subscribe to is taken as a whole or not at all.
  -- Either it is refused, the manager is as before and the reply is the reason: it has more than 128
  -- texts, or one of them is longer than 256 bytes or is not a selector, or the connection is
  -- not registered, or the patterns of the connection and of the batch are together more than 128. Or it
  -- has at most 128 texts, each a selector of at most 256 bytes, the connection is registered, has
  -- at most 128 patterns, and got exactly the patterns of the batch while no other connection and
  -- no literal name changed; and the reply lists the connection's patterns in dictionary order,
  -- each once.
  pub subscribe_patterns_lem :
      (m : SubscriptionManager O) (id : ConnectionId) (values : List Text)
      → Consistent O m
      → IsRefused
          (λ e. Unfit e m id values ⊎ Exceeds e m id values)
          m
          (subscribe_patterns O m id values)
        ⊎ IsAdded m id values (subscribe_patterns O m id values)
  unfolding subscribe_patterns add_patterns
  subscribe_patterns_lem m id values c = elim (validate_patterns_lem values) [
    | inr (e, refused, fault) ↦ rw refused (inl (refl, (e, refl, inl (inl fault))))
    | inl (batch, taken, short, all, stand) ↦
        rw taken (by_connection batch (short, all, stand) (connection O m id) refl)
  ]
    where
      by_count :
          (batch : List SubscriptionPattern) (info : ConnectionInfo O)
          → (length values ≤ 128) × AllValid values × Stand values batch
          → connection O m id ≡ some info
          → IsRefused
              (λ e. Unfit e m id values ⊎ Exceeds e m id values)
              m
              (add_patterns O m id info batch)
            ⊎ IsAdded m id values (add_patterns O m id info batch)
      by_count batch info valid at =
          elim (Bool-cases
            (ltb 128 (length (insert_all pattern_discrete batch info.subscribed_patterns)))) [
              | inl many ↦
                  let reason = exceeding m id values info batch at valid.2 c many in
                  inl (rw many (refl, (too_many_patterns, refl, inr reason)))
              | inr few ↦ inr (
                  added m id values info batch at valid c
                    (add_patterns-Consistent O m id info batch c at) few)
            ]

      by_connection :
          (batch : List SubscriptionPattern)
          → (length values ≤ 128) × AllValid values × Stand values batch
          → (o : Option (ConnectionInfo O)) → connection O m id ≡ o
          → IsRefused
              (λ e. Unfit e m id values ⊎ Exceeds e m id values)
              m
              (with_validated O (add_patterns O) m id (ok batch) o)
            ⊎ IsAdded m id values (with_validated O (add_patterns O) m id (ok batch) o)
      by_connection batch valid none at =
          inl (refl, (unknown_connection, refl, inl (inr (refl, at))))
      by_connection batch valid (some info) at = by_count batch info valid at
