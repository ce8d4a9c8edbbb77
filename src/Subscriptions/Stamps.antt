-- ===== src/Subscriptions/Stamps.antt =====
-- The identity of a cached route stays its own.
use acton_reactive.Shared.{
  ◌≤◌, ◌<◌, ◌≡◌, refl, ◌∙◌, sym, ap, some, [], length, arith, leb, Bool-cases, Option-cases, inl,
  inr, ◌⊎◌,
}
use acton_reactive.Shared.Table.{get}
use acton_reactive.Subscriptions.Patterns.{Text, text_discrete}
use acton_reactive.Subscriptions.{Outside, Route, SubscriptionManager}
use acton_reactive.Subscriptions.Delivery.{remember, recipients}
use acton_reactive.Subscriptions.Invariant.{Consistent}
use acton_reactive.Subscriptions.Cache.{remembered_cases, recipients-connections}

module _ (O : Outside) where
  -- No other route in the cache has the identity of a given one, now and later.
  pub record Stamped (name : Text) (held : Route) (m : SubscriptionManager O) : Type 0 where
    pub older : held.stamp < m.next_id
    pub same :
        (r : Route)
        → get text_discrete name m.routes ≡ some r
        → r.stamp ≡ held.stamp
        → r.ids ≡ held.ids

  pub cleared-Stamped :
      (name : Text) (held : Route) (m m' : SubscriptionManager O)
      → Stamped name held m
      → m.next_id ≤ m'.next_id
      → m'.routes ≡ []
      → Stamped name held m'
  cleared-Stamped name held m m' s le e = record {
    older = omega (arith, s.older);
    same = λ r at same. absurd (cc (ap (get text_discrete name) (sym e) ∙ at));
  }

  recalled :
      (m : SubscriptionManager O) (k name : Text) (r : Route)
      → get text_discrete name (recipients O m k).1.routes ≡ some r
      → (get text_discrete name m.routes ≡ some r)
        ⊎ ((k ≡ name) × ((recipients O m k).0 ≡ r) × (r.stamp ≡ m.next_id))
  unfolding recipients remember
  recalled m k name r at = elim (Option-cases (get text_discrete k m.routes)) [
    | inr (q, known) ↦ inl (rw (known, recipients) at at)
    | inl new ↦ elim (Bool-cases (leb (length k) 256)) [
      | inr long ↦ inl (rw (new, recipients, remember, long) at at)
      | inl short ↦
          elim (remembered_cases k name _ r m.routes
            (rw (new, recipients, remember, short) at at)) [
              | inl (e, e') ↦ inr (e, rw (new, recipients) e', sym (ap (λ x. x.stamp) e'))
              | inr old ↦ inl old
            ]
    ]
  ]

  pub recipients-Stamped :
      (m : SubscriptionManager O) (k name : Text) (held : Route)
      → Stamped name held m
      → Stamped name held (recipients O m k).1
  recipients-Stamped m k name held s = record {
    older = omega (arith, s.older, (recipients-connections O m k).2);
    same = λ r at same. elim (recalled m k name r at) [
      | inl old ↦ s.same r old same
      | inr (e, e', new) ↦ absurd (omega (arith, s.older, new, same))
    ];
  }

  answer-older :
      (m : SubscriptionManager O) (name : Text)
      → Consistent O m
      → (recipients O m name).0.stamp < (recipients O m name).1.next_id
  unfolding recipients remember
  answer-older m name c = elim (Option-cases (get text_discrete name m.routes)) [
    | inr (r, at) ↦ rw (at, recipients) (c.routes name r at).old
    | inl new ↦ ground arith
  ]

  answer_known :
      (m : SubscriptionManager O) (name : Text) (r : Route)
      → get text_discrete name m.routes ≡ some r
      → (recipients O m name).0 ≡ r
  unfolding recipients
  answer_known m name r at = rw (at, recipients) refl

  -- The answer itself is stamped.
  pub answer-Stamped :
      (m : SubscriptionManager O) (name : Text)
      → Consistent O m
      → Stamped name (recipients O m name).0 (recipients O m name).1
  answer-Stamped m name c = record {
    older = answer-older m name c;
    same = λ r at _. elim (recalled m name name r at) [
      | inl old ↦ ap (λ x. x.ids) (sym (answer_known m name r old))
      | inr (e, e', new) ↦ ap (λ x. x.ids) (sym e')
    ];
  }
