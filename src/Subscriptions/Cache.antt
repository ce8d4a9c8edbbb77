-- ===== src/Subscriptions/Cache.antt =====
-- The cache of routes: what `recipients` answers, and what it leaves in the cache.
use acton_reactive.Shared.{
  ℕ, ◌+◌, ◌≤◌, ◌<◌, ◌≡◌, ◌∙◌, sym, subst, none, some, List, [], ◌∷◌, decide, length, contains,
  arith, leb, leb→le, leb→lt, if◌then◌else◌, ℕ_discrete, Bool-cases, Option-cases, inl, inr, ◌⊎◌,
}
use acton_reactive.Shared.Table.{get, put}
use acton_reactive.Shared.Sets.{Distinct, get-put, get-remove, length-put_new, length-remove-le}
use acton_reactive.Subscriptions.Patterns.{Text, text_discrete}
use acton_reactive.Subscriptions.{Outside, Route, SubscriptionManager, connection}
use acton_reactive.Subscriptions.Delivery.{route_limit, evict, make_room, remember, recipients}
use acton_reactive.Subscriptions.Routes.{wants, contains-computed_ids, computed_ids-Distinct}
use acton_reactive.Subscriptions.Invariant.{FitsRoute, Consistent}

get-evict :
    (k : Text) (r : Route) (routes : List (Text × Route))
    → get text_discrete k (evict routes) ≡ some r
    → get text_discrete k routes ≡ some r
unfolding evict
get-evict k r [] h = h
get-evict k r ((j, q) ∷ routes) h = ground (arith, get-remove text_discrete j k ((j, q) ∷ routes))

pub get-make_room :
    (name k : Text) (r : Route) (routes : List (Text × Route))
    → get text_discrete k (make_room name routes) ≡ some r
    → get text_discrete k routes ≡ some r
unfolding make_room
get-make_room name k r routes h = ground (arith, get-evict k r routes)

length-evict-le : (routes : List (Text × Route)) → length (evict routes) ≤ length routes
unfolding evict
length-evict-le [] = omega arith
length-evict-le ((j, q) ∷ routes) = length-remove-le text_discrete j ((j, q) ∷ routes)

length-evict-lt :
    (routes : List (Text × Route))
    → route_limit ≤ length routes
    → length (evict routes) < length routes
unfolding evict
length-evict-lt [] h = absurd (omega arith)
length-evict-lt ((j, q) ∷ routes) h = ground (arith, length-remove-le text_discrete j routes)

length-make_room-lt :
    (name : Text) (routes : List (Text × Route))
    → get text_discrete name routes ≡ none
    → length routes ≤ route_limit
    → length (make_room name routes) < route_limit
unfolding make_room
length-make_room-lt name routes new room = elim (Bool-cases (leb route_limit (length routes))) [
  | inl over ↦ rw (make_room, over, new) (omega (arith, length-evict-lt routes (leb→le _ _ over)))
  | inr free ↦ rw (make_room, free) (leb→lt _ _ free)
]

get-make_room-none :
    (name : Text) (routes : List (Text × Route))
    → get text_discrete name routes ≡ none
    → get text_discrete name (make_room name routes) ≡ none
get-make_room-none name routes new =
    elim (Option-cases (get text_discrete name (make_room name routes))) [
      | inl e ↦ e
      | inr (r, e) ↦ absurd (cc (sym new ∙ get-make_room name name r routes e))
    ]

pub remembered_cases :
    (name k : Text) (route r : Route) (routes : List (Text × Route))
    → get text_discrete k (put text_discrete name route (make_room name routes)) ≡ some r
    → ((name ≡ k) × (route ≡ r)) ⊎ (get text_discrete k routes ≡ some r)
remembered_cases name k route r routes at =
    by_name (text_discrete name k)
      (sym (get-put text_discrete name k route (make_room name routes)) ∙ at)
  where
    by_name :
        (t : Dec (name ≡ k))
        → (if decide t then some route else get text_discrete k (make_room name routes)) ≡ some r
        → ((name ≡ k) × (route ≡ r)) ⊎ (get text_discrete k routes ≡ some r)
    by_name (yes e) h = inl (e, cc h)
    by_name (no e) h = inr (get-make_room name k r routes h)

module _ (O : Outside) where
  -- A route stays fit under an operation that leaves the connections alone.
  abbrev with_routes : SubscriptionManager O → List (Text × Route) → SubscriptionManager O
  with_routes m routes = record m { routes = routes }

  remember-Consistent :
      (m : SubscriptionManager O) (name : Text) (route : Route)
      → Consistent O m
      → get text_discrete name m.routes ≡ none
      → Distinct ℕ_discrete route.ids
      → ((j : ℕ) → contains ℕ_discrete route.ids j ≡ wants O (connection O m j) name)
      → route.stamp < m.next_id
      → Consistent O (remember O m name route)
  unfolding remember
  remember-Consistent m name route c new once agree old =
      elim (Bool-cases (leb (length name) 256)) [
        | inr long ↦ rw (remember, long) c
        | inl short ↦
            rw (remember, short)
              (record {
                types = c.types;
                patterns = c.patterns;
                limit = c.limit;
                routes =
                    λ k r at. fits (leb→le _ _ short) (remembered_cases name k route r m.routes at);
                room = omega (
                  arith,
                  length-make_room-lt name m.routes new c.room,
                  length-put_new text_discrete name route (make_room name m.routes)
                      (get-make_room-none name m.routes new),
                );
              })
      ]
    where
      here : length name ≤ 256 → FitsRoute O m name route
      here short = record { short = short; distinct = once; agree = agree; old = old }

      moved :
          {k : Text} {r : Route}
          → FitsRoute O m k r
          → FitsRoute O (with_routes m (put text_discrete name route (make_room name m.routes))) k r
      moved f = record { short = f.short; distinct = f.distinct; agree = f.agree; old = f.old }

      fits :
          {k : Text} {r : Route}
          → length name ≤ 256
          → ((name ≡ k) × (route ≡ r)) ⊎ (get text_discrete k m.routes ≡ some r)
          → FitsRoute O (with_routes m (put text_discrete name route (make_room name m.routes))) k r
      fits {k} {r} short (inl (e, e')) =
          moved
            (subst (λ x. FitsRoute O m x r) e (subst (λ x. FitsRoute O m name x) e' (here short)))
      fits {k} {r} short (inr at) = moved (c.routes k r at)

  -- The counter of identities may go on.
  later-Consistent :
      (m : SubscriptionManager O)
      → Consistent O m
      → Consistent O (record m { next_id = m.next_id + 1 })
  later-Consistent m c = record {
    types = c.types;
    patterns = c.patterns;
    limit = c.limit;
    routes = λ name r at.
        let f = c.routes name r at in
        record {
          short = f.short;
          distinct = f.distinct;
          agree = f.agree;
          old = omega (arith, f.old);
        };
    room = c.room;
  }

  -- What `recipients` answers: each connection that wants the name, once, and no other.
  pub record IsAnswer (m : SubscriptionManager O) (name : Text) (r : Route) : Type 0 where
    pub distinct : Distinct ℕ_discrete r.ids
    pub agree : (j : ℕ) → contains ℕ_discrete r.ids j ≡ wants O (connection O m j) name

  pub recipients-IsAnswer :
      (m : SubscriptionManager O) (name : Text)
      → Consistent O m
      → IsAnswer m name (recipients O m name).0
  unfolding recipients
  recipients-IsAnswer m name c = elim (Option-cases (get text_discrete name m.routes)) [
    | inr (r, at) ↦
        let f = c.routes name r at in
        rw (at, recipients) (record { distinct = f.distinct; agree = f.agree })
    | inl new ↦
        rw (new, recipients)
          (record {
            distinct = computed_ids-Distinct O m name c.types;
            agree = λ j. contains-computed_ids O m name j c.types c.patterns;
          })
  ]

  pub recipients-Consistent :
      (m : SubscriptionManager O) (name : Text)
      → Consistent O m
      → Consistent O (recipients O m name).1
  unfolding recipients
  recipients-Consistent m name c = elim (Option-cases (get text_discrete name m.routes)) [
    | inr (r, at) ↦ rw (at, recipients) c
    | inl new ↦
        rw (new, recipients)
          (remember-Consistent (record m { next_id = m.next_id + 1 }) name _ (later-Consistent m c)
            new (computed_ids-Distinct O m name c.types)
            (λ j. contains-computed_ids O m name j c.types c.patterns) (omega arith))
  ]

  pub recipients-connections :
      (m : SubscriptionManager O) (name : Text)
      → ((recipients O m name).1.connections ≡ m.connections)
        × ((recipients O m name).1.cancelled ≡ m.cancelled)
        × (m.next_id ≤ (recipients O m name).1.next_id)
  unfolding recipients remember
  recipients-connections m name = (ground arith, ground arith, ground arith)
