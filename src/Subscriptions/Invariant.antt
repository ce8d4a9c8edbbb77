-- ===== src/Subscriptions/Invariant.antt =====
-- What holds of a subscription manager between two operations.
use acton_reactive.Shared.{
  ◌≤◌, ◌<◌, ◌≡◌, refl, ◌∙◌, sym, ap, none, some, List, [], decide, length, contains, arith,
  if◌then◌else◌, ℕ_discrete, Option-cases, inl, inr,
}
use acton_reactive.Shared.Table.{get, put, remove}
use acton_reactive.Shared.Sets.{Distinct, get-put, get-remove}
use acton_reactive.Subscriptions.Patterns.{Text, text_discrete, pattern_discrete}
use acton_reactive.Subscriptions.{
  ConnectionId, Outside, Route, ConnectionInfo, SubscriptionManager, connection, new,
}
use acton_reactive.Subscriptions.Connections.{
  remove_connection, insert_connection, unregister_connection,
}
use acton_reactive.Subscriptions.Delivery.{route_limit}
use acton_reactive.Subscriptions.Side.{Side, Side-keep, Side-remove, Side-empty}
use acton_reactive.Subscriptions.Routes.{names_of, patterns_of, wants}

module _ (O : Outside) where
  -- A route in the cache lists each connection that wants its name, once, and no other.
  pub record FitsRoute (m : SubscriptionManager O) (name : Text) (r : Route) : Type 0 where
    pub short : length name ≤ 256
    pub distinct : Distinct ℕ_discrete r.ids
    pub agree : (j : ConnectionId) → contains ℕ_discrete r.ids j ≡ wants O (connection O m j) name
    pub old : r.stamp < m.next_id

  abbrev pub PatternLimit : List (ConnectionId × ConnectionInfo O) → Type 0
  PatternLimit conns = (j : ConnectionId) → length (patterns_of O (get ℕ_discrete j conns)) ≤ 128

  pub record Consistent (m : SubscriptionManager O) : Type 0 where
    pub types : Side text_discrete (names_of O) m.connections m.exact
    pub patterns : Side pattern_discrete (patterns_of O) m.connections m.patterns
    pub limit : PatternLimit m.connections
    pub routes :
        (name : Text) (r : Route) → get text_discrete name m.routes ≡ some r → FitsRoute m name r
    pub room : length m.routes ≤ route_limit

  pub PatternLimit-put :
      (conns : List (ConnectionId × ConnectionInfo O)) (id : ConnectionId) (info : ConnectionInfo O)
      → PatternLimit conns
      → length info.subscribed_patterns ≤ 128
      → PatternLimit (put ℕ_discrete id info conns)
  PatternLimit-put conns id info h here j =
      rw (get-put ℕ_discrete id j info conns) (by_id (ℕ_discrete id j))
    where
      by_id :
          (t : Dec (id ≡ j))
          → length (patterns_of O (if decide t then some info else get ℕ_discrete j conns)) ≤ 128
      by_id (yes e) = here
      by_id (no e) = h j

  PatternLimit-remove :
      (conns : List (ConnectionId × ConnectionInfo O)) (id : ConnectionId)
      → PatternLimit conns
      → PatternLimit (remove ℕ_discrete id conns)
  PatternLimit-remove conns id h j = rw (get-remove ℕ_discrete id j conns) (by_id (ℕ_discrete id j))
    where
      by_id :
          (t : Dec (id ≡ j))
          → length (patterns_of O (if decide t then none else get ℕ_discrete j conns)) ≤ 128
      by_id (yes e) = omega arith
      by_id (no e) = h j

  -- The part that an operation which clears the cache has to keep.
  pub record Indexed (m : SubscriptionManager O) : Type 0 where
    pub types : Side text_discrete (names_of O) m.connections m.exact
    pub patterns : Side pattern_discrete (patterns_of O) m.connections m.patterns
    pub limit : PatternLimit m.connections

  pub cleared : (m : SubscriptionManager O) → Indexed m → m.routes ≡ [] → Consistent m
  cleared m i e = record {
    types = i.types;
    patterns = i.patterns;
    limit = i.limit;
    routes = λ name r at. absurd (cc (ap (get text_discrete name) (sym e) ∙ at));
    room = rw e (omega arith);
  }

  remove_connection-Indexed :
      (m : SubscriptionManager O) (id : ConnectionId)
      → Consistent m
      → Indexed (remove_connection O m id).1 × (connection O (remove_connection O m id).1 id ≡ none)
  unfolding remove_connection
  remove_connection-Indexed m id c = elim (Option-cases (connection O m id)) [
    | inl unknown ↦
        rw (unknown, remove_connection)
          (record { types = c.types; patterns = c.patterns; limit = c.limit }, unknown)
    | inr (info, at) ↦
        rw (at, remove_connection)
          (
            record {
              types =
                  Side-remove text_discrete (names_of O) m.connections m.exact id info c.types at
                    refl;
              patterns =
                  Side-remove pattern_discrete (patterns_of O) m.connections m.patterns id info
                    c.patterns at refl;
              limit = PatternLimit-remove m.connections id c.limit;
            },
            get-remove ℕ_discrete id id m.connections ∙ ground arith,
          )
  ]

  pub insert_connection-Consistent :
      (m : SubscriptionManager O) (id : ConnectionId) (info : ConnectionInfo O)
      → info.subscribed_types ≡ []
      → info.subscribed_patterns ≡ []
      → Consistent m
      → Consistent (insert_connection O m id info)
  unfolding insert_connection
  insert_connection-Consistent m id info no_types no_patterns c =
      let m' = (remove_connection O m id).1 in
      let (i, gone) = remove_connection-Indexed m id c in
      cleared (insert_connection O m id info)
        (record {
          types =
              Side-keep text_discrete (names_of O) m'.connections m'.exact id info i.types
                (no_types ∙ sym (ap (names_of O) gone));
          patterns =
              Side-keep pattern_discrete (patterns_of O) m'.connections m'.patterns id info
                i.patterns (no_patterns ∙ sym (ap (patterns_of O) gone));
          limit = PatternLimit-put m'.connections id info i.limit (rw no_patterns (omega arith));
        })
        refl

  pub unregister_connection-Consistent :
      (m : SubscriptionManager O) (id : ConnectionId)
      → Consistent m
      → Consistent (unregister_connection O m id)
  unfolding unregister_connection
  unregister_connection-Consistent m id c =
      let i = (remove_connection-Indexed m id c).0 in
      cleared (unregister_connection O m id)
        (record { types = i.types; patterns = i.patterns; limit = i.limit }) refl

  pub new-Consistent : Consistent (new O)
  new-Consistent =
      cleared (new O)
        (record {
          types = Side-empty text_discrete (names_of O) refl;
          patterns = Side-empty pattern_discrete (patterns_of O) refl;
          limit = λ j. omega arith;
        })
        refl
