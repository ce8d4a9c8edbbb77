-- ===== src/Subscriptions/Steady.antt =====
-- What the parts of a forwarding, and the operations that touch no table, leave as it is.
use acton_reactive.Shared.{
  ℕ, ◌+◌, ◌≡◌, refl, ◌∙◌, sym, ap, subst, Bool, List, [], ◌∷◌, arith, ℕ_discrete,
}
use acton_reactive.Shared.Table.{get}
use acton_reactive.Shared.Sets.{insert}
use acton_reactive.Subscriptions.Patterns.{Text, text_discrete}
use acton_reactive.Subscriptions.{ConnectionId, Outside, Route, SubscriptionManager}
use acton_reactive.Subscriptions.Connections.{register_type_mapping}
use acton_reactive.Subscriptions.Delivery.{
  SendOutcome, recipients, DeliveryCandidate, send_all, send_notification, begin_forward,
  finish_candidate, directs,
}
use acton_reactive.Subscriptions.Invariant.{Consistent}
use acton_reactive.Subscriptions.Cache.{recipients-Consistent}
use acton_reactive.Subscriptions.Stamps.{Stamped}

module _ (O : Outside) where
  open O use {TypeId}

  -- The same tables, cache and identities, with other counters, type names and cancelled tokens.
  pub record SameTables (m m' : SubscriptionManager O) : Type 0 where
    pub connections : m'.connections ≡ m.connections
    pub exact : m'.exact ≡ m.exact
    pub patterns : m'.patterns ≡ m.patterns
    pub routes : m'.routes ≡ m.routes
    pub next_id : m'.next_id ≡ m.next_id

  pub SameTables-Consistent :
      (m m' : SubscriptionManager O) → SameTables m m' → Consistent O m → Consistent O m'
  SameTables-Consistent m m' s c =
      let with_stats : SubscriptionManager O = record m {
        type_id_to_name = m'.type_id_to_name;
        stats = m'.stats;
        cancelled = m'.cancelled;
      } in
      let same : with_stats ≡ m' = ground arith in
      subst (Consistent O) same (record {
        types = c.types;
        patterns = c.patterns;
        limit = c.limit;
        routes = λ name r at.
            let f = c.routes name r at in
            record { short = f.short; distinct = f.distinct; agree = f.agree; old = f.old };
        room = c.room;
      })

  pub SameTables-Stamped :
      (name : Text) (held : Route) (m m' : SubscriptionManager O)
      → SameTables m m'
      → Stamped O name held m
      → Stamped O name held m'
  SameTables-Stamped name held m m' s h = record {
    older = rw s.next_id h.older;
    same = λ r at. h.same r (ap (get text_discrete name) (sym s.routes) ∙ at);
  }

  pub send_all-SameTables :
      (outcome : ConnectionId → SendOutcome) (ids : List ConnectionId) (m : SubscriptionManager O)
      → SameTables m (send_all O outcome ids m)
  unfolding send_all send_notification
  send_all-SameTables outcome [] m = record {
    connections = refl;
    exact = refl;
    patterns = refl;
    routes = refl;
    next_id = refl;
  }
  send_all-SameTables outcome (id ∷ ids) m =
      let rest = send_all-SameTables outcome ids (send_notification O m (outcome id)) in
      record {
        connections = rest.connections;
        exact = rest.exact;
        patterns = rest.patterns;
        routes = rest.routes;
        next_id = rest.next_id;
      }

  pub finish-SameTables :
      (m : SubscriptionManager O) (name : Text) (route : Route) (c : DeliveryCandidate O)
      (authorized : Bool) (outcome : SendOutcome)
      → SameTables m (finish_candidate O m name route c authorized outcome).1
  unfolding finish_candidate send_notification
  finish-SameTables m name route c authorized outcome = ground arith

  pub cancels-SameTables :
      (m : SubscriptionManager O) (token : ℕ)
      → SameTables m (record m { cancelled = insert ℕ_discrete token m.cancelled })
  cancels-SameTables m token = record {
    connections = refl;
    exact = refl;
    patterns = refl;
    routes = refl;
    next_id = refl;
  }

  pub maps-SameTables :
      (m : SubscriptionManager O) (type_id : TypeId) (name : Text)
      → SameTables m (register_type_mapping O m type_id name)
  unfolding register_type_mapping
  maps-SameTables m type_id name = record {
    connections = refl;
    exact = refl;
    patterns = refl;
    routes = refl;
    next_id = refl;
  }

  pub later-Stamped :
      (name : Text) (held : Route) (m : SubscriptionManager O) (n : ℕ)
      → Stamped O name held m
      → Stamped O name held (record m { next_id = m.next_id + n })
  later-Stamped name held m n h = record { older = omega (arith, h.older); same = h.same }

  pub later-Consistent :
      (m : SubscriptionManager O) (n : ℕ)
      → Consistent O m
      → Consistent O (record m { next_id = m.next_id + n })
  later-Consistent m n c = record {
    types = c.types;
    patterns = c.patterns;
    limit = c.limit;
    routes = λ name r at.
        let f = c.routes name r at in
        record {
          short = f.short;
          distinct = f.distinct;
          agree = f.agree;
          old = omega (arith, f.old);
        };
    room = c.room;
  }

  pub begin_forward-Consistent :
      (m : SubscriptionManager O) (name : Text) (outcome : ConnectionId → SendOutcome)
      → Consistent O m
      → Consistent O (begin_forward O m name outcome).manager
  unfolding begin_forward
  begin_forward-Consistent m name outcome c =
      SameTables-Consistent (recipients O m name).1 _
        (send_all-SameTables outcome (directs O (recipients O m name).1 (recipients O m name).0.ids)
          _)
        (recipients-Consistent O m name c)

  pub begin_forward-Stamped :
      (m : SubscriptionManager O) (k name : Text) (outcome : ConnectionId → SendOutcome)
      (held : Route)
      → Stamped O name held (recipients O m k).1
      → Stamped O name held (begin_forward O m k outcome).manager
  unfolding begin_forward
  begin_forward-Stamped m k name outcome held h =
      SameTables-Stamped name held (recipients O m k).1 _
        (send_all-SameTables outcome (directs O (recipients O m k).1 (recipients O m k).0.ids) _) h
