-- ===== src/Broker/Broadcasts.antt =====
-- A broker over time: whom a broadcast reaches, by what actors asked for before.
use acton_reactive.Shared.{
  ◌≡◌, refl, ◌∙◌, sym, ap, subst, Bool, true, false, not, ◌&&◌, ◌||◌, List, [], ◌∷◌, map, decide,
  contains, if◌then◌else◌, arith,
}
use acton_reactive.Shared.Sets.{
  Distinct, Keyed, put-Keyed, remove-Keyed, at_put, insert-Distinct, discard-Distinct,
  contains-insert, contains-discard,
}
use acton_reactive.World.{World}
use acton_reactive.Subscriptions.{Outside}
use acton_reactive.TypeRegistry.{Serde}
use acton_reactive.Broker.{
  Subscriber, insert_subscriber, drop_subscriber, or_default, Subscribers, subscription_of,
  unsubscription_of, handle_subscribe, handle_unsubscribe, remove_subscription,
  remove_all_subscriptions, BrokerRequest, broadcast,
}
use acton_reactive.Broker.Members.{
  names, named, names-insert, named-insert, names-drop, named-drop, names-without, named-without,
  set_of, set_of-remove_subscription, set_of-remove_all, remove_all-Keyed,
}

module _ (W : World) (O : Outside) where
  open W use {Ern, ern_discrete, Handle, handle_id}
  open O use {TypeId, type_id_discrete}

  -- What reaches a broker from actors: `subscribe` and `unsubscribe` of a handle, and the notice of
  -- an actor that stops.
  pub data Event : Type 0 where
    subscribes unsubscribes : Handle → TypeId → Event
    stops : Ern → Event

  abbrev pub apply : Event → Subscribers W O → Subscribers W O
  apply (subscribes handle t) b = handle_subscribe W O b (subscription_of W O handle t)
  apply (unsubscribes handle t) b = handle_unsubscribe W O b (unsubscription_of W O handle t)
  apply (stops id) b = remove_all_subscriptions W O b id

  -- The last event stands first.
  abbrev pub after : List Event → Subscribers W O
  after [] = []
  after (event ∷ past) = apply event (after past)

  -- Whether the last event that is about an actor and a type is a subscription.
  abbrev pub listens : List Event → TypeId → Ern → Bool
  listens [] t id = false
  listens (subscribes handle k ∷ past) t id =
      (decide (type_id_discrete k t) && decide (ern_discrete (handle_id handle) id))
      || listens past t id
  listens (unsubscribes handle k ∷ past) t id =
      not (decide (type_id_discrete k t) && decide (ern_discrete (handle_id handle) id))
      && listens past t id
  listens (stops gone ∷ past) t id = not (decide (ern_discrete gone id)) && listens past t id

  -- Each type has one set, in which every actor stands once, under its own name.
  pub record IsTidy (b : Subscribers W O) : Type 0 where
    pub keyed : Keyed type_id_discrete b
    pub own : (t : TypeId) → named W (set_of W O b t) ≡ true
    pub once : (t : TypeId) → Distinct ern_discrete (names W (set_of W O b t))

  set_of-subscribe :
      (b : Subscribers W O) (handle : Handle) (k t : TypeId)
      → set_of W O (apply (subscribes handle k) b) t ≡ (
          if decide (type_id_discrete k t)
          then insert_subscriber W (handle_id handle, handle) (set_of W O b t)
          else set_of W O b t)
  unfolding handle_subscribe
  set_of-subscribe b handle k t =
      at_put type_id_discrete k t _ b (or_default W) _
        (λ same.
          let there : set_of W O b k ≡ set_of W O b t = ap (set_of W O b) same in ground arith)
        (λ ne. ground arith)

  remove_subscription-Keyed :
      (b : Subscribers W O) (t : TypeId) (s : Subscriber W)
      → Keyed type_id_discrete b
      → Keyed type_id_discrete (remove_subscription W O b t s)
  unfolding remove_subscription
  remove_subscription-Keyed b t s h = ground (
    arith,
    remove-Keyed type_id_discrete t b h,
    put-Keyed type_id_discrete t (drop_subscriber W s (set_of W O b t)) b h,
  )

  either :
      (c : Bool) (xs ys : List (Subscriber W))
      → Distinct ern_discrete (names W xs)
      → Distinct ern_discrete (names W ys)
      → Distinct ern_discrete (names W (if c then xs else ys))
  either true xs ys h k = h
  either false xs ys h k = k

  apply-IsTidy : (event : Event) (b : Subscribers W O) → IsTidy b → IsTidy (apply event b)
  unfolding handle_subscribe handle_unsubscribe
  apply-IsTidy (subscribes handle k) b h = record {
    keyed = put-Keyed type_id_discrete k _ b h.keyed;
    own = λ t.
        ap (named W) (set_of-subscribe b handle k t)
        ∙ ground (arith, h.own t, named-insert W (set_of W O b t) handle);
    once = λ t.
        let same = names-insert W (set_of W O b t) handle (h.own t) in
        subst (λ s. Distinct ern_discrete (names W s)) (sym (set_of-subscribe b handle k t))
          (either (decide (type_id_discrete k t)) _ _
            (subst (Distinct ern_discrete) (sym same)
              (insert-Distinct ern_discrete (handle_id handle) _ (h.once t)))
            (h.once t));
  }
  apply-IsTidy (unsubscribes handle k) b h = record {
    keyed = remove_subscription-Keyed b k _ h.keyed;
    own = λ t.
        ap (named W) (set_of-remove_subscription W O b k t _)
        ∙ ground (arith, h.own t, named-drop W (handle_id handle, handle) (set_of W O b t));
    once = λ t.
        let same = names-drop W (set_of W O b t) handle (h.own t) in
        subst (λ s. Distinct ern_discrete (names W s))
          (sym (set_of-remove_subscription W O b k t _))
          (either (decide (type_id_discrete k t)) _ _
            (subst (Distinct ern_discrete) (sym same)
              (discard-Distinct ern_discrete (handle_id handle) _ (h.once t)))
            (h.once t));
  }
  apply-IsTidy (stops id) b h = record {
    keyed = remove_all-Keyed W O b id h.keyed;
    own = λ t.
        ap (named W) (set_of-remove_all W O b id t h.keyed)
        ∙ named-without W id (set_of W O b t) (h.own t);
    once = λ t.
        subst (Distinct ern_discrete)
          (sym (
            ap (names W) (set_of-remove_all W O b id t h.keyed)
            ∙ names-without W (set_of W O b t) id (h.own t)))
          (discard-Distinct ern_discrete id _ (h.once t));
  }

  after-IsTidy : (past : List Event) → IsTidy (after past)
  after-IsTidy [] = record { keyed = tt; own = λ t. refl; once = λ t. tt }
  after-IsTidy (event ∷ past) = apply-IsTidy event (after past) (after-IsTidy past)

  names-listens :
      (past : List Event) (t : TypeId) (id : Ern)
      → contains ern_discrete (names W (set_of W O (after past) t)) id ≡ listens past t id
  unfolding handle_unsubscribe
  names-listens [] t id = refl
  names-listens (subscribes handle k ∷ past) t id =
      let set = set_of W O (after past) t in
      let added =
        ap (λ s. contains ern_discrete s id) (names-insert W set handle ((after-IsTidy past).own t))
        ∙ contains-insert ern_discrete (handle_id handle) id (names W set) in
      ap (λ s. contains ern_discrete (names W s) id) (set_of-subscribe (after past) handle k t)
      ∙ by_type (decide (type_id_discrete k t)) _ set id _ added
      ∙ ap
          (λ x. (decide (type_id_discrete k t) && decide (ern_discrete (handle_id handle) id)) || x)
          (names-listens past t id)
    where
      by_type :
          (c : Bool) (xs set : List (Subscriber W)) (id : Ern) (x : Bool)
          → contains ern_discrete (names W xs) id ≡ (x || contains ern_discrete (names W set) id)
          → contains ern_discrete (names W (if c then xs else set)) id
            ≡ ((c && x) || contains ern_discrete (names W set) id)
      by_type true xs set id x h = h
      by_type false xs set id x h = refl
  names-listens (unsubscribes handle k ∷ past) t id =
      let set = set_of W O (after past) t in
      let dropped =
        ap (λ s. contains ern_discrete s id) (names-drop W set handle ((after-IsTidy past).own t))
        ∙ contains-discard ern_discrete (handle_id handle) id (names W set) in
      ap (λ s. contains ern_discrete (names W s) id)
        (set_of-remove_subscription W O (after past) k t (handle_id handle, handle))
      ∙ by_type (decide (type_id_discrete k t)) _ set id _ dropped
      ∙ ap
          (λ x.
            not (decide (type_id_discrete k t) && decide (ern_discrete (handle_id handle) id)) && x)
          (names-listens past t id)
    where
      by_type :
          (c : Bool) (xs set : List (Subscriber W)) (id : Ern) (x : Bool)
          → contains ern_discrete (names W xs) id
            ≡ (not x && contains ern_discrete (names W set) id)
          → contains ern_discrete (names W (if c then xs else set)) id
            ≡ (not (c && x) && contains ern_discrete (names W set) id)
      by_type true xs set id x h = h
      by_type false xs set id x h = refl
  names-listens (stops gone ∷ past) t id =
      let tidy = after-IsTidy past in
      let set = set_of W O (after past) t in
      ap (λ s. contains ern_discrete (names W s) id)
        (set_of-remove_all W O (after past) gone t tidy.keyed)
      ∙ ap (λ s. contains ern_discrete s id) (names-without W set gone (tidy.own t))
      ∙ contains-discard ern_discrete gone id (names W set)
      ∙ ap (λ x. not (decide (ern_discrete gone id)) && x) (names-listens past t id)

  handles-names :
      {M : Type 0} (set : List (Subscriber W)) (message : M)
      → map (λ (d : Handle × M). handle_id d.0) (map (λ (s : Subscriber W). (s.1, message)) set)
        ≡ names W set
  handles-names [] message = refl
  handles-names (s ∷ set) message = ap (λ rest. handle_id s.1 ∷ rest) (handles-names set message)

  messages_same :
      {M : Type 0} (set : List (Subscriber W)) (message : M)
      → map (λ (d : Handle × M). d.1) (map (λ (s : Subscriber W). (s.1, message)) set)
        ≡ map (λ (d : Handle × M). message) (map (λ (s : Subscriber W). (s.1, message)) set)
  messages_same [] message = refl
  messages_same (s ∷ set) message = ap (λ rest. message ∷ rest) (messages_same set message)

  -- After any requests of actors, a broadcast is sent once to each actor, and exactly to those
  -- whose last request about its type was to subscribe and that have not stopped since; what is
  -- sent is the message of the broadcast.
  pub broadcast_lem :
      (D : Serde) (past : List Event) (request : BrokerRequest W O D)
      → let deliveries = broadcast W O D (after past) request in
        ((id : Ern)
          → contains ern_discrete (map (λ d. handle_id d.0) deliveries) id
            ≡ listens past request.message_type_id id)
        × Distinct ern_discrete (map (λ d. handle_id d.0) deliveries)
        × (map (λ d. d.1) deliveries ≡ map (λ d. request.message) deliveries)
  unfolding broadcast
  broadcast_lem D past request =
      let set = set_of W O (after past) request.message_type_id in
      let same = handles-names set request.message in
      (
        λ id.
            ap (λ s. contains ern_discrete s id) same
            ∙ names-listens past request.message_type_id id,
        subst (Distinct ern_discrete) (sym same) ((after-IsTidy past).once request.message_type_id),
        messages_same set request.message,
      )
