-- ===== src/Broker/Members.antt =====
-- The sets of subscribers of a broker, by the names of the actors in them.
use acton_reactive.Shared.{
  ◌≡◌, refl, subst, Bool, true, false, ◌&&◌, none, some, List, [], ◌∷◌, map, decide, contains,
  is_some, if◌then◌else◌, arith, Option-cases, Bool-cases, inl, inr,
}
use acton_reactive.Shared.Table.{get}
use acton_reactive.Shared.Sets.{insert, discard, Keyed, at_put, at_remove}
use acton_reactive.World.{World}
use acton_reactive.Subscriptions.{Outside, is_nil}
use acton_reactive.Broker.{
  Subscriber, has_subscriber, insert_subscriber, drop_subscriber, or_default, without, Subscribers,
  remove_subscription, remove_all_subscriptions,
}

nil_of : {A : Type 0} (xs : List A) → is_nil xs ≡ true → xs ≡ []
nil_of [] h = refl
nil_of (x ∷ xs) h = cc

module _ (W : World) where
  open W use {Ern, ern_discrete, Handle, handle_id}

  abbrev pub names : List (Subscriber W) → List Ern
  names set = map (λ s. handle_id s.1) set

  -- Every entry stands under the name of its own handle.
  abbrev pub named : List (Subscriber W) → Bool
  named [] = true
  named (s ∷ set) = decide (ern_discrete s.0 (handle_id s.1)) && named set

  pub has_subscriber-names :
      (set : List (Subscriber W)) (handle : Handle)
      → named set ≡ true
      → has_subscriber W set (handle_id handle, handle)
        ≡ contains ern_discrete (names set) (handle_id handle)
  has_subscriber-names [] handle h = refl
  has_subscriber-names ((id, t) ∷ set) handle h = ground (arith, has_subscriber-names set handle)

  pub names-insert :
      (set : List (Subscriber W)) (handle : Handle)
      → named set ≡ true
      → names (insert_subscriber W (handle_id handle, handle) set)
        ≡ insert ern_discrete (handle_id handle) (names set)
  names-insert set handle h = ground (arith, has_subscriber-names set handle h)

  pub named-insert :
      (set : List (Subscriber W)) (handle : Handle)
      → named set ≡ true
      → named (insert_subscriber W (handle_id handle, handle) set) ≡ true
  named-insert set handle h = ground arith

  pub names-drop :
      (set : List (Subscriber W)) (handle : Handle)
      → named set ≡ true
      → names (drop_subscriber W (handle_id handle, handle) set)
        ≡ discard ern_discrete (handle_id handle) (names set)
  names-drop [] handle h = refl
  names-drop ((id, t) ∷ set) handle h = ground (arith, names-drop set handle)

  pub named-drop :
      (s : Subscriber W) (set : List (Subscriber W))
      → named set ≡ true
      → named (drop_subscriber W s set) ≡ true
  named-drop s [] h = refl
  named-drop s ((id, t) ∷ set) h = ground (arith, named-drop s set)

  pub names-without :
      (set : List (Subscriber W)) (id : Ern)
      → named set ≡ true
      → names (without W id set) ≡ discard ern_discrete id (names set)
  names-without [] id h = refl
  names-without ((k, t) ∷ set) id h = ground (arith, names-without set id)

  pub named-without :
      (id : Ern) (set : List (Subscriber W)) → named set ≡ true → named (without W id set) ≡ true
  named-without id [] h = refl
  named-without id ((k, t) ∷ set) h = ground (arith, named-without id set)

  module _ (O : Outside) where
    open O use {TypeId, type_id_discrete}

    abbrev pub set_of : Subscribers W O → TypeId → List (Subscriber W)
    set_of subscribers type_id = or_default W (get type_id_discrete type_id subscribers)

    pub set_of-remove_subscription :
        (b : Subscribers W O) (t k : TypeId) (s : Subscriber W)
        → set_of (remove_subscription W O b t s) k
          ≡ (if decide (type_id_discrete t k) then drop_subscriber W s (set_of b k) else set_of b k)
    unfolding remove_subscription
    set_of-remove_subscription b t k s = elim (Option-cases (get type_id_discrete t b)) [
      | inl none_ ↦
          rw (remove_subscription, none_)
            (elim (type_id_discrete t k) [
              | yes e ↦
                  let gone : get type_id_discrete k b ≡ none =
                    subst (λ x. get type_id_discrete x b ≡ none) e none_ in
                  ground arith
              | no ne ↦ ground arith
            ])
      | inr (set, at) ↦ elim (Bool-cases (is_nil (drop_subscriber W s set))) [
        | inl empty ↦
            rw (remove_subscription, at, empty)
              (at_remove type_id_discrete t k b (or_default W) _
                (λ same.
                  let here : get type_id_discrete k b ≡ some set =
                    subst (λ x. get type_id_discrete x b ≡ some set) same at in
                  let nil : drop_subscriber W s set ≡ [] = nil_of (drop_subscriber W s set) empty in
                  ground arith)
                (λ ne. ground arith))
        | inr full ↦
            rw (remove_subscription, at, full)
              (at_put type_id_discrete t k (drop_subscriber W s set) b (or_default W) _
                (λ same.
                  let here : get type_id_discrete k b ≡ some set =
                    subst (λ x. get type_id_discrete x b ≡ some set) same at in
                  ground arith)
                (λ ne. ground arith))
      ]
    ]

    get-remove_all :
        (b : Subscribers W O) (id : Ern) (t : TypeId)
        → is_some (get type_id_discrete t b) ≡ false
        → is_some (get type_id_discrete t (remove_all_subscriptions W O b id)) ≡ false
    unfolding remove_all_subscriptions
    get-remove_all [] id t h = refl
    get-remove_all ((k, set) ∷ b) id t h = ground (arith, get-remove_all b id t)

    pub set_of-remove_all :
        (b : Subscribers W O) (id : Ern) (t : TypeId)
        → Keyed type_id_discrete b
        → set_of (remove_all_subscriptions W O b id) t ≡ without W id (set_of b t)
    unfolding remove_all_subscriptions
    set_of-remove_all [] id t h = refl
    set_of-remove_all ((k, set) ∷ b) id t h =
        ground
          (arith, set_of-remove_all b id t h.1, get-remove_all b id t, nil_of (without W id set))

    pub remove_all-Keyed :
        (b : Subscribers W O) (id : Ern)
        → Keyed type_id_discrete b
        → Keyed type_id_discrete (remove_all_subscriptions W O b id)
    unfolding remove_all_subscriptions
    remove_all-Keyed [] id h = tt
    remove_all-Keyed ((k, set) ∷ b) id h =
        ground (arith, get-remove_all b id k h.0, remove_all-Keyed b id h.1)
