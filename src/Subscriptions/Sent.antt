-- ===== src/Subscriptions/Sent.antt =====
-- Who is sent a notification, and who is asked for first.
use acton_reactive.Shared.{
  ℕ, ◌≡◌, refl, ◌≢◌, ◌∙◌, sym, ap, Bool, true, false, ◌&&◌, List, [], ◌∷◌, ◌++◌, In, contains,
  arith, ℕ_discrete, inl, inr, ◌↔◌,
}
use acton_reactive.Shared.Sets.{Distinct}
use acton_reactive.Subscriptions.{Outside, SubscriptionManager}
use acton_reactive.Subscriptions.Delivery.{
  Visit, skipped, direct, candidate, visit, direct_of, candidate_of, directs, candidates,
  DeliveryCandidate,
}

module _ (O : Outside) where
  abbrev pub is_direct : Visit O → Bool
  is_direct direct = true
  is_direct _ = false

  pub contains-directs :
      (m : SubscriptionManager O) (ids : List ℕ) (j : ℕ)
      → contains ℕ_discrete (directs O m ids) j
        ≡ (contains ℕ_discrete ids j && is_direct (visit O m j))
  unfolding directs
  contains-directs m [] j = refl
  contains-directs m (id ∷ ids) j = by_visit (visit O m id) refl (contains-directs m ids j)
    where
      by_visit :
          (v : Visit O)
          → visit O m id ≡ v
          → contains ℕ_discrete (directs O m ids) j
            ≡ (contains ℕ_discrete ids j && is_direct (visit O m j))
          → contains ℕ_discrete (direct_of O v id ++ directs O m ids) j
            ≡ (contains ℕ_discrete (id ∷ ids) j && is_direct (visit O m j))
      by_visit direct e ih = ground arith
      by_visit skipped e ih = ground arith
      by_visit (candidate c) e ih = ground arith

  pub directs-Distinct :
      (m : SubscriptionManager O) (ids : List ℕ)
      → Distinct ℕ_discrete ids
      → Distinct ℕ_discrete (directs O m ids)
  unfolding directs
  directs-Distinct m [] h = tt
  directs-Distinct m (id ∷ ids) h = by_visit (visit O m id) (directs-Distinct m ids h.1)
    where
      by_visit :
          (v : Visit O)
          → Distinct ℕ_discrete (directs O m ids)
          → Distinct ℕ_discrete (direct_of O v id ++ directs O m ids)
      by_visit direct ih = (rw (contains-directs m ids id, h.0) refl, ih)
      by_visit skipped ih = ih
      by_visit (candidate c) ih = ih

  visit-candidate :
      (m : SubscriptionManager O) (id : ℕ) (c : DeliveryCandidate O)
      → visit O m id ≡ candidate c
      → c.conn_id ≡ id
  unfolding visit
  visit-candidate m id c e = ground arith

  -- What makes a connection a candidate.
  abbrev pub Asked : SubscriptionManager O → List ℕ → DeliveryCandidate O → Type 0
  Asked m ids c = (contains ℕ_discrete ids c.conn_id ≡ true) × (visit O m c.conn_id ≡ candidate c)

  Asked-tail :
      (m : SubscriptionManager O) (id : ℕ) (ids : List ℕ) (c : DeliveryCandidate O)
      → id ≢ c.conn_id
      → Asked m (id ∷ ids) c
      → Asked m ids c
  Asked-tail m id ids c ne h = (ground arith, h.1)

  Asked-cons :
      (m : SubscriptionManager O) (id : ℕ) (ids : List ℕ) (c : DeliveryCandidate O)
      → Asked m ids c
      → Asked m (id ∷ ids) c
  Asked-cons m id ids c h = (ground arith, h.1)

  Asked-head :
      (m : SubscriptionManager O) (id : ℕ) (ids : List ℕ) (c : DeliveryCandidate O)
      → visit O m id ≡ candidate c
      → Asked m (id ∷ ids) c
  Asked-head m id ids c e =
      let here = visit-candidate m id c e in (ground arith, ap (visit O m) here ∙ e)

  -- The head of the list, once it was visited.
  Asked_same :
      (m : SubscriptionManager O) (id : ℕ) (v : Visit O) (c : DeliveryCandidate O)
      → visit O m id ≡ v
      → id ≡ c.conn_id
      → visit O m c.conn_id ≡ candidate c
      → v ≡ candidate c
  Asked_same m id v c e same h = sym e ∙ ap (visit O m) same ∙ h

  pub In-candidates :
      (m : SubscriptionManager O) (ids : List ℕ) (c : DeliveryCandidate O)
      → In c (candidates O m ids) ↔ Asked m ids c
  unfolding candidates
  In-candidates m [] c = (λ h. absurd h, λ h. absurd (cc h.0))
  In-candidates m (id ∷ ids) c = by_visit (visit O m id) refl (In-candidates m ids c)
    where
      by_visit :
          (v : Visit O)
          → visit O m id ≡ v
          → In c (candidates O m ids) ↔ Asked m ids c
          → In c (candidate_of O v ++ candidates O m ids) ↔ Asked m (id ∷ ids) c
      by_visit direct e ih = (
        λ h. Asked-cons m id ids c (ih.0 h),
        λ h. elim (ℕ_discrete id c.conn_id) [
          | yes same ↦ absurd (cc (Asked_same m id direct c e same h.1))
          | no ne ↦ ih.1 (Asked-tail m id ids c ne h)
        ],
      )
      by_visit skipped e ih = (
        λ h. Asked-cons m id ids c (ih.0 h),
        λ h. elim (ℕ_discrete id c.conn_id) [
          | yes same ↦ absurd (cc (Asked_same m id skipped c e same h.1))
          | no ne ↦ ih.1 (Asked-tail m id ids c ne h)
        ],
      )
      by_visit (candidate c') e ih = (
        λ h. elim h [
          | inl here ↦ Asked-head m id ids c (e ∙ ap candidate (sym here))
          | inr there ↦ Asked-cons m id ids c (ih.0 there)
        ],
        λ h. elim (ℕ_discrete id c.conn_id) [
          | yes same ↦ inl (cc (Asked_same m id (candidate c') c e same h.1))
          | no ne ↦ inr (ih.1 (Asked-tail m id ids c ne h))
        ],
      )
