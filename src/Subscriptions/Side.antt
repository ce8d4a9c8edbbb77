-- ===== src/Subscriptions/Side.antt =====
-- A table of connections with a set of keys for each, and the index by key: either of the two
-- sides, names and patterns, of the state.
use acton_reactive.Shared.{
  ℕ, ◌≡◌, ◌≢◌, ◌∙◌, sym, ap, subst, not, ◌&&◌, Option, none, some, List, [], decide, contains,
  arith, if◌then◌else◌, ℕ_discrete,
}
use acton_reactive.Shared.Table.{get, put, remove}
use acton_reactive.Shared.Sets.{Distinct, get-put, get-remove}
use acton_reactive.Subscriptions.{ConnectionId, Work, remove_indices, choose_all, drop_all}
use acton_reactive.Subscriptions.Index.{
  has_key, IsIndex, remove_indices-IsIndex, has_key-remove_indices,
}
use acton_reactive.Subscriptions.Choosing.{
  IsWork, choose_all-IsWork, drop_all-IsWork, choose_all-other, drop_all-other,
}

module _ {K V : Type 0} (d : Discrete K) (keys_of : Option V → List K) where
  pub record Side (conns : List (ConnectionId × V)) (index : List (K × List ConnectionId))
      : Type 0 where
    pub tidy : IsIndex d index
    pub agree :
        (j : ConnectionId) (k : K)
        → has_key d index k j ≡ contains d (keys_of (get ℕ_discrete j conns)) k
    pub distinct : (j : ConnectionId) → Distinct d (keys_of (get ℕ_discrete j conns))

  -- One connection is written, with keys that agree with the index.
  put-agree :
      (conns : List (ConnectionId × V)) (index : List (K × List ConnectionId)) (id : ConnectionId)
      (v : V)
      → ((k : K) → has_key d index k id ≡ contains d (keys_of (some v)) k)
      → ((j : ConnectionId) (k : K)
          → id ≢ j
          → has_key d index k j ≡ contains d (keys_of (get ℕ_discrete j conns)) k)
      → (j : ConnectionId) (k : K)
      → has_key d index k j ≡ contains d (keys_of (get ℕ_discrete j (put ℕ_discrete id v conns))) k
  put-agree conns index id v here others j k =
      rw (get-put ℕ_discrete id j v conns) (by_id (ℕ_discrete id j))
    where
      by_id :
          (t : Dec (id ≡ j))
          → has_key d index k j
            ≡ contains d (keys_of (if decide t then some v else get ℕ_discrete j conns)) k
      by_id (yes same) =
          subst (λ x. has_key d index k x ≡ contains d (keys_of (some v)) k) same (here k)
      by_id (no ne) = others j k ne

  put-distinct :
      (conns : List (ConnectionId × V)) (id : ConnectionId) (v : V)
      → Distinct d (keys_of (some v))
      → ((j : ConnectionId) → Distinct d (keys_of (get ℕ_discrete j conns)))
      → (j : ConnectionId) → Distinct d (keys_of (get ℕ_discrete j (put ℕ_discrete id v conns)))
  put-distinct conns id v here others j =
      rw (get-put ℕ_discrete id j v conns) (by_id (ℕ_discrete id j))
    where
      by_id :
          (t : Dec (id ≡ j))
          → Distinct d (keys_of (if decide t then some v else get ℕ_discrete j conns))
      by_id (yes same) = here
      by_id (no ne) = others j

  pub Side-keep :
      (conns : List (ConnectionId × V)) (index : List (K × List ConnectionId)) (id : ConnectionId)
      (v : V)
      → Side conns index
      → keys_of (some v) ≡ keys_of (get ℕ_discrete id conns)
      → Side (put ℕ_discrete id v conns) index
  Side-keep conns index id v s same = record {
    tidy = s.tidy;
    agree =
        put-agree conns index id v (λ k. s.agree id k ∙ ap (λ ks. contains d ks k) (sym same))
          (λ j k ne. s.agree j k);
    distinct = put-distinct conns id v (subst (Distinct d) (sym same) (s.distinct id)) s.distinct;
  }

  Side-work :
      (conns : List (ConnectionId × V)) (index : List (K × List ConnectionId)) (id : ConnectionId)
      (v : V) (w : Work K)
      → Side conns index
      → IsWork d id w
      → w.chosen ≡ keys_of (some v)
      → ((j : ConnectionId) (k : K) → id ≢ j → has_key d w.index k j ≡ has_key d index k j)
      → Side (put ℕ_discrete id v conns) w.index
  Side-work conns index id v w s i same others = record {
    tidy = i.tidy;
    agree =
        put-agree conns w.index id v (λ k. i.agree k ∙ ap (λ ks. contains d ks k) same)
          (λ j k ne. others j k ne ∙ s.agree j k);
    distinct = put-distinct conns id v (subst (Distinct d) same i.distinct) s.distinct;
  }

  -- Where a connection's work begins.
  IsWork-of :
      (conns : List (ConnectionId × V)) (index : List (K × List ConnectionId)) (id : ConnectionId)
      (v : V) (n : ℕ)
      → Side conns index
      → get ℕ_discrete id conns ≡ some v
      → IsWork d id (record { chosen = keys_of (some v); index = index; changed = n })
  IsWork-of conns index id v n s at = record {
    tidy = s.tidy;
    distinct = subst (λ o. Distinct d (keys_of o)) at (s.distinct id);
    agree = λ k. s.agree id k ∙ ap (λ o. contains d (keys_of o) k) at;
  }

  pub Side-choose :
      (conns : List (ConnectionId × V)) (index : List (K × List ConnectionId)) (id : ConnectionId)
      (v v' : V) (keys : List K) (n : ℕ)
      → let w =
          choose_all d id keys (record { chosen = keys_of (some v); index = index; changed = n }) in
        Side conns index
        → get ℕ_discrete id conns ≡ some v
        → w.chosen ≡ keys_of (some v')
        → Side (put ℕ_discrete id v' conns) w.index
  Side-choose conns index id v v' keys n s at same =
      let w : Work K = record { chosen = keys_of (some v); index = index; changed = n } in
      Side-work conns index id v' (choose_all d id keys w) s
        (choose_all-IsWork d id keys w (IsWork-of conns index id v n s at)) same
        (λ j k ne. choose_all-other d id j keys k w ne)

  pub Side-drop :
      (conns : List (ConnectionId × V)) (index : List (K × List ConnectionId)) (id : ConnectionId)
      (v v' : V) (keys : List K) (n : ℕ)
      → let w =
          drop_all d id keys (record { chosen = keys_of (some v); index = index; changed = n }) in
        Side conns index
        → get ℕ_discrete id conns ≡ some v
        → w.chosen ≡ keys_of (some v')
        → Side (put ℕ_discrete id v' conns) w.index
  Side-drop conns index id v v' keys n s at same =
      let w : Work K = record { chosen = keys_of (some v); index = index; changed = n } in
      Side-work conns index id v' (drop_all d id keys w) s
        (drop_all-IsWork d id keys w (IsWork-of conns index id v n s at)) same
        (λ j k ne. drop_all-other d id j keys k w ne)

  pub Side-remove :
      (conns : List (ConnectionId × V)) (index : List (K × List ConnectionId)) (id : ConnectionId)
      (v : V)
      → Side conns index
      → get ℕ_discrete id conns ≡ some v
      → keys_of none ≡ []
      → Side (remove ℕ_discrete id conns) (remove_indices d (keys_of (some v)) id index)
  Side-remove conns index id v s at empty = record {
    tidy = remove_indices-IsIndex d (keys_of (some v)) id index s.tidy;
    agree = λ j k.
        has_key-remove_indices d (keys_of (some v)) k id j index
        ∙ rw (get-remove ℕ_discrete id j conns) (agree_at (ℕ_discrete id j) j k);
    distinct = λ j. rw (get-remove ℕ_discrete id j conns) (distinct_at (ℕ_discrete id j) j);
  }
    where
      agree_at :
          {j' : ConnectionId} (t : Dec (id ≡ j')) (j : ConnectionId) (k : K)
          → (not (contains d (keys_of (some v)) k && decide t) && has_key d index k j')
            ≡ contains d (keys_of (if decide t then none else get ℕ_discrete j' conns)) k
      agree_at {j'} (yes same) j k =
          let here : has_key d index k j' ≡ contains d (keys_of (some v)) k =
            ap (has_key d index k) (sym same)
            ∙ s.agree id k
            ∙ ap (λ o. contains d (keys_of o) k) at in
          rw (here, empty) (ground arith)
      agree_at {j'} (no ne) j k = ground (arith, s.agree j' k)

      distinct_at :
          {j' : ConnectionId} (t : Dec (id ≡ j')) (j : ConnectionId)
          → Distinct d (keys_of (if decide t then none else get ℕ_discrete j' conns))
      distinct_at (yes same) j = rw empty tt
      distinct_at {j'} (no ne) j = s.distinct j'

  pub Side-empty : keys_of none ≡ [] → Side [] []
  Side-empty e = record {
    tidy = record { keyed = tt; entries = λ key ids h. absurd (cc h) };
    agree = λ j k. ap (λ ks. contains d ks k) (sym e);
    distinct = λ j. rw e tt;
  }
