-- ===== src/Subscriptions/Choosing.antt =====
-- A connection's set of keys and the index, when keys are added or taken away.
use acton_reactive.Shared.{
  ◌≡◌, refl, ◌≢◌, ◌∙◌, not, ◌&&◌, ◌||◌, List, [], ◌∷◌, contains, arith, Bool-cases, inl, inr,
}
use acton_reactive.Shared.Sets.{Distinct, contains-insert, contains-discard, discard-Distinct}
use acton_reactive.Subscriptions.{ConnectionId, Work, choose_one, choose_all, drop_one, drop_all}
use acton_reactive.Subscriptions.Index.{
  has_key, IsIndex, has_key-add_index, add_index-IsIndex, has_key-remove_index,
  remove_index-IsIndex,
}

module _ {K : Type 0} (d : Discrete K) where
  -- One connection's keys agree with the index.
  pub record IsWork (id : ConnectionId) (w : Work K) : Type 0 where
    pub tidy : IsIndex d w.index
    pub distinct : Distinct d w.chosen
    pub agree : (k : K) → has_key d w.index k id ≡ contains d w.chosen k

  choose_one-IsWork :
      (id : ConnectionId) (key : K) (w : Work K) → IsWork id w → IsWork id (choose_one d id key w)
  unfolding choose_one
  choose_one-IsWork id key w i = elim (Bool-cases (contains d w.chosen key)) [
    | inl known ↦ rw (known, choose_one) i
    | inr new ↦
        rw (new, choose_one)
          (record {
            tidy = add_index-IsIndex d key id w.index i.tidy;
            distinct = ground (arith, i.distinct);
            agree = λ k. has_key-add_index d key k id id w.index ∙ rw (i.agree k) (ground arith);
          })
  ]

  pub choose_all-IsWork :
      (id : ConnectionId) (keys : List K) (w : Work K)
      → IsWork id w
      → IsWork id (choose_all d id keys w)
  unfolding choose_all
  choose_all-IsWork id [] w i = i
  choose_all-IsWork id (key ∷ keys) w i =
      choose_all-IsWork id keys (choose_one d id key w) (choose_one-IsWork id key w i)

  drop_one-IsWork :
      (id : ConnectionId) (key : K) (w : Work K) → IsWork id w → IsWork id (drop_one d id key w)
  unfolding drop_one
  drop_one-IsWork id key w i = elim (Bool-cases (contains d w.chosen key)) [
    | inr unknown ↦ rw (unknown, drop_one) i
    | inl known ↦
        rw (known, drop_one)
          (record {
            tidy = remove_index-IsIndex d key id w.index i.tidy;
            distinct = discard-Distinct d key w.chosen i.distinct;
            agree = λ k.
                has_key-remove_index d key k id id w.index
                ∙ rw (i.agree k, contains-discard d key k w.chosen) (ground arith);
          })
  ]

  pub drop_all-IsWork :
      (id : ConnectionId) (keys : List K) (w : Work K)
      → IsWork id w
      → IsWork id (drop_all d id keys w)
  unfolding drop_all
  drop_all-IsWork id [] w i = i
  drop_all-IsWork id (key ∷ keys) w i =
      drop_all-IsWork id keys (drop_one d id key w) (drop_one-IsWork id key w i)

  -- Nobody else's keys change.
  pub choose_all-other :
      (id j : ConnectionId) (keys : List K) (k : K) (w : Work K)
      → id ≢ j
      → has_key d (choose_all d id keys w).index k j ≡ has_key d w.index k j
  unfolding choose_all choose_one
  choose_all-other id j [] k w ne = refl
  choose_all-other id j (key ∷ keys) k w ne =
      choose_all-other id j keys k (choose_one d id key w) ne
      ∙ ground (arith, has_key-add_index d key k id j w.index)

  pub drop_all-other :
      (id j : ConnectionId) (keys : List K) (k : K) (w : Work K)
      → id ≢ j
      → has_key d (drop_all d id keys w).index k j ≡ has_key d w.index k j
  unfolding drop_all drop_one
  drop_all-other id j [] k w ne = refl
  drop_all-other id j (key ∷ keys) k w ne =
      drop_all-other id j keys k (drop_one d id key w) ne
      ∙ ground (arith, has_key-remove_index d key k id j w.index)

  -- What one ends up with.
  pub contains-choose_all :
      (id : ConnectionId) (keys : List K) (k : K) (w : Work K)
      → contains d (choose_all d id keys w).chosen k ≡ (contains d keys k || contains d w.chosen k)
  unfolding choose_all choose_one
  contains-choose_all id [] k w = refl
  contains-choose_all id (key ∷ keys) k w =
      contains-choose_all id keys k (choose_one d id key w)
      ∙ ground (arith, contains-insert d key k w.chosen)

  pub contains-drop_all :
      (id : ConnectionId) (keys : List K) (k : K) (w : Work K)
      → contains d (drop_all d id keys w).chosen k
        ≡ (not (contains d keys k) && contains d w.chosen k)
  unfolding drop_all drop_one
  contains-drop_all id [] k w = refl
  contains-drop_all id (key ∷ keys) k w =
      contains-drop_all id keys k (drop_one d id key w)
      ∙ ground (arith, contains-discard d key k w.chosen)
