-- ===== src/Subscriptions/Index.antt =====
-- An index of who has which key, and one connection's set of keys: they change together.
use acton_reactive.Shared.{
  ◌≡◌, refl, ◌∙◌, sym, ap, Bool, false, not, ◌&&◌, ◌||◌, none, some, List, [], ◌∷◌, decide,
  contains, arith, if◌then◌else◌, ℕ_discrete, Option-cases, inl, inr,
}
use acton_reactive.Shared.Table.{get, put, remove}
use acton_reactive.Shared.Sets.{
  insert, discard, Distinct, contains-insert, contains-discard, insert-Distinct, discard-Distinct,
  get-put, get-remove, Keyed, put-Keyed, remove-Keyed,
}
use acton_reactive.Subscriptions.{
  ConnectionId, or_empty, is_nil, add_index, remove_index, remove_indices,
}

module _ {K : Type 0} (d : Discrete K) where
  abbrev pub has_key : List (K × List ConnectionId) → K → ConnectionId → Bool
  has_key index key id = contains ℕ_discrete (or_empty (get d key index)) id

  -- One entry for each key, and each with a set that is not empty.
  pub record IsIndex (index : List (K × List ConnectionId)) : Type 0 where
    pub keyed : Keyed d index
    pub entries :
        (key : K) (ids : List ConnectionId)
        → get d key index ≡ some ids
        → Distinct ℕ_discrete ids × (is_nil ids ≡ false)

  pub or_empty-Distinct :
      (key : K) (index : List (K × List ConnectionId))
      → IsIndex index
      → Distinct ℕ_discrete (or_empty (get d key index))
  or_empty-Distinct key index t = elim (Option-cases (get d key index)) [
    | inl e ↦ rw e tt
    | inr (ids, e) ↦ rw e (t.entries key ids e).0
  ]

  pub has_key-add_index :
      (key k : K) (id j : ConnectionId) (index : List (K × List ConnectionId))
      → has_key (add_index d key id index) k j
        ≡ ((decide (d key k) && decide (ℕ_discrete id j)) || has_key index k j)
  unfolding add_index
  has_key-add_index key k id j index =
      rw (get-put d key k (insert ℕ_discrete id (or_empty (get d key index))) index)
        (same (d key k))
    where
      same :
          (t : Dec (key ≡ k))
          → contains ℕ_discrete
              (or_empty (
                if decide t
                then some (insert ℕ_discrete id (or_empty (get d key index)))
                else get d k index))
              j
            ≡ ((decide t && decide (ℕ_discrete id j)) || has_key index k j)
      same (yes e) =
          contains-insert ℕ_discrete id j (or_empty (get d key index))
          ∙ ap (λ x. decide (ℕ_discrete id j) || has_key index x j) e
      same (no e) = refl

  pub add_index-IsIndex :
      (key : K) (id : ConnectionId) (index : List (K × List ConnectionId))
      → IsIndex index
      → IsIndex (add_index d key id index)
  unfolding add_index
  add_index-IsIndex key id index t = record {
    keyed = put-Keyed d key _ index t.keyed;
    entries = λ k ids e. ground (
      arith,
      get-put d key k (insert ℕ_discrete id (or_empty (get d key index))) index,
      t.entries k ids,
      insert-Distinct ℕ_discrete id (or_empty (get d key index)) (or_empty-Distinct key index t),
    );
  }

  -- What becomes of an entry from which a connection is taken.
  abbrev pub entry_without :
      K → List ConnectionId → List (K × List ConnectionId) → List (K × List ConnectionId)
  entry_without key rest index = if is_nil rest then remove d key index else put d key rest index

  has_key-entry_without :
      (key k : K) (j : ConnectionId) (rest : List ConnectionId)
      (index : List (K × List ConnectionId))
      → has_key (entry_without key rest index) k j
        ≡ (if decide (d key k) then contains ℕ_discrete rest j else has_key index k j)
  has_key-entry_without key k j [] index = rw (get-remove d key k index) (ground arith)
  has_key-entry_without key k j (i ∷ rest) index =
      rw (get-put d key k (i ∷ rest) index) (ground arith)

  pub has_key-remove_index :
      (key k : K) (id j : ConnectionId) (index : List (K × List ConnectionId))
      → has_key (remove_index d key id index) k j
        ≡ (not (decide (d key k) && decide (ℕ_discrete id j)) && has_key index k j)
  unfolding remove_index
  has_key-remove_index key k id j index = elim (Option-cases (get d key index)) [
    | inl e ↦ rw (remove_index, e) (absent (d key k) e)
    | inr (ids, e) ↦
        rw (remove_index, e)
          (has_key-entry_without key k j (discard ℕ_discrete id ids) index
            ∙ present ids (d key k) e)
  ]
    where
      absent :
          (t : Dec (key ≡ k))
          → get d key index ≡ none
          → has_key index k j ≡ (not (decide t && decide (ℕ_discrete id j)) && has_key index k j)
      absent (yes same) e =
          let gone : get d k index ≡ none = ap (λ x. get d x index) (sym same) ∙ e in
          rw gone (ground arith)
      absent (no ne) e = refl

      present :
          (ids : List ConnectionId) (t : Dec (key ≡ k))
          → get d key index ≡ some ids
          → (if decide t
              then contains ℕ_discrete (discard ℕ_discrete id ids) j
              else has_key index k j)
            ≡ (not (decide t && decide (ℕ_discrete id j)) && has_key index k j)
      present ids (yes same) e =
          let here : get d k index ≡ some ids = ap (λ x. get d x index) (sym same) ∙ e in
          rw here (contains-discard ℕ_discrete id j ids)
      present ids (no ne) e = refl

  entry_without-IsIndex :
      (key : K) (rest : List ConnectionId) (index : List (K × List ConnectionId))
      → IsIndex index
      → Distinct ℕ_discrete rest
      → IsIndex (entry_without key rest index)
  entry_without-IsIndex key [] index t u = record {
    keyed = remove-Keyed d key index t.keyed;
    entries = λ k ids e. ground (arith, get-remove d key k index, t.entries k ids);
  }
  entry_without-IsIndex key (i ∷ rest) index t u = record {
    keyed = put-Keyed d key _ index t.keyed;
    entries = λ k ids e. ground (arith, get-put d key k (i ∷ rest) index, t.entries k ids);
  }

  pub remove_index-IsIndex :
      (key : K) (id : ConnectionId) (index : List (K × List ConnectionId))
      → IsIndex index
      → IsIndex (remove_index d key id index)
  unfolding remove_index
  remove_index-IsIndex key id index t = elim (Option-cases (get d key index)) [
    | inl e ↦ rw (remove_index, e) t
    | inr (ids, e) ↦
        rw (remove_index, e)
          (entry_without-IsIndex key (discard ℕ_discrete id ids) index t
            (discard-Distinct ℕ_discrete id ids (t.entries key ids e).0))
  ]

  pub remove_indices-IsIndex :
      (keys : List K) (id : ConnectionId) (index : List (K × List ConnectionId))
      → IsIndex index
      → IsIndex (remove_indices d keys id index)
  unfolding remove_indices
  remove_indices-IsIndex [] id index t = t
  remove_indices-IsIndex (key ∷ keys) id index t =
      remove_indices-IsIndex keys id (remove_index d key id index)
        (remove_index-IsIndex key id index t)

  pub has_key-remove_indices :
      (keys : List K) (k : K) (id j : ConnectionId) (index : List (K × List ConnectionId))
      → has_key (remove_indices d keys id index) k j
        ≡ (not (contains d keys k && decide (ℕ_discrete id j)) && has_key index k j)
  unfolding remove_indices
  has_key-remove_indices [] k id j index = refl
  has_key-remove_indices (key ∷ keys) k id j index =
      has_key-remove_indices keys k id j (remove_index d key id index)
      ∙ rw (has_key-remove_index key k id j index) (ground arith)
