-- ===== src/Subscriptions/Routes.antt =====
-- The recipients that are computed from the index are those whose subscriptions match.
use acton_reactive.Shared.{
  ◌≡◌, refl, ◌∙◌, sym, ap, Bool, true, false, ◌&&◌, ◌||◌, Option, none, some, List, [], ◌∷◌,
  contains, arith, if◌then◌else◌, ℕ_discrete, is_some, Bool-cases, inl, inr,
}
use acton_reactive.Shared.Table.{get}
use acton_reactive.Shared.Sets.{
  Distinct, insert_all, contains-insert_all, insert_all-Distinct, Keyed,
}
use acton_reactive.Subscriptions.Patterns.{
  Text, text_discrete, SubscriptionPattern, pattern_discrete, matches,
}
use acton_reactive.Subscriptions.{
  ConnectionId, Outside, ConnectionInfo, SubscriptionManager, connection, any_matches, info_matches,
  or_empty,
}
use acton_reactive.Subscriptions.Delivery.{matching, computed_ids}
use acton_reactive.Subscriptions.Index.{has_key, or_empty-Distinct}
use acton_reactive.Subscriptions.Side.{Side}

abbrev any_entry : List (SubscriptionPattern × List ConnectionId) → Text → ConnectionId → Bool
any_entry [] name j = false
any_entry ((p, ids) ∷ patterns) name j =
    (matches p name && contains ℕ_discrete ids j) || any_entry patterns name j

contains-matching :
    (patterns : List (SubscriptionPattern × List ConnectionId)) (name : Text)
    (ids : List ConnectionId) (j : ConnectionId)
    → contains ℕ_discrete (matching patterns name ids) j
      ≡ (contains ℕ_discrete ids j || any_entry patterns name j)
unfolding matching
contains-matching [] name ids j = ground arith
contains-matching ((p, subscribers) ∷ patterns) name ids j =
    contains-matching patterns name
      (if matches p name then insert_all ℕ_discrete subscribers ids else ids) j
    ∙ ground (arith, contains-insert_all ℕ_discrete subscribers j ids)

matching-Distinct :
    (patterns : List (SubscriptionPattern × List ConnectionId)) (name : Text)
    (ids : List ConnectionId)
    → Distinct ℕ_discrete ids
    → Distinct ℕ_discrete (matching patterns name ids)
unfolding matching
matching-Distinct [] name ids h = h
matching-Distinct ((p, subscribers) ∷ patterns) name ids h = elim (Bool-cases (matches p name)) [
  | inl e ↦ rw e (
      matching-Distinct patterns name (insert_all ℕ_discrete subscribers ids)
        (insert_all-Distinct ℕ_discrete subscribers ids h))
  | inr e ↦ rw e (matching-Distinct patterns name ids h)
]

-- A pattern that matches, and that the connection has.
Hit : List (SubscriptionPattern × List ConnectionId) → Text → ConnectionId → Type 0
Hit patterns name j =
    (p : SubscriptionPattern) × (has_key pattern_discrete patterns p j ≡ true)
    × (matches p name ≡ true)

has_of_some :
    (o : Option (List ConnectionId)) (j : ConnectionId)
    → contains ℕ_discrete (or_empty o) j ≡ true
    → is_some o ≡ true
has_of_some none j h = absurd (cc h)
has_of_some (some ids) j h = refl

any_entry-Hit :
    (patterns : List (SubscriptionPattern × List ConnectionId)) (name : Text) (j : ConnectionId)
    → Keyed pattern_discrete patterns
    → any_entry patterns name j ≡ true
    → Hit patterns name j
unfolding Hit
any_entry-Hit [] name j h e = absurd (cc e)
any_entry-Hit ((p, ids) ∷ patterns) name j h e =
    elim (Bool-cases (matches p name && contains ℕ_discrete ids j)) [
      | inl here ↦ (p, ground arith, ground arith)
      | inr not_here ↦
          let (q, has, hit) = any_entry-Hit patterns name j h.1 (ground arith) in
          (q, later q has, hit)
    ]
  where
    later :
        (q : SubscriptionPattern)
        → has_key pattern_discrete patterns q j ≡ true
        → has_key pattern_discrete ((p, ids) ∷ patterns) q j ≡ true
    later q has = elim (pattern_discrete p q) [
      | yes same ↦
          let twice : is_some (get pattern_discrete p patterns) ≡ true =
            ap (λ x. is_some (get pattern_discrete x patterns)) same
            ∙ has_of_some (get pattern_discrete q patterns) j has in
          absurd (cc (sym h.0 ∙ twice))
      | no ne ↦ ground arith
    ]

Hit-any_entry :
    (patterns : List (SubscriptionPattern × List ConnectionId)) (name : Text) (j : ConnectionId)
    → Hit patterns name j
    → any_entry patterns name j ≡ true
unfolding Hit
Hit-any_entry [] name j (p, has, hit) = absurd (cc has)
Hit-any_entry ((q, ids) ∷ patterns) name j (p, has, hit) = elim (pattern_discrete q p) [
  | yes same ↦
      let here : contains ℕ_discrete ids j ≡ true = ground arith in
      let matched : matches q name ≡ true = ap (λ x. matches x name) same ∙ hit in
      rw (here, matched) refl
  | no ne ↦
      let rest : any_entry patterns name j ≡ true =
        Hit-any_entry patterns name j (p, ground arith, hit) in
      ground arith
]

-- One of a list of patterns matches.
any_matches-hit :
    (ps : List SubscriptionPattern) (name : Text)
    → any_matches ps name ≡ true
    → (p : SubscriptionPattern) × (contains pattern_discrete ps p ≡ true) × (matches p name ≡ true)
any_matches-hit [] name h = absurd (cc h)
any_matches-hit (q ∷ ps) name h = elim (Bool-cases (matches q name)) [
  | inl e ↦ (q, ground arith, e)
  | inr e ↦ let (p, has, hit) = any_matches-hit ps name (ground arith) in (p, ground arith, hit)
]

hit-any_matches :
    (ps : List SubscriptionPattern) (name : Text) (p : SubscriptionPattern)
    → contains pattern_discrete ps p ≡ true
    → matches p name ≡ true
    → any_matches ps name ≡ true
hit-any_matches [] name p has hit = absurd (cc has)
hit-any_matches (q ∷ ps) name p has hit = elim (pattern_discrete q p) [
  | yes same ↦
      let matched : matches q name ≡ true = ap (λ x. matches x name) same ∙ hit in rw matched refl
  | no ne ↦
      let rest : any_matches ps name ≡ true = hit-any_matches ps name p (ground arith) hit in
      ground arith
]

Bool_ext : (a b : Bool) → (a ≡ true → b ≡ true) → (b ≡ true → a ≡ true) → a ≡ b
Bool_ext true b f g = sym (f refl)
Bool_ext false true f g = g refl
Bool_ext false false f g = refl

module _ (O : Outside) where
  abbrev pub names_of : Option (ConnectionInfo O) → List Text
  names_of none = []
  names_of (some info) = info.subscribed_types

  abbrev pub patterns_of : Option (ConnectionInfo O) → List SubscriptionPattern
  patterns_of none = []
  patterns_of (some info) = info.subscribed_patterns

  -- Whether a connection, if it is there, is subscribed to a name, literally or by a pattern.
  abbrev pub wants : Option (ConnectionInfo O) → Text → Bool
  wants none name = false
  wants (some info) name = info_matches O info name

  wants_lem :
      (o : Option (ConnectionInfo O)) (name : Text)
      → wants o name
        ≡ (contains text_discrete (names_of o) name || any_matches (patterns_of o) name)
  wants_lem none name = refl
  wants_lem (some info) name = refl

  any_entry-any_matches :
      (m : SubscriptionManager O) (name : Text) (j : ConnectionId)
      → Side pattern_discrete patterns_of m.connections m.patterns
      → any_entry m.patterns name j ≡ any_matches (patterns_of (connection O m j)) name
  unfolding Hit
  any_entry-any_matches m name j s =
      Bool_ext (any_entry m.patterns name j) (any_matches (patterns_of (connection O m j)) name)
        (λ e.
          let (p, has, hit) = any_entry-Hit m.patterns name j s.tidy.keyed e in
          hit-any_matches (patterns_of (connection O m j)) name p (sym (s.agree j p) ∙ has) hit)
        (λ e.
          let (p, has, hit) = any_matches-hit (patterns_of (connection O m j)) name e in
          Hit-any_entry m.patterns name j (p, s.agree j p ∙ has, hit))

  pub contains-computed_ids :
      (m : SubscriptionManager O) (name : Text) (j : ConnectionId)
      → Side text_discrete names_of m.connections m.exact
      → Side pattern_discrete patterns_of m.connections m.patterns
      → contains ℕ_discrete (computed_ids O m name) j ≡ wants (connection O m j) name
  unfolding computed_ids
  contains-computed_ids m name j t s =
      contains-matching m.patterns name (or_empty (get text_discrete name m.exact)) j
      ∙ rw (t.agree j name, any_entry-any_matches m name j s)
          (sym (wants_lem (connection O m j) name))

  pub computed_ids-Distinct :
      (m : SubscriptionManager O) (name : Text)
      → Side text_discrete names_of m.connections m.exact
      → Distinct ℕ_discrete (computed_ids O m name)
  unfolding computed_ids
  computed_ids-Distinct m name t =
      matching-Distinct m.patterns name (or_empty (get text_discrete name m.exact))
        (or_empty-Distinct text_discrete name m.exact t.tidy)
