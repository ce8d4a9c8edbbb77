-- ===== src/Subscriptions/Accepted.antt =====
-- Which batches of selectors `validate_patterns` accepts, and what it makes of them.
use acton_reactive.Shared.{
  ◌≤◌, ◌<◌, ◌≡◌, refl, ◌∙◌, List, [], ◌∷◌, contains, arith, ltb, ltb→lt, Bool-cases, inl, inr, ◌⊎◌,
  length, ok, err, Option, none, some,
}
use acton_reactive.Shared.Sets.{insert, contains-insert}
use acton_reactive.Subscriptions.Patterns.{
  Text, text_discrete, SubscriptionPattern, pattern_discrete, PatternSubscriptionError,
  too_many_patterns, invalid_pattern, pattern_too_long, try_from, collect_patterns,
  validate_patterns, checked, strip_suffix,
}
use acton_reactive.Subscriptions.Selectors.{IsSelector, try_from-matches}
use acton_reactive.Subscriptions.Sorting.{decide-pattern}

-- A text that is accepted as a selector: at most 256 bytes, with one star, at its end.
abbrev pub IsValid : Text → Type 0
IsValid value = (length value ≤ 256) × ((prefix : Text) × IsSelector value prefix)

abbrev pub AllValid : List Text → Type 0
AllValid [] = Unit {0}
AllValid (value ∷ values) = IsValid value × AllValid values

-- Why a text is not accepted.
abbrev pub IsFault : PatternSubscriptionError → Text → Type 0
IsFault e value =
    ((e ≡ pattern_too_long) × (256 < length value))
    ⊎ ((e ≡ invalid_pattern) × ¬ ((prefix : Text) × IsSelector value prefix))

abbrev pub SomeFault : PatternSubscriptionError → List Text → Type 0
SomeFault e [] = ⊥
SomeFault e (value ∷ values) = IsFault e value ⊎ SomeFault e values

-- Why a batch is not accepted.
abbrev pub BatchFault : PatternSubscriptionError → List Text → Type 0
BatchFault e values = ((e ≡ too_many_patterns) × (128 < length values)) ⊎ SomeFault e values

-- The patterns are those with the given texts.
abbrev pub Stand : List Text → List SubscriptionPattern → Type 0
Stand values batch =
    (p : SubscriptionPattern)
    → contains pattern_discrete batch p ≡ contains text_discrete values p.text

checked-text :
    (value : Text) (o : Option Text) (p : SubscriptionPattern)
    → checked value o ≡ ok p
    → p.text ≡ value
checked-text value none p h = absurd (cc h)
checked-text value (some prefix) p h = ground arith

try_from-text : (value : Text) (p : SubscriptionPattern) → try_from value ≡ ok p → p.text ≡ value
unfolding try_from
try_from-text value p h = checked-text value (strip_suffix value) p (ground arith)

checked-err :
    (value : Text) (o : Option Text) (e : PatternSubscriptionError)
    → checked value o ≡ err e
    → e ≡ invalid_pattern
checked-err value none e h = ground arith
checked-err value (some prefix) e h = ground arith

try_from-IsFault :
    (value : Text) (e : PatternSubscriptionError)
    → try_from value ≡ err e
    → ((prefix : Text) → IsSelector value prefix → 256 < length value)
    → IsFault e value
unfolding try_from
try_from-IsFault value e h only = elim (Bool-cases (ltb 256 (length value))) [
  | inl long ↦ inl (ground arith, ltb→lt _ _ long)
  | inr short ↦
      let within : length value ≤ 256 = ground arith in
      inr (
        checked-err value (strip_suffix value) e (ground arith),
        λ s. absurd (omega (arith, within, only s.0 s.1)),
      )
]

collected_lem :
    (values : List Text)
    → ((batch : List SubscriptionPattern) × (collect_patterns values ≡ ok batch)
        × AllValid values
        × Stand values batch)
      ⊎ ((e : PatternSubscriptionError) × (collect_patterns values ≡ err e) × SomeFault e values)
unfolding collect_patterns
collected_lem [] = inl ([], refl, tt, λ p. refl)
collected_lem (value ∷ values) = elim (try_from-matches value) [
  | inr (e, refused, long) ↦ inr (e, rw refused refl, inl (try_from-IsFault value e refused long))
  | inl (p, prefix, taken, selector, short, matching) ↦ elim (collected_lem values) [
    | inr (e, refused, bad) ↦ inr (e, rw (taken, refused) refl, inr bad)
    | inl (batch, rest, valid, stand) ↦ inl (
      insert pattern_discrete p batch,
      rw (taken, rest) refl,
      ((short, (prefix, selector)), valid),
      λ q.
          contains-insert pattern_discrete p q batch
          ∙ ground (arith, stand q, decide-pattern p q, try_from-text value p taken),
    )
  ]
]

-- A batch is accepted exactly if it has at most 128 selectors and all are valid.
pub validate_patterns_lem :
    (values : List Text)
    → ((batch : List SubscriptionPattern) × (validate_patterns values ≡ ok batch)
        × (length values ≤ 128)
        × AllValid values
        × Stand values batch)
      ⊎ ((e : PatternSubscriptionError) × (validate_patterns values ≡ err e) × BatchFault e values)
unfolding validate_patterns
validate_patterns_lem values = elim (Bool-cases (ltb 128 (length values))) [
  | inl many ↦ inr (too_many_patterns, rw many refl, inl (refl, ltb→lt _ _ many))
  | inr few ↦ elim (collected_lem values) [
    | inl (batch, taken, valid, stand) ↦ inl (batch, rw few taken, ground arith, valid, stand)
    | inr (e, refused, bad) ↦ inr (e, rw few refused, inr bad)
  ]
]
