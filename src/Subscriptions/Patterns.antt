-- ===== src/Subscriptions/Patterns.antt =====
-- `SubscriptionPattern` and `validate_patterns` of
-- acton-reactive/src/common/ipc/subscription_manager.rs. A text is the list of its UTF-8 bytes.
use acton_reactive.Shared.{
  ap, ℕ, ◌-◌, Bool, true, false, ◌&&◌, Option, none, some, List, [], ◌∷◌, ltb, ◌==◌, length, take,
  if◌then◌else◌, Result, ok, err, ℕ_discrete,
}
use acton_reactive.Shared.Sets.{insert}

abbrev pub Text : Type 0
Text = List ℕ

unfoldable pub text_discrete : Discrete Text
text_discrete = hlevel ℕ_discrete

abbrev pub star : ℕ
star = b'*'

pub record SubscriptionPattern : Type 0 where
  pub text : Text

unfoldable pub pattern_discrete : Discrete SubscriptionPattern
unfolding text_discrete
pattern_discrete p q = elim (text_discrete p.text q.text) [
  | yes e ↦ yes (ap (λ t. record { text = t }) e)
  | no ne ↦ no (λ e. ne (ap (λ r. r.text) e))
]

pub data PatternSubscriptionError : Type 0 where
  invalid_pattern pattern_too_long too_many_patterns unknown_connection : PatternSubscriptionError

unfoldable pub starts_with : Text → Text → Bool
starts_with name [] = true
starts_with [] (p ∷ prefix) = false
starts_with (c ∷ name) (p ∷ prefix) = c == p && starts_with name prefix

unfoldable pub matches : SubscriptionPattern → Text → Bool
matches pattern name = starts_with name (take (length pattern.text - 1) pattern.text)

abbrev pub after : ℕ → Option Text → Option Text
after c none = none
after c (some prefix) = some (c ∷ prefix)

-- `strip_suffix('*')`.
unfoldable pub strip_suffix : Text → Option Text
strip_suffix [] = none
strip_suffix (c ∷ []) = if c == star then some [] else none
strip_suffix (c ∷ c' ∷ rest) = after c (strip_suffix (c' ∷ rest))

unfoldable pub has_star : Text → Bool
has_star [] = false
has_star (c ∷ rest) = if c == star then true else has_star rest

abbrev pub checked : Text → Option Text → Result PatternSubscriptionError SubscriptionPattern
checked value none = err invalid_pattern
checked value (some prefix) =
    if has_star prefix then err invalid_pattern else ok (record { text = value })

unfoldable pub try_from : Text → Result PatternSubscriptionError SubscriptionPattern
try_from value =
    if ltb 256 (length value) then err pattern_too_long else checked value (strip_suffix value)

abbrev pub collected :
    Result PatternSubscriptionError SubscriptionPattern
    → Result PatternSubscriptionError (List SubscriptionPattern)
    → Result PatternSubscriptionError (List SubscriptionPattern)
collected (err e) rest = err e
collected (ok pattern) (err e) = err e
collected (ok pattern) (ok patterns) = ok (insert pattern_discrete pattern patterns)

-- `collect` into a `Result` of a set: the first error, if there is one.
unfoldable pub collect_patterns :
    List Text → Result PatternSubscriptionError (List SubscriptionPattern)
collect_patterns [] = ok []
collect_patterns (value ∷ values) = collected (try_from value) (collect_patterns values)

unfoldable pub validate_patterns :
    List Text → Result PatternSubscriptionError (List SubscriptionPattern)
validate_patterns values =
    if ltb 128 (length values) then err too_many_patterns else collect_patterns values

-- The order of `sort` on strings, that of their bytes.
unfoldable pub text_le : Text → Text → Bool
text_le [] ys = true
text_le (x ∷ xs) [] = false
text_le (x ∷ xs) (y ∷ ys) = if ltb x y then true else x == y && text_le xs ys

unfoldable pub insert_sorted : Text → List Text → List Text
insert_sorted x [] = x ∷ []
insert_sorted x (y ∷ ys) = if text_le x y then x ∷ y ∷ ys else y ∷ insert_sorted x ys

unfoldable pub sorted_patterns : List SubscriptionPattern → List Text
sorted_patterns [] = []
sorted_patterns (p ∷ patterns) = insert_sorted p.text (sorted_patterns patterns)
