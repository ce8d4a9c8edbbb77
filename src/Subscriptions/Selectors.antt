-- ===== src/Subscriptions/Selectors.antt =====
-- What a selector is, and what it matches.
use acton_reactive.Shared.{
  suc, ◌-◌, ◌≤◌, ◌<◌, ◌≡◌, refl, ◌∙◌, sym, ap, true, false, some, [], ◌∷◌, ◌++◌, arith, ltb, length,
  take, length-append, ok, err, Bool-cases, Option-cases, inl, inr, ◌⊎◌, ◌↔◌, ltb→lt,
}
use acton_reactive.Subscriptions.Patterns.{
  Text, star, SubscriptionPattern, matches, starts_with, strip_suffix, has_star, try_from, after,
  PatternSubscriptionError, invalid_pattern, pattern_too_long,
}

strip_suffix_lem : (v prefix : Text) → strip_suffix v ≡ some prefix → v ≡ prefix ++ star ∷ []
unfolding strip_suffix
strip_suffix_lem [] prefix h = absurd (cc h)
strip_suffix_lem (c ∷ []) prefix h = ground arith
strip_suffix_lem (c ∷ c' ∷ rest) prefix h = elim (Option-cases (strip_suffix (c' ∷ rest))) [
  | inl e ↦ absurd (cc (sym (rw e at h)))
  | inr (p, e) ↦
      let ih = strip_suffix_lem (c' ∷ rest) p e in
      let same : some (c ∷ p) ≡ some prefix = rw e at h in ground arith
]

strip_suffix-append : (prefix : Text) → strip_suffix (prefix ++ star ∷ []) ≡ some prefix
unfolding strip_suffix
strip_suffix-append [] = refl
strip_suffix-append (c ∷ []) = refl
strip_suffix-append (c ∷ c' ∷ rest) = ap (after c) (strip_suffix-append (c' ∷ rest))

starts_with-append : (prefix rest : Text) → starts_with (prefix ++ rest) prefix ≡ true
unfolding starts_with
starts_with-append [] rest = refl
starts_with-append (c ∷ prefix) rest = ground (arith, starts_with-append prefix rest)

starts_with_lem :
    (name prefix : Text) → starts_with name prefix ≡ true → (rest : Text) × (name ≡ prefix ++ rest)
unfolding starts_with
starts_with_lem name [] h = (name, refl)
starts_with_lem [] (p ∷ prefix) h = absurd (cc h)
starts_with_lem (c ∷ name) (p ∷ prefix) h =
    let (rest, e) = starts_with_lem name prefix (ground arith) in (rest, ground arith)

take-append :
    (prefix : Text) → take (length (prefix ++ star ∷ []) - 1) (prefix ++ star ∷ []) ≡ prefix
take-append [] = refl
take-append (c ∷ prefix) =
    let one : length (prefix ++ star ∷ []) ≡ suc (length (prefix ++ star ∷ []) - 1) =
      omega (arith, length-append prefix (star ∷ [])) in
    let step : suc (length (prefix ++ star ∷ [])) - 1 ≡ suc (length (prefix ++ star ∷ []) - 1) =
      omega (arith, one) in
    rw step (ap (λ xs. c ∷ xs) (take-append prefix))

matches_lem :
    (p : SubscriptionPattern) (prefix name : Text)
    → p.text ≡ prefix ++ star ∷ []
    → (matches p name ≡ true) ↔ ((rest : Text) × (name ≡ prefix ++ rest))
unfolding matches
matches_lem p prefix name e =
    let cut : take (length p.text - 1) p.text ≡ prefix =
      ap (λ (t : Text). take (length t - 1) t) e ∙ take-append prefix in
    (
      λ h. starts_with_lem name prefix (ap (starts_with name) (sym cut) ∙ h),
      λ (rest, same).
          ap (starts_with name) cut
          ∙ ap (λ n. starts_with n prefix) same
          ∙ starts_with-append prefix rest,
    )

-- A text that is some selector's: one star, at the end.
abbrev pub IsSelector : Text → Text → Type 0
IsSelector value prefix = (value ≡ prefix ++ star ∷ []) × (has_star prefix ≡ false)

-- A text is accepted as a selector exactly if it is at most 256 bytes long and has one star, at its
-- end; and the selector then matches exactly the names that begin with what stands before the star.
pub try_from-matches :
    (value : Text)
    → ((p : SubscriptionPattern) × (prefix : Text) × (try_from value ≡ ok p)
        × IsSelector value prefix
        × (length value ≤ 256)
        × ((name : Text) → (matches p name ≡ true) ↔ ((rest : Text) × (name ≡ prefix ++ rest))))
      ⊎ ((e : PatternSubscriptionError) × (try_from value ≡ err e)
          × ((prefix : Text) → IsSelector value prefix → 256 < length value))
unfolding try_from
try_from-matches value = elim (Bool-cases (ltb 256 (length value))) [
  | inl long ↦ inr (pattern_too_long, rw (try_from, long) refl, λ prefix h. ltb→lt _ _ long)
  | inr short ↦ elim (Option-cases (strip_suffix value)) [
    | inl none_ ↦ inr (
      invalid_pattern,
      rw (try_from, short, none_) refl,
      λ prefix h.
          let found : strip_suffix value ≡ some prefix =
            ap strip_suffix h.0 ∙ strip_suffix-append prefix in
          absurd (cc (sym none_ ∙ found)),
    )
    | inr (prefix, found) ↦
        let whole = strip_suffix_lem value prefix found in
        elim (Bool-cases (has_star prefix)) [
          | inl starred ↦ inr (
            invalid_pattern,
            rw (try_from, short, found, starred) refl,
            λ other h.
                let again : strip_suffix value ≡ some other =
                  ap strip_suffix h.0 ∙ strip_suffix-append other in
                let same : prefix ≡ other = cc (sym found ∙ again) in
                absurd (cc (sym starred ∙ ap has_star same ∙ h.1)),
          )
          | inr plain ↦ inl (
            record { text = value },
            prefix,
            rw (try_from, short, found, plain) refl,
            (whole, plain),
            ground arith,
            λ name. matches_lem (record { text = value }) prefix name whole,
          )
        ]
  ]
]
