-- ===== src/Shared/Lists.antt =====
-- Lists measured and indexed by native numbers, under the library's names, with a Boolean
-- filter, an update in place, and membership by recursion.
use Prim.Native.Nat.{ℕ, zero, suc, ◌+◌, ◌≤◌, ◌<◌}
use mathlib.Core.Path.{◌≡◌, refl, sym, ap}
use mathlib.Core.Logic.{◌≢◌, ◌↔◌, ◌⊎◌, inl, inr, ite}
use mathlib.Core.Bool.{Bool, true, false}
use mathlib.Core.List.{List, [], ◌∷◌, ◌++◌, map, reverse, reverse-cons}
use mathlib.Core.Option.{Option, none, some}
use native.Mathlib.Omega.{arith}
use acton_reactive.Shared.Tests.{if◌then◌else◌}

module _ {ℓ} {A : Type ℓ} where
  abbrev pub length : List A → ℕ
  length [] = 0
  length (x ∷ xs) = suc (length xs)

  abbrev pub get_elem? : List A → ℕ → Option A
  get_elem? [] i = none
  get_elem? (x ∷ xs) zero = some x
  get_elem? (x ∷ xs) (suc i) = get_elem? xs i

  abbrev pub take : ℕ → List A → List A
  take zero xs = []
  take (suc n) [] = []
  take (suc n) (x ∷ xs) = x ∷ take n xs

  -- A write out of bounds changes nothing.
  abbrev pub set : List A → ℕ → A → List A
  set [] i v = []
  set (x ∷ xs) zero v = v ∷ xs
  set (x ∷ xs) (suc i) v = x ∷ set xs i v

  abbrev pub keep : (A → Bool) → List A → List A
  keep p [] = []
  keep p (x ∷ xs) = if p x then x ∷ keep p xs else keep p xs

  pub length-append : (xs ys : List A) → length (xs ++ ys) ≡ length xs + length ys
  length-append [] ys = omega arith
  length-append (x ∷ xs) ys = omega (arith, length-append xs ys)

  pub length-set : (xs : List A) (i : ℕ) (v : A) → length (set xs i v) ≡ length xs
  length-set [] i v = refl
  length-set (x ∷ xs) zero v = refl
  length-set (x ∷ xs) (suc i) v = ap suc (length-set xs i v)

  pub get_elem?-set_self :
      (xs : List A) (i : ℕ) (v w : A) → get_elem? xs i ≡ some w → get_elem? (set xs i v) i ≡ some v
  get_elem?-set_self [] i v w h = cc
  get_elem?-set_self (x ∷ xs) zero v w h = refl
  get_elem?-set_self (x ∷ xs) (suc i) v w h = get_elem?-set_self xs i v w h

  pub set_same : (xs : List A) (i : ℕ) (v : A) → get_elem? xs i ≡ some v → set xs i v ≡ xs
  set_same [] i v h = refl
  set_same (x ∷ xs) zero v h = ground arith
  set_same (x ∷ xs) (suc i) v h = ap (λ ys. x ∷ ys) (set_same xs i v h)

  pub get_elem?-set_ne :
      (xs : List A) (i j : ℕ) (v : A) → i ≢ j → get_elem? (set xs i v) j ≡ get_elem? xs j
  get_elem?-set_ne [] i j v h = refl
  get_elem?-set_ne (x ∷ xs) zero zero v h = absurd (h refl)
  get_elem?-set_ne (x ∷ xs) zero (suc j) v h = refl
  get_elem?-set_ne (x ∷ xs) (suc i) zero v h = refl
  get_elem?-set_ne (x ∷ xs) (suc i) (suc j) v h = get_elem?-set_ne xs i j v (λ e. h (ap suc e))

  pub get_elem?-append_last : (xs : List A) (a : A) → get_elem? (xs ++ a ∷ []) (length xs) ≡ some a
  get_elem?-append_last [] a = refl
  get_elem?-append_last (x ∷ xs) a = get_elem?-append_last xs a

  pub get_elem?-append_left :
      (xs ys : List A) (i : ℕ) → i < length xs → get_elem? (xs ++ ys) i ≡ get_elem? xs i
  get_elem?-append_left [] ys i h = absurd (omega arith)
  get_elem?-append_left (x ∷ xs) ys zero h = refl
  get_elem?-append_left (x ∷ xs) ys (suc i) h = get_elem?-append_left xs ys i (omega arith)

  pub lt-length_of_get : (xs : List A) (i : ℕ) (a : A) → get_elem? xs i ≡ some a → i < length xs
  lt-length_of_get [] i a h = cc
  lt-length_of_get (x ∷ xs) zero a h = omega arith
  lt-length_of_get (x ∷ xs) (suc i) a h = omega (arith, lt-length_of_get xs i a h)

  pub length-keep-le : (p : A → Bool) (xs : List A) → length (keep p xs) ≤ length xs
  length-keep-le p [] = omega arith
  length-keep-le p (x ∷ xs) = ground (arith, length-keep-le p xs)

module _ {A : Type 0} where
  -- Membership, as a type that computes on the list.
  abbrev pub In : A → List A → Type 0
  In a [] = ⊥
  In a (x ∷ xs) = (a ≡ x) ⊎ In a xs

  -- What stands in a list after a write, and after an entry is added at the end.
  pub get_elem?-set_cases :
      (xs : List A) (i j : ℕ) (v a : A)
      → get_elem? (set xs i v) j ≡ some a
      → ((j ≡ i) × (a ≡ v)) ⊎ ((j ≢ i) × (get_elem? xs j ≡ some a))
  get_elem?-set_cases [] i j v a h = cc
  get_elem?-set_cases (x ∷ xs) zero zero v a h = inl (refl, ground arith)
  get_elem?-set_cases (x ∷ xs) zero (suc j) v a h = inr (λ e. ground arith, h)
  get_elem?-set_cases (x ∷ xs) (suc i) zero v a h = inr (λ e. ground arith, h)
  get_elem?-set_cases (x ∷ xs) (suc i) (suc j) v a h = elim (get_elem?-set_cases xs i j v a h) [
    | inl e ↦ inl (ap suc e.0, e.1)
    | inr o ↦ inr (λ e. o.0 (ground arith), o.1)
  ]

  pub get_elem?-append_cases :
      (xs : List A) (j : ℕ) (v a : A)
      → get_elem? (xs ++ v ∷ []) j ≡ some a
      → ((j ≡ length xs) × (a ≡ v)) ⊎ (get_elem? xs j ≡ some a)
  get_elem?-append_cases [] zero v a h = inl (refl, ground arith)
  get_elem?-append_cases [] (suc j) v a h = cc
  get_elem?-append_cases (x ∷ xs) zero v a h = inr h
  get_elem?-append_cases (x ∷ xs) (suc j) v a h = elim (get_elem?-append_cases xs j v a h) [
    | inl e ↦ inl (ap suc e.0, e.1)
    | inr o ↦ inr o
  ]

  pub In-append_left : (a : A) (xs ys : List A) → In a xs → In a (xs ++ ys)
  In-append_left a [] ys h = absurd h
  In-append_left a (x ∷ xs) ys (inl e) = inl e
  In-append_left a (x ∷ xs) ys (inr h) = inr (In-append_left a xs ys h)

  pub In-append_last : (a : A) (xs : List A) → In a (xs ++ a ∷ [])
  In-append_last a [] = inl refl
  In-append_last a (x ∷ xs) = inr (In-append_last a xs)

  pub In-keep : (a : A) (p : A → Bool) (xs : List A) → In a (keep p xs) → In a xs × (p a ≡ true)
  In-keep a p [] h = absurd h
  In-keep a p (x ∷ xs) h = ground (arith, In-keep a p xs)

  pub keep-In : (a : A) (p : A → Bool) (xs : List A) → In a xs → p a ≡ true → In a (keep p xs)
  keep-In a p [] h e = absurd h
  keep-In a p (x ∷ xs) h e = ground (arith, keep-In a p xs)

  pub In-get : (xs : List A) (i : ℕ) (a : A) → get_elem? xs i ≡ some a → In a xs
  In-get [] i a h = cc
  In-get (x ∷ xs) zero a h = inl (ground arith)
  In-get (x ∷ xs) (suc i) a h = inr (In-get xs i a h)

  pub get_of_In : (xs : List A) (a : A) → In a xs → (i : ℕ) × (get_elem? xs i ≡ some a)
  get_of_In [] a h = absurd h
  get_of_In (x ∷ xs) a (inl e) = (0, ap some (sym e))
  get_of_In (x ∷ xs) a (inr h) = let (i, e) = get_of_In xs a h in (suc i, e)

  pub In-append_right : (a : A) (xs ys : List A) → In a ys → In a (xs ++ ys)
  In-append_right a [] ys h = h
  In-append_right a (x ∷ xs) ys h = inr (In-append_right a xs ys h)

  pub append-In : (a : A) (xs ys : List A) → In a (xs ++ ys) → In a xs ⊎ In a ys
  append-In a [] ys h = inr h
  append-In a (x ∷ xs) ys (inl e) = inl (inl e)
  append-In a (x ∷ xs) ys (inr h) = elim (append-In a xs ys h) [
    | inl l ↦ inl (inr l)
    | inr r ↦ inr r
  ]

  pub In-reverse : (a : A) (xs : List A) → In a xs ↔ In a (reverse xs)
  In-reverse a [] = (λ h. h, λ h. h)
  In-reverse a (x ∷ xs) = (
    λ h. rw (reverse-cons x xs) (elim h [
      | inl e ↦ In-append_right a (reverse xs) (x ∷ []) (inl e)
      | inr r ↦ In-append_left a (reverse xs) (x ∷ []) ((In-reverse a xs).0 r)
    ]),
    λ h. elim (append-In a (reverse xs) (x ∷ []) (rw (reverse-cons x xs) at h)) [
      | inl l ↦ inr ((In-reverse a xs).1 l)
      | inr r ↦ elim r [ inl e ↦ inl e | inr f ↦ absurd f ]
    ],
  )

module _ {A B : Type 0} where
  pub length-map : (f : A → B) (xs : List A) → length (map f xs) ≡ length xs
  length-map f [] = refl
  length-map f (x ∷ xs) = ap suc (length-map f xs)

  pub In-map : (f : A → B) (a : A) (xs : List A) → In a xs → In (f a) (map f xs)
  In-map f a [] h = h
  In-map f a (x ∷ xs) (inl e) = inl (ap f e)
  In-map f a (x ∷ xs) (inr h) = inr (In-map f a xs h)

  pub map-In : (f : A → B) (b : B) (xs : List A) → In b (map f xs) → (a : A) × In a xs × (b ≡ f a)
  map-In f b [] h = absurd h
  map-In f b (x ∷ xs) (inl e) = (x, inl refl, e)
  map-In f b (x ∷ xs) (inr h) = let (a, m, e) = map-In f b xs h in (a, inr m, e)

-- Membership of a number, as a test (`contains` of a slice).
abbrev pub contains {ℓ} : {A : Type ℓ} → Discrete A → List A → A → Bool
contains d [] a = false
contains d (x ∷ xs) a = ite (d x a) true (contains d xs a)

pub contains→In :
    {A : Type 0} (d : Discrete A) (xs : List A) (a : A) → contains d xs a ≡ true → In a xs
contains→In d [] a h = absurd (cc h)
contains→In d (x ∷ xs) a h = ground (arith, contains→In d xs a)
