-- ===== src/Subscriptions/Sorting.antt =====
-- The texts of a set of patterns in order (`sort_unstable`, `pattern_texts`).
use acton_reactive.Shared.{
  ◌<◌, ◌≡◌, refl, ◌∙◌, sym, true, false, ◌||◌, List, [], ◌∷◌, decide, contains, arith, ltb, ltb→lt,
  Bool-cases, inl, inr, ◌⊎◌, ℕ_discrete,
}
use acton_reactive.Shared.Sets.{Distinct}
use acton_reactive.Subscriptions.Patterns.{
  Text, text_discrete, SubscriptionPattern, pattern_discrete, text_le, insert_sorted,
  sorted_patterns,
}

-- The order of texts as it is in a dictionary.
abbrev pub LeText : Text → Text → Type 0
LeText [] ys = Unit {0}
LeText (x ∷ xs) [] = ⊥
LeText (x ∷ xs) (y ∷ ys) = (x < y) ⊎ ((x ≡ y) × LeText xs ys)

text_le-LeText : (xs ys : Text) → text_le xs ys ≡ true → LeText xs ys
unfolding text_le
text_le-LeText [] ys h = tt
text_le-LeText (x ∷ xs) [] h = absurd (cc h)
text_le-LeText (x ∷ xs) (y ∷ ys) h = elim (Bool-cases (ltb x y)) [
  | inl lt ↦ inl (ltb→lt _ _ lt)
  | inr ge ↦ inr (ground arith, text_le-LeText xs ys (ground arith))
]

text_gt-LeText : (xs ys : Text) → text_le xs ys ≡ false → LeText ys xs
unfolding text_le
text_gt-LeText [] ys h = absurd (cc h)
text_gt-LeText (x ∷ xs) [] h = tt
text_gt-LeText (x ∷ xs) (y ∷ ys) h = elim (ℕ_discrete x y) [
  | yes e ↦ inr (sym e, text_gt-LeText xs ys (ground arith))
  | no ne ↦ inl (ground arith)
]

-- Nothing in a list is below a given text.
abbrev pub Below : Text → List Text → Type 0
Below x [] = Unit {0}
Below x (y ∷ ys) = LeText x y × Below x ys

abbrev pub IsSorted : List Text → Type 0
IsSorted [] = Unit {0}
IsSorted (x ∷ xs) = Below x xs × IsSorted xs

LeText-trans : (xs ys zs : Text) → LeText xs ys → LeText ys zs → LeText xs zs
LeText-trans [] ys zs a b = tt
LeText-trans (x ∷ xs) [] zs a b = elim a [ ]
LeText-trans (x ∷ xs) (y ∷ ys) [] a b = elim b [ ]
LeText-trans (x ∷ xs) (y ∷ ys) (z ∷ zs) (inl lt) (inl lt') = inl (omega arith)
LeText-trans (x ∷ xs) (y ∷ ys) (z ∷ zs) (inl lt) (inr (e, b)) = inl (omega arith)
LeText-trans (x ∷ xs) (y ∷ ys) (z ∷ zs) (inr (e, a)) (inl lt') = inl (omega arith)
LeText-trans (x ∷ xs) (y ∷ ys) (z ∷ zs) (inr (e, a)) (inr (e', b)) =
    inr (e ∙ e', LeText-trans xs ys zs a b)

Below-trans : (x y : Text) (ys : List Text) → LeText x y → Below y ys → Below x ys
Below-trans x y [] le b = tt
Below-trans x y (z ∷ zs) le b = (LeText-trans x y z le b.0, Below-trans x y zs le b.1)

Below-insert :
    (x y : Text) (ys : List Text) → LeText x y → Below x ys → Below x (insert_sorted y ys)
unfolding insert_sorted
Below-insert x y [] le b = (le, tt)
Below-insert x y (z ∷ zs) le b = elim (Bool-cases (text_le y z)) [
  | inl before ↦ rw before (le, b)
  | inr past ↦ rw past (b.0, Below-insert x y zs le b.1)
]

insert_sorted-IsSorted : (x : Text) (ys : List Text) → IsSorted ys → IsSorted (insert_sorted x ys)
unfolding insert_sorted
insert_sorted-IsSorted x [] s = (tt, tt)
insert_sorted-IsSorted x (y ∷ ys) s = elim (Bool-cases (text_le x y)) [
  | inl before ↦
      let le = text_le-LeText x y before in rw before ((le, Below-trans x y ys le s.0), s)
  | inr past ↦
      rw past (Below-insert y x ys (text_gt-LeText x y past) s.0, insert_sorted-IsSorted x ys s.1)
]

pub sorted_patterns-IsSorted : (ps : List SubscriptionPattern) → IsSorted (sorted_patterns ps)
unfolding sorted_patterns
sorted_patterns-IsSorted [] = tt
sorted_patterns-IsSorted (p ∷ ps) =
    insert_sorted-IsSorted p.text (sorted_patterns ps) (sorted_patterns-IsSorted ps)

contains-insert_sorted :
    (x y : Text) (ys : List Text)
    → contains text_discrete (insert_sorted x ys) y
      ≡ (decide (text_discrete x y) || contains text_discrete ys y)
unfolding insert_sorted
contains-insert_sorted x y [] = ground arith
contains-insert_sorted x y (z ∷ zs) = ground (arith, contains-insert_sorted x y zs)

pub decide-pattern :
    (p q : SubscriptionPattern)
    → decide (pattern_discrete p q) ≡ decide (text_discrete p.text q.text)
unfolding pattern_discrete
decide-pattern p q = ground arith

-- A pattern is in a set exactly if its text is among the texts.
pub contains-sorted_patterns :
    (ps : List SubscriptionPattern) (p : SubscriptionPattern)
    → contains text_discrete (sorted_patterns ps) p.text ≡ contains pattern_discrete ps p
unfolding sorted_patterns
contains-sorted_patterns [] p = refl
contains-sorted_patterns (q ∷ ps) p = ground (
  arith,
  contains-insert_sorted q.text p.text (sorted_patterns ps),
  contains-sorted_patterns ps p,
  decide-pattern q p,
)

sym_decide :
    (x y : Text) (ys : List Text)
    → contains text_discrete (y ∷ ys) x ≡ false
    → decide (text_discrete x y) ≡ false
sym_decide x y ys h = ground arith

insert_sorted-Distinct :
    (x : Text) (ys : List Text)
    → contains text_discrete ys x ≡ false
    → Distinct text_discrete ys
    → Distinct text_discrete (insert_sorted x ys)
unfolding insert_sorted
insert_sorted-Distinct x [] new_ s = (refl, tt)
insert_sorted-Distinct x (y ∷ ys) new_ s = elim (Bool-cases (text_le x y)) [
  | inl before ↦ rw before (new_, s)
  | inr past ↦ rw past (
    contains-insert_sorted x y ys ∙ ground (arith, s.0, sym_decide x y ys new_),
    insert_sorted-Distinct x ys (ground arith) s.1,
  )
]

pub sorted_patterns-Distinct :
    (ps : List SubscriptionPattern)
    → Distinct pattern_discrete ps
    → Distinct text_discrete (sorted_patterns ps)
unfolding sorted_patterns
sorted_patterns-Distinct [] s = tt
sorted_patterns-Distinct (p ∷ ps) s =
    insert_sorted-Distinct p.text (sorted_patterns ps) (contains-sorted_patterns ps p ∙ s.0)
      (sorted_patterns-Distinct ps s.1)
