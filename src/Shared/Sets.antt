-- ===== src/Shared/Sets.antt =====
-- A hash set as a list with no element twice, and the laws of sets and tables as conditionals.
use Prim.Native.Nat.{◌+◌, ◌≤◌}
use mathlib.Core.Path.{◌≡◌, refl, ap, ◌∙◌}
use mathlib.Core.Logic.{ite, ◌≢◌}
use mathlib.Core.Bool.{true, false, not, ◌&&◌, ◌||◌}
use mathlib.Core.List.{List, [], ◌∷◌}
use mathlib.Core.Option.{Option, none, some}
use native.Mathlib.Omega.{arith}
use acton_reactive.Shared.Tests.{if◌then◌else◌, decide, is_some}
use acton_reactive.Shared.Lists.{length, contains}
use acton_reactive.Shared.Table.{get, put, remove}

module _ {A : Type 0} (d : Discrete A) where
  abbrev pub insert : A → List A → List A
  insert x s = if contains d s x then s else x ∷ s

  abbrev pub discard : A → List A → List A
  discard x [] = []
  discard x (y ∷ s) = ite (d y x) (discard x s) (y ∷ discard x s)

  -- `extend`.
  abbrev pub insert_all : List A → List A → List A
  insert_all [] s = s
  insert_all (x ∷ xs) s = insert_all xs (insert x s)

  abbrev pub Distinct : List A → Type 0
  Distinct [] = Unit {0}
  Distinct (x ∷ s) = (contains d s x ≡ false) × Distinct s

  pub contains-insert :
      (x y : A) (s : List A) → contains d (insert x s) y ≡ (decide (d x y) || contains d s y)
  contains-insert x y s = ground (arith, contains-same x y s)
    where
      contains-same : (x y : A) (s : List A) → contains d s x ≡ true → x ≡ y → contains d s y ≡ true
      contains-same x y s h e = rw e at h

  pub contains-discard :
      (x y : A) (s : List A) → contains d (discard x s) y ≡ (not (decide (d x y)) && contains d s y)
  contains-discard x y [] = ground arith
  contains-discard x y (z ∷ s) = ground (arith, contains-discard x y s)

  pub contains-insert_all :
      (xs : List A) (y : A) (s : List A)
      → contains d (insert_all xs s) y ≡ (contains d xs y || contains d s y)
  contains-insert_all [] y s = refl
  contains-insert_all (x ∷ xs) y s =
      ground (arith, contains-insert_all xs y (insert x s), contains-insert x y s)

  pub insert-Distinct : (x : A) (s : List A) → Distinct s → Distinct (insert x s)
  insert-Distinct x s h = ground arith

  pub discard-Distinct : (x : A) (s : List A) → Distinct s → Distinct (discard x s)
  discard-Distinct x [] h = tt
  discard-Distinct x (y ∷ s) h = ground (arith, discard-Distinct x s h.1, contains-discard x y s)

  pub insert_all-Distinct : (xs s : List A) → Distinct s → Distinct (insert_all xs s)
  insert_all-Distinct [] s h = h
  insert_all-Distinct (x ∷ xs) s h = insert_all-Distinct xs (insert x s) (insert-Distinct x s h)

  discard_absent : (x : A) (s : List A) → contains d s x ≡ false → discard x s ≡ s
  discard_absent x [] h = refl
  discard_absent x (y ∷ s) h = ground (arith, discard_absent x s)

  pub length-discard :
      (x : A) (s : List A)
      → Distinct s
      → length (discard x s) + (if contains d s x then 1 else 0) ≡ length s
  length-discard x [] h = omega arith
  length-discard x (y ∷ s) h = ground (arith, length-discard x s h.1, discard_absent x s)

module _ {K V : Type 0} (d : Discrete K) where
  pub get-put :
      (k j : K) (v : V) (m : List (K × V))
      → get d j (put d k v m) ≡ (if decide (d k j) then some v else get d j m)
  get-put k j v [] = ground arith
  get-put k j v ((i, w) ∷ m) = ground (arith, get-put k j v m)

  pub get-remove :
      (k j : K) (m : List (K × V))
      → get d j (remove d k m) ≡ (if decide (d k j) then none else get d j m)
  get-remove k j [] = ground arith
  get-remove k j ((i, w) ∷ m) = ground (arith, get-remove k j m)

  -- What holds of an entry after a write, by whether it is the one that was written.
  pub at_put :
      {B : Type 0} (k j : K) (v : V) (m : List (K × V)) (f : Option V → B) (b : B)
      → (k ≡ j → f (some v) ≡ b)
      → (k ≢ j → f (get d j m) ≡ b)
      → f (get d j (put d k v m)) ≡ b
  at_put k j v m f b here there = ap f (get-put k j v m) ∙ by_key (d k j)
    where
      by_key : (t : Dec (k ≡ j)) → f (if decide t then some v else get d j m) ≡ b
      by_key (yes e) = here e
      by_key (no e) = there e

  pub at_remove :
      {B : Type 0} (k j : K) (m : List (K × V)) (f : Option V → B) (b : B)
      → (k ≡ j → f none ≡ b)
      → (k ≢ j → f (get d j m) ≡ b)
      → f (get d j (remove d k m)) ≡ b
  at_remove k j m f b here there = ap f (get-remove k j m) ∙ by_key (d k j)
    where
      by_key : (t : Dec (k ≡ j)) → f (if decide t then none else get d j m) ≡ b
      by_key (yes e) = here e
      by_key (no e) = there e

  -- No key stands twice.
  abbrev pub Keyed : List (K × V) → Type 0
  Keyed [] = Unit {0}
  Keyed ((k, v) ∷ m) = (is_some (get d k m) ≡ false) × Keyed m

  pub put-Keyed : (k : K) (v : V) (m : List (K × V)) → Keyed m → Keyed (put d k v m)
  put-Keyed k v [] h = (refl, tt)
  put-Keyed k v ((j, w) ∷ m) h = ground (arith, put-Keyed k v m h.1, get-put k j v m)

  pub remove-Keyed : (k : K) (m : List (K × V)) → Keyed m → Keyed (remove d k m)
  remove-Keyed k [] h = tt
  remove-Keyed k ((j, w) ∷ m) h = ground (arith, remove-Keyed k m h.1, get-remove k j m)

  pub length-put_new :
      (k : K) (v : V) (m : List (K × V)) → get d k m ≡ none → length (put d k v m) ≡ length m + 1
  length-put_new k v [] h = omega arith
  length-put_new k v ((j, w) ∷ m) h = ground (arith, length-put_new k v m)

  pub length-remove-le : (k : K) (m : List (K × V)) → length (remove d k m) ≤ length m
  length-remove-le k [] = omega arith
  length-remove-le k ((j, w) ∷ m) = ground (arith, length-remove-le k m)
