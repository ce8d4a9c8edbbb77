-- ===== src/Shared/Table.antt =====
-- A hash map as an association list with at most one entry that counts for each key, the first.
use mathlib.Core.Path.{◌≡◌, refl}
use mathlib.Core.Logic.{◌≢◌, ite}
use mathlib.Core.List.{List, [], ◌∷◌}
use mathlib.Core.Option.{Option, none, some}
use native.Mathlib.Omega.{arith}

module _ {ℓ} {K V : Type ℓ} (d : Discrete K) where
  abbrev pub get : K → List (K × V) → Option V
  get k [] = none
  get k ((j, v) ∷ m) = ite (d j k) (some v) (get k m)

  abbrev pub put : K → V → List (K × V) → List (K × V)
  put k v [] = (k, v) ∷ []
  put k v ((j, w) ∷ m) = ite (d j k) ((k, v) ∷ m) ((j, w) ∷ put k v m)

  abbrev pub remove : K → List (K × V) → List (K × V)
  remove k [] = []
  remove k ((j, w) ∷ m) = ite (d j k) (remove k m) ((j, w) ∷ remove k m)

  pub get-put_self : (k : K) (v : V) (m : List (K × V)) → get k (put k v m) ≡ some v
  get-put_self k v [] = ground arith
  get-put_self k v ((j, w) ∷ m) = ground (arith, get-put_self k v m)

  pub get-put_ne : (k j : K) (v : V) (m : List (K × V)) → k ≢ j → get j (put k v m) ≡ get j m
  get-put_ne k j v [] h = ground arith
  get-put_ne k j v ((i, w) ∷ m) h = ground (arith, get-put_ne k j v m h)

  pub get-remove_self : (k : K) (m : List (K × V)) → get k (remove k m) ≡ none
  get-remove_self k [] = refl
  get-remove_self k ((j, w) ∷ m) = ground (arith, get-remove_self k m)

  pub get-remove_ne : (k j : K) (m : List (K × V)) → k ≢ j → get j (remove k m) ≡ get j m
  get-remove_ne k j [] h = refl
  get-remove_ne k j ((i, w) ∷ m) h = ground (arith, get-remove_ne k j m h)

  pub remove_absent : (k : K) (m : List (K × V)) → get k m ≡ none → remove k m ≡ m
  remove_absent k [] h = refl
  remove_absent k ((j, w) ∷ m) h = ground (arith, remove_absent k m)
