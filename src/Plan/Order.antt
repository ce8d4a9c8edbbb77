-- ===== src/Plan/Order.antt =====
-- Which children `plan_restart` stops and restarts, and in which order.
use acton_reactive.Shared.{
  ℕ, ◌≤◌, ◌≡◌, ◌≢◌, ◌↔◌, inl, inr, Bool, true, List, [], ◌∷◌, ◌++◌, reverse, reverse-cons, arith,
  leb, keep, In, In-keep, keep-In, In-map, map-In, In-reverse, Bool-cases,
}
use acton_reactive.Plan.{SlotView, insert_view, sort_views, indices, stops_with, plan_restart}
use acton_reactive.Policy.{restart_from}

-- Every item of a list has the property.
abbrev pub All : {A : Type 0} → (A → Type 0) → List A → Type 0
All P [] = Unit {0}
All P (x ∷ xs) = P x × All P xs

-- In the order of the indices, and against it.
abbrev pub Ascending : List ℕ → Type 0
Ascending [] = Unit {0}
Ascending (x ∷ xs) = All (λ y. x ≤ y) xs × Ascending xs

abbrev pub Descending : List ℕ → Type 0
Descending [] = Unit {0}
Descending (x ∷ xs) = All (λ y. y ≤ x) xs × Descending xs

In-insert_view : (w v : SlotView) (vs : List SlotView) → In w (insert_view v vs) ↔ In w (v ∷ vs)
unfolding insert_view
In-insert_view w v [] = (λ h. h, λ h. h)
In-insert_view w v (x ∷ xs) =
    let ih = In-insert_view w v xs in (λ h. ground (arith, ih.0), λ h. ground (arith, ih.1))

In-sort_views : (w : SlotView) (vs : List SlotView) → In w (sort_views vs) ↔ In w vs
unfolding sort_views
In-sort_views w [] = (λ h. h, λ h. h)
In-sort_views w (v ∷ vs) =
    let ih = In-sort_views w vs in
    let ins = In-insert_view w v (sort_views vs) in
    (
      λ h. elim (ins.0 h) [ inl e ↦ inl e | inr m ↦ inr (ih.0 m) ],
      λ h. ins.1 (elim h [ inl e ↦ inl e | inr m ↦ inr (ih.1 m) ]),
    )

All-le : (m n : ℕ) (xs : List ℕ) → m ≤ n → All (λ y. n ≤ y) xs → All (λ y. m ≤ y) xs
All-le m n [] h a = tt
All-le m n (x ∷ xs) h a = (omega arith, All-le m n xs h a.1)

All-insert :
    (n : ℕ) (v : SlotView) (vs : List SlotView)
    → n ≤ v.index
    → All (λ y. n ≤ y) (indices vs)
    → All (λ y. n ≤ y) (indices (insert_view v vs))
unfolding insert_view
All-insert n v [] h a = (h, tt)
All-insert n v (x ∷ xs) h a = elim (Bool-cases (leb v.index x.index)) [
  | inl e ↦ rw e (h, a)
  | inr e ↦ rw e (a.0, All-insert n v xs h a.1)
]

Ascending-insert :
    (v : SlotView) (vs : List SlotView)
    → Ascending (indices vs)
    → Ascending (indices (insert_view v vs))
unfolding insert_view
Ascending-insert v [] a = (tt, tt)
Ascending-insert v (x ∷ xs) a = elim (Bool-cases (leb v.index x.index)) [
  | inl e ↦
      let le : v.index ≤ x.index = ground arith in
      rw e ((le, All-le v.index x.index (indices xs) le a.0), a)
  | inr e ↦ rw e (All-insert x.index v xs (ground arith) a.0, Ascending-insert v xs a.1)
]

Ascending-sort : (vs : List SlotView) → Ascending (indices (sort_views vs))
unfolding sort_views
Ascending-sort [] = tt
Ascending-sort (v ∷ vs) = Ascending-insert v (sort_views vs) (Ascending-sort vs)

All-keep :
    (P : ℕ → Type 0) (p : SlotView → Bool) (vs : List SlotView)
    → All P (indices vs)
    → All P (indices (keep p vs))
All-keep P p [] a = tt
All-keep P p (x ∷ xs) a = elim (Bool-cases (p x)) [
  | inl e ↦ rw e (a.0, All-keep P p xs a.1)
  | inr e ↦ rw e (All-keep P p xs a.1)
]

Ascending-keep :
    (p : SlotView → Bool) (vs : List SlotView)
    → Ascending (indices vs)
    → Ascending (indices (keep p vs))
Ascending-keep p [] a = tt
Ascending-keep p (x ∷ xs) a = elim (Bool-cases (p x)) [
  | inl e ↦ rw e (All-keep (λ y. x.index ≤ y) p xs a.0, Ascending-keep p xs a.1)
  | inr e ↦ rw e (Ascending-keep p xs a.1)
]

Descending-keep :
    (p : SlotView → Bool) (vs : List SlotView)
    → Descending (indices vs)
    → Descending (indices (keep p vs))
Descending-keep p [] a = tt
Descending-keep p (x ∷ xs) a = elim (Bool-cases (p x)) [
  | inl e ↦ rw e (All-keep (λ y. y ≤ x.index) p xs a.0, Descending-keep p xs a.1)
  | inr e ↦ rw e (Descending-keep p xs a.1)
]

All-last :
    (P : ℕ → Type 0) (vs : List SlotView) (v : SlotView)
    → All P (indices vs)
    → P v.index
    → All P (indices (vs ++ v ∷ []))
All-last P [] v a h = (h, tt)
All-last P (x ∷ xs) v a h = (a.0, All-last P xs v a.1 h)

Descending-last :
    (vs : List SlotView) (v : SlotView)
    → Descending (indices vs)
    → All (λ y. v.index ≤ y) (indices vs)
    → Descending (indices (vs ++ v ∷ []))
Descending-last [] v d a = (tt, tt)
Descending-last (x ∷ xs) v d a =
    (All-last (λ y. y ≤ x.index) xs v d.0 a.0, Descending-last xs v d.1 a.1)

All-reverse :
    (P : ℕ → Type 0) (vs : List SlotView) → All P (indices vs) → All P (indices (reverse vs))
All-reverse P [] a = tt
All-reverse P (x ∷ xs) a =
    rw (reverse-cons x xs) (All-last P (reverse xs) x (All-reverse P xs a.1) a.0)

Descending-reverse :
    (vs : List SlotView) → Ascending (indices vs) → Descending (indices (reverse vs))
Descending-reverse [] a = tt
Descending-reverse (x ∷ xs) a = rw (reverse-cons x xs) (
    Descending-last (reverse xs) x (Descending-reverse xs a.1)
      (All-reverse (λ y. x.index ≤ y) xs a.0))

-- A group restart starts children in the order of their indices, and before that stops them in
-- the reverse order, in whatever order it is told of them.
pub group_order :
    (from failed : ℕ) (slots : List SlotView)
    → let plan = plan_restart (restart_from from) failed slots in
      Ascending plan.restart × Descending plan.stop
unfolding plan_restart
group_order from failed slots =
    let affected = keep (λ v. leb from v.index) slots in
    let sorted = Ascending-sort affected in
    (
      Ascending-keep (λ v. v.restartable) (sort_views affected) sorted,
      Descending-keep (stops_with failed) (reverse (sort_views affected))
          (Descending-reverse (sort_views affected) sorted),
    )

stops_with_lem :
    (failed : ℕ) (v : SlotView) → v.alive ≡ true → v.index ≢ failed → stops_with failed v ≡ true
stops_with_lem failed v a n = ground arith

-- A slot among those reported, with its index.
abbrev pub Reported : List SlotView → ℕ → (SlotView → Type 0) → Type 0
Reported slots k P = (v : SlotView) × In v slots × (k ≡ v.index) × P v

pub In-indices-keep :
    (k : ℕ) (p : SlotView → Bool) (vs : List SlotView)
    → In k (indices (keep p vs)) ↔ Reported vs k (λ v. p v ≡ true)
In-indices-keep k p vs = (
  λ h.
      let (v, m, e) = map-In (λ v. v.index) k (keep p vs) h in
      let kept = In-keep v p vs m in (v, kept.0, e, kept.1),
  λ h. rw h.2 (In-map (λ v. v.index) h.0 (keep p vs) (keep-In h.0 p vs h.1 h.3)),
)

In-affected :
    (v : SlotView) (from : ℕ) (slots : List SlotView)
    → In v (sort_views (keep (λ v. leb from v.index) slots)) ↔ (In v slots × (from ≤ v.index))
In-affected v from slots =
    let sorted = In-sort_views v (keep (λ v. leb from v.index) slots) in
    (
      λ h. let (m, e) = In-keep v (λ v. leb from v.index) slots (sorted.0 h) in (m, ground arith),
      λ h. sorted.1 (keep-In v (λ v. leb from v.index) slots h.0 (ground arith)),
    )

-- A group restart restarts exactly the children from the given index on that can be restarted, and
-- stops exactly those of them that run, but never the one whose end started it.
pub group_members :
    (from failed k : ℕ) (slots : List SlotView)
    → let plan = plan_restart (restart_from from) failed slots in
      (In k plan.restart ↔ Reported slots k (λ v. (from ≤ v.index) × (v.restartable ≡ true)))
      × (In k plan.stop
          ↔ Reported slots k (λ v. (from ≤ v.index) × (v.alive ≡ true) × (v.index ≢ failed)))
unfolding plan_restart
group_members from failed k slots =
    let affected = sort_views (keep (λ v. leb from v.index) slots) in
    let restarts = In-indices-keep k (λ v. v.restartable) affected in
    let stops = In-indices-keep k (stops_with failed) (reverse affected) in
    (
      (
        λ h.
            let (v, m, e, r) = restarts.0 h in
            let (known, later) = (In-affected v from slots).0 m in (v, known, e, (later, r)),
        λ h. restarts.1 (h.0, (In-affected h.0 from slots).1 (h.1, h.3.0), h.2, h.3.1),
      ),
      (
        λ h.
            let (v, m, e, s) = stops.0 h in
            let (known, later) = (In-affected v from slots).0 ((In-reverse v affected).1 m) in
            (v, known, e, (later, ground arith, ground arith)),
        λ h.
            let m = (In-reverse h.0 affected).0 ((In-affected h.0 from slots).1 (h.1, h.3.0)) in
            stops.1 (h.0, m, h.2, stops_with_lem failed h.0 h.3.1 h.3.2),
      ),
    )
