-- ===== src/Prelude/Sorting.antt =====
-- Stable sorting by insertion (`sort_by`, `sort_by_key`), and membership through it.
use mathlib.Core.Path.{◌≡◌, refl}
use mathlib.Core.Logic.{◌⊎◌, inl, inr}
use mathlib.Core.Bool.{Bool}
use mathlib.Core.List.{List, [], ◌∷◌, ◌++◌}
use quanta_watch.Prelude.Lists.{All}
use quanta_watch.Prelude.Logic.{if◌then◌else◌, Bool-cases}

-- `x` is an element of the list.
abbrev pub In : {A : Type 0} → A → List A → Type 0
In x [] = ⊥
In x (y ∷ l) = (x ≡ y) ⊎ In x l

module _ {A : Type 0} where
  pub In-append : (x : A) (l m : List A) → In x l ⊎ In x m → In x (l ++ m)
  In-append x [] m (inl h) = elim h [ ]
  In-append x [] m (inr h) = h
  In-append x (y ∷ l) m (inl (inl e)) = inl e
  In-append x (y ∷ l) m (inl (inr h)) = inr (In-append x l m (inl h))
  In-append x (y ∷ l) m (inr h) = inr (In-append x l m (inr h))

pub All-In : {A : Type 0} (P : A → Type 0) (x : A) (l : List A) → All P l → In x l → P x
All-In P x [] h i = elim i [ ]
All-In P x (y ∷ l) h (inl e) = rw e (h.0)
All-In P x (y ∷ l) h (inr i) = All-In P x l h.1 i

-- `before x y` says that `x` is to stand before `y`; an equal `x` goes behind `y`.
module _ {A : Type 0} (before : A → A → Bool) where
  unfoldable pub insert_by : A → List A → List A
  insert_by x [] = x ∷ []
  insert_by x (y ∷ l) = let rest = insert_by x l in if before x y then x ∷ y ∷ l else y ∷ rest

  unfoldable pub sort_into : List A → List A → List A
  unfolding insert_by
  sort_into [] done = done
  sort_into (x ∷ l) done = sort_into l (insert_by x done)

  unfoldable pub sort_by : List A → List A
  unfolding sort_into
  sort_by l = sort_into l []

  pub In-insert_by : (x z : A) (l : List A) → (z ≡ x) ⊎ In z l → In z (insert_by x l)
  unfolding insert_by
  In-insert_by x z [] h = h
  In-insert_by x z (y ∷ l) h = elim (Bool-cases (before x y)) [
    | inl e ↦ rw e h
    | inr e ↦ rw e (elim h [
      | inl p ↦ inr (In-insert_by x z l (inl p))
      | inr (inl p) ↦ inl p
      | inr (inr q) ↦ inr (In-insert_by x z l (inr q))
    ])
  ]

  pub In-sort_into : (z : A) (l done : List A) → In z l ⊎ In z done → In z (sort_into l done)
  unfolding sort_into
  In-sort_into z [] done (inl h) = elim h [ ]
  In-sort_into z [] done (inr h) = h
  In-sort_into z (x ∷ l) done (inl (inl e)) =
      In-sort_into z l (insert_by x done) (inr (In-insert_by x z done (inl e)))
  In-sort_into z (x ∷ l) done (inl (inr h)) = In-sort_into z l (insert_by x done) (inl h)
  In-sort_into z (x ∷ l) done (inr h) =
      In-sort_into z l (insert_by x done) (inr (In-insert_by x z done (inr h)))

  -- Sorting keeps every element.
  pub In-sort_by : (z : A) (l : List A) → In z l → In z (sort_by l)
  unfolding sort_by
  In-sort_by z l h = In-sort_into z l [] (inl h)

module _ {A : Type 0} (before : A → A → Bool) (P : A → Type 0) where
  pub All-insert_by : (x : A) (l : List A) → P x → All P l → All P (insert_by before x l)
  unfolding insert_by
  All-insert_by x [] p h = (p, tt)
  All-insert_by x (y ∷ l) p h = elim (Bool-cases (before x y)) [
    | inl e ↦ rw e (p, h)
    | inr e ↦ rw e (h.0, All-insert_by x l p h.1)
  ]

  pub All-sort_into : (l done : List A) → All P l → All P done → All P (sort_into before l done)
  unfolding sort_into
  All-sort_into [] done h d = d
  All-sort_into (x ∷ l) done h d =
      All-sort_into l (insert_by before x done) h.1 (All-insert_by x done h.0 d)

  -- Sorting brings in nothing new.
  pub All-sort_by : (l : List A) → All P l → All P (sort_by before l)
  unfolding sort_by
  All-sort_by l h = All-sort_into l [] h tt

module _ {A : Type 0} (P : A → Type 0) where
  pub All-append : (l m : List A) → All P l → All P m → All P (l ++ m)
  All-append [] m h k = k
  All-append (x ∷ l) m h k = (h.0, All-append l m h.1 k)

pub All-of-In : {A : Type 0} (P : A → Type 0) (l : List A) → ((x : A) → In x l → P x) → All P l
All-of-In P [] f = tt
All-of-In P (x ∷ l) f = (f x (inl refl), All-of-In P l (λ y i. f y (inr i)))
