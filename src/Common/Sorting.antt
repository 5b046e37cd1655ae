-- ===== src/Common/Sorting.antt =====
-- `sort_by` of the standard library: a stable sort, by an order that is given as a test.
use mathlib.Core.Path.{◌≡◌}
use mathlib.Core.Logic.{◌⊎◌, inl, inr}
use mathlib.Core.Bool.{Bool, true, false}
use mathlib.Core.List.{List, [], ◌∷◌, Perm}
use mathlib.Core.List.Perm
use server_backup.Common.Tests.{if◌then◌else◌, Bool-cases}
use server_backup.Common.Lists.{All, Has}

module _ {A : Type 0} (le : A → A → Bool) where
  unfoldable pub insert_by : A → List A → List A
  insert_by a [] = a ∷ []
  insert_by a (x ∷ xs) = if le a x then a ∷ x ∷ xs else x ∷ insert_by a xs

  -- Entries that the order does not separate keep their places.
  unfoldable pub sort_by : List A → List A
  unfolding insert_by
  sort_by [] = []
  sort_by (x ∷ xs) = insert_by x (sort_by xs)

  -- Each entry is before or level with all that follow it.
  abbrev pub IsSortedBy : List A → Type 0
  IsSortedBy [] = Unit
  IsSortedBy (x ∷ xs) = All (λ y. le x y ≡ true) xs × IsSortedBy xs

module _ {A : Type 0} (le : A → A → Bool) where
  insert_by-perm : (a : A) (xs : List A) → Perm (insert_by le a xs) (a ∷ xs)
  unfolding insert_by
  insert_by-perm a [] = Perm.rfl
  insert_by-perm a (x ∷ xs) = elim (Bool-cases (le a x)) [
    | inl e ↦ rw e Perm.rfl
    | inr e ↦ rw e (Perm.trans (Perm.cons x (insert_by-perm a xs)) (Perm.swap a x xs))
  ]

  pub sort_by-perm : (xs : List A) → Perm (sort_by le xs) xs
  unfolding sort_by
  sort_by-perm [] = Perm.rfl
  sort_by-perm (x ∷ xs) =
      Perm.trans (insert_by-perm x (sort_by le xs)) (Perm.cons x (sort_by-perm xs))

  pub Has-insert_by : (b a : A) (xs : List A) → Has b (insert_by le a xs) → (b ≡ a) ⊎ Has b xs
  unfolding insert_by
  Has-insert_by b a [] h = h
  Has-insert_by b a (x ∷ xs) h = elim (Bool-cases (le a x)) [
    | inl e ↦ rw e at h
    | inr e ↦ elim (later (rw e at h)) [
      | inl l ↦ inr (inl l)
      | inr r ↦ elim (Has-insert_by b a xs r) [ inl l ↦ inl l | inr m ↦ inr (inr m) ]
    ]
  ]
    where
      later : Has b (x ∷ insert_by le a xs) → (b ≡ x) ⊎ Has b (insert_by le a xs)
      later m = m

  pub Has-sort_by : (b : A) (xs : List A) → Has b (sort_by le xs) → Has b xs
  unfolding sort_by
  Has-sort_by b [] h = h
  Has-sort_by b (x ∷ xs) h = elim (Has-insert_by b x (sort_by le xs) h) [
    | inl e ↦ inl e
    | inr m ↦ inr (Has-sort_by b xs m)
  ]

  insert_by-Has : (b a : A) (xs : List A) → (b ≡ a) ⊎ Has b xs → Has b (insert_by le a xs)
  unfolding insert_by
  insert_by-Has b a [] h = h
  insert_by-Has b a (x ∷ xs) h = elim (Bool-cases (le a x)) [
    | inl e ↦ rw e h
    | inr e ↦ rw e (elim h [
      | inl l ↦ inr (insert_by-Has b a xs (inl l))
      | inr m ↦ elim m [ inl l ↦ inl l | inr r ↦ inr (insert_by-Has b a xs (inr r)) ]
    ])
  ]

  pub sort_by-Has : (b : A) (xs : List A) → Has b xs → Has b (sort_by le xs)
  unfolding sort_by
  sort_by-Has b [] h = h
  sort_by-Has b (x ∷ xs) (inl e) = insert_by-Has b x (sort_by le xs) (inl e)
  sort_by-Has b (x ∷ xs) (inr m) = insert_by-Has b x (sort_by le xs) (inr (sort_by-Has b xs m))

  module _ (total : (a b : A) → le a b ≡ false → le b a ≡ true)
      (trans : (a b c : A) → le a b ≡ true → le b c ≡ true → le a c ≡ true) where
    All-le :
        (a x : A) (xs : List A)
        → le a x ≡ true
        → All (λ y. le x y ≡ true) xs
        → All (λ y. le a y ≡ true) xs
    All-le a x [] h k = tt
    All-le a x (y ∷ xs) h k = (trans a x y h k.0, All-le a x xs h k.1)

    All-insert_by :
        (z a : A) (xs : List A)
        → le z a ≡ true
        → All (λ y. le z y ≡ true) xs
        → All (λ y. le z y ≡ true) (insert_by le a xs)
    unfolding insert_by
    All-insert_by z a [] h k = (h, tt)
    All-insert_by z a (x ∷ xs) h k = elim (Bool-cases (le a x)) [
      | inl e ↦ rw e (h, k)
      | inr e ↦ rw e (k.0, All-insert_by z a xs h k.1)
    ]

    insert_by-IsSortedBy :
        (a : A) (xs : List A) → IsSortedBy le xs → IsSortedBy le (insert_by le a xs)
    unfolding insert_by
    insert_by-IsSortedBy a [] s = (tt, tt)
    insert_by-IsSortedBy a (x ∷ xs) s = elim (Bool-cases (le a x)) [
      | inl e ↦ rw e ((e, All-le a x xs e s.0), s)
      | inr e ↦ rw e (All-insert_by x a xs (total a x e) s.0, insert_by-IsSortedBy a xs s.1)
    ]

    pub sort_by-IsSortedBy : (xs : List A) → IsSortedBy le (sort_by le xs)
    unfolding sort_by
    sort_by-IsSortedBy [] = tt
    sort_by-IsSortedBy (x ∷ xs) = insert_by-IsSortedBy x (sort_by le xs) (sort_by-IsSortedBy xs)
