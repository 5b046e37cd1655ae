-- ===== src/Common/Distinct.antt =====
-- Lists without repetition, and lists with entries left out.
use mathlib.Core.Path.{◌≡◌, refl, sym, ap}
use mathlib.Core.Logic.{inl, inr}
use mathlib.Core.Bool.{Bool}
use mathlib.Core.List.{List, [], ◌∷◌, ◌++◌, map}
use server_backup.Common.Tests.{Bool-cases}
use server_backup.Common.Lists.{Has, Has-append}
use server_backup.Common.Sorting.{insert_by, sort_by, Has-insert_by, Has-sort_by}

-- No value stands in two places.
unfoldable pub Distinct : {A : Type 0} → List A → Type 0
Distinct [] = Unit
Distinct (x ∷ xs) = ¬ Has x xs × Distinct xs

-- A list with some of its entries left out.
pub data Sub {A : Type 0} : List A → List A → Type 0 where
  empty : Sub [] []
  kept : {x : A} {xs ys : List A} → Sub xs ys → Sub (x ∷ xs) (x ∷ ys)
  left_out : {x : A} {xs ys : List A} → Sub xs ys → Sub xs (x ∷ ys)

module _ {A : Type 0} where
  pub Sub-Has : (x : A) {xs ys : List A} → Sub xs ys → Has x xs → Has x ys
  Sub-Has x empty m = m
  Sub-Has x (kept s) (inl e) = inl e
  Sub-Has x (kept s) (inr m) = inr (Sub-Has x s m)
  Sub-Has x (left_out s) m = inr (Sub-Has x s m)

  pub Sub-map : {B : Type 0} (f : A → B) {xs ys : List A} → Sub xs ys → Sub (map f xs) (map f ys)
  Sub-map f empty = empty
  Sub-map f (kept s) = kept (Sub-map f s)
  Sub-map f (left_out s) = left_out (Sub-map f s)

pub Sub-Distinct : {A : Type 0} {xs ys : List A} → Sub xs ys → Distinct ys → Distinct xs
unfolding Distinct
Sub-Distinct empty d = d
Sub-Distinct (kept {x = a} s) (fresh, d) = (λ m. fresh (Sub-Has a s m), Sub-Distinct s d)
Sub-Distinct (left_out s) (fresh, d) = Sub-Distinct s d

-- A new value at the end.
pub Distinct-snoc :
    {A : Type 0} (xs : List A) (x : A) → Distinct xs → ¬ Has x xs → Distinct (xs ++ x ∷ [])
unfolding Distinct
Distinct-snoc [] x d n = (λ m. m, tt)
Distinct-snoc (y ∷ xs) x (fresh, d) n = (
  λ m. elim (Has-append y xs (x ∷ []) m) [
    | inl later ↦ fresh later
    | inr (inl e) ↦ n (inl (sym e))
    | inr (inr none_left) ↦ none_left
  ],
  Distinct-snoc xs x d (λ m. n (inr m)),
)

pub Sub-refl : {A : Type 0} (xs : List A) → Sub xs xs
Sub-refl [] = empty
Sub-refl (x ∷ xs) = kept (Sub-refl xs)

pub map-snoc :
    {A B : Type 0} (f : A → B) (x : A) (xs : List A) → map f (xs ++ x ∷ []) ≡ map f xs ++ f x ∷ []
map-snoc f x [] = refl
map-snoc f x (y ∷ xs) = ap (λ l. f y ∷ l) (map-snoc f x xs)

insert_by-Distinct :
    {A : Type 0} (le : A → A → Bool) (a : A) (xs : List A)
    → Distinct xs
    → ¬ Has a xs
    → Distinct (insert_by le a xs)
unfolding insert_by Distinct
insert_by-Distinct le a [] d n = (n, tt)
insert_by-Distinct le a (x ∷ xs) (fresh, d) n = elim (Bool-cases (le a x)) [
  | inl e ↦ rw e (n, (fresh, d))
  | inr e ↦ rw e (
    λ m. elim (Has-insert_by le x a xs m) [
      | inl same ↦ n (inl (sym same))
      | inr later ↦ fresh later
    ],
    insert_by-Distinct le a xs d (λ m. n (inr m)),
  )
]

pub sort_by-Distinct :
    {A : Type 0} (le : A → A → Bool) (xs : List A) → Distinct xs → Distinct (sort_by le xs)
unfolding sort_by Distinct
sort_by-Distinct le [] d = tt
sort_by-Distinct le (x ∷ xs) (fresh, d) =
    insert_by-Distinct le x (sort_by le xs) (sort_by-Distinct le xs d)
      (λ m. fresh (Has-sort_by le x xs m))
