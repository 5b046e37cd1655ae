-- ===== src/Replication/Expected.antt =====
-- replication.rs: what a run owes to the target, stated on the objects alone.
use server_backup.Common.{
  ℕ, ◌+◌, ◌≡◌, refl, ap, ◌⊎◌, inl, inr, ◌||◌, Option, none, some, List, [], ◌∷◌, ◌++◌, arith,
  if◌then◌else◌, Bool-cases,
}
use server_backup.Common.Texts.{Text, Bytes, text_eq_iff, contains}
use server_backup.Backend.{Objects, lookup, store}
use server_backup.Backend.Laws.{lookup-store}
use server_backup.Replication.{ReplicateMode, mirror, repair, ReplicateStats, Pair}

-- What the target should hold under a key: a mirror keeps what is there.
abbrev pub expected : ReplicateMode → Option Bytes → Option Bytes → Option Bytes
expected mirror (some v) source = some v
expected mirror none source = source
expected repair target source = source

abbrev pub total : ReplicateStats → ℕ
total s = s.copied + s.skipped + s.repaired

-- The pair `q` holds the objects `s` and `t`.
abbrev pub Holds : Objects → Objects → Pair → Type 0
Holds s t q = (q.source.objects ≡ s) × (q.target.objects ≡ t)

-- The target `t'` has what is expected under each of `keys`, and what `t` has elsewhere.
abbrev pub Updated : ReplicateMode → List Text → Objects → Objects → Objects → Type 0
Updated mode keys s t t' =
    (j : Text)
    → lookup j t'
      ≡ (if contains keys j then expected mode (lookup j t) (lookup j s) else lookup j t)

module _ (mode : ReplicateMode) (s t : Objects) where
  -- One object copied.
  pub stored-Updated :
      (key : Text) (v : Bytes)
      → lookup key s ≡ some v
      → expected mode (lookup key t) (lookup key s) ≡ some v
      → Updated mode (key ∷ []) s t (store key v t)
  unfolding contains
  stored-Updated key v h e j = ground (arith, lookup-store key j v t, text_eq_iff j key)

  pub kept-Updated :
      (key : Text)
      → expected mode (lookup key t) (lookup key s) ≡ lookup key t
      → Updated mode (key ∷ []) s t t
  unfolding contains
  kept-Updated key e j = ground (arith, text_eq_iff j key)

module _ (mode : ReplicateMode) (s : Objects) where
  expected_again : (a b : Option Bytes) → expected mode (expected mode a b) b ≡ expected mode a b
  expected_again a b = ground arith

  contains-append :
      (xs ys : List Text) (j : Text) → contains (xs ++ ys) j ≡ (contains xs j || contains ys j)
  unfolding contains
  contains-append [] ys j = refl
  contains-append (x ∷ xs) ys j = ground (arith, contains-append xs ys j)

  pub Updated-append :
      (xs ys : List Text) (t t' t'' : Objects)
      → Updated mode xs s t t'
      → Updated mode ys s t' t''
      → Updated mode (xs ++ ys) s t t''
  Updated-append xs ys t t' t'' h k j =
      ground (arith, h j, k j, contains-append xs ys j, expected_again (lookup j t) (lookup j s))

  -- Each key of `t'` has what `t` had, or what is expected of a complete run.
  unfoldable pub Partial : Objects → Objects → Type 0
  Partial t t' =
      (j : Text)
      → (lookup j t' ≡ lookup j t) ⊎ (lookup j t' ≡ expected mode (lookup j t) (lookup j s))

  pub Partial-refl : (t t' : Objects) → t' ≡ t → Partial t t'
  unfolding Partial
  Partial-refl t t' e j = inl (ap (lookup j) e)

  pub Updated-Partial : (xs : List Text) (t t' : Objects) → Updated mode xs s t t' → Partial t t'
  unfolding Partial
  Updated-Partial xs t t' h j = elim (Bool-cases (contains xs j)) [
    | inl y ↦ inr (rw y at (h j))
    | inr n ↦ inl (rw n at (h j))
  ]

  pub Partial-trans : (t t' t'' : Objects) → Partial t t' → Partial t' t'' → Partial t t''
  unfolding Partial
  Partial-trans t t' t'' h k j = ground (arith, h j, k j, expected_again (lookup j t) (lookup j s))
