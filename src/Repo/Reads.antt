-- ===== src/Repo/Reads.antt =====
-- repo.rs: the steps of prune that only read leave the objects as they are, whatever fails.
use server_backup.Common.{
  Bool, true, false, some, List, [], ◌∷◌, ◌≡◌, refl, subst, if◌then◌else◌, sort_by,
}
use server_backup.Common.Texts.{Text, bytes}
use server_backup.Common.Errors.{Error, Result, ok, err}
use server_backup.Common.Actions.{
  Action, returned, failed, Ends-bind, Ends-weaken, ◌>>=◌, pure, lift, throw,
}
use server_backup.Backend.{Backend, Objects, lookup, keys_under, is_some, get, exists, list}
use server_backup.Backend.Laws.{Outcome, get-Outcome, exists_Outcome, list-Outcome}
use server_backup.Repo.{
  Repository, parse_manifest, load_manifests, list_snapshots, ends_with, newest_listed_first,
}

abbrev pub Anything : {A : Type 0} → A → Type 0
Anything a = Unit {0}

-- Started on the objects `o`, the method fails or returns what `Q` says, with the objects still `o`.
pub record Reads (o : Objects) {A : Type 0} (Q : A → Type 0) (m : Action Backend A) : Type 0 where
  pub run : (b : Backend) → b.objects ≡ o → Outcome Q o o (m b)

module _ (o : Objects) where
  pub Reads-bind :
      {A B : Type 0} {Q : A → Type 0} {R : B → Type 0} {m : Action Backend A}
      {f : A → Action Backend B}
      → Reads o Q m
      → ((a : A) → Q a → Reads o R (f a))
      → Reads o R (m >>= f)
  Reads-bind {m = m} {f = f} h k = record {
    run = λ b e. Ends-bind _ _ _ m f b (h.run b e) (λ a b' (q, e'). (k a q).run b' e');
  }

  pub pure-Reads : {A : Type 0} (Q : A → Type 0) (a : A) → Q a → Reads o Q (pure a)
  pure-Reads Q a q = record { run = λ b e. returned a b refl (q, e) }

  pub lift-Reads : {A : Type 0} (r : Result A) → Reads o (λ a. r ≡ ok a) (lift r)
  lift-Reads (ok a) = record { run = λ b e. returned a b refl (refl, e) }
  lift-Reads (err x) = record { run = λ b e. failed x b refl e }

  pub get-Reads : (key : Text) → Reads o (λ v. lookup key o ≡ some v) (get key)
  get-Reads key = record {
    run = λ b e.
        subst (λ m. Outcome (λ v. lookup key m ≡ some v) m m (get key b)) e (get-Outcome b key);
  }

  pub exists_Reads : (key : Text) → Reads o (λ found. found ≡ is_some (lookup key o)) (exists key)
  exists_Reads key = record {
    run = λ b e.
        subst (λ m. Outcome (λ found. found ≡ is_some (lookup key m)) m m (exists key b)) e
          (exists_Outcome b key);
  }

  pub list-Reads : (prefix : Text) → Reads o (λ keys. keys ≡ keys_under prefix o) (list prefix)
  list-Reads prefix = record {
    run = λ b e.
        subst (λ m. Outcome (λ keys. keys ≡ keys_under prefix m) m m (list prefix b)) e
          (list-Outcome b prefix);
  }

  pub Reads-weaken :
      {A : Type 0} {Q R : A → Type 0} {m : Action Backend A}
      → Reads o Q m
      → ((a : A) → Q a → R a)
      → Reads o R m
  Reads-weaken {m = m} h k = record {
    run = λ b e. Ends-weaken _ _ _ _ (m b) (λ a b' (q, e'). (k a q, e')) (λ b' q. q) (h.run b e);
  }

  pub throw-Reads : {A : Type 0} (Q : A → Type 0) (x : Error) → Reads o Q (throw x)
  throw-Reads Q x = record { run = λ b e. failed x b refl e }

  pub if_Reads :
      {A : Type 0} (Q : A → Type 0) (c : Bool) (m n : Action Backend A)
      → (c ≡ true → Reads o Q m)
      → (c ≡ false → Reads o Q n)
      → Reads o Q (if c then m else n)
  if_Reads Q true m n h k = h refl
  if_Reads Q false m n h k = k refl

  module _ (repo : Repository) where
    load_manifests-Reads : (keys : List Text) → Reads o Anything (load_manifests repo keys)
    unfolding load_manifests
    load_manifests-Reads [] = pure-Reads _ [] tt
    load_manifests-Reads (key ∷ keys) =
        if_Reads _ (ends_with (bytes ".json") key) _ _
          (λ _. Reads-bind (get-Reads key) λ stored _.
            Reads-bind (lift-Reads (parse_manifest repo stored))
              λ s _. Reads-bind (load_manifests-Reads keys) λ found _. pure-Reads _ (s ∷ found) tt)
          (λ _. load_manifests-Reads keys)

    pub list_snapshots-Reads : Reads o Anything (list_snapshots repo)
    unfolding list_snapshots
    list_snapshots-Reads = Reads-bind (list-Reads (bytes "snapshots")) λ keys _.
        Reads-bind (load_manifests-Reads keys)
          λ out _. pure-Reads _ (sort_by newest_listed_first out) tt
