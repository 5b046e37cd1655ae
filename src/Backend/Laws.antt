-- ===== src/Backend/Laws.antt =====
-- backend.rs: what each method returns and leaves, whatever the operating system answers.
use server_backup.Common.{
  Bool, true, false, Option, none, some, List, [], ◌∷◌, ◌≡◌, refl, arith, if◌then◌else◌, ap, sym,
  subst, ◌∙◌,
}
use server_backup.Common.Texts.{Text, Bytes, text_eq, text_eq_iff}
use server_backup.Common.Errors.{Result, ok, err, io}
use server_backup.Common.Actions.{Action, Ends, returned, failed, continue, ◌>>◌}
use server_backup.Backend.{
  Objects, Backend, lookup, store, remove, keys_under, attempt, get, put, exists, list, delete,
  is_some, or_missing,
}

pub lookup-store :
    (k j : Text) (v : Bytes) (m : Objects)
    → lookup j (store k v m) ≡ (if text_eq j k then some v else lookup j m)
unfolding lookup store
lookup-store k j v [] = refl
lookup-store k j v ((i, w) ∷ m) =
    ground (arith, text_eq_iff k i, text_eq_iff j i, text_eq_iff j k, lookup-store k j v m)

pub lookup-remove :
    (k j : Text) (m : Objects) → lookup j (remove k m) ≡ (if text_eq j k then none else lookup j m)
unfolding lookup remove
lookup-remove k j [] = ground arith
lookup-remove k j ((i, w) ∷ m) =
    ground (arith, text_eq_iff k i, text_eq_iff j i, text_eq_iff j k, lookup-remove k j m)

pub is_some-none : (o : Option Bytes) → is_some o ≡ false → o ≡ none
unfolding is_some
is_some-none none e = refl
is_some-none (some v) e = absurd (cc)

-- A method fails and leaves the objects as they were, or it returns what `Q` says and leaves `after`.
abbrev pub Outcome : {A : Type 0} → (A → Type 0) → Objects → Objects → Result A × Backend → Type 0
Outcome Q before after = Ends (λ a b. Q a × (b.objects ≡ after)) (λ b. b.objects ≡ before)

-- What a method that has returned says, and leaves.
pub Outcome-ok :
    {A : Type 0} {Q : A → Type 0} {before after : Objects} {r : Result A × Backend} {a : A}
    {b : Backend}
    → Outcome Q before after r
    → r ≡ (ok a, b)
    → Q a × (b.objects ≡ after)
Outcome-ok {A = A} {Q = Q} {after = after} (returned a' b' h (q, o)) e =
    let same : ◌≡◌ {A = Result A × Backend} (ok a', b') (ok _, _) = sym h ∙ e in
    let values : ◌≡◌ {A = Result A} (ok a') (ok _) = ap (λ (p : Result A × Backend). p.0) same in
    (subst Q (cc values) q, ap (λ (p : Result A × Backend). p.1.objects) (sym same) ∙ o)
Outcome-ok {A = A} (failed x b' h o) e =
    let same : ◌≡◌ {A = Result A × Backend} (err x, b') (ok _, _) = sym h ∙ e in absurd (cc same)

attempt-Outcome :
    (b : Backend) → Outcome (λ (u : Unit {0}). Unit {0}) b.objects b.objects (attempt b)
unfolding attempt
attempt-Outcome b = go b.faults
  where
    go :
        (faults : List Bool)
        → Outcome
            (λ (u : Unit {0}). Unit {0})
            b.objects
            b.objects
            (attempt (record { objects = b.objects; faults = faults }))
    go [] = returned tt _ refl (tt, refl)
    go (true ∷ later) = failed io _ refl refl
    go (false ∷ later) = returned tt _ refl (tt, refl)

module _ {A : Type 0} (Q : A → Type 0) (rest : Action Backend A) where
  -- A method is one call of the operating system and then a step that cannot fail on its own.
  after_attempt :
      (b : Backend) (after : Objects)
      → ((b' : Backend) → b'.objects ≡ b.objects → Outcome Q b.objects after (rest b'))
      → Outcome Q b.objects after ((attempt >> rest) b)
  after_attempt b after k = go (attempt b) (attempt-Outcome b)
    where
      go :
          (r : Result (Unit {0}) × Backend)
          → Outcome (λ (u : Unit {0}). Unit {0}) b.objects b.objects r
          → Outcome Q b.objects after (continue (λ u. rest) r.0 r.1)
      go r (failed e b' h o) =
          failed e b' (ap (λ (p : Result (Unit {0}) × Backend). continue (λ u. rest) p.0 p.1) h) o
      go r (returned u b' h (_, o)) =
          subst
            (λ (p : Result (Unit {0}) × Backend).
              Outcome Q b.objects after (continue (λ u. rest) p.0 p.1))
            (sym h) (k b' o)

module _ (b : Backend) where
  pub get-Outcome :
      (key : Text) → Outcome (λ v. lookup key b.objects ≡ some v) b.objects b.objects (get key b)
  unfolding get
  get-Outcome key =
      after_attempt _ _ b b.objects λ b' o. go b' o (lookup key b'.objects) (ap (lookup key) o)
    where
      go :
          (b' : Backend)
          → b'.objects ≡ b.objects
          → (found : Option Bytes) → found ≡ lookup key b.objects
          → Outcome (λ v. lookup key b.objects ≡ some v) b.objects b.objects (or_missing found b')
      go b' o none e = failed io b' refl o
      go b' o (some v) e = returned v b' refl (sym e, o)

  pub put-Outcome :
      (key : Text) (v : Bytes)
      → Outcome (λ (u : Unit {0}). Unit {0}) b.objects (store key v b.objects) (put key v b)
  unfolding put
  put-Outcome key v =
      after_attempt _ _ b (store key v b.objects)
        λ b' o. returned tt _ refl (tt, ap (store key v) o)

  pub exists_Outcome :
      (key : Text)
      → Outcome (λ found. found ≡ is_some (lookup key b.objects)) b.objects b.objects (exists key b)
  unfolding exists
  exists_Outcome key =
      after_attempt _ _ b b.objects
        λ b' o. returned _ b' refl (ap (λ m. is_some (lookup key m)) o, o)

  pub list-Outcome :
      (prefix : Text)
      → Outcome (λ keys. keys ≡ keys_under prefix b.objects) b.objects b.objects (list prefix b)
  unfolding list
  list-Outcome prefix =
      after_attempt _ _ b b.objects λ b' o. returned _ b' refl (ap (keys_under prefix) o, o)

  pub delete-Outcome :
      (key : Text)
      → Outcome (λ (u : Unit {0}). Unit {0}) b.objects (remove key b.objects) (delete key b)
  unfolding delete
  delete-Outcome key =
      after_attempt _ _ b (remove key b.objects) λ b' o. returned tt _ refl (tt, ap (remove key) o)
