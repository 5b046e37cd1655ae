-- ===== src/Common/Actions.antt =====
-- Methods that change a state and may fail: what was written before a failure stays written.
use mathlib.Core.Path.{◌≡◌, refl, sym, ap, subst}
use server_backup.Common.Errors.{Error, Result, ok, err}

abbrev pub Action : Type 0 → Type 0 → Type 0
Action S A = S → Result A × S

module _ {S A : Type 0} where
  abbrev pub pure : A → Action S A
  pure a s = (ok a, s)

  abbrev pub throw : Error → Action S A
  throw e s = (err e, s)

  abbrev pub lift : Result A → Action S A
  lift r s = (r, s)

abbrev pub map_error : {A : Type 0} → (Error → Error) → Result A → Result A
map_error f (ok a) = ok a
map_error f (err e) = err (f e)

module _ {S A B : Type 0} where
  abbrev pub continue : (A → Action S B) → Result A → Action S B
  continue f (ok a) s = f a s
  continue f (err e) s = (err e, s)

  infixl 5 ◌>>=◌ ◌>>◌
  abbrev pub ◌>>=◌ : Action S A → (A → Action S B) → Action S B
  ◌>>=◌ m f s = continue f (m s).0 (m s).1

  abbrev pub ◌>>◌ : Action S A → Action S B → Action S B
  m >> n = m >>= λ _. n

-- A run returns with `Q`, or fails and leaves `F`.
pub data Ends {S A : Type 0} (Q : A → S → Type 0) (F : S → Type 0) (r : Result A × S) : Type 0 where
  returned : (a : A) (s : S) → r ≡ (ok a, s) → Q a s → Ends Q F r
  failed : (e : Error) (s : S) → r ≡ (err e, s) → F s → Ends Q F r

module _ {S A B : Type 0} (Q : A → S → Type 0) (R : B → S → Type 0) (F : S → Type 0) where
  -- The rule of a `do` block.
  pub Ends-bind :
      (m : Action S A) (f : A → Action S B) (s : S)
      → Ends Q F (m s)
      → ((a : A) (s' : S) → Q a s' → Ends R F (f a s'))
      → Ends R F ((m >>= f) s)
  Ends-bind m f s (returned a s' h q) k =
      subst (λ (p : Result A × S). Ends R F (continue f p.0 p.1)) (sym h) (k a s' q)
  Ends-bind m f s (failed e s' h q) k =
      failed e s' (ap (λ (p : Result A × S). continue f p.0 p.1) h) q

module _ {S A : Type 0} (Q Q' : A → S → Type 0) (F F' : S → Type 0) where
  pub Ends-weaken :
      (r : Result A × S)
      → ((a : A) (s : S) → Q a s → Q' a s)
      → ((s : S) → F s → F' s)
      → Ends Q F r
      → Ends Q' F' r
  Ends-weaken r good bad (returned a s h q) = returned a s h (good a s q)
  Ends-weaken r good bad (failed e s h q) = failed e s h (bad s q)

module _ {S A B : Type 0} where
  -- A `do` block that has returned ran both of its parts.
  pub >>=-eq_ok :
      (m : Action S A) (f : A → Action S B) (s : S) (b : B) (s' : S)
      → (m >>= f) s ≡ (ok b, s')
      → (a : A) × (t : S) × (m s ≡ (ok a, t)) × (f a t ≡ (ok b, s'))
  >>=-eq_ok m f s b s' h = go (m s).0 (m s).1 refl h
    where
      go :
          (r : Result A) (t : S)
          → m s ≡ (r, t)
          → continue f r t ≡ (ok b, s')
          → (a : A) × (u : S) × (m s ≡ (ok a, u)) × (f a u ≡ (ok b, s'))
      go (ok a) t e k = (a, t, e, k)
      go (err x) t e k = absurd (cc k)

  -- A check that has passed, and what follows it.
  pub lift-then :
      (r : Result A) (f : A → Action S B) (s s' : S) (b : B)
      → (lift r >>= f) s ≡ (ok b, s')
      → (a : A) × (r ≡ ok a) × (f a s ≡ (ok b, s'))
  lift-then r f s s' b h =
      let (a, t, q, k) = >>=-eq_ok (lift r) f s b s' h in
      (
        a,
        ap (λ (p : Result A × S). p.0) q,
        subst (λ e. f a e ≡ (ok b, s')) (sym (ap (λ (p : Result A × S). p.1) q)) k,
      )
