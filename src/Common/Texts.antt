-- ===== src/Common/Texts.antt =====
-- Rust's `String` and `Vec<u8>` as lists of bytes: equality, the byte order of `str::cmp`, the
-- searches that the program makes, and `HashSet<String>` as a list that gains each entry once.
use Prim.Native.Char.{code}
use Prim.Native.String.{String}
use mathlib.Core.Path.{◌≡◌, refl, ap, sym, ◌∙◌}
use mathlib.Core.Logic.{◌↔◌, ◌⊎◌, inl, inr}
use mathlib.Core.Bool.{Bool, true, false, ◌&&◌, ◌||◌}
use mathlib.Core.Option.{Option, none, some}
use mathlib.Core.List.{List, [], ◌∷◌, ◌++◌}
use native.Mathlib.Omega.{arith}
use Prim.Native.Nat.{ℕ}
use server_backup.Common.Tests.{◌==◌, if◌then◌else◌, Bool-cases, ltb}
use server_backup.Common.Lists.{Has}

abbrev pub Bytes : Type 0
Bytes = List ℕ

abbrev pub Text : Type 0
Text = List ℕ

-- The bytes of an ASCII literal.
abbrev pub bytes : String → Text
bytes String.[] = []
bytes (String.◌∷◌ c s) = code c ∷ bytes s

-- `a == b` of two byte strings.
unfoldable pub text_eq : Text → Text → Bool
text_eq [] [] = true
text_eq (a ∷ s) (b ∷ t) = a == b && text_eq s t
text_eq _ _ = false

pub text_eq_refl : (s : Text) → text_eq s s ≡ true
unfolding text_eq
text_eq_refl [] = refl
text_eq_refl (a ∷ s) = ground (arith, text_eq_refl s)

pub text_eq_sound : (s t : Text) → text_eq s t ≡ true → s ≡ t
unfolding text_eq
text_eq_sound [] [] h = refl
text_eq_sound (a ∷ s) (b ∷ t) h = ground (arith, text_eq_sound s t)
text_eq_sound [] (b ∷ t) h = ground arith
text_eq_sound (a ∷ s) [] h = ground arith

pub text_eq_iff : (s t : Text) → (text_eq s t ≡ true) ↔ (s ≡ t)
text_eq_iff s t = (text_eq_sound s t, λ e. ap (text_eq s) (sym e) ∙ text_eq_refl s)

-- `a.cmp(b) != Greater`, by bytes.
unfoldable pub text_le : Text → Text → Bool
text_le [] t = true
text_le (a ∷ s) [] = false
text_le (a ∷ s) (b ∷ t) = ltb a b || (a == b && text_le s t)

pub text_le_total : (s t : Text) → text_le s t ≡ false → text_le t s ≡ true
unfolding text_le
text_le_total [] t h = ground arith
text_le_total (a ∷ s) [] h = refl
text_le_total (a ∷ s) (b ∷ t) h = ground (arith, text_le_total s t)

pub text_le_trans : (s t u : Text) → text_le s t ≡ true → text_le t u ≡ true → text_le s u ≡ true
unfolding text_le
text_le_trans [] t u h k = refl
text_le_trans (a ∷ s) [] u h k = ground arith
text_le_trans (a ∷ s) (b ∷ t) [] h k = ground arith
text_le_trans (a ∷ s) (b ∷ t) (c ∷ u) h k = ground (arith, text_le_trans s t u)

pub text_le_antisym : (s t : Text) → text_le s t ≡ true → text_le t s ≡ true → s ≡ t
unfolding text_le
text_le_antisym [] [] h k = refl
text_le_antisym [] (b ∷ t) h k = ground arith
text_le_antisym (a ∷ s) [] h k = ground arith
text_le_antisym (a ∷ s) (b ∷ t) h k = ground (arith, text_le_antisym s t)

-- `set.contains(t)`.
unfoldable pub contains : List Text → Text → Bool
contains [] t = false
contains (x ∷ xs) t = text_eq t x || contains xs t

-- `set.insert(t)`: the new set. The Boolean that it returns is `not (contains set t)`.
unfoldable pub insert : Text → List Text → List Text
unfolding contains
insert t xs = if contains xs t then xs else t ∷ xs

pub contains-Has : (xs : List Text) (t : Text) → contains xs t ≡ true → Has t xs
unfolding contains
contains-Has [] t h = ground arith
contains-Has (x ∷ xs) t h = elim (Bool-cases (text_eq t x)) [
  | inl e ↦ inl (text_eq_sound t x e)
  | inr e ↦ inr (contains-Has xs t (ground arith))
]

pub Has-contains : (xs : List Text) (t : Text) → Has t xs → contains xs t ≡ true
unfolding contains
Has-contains [] t m = absurd m
Has-contains (x ∷ xs) t (inl e) = ground (arith, text_eq_iff t x)
Has-contains (x ∷ xs) t (inr m) = ground (arith, Has-contains xs t m)

pub Has-insert : (t u : Text) (xs : List Text) → Has u (insert t xs) → (u ≡ t) ⊎ Has u xs
unfolding insert
Has-insert t u xs h = elim (Bool-cases (contains xs t)) [
  | inl e ↦ inr (subst_if e h)
  | inr e ↦ subst_else e h
]
  where
    subst_if : contains xs t ≡ true → Has u (if contains xs t then xs else t ∷ xs) → Has u xs
    subst_if e m = rw e at m

    subst_else :
        contains xs t ≡ false → Has u (if contains xs t then xs else t ∷ xs) → (u ≡ t) ⊎ Has u xs
    subst_else e m = rw e at m

pub insert-Has : (t : Text) (xs : List Text) → Has t (insert t xs)
unfolding insert
insert-Has t xs = elim (Bool-cases (contains xs t)) [
  | inl e ↦ rw e (contains-Has xs t e)
  | inr e ↦ rw e (inl refl)
]

pub insert_keeps : (t u : Text) (xs : List Text) → Has u xs → Has u (insert t xs)
unfolding insert
insert_keeps t u xs h = elim (Bool-cases (contains xs t)) [ inl e ↦ rw e h | inr e ↦ rw e (inr h) ]

-- `s.contains(c)` for one byte.
unfoldable pub has_byte : ℕ → Text → Bool
has_byte c [] = false
has_byte c (x ∷ s) = x == c || has_byte c s

-- `s.starts_with(p)`, with the rest after `p`: `s.strip_prefix(p)`.
unfoldable pub strip_prefix : Text → Text → Option Text
strip_prefix [] s = some s
strip_prefix (c ∷ p) [] = none
strip_prefix (c ∷ p) (x ∷ s) = if x == c then strip_prefix p s else none

unfoldable pub starts_with : Text → Text → Bool
unfolding strip_prefix
starts_with p s = elim (strip_prefix p s) [ some _ ↦ true | none ↦ false ]

pub strip_prefix-append : (p s : Text) → strip_prefix p (p ++ s) ≡ some s
unfolding strip_prefix
strip_prefix-append [] s = refl
strip_prefix-append (c ∷ p) s = ground (arith, strip_prefix-append p s)

pub strip_prefix-eq_some : (p s r : Text) → strip_prefix p s ≡ some r → s ≡ p ++ r
unfolding strip_prefix
strip_prefix-eq_some [] s r h = ground arith
strip_prefix-eq_some (c ∷ p) [] r h = ground arith
strip_prefix-eq_some (c ∷ p) (x ∷ s) r h = ground (arith, strip_prefix-eq_some p s r)
