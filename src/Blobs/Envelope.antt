-- ===== src/Blobs/Envelope.antt =====
-- blobs.rs: the header, both ways.
use mathlib.Core.Path.{ap₂}
use server_backup.Common.{
  [], ◌∷◌, take, drop, ◌↔◌, subst, ◌∙◌, ap, ◌++◌, ℕ, zero, suc, ◌<◌, ◌≡◌, refl, sym, ◌⊎◌, inl, inr,
  Bool, true, false, ◌&&◌, ◌||◌, arith, ◌==◌,
}
use server_backup.Common.Texts.{Bytes, text_eq, text_eq_sound}
use server_backup.Common.Errors.{ok}
use server_backup.Blobs.{magic, parse_flags, is_valid, wrap, unwrap}

-- The four bytes of flags that a reader understands: the storage, plain or zstd, with or without
-- encryption.
abbrev pub Known : ℕ → Type 0
Known f = (f ≡ 1) ⊎ (f ≡ 2) ⊎ (f ≡ 5) ⊎ (f ≡ 6)

abbrev known : ℕ → Bool
known f = f == 1 || (f == 2 || (f == 5 || f == 6))

all_below : ℕ → (ℕ → Bool) → Bool
all_below zero p = true
all_below (suc n) p = p n && all_below n p

all_below_at : (n : ℕ) (p : ℕ → Bool) (x : ℕ) → all_below n p ≡ true → x < n → p x ≡ true
unfolding all_below
all_below_at zero p x h lt = absurd (omega arith)
all_below_at (suc n) p x h lt = ground (arith, all_below_at n p x)

abbrev same : Bool → Bool → Bool
same true b = b
same false true = false
same false false = true

known_table : all_below 256 (λ f. same (is_valid f) (known f)) ≡ true
unfolding all_below is_valid
known_table = refl

is_valid-known : (f : ℕ) → f < 256 → is_valid f ≡ known f
is_valid-known f h = agree (is_valid f) (known f) (all_below_at 256 _ f known_table h)
  where
    agree : (a b : Bool) → same a b ≡ true → a ≡ b
    agree true b e = sym e
    agree false true e = e
    agree false false e = refl

pub is_valid-Known : (f : ℕ) → Known f → is_valid f ≡ true
unfolding is_valid
is_valid-Known f (inl e) = rw e
is_valid-Known f (inr (inl e)) = rw e
is_valid-Known f (inr (inr (inl e))) = rw e
is_valid-Known f (inr (inr (inr e))) = rw e

Known-of_test : (f : ℕ) → known f ≡ true → Known f
Known-of_test f h = ground arith

pub unwrap-wrap :
    (flags : ℕ) (payload : Bytes) → Known flags → unwrap (wrap flags payload) ≡ ok (flags, payload)
unfolding unwrap wrap text_eq
unwrap-wrap flags payload k = ground (arith, is_valid-Known flags k)

take-drop : (n : ℕ) (xs : Bytes) → take n xs ++ drop n xs ≡ xs
take-drop zero xs = refl
take-drop (suc n) [] = refl
take-drop (suc n) (x ∷ xs) = ap (λ l. x ∷ l) (take-drop n xs)

parse_flags-eq_ok :
    (rest payload : Bytes) (flags : ℕ)
    → parse_flags rest ≡ ok (flags, payload)
    → (rest ≡ flags ∷ payload) × (is_valid flags ≡ true)
unfolding parse_flags
parse_flags-eq_ok [] payload flags h = absurd (cc)
parse_flags-eq_ok (f ∷ rest) payload flags h = ground (arith, is_valid f)

unwrap-eq_ok :
    (blob payload : Bytes) (flags : ℕ)
    → unwrap blob ≡ ok (flags, payload)
    → (text_eq (take 4 blob) magic ≡ true) × (parse_flags (drop 4 blob) ≡ ok (flags, payload))
unwrap-eq_ok blob payload flags h = unfold unwrap in ground arith

-- A reader accepts exactly the blobs that `wrap` makes of a known flags byte, and gets back the
-- flags and the payload.
pub unwrap_exact :
    (blob payload : Bytes) (flags : ℕ)
    → flags < 256
    → (unwrap blob ≡ ok (flags, payload)) ↔ ((blob ≡ wrap flags payload) × Known flags)
unfolding wrap
unwrap_exact blob payload flags h = (
  λ e.
      let (front, back) = unwrap-eq_ok blob payload flags e in
      let (rest, valid) = parse_flags-eq_ok (drop 4 blob) payload flags back in
      (
        sym (take-drop 4 blob)
            ∙ ap₂ (λ a b. a ++ b) (text_eq_sound (take 4 blob) magic front) rest
            ∙ magic_first,
        Known-of_test flags (sym (is_valid-known flags h) ∙ valid),
      ),
  λ (e, k). subst (λ b. unwrap b ≡ ok (flags, payload)) (sym e) (unwrap-wrap flags payload k),
)
  where
    magic_first : magic ++ flags ∷ payload ≡ wrap flags payload
    magic_first = refl
