-- ===== src/Repo/Paths.antt =====
-- repo.rs: safe_join, which places a restored name under the target. A path is the list of its
-- components.
use server_backup.Common.{
  ℕ, ◌≡◌, refl, ap, ◌∙◌, inl, inr, Bool, false, ◌||◌, List, [], ◌∷◌, ◌++◌, arith, ◌==◌,
  if◌then◌else◌, Has, All, Bool-cases, ◌≢◌,
}
use server_backup.Common.Texts.{Text, bytes, text_eq, text_eq_iff, has_byte}
use server_backup.Common.Errors.{Result, ok, err, bad_path}
use server_backup.Tree.Names.{SafeName, has_byte-Has, Has-has_byte, none_false}

-- `rel.split('/')`
unfoldable pub prepend : ℕ → List Text → List Text
prepend c [] = []
prepend c (segment ∷ rest) = (c ∷ segment) ∷ rest

unfoldable pub split_slash : Text → List Text
unfolding prepend
split_slash [] = [] ∷ []
split_slash (c ∷ s) = if c == b'/' then [] ∷ split_slash s else prepend c (split_slash s)

unfoldable pub is_bad_segment : Text → Bool
is_bad_segment segment =
    text_eq segment []
    || (text_eq segment (bytes ".")
        || (text_eq segment (bytes "..") || (has_byte 92 segment || has_byte b':' segment)))

-- The loop of `safe_join`; `out` is the path so far.
unfoldable pub push_segments : Text → List Text → List Text → Result (List Text)
unfolding is_bad_segment
push_segments rel out [] = ok out
push_segments rel out (segment ∷ rest) =
    if is_bad_segment segment
    then err (bad_path rel)
    else push_segments rel (out ++ segment ∷ []) rest

unfoldable pub safe_join : List Text → Text → Result (List Text)
unfolding split_slash push_segments
safe_join base rel = push_segments rel base (split_slash rel)

-- A component that does not lead out of the directory it is pushed onto.
pub Inside : Text → Type 0
Inside segment =
    (segment ≢ [])
    × (segment ≢ bytes ".")
    × (segment ≢ bytes "..")
    × ¬ Has 92 segment
    × ¬ Has b':' segment

Inside-good : (segment : Text) → is_bad_segment segment ≡ false → Inside segment
unfolding Inside is_bad_segment
Inside-good segment h = (
  λ e. ground (arith, text_eq_iff segment []),
  λ e. ground (arith, text_eq_iff segment (bytes ".")),
  λ e. ground (arith, text_eq_iff segment (bytes "..")),
  λ m. ground (arith, Has-has_byte 92 segment m),
  λ m. ground (arith, Has-has_byte b':' segment m),
)

append_nil : (xs : List Text) → xs ≡ xs ++ []
append_nil [] = refl
append_nil (x ∷ xs) = ap (λ l. x ∷ l) (append_nil xs)

append_assoc : (xs ys zs : List Text) → (xs ++ ys) ++ zs ≡ xs ++ (ys ++ zs)
append_assoc [] ys zs = refl
append_assoc (x ∷ xs) ys zs = ap (λ l. x ∷ l) (append_assoc xs ys zs)

push_segments-Inside :
    (rel : Text) (out segments joined : List Text)
    → push_segments rel out segments ≡ ok joined
    → (joined ≡ out ++ segments) × All Inside segments
unfolding push_segments
push_segments-Inside rel out [] joined h = (cc (h, append_nil out), tt)
push_segments-Inside rel out (segment ∷ rest) joined h =
    elim (Bool-cases (is_bad_segment segment)) [
      | inl e ↦ absurd (ground arith)
      | inr e ↦
          let (j, inside) =
            push_segments-Inside rel (out ++ segment ∷ []) rest joined (rw e at h) in
          (j ∙ append_assoc out (segment ∷ []) rest, (Inside-good segment e, inside))
    ]

good_segment : (name : Text) → SafeName name → is_bad_segment name ≡ false
unfolding is_bad_segment SafeName
good_segment name (empty, dot, dots, slash, back, colon, nul) =
    let h1 = none_false (text_eq name []) (text_eq_iff name []).0 empty in
    let h2 = none_false (text_eq name (bytes ".")) (text_eq_iff name (bytes ".")).0 dot in
    let h3 = none_false (text_eq name (bytes "..")) (text_eq_iff name (bytes "..")).0 dots in
    let h4 = none_false (has_byte 92 name) (has_byte-Has 92 name) back in
    let h5 = none_false (has_byte b':' name) (has_byte-Has b':' name) colon in ground arith

split_whole : (name : Text) → has_byte b'/' name ≡ false → split_slash name ≡ name ∷ []
unfolding split_slash prepend has_byte
split_whole [] h = refl
split_whole (c ∷ s) h = elim (Bool-cases (c == b'/')) [
  | inl e ↦ absurd (ground arith)
  | inr e ↦ rw e (ap (prepend c) (split_whole s (ground arith)))
]

-- Where the join succeeds, the result is the base with the segments of the name behind it, and none
-- of them is empty, a dot, two dots, or holds a backslash or a colon.
pub safe_join-Inside :
    (base : List Text) (rel : Text) (joined : List Text)
    → safe_join base rel ≡ ok joined
    → (joined ≡ base ++ split_slash rel) × All Inside (split_slash rel)
unfolding safe_join
safe_join-Inside base rel joined h = push_segments-Inside rel base (split_slash rel) joined h

-- A name that tree validation accepts is placed directly under the base.
pub safe_join-SafeName :
    (base : List Text) (name : Text) → SafeName name → safe_join base name ≡ ok (base ++ name ∷ [])
unfolding safe_join push_segments SafeName
safe_join-SafeName base name safe =
    let (empty, dot, dots, slash, back, colon, nul) = safe in
    rw (split_whole name (none_false (has_byte b'/' name) (has_byte-Has b'/' name) slash))
      (rw (good_segment name safe))
