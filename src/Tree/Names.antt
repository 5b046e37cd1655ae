-- ===== src/Tree/Names.antt =====
-- tree.rs: what `validate` accepts, the guard against path traversal.
use server_backup.Common.{
  ℕ, ◌≤◌, ◌≡◌, refl, ◌↔◌, ◌⊎◌, inl, inr, Bool, true, false, [], ◌∷◌, arith, ◌==◌, length, Has, All,
  Bool-cases, ◌≢◌,
}
use server_backup.Common.Texts.{
  Text, bytes, text_eq, text_eq_iff, has_byte, starts_with, strip_prefix,
}
use server_backup.Common.Errors.{Result, ok, err, ◌>>◌}
use server_backup.Tree.{
  Node, file, dir, ref, Nodes, nil, cons, ends_with_byte, is_bad_name, check_name, is_hex_digit,
  all_hex, check_hash, validate, validate_all,
}

-- A name that stays one component below its directory on every platform.
unfoldable pub SafeName : Text → Type 0
SafeName name =
    (name ≢ [])
    × (name ≢ bytes ".")
    × (name ≢ bytes "..")
    × ¬ Has b'/' name
    × ¬ Has 92 name
    × ¬ Has b':' name
    × ¬ Has 0 name

pub IsHexDigit : ℕ → Type 0
IsHexDigit c = ((b'0' ≤ c) × (c ≤ b'9')) ⊎ ((b'a' ≤ c) × (c ≤ b'f')) ⊎ ((b'A' ≤ c) × (c ≤ b'F'))

-- 64 hexadecimal digits.
pub IsHash : Text → Type 0
IsHash hash = (length hash ≡ 64) × All IsHexDigit hash

-- Every name in the tree is safe, and every reference holds a hash.
unfoldable mutual
  pub Safe : Node → Type 0
  Safe (file name size mode mtime chunks) = SafeName name
  Safe (dir name children) = SafeName name × SafeAll children
  Safe (ref name hash) = SafeName name × IsHash hash

  pub SafeAll : Nodes → Type 0
  SafeAll nil = Unit
  SafeAll (cons n ns) = Safe n × SafeAll ns

pub has_byte-Has : (c : ℕ) (s : Text) → has_byte c s ≡ true → Has c s
unfolding has_byte
has_byte-Has c [] h = ground arith
has_byte-Has c (x ∷ s) h = elim (Bool-cases (x == c)) [
  | inl e ↦ inl (ground arith)
  | inr e ↦ inr (has_byte-Has c s (ground arith))
]

pub Has-has_byte : (c : ℕ) (s : Text) → Has c s → has_byte c s ≡ true
unfolding has_byte
Has-has_byte c [] m = absurd m
Has-has_byte c (x ∷ s) (inl e) = ground arith
Has-has_byte c (x ∷ s) (inr m) = ground (arith, Has-has_byte c s m)

starts_with_slash : (s : Text) → starts_with (bytes "/") s ≡ true → has_byte b'/' s ≡ true
unfolding starts_with strip_prefix has_byte
starts_with_slash [] h = h
starts_with_slash (x ∷ s) h = ground arith

ends_with_slash : (s : Text) → ends_with_byte b'/' s ≡ true → has_byte b'/' s ≡ true
unfolding ends_with_byte has_byte
ends_with_slash [] h = h
ends_with_slash (x ∷ []) h = ground arith
ends_with_slash (x ∷ y ∷ s) h = ground (arith, ends_with_slash (y ∷ s) h)

good-SafeName : (name : Text) → is_bad_name name ≡ false → SafeName name
unfolding SafeName is_bad_name
good-SafeName name h = (
  λ e. ground (arith, text_eq_iff name []),
  λ e. ground (arith, text_eq_iff name (bytes ".")),
  λ e. ground (arith, text_eq_iff name (bytes "..")),
  λ m. ground (arith, Has-has_byte b'/' name m),
  λ m. ground (arith, Has-has_byte 92 name m),
  λ m. ground (arith, Has-has_byte b':' name m),
  λ m. ground (arith, Has-has_byte 0 name m),
)

pub none_false : {A : Type 0} (b : Bool) → (b ≡ true → A) → ¬ A → b ≡ false
none_false true f n = absurd (n (f refl))
none_false false f n = refl

SafeName-good : (name : Text) → SafeName name → is_bad_name name ≡ false
unfolding SafeName is_bad_name
SafeName-good name (empty, dot, dots, slash, back, colon, nul) =
    let no_slash = none_false (has_byte b'/' name) (has_byte-Has b'/' name) slash in
    let h1 = none_false (text_eq name []) (text_eq_iff name []).0 empty in
    let h2 = none_false (text_eq name (bytes ".")) (text_eq_iff name (bytes ".")).0 dot in
    let h3 = none_false (text_eq name (bytes "..")) (text_eq_iff name (bytes "..")).0 dots in
    let h4 = none_false (has_byte 92 name) (has_byte-Has 92 name) back in
    let h5 = none_false (has_byte b':' name) (has_byte-Has b':' name) colon in
    let h6 = none_false (has_byte 0 name) (has_byte-Has 0 name) nul in
    let h7 =
      none_false (starts_with (bytes "/") name)
        (λ h. has_byte-Has b'/' name (starts_with_slash name h)) slash in
    let h8 =
      none_false (ends_with_byte b'/' name) (λ h. has_byte-Has b'/' name (ends_with_slash name h))
        slash in
    ground arith

pub check_name_exact : (name : Text) → (check_name name ≡ ok tt) ↔ SafeName name
unfolding check_name
check_name_exact name = (λ h. good-SafeName name (ground arith), λ h. rw (SafeName-good name h))

all_hex_exact : (s : Text) → (all_hex s ≡ true) ↔ All IsHexDigit s
unfolding all_hex is_hex_digit IsHexDigit
all_hex_exact [] = (λ h. tt, λ h. refl)
all_hex_exact (c ∷ s) = (
  λ h. (ground arith, (all_hex_exact s).0 (ground arith)),
  λ (h, k). ground (arith, (all_hex_exact s).1 k),
)

check_hash_exact : (hash : Text) → (check_hash hash ≡ ok tt) ↔ IsHash hash
unfolding check_hash IsHash
check_hash_exact hash = (
  λ h. (ground arith, (all_hex_exact hash).0 (ground arith)),
  λ (h, k). ground (arith, (all_hex_exact hash).1 k),
)

then_exact :
    {A B : Type 0} (r q : Result (Unit {0}))
    → (r ≡ ok tt) ↔ A
    → (q ≡ ok tt) ↔ B
    → ((r >> q) ≡ ok tt) ↔ (A × B)
then_exact (ok tt) q f g = (λ h. (f.0 refl, g.0 h), λ (a, b). g.1 b)
then_exact (err e) q f g = (λ h. absurd (cc), λ (a, b). absurd (cc (f.1 a)))

last_exact :
    {A : Type 0} (r : Result (Unit {0})) → (r ≡ ok tt) ↔ A → ((r >> ok (tt {0})) ≡ ok tt) ↔ A
last_exact (ok tt) f = f
last_exact (err e) f = f

mutual
  unfolding validate validate_all Safe SafeAll

  validate_node_exact : (n : Node) → (validate n ≡ ok tt) ↔ Safe n
  validate_node_exact (file name size mode mtime chunks) = last_exact _ (check_name_exact name)
  validate_node_exact (dir name children) =
      then_exact _ _ (check_name_exact name) (validate_all_exact children)
  validate_node_exact (ref name hash) =
      then_exact _ _ (check_name_exact name) (check_hash_exact hash)

  validate_all_exact : (ns : Nodes) → (validate_all ns ≡ ok tt) ↔ SafeAll ns
  validate_all_exact nil = (λ h. tt, λ h. refl)
  validate_all_exact (cons n ns) = then_exact _ _ (validate_node_exact n) (validate_all_exact ns)

-- `validate` accepts a tree exactly when every name in it is a safe name, one that is not empty, a
-- dot, two dots, and has no slash, backslash, colon or zero byte, and every reference in it holds 64
-- hexadecimal digits.
pub validate_exact : (n : Node) → (validate n ≡ ok tt) ↔ Safe n
validate_exact n = validate_node_exact n
