-- ===== src/Repo/Keys.antt =====
-- repo.rs: the layout of the keys, and the removal of a list of keys.
use server_backup.Common.{
  ℕ, zero, suc, ◌+◌, ◌≡◌, refl, sym, ap, ◌∙◌, false, none, List, [], ◌∷◌, ◌++◌, arith, length, drop,
  if◌then◌else◌, ◌==◌,
}
use server_backup.Common.Texts.{Text, contains}
use server_backup.Backend.{Objects, lookup, remove}
use server_backup.Backend.Laws.{lookup-remove}
use server_backup.Repo.{blob_key, snapshot_key, index_key}

first : Text → ℕ
first [] = 0
first (c ∷ s) = c

not_same : (a b : ℕ) → (a == b) ≡ false → a ≡ b → ⊥
not_same a b h e = ground arith

pub blob_key-not_snapshot : (h id : Text) → blob_key h ≡ snapshot_key id → ⊥
unfolding blob_key snapshot_key first
blob_key-not_snapshot h id e = not_same b'b' b's' refl (ap first e)

pub blob_key-not_index : (h id : Text) → blob_key h ≡ index_key id → ⊥
unfolding blob_key index_key first
blob_key-not_index h id e = not_same b'b' b'i' refl (ap first e)

pub index_key-not_snapshot : (h id : Text) → index_key h ≡ snapshot_key id → ⊥
unfolding index_key snapshot_key first
index_key-not_snapshot h id e = not_same b'i' b's' refl (ap first e)

-- The hash in a blob's key, read back from the key and the hash's length.
hash_of_key : ℕ → Text → Text
hash_of_key zero key = drop 7 key
hash_of_key (suc zero) key = drop 8 key
hash_of_key (suc (suc n)) key = drop 9 key

hash_of_blob_key : (h : Text) → hash_of_key (length h) (blob_key h) ≡ h
unfolding hash_of_key blob_key
hash_of_blob_key [] = refl
hash_of_blob_key (a ∷ []) = refl
hash_of_blob_key (a ∷ b ∷ h) = refl

key_length : ℕ → ℕ
key_length zero = 7
key_length (suc zero) = 9
key_length (suc (suc n)) = 11 + n

length-blob_key : (h : Text) → length (blob_key h) ≡ key_length (length h)
unfolding blob_key key_length
length-blob_key [] = refl
length-blob_key (a ∷ []) = refl
length-blob_key (a ∷ b ∷ h) = omega arith

key_length_injective : (m n : ℕ) → key_length m ≡ key_length n → m ≡ n
unfolding key_length
key_length_injective zero zero e = refl
key_length_injective zero (suc zero) e = omega arith
key_length_injective zero (suc (suc n)) e = omega arith
key_length_injective (suc zero) zero e = omega arith
key_length_injective (suc zero) (suc zero) e = refl
key_length_injective (suc zero) (suc (suc n)) e = omega arith
key_length_injective (suc (suc m)) zero e = omega arith
key_length_injective (suc (suc m)) (suc zero) e = omega arith
key_length_injective (suc (suc m)) (suc (suc n)) e = omega arith

pub blob_key_injective : (g h : Text) → blob_key g ≡ blob_key h → g ≡ h
blob_key_injective g h e =
    let lengths =
      key_length_injective (length g) (length h)
        (sym (length-blob_key g) ∙ ap length e ∙ length-blob_key h) in
    sym (hash_of_blob_key g)
    ∙ ap (λ n. hash_of_key n (blob_key g)) lengths
    ∙ ap (hash_of_key (length h)) e
    ∙ hash_of_blob_key h

unfoldable pub remove_keys : List Text → Objects → Objects
remove_keys [] m = m
remove_keys (k ∷ ks) m = remove_keys ks (remove k m)

pub remove_keys-append :
    (ks ls : List Text) (m : Objects) → remove_keys (ks ++ ls) m ≡ remove_keys ls (remove_keys ks m)
unfolding remove_keys
remove_keys-append [] ls m = refl
remove_keys-append (k ∷ ks) ls m = remove_keys-append ks ls (remove k m)

pub lookup-remove_keys :
    (j : Text) (ks : List Text) (m : Objects)
    → lookup j (remove_keys ks m) ≡ (if contains ks j then none else lookup j m)
unfolding remove_keys contains
lookup-remove_keys j [] m = refl
lookup-remove_keys j (k ∷ ks) m =
    ground (arith, lookup-remove_keys j ks (remove k m), lookup-remove k j m)
