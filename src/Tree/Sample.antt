-- ===== src/Tree/Sample.antt =====
-- An encoding for examples, in which only an empty directory is long.
use server_backup.Common.{
  ◌≡◌, refl, some, [], ◌∷◌, ◌++◌, ℕ, zero, suc, drop, length, ap, ◌<◌, arith,
}
use server_backup.Common.Texts.{Text, Bytes, bytes, text_eq, has_byte, starts_with, strip_prefix}
use server_backup.Common.Errors.{ok}
use server_backup.Tree.{
  Node, file, dir, ref, nil, cons, inline_limit, Encoding, NodeBlobs, validate, build_stored, build,
  store_node, check_name, is_bad_name, ends_with_byte, check_hash, all_hex, is_hex_digit, name_of,
}
use server_backup.Tree.Stored.{EncodingLaws}

abbrev zeros : ℕ → Bytes
zeros zero = []
zeros (suc n) = 0 ∷ zeros n

abbrev digits : ℕ → Text
digits zero = []
digits (suc n) = b'a' ∷ digits n

abbrev pub digest : Text
digest = digits 64

abbrev write : Node → Bytes
write (dir name nil) = zeros 5000 ++ name
write _ = []

abbrev pub sample : Encoding
sample = record {
  serialized = write;
  parse = λ b. some (dir (drop 5000 b) nil);
  hash = λ b. digest;
}

drop-zeros : (n : ℕ) (s : Bytes) → drop n (zeros n ++ s) ≡ s
drop-zeros zero s = refl
drop-zeros (suc n) s = drop-zeros n s

pub sample_laws : EncodingLaws sample
sample_laws = record { parse-serialized = go }
  where
    go :
        (n : Node) → inline_limit < length (write n) → some (dir (drop 5000 (write n)) nil) ≡ some n
    go (dir name nil) h = ap (λ t. some (dir t nil)) (drop-zeros 5000 name)
    go (dir name (cons n ns)) h = absurd (omega arith)
    go (file name size mode mtime chunks) h = absurd (omega arith)
    go (ref name hash) h = absurd (omega arith)

abbrev pub blobs : NodeBlobs
blobs = (digest, zeros 5000 ++ bytes "big") ∷ []

pub stored_home :
    build_stored sample (dir (bytes "home") (cons (dir (bytes "big") nil) nil))
    ≡ ok (dir (bytes "home") (cons (ref (bytes "big") digest) nil), blobs)
unfolding build_stored build store_node validate check_name is_bad_name ends_with_byte text_eq
    has_byte starts_with strip_prefix check_hash all_hex is_hex_digit name_of
stored_home = refl
