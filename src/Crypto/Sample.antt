-- ===== src/Crypto/Sample.antt =====
-- A cipher for examples: the message, with a tag of 16 zero bytes.
use server_backup.Common.{
  ◌-◌, ◌≡◌, ap, sym, ◌∙◌, some, [], ◌∷◌, ◌++◌, arith, length, length-append, take,
  take-length-append,
}
use server_backup.Common.Texts.{Bytes}
use server_backup.Crypto.{Aead}
use server_backup.Crypto.Laws.{AeadLaws}

abbrev tag : Bytes
tag = 0 ∷ 0 ∷ 0 ∷ 0 ∷ 0 ∷ 0 ∷ 0 ∷ 0 ∷ 0 ∷ 0 ∷ 0 ∷ 0 ∷ 0 ∷ 0 ∷ 0 ∷ 0 ∷ []

abbrev pub plain_cipher : Aead
plain_cipher = record {
  encrypt = λ key nonce ad m. some (m ++ tag);
  decrypt = λ key nonce ad ct. some (take (length ct - 16) ct);
}

strip_tag : (m : Bytes) → take (length (m ++ tag) - 16) (m ++ tag) ≡ m
strip_tag m =
    let size : length (m ++ tag) - 16 ≡ length m = omega (arith, length-append m tag) in
    ap (λ k. take k (m ++ tag)) size ∙ take-length-append m tag

some-eq : (m ct : Bytes) → some (m ++ tag) ≡ some ct → m ++ tag ≡ ct
some-eq m ct e = cc

pub plain_cipher_laws : AeadLaws plain_cipher
plain_cipher_laws = record {
  decrypt-encrypt = λ key nonce ad m ct e.
      ap (λ l. some (take (length l - 16) l)) (sym (some-eq m ct e)) ∙ ap some (strip_tag m);
  length-encrypt = λ key nonce ad m ct e. ap length (sym (some-eq m ct e)) ∙ length-append m tag;
}
