-- ===== src/Crypto/Laws.antt =====
-- crypto.rs and keys.rs: sealing and opening, and the separation of the contexts.
use server_backup.Common.{
  ◌+◌, ◌≡◌, refl, ap, subst, some, ◌++◌, arith, ltb, length, length-append, take, Option-cases, inl,
  inr, false, drop, take-length-append, drop-length-append,
}
use server_backup.Common.Texts.{Bytes, bytes, text_eq}
use server_backup.Common.Errors.{ok}
use server_backup.Crypto.{
  Aead, AeadContext, hash, doc, host, aad, RepoCrypto, seal, open_sealed, open_with, nonce_len,
}

-- What the code relies on of the cipher: a message comes back under the same key, nonce and
-- associated data, and carries a tag of 16 bytes.
pub record AeadLaws (cipher : Aead) : Type 0 where
  pub decrypt-encrypt :
      (key nonce ad plain ct : Bytes)
      → cipher.encrypt key nonce ad plain ≡ some ct
      → cipher.decrypt key nonce ad ct ≡ some plain
  pub length-encrypt :
      (key nonce ad plain ct : Bytes)
      → cipher.encrypt key nonce ad plain ≡ some ct
      → length ct ≡ length plain + 16

module _ (cipher : Aead) where
  pub open_with-append :
      (key ad nonce ct plain : Bytes)
      → length nonce ≡ nonce_len
      → length ct ≡ length plain + 16
      → cipher.decrypt key nonce ad ct ≡ some plain
      → open_with cipher key ad (nonce ++ ct) ≡ ok plain
  unfolding open_with
  open_with-append key ad nonce ct plain n t d =
      let front : take nonce_len (nonce ++ ct) ≡ nonce =
        subst (λ k. take k (nonce ++ ct) ≡ nonce) n (take-length-append nonce ct) in
      let back : drop nonce_len (nonce ++ ct) ≡ ct =
        subst (λ k. drop k (nonce ++ ct) ≡ ct) n (drop-length-append nonce ct) in
      let long : ltb (length (nonce ++ ct)) (nonce_len + 16) ≡ false =
        ground (arith, length-append nonce ct) in
      rw (long, front, back, d)

  module _ (laws : AeadLaws cipher) where
    -- With a cipher that decrypts what it encrypts and a nonce of the right length, what `seal`
    -- returns, `open` opens again, in the same context and under the same key.
    pub open_sealed-seal :
        (c : RepoCrypto) (context : AeadContext) (nonce plain sealed : Bytes)
        → length nonce ≡ nonce_len
        → seal cipher nonce c context plain ≡ ok sealed
        → open_sealed cipher c context sealed ≡ ok plain
    unfolding seal open_sealed
    open_sealed-seal c context nonce plain sealed n h =
        elim (Option-cases (cipher.encrypt c.key nonce (aad context) plain)) [
          | inl e ↦ absurd (cc)
          | inr (ct, e) ↦
              subst (λ l. open_sealed cipher c context l ≡ ok plain)
                (let same : nonce ++ ct ≡ sealed = cc in same)
                (open_with-append c.key (aad context) nonce ct plain n
                  (laws.length-encrypt c.key nonce (aad context) plain ct e)
                  (laws.decrypt-encrypt c.key nonce (aad context) plain ct e))
        ]

-- Contexts that bind the same associated data are the same context.
pub aad_injective : (a b : AeadContext) → aad a ≡ aad b → a ≡ b
unfolding aad text_eq
aad_injective (hash x) (hash y) e = ap (λ l. hash (drop 14 l)) e
aad_injective (hash x) doc e = absurd (cc (ap (λ l. text_eq (take 7 l) (bytes "aegis/b")) e))
aad_injective (hash x) (host y) e = absurd (cc (ap (λ l. text_eq (take 7 l) (bytes "aegis/b")) e))
aad_injective doc (hash y) e = absurd (cc (ap (λ l. text_eq (take 7 l) (bytes "aegis/b")) e))
aad_injective doc doc e = refl
aad_injective doc (host y) e = absurd (cc (ap (λ l. text_eq (take 7 l) (bytes "aegis/h")) e))
aad_injective (host x) (hash y) e = absurd (cc (ap (λ l. text_eq (take 7 l) (bytes "aegis/b")) e))
aad_injective (host x) doc e = absurd (cc (ap (λ l. text_eq (take 7 l) (bytes "aegis/h")) e))
aad_injective (host x) (host y) e = ap (λ l. host (drop 14 l)) e
