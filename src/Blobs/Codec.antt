-- ===== src/Blobs/Codec.antt =====
-- blobs.rs: encoding and decoding a payload, plain and encrypted.
use Prim.Native.Nat.{bit_or}
use server_backup.Common.{
  ℕ, ◌+◌, ◌≤◌, ◌≡◌, refl, sym, ap, ◌∙◌, subst, ◌⊎◌, inl, inr, some, arith, ltb, leb, length,
  Bool-cases, Option-cases,
}
use server_backup.Common.Texts.{Bytes}
use server_backup.Common.Errors.{Result, Error, Result-cases, ok, err, malformed_blob, ◌>>=◌}
use server_backup.Crypto.{Aead, AeadContext, RepoCrypto, seal, open_sealed, nonce_len}
use server_backup.Crypto.Laws.{AeadLaws, open_sealed-seal}
use server_backup.Blobs.{
  wrap, Zstd, choose_level, keep_smaller, compress_payload, encode, decode, decode_zstd,
  decompress_payload, encrypt_and_encode, decrypt_payload, decrypt_and_decode,
}
use server_backup.Blobs.Envelope.{Known, unwrap-wrap}

-- zstd undoes its own compression, at every level.
pub record ZstdLaws (z : Zstd) : Type 0 where
  pub decode_all-encode_all :
      (payload c : Bytes) (level : ℕ)
      → z.encode_all payload level ≡ some c
      → z.decode_all c ≡ some payload

-- What compression may hand on: the payload as it is, or a shorter stream that decompresses to it.
data Compressed (z : Zstd) (payload : Bytes) (r : ℕ × Bytes) : Type 0 where
  stored : r ≡ (1, payload) → Compressed z payload r
  packed :
      (c : Bytes) (level : ℕ)
      → r ≡ (2, c)
      → z.encode_all payload level ≡ some c
      → length c + 1 ≤ length payload
      → Compressed z payload r

plain_or_zstd : (f : ℕ) → (f ≡ 1) ⊎ (f ≡ 2) → Known f
plain_or_zstd f (inl e) = inl e
plain_or_zstd f (inr e) = inr (inl e)

module _ (z : Zstd) where
  keep_smaller-Compressed :
      (payload : Bytes) (level : ℕ)
      → Compressed z payload (keep_smaller z payload (z.encode_all payload level))
  keep_smaller-Compressed payload level = elim (Option-cases (z.encode_all payload level)) [
    | inl e ↦ stored (unfold keep_smaller in rw e refl)
    | inr (c, e) ↦ elim (Bool-cases (ltb (length c) (length payload))) [
      | inl y ↦ packed c level (unfold keep_smaller in rw (e, y) refl) e (ground arith)
      | inr n ↦ stored (unfold keep_smaller in rw (e, n) refl)
    ]
  ]

  compress_payload-Compressed :
      (payload : Bytes) → Compressed z payload (compress_payload z payload)
  unfolding compress_payload
  compress_payload-Compressed payload = elim (Bool-cases (leb (choose_level payload) 1)) [
    | inl y ↦ stored (rw y refl)
    | inr n ↦ rw n (keep_smaller-Compressed payload (choose_level payload))
  ]

  Compressed-Known :
      (payload : Bytes) (r : ℕ × Bytes) → Compressed z payload r → (r.0 ≡ 1) ⊎ (r.0 ≡ 2)
  Compressed-Known payload r (stored e) = inl (ap (λ (p : ℕ × Bytes). p.0) e)
  Compressed-Known payload r (packed c level e _ _) = inr (ap (λ (p : ℕ × Bytes). p.0) e)

  Compressed-length :
      (payload : Bytes) (r : ℕ × Bytes) → Compressed z payload r → length r.1 ≤ length payload
  Compressed-length payload r (stored e) = omega (arith, ap (λ (p : ℕ × Bytes). length p.1) e)
  Compressed-length payload r (packed c level e _ short) =
      omega (arith, ap (λ (p : ℕ × Bytes). length p.1) e)

  -- An encoded payload is at most five bytes, the header, longer than the payload.
  pub length-encode : (payload : Bytes) → length (encode z payload) ≤ length payload + 5
  unfolding encode wrap
  length-encode payload = omega (
    arith,
    Compressed-length payload (compress_payload z payload) (compress_payload-Compressed payload),
  )

  module _ (laws : ZstdLaws z) where
    decompress-Compressed :
        (payload : Bytes) (r : ℕ × Bytes)
        → Compressed z payload r
        → decompress_payload z r.0 r.1 ≡ ok payload
    unfolding decompress_payload
    decompress-Compressed payload r (stored e) =
        subst (λ (p : ℕ × Bytes). decompress_payload z p.0 p.1 ≡ ok payload) (sym e) refl
    decompress-Compressed payload r (packed c level e enc_e _) =
        subst (λ (p : ℕ × Bytes). decompress_payload z p.0 p.1 ≡ ok payload) (sym e)
          (ap (decode_zstd z) (laws.decode_all-encode_all payload c level enc_e))

    -- With a compressor that decodes what it encodes, decoding gives back what was encoded,
    -- whether or not it was compressed.
    pub decode-encode : (payload : Bytes) → decode z (encode z payload) ≡ ok payload
    unfolding decode encode
    decode-encode payload =
        let r = compress_payload z payload in
        let how = compress_payload-Compressed payload in
        rw (unwrap-wrap r.0 r.1 (plain_or_zstd r.0 (Compressed-Known payload r how)))
          (decompress-Compressed payload r how)

    module _ (cipher : Aead) (aead : AeadLaws cipher) where
      encrypted-Known : (f : ℕ) → (f ≡ 1) ⊎ (f ≡ 2) → Known (bit_or f 4)
      encrypted-Known f (inl e) = rw e (inr (inr (inl refl)))
      encrypted-Known f (inr e) = rw e (inr (inr (inr refl)))

      decrypt_payload-flags :
          (c : RepoCrypto) (context : AeadContext) (f : ℕ) (sealed plaintext : Bytes)
          → (f ≡ 1) ⊎ (f ≡ 2)
          → open_sealed cipher c context sealed ≡ ok plaintext
          → decrypt_payload z cipher c context (bit_or f 4) sealed
            ≡ decompress_payload z f plaintext
      unfolding decrypt_payload
      decrypt_payload-flags c context f sealed plaintext (inl e) h = rw (e, h) refl
      decrypt_payload-flags c context f sealed plaintext (inr e) h = rw (e, h) refl

      -- With a compressor and a cipher that undo what they do and a nonce of the right length,
      -- what was encrypted and encoded comes back in the same context and under the same key.
      pub decrypt_and_decode-encrypt_and_encode :
          (c : RepoCrypto) (context : AeadContext) (nonce payload blob : Bytes)
          → length nonce ≡ nonce_len
          → encrypt_and_encode z cipher nonce c context payload ≡ ok blob
          → decrypt_and_decode z cipher c context blob ≡ ok payload
      decrypt_and_decode-encrypt_and_encode c context nonce payload blob n h =
          Result-cases (seal cipher nonce c context r.1)
            (decrypt_and_decode z cipher c context blob ≡ ok payload)
            (λ sealed e.
              subst (λ b. decrypt_and_decode z cipher c context b ≡ ok payload) (made sealed e)
                (opened sealed e))
            (λ error e. absurd (refused error e))
        where
          r : ℕ × Bytes
          r = compress_payload z payload

          how : Compressed z payload r
          how = compress_payload-Compressed payload

          from_seal :
              (result : Result Bytes)
              → seal cipher nonce c context r.1 ≡ result
              → (result >>= λ sealed. ok (wrap (bit_or r.0 4) sealed)) ≡ ok blob
          from_seal result e =
              subst (λ s. (s >>= λ sealed. ok (wrap (bit_or r.0 4) sealed)) ≡ ok blob) e
                (unfold encrypt_and_encode in h)

          made :
              (sealed : Bytes)
              → seal cipher nonce c context r.1 ≡ ok sealed
              → wrap (bit_or r.0 4) sealed ≡ blob
          made sealed e = let made_ok = from_seal (ok sealed) e in cc made_ok

          refused : (error : Error) → seal cipher nonce c context r.1 ≡ err error → ⊥
          refused error e = let never = from_seal (err error) e in cc never

          opened :
              (sealed : Bytes)
              → seal cipher nonce c context r.1 ≡ ok sealed
              → decrypt_and_decode z cipher c context (wrap (bit_or r.0 4) sealed) ≡ ok payload
          opened sealed e =
              unfold decrypt_and_decode in
              rw
                (unwrap-wrap (bit_or r.0 4) sealed
                  (encrypted-Known r.0 (Compressed-Known payload r how)))
                (decrypt_payload-flags c context r.0 sealed r.1 (Compressed-Known payload r how)
                    (open_sealed-seal cipher aead c context nonce r.1 sealed n e)
                  ∙ decompress-Compressed payload r how)

module _ (z : Zstd) (cipher : Aead) where
  reject_plain :
      (c : RepoCrypto) (context : AeadContext) (f : ℕ) (payload : Bytes)
      → (f ≡ 1) ⊎ (f ≡ 2)
      → decrypt_payload z cipher c context f payload ≡ err malformed_blob
  unfolding decrypt_payload
  reject_plain c context f payload (inl e) = rw e refl
  reject_plain c context f payload (inr e) = rw e refl

  -- A repository that encrypts refuses a blob that was encoded without encryption.
  pub decrypt_and_decode-encode :
      (c : RepoCrypto) (context : AeadContext) (payload : Bytes)
      → decrypt_and_decode z cipher c context (encode z payload) ≡ err malformed_blob
  unfolding decrypt_and_decode encode
  decrypt_and_decode-encode c context payload =
      let r = compress_payload z payload in
      let f = Compressed-Known z payload r (compress_payload-Compressed z payload) in
      rw (unwrap-wrap r.0 r.1 (plain_or_zstd r.0 f)) (reject_plain c context r.0 r.1 f)
