-- ===== src/Keys/Wrap.antt =====
-- keys.rs and crypto.rs: a wrapped master key comes back under its passphrase.
use server_backup.Common.{
  ℕ, ◌≡◌, refl, sym, ap, ◌∙◌, subst, inl, inr, Option, none, some, ◌++◌, ◌==◌, ==_iff,
  if◌then◌else◌, length, Bool-cases,
}
use server_backup.Common.Texts.{Text, Bytes, bytes}
use server_backup.Common.Errors.{
  Result, ok, err, decrypt_failed, encrypt_failed, bind-eq_ok, ok_injective,
}
use server_backup.Crypto.{RepoCrypto, nonce_len, seal_with, open_with, or_error}
use server_backup.Crypto.Laws.{AeadLaws, open_with-append}
use server_backup.Keys.{
  Libraries, KdfParams, KeyFile, RepoConfig, WrappedSecret, Fresh, key_len, salt_len, or_else,
  derive_kek, wrap_master_key, unwrap_master_key, b64_decode, new_wrapped, decode_len,
  or_wrong_passphrase, from_key_file,
}

-- What the code relies on: base64 and the JSON of a key file and of the configuration come back.
pub record LibraryLaws (lib : Libraries) : Type 0 where
  pub cipher : AeadLaws lib.cipher
  pub base64 : (raw : Bytes) → lib.decode_base64 (lib.encode_base64 raw) ≡ some raw
  pub key_file : (file : KeyFile) → lib.parse_key_file (lib.key_file_bytes file) ≡ some file
  pub config : (config : RepoConfig) → lib.parse_config (lib.config_bytes config) ≡ some config

-- What is drawn has the lengths of the arrays.
pub record IsDrawn (fresh : Fresh) : Type 0 where
  pub salt : length fresh.salt ≡ salt_len
  pub nonce : length fresh.nonce ≡ nonce_len

module _ (lib : Libraries) where
  seal_with_ok :
      (key nonce ad plain sealed : Bytes)
      → seal_with lib.cipher key nonce ad plain ≡ ok sealed
      → lib.cipher.encrypt key nonce ad plain ≡ some sealed
  unfolding seal_with or_error
  seal_with_ok key nonce ad plain sealed h = go (lib.cipher.encrypt key nonce ad plain) h
    where
      go : (o : Option Bytes) → or_error o (err encrypt_failed) ≡ ok sealed → o ≡ some sealed
      go none e = absurd (cc)
      go (some ct) e = ap some (cc)

  -- The key that a key file gives has the length of a key.
  pub from_key_file-key_len :
      (file : KeyFile) (passphrase : Text) (c : RepoCrypto)
      → from_key_file lib file passphrase ≡ ok c
      → length c.key ≡ key_len
  unfolding from_key_file or_wrong_passphrase unwrap_master_key
  from_key_file-key_len file passphrase c h =
      let (salt, _, h1) = bind-eq_ok (decode_len lib salt_len file.wrapped_key.salt) _ c h in
      let (nonce, _, h2) = bind-eq_ok (decode_len lib nonce_len file.wrapped_key.nonce) _ c h1 in
      let (sealed, _, h3) = bind-eq_ok (b64_decode lib file.wrapped_key.wrapped) _ c h2 in
      let secret : WrappedSecret = record { salt = salt; nonce = nonce; sealed = sealed } in
      let (key, u, h4) =
        bind-eq_ok
          (or_wrong_passphrase (unwrap_master_key lib secret passphrase file.wrapped_key.kdf)) _ c
          h3 in
      let made : record { key_slot = file.slot; key = key } ≡ c = cc in
      ap (λ (x : RepoCrypto). length x.key) (sym made)
      ∙ long secret file.wrapped_key.kdf key (inner _ key u)
    where
      inner : (r : Result Bytes) (key : Bytes) → or_wrong_passphrase r ≡ ok key → r ≡ ok key
      inner (ok k) key e = e
      inner (err x) key e = absurd (cc)

      sized :
          (raw key : Bytes)
          → (if length raw == key_len then ok raw else err decrypt_failed) ≡ ok key
          → length key ≡ key_len
      sized raw key e = elim (Bool-cases (length raw == key_len)) [
        | inl y ↦
            let all : ◌≡◌ {A = Result Bytes} (ok raw) (ok key) = (rw y at e) in
            let same : raw ≡ key = cc in ap length (sym same) ∙ (==_iff (length raw) key_len).0 y
        | inr n ↦
            let no : ◌≡◌ {A = Result Bytes} (err decrypt_failed) (ok key) = (rw n at e) in
            absurd (cc)
      ]

      long :
          (secret : WrappedSecret) (params : KdfParams) (key : Bytes)
          → unwrap_master_key lib secret passphrase params ≡ ok key
          → length key ≡ key_len
      long secret params key e =
          let (kek, _, e1) = bind-eq_ok (derive_kek lib passphrase secret.salt params) _ key e in
          let (opened, _, e2) =
            bind-eq_ok
              (open_with lib.cipher kek (bytes "aegis/key-wrap") (secret.nonce ++ secret.sealed)) _
              key e1 in
          sized opened key e2

  module _ (laws : LibraryLaws lib) where
    decode_len-encode :
        (n : ℕ) (raw : Bytes) → length raw ≡ n → decode_len lib n (lib.encode_base64 raw) ≡ ok raw
    unfolding decode_len b64_decode or_else
    decode_len-encode n raw e = rw (laws.base64 raw, (==_iff (length raw) n).1 e) refl

    b64_decode-encode : (raw : Bytes) → b64_decode lib (lib.encode_base64 raw) ≡ ok raw
    unfolding b64_decode or_else
    b64_decode-encode raw = rw (laws.base64 raw) refl

    unwrap_master_key-sealed :
        (salt nonce sealed kek master : Bytes) (passphrase : Text) (params : KdfParams)
        → derive_kek lib passphrase salt params ≡ ok kek
        → lib.cipher.encrypt kek nonce (bytes "aegis/key-wrap") master ≡ some sealed
        → length nonce ≡ nonce_len
        → length master ≡ key_len
        → unwrap_master_key lib
            (record { salt = salt; nonce = nonce; sealed = sealed })
            passphrase
            params
          ≡ ok master
    unfolding unwrap_master_key
    unwrap_master_key-sealed salt nonce sealed kek master passphrase params d e n k =
        let opens =
          open_with-append lib.cipher kek (bytes "aegis/key-wrap") nonce sealed master n
            (laws.cipher.length-encrypt kek nonce _ master sealed e)
            (laws.cipher.decrypt-encrypt kek nonce _ master sealed e) in
        rw (d, opens, (==_iff (length master) key_len).1 k) refl

    wrapped_file : Fresh → Text → Bytes → KdfParams → KeyFile
    wrapped_file fresh slot sealed params = record {
      slot = slot;
      wrapped_key = record {
        id = slot;
        kdf = params;
        salt = lib.encode_base64 fresh.salt;
        nonce = lib.encode_base64 fresh.nonce;
        wrapped = lib.encode_base64 sealed;
        created = fresh.created;
      };
    }

    from_key_file-wrapped :
        (fresh : Fresh) (slot : Text) (sealed master : Bytes) (passphrase : Text)
        (params : KdfParams)
        → IsDrawn fresh
        → unwrap_master_key lib
            (record { salt = fresh.salt; nonce = fresh.nonce; sealed = sealed })
            passphrase
            params
          ≡ ok master
        → from_key_file lib (wrapped_file fresh slot sealed params) passphrase
          ≡ ok (record { key_slot = slot; key = master })
    unfolding from_key_file or_wrong_passphrase wrapped_file
    from_key_file-wrapped fresh slot sealed master passphrase params drawn u =
        rw
          (
            decode_len-encode salt_len fresh.salt drawn.salt,
            decode_len-encode nonce_len fresh.nonce drawn.nonce,
            b64_decode-encode sealed,
            u,
          )
          refl

    -- With libraries that keep to their laws, and what is drawn of the right lengths: a master key that
    -- has been wrapped under a passphrase, that passphrase unwraps from the key file.
    pub from_key_file-new_wrapped :
        (fresh : Fresh) (slot : Text) (master : Bytes) (passphrase : Text) (params : KdfParams)
        (made : RepoCrypto × KeyFile)
        → IsDrawn fresh
        → length master ≡ key_len
        → new_wrapped lib fresh slot master passphrase params ≡ ok made
        → (from_key_file lib made.1 passphrase ≡ ok (record { key_slot = slot; key = master }))
          × (made.1.slot ≡ slot)
          × (made.0 ≡ record { key_slot = slot; key = master })
    unfolding new_wrapped wrap_master_key wrapped_file
    from_key_file-new_wrapped fresh slot master passphrase params made drawn n h =
        let (secret, w, h1) =
          bind-eq_ok (wrap_master_key lib fresh.salt fresh.nonce master passphrase params) _ made
            h in
        let (kek, d, w1) = bind-eq_ok (derive_kek lib passphrase fresh.salt params) _ secret w in
        let (sealed, s, w2) =
          bind-eq_ok (seal_with lib.cipher kek fresh.nonce (bytes "aegis/key-wrap") master) _ secret
            w1 in
        let same_secret : record { salt = fresh.salt; nonce = fresh.nonce; sealed = sealed }
            ≡ secret =
          cc in
        let opens = from_key_file-wrapped fresh slot sealed master passphrase params drawn (
          unwrap_master_key-sealed fresh.salt fresh.nonce sealed kek master passphrase params d
            (seal_with_ok kek fresh.nonce (bytes "aegis/key-wrap") master sealed s) drawn.nonce
            n) in
        let same_made = ap file_of same_secret ∙ ok_injective h1 in
        (
          subst
              (λ (q : RepoCrypto × KeyFile).
                from_key_file lib q.1 passphrase ≡ ok (record { key_slot = slot; key = master }))
              same_made opens,
          ap (λ (q : RepoCrypto × KeyFile). q.1.slot) (sym same_made),
          ap (λ (q : RepoCrypto × KeyFile). q.0) (sym same_made),
        )
      where
        file_of : WrappedSecret → RepoCrypto × KeyFile
        file_of x = (
          record { key_slot = slot; key = master },
          wrapped_file (record fresh { salt = x.salt; nonce = x.nonce }) slot x.sealed params,
        )
