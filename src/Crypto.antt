-- ===== src/Crypto.antt =====
-- crates/aegis-core/src/crypto.rs and the sealing half of keys.rs: XChaCha20-Poly1305 over a master
-- key, with the blob's address as associated data. The cipher is the parameter `Aead`; the random
-- nonce that `RepoCrypto::seal` draws is an argument.
pub mod Laws
pub mod Sample
mod Examples
use server_backup.Common.{
  ℕ, ◌+◌, Option, none, some, List, ◌++◌, ltb, if◌then◌else◌, length, take, drop,
}
use server_backup.Common.Texts.{Text, Bytes, bytes}
use server_backup.Common.Errors.{Result, ok, err, encrypt_failed, decrypt_failed, ◌>>=◌}

abbrev pub nonce_len : ℕ
nonce_len = 24

-- XChaCha20Poly1305: key, nonce, associated data, message.
pub record Aead : Type 0 where
  pub encrypt : Bytes → Bytes → Bytes → Bytes → Option Bytes
  pub decrypt : Bytes → Bytes → Bytes → Bytes → Option Bytes

pub data AeadContext : Type 0 where
  hash : Text → AeadContext
  doc : AeadContext
  host : Text → AeadContext

unfoldable pub aad : AeadContext → Bytes
aad (hash hex) = bytes "aegis/blob/v1:" ++ hex
aad doc = bytes "aegis/doc/v1"
aad (host id) = bytes "aegis/host/v1:" ++ id

pub record RepoCrypto : Type 0 where
  pub key_slot : Text
  pub key : Bytes

unfoldable pub or_error : {A : Type 0} → Option A → Result A → Result A
or_error none e = e
or_error (some a) e = ok a

module _ (cipher : Aead) where
  -- crypto::seal and crypto::open
  unfoldable pub seal_with : Bytes → Bytes → Bytes → Bytes → Result Bytes
  unfolding or_error
  seal_with key nonce ad plaintext =
      or_error (cipher.encrypt key nonce ad plaintext) (err encrypt_failed)

  unfoldable pub open_with : Bytes → Bytes → Bytes → Result Bytes
  unfolding or_error
  open_with key ad sealed =
      if ltb (length sealed) (nonce_len + 16)
      then err decrypt_failed
      else or_error (cipher.decrypt key (take nonce_len sealed) ad (drop nonce_len sealed))
          (err decrypt_failed)

  -- RepoCrypto::seal and RepoCrypto::open
  unfoldable pub seal : Bytes → RepoCrypto → AeadContext → Bytes → Result Bytes
  unfolding seal_with
  seal nonce c context plaintext = do
    sealed ← seal_with c.key nonce (aad context) plaintext
    ok (nonce ++ sealed)

  unfoldable pub open_sealed : RepoCrypto → AeadContext → Bytes → Result Bytes
  unfolding open_with
  open_sealed c context sealed = open_with c.key (aad context) sealed
