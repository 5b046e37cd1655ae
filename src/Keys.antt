-- ===== src/Keys.antt =====
-- crates/aegis-core/src/keys.rs: the key files of a repository, and the operations on its passphrases;
-- with crypto.rs: the wrapping of the master key. Argon2id, base64 and the JSON of the documents are
-- parameters. A salt, a nonce and a timestamp that a new key file gets are arguments.
pub mod Wrap
pub mod Slots
pub mod Opening
pub mod Removal
pub mod Free
pub mod Adding
pub mod Init
pub mod Sample
mod Examples
use server_backup.Common.{
  ℕ, zero, suc, ◌+◌, ◌*◌, Bool, true, false, not, ◌&&◌, ◌||◌, Option, none, some, List, [], ◌∷◌,
  ◌++◌, ◌==◌, ltb, leb, if◌then◌else◌, length, sort_by,
}
use server_backup.Common.Texts.{Text, Bytes, bytes, text_eq, text_le, contains, strip_prefix}
use server_backup.Common.Decimal.{show_nat}
use server_backup.Common.Errors.{
  Error, Result, ok, err, kdf_failed, decrypt_failed, key_error, wrong_passphrase, malformed, ◌>>=◌,
}
use server_backup.Crypto.{Aead, RepoCrypto, nonce_len, seal_with, open_with}

abbrev pub key_len : ℕ
key_len = 32

abbrev pub salt_len : ℕ
salt_len = 16

pub record KdfParams : Type 0 where
  pub memory_kib : ℕ
  pub iterations : ℕ
  pub parallelism : ℕ

pub record WrappedKey : Type 0 where
  pub id : Text
  pub kdf : KdfParams
  pub salt : Text
  pub nonce : Text
  pub wrapped : Text
  pub created : Text

pub record KeyFile : Type 0 where
  pub slot : Text
  pub wrapped_key : WrappedKey

pub record WrappedSecret : Type 0 where
  pub salt : Bytes
  pub nonce : Bytes
  pub sealed : Bytes

pub record ChunkerConfig : Type 0 where
  pub min_size : ℕ
  pub avg_size : ℕ
  pub max_size : ℕ

pub record RepoConfig : Type 0 where
  pub version : ℕ
  pub id : Text
  pub chunker : ChunkerConfig
  pub encrypted : Bool
  pub key_slot : Text

pub record KeySlot : Type 0 where
  pub slot : Text
  pub created : Text
  pub kdf : KdfParams
  pub active : Bool

-- Argon2id, XChaCha20-Poly1305, base64, and serde_json on the two plaintext documents.
pub record Libraries : Type 0 where
  pub cipher : Aead
  pub hash_password_into : (passphrase salt : Bytes) → KdfParams → Option Bytes
  pub encode_base64 : Bytes → Text
  pub decode_base64 : Text → Option Bytes
  pub key_file_bytes : KeyFile → Bytes
  pub parse_key_file : Bytes → Option KeyFile
  pub config_bytes : RepoConfig → Bytes
  pub parse_config : Bytes → Option RepoConfig

-- What `new_wrapped` draws and reads from the clock.
pub record Fresh : Type 0 where
  pub salt : Bytes
  pub nonce : Bytes
  pub created : Text

unfoldable pub or_else : {A : Type 0} → Error → Option A → Result A
or_else e none = err e
or_else e (some a) = ok a

unfoldable pub key_key : Text → Text
key_key slot = bytes "keys/" ++ (slot ++ bytes ".json")

unfoldable pub cons_after : ℕ → Option Text → Option Text
cons_after c none = none
cons_after c (some s) = some (c ∷ s)

-- `s.strip_suffix(suffix)`
unfoldable pub strip_suffix : Text → Text → Option Text
unfolding cons_after
strip_suffix suffix [] = if text_eq [] suffix then some [] else none
strip_suffix suffix (c ∷ s) =
    let rest = strip_suffix suffix s in
    if text_eq (c ∷ s) suffix then some [] else cons_after c rest

unfoldable pub and_then_suffix : Option Text → Option Text
unfolding strip_suffix
and_then_suffix none = none
and_then_suffix (some rest) = strip_suffix (bytes ".json") rest

unfoldable pub slot_of : Text → Option Text
unfolding and_then_suffix
slot_of key = and_then_suffix (strip_prefix (bytes "keys/") key)

unfoldable pub cons_some : Option Text → List Text → List Text
cons_some none slots = slots
cons_some (some slot) slots = slot ∷ slots

-- `filter_map(slot_of)`
unfoldable pub slots_of : List Text → List Text
unfolding slot_of cons_some
slots_of [] = []
slots_of (key ∷ keys) = cons_some (slot_of key) (slots_of keys)

-- The configured slot, and behind it the others in the order of the listing.
unfoldable pub add_slots : List Text → List Text → List Text
add_slots slots [] = slots
add_slots slots (slot ∷ rest) =
    if contains slots slot then add_slots slots rest else add_slots (slots ++ slot ∷ []) rest

-- `slots.iter().find(|s| s != slot)`
unfoldable pub find_other : Text → List Text → Option Text
find_other slot [] = none
find_other slot (s ∷ rest) = if text_eq s slot then find_other slot rest else some s

unfoldable pub or_wrong_passphrase : Result Bytes → Result Bytes
or_wrong_passphrase (err e) = err wrong_passphrase
or_wrong_passphrase (ok key) = ok key

module _ (lib : Libraries) where
  unfoldable pub derive_kek : Text → Bytes → KdfParams → Result Bytes
  unfolding or_else
  derive_kek passphrase salt params =
      or_else kdf_failed (lib.hash_password_into passphrase salt params)

  unfoldable pub wrap_master_key :
      (salt nonce : Bytes) → Bytes → Text → KdfParams → Result WrappedSecret
  unfolding derive_kek seal_with
  wrap_master_key salt nonce master passphrase params = do
    kek ← derive_kek passphrase salt params
    sealed ← seal_with lib.cipher kek nonce (bytes "aegis/key-wrap") master
    ok (record { salt = salt; nonce = nonce; sealed = sealed })

  unfoldable pub unwrap_master_key : WrappedSecret → Text → KdfParams → Result Bytes
  unfolding derive_kek open_with
  unwrap_master_key secret passphrase params = do
    kek ← derive_kek passphrase secret.salt params
    opened ← open_with lib.cipher kek (bytes "aegis/key-wrap") (secret.nonce ++ secret.sealed)
    if length opened == key_len then ok opened else err decrypt_failed

  unfoldable pub b64_decode : Text → Result Bytes
  unfolding or_else
  b64_decode encoded = or_else key_error (lib.decode_base64 encoded)

  unfoldable pub new_wrapped :
      Fresh → Text → Bytes → Text → KdfParams → Result (RepoCrypto × KeyFile)
  unfolding wrap_master_key
  new_wrapped fresh key_slot master passphrase params = do
    secret ← wrap_master_key fresh.salt fresh.nonce master passphrase params
    ok (
      record { key_slot = key_slot; key = master },
      record {
        slot = key_slot;
        wrapped_key = record {
          id = key_slot;
          kdf = params;
          salt = lib.encode_base64 secret.salt;
          nonce = lib.encode_base64 secret.nonce;
          wrapped = lib.encode_base64 secret.sealed;
          created = fresh.created;
        };
      },
    )

  -- Decoded, and of the given length.
  unfoldable pub decode_len : ℕ → Text → Result Bytes
  unfolding b64_decode
  decode_len n encoded = do
    raw ← b64_decode encoded
    if length raw == n then ok raw else err key_error

  unfoldable pub from_key_file : KeyFile → Text → Result RepoCrypto
  unfolding decode_len b64_decode unwrap_master_key or_wrong_passphrase
  from_key_file file passphrase = do
    salt ← decode_len salt_len file.wrapped_key.salt
    nonce ← decode_len nonce_len file.wrapped_key.nonce
    sealed ← b64_decode file.wrapped_key.wrapped
    key ← or_wrong_passphrase (
        unwrap_master_key (record { salt = salt; nonce = nonce; sealed = sealed }) passphrase
          file.wrapped_key.kdf)
    ok (record { key_slot = file.slot; key = key })
