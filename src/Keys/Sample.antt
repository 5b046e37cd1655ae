-- ===== src/Keys/Sample.antt =====
-- Libraries for examples: documents as lists of numbers, base64 as the identity, and the passphrase
-- itself as the key that Argon2id derives.
use server_backup.Common.{
  ℕ, ◌≡◌, refl, Bool, true, false, Option, none, some, [], ◌∷◌, ◌++◌, ◌==◌, length, take, drop,
  take-length-append, drop-length-append,
}
use server_backup.Common.Texts.{Text, Bytes}
use server_backup.Crypto.Sample.{plain_cipher, plain_cipher_laws}
use server_backup.Keys.{Libraries, KeyFile, RepoConfig}
use server_backup.Keys.Wrap.{LibraryLaws}

-- A text with its length in front.
abbrev text : Text → Bytes → Bytes
text t rest = length t ∷ (t ++ rest)

abbrev read_text : {A : Type 0} → Bytes → (Text → Bytes → Option A) → Option A
read_text [] k = none
read_text (n ∷ s) k = k (take n s) (drop n s)

abbrev read_number : {A : Type 0} → Bytes → (ℕ → Bytes → Option A) → Option A
read_number [] k = none
read_number (n ∷ s) k = k n s

abbrev key_file_bytes : KeyFile → Bytes
key_file_bytes f = text f.slot (
    text f.wrapped_key.id (
      f.wrapped_key.kdf.memory_kib
      ∷ f.wrapped_key.kdf.iterations
      ∷ f.wrapped_key.kdf.parallelism
      ∷ text f.wrapped_key.salt
          (text f.wrapped_key.nonce (text f.wrapped_key.wrapped (text f.wrapped_key.created [])))))

abbrev parse_key_file : Bytes → Option KeyFile
parse_key_file raw = read_text raw λ slot r. read_text r λ id r. read_number r λ m r.
    read_number r λ i r. read_number r λ p r. read_text r λ salt r. read_text r λ nonce r.
      read_text r λ wrapped r. read_text r λ created r. some (record {
        slot = slot;
        wrapped_key = record {
          id = id;
          kdf = record { memory_kib = m; iterations = i; parallelism = p };
          salt = salt;
          nonce = nonce;
          wrapped = wrapped;
          created = created;
        };
      })

abbrev flag : Bool → ℕ
flag true = 1
flag false = 0

abbrev config_bytes : RepoConfig → Bytes
config_bytes c =
    c.version
    ∷ flag c.encrypted
    ∷ c.chunker.min_size
    ∷ c.chunker.avg_size
    ∷ c.chunker.max_size
    ∷ text c.id (text c.key_slot [])

abbrev parse_config : Bytes → Option RepoConfig
parse_config raw = read_number raw λ version r. read_number r λ encrypted r. read_number r λ min r.
    read_number r λ avg r. read_number r λ max r. read_text r λ id r. read_text r λ slot r.
      some (record {
        version = version;
        id = id;
        chunker = record { min_size = min; avg_size = avg; max_size = max };
        encrypted = encrypted == 1;
        key_slot = slot;
      })

abbrev pub sample : Libraries
sample = record {
  cipher = plain_cipher;
  hash_password_into = λ passphrase salt params. some passphrase;
  encode_base64 = λ raw. raw;
  decode_base64 = λ encoded. some encoded;
  key_file_bytes = key_file_bytes;
  parse_key_file = parse_key_file;
  config_bytes = config_bytes;
  parse_config = parse_config;
}

flag_back : (b : Bool) → (flag b == 1) ≡ b
flag_back true = refl
flag_back false = refl

pub sample_laws : LibraryLaws sample
sample_laws = record {
  cipher = plain_cipher_laws;
  base64 = λ raw. refl;
  key_file = λ f. simp (take-length-append, drop-length-append);
  config = λ c. simp (take-length-append, drop-length-append, flag_back);
}
