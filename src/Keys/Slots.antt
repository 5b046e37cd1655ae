-- ===== src/Keys/Slots.antt =====
-- keys.rs: opening a repository by any of its key files, and adding, listing and removing them.
use server_backup.Common.{
  ℕ, zero, suc, ◌+◌, Option, none, some, List, [], ◌∷◌, ◌++◌, ◌==◌, if◌then◌else◌, length, sort_by,
}
use server_backup.Common.Texts.{Text, Bytes, bytes, text_eq, text_le, contains}
use server_backup.Common.Decimal.{show_nat}
use server_backup.Common.Errors.{Error, Result, ok, err, key_error, malformed, repo_not_found}
use server_backup.Common.Actions.{Action, pure, throw, lift, ◌>>=◌, ◌>>◌}
use server_backup.Backend.{Backend, get, put, exists, list, delete}
use server_backup.Crypto.{RepoCrypto}
use server_backup.Keys.{
  Libraries, KeyFile, KeySlot, RepoConfig, Fresh, or_else, key_key, slot_of, slots_of, add_slots,
  find_other, new_wrapped, from_key_file,
}

abbrev pub Opened : Type 0
Opened = Text × RepoCrypto

abbrev pub config_name : Text
config_name = bytes "config"

-- What a key file says of a passphrase: nothing where it cannot be read or parsed.
unfoldable pub with_slot : Text → Result RepoCrypto → Result Opened
with_slot slot (ok crypto) = ok (slot, crypto)
with_slot slot (err e) = err e

-- `Ok` ends the loop, and the failure of a passphrase is kept for its end.
unfoldable pub next_slot :
    Option (Result Opened) → (Error → Action Backend Opened) → Error → Action Backend Opened
next_slot none rest last = rest last
next_slot (some (ok opened)) rest last = pure opened
next_slot (some (err e)) rest last = rest e

-- The first free `key<N>` from `n` on.
unfoldable pub free_slot : ℕ → ℕ → Action Backend ℕ
free_slot zero n = throw key_error
free_slot (suc fuel) n = exists (key_key (bytes "key" ++ show_nat n)) >>= λ there.
    if there then free_slot fuel (n + 1) else pure n

module _ (lib : Libraries) where
  unfoldable pub read_config : Action Backend RepoConfig
  unfolding or_else
  read_config = exists config_name >>= λ there.
      if there
      then (get config_name >>= λ raw. lift (or_else malformed (lib.parse_config raw)))
      else throw repo_not_found

  unfoldable pub try_file : Text → Option KeyFile → Option (Result Opened)
  unfolding with_slot
  try_file passphrase none = none
  try_file passphrase (some file) = some (with_slot file.slot (from_key_file lib file passphrase))

  unfoldable pub try_raw : Text → Result Bytes → Option (Result Opened)
  unfolding try_file
  try_raw passphrase (err e) = none
  try_raw passphrase (ok raw) = try_file passphrase (lib.parse_key_file raw)

  unfoldable pub try_slots : Text → List Text → Error → Action Backend Opened
  unfolding next_slot try_raw
  try_slots passphrase [] last b = throw last b
  try_slots passphrase (slot ∷ rest) last b =
      next_slot (try_raw passphrase (get (key_key slot) b).0) (try_slots passphrase rest) last
        (get (key_key slot) b).1

  unfoldable pub open_any_slot : RepoConfig → Text → Action Backend Opened
  unfolding try_slots
  open_any_slot config passphrase = list (bytes "keys") >>= λ keys.
      try_slots passphrase (add_slots (config.key_slot ∷ []) (slots_of keys)) key_error

  unfoldable pub load_key_file : Text → Action Backend KeyFile
  load_key_file key = get key >>= λ raw. lift (or_else malformed (lib.parse_key_file raw))

  unfoldable pub add_key : Fresh → Text → Text → Opened → Action Backend Text
  unfolding free_slot load_key_file
  add_key fresh new_slot new_passphrase (slot, crypto) = load_key_file (key_key slot) >>= λ file.
      lift (new_wrapped lib fresh new_slot crypto.key new_passphrase file.wrapped_key.kdf)
      >>= λ made. put (key_key new_slot) (lib.key_file_bytes made.1) >> pure new_slot

  unfoldable pub key_add_backend : Fresh → Text → Text → Action Backend Text
  unfolding read_config open_any_slot add_key free_slot
  key_add_backend fresh current_passphrase new_passphrase = read_config >>= λ config.
      open_any_slot config current_passphrase >>= λ opened.
      (λ b. free_slot (suc (length b.objects)) 1 b) >>= λ n.
      add_key fresh (bytes "key" ++ show_nat n) new_passphrase opened

  unfoldable pub list_keys : RepoConfig → List Text → Action Backend (List KeySlot)
  unfolding load_key_file
  list_keys config [] = pure []
  list_keys config (key ∷ keys) =
      let rest = list_keys config keys in
      elim (slot_of key) [
        | none ↦ rest
        | some slot ↦ load_key_file key >>= λ file. rest >>= λ out. pure (
            record {
              slot = file.slot;
              created = file.wrapped_key.created;
              kdf = file.wrapped_key.kdf;
              active = text_eq slot config.key_slot;
            }
            ∷ out)
      ]

  unfoldable pub key_list_backend : Action Backend (List KeySlot)
  unfolding read_config list_keys
  key_list_backend = read_config >>= λ config.
      list (bytes "keys") >>= λ keys. list_keys config (sort_by text_le keys)

  -- The configuration names another slot than the removed one. Where there is none, the source panics;
  -- `find_other` has one whenever it gets here.
  unfoldable pub repoint : RepoConfig → Option Text → Action Backend (Unit {0})
  repoint config none = throw key_error
  repoint config (some other) =
      put config_name (lib.config_bytes (record config { key_slot = other }))

  unfoldable pub remove_slot : RepoConfig → Text → List Text → Action Backend (Unit {0})
  unfolding repoint find_other
  remove_slot config slot slots =
      if contains slots slot
      then (if length slots == 1
          then throw key_error
          else (delete (key_key slot)
              >> (if text_eq config.key_slot slot
                  then repoint config (find_other slot slots)
                  else pure tt)))
      else throw key_error

  unfoldable pub key_remove_backend : Text → Text → Action Backend (Unit {0})
  unfolding read_config open_any_slot remove_slot
  key_remove_backend slot passphrase = read_config >>= λ config.
      open_any_slot config passphrase >>= λ opened.
      list (bytes "keys") >>= λ keys. remove_slot config slot (slots_of (sort_by text_le keys))
