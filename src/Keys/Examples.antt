-- ===== src/Keys/Examples.antt =====
-- keys.rs and repo.rs on a repository that is created, gets a second passphrase, and loses the first.
use server_backup.Common.{
  sort_by, ℕ, zero, suc, ◌≡◌, ◌≢◌, refl, true, false, none, some, [], ◌∷◌, inl, inr,
}
use server_backup.Common.Distinct.{Distinct}
use server_backup.Common.Decimal.{show_nat}
use server_backup.Common.Texts.{
  text_eq_iff, text_le, starts_with, strip_prefix, Text, Bytes, bytes, text_eq, contains,
}
use server_backup.Common.Errors.{ok}
use server_backup.Backend.{
  is_some, or_missing, remove, delete, trim_slashes, Objects, Backend, lookup, exists, attempt, put,
  store, list, keys_under, is_under, get,
}
use server_backup.Crypto.{RepoCrypto}
use server_backup.Keys.{
  slot_of, find_other, KdfParams, KeyFile, RepoConfig, ChunkerConfig, Fresh, key_key, new_wrapped,
  from_key_file, add_slots, slots_of,
}
use server_backup.Keys.Slots.{
  Opened, config_name, open_any_slot, free_slot, key_add_backend, key_remove_backend,
}
use server_backup.Backend.Quiet.{quiet}
use server_backup.Keys.Opening.{Opens, Found, open_any_slot-Found, open_any_slot-Opens}
use server_backup.Keys.Removal.{keys_of, after_removal, key_remove_backend_lem}
use server_backup.Keys.Free.{IsFirstFree, free_slot-IsFirstFree}
use server_backup.Keys.Wrap.{IsDrawn, from_key_file-new_wrapped}
use server_backup.Keys.Adding.{key_add_backend_lem}
use server_backup.Keys.Init.{
  OpenRepository, default_slot, new_config, init_with_kdf, open_repository,
  open_repository-init_with_kdf,
}
use server_backup.Keys.Sample.{sample, sample_laws}

abbrev zeros : ℕ → Bytes
zeros zero = []
zeros (suc n) = 0 ∷ zeros n

abbrev master : Bytes
master = zeros 32

abbrev fresh : Fresh
fresh = record { salt = zeros 16; nonce = zeros 24; created = bytes "now" }

fresh-IsDrawn : IsDrawn fresh
fresh-IsDrawn = record { salt = refl; nonce = refl }

abbrev cheap : KdfParams
cheap = record { memory_kib = 8; iterations = 1; parallelism = 1 }

abbrev sizes : ChunkerConfig
sizes = record { min_size = 64; avg_size = 256; max_size = 1024 }

abbrev file_in : Text → KeyFile
file_in slot = record {
  slot = slot;
  wrapped_key = record {
    id = slot;
    kdf = cheap;
    salt = zeros 16;
    nonce = zeros 24;
    wrapped = zeros 48;
    created = bytes "now";
  };
}

abbrev first_pass : Text
first_pass = bytes "one"

abbrev second_pass : Text
second_pass = bytes "two"

abbrev made : RepoCrypto × KeyFile
made = (record { key_slot = default_slot; key = master }, file_in default_slot)

made_run : new_wrapped sample fresh default_slot master first_pass cheap ≡ ok made
unfolding new_wrapped
made_run = refl

from_key_file-new_wrapped_example :
    (from_key_file sample (file_in default_slot) first_pass
      ≡ ok (record { key_slot = default_slot; key = master }))
    × (default_slot ≡ default_slot)
    × (made.0 ≡ record { key_slot = default_slot; key = master })
from_key_file-new_wrapped_example =
    from_key_file-new_wrapped sample sample_laws fresh default_slot master first_pass cheap made
      fresh-IsDrawn refl made_run

abbrev started : Objects
started =
    (key_key default_slot, sample.key_file_bytes (file_in default_slot))
    ∷ (config_name, sample.config_bytes (new_config (bytes "id") sizes))
    ∷ []

abbrev opened_repository : OpenRepository
opened_repository = record {
  config = new_config (bytes "id") sizes;
  crypto = some (record { key_slot = default_slot; key = master });
}

init_run :
    init_with_kdf sample (bytes "id") master fresh sizes first_pass cheap (quiet [])
    ≡ (ok opened_repository, quiet started)
unfolding init_with_kdf exists attempt lookup new_wrapped put store text_eq key_key
init_run = refl

open_repository-init_with_kdf_example :
    (lookup config_name [] ≡ none)
    × (open_repository sample first_pass (quiet started) ≡ (ok opened_repository, quiet started))
open_repository-init_with_kdf_example =
    open_repository-init_with_kdf sample sample_laws (bytes "id") master fresh sizes first_pass
      cheap (quiet []) (quiet started) opened_repository fresh-IsDrawn refl init_run

first-Opens : Opens sample first_pass started default_slot
unfolding lookup from_key_file text_eq key_key
first-Opens = record {
  raw = sample.key_file_bytes (file_in default_slot);
  file = file_in default_slot;
  crypto = record { key_slot = default_slot; key = master };
  stored = refl;
  parsed = refl;
  opened = refl;
}

-- The configuration names a slot that is not there.
abbrev elsewhere : RepoConfig
elsewhere = record (new_config (bytes "id") sizes) { key_slot = bytes "lost" }

open_any_slot-Opens_example :
    (opened : Opened) × (open_any_slot sample elsewhere first_pass (quiet started)
      ≡ (ok opened, quiet started))
    × Found sample first_pass started opened
open_any_slot-Opens_example =
    open_any_slot-Opens sample first_pass elsewhere started default_slot first-Opens

abbrev by_default : Opened
by_default = (default_slot, record { key_slot = default_slot; key = master })

-- The listing works and the configured key file cannot be read.
abbrev faulty : Backend
faulty = record { objects = started; faults = false ∷ true ∷ false ∷ [] }

open_run : open_any_slot sample elsewhere first_pass faulty ≡ (ok by_default, quiet started)
unfolding open_any_slot list attempt add_slots slots_of keys_under is_under key_key text_eq contains
    get lookup from_key_file
open_run = refl

open_any_slot-Found_example : Found sample first_pass started by_default × (started ≡ started)
open_any_slot-Found_example =
    open_any_slot-Found sample first_pass elsewhere faulty (quiet started) by_default open_run

abbrev key_one : Text
key_one = bytes "key1"

abbrev two_slots : Objects
two_slots =
    (key_key default_slot, sample.key_file_bytes (file_in default_slot))
    ∷ (config_name, sample.config_bytes (new_config (bytes "id") sizes))
    ∷ (key_key key_one, sample.key_file_bytes (file_in key_one))
    ∷ []

add_run :
    key_add_backend sample fresh first_pass second_pass (quiet started)
    ≡ (ok key_one, quiet two_slots)
unfolding key_add_backend exists attempt is_some or_missing lookup text_eq key_key get list
    add_slots slots_of slot_of keys_under is_under contains from_key_file new_wrapped put store
    trim_slashes starts_with strip_prefix show_nat
add_run = refl

key_add_backend_lem_example :
    (opened : Opened) × Found sample first_pass started opened
    × (lookup (key_key key_one) started ≡ none)
    × (o : Opens sample second_pass two_slots key_one) × (o.crypto.key ≡ opened.1.key)
    × (two_slots ≡ store (key_key key_one) o.raw started)
    × ((config : RepoConfig)
        → (again : Opened) × (open_any_slot sample config second_pass (quiet two_slots)
            ≡ (ok again, quiet two_slots)))
    × ((passphrase t : Text)
        → Opens sample passphrase started t
        → Opens sample passphrase two_slots t)
key_add_backend_lem_example =
    key_add_backend_lem sample sample_laws fresh first_pass second_pass key_one (quiet started)
      (quiet two_slots) fresh-IsDrawn add_run

free_slot-IsFirstFree_example :
    (k : ℕ) × (free_slot 4 1 (quiet two_slots) ≡ (ok k, quiet two_slots))
    × IsFirstFree two_slots 1 k
free_slot-IsFirstFree_example = free_slot-IsFirstFree two_slots

abbrev one_left : Objects
one_left =
    (
      config_name,
      sample.config_bytes (record (new_config (bytes "id") sizes) { key_slot = key_one }),
    )
    ∷ (key_key key_one, sample.key_file_bytes (file_in key_one))
    ∷ []

remove_run :
    key_remove_backend sample default_slot second_pass (quiet two_slots) ≡ (ok tt, quiet one_left)
unfolding key_remove_backend exists attempt is_some or_missing lookup text_eq key_key get list
    add_slots slots_of slot_of keys_under is_under contains from_key_file put store remove delete
    sort_by text_le trim_slashes starts_with strip_prefix find_other
remove_run = refl

apart : (s t : Text) → text_eq s t ≡ false → s ≢ t
apart s t other same = absurd (cc (other, (text_eq_iff s t).1 same))

two_slots-Distinct : Distinct (keys_of two_slots)
unfolding Distinct key_key text_eq
two_slots-Distinct = (
  λ m. elim m [
    | inl e ↦ apart (key_key default_slot) config_name refl e
    | inr (inl e) ↦ apart (key_key default_slot) (key_key key_one) refl e
    | inr (inr nothing) ↦ nothing
  ],
  (
    λ m. elim m [ inl e ↦ apart config_name (key_key key_one) refl e | inr nothing ↦ nothing ],
    (λ m. m, tt),
  ),
)

key_remove_backend_lem_example :
    (lookup (key_key default_slot) one_left ≡ none)
    × (config : RepoConfig) × (raw : Bytes) × (other : Text) × (file : Bytes) × (lookup config_name
          two_slots
        ≡ some raw)
    × (sample.parse_config raw ≡ some config)
    × (other ≢ default_slot)
    × (lookup (key_key other) two_slots ≡ some file)
    × (lookup (key_key other) one_left ≡ some file)
    × (one_left ≡ after_removal sample config default_slot other two_slots)
key_remove_backend_lem_example =
    key_remove_backend_lem sample default_slot second_pass (quiet two_slots) (quiet one_left)
      two_slots-Distinct remove_run
