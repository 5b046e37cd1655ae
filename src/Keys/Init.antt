-- ===== src/Keys/Init.antt =====
-- repo.rs: init and open, with the check of the chunker's sizes from chunk.rs. What they give of a
-- repository is its configuration and its crypto; the backend is the state.
use server_backup.Common.{
  ℕ, ◌*◌, ◌≡◌, refl, sym, ap, ◌∙◌, inl, inr, Bool, true, false, not, ◌&&◌, ◌||◌, Option, none, some,
  List, [], ◌∷◌, ◌++◌, ◌==◌, ltb, leb, ==_iff, if◌then◌else◌, length, Bool-cases,
}
use server_backup.Common.Texts.{Text, Bytes, bytes, contains}
use server_backup.Common.Errors.{
  Result, ok, err, invalid_chunker_config, repo_exists, repo_not_found, unsupported_format,
  malformed, ok_injective,
}
use server_backup.Common.Actions.{Action, >>=-eq_ok, lift-then, lift, pure, throw, ◌>>=◌, ◌>>◌}
use server_backup.Backend.{
  Objects, Backend, lookup, store, exists, get, put, is_some, attempt, or_missing, list, keys_under,
}
use server_backup.Backend.Laws.{exists_Outcome, put-Outcome, Outcome-ok, is_some-none, lookup-store}
use server_backup.Crypto.{RepoCrypto}
use server_backup.Keys.{
  Libraries, KdfParams, ChunkerConfig, RepoConfig, KeyFile, Fresh, key_len, or_else, key_key,
  new_wrapped, add_slots, slots_of,
}
use server_backup.Keys.Slots.{config_name, open_any_slot, try_slots, next_slot}
use server_backup.Backend.Quiet.{quiet, get-quiet, get-quiet_objects, exists-quiet}
use server_backup.Keys.Opening.{Opens, try_raw-Opens}
use server_backup.Keys.Removal.{key_key-not_config}
use server_backup.Keys.Adding.{store_here}
use server_backup.Keys.Wrap.{LibraryLaws, IsDrawn, from_key_file-new_wrapped}

abbrev pub format_version : ℕ
format_version = 1

unfoldable pub validate_chunker : ChunkerConfig → Result (Unit {0})
validate_chunker c =
    if ltb c.min_size 64 || ltb (1024 * 1024 * 1024) c.max_size
    then err invalid_chunker_config
    else if not (leb c.min_size c.avg_size && leb c.avg_size c.max_size)
    then err invalid_chunker_config
    else ok tt

pub record OpenRepository : Type 0 where
  pub config : RepoConfig
  pub crypto : Option RepoCrypto

abbrev pub default_slot : Text
default_slot = bytes "default"

abbrev pub new_config : Text → ChunkerConfig → RepoConfig
new_config id chunker = record {
  version = format_version;
  id = id;
  chunker = chunker;
  encrypted = true;
  key_slot = default_slot;
}

module _ (lib : Libraries) where
  unfoldable pub create :
      (id master : Bytes) → Fresh → ChunkerConfig → Text → KdfParams → Action Backend OpenRepository
  create id master fresh chunker passphrase kdf =
      lift (new_wrapped lib fresh default_slot master passphrase kdf) >>= λ made.
      put (key_key default_slot) (lib.key_file_bytes made.1)
      >> (put config_name (lib.config_bytes (new_config id chunker))
          >> pure (record { config = new_config id chunker; crypto = some made.0 }))

  -- The random id and master key are arguments.
  unfoldable pub init_with_kdf :
      (id master : Bytes) → Fresh → ChunkerConfig → Text → KdfParams → Action Backend OpenRepository
  unfolding validate_chunker create
  init_with_kdf id master fresh chunker passphrase kdf =
      lift (validate_chunker chunker)
      >> (exists config_name >>= λ there.
          if there then throw repo_exists else create id master fresh chunker passphrase kdf)

  unfoldable pub open_crypto : RepoConfig → Text → Action Backend RepoCrypto
  unfolding open_any_slot
  open_crypto config passphrase = open_any_slot lib config passphrase >>= λ opened. pure opened.1

  unfoldable pub open_with_config : Text → RepoConfig → Action Backend OpenRepository
  unfolding open_crypto
  open_with_config passphrase config =
      if config.version == format_version
      then (if config.encrypted
          then (open_crypto config passphrase >>= λ crypto.
              pure (record { config = config; crypto = some crypto }))
          else pure (record { config = config; crypto = none }))
      else throw unsupported_format

  unfoldable pub open_repository : Text → Action Backend OpenRepository
  unfolding open_with_config or_else
  open_repository passphrase = exists config_name >>= λ there.
      if there
      then (get config_name >>= λ raw.
          lift (or_else malformed (lib.parse_config raw)) >>= open_with_config passphrase)
      else throw repo_not_found

  -- The configured slot is tried first.
  add_slots-first :
      (slot : Text) (rest : List Text) (slots : List Text)
      → (tail : List Text) × (add_slots (slot ∷ slots) rest ≡ slot ∷ tail)
  unfolding add_slots
  add_slots-first slot [] slots = (slots, refl)
  add_slots-first slot (s ∷ rest) slots = elim (Bool-cases (contains (slot ∷ slots) s)) [
    | inl e ↦ let (tail, k) = add_slots-first slot rest slots in (tail, rw e k)
    | inr e ↦ let (tail, k) = add_slots-first slot rest (slots ++ s ∷ []) in (tail, rw e k)
  ]

  create_ok :
      (id master : Bytes) (fresh : Fresh) (chunker : ChunkerConfig) (passphrase : Text)
      (kdf : KdfParams) (b b' : Backend) (repo : OpenRepository)
      → create id master fresh chunker passphrase kdf b ≡ (ok repo, b')
      → (made : RepoCrypto × KeyFile) × (new_wrapped lib fresh default_slot master passphrase kdf
          ≡ ok made)
        × (repo ≡ record { config = new_config id chunker; crypto = some made.0 })
        × (b'.objects
            ≡ store config_name
                (lib.config_bytes (new_config id chunker))
                (store (key_key default_slot) (lib.key_file_bytes made.1) b.objects))
  unfolding create
  create_ok id master fresh chunker passphrase kdf b b' repo h =
      let (made, w, h1) =
        lift-then (new_wrapped lib fresh default_slot master passphrase kdf) _ b b' repo h in
      let (_, c1, q1, h2) =
        >>=-eq_ok (put (key_key default_slot) (lib.key_file_bytes made.1)) _ b repo b' h1 in
      let (_, c2, q2, h3) =
        >>=-eq_ok (put config_name (lib.config_bytes (new_config id chunker))) _ c1 repo b' h2 in
      let (_, first) =
        Outcome-ok (put-Outcome b (key_key default_slot) (lib.key_file_bytes made.1)) q1 in
      let (_, second) =
        Outcome-ok (put-Outcome c1 config_name (lib.config_bytes (new_config id chunker))) q2 in
      (
        made,
        w,
        sym (ok_injective (ap (λ (r : Result OpenRepository × Backend). r.0) h3)),
        ap (λ (r : Result OpenRepository × Backend). r.1.objects) (sym h3)
            ∙ second
            ∙ ap (store config_name (lib.config_bytes (new_config id chunker))) first,
      )

  init_with_kdf_ok :
      (id master : Bytes) (fresh : Fresh) (chunker : ChunkerConfig) (passphrase : Text)
      (kdf : KdfParams) (b b' : Backend) (repo : OpenRepository)
      → init_with_kdf id master fresh chunker passphrase kdf b ≡ (ok repo, b')
      → (lookup config_name b.objects ≡ none)
        × (c : Backend) × (c.objects ≡ b.objects)
        × (create id master fresh chunker passphrase kdf c ≡ (ok repo, b'))
  unfolding init_with_kdf
  init_with_kdf_ok id master fresh chunker passphrase kdf b b' repo h =
      let (_, _, h1) = lift-then (validate_chunker chunker) _ b b' repo h in
      let (there, c, q, h2) = >>=-eq_ok (exists config_name) _ b repo b' h1 in
      let (found, objects) = Outcome-ok (exists_Outcome b config_name) q in
      absent there c found objects h2
    where
      absent :
          (there : Bool) (c : Backend)
          → there ≡ is_some (lookup config_name b.objects)
          → c.objects ≡ b.objects
          → ◌≡◌ {A = Result OpenRepository × Backend}
              ((if there then throw repo_exists else create id master fresh chunker passphrase kdf)
                c)
              (ok repo, b')
          → (lookup config_name b.objects ≡ none)
            × (d : Backend) × (d.objects ≡ b.objects)
            × (create id master fresh chunker passphrase kdf d ≡ (ok repo, b'))
      absent true c found objects k = absurd (cc)
      absent false c found objects k =
          (is_some-none (lookup config_name b.objects) (sym found), c, objects, k)

  -- The first slot that is tried is the configured one.
  open_any_slot-first :
      (config : RepoConfig) (passphrase : Text) (m : Objects)
      (o : Opens lib passphrase m config.key_slot)
      → open_any_slot lib config passphrase (quiet m) ≡ (ok (o.file.slot, o.crypto), quiet m)
  unfolding open_any_slot try_slots next_slot list attempt
  open_any_slot-first config passphrase m o =
      let (tail, e) = add_slots-first config.key_slot (slots_of (keys_under (bytes "keys") m)) [] in
      rw
        (
          e,
          try_raw-Opens lib passphrase m config.key_slot o,
          get-quiet_objects (key_key config.key_slot) m,
        )
        refl

  open_repository-stored :
      (config : RepoConfig) (raw : Bytes) (passphrase : Text) (m : Objects)
      (o : Opens lib passphrase m config.key_slot)
      → lookup config_name m ≡ some raw
      → lib.parse_config raw ≡ some config
      → config.version ≡ format_version
      → config.encrypted ≡ true
      → open_repository passphrase (quiet m)
        ≡ (ok (record { config = config; crypto = some o.crypto }), quiet m)
  unfolding open_repository open_with_config open_crypto or_else or_missing is_some
  open_repository-stored config raw passphrase m o at parsed version encrypted =
      rw
        (
          exists-quiet config_name m,
          at,
          get-quiet config_name m,
          at,
          parsed,
          (==_iff config.version format_version).1 version,
          encrypted,
          open_any_slot-first config passphrase m o,
        )
        refl

  module _ (laws : LibraryLaws lib) where
    -- With libraries that keep to their laws, and what is drawn of the right lengths: a repository that
    -- `init` has returned was not there before, and `open` gives it again under the same passphrase,
    -- with the same configuration and the same master key.
    pub open_repository-init_with_kdf :
        (id master : Bytes) (fresh : Fresh) (chunker : ChunkerConfig) (passphrase : Text)
        (kdf : KdfParams) (b b' : Backend) (repo : OpenRepository)
        → IsDrawn fresh
        → length master ≡ key_len
        → init_with_kdf id master fresh chunker passphrase kdf b ≡ (ok repo, b')
        → (lookup config_name b.objects ≡ none)
          × (open_repository passphrase (quiet b'.objects) ≡ (ok repo, quiet b'.objects))
    open_repository-init_with_kdf id master fresh chunker passphrase kdf b b' repo drawn n h =
        let (absent, c, same, h1) =
          init_with_kdf_ok id master fresh chunker passphrase kdf b b' repo h in
        let (made, w, is_repo, objects) =
          create_ok id master fresh chunker passphrase kdf c b' repo h1 in
        let (opens, _, crypto) =
          from_key_file-new_wrapped lib laws fresh default_slot master passphrase kdf made drawn n
            w in
        let inner = store (key_key default_slot) (lib.key_file_bytes made.1) c.objects in
        let raw = lib.config_bytes (new_config id chunker) in
        let o : Opens lib passphrase b'.objects default_slot = record {
          raw = lib.key_file_bytes made.1;
          file = made.1;
          crypto = record { key_slot = default_slot; key = master };
          stored =
              ap (lookup (key_key default_slot)) objects
              ∙ lookup-store config_name (key_key default_slot) raw inner
              ∙ (rw (key_key-not_config default_slot)
                  (store_here (key_key default_slot) (lib.key_file_bytes made.1) c.objects));
          parsed = laws.key_file made.1;
          opened = opens;
        } in
        (
          absent,
          open_repository-stored (new_config id chunker) raw passphrase b'.objects o
                (ap (lookup config_name) objects ∙ store_here config_name raw inner)
                (laws.config (new_config id chunker)) refl refl
              ∙ ap (λ (r : OpenRepository). (ok r, quiet b'.objects))
                  (ap
                      (λ (x : RepoCrypto). record {
                        config = new_config id chunker;
                        crypto = some x;
                      })
                      (sym crypto)
                    ∙ sym is_repo),
        )
