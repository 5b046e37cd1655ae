-- ===== src/Keys/Adding.antt =====
-- keys.rs: what adding a passphrase gives.
use server_backup.Common.{
  suc, ◌≡◌, refl, sym, ap, ◌∙◌, subst, Bool, true, false, none, some, ◌++◌, if◌then◌else◌, length,
}
use server_backup.Common.Texts.{Text, Bytes, bytes, text_eq, text_eq_refl, text_eq_sound}
use server_backup.Common.Decimal.{show_nat}
use server_backup.Common.Errors.{Result, ok, ok_injective}
use server_backup.Common.Actions.{>>=-eq_ok, lift-then}
use server_backup.Backend.{Objects, Backend, lookup, store, get, put}
use server_backup.Backend.Laws.{get-Outcome, put-Outcome, Outcome-ok, lookup-store}
use server_backup.Crypto.{RepoCrypto}
use server_backup.Keys.{Libraries, RepoConfig, KeyFile, Fresh, key_len, key_key, new_wrapped}
use server_backup.Keys.Slots.{
  Opened, read_config, open_any_slot, load_key_file, add_key, free_slot, key_add_backend,
}
use server_backup.Backend.Quiet.{quiet}
use server_backup.Keys.Opening.{Opens, Found, open_any_slot-Found, open_any_slot-Opens}
use server_backup.Keys.Removal.{read_config_ok}
use server_backup.Keys.Wrap.{LibraryLaws, IsDrawn, from_key_file-key_len, from_key_file-new_wrapped}
use server_backup.Keys.Free.{free_slot-unused}

-- What is written under a key is found there, and what was under another key that had a value stays.
pub store_here : (key : Text) (v : Bytes) (m : Objects) → lookup key (store key v m) ≡ some v
store_here key v m = lookup-store key key v m ∙ (rw (text_eq_refl key) refl)

store_there :
    (key other : Text) (v w : Bytes) (m : Objects)
    → lookup key m ≡ none
    → lookup other m ≡ some w
    → lookup other (store key v m) ≡ some w
store_there key other v w m unused at = lookup-store key other v m ∙ go (text_eq other key) refl
  where
    go : (b : Bool) → text_eq other key ≡ b → (if b then some v else lookup other m) ≡ some w
    go false e = at
    go true e =
        let same = text_eq_sound other key e in
        let no : none ≡ some w = sym unused ∙ subst (λ k. lookup k m ≡ some w) same at in
        absurd (cc)

module _ (lib : Libraries) where
  load_key_file_ok :
      (key : Text) (b b' : Backend) (file : KeyFile)
      → load_key_file lib key b ≡ (ok file, b')
      → b'.objects ≡ b.objects
  unfolding load_key_file
  load_key_file_ok key b b' file h =
      let (raw, c, q, k) = >>=-eq_ok (get key) _ b file b' h in
      ap (λ (r : Result KeyFile × Backend). r.1.objects) (sym k)
      ∙ (Outcome-ok (get-Outcome b key) q).1

  add_key_ok :
      (fresh : Fresh) (new_slot new_passphrase s : Text) (opened : Opened) (b b' : Backend)
      → add_key lib fresh new_slot new_passphrase opened b ≡ (ok s, b')
      → (s ≡ new_slot)
        × (file : KeyFile) × (made : RepoCrypto × KeyFile) × (new_wrapped lib fresh new_slot
              opened.1.key new_passphrase file.wrapped_key.kdf
            ≡ ok made)
        × (b'.objects ≡ store (key_key new_slot) (lib.key_file_bytes made.1) b.objects)
  unfolding add_key
  add_key_ok fresh new_slot new_passphrase s (slot, crypto) b b' h =
      let (file, c1, q1, h1) = >>=-eq_ok (load_key_file lib (key_key slot)) _ b s b' h in
      let (made, w, h2) =
        lift-then (new_wrapped lib fresh new_slot crypto.key new_passphrase file.wrapped_key.kdf) _
          c1 b' s h1 in
      let (_, c2, q2, h3) =
        >>=-eq_ok (put (key_key new_slot) (lib.key_file_bytes made.1)) _ c1 s b' h2 in
      let (_, written) =
        Outcome-ok (put-Outcome c1 (key_key new_slot) (lib.key_file_bytes made.1)) q2 in
      let answer : ◌≡◌ {A = Result Text} (ok new_slot) (ok s) =
        ap (λ (r : Result Text × Backend). r.0) h3 in
      (
        sym (ok_injective answer),
        file,
        made,
        w,
        ap (λ (r : Result Text × Backend). r.1.objects) (sym h3)
            ∙ written
            ∙ ap (store (key_key new_slot) (lib.key_file_bytes made.1))
                (load_key_file_ok (key_key slot) b c1 file q1),
      )

  Found-key_len :
      (passphrase : Text) (m : Objects) (opened : Opened)
      → Found lib passphrase m opened
      → length opened.1.key ≡ key_len
  Found-key_len passphrase m opened (slot, p, _, e) =
      ap (λ (c : RepoCrypto). length c.key) e
      ∙ from_key_file-key_len lib p.file passphrase p.crypto p.opened

  reopened :
      (passphrase s : Text) (m : Objects)
      → Opens lib passphrase m s
      → (config : RepoConfig)
      → (again : Opened) × (open_any_slot lib config passphrase (quiet m) ≡ (ok again, quiet m))
  reopened passphrase s m o config =
      let (again, e, _) = open_any_slot-Opens lib passphrase config m s o in (again, e)

  -- A new key file leaves the others as they are.
  Opens-store :
      (passphrase s t : Text) (file : KeyFile) (m : Objects)
      → lookup (key_key s) m ≡ none
      → Opens lib passphrase m t
      → Opens lib passphrase (store (key_key s) (lib.key_file_bytes file) m) t
  Opens-store passphrase s t file m free p = record {
    raw = p.raw;
    file = p.file;
    crypto = p.crypto;
    stored = store_there (key_key s) (key_key t) (lib.key_file_bytes file) p.raw m free p.stored;
    parsed = p.parsed;
    opened = p.opened;
  }

  module _ (laws : LibraryLaws lib) where
    -- With libraries that keep to their laws, and what is drawn of the right lengths: when adding a
    -- passphrase has returned a slot, that slot was free before, its new key file is the only object
    -- that has changed, and the new passphrase unwraps from it the master key that the current one
    -- opened. The repository opens with the new passphrase, whatever its configuration, and every
    -- key file that a passphrase opened before it still opens.
    pub key_add_backend_lem :
        (fresh : Fresh) (current new_passphrase s : Text) (b b' : Backend)
        → IsDrawn fresh
        → key_add_backend lib fresh current new_passphrase b ≡ (ok s, b')
        → (opened : Opened) × Found lib current b.objects opened
          × (lookup (key_key s) b.objects ≡ none)
          × (o : Opens lib new_passphrase b'.objects s) × (o.crypto.key ≡ opened.1.key)
          × (b'.objects ≡ store (key_key s) o.raw b.objects)
          × ((config : RepoConfig)
              → (again : Opened) × (open_any_slot lib config new_passphrase (quiet b'.objects)
                  ≡ (ok again, quiet b'.objects)))
          × ((passphrase t : Text)
              → Opens lib passphrase b.objects t
              → Opens lib passphrase b'.objects t)
    unfolding key_add_backend
    key_add_backend_lem fresh current new_passphrase s b b' drawn h =
        let (config, c1, q1, h1) = >>=-eq_ok (read_config lib) _ b s b' h in
        let (_, _, _, same1) = read_config_ok lib b c1 config q1 in
        let (opened, c2, q2, h2) = >>=-eq_ok (open_any_slot lib config current) _ c1 s b' h1 in
        let (found, same2) = open_any_slot-Found lib current config c1 c2 opened q2 in
        let (n, c3, q3, h3) =
          >>=-eq_ok (λ d. free_slot (suc (length d.objects)) 1 d) _ c2 s b' h2 in
        let (unused, same3) = free_slot-unused (suc (length c2.objects)) 1 c2 c3 n q3 in
        let (is_new, file, made, w, written) =
          add_key_ok fresh (bytes "key" ++ show_nat n) new_passphrase s opened c3 b' h3 in
        let same : c2.objects ≡ b.objects = same2 ∙ same1 in
        let here : Found lib current b.objects opened =
          subst (λ m. Found lib current m opened) same1 found in
        let free : lookup (key_key s) b.objects ≡ none =
          subst (λ m. lookup (key_key s) m ≡ none) same
            (subst (λ t. lookup (key_key t) c2.objects ≡ none) (sym is_new) unused) in
        let result : b'.objects ≡ store (key_key s) (lib.key_file_bytes made.1) b.objects =
          subst (λ t. b'.objects ≡ store (key_key t) (lib.key_file_bytes made.1) b.objects)
            (sym is_new)
            (written
              ∙ ap (store (key_key (bytes "key" ++ show_nat n)) (lib.key_file_bytes made.1))
                  (same3 ∙ same)) in
        let (opens, _, _) =
          from_key_file-new_wrapped lib laws fresh (bytes "key" ++ show_nat n) opened.1.key
            new_passphrase file.wrapped_key.kdf made drawn
            (Found-key_len current b.objects opened here) w in
        let o : Opens lib new_passphrase b'.objects s = record {
          raw = lib.key_file_bytes made.1;
          file = made.1;
          crypto = record { key_slot = bytes "key" ++ show_nat n; key = opened.1.key };
          stored =
              ap (lookup (key_key s)) result
              ∙ store_here (key_key s) (lib.key_file_bytes made.1) b.objects;
          parsed = laws.key_file made.1;
          opened = opens;
        } in
        (
          opened,
          here,
          free,
          o,
          refl,
          result,
          λ d. reopened new_passphrase s b'.objects o d,
          λ passphrase t p.
              subst (λ m. Opens lib passphrase m t) (sym result)
                (Opens-store passphrase s t made.1 b.objects free p),
        )
