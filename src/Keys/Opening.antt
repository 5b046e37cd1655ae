-- ===== src/Keys/Opening.antt =====
-- keys.rs: which passphrases open a repository.
use server_backup.Common.{
  ℕ, suc, ◌≡◌, refl, sym, ap, ◌∙◌, subst, inl, inr, Bool, true, false, Option, none, some, List, [],
  ◌∷◌, ◌++◌, arith, if◌then◌else◌, length, length-append, Has, Has-append_left, Has-append_right,
  Bool-cases,
}
use server_backup.Common.Texts.{
  Text, Bytes, bytes, text_eq, text_eq_refl, text_eq_sound, strip_prefix, strip_prefix-append,
  strip_prefix-eq_some, contains, contains-Has, starts_with,
}
use server_backup.Common.Errors.{Error, Result, ok, err, key_error}
use server_backup.Common.Actions.{>>=-eq_ok, returned, failed}
use server_backup.Backend.{
  Objects, Backend, lookup, get, list, keys_under, is_under, or_missing, attempt, trim_slashes,
}
use server_backup.Backend.Quiet.{quiet, get-quiet, get-quiet_objects}
use server_backup.Backend.Laws.{get-Outcome, list-Outcome, Outcome, Outcome-ok}
use server_backup.Crypto.{RepoCrypto}
use server_backup.Keys.{
  Libraries, KeyFile, RepoConfig, key_key, strip_suffix, cons_after, and_then_suffix, slot_of,
  cons_some, slots_of, add_slots, from_key_file,
}
use server_backup.Keys.Slots.{
  Opened, with_slot, next_slot, try_file, try_raw, try_slots, open_any_slot,
}

longer : (c : ℕ) (s suffix : Text) → text_eq (c ∷ (s ++ suffix)) suffix ≡ false
longer c s suffix = elim (Bool-cases (text_eq (c ∷ (s ++ suffix)) suffix)) [
  | inl e ↦
      let same : suc (length (s ++ suffix)) ≡ length suffix =
        ap length (text_eq_sound (c ∷ (s ++ suffix)) suffix e) in
      absurd (omega (arith, length-append s suffix))
  | inr e ↦ e
]

strip_suffix-append : (suffix s : Text) → strip_suffix suffix (s ++ suffix) ≡ some s
unfolding strip_suffix cons_after text_eq
strip_suffix-append suffix (c ∷ s) = rw (longer c s suffix, strip_suffix-append suffix s) refl
strip_suffix-append [] [] = refl
strip_suffix-append (c ∷ suffix) [] = rw (text_eq_refl (c ∷ suffix)) refl

strip_suffix-eq_some : (suffix s r : Text) → strip_suffix suffix s ≡ some r → s ≡ r ++ suffix
unfolding strip_suffix cons_after
strip_suffix-eq_some suffix [] r h = elim (Bool-cases (text_eq [] suffix)) [
  | inl e ↦
      let none_before : some [] ≡ some r = (rw e at h) in
      let empty : [] ≡ r = cc in text_eq_sound [] suffix e ∙ ap (λ l. l ++ suffix) empty
  | inr e ↦ let no : none ≡ some r = (rw e at h) in absurd (cc)
]
strip_suffix-eq_some suffix (c ∷ s) r h = elim (Bool-cases (text_eq (c ∷ s) suffix)) [
  | inl e ↦
      let none_before : some [] ≡ some r = (rw e at h) in
      let empty : [] ≡ r = cc in text_eq_sound (c ∷ s) suffix e ∙ ap (λ l. l ++ suffix) empty
  | inr e ↦ behind (strip_suffix suffix s) (λ t. strip_suffix-eq_some suffix s t) refl (rw e at h)
]
  where
    behind :
        (o : Option Text)
        → ((t : Text) → strip_suffix suffix s ≡ some t → s ≡ t ++ suffix)
        → strip_suffix suffix s ≡ o
        → cons_after c o ≡ some r
        → c ∷ s ≡ r ++ suffix
    behind none ih e k = absurd (cc)
    behind (some t) ih e k =
        let same : c ∷ t ≡ r = cc in ap (λ l. c ∷ l) (ih t e) ∙ ap (λ l. l ++ suffix) same

-- The name of a slot and the key of its file determine each other.
pub slot_of-key_key : (slot : Text) → slot_of (key_key slot) ≡ some slot
unfolding slot_of key_key and_then_suffix
slot_of-key_key slot =
    rw (strip_prefix-append (bytes "keys/") (slot ++ bytes ".json"))
      (strip_suffix-append (bytes ".json") slot)

pub slot_of-eq_some : (key slot : Text) → slot_of key ≡ some slot → key ≡ key_key slot
unfolding slot_of key_key and_then_suffix
slot_of-eq_some key slot h = go (strip_prefix (bytes "keys/") key) refl h
  where
    go :
        (o : Option Text)
        → strip_prefix (bytes "keys/") key ≡ o
        → and_then_suffix o ≡ some slot
        → key ≡ bytes "keys/" ++ (slot ++ bytes ".json")
    go none e k = absurd (cc)
    go (some rest) e k =
        strip_prefix-eq_some (bytes "keys/") key rest e
        ∙ ap (λ l. bytes "keys/" ++ l) (strip_suffix-eq_some (bytes ".json") rest slot k)

pub Has-slots_of :
    (slot : Text) (keys : List Text) → Has (key_key slot) keys → Has slot (slots_of keys)
unfolding slots_of cons_some
Has-slots_of slot [] m = m
Has-slots_of slot (key ∷ keys) (inl e) =
    rw (subst (λ k. slot_of k ≡ some slot) e (slot_of-key_key slot)) (inl refl)
Has-slots_of slot (key ∷ keys) (inr m) = go (slot_of key) (Has-slots_of slot keys m)
  where
    go : (o : Option Text) → Has slot (slots_of keys) → Has slot (cons_some o (slots_of keys))
    go none n = n
    go (some s) n = inr n

add_slots-keeps :
    (slot : Text) (slots rest : List Text) → Has slot slots → Has slot (add_slots slots rest)
unfolding add_slots
add_slots-keeps slot slots [] m = m
add_slots-keeps slot slots (s ∷ rest) m = elim (Bool-cases (contains slots s)) [
  | inl e ↦ rw e (add_slots-keeps slot slots rest m)
  | inr e ↦
      rw e (add_slots-keeps slot (slots ++ s ∷ []) rest (Has-append_left slot slots (s ∷ []) m))
]

Has-add_slots :
    (slot : Text) (slots rest : List Text) → Has slot rest → Has slot (add_slots slots rest)
unfolding add_slots
Has-add_slots slot slots [] m = absurd m
Has-add_slots slot slots (s ∷ rest) (inl e) = elim (Bool-cases (contains slots s)) [
  | inl c ↦
      rw c (
        add_slots-keeps slot slots rest (subst (λ t. Has t slots) (sym e) (contains-Has slots s c)))
  | inr c ↦
      rw c
        (add_slots-keeps slot (slots ++ s ∷ []) rest (Has-append_right slot slots (s ∷ []) (inl e)))
]
Has-add_slots slot slots (s ∷ rest) (inr m) = elim (Bool-cases (contains slots s)) [
  | inl c ↦ rw c (Has-add_slots slot slots rest m)
  | inr c ↦ rw c (Has-add_slots slot (slots ++ s ∷ []) rest m)
]

is_under-key_key : (slot : Text) → is_under (bytes "keys") (key_key slot) ≡ true
unfolding is_under key_key starts_with strip_prefix trim_slashes
is_under-key_key slot = refl

pub Has-keys_under :
    (slot : Text) (m : Objects) (raw : Bytes)
    → lookup (key_key slot) m ≡ some raw
    → Has (key_key slot) (keys_under (bytes "keys") m)
unfolding lookup keys_under
Has-keys_under slot [] raw h = absurd (cc)
Has-keys_under slot ((k, v) ∷ m) raw h = elim (Bool-cases (text_eq (key_key slot) k)) [
  | inl e ↦
      let same = text_eq_sound (key_key slot) k e in
      rw (subst (λ j. is_under (bytes "keys") j ≡ true) same (is_under-key_key slot)) (inl same)
  | inr e ↦ further (is_under (bytes "keys") k) (Has-keys_under slot m raw (rw e at h))
]
  where
    further :
        (b : Bool)
        → Has (key_key slot) (keys_under (bytes "keys") m)
        → Has
            (key_key slot)
            (if b then k ∷ keys_under (bytes "keys") m else keys_under (bytes "keys") m)
    further true n = inr n
    further false n = n

module _ (lib : Libraries) (passphrase : Text) where
  -- A key file under the slot's key that the passphrase opens.
  pub record Opens (m : Objects) (slot : Text) : Type 0 where
    pub raw : Bytes
    pub file : KeyFile
    pub crypto : RepoCrypto
    pub stored : lookup (key_key slot) m ≡ some raw
    pub parsed : lib.parse_key_file raw ≡ some file
    pub opened : from_key_file lib file passphrase ≡ ok crypto

  pub try_raw-Opens :
      (m : Objects) (slot : Text) (o : Opens m slot)
      → try_raw lib passphrase (get (key_key slot) (quiet m)).0 ≡ some (ok (o.file.slot, o.crypto))
  unfolding try_raw try_file with_slot or_missing
  try_raw-Opens m slot o = rw (get-quiet (key_key slot) m, o.stored, o.parsed, o.opened) refl

  try_slots-Opens :
      (m : Objects) (slot : Text) (slots : List Text) (last : Error)
      → Opens m slot
      → Has slot slots
      → (opened : Opened) × (try_slots lib passphrase slots last (quiet m) ≡ (ok opened, quiet m))
  unfolding try_slots next_slot
  try_slots-Opens m slot [] last o h = absurd h
  try_slots-Opens m slot (s ∷ slots) last o (inl e) =
      let here = subst (Opens m) e o in
      (
        (here.file.slot, here.crypto),
        rw (try_raw-Opens m s here, get-quiet_objects (key_key s) m) refl,
      )
  try_slots-Opens m slot (s ∷ slots) last o (inr h) = rw (get-quiet_objects (key_key s) m) (
      go (try_raw lib passphrase (get (key_key s) (quiet m)).0)
        (λ e. try_slots-Opens m slot slots e o h))
    where
      go :
          (r : Option (Result Opened))
          → ((e : Error)
              → (opened : Opened) × (try_slots lib passphrase slots e (quiet m)
                  ≡ (ok opened, quiet m)))
          → (opened : Opened) × (next_slot r (try_slots lib passphrase slots) last (quiet m)
              ≡ (ok opened, quiet m))
      go none later = later last
      go (some (ok x)) later = (x, refl)
      go (some (err e)) later = later e

  -- A key file that has been read, opened as the caller got it.
  abbrev pub Found : Objects → Opened → Type 0
  Found m opened =
      (slot : Text) × (o : Opens m slot) × (opened.0 ≡ o.file.slot) × (opened.1 ≡ o.crypto)

  try_slots-Found :
      (m : Objects) (slots : List Text) (last : Error) (b b' : Backend) (opened : Opened)
      → b.objects ≡ m
      → try_slots lib passphrase slots last b ≡ (ok opened, b')
      → Found m opened × (b'.objects ≡ m)
  unfolding try_slots next_slot try_raw try_file with_slot
  try_slots-Found m [] last b b' opened same h = absurd (cc)
  try_slots-Found m (slot ∷ slots) last b b' opened same h =
      go (get (key_key slot) b) (get-Outcome b (key_key slot)) h
        (λ e c k. try_slots-Found m slots e c b' opened k)
    where
      Later : Type 0
      Later =
          (e : Error) (c : Backend)
          → c.objects ≡ m
          → try_slots lib passphrase slots e c ≡ (ok opened, b')
          → Found m opened × (b'.objects ≡ m)

      by_crypto :
          (raw : Bytes) (file : KeyFile) (c : Backend) (r : Result RepoCrypto)
          → lookup (key_key slot) m ≡ some raw
          → c.objects ≡ m
          → lib.parse_key_file raw ≡ some file
          → from_key_file lib file passphrase ≡ r
          → next_slot (some (with_slot file.slot r)) (try_slots lib passphrase slots) last c
            ≡ (ok opened, b')
          → Later
          → Found m opened × (b'.objects ≡ m)
      by_crypto raw file c (err e) at_key same_c p x k later = later e c same_c k
      by_crypto raw file c (ok crypto) at_key same_c p x k later =
          let answer : ◌≡◌ {A = Result Opened} (ok (file.slot, crypto)) (ok opened) =
            ap (λ (q : Result Opened × Backend). q.0) k in
          let pair : ◌≡◌ {A = Opened} (file.slot, crypto) opened = cc in
          let o : Opens m slot = record {
            raw = raw;
            file = file;
            crypto = crypto;
            stored = at_key;
            parsed = p;
            opened = x;
          } in
          (
            (slot, o, ap (λ (q : Opened). q.0) (sym pair), ap (λ (q : Opened). q.1) (sym pair)),
            ap (λ (q : Result Opened × Backend). q.1.objects) (sym k) ∙ same_c,
          )

      parsed_as :
          (raw : Bytes) (c : Backend) (parsed : Option KeyFile)
          → lookup (key_key slot) m ≡ some raw
          → c.objects ≡ m
          → lib.parse_key_file raw ≡ parsed
          → next_slot (try_file lib passphrase parsed) (try_slots lib passphrase slots) last c
            ≡ (ok opened, b')
          → Later
          → Found m opened × (b'.objects ≡ m)
      parsed_as raw c none at_key same_c p k later = later last c same_c k
      parsed_as raw c (some file) at_key same_c p k later =
          by_crypto raw file c (from_key_file lib file passphrase) at_key same_c p refl k later

      go :
          (r : Result Bytes × Backend)
          → Outcome (λ v. lookup (key_key slot) b.objects ≡ some v) b.objects b.objects r
          → next_slot (try_raw lib passphrase r.0) (try_slots lib passphrase slots) last r.1
            ≡ (ok opened, b')
          → Later
          → Found m opened × (b'.objects ≡ m)
      go r (failed e c made objects) k later = later last c (objects ∙ same) (
          subst
            (λ (q : Result Bytes × Backend).
              next_slot (try_raw lib passphrase q.0) (try_slots lib passphrase slots) last q.1
              ≡ (ok opened, b'))
            made k)
      go r (returned raw c made (at_key, objects)) k later =
          parsed_as raw c (lib.parse_key_file raw)
            (subst (λ l. lookup (key_key slot) l ≡ some raw) same at_key) (objects ∙ same) refl
            (subst
              (λ (q : Result Bytes × Backend).
                next_slot (try_raw lib passphrase q.0) (try_slots lib passphrase slots) last q.1
                ≡ (ok opened, b'))
              made k)
            later

  -- Whatever the operating system answers: what a repository is opened with comes from a stored key
  -- file that the passphrase opens, and nothing is changed.
  pub open_any_slot-Found :
      (config : RepoConfig) (b b' : Backend) (opened : Opened)
      → open_any_slot lib config passphrase b ≡ (ok opened, b')
      → Found b.objects opened × (b'.objects ≡ b.objects)
  unfolding open_any_slot
  open_any_slot-Found config b b' opened h =
      let (keys, c, q, k) = >>=-eq_ok (list (bytes "keys")) _ b opened b' h in
      try_slots-Found b.objects _ key_error c b' opened (list_objects c keys q) k
    where
      list_objects :
          (c : Backend) (keys : List Text)
          → list (bytes "keys") b ≡ (ok keys, c)
          → c.objects ≡ b.objects
      list_objects c keys q = (Outcome-ok (list-Outcome b (bytes "keys")) q).1

  -- When no call fails, a passphrase that opens any one of the stored key files opens the repository,
  -- whatever slot the configuration names, and whatever the other key files hold.
  pub open_any_slot-Opens :
      (config : RepoConfig) (m : Objects) (slot : Text)
      → Opens m slot
      → (opened : Opened) × (open_any_slot lib config passphrase (quiet m) ≡ (ok opened, quiet m))
        × Found m opened
  unfolding open_any_slot list attempt
  open_any_slot-Opens config m slot o =
      let slots = add_slots (config.key_slot ∷ []) (slots_of (keys_under (bytes "keys") m)) in
      let (opened, h) = try_slots-Opens m slot slots key_error o (
        Has-add_slots slot (config.key_slot ∷ []) _
          (Has-slots_of slot _ (Has-keys_under slot m o.raw o.stored))) in
      (opened, h, (open_any_slot-Found config (quiet m) (quiet m) opened h).0)
